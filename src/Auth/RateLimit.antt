-- ===== src/Auth/RateLimit.antt =====
-- internal/auth/ratelimit.go: the limiter of failed logins over the interface `kvStore`.
-- Times are nanoseconds of UTC. The mutex makes each method one step, so a method is a function
-- from the stored rows to the new rows and its results.
pub mod Stored
pub mod Purge
pub mod Lockout
pub mod Examples
use frp_easy.Prelude.{
  ℕ, ◌+◌, ◌-◌, ◌*◌, ◌≤◌, ◌≡◌, Bool, true, false, not, Option, none, some, List, [], ◌∷◌, ◌++◌, Text,
  codes, text_eq, Result, ok, err, if◌then◌else◌, ltb, leb,
}
use frp_easy.Storage.Kv.{Entry, Io, KvError}
use frp_easy.Storage.KvStore.{KvStore}

abbrev pub fail_window : ℕ
fail_window = 60 * 1000000000

abbrev pub fail_max : ℕ
fail_max = 5

unfoldable pub login_fail_key_prefix : Text
login_fail_key_prefix = codes "loginfail."

unfoldable pub key : Text → Text
key ip = login_fail_key_prefix ++ ip

pub record FailRecord : Type 0 where
  pub count : ℕ
  pub first_at : ℕ

-- json.Marshal and json.Unmarshal of a `failRecord`: RFC 3339 holds times up to the year 9999.
pub record Codec (V : Type 0) : Type 0 where
  pub marshal : FailRecord → Option V
  pub unmarshal : V → Option FailRecord
  pub last_time : ℕ
  pub marshal_lem :
      (r : FailRecord)
      → r.first_at ≤ last_time
      → (v : V) × (marshal r ≡ some v) × (unmarshal v ≡ some r)

pub data AuthError : Type 0 where
  empty_ip marshal_failed : AuthError
  store_error : KvError → AuthError

abbrev pub of_store : Option KvError → Option AuthError
of_store none = none
of_store (some e) = some (store_error e)

unfoldable pub is_expired : ℕ → FailRecord → Bool
is_expired now rec = ltb (rec.first_at + fail_window) now

abbrev pub first_error : Option KvError → Option KvError → Option KvError
first_error (some e) _ = some e
first_error none e = e

module _ {V : Type 0} (kv : KvStore V) (json : Codec V) where
  -- (*RateLimiter).read
  unfoldable pub read : Io → kv.State → Text → Option FailRecord
  read io s ip = elim (kv.get io s (key ip)) [
    | err e ↦ none
    | ok none ↦ none
    | ok (some v) ↦ json.unmarshal v
  ]

  -- (*RateLimiter).write
  unfoldable pub write : Io → kv.State → Text → FailRecord → kv.State × Option AuthError
  write io s ip rec = elim (json.marshal rec) [
    | none ↦ (s, some marshal_failed)
    | some v ↦ let (s', e) = kv.set io s (key ip) v in (s', of_store e)
  ]

  -- (*RateLimiter).Allow: the new rows, the verdict and the time to wait
  unfoldable pub allow : Io → ℕ → kv.State → Text → kv.State × Bool × ℕ
  unfolding read is_expired
  allow io now s ip = if text_eq ip [] then (s, true, 0) else elim (read io s ip) [
    | none ↦ (s, true, 0)
    | some rec ↦
        if ltb rec.count fail_max
        then (s, true, 0)
        else if is_expired now rec
        then ((kv.delete io s (key ip)).0, true, 0)
        else (s, false, rec.first_at + fail_window - now)
  ]

  -- the record that RecordFailure writes
  unfoldable pub next_record : ℕ → Option FailRecord → FailRecord
  unfolding is_expired
  next_record now none = record { count = 1; first_at = now }
  next_record now (some rec) =
      if is_expired now rec
      then record { count = 1; first_at = now }
      else record { count = rec.count + 1; first_at = rec.first_at }

  -- what RecordFailure returns after the write
  unfoldable pub failure_answer :
      ℕ → FailRecord → kv.State × Option AuthError → kv.State × ℕ × ℕ × Option AuthError
  failure_answer now rec (s', some x) = (s', rec.count, 0, some x)
  failure_answer now rec (s', none) =
      (s', rec.count, if leb fail_max rec.count then rec.first_at + fail_window - now else 0, none)

  -- (*RateLimiter).RecordFailure: the new rows, the count, the time to wait and the error
  unfoldable pub record_failure : Io → ℕ → kv.State → Text → kv.State × ℕ × ℕ × Option AuthError
  record_failure io now s ip =
      if text_eq ip []
      then (s, 0, 0, some empty_ip)
      else let rec = next_record now (read io s ip) in failure_answer now rec (write io s ip rec)

  -- (*RateLimiter).Reset
  unfoldable pub reset : Io → kv.State → Text → kv.State × Option AuthError
  reset io s ip =
      if text_eq ip [] then (s, none) else let (s', e) = kv.delete io s (key ip) in (s', of_store e)

  -- a corrupt value counts as expired
  unfoldable pub purges : ℕ → V → Bool
  unfolding is_expired
  purges now v = elim (json.unmarshal v) [ none ↦ true | some rec ↦ is_expired now rec ]

  -- the loop of PurgeExpired, with `purged` and `firstErr`
  unfoldable pub purge_loop :
      Io → ℕ → kv.State → ℕ → Option KvError → List (Entry V) → kv.State × ℕ × Option KvError
  unfolding purges
  purge_loop io now s purged first [] = (s, purged, first)
  purge_loop io now s purged first (e ∷ es) =
      let (s', x) = kv.delete io s e.key in
      let skip = purge_loop io now s purged first es in
      if purges now e.value
      then elim x [
        | some f ↦ purge_loop io now s' purged (first_error first (some f)) es
        | none ↦ purge_loop io now s' (purged + 1) first es
      ]
      else skip

  -- (*RateLimiter).PurgeExpired
  unfoldable pub purge_expired : Io → ℕ → kv.State → kv.State × ℕ × Option KvError
  unfolding purge_loop
  purge_expired io now s = elim (kv.list_by_prefix io s login_fail_key_prefix) [
    | err e ↦ (s, 0, some e)
    | ok entries ↦ purge_loop io now s 0 none entries
  ]
