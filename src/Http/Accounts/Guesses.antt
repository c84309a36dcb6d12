-- ===== src/Http/Accounts/Guesses.antt =====
-- How many passwords one address can try (internal/httpapi/handlers_auth.go over
-- internal/auth/ratelimit.go).
pub mod Own
pub mod Others
pub mod Bound
use frp_easy.Prelude.{
  ℕ, suc, ◌+◌, ◌-◌, ◌≤◌, ◌≡◌, pos, refl, sym, ap, ◌∙◌, Bool, true, false, not, ◌&&◌, ◌||◌, ◌⊎◌, inl,
  inr, Option, none, some, List, [], ◌∷◌, String, str_eq, Text, text_eq, text_eq_iff, text_eq_refl,
  Result, ok, err, All, if◌then◌else◌, ltb, leb, arith, Bool-cases, Option-cases,
}
use frp_easy.Storage.Kv.{Io, healthy}
use frp_easy.Storage.KvStore.{KvStore}
use frp_easy.Storage.Sessions.{Session, SessionRow, SessionError, Clock, create_session}
use frp_easy.Storage.Admin.{Admin, AdminError, SqliteNow, get_admin}
use frp_easy.Auth.RateLimit.{
  Codec, FailRecord, fail_window, fail_max, key, is_expired, allow, record_failure, next_record,
  reset, read,
}
use frp_easy.Auth.RateLimit.Stored.{record_at, record_of, read_lem, key_eq, blocks}
use frp_easy.Auth.RateLimit.Lockout.{record_failure-record_at, record_failure-value_at_ne}
use frp_easy.Auth.Hash.{Crypto, VerifyError, verify_password}
use frp_easy.Http.Validate.{Unicode}
use frp_easy.Http.Accounts.{
  Server, Call, Credentials, Reply, wrong_credentials, logged_in, login, refuse, refused,
  open_session, with_new_session, if_verified, check_credentials, login_body, if_allowed,
  is_verified, session_ttl,
}

-- a login as it arrives
pub record Try : Type 0 where
  pub call : Call
  pub body : Option Credentials

-- the times of a try lie in the 60 seconds from `from`, and the limiter's table works
pub record Within (from : ℕ) (x : Try) : Type 0 where
  pub allow_from : from ≤ x.call.allow_at
  pub allow_to : x.call.allow_at ≤ from + fail_window
  pub failure_from : from ≤ x.call.failure_at
  pub failure_to : x.call.failure_at ≤ from + fail_window
  pub allow_works : x.call.allow_io ≡ healthy
  pub failure_works : x.call.failure_io ≡ healthy

abbrev pub is_wrong : Reply → Bool
is_wrong (wrong_credentials _) = true
is_wrong _ = false

module _ {V : Type 0} (kv : KvStore V) (json : Codec V) (c : Clock) (now : SqliteNow c) (k : Crypto)
    (u : Unicode) where
  abbrev pub right_for : Credentials → Result AdminError (Option Admin) → Bool
  right_for b (err _) = false
  right_for b (ok none) = false
  right_for b (ok (some a)) =
      str_eq b.username a.username
      && is_verified kv json c now k u (verify_password k b.password a.password_hash)

  abbrev pub is_right : Call → Option Credentials → Server kv → Bool
  is_right q none s = false
  is_right q (some b) s = right_for b (get_admin c q.admin_io s.admin)

  -- the limiter lets the try in, and its credentials are right
  abbrev pub enters : Try → Server kv → Bool
  enters x s =
      (allow kv json x.call.allow_io x.call.allow_at s.fails x.call.ip).1
      && is_right x.call x.body s

  -- the state after a try, and its reply
  abbrev pub tried : Try → Server kv → Server kv × Reply
  tried x s = login kv json c now k u x.call x.body s

  -- how many passwords of an address are tested and found wrong before it enters
  unfoldable pub guesses : Text → Server kv → List Try → ℕ
  guesses ip s [] = 0
  guesses ip s (x ∷ xs) =
      let rest = guesses ip (tried x s).0 xs in
      if not (text_eq x.call.ip ip)
      then rest
      else if enters x s
      then 0
      else if is_wrong (tried x s).1
      then suc rest
      else rest

  -- `n` failures are on record, the first at a time in the 60 seconds from `from`
  abbrev pub Tracked : ℕ → Option FailRecord → ℕ → Type 0
  Tracked from r n =
      ((r ≡ none) × (n ≡ 0))
      ⊎ ((t : ℕ) × (r ≡ some (record { count = n; first_at = t }))
          × (from ≤ t)
          × (t ≤ from + fail_window)
          × (n ≤ 5))
