-- ===== src/Auth/RateLimit/Lockout.antt =====
-- How failed logins lock an address out, and for how long (internal/auth/ratelimit.go).
use frp_easy.Prelude.{
  ℕ, suc, ◌+◌, ◌≤◌, ◌≡◌, refl, true, false, ◌||◌, ◌⊎◌, Option, none, some, List, [], ◌∷◌, Text,
  text_eq, text_eq_iff, text_eq_refl, if◌then◌else◌, arith, Bool-cases, Option-cases, inl, inr, All,
  length, ltb, ◌∙◌, ap,
}
use frp_easy.Storage.Kv.{healthy}
use frp_easy.Storage.KvStore.{KvStore}
use frp_easy.Auth.RateLimit.{
  fail_window, fail_max, key, FailRecord, Codec, allow, record_failure, next_record, write,
  failure_answer, AuthError,
}
use frp_easy.Auth.RateLimit.Stored.{
  key_ne, key_eq, blocks, record_of, record_at, read_lem, allow-verdict,
}

-- a failed login: the address and the time
pub record Attempt : Type 0 where
  pub ip : Text
  pub at : ℕ

-- the times of the attempts of one address
unfoldable pub times_of : Text → List Attempt → List ℕ
times_of ip [] = []
times_of ip (a ∷ as') = let rest = times_of ip as' in if text_eq a.ip ip then a.at ∷ rest else rest

module _ {V : Type 0} (kv : KvStore V) (json : Codec V) where
  -- RecordFailure for each attempt in turn
  unfoldable pub record_failures : kv.State → List Attempt → kv.State
  record_failures s [] = s
  record_failures s (a ∷ as') = record_failures (record_failure kv json healthy a.at s a.ip).0 as'

  failure_answer-state :
      (now : ℕ) (rec : FailRecord) (w : kv.State × Option AuthError)
      → (failure_answer kv json now rec w).0 ≡ w.0
  unfolding failure_answer
  failure_answer-state now rec (s', some x) = refl
  failure_answer-state now rec (s', none) = refl

  record_failure-write :
      (now : ℕ) (s : kv.State) (ip : Text)
      → text_eq ip [] ≡ false
      → (record_failure kv json healthy now s ip).0
        ≡ (write kv json healthy s ip (next_record kv json now (record_at kv json s ip))).0
  unfolding record_failure
  record_failure-write now s ip h = rw (h, read_lem) (failure_answer-state now _ _)

  value_at-write :
      (s : kv.State) (ip j : Text) (rec : FailRecord)
      → (kv.value_at (write kv json healthy s ip rec).0 (key j) ≡ kv.value_at s (key j))
        ⊎ (text_eq ip j ≡ true)
  unfolding write
  value_at-write s ip j rec = elim (Option-cases (json.marshal rec)) [
    | inl e ↦ inl (rw (e, write))
    | inr (v, e) ↦ elim (Bool-cases (text_eq ip j)) [
      | inl same ↦ inr same
      | inr other ↦
          inl
            (rw (e, write, kv.set_law healthy s (key ip) (key j) v, key_ne ip, key_eq ip j, other))
    ]
  ]

  record_at-write :
      (s : kv.State) (ip : Text) (rec : FailRecord)
      → rec.first_at ≤ json.last_time
      → record_at kv json (write kv json healthy s ip rec).0 ip ≡ some rec
  unfolding write record_of
  record_at-write s ip rec fits =
      let (v, e, d) = json.marshal_lem rec fits in
      rw (e, write, kv.set_law healthy s (key ip) (key ip) v, key_ne ip, text_eq_refl (key ip)) d

  -- one failure writes the next record of its address
  pub record_failure-record_at :
      (now : ℕ) (s : kv.State) (ip : Text)
      → text_eq ip [] ≡ false
      → (next_record kv json now (record_at kv json s ip)).first_at ≤ json.last_time
      → record_at kv json (record_failure kv json healthy now s ip).0 ip
        ≡ some (next_record kv json now (record_at kv json s ip))
  record_failure-record_at now s ip h fits =
      rw (record_failure-write now s ip h) (record_at-write s ip _ fits)

  -- and leaves those of the others alone
  pub record_failure-value_at_ne :
      (now : ℕ) (s : kv.State) (ip j : Text)
      → text_eq ip j ≡ false
      → kv.value_at (record_failure kv json healthy now s ip).0 (key j) ≡ kv.value_at s (key j)
  record_failure-value_at_ne now s ip j h = elim (Bool-cases (text_eq ip [])) [
    | inl e ↦ unfold record_failure in rw e
    | inr e ↦
        rw (record_failure-write now s ip e)
          (ground (arith, value_at-write s ip j (next_record kv json now (record_at kv json s ip))))
  ]

  -- the record that a run of failures leads to
  abbrev counted : ℕ → ℕ → Option FailRecord
  counted n t = some (record { count = n; first_at = t })

  -- a failure within the window counts on
  record_failure-counted :
      (a : Attempt) (s : kv.State) (ip : Text) (n t : ℕ)
      → text_eq ip [] ≡ false
      → t ≤ json.last_time
      → text_eq a.ip ip ≡ true
      → a.at ≤ t + fail_window
      → record_at kv json s ip ≡ counted n t
      → record_at kv json (record_failure kv json healthy a.at s a.ip).0 ip ≡ counted (n + 1) t
  record_failure-counted a s ip n t h fits same early r =
      let next : next_record kv json a.at (record_at kv json s ip)
          ≡ record { count = n + 1; first_at = t } =
        rw r (unfold next_record in ground arith) in
      rw ((text_eq_iff a.ip ip).0 same)
        (record_failure-record_at a.at s ip h (rw next fits) ∙ ap some next)

  record_failures-counted :
      (s : kv.State) (ip : Text) (evs : List Attempt) (n t : ℕ)
      → text_eq ip [] ≡ false
      → t ≤ json.last_time
      → All (λ x. x ≤ t + fail_window) (times_of ip evs)
      → record_at kv json s ip ≡ counted n t
      → record_at kv json (record_failures s evs) ip ≡ counted (length (times_of ip evs) + n) t
  unfolding record_failures times_of
  record_failures-counted s ip [] n t h fits a r = let z : 0 + n ≡ n = omega arith in rw z r
  record_failures-counted s ip (e ∷ evs) n t h fits a r = elim (Bool-cases (text_eq e.ip ip)) [
    | inl same ↦
        let a' : (e.at ≤ t + fail_window) × All (λ x. x ≤ t + fail_window) (times_of ip evs) =
          rw same at a in
        let k : suc (length (times_of ip evs)) + n ≡ length (times_of ip evs) + (n + 1) =
          omega arith in
        rw (same, k)
          (record_failures-counted (record_failure kv json healthy e.at s e.ip).0 ip evs (n + 1) t h
            fits a'.1 (record_failure-counted e s ip n t h fits same a'.0 r))
    | inr other ↦ rw other (
        record_failures-counted (record_failure kv json healthy e.at s e.ip).0 ip evs n t h fits
          (rw other at a)
          (ap (record_of kv json) (record_failure-value_at_ne e.at s e.ip ip other) ∙ r))
  ]

  record_failures-first :
      (s : kv.State) (ip : Text) (evs : List Attempt) (t : ℕ) (ts : List ℕ)
      → text_eq ip [] ≡ false
      → t ≤ json.last_time
      → record_at kv json s ip ≡ none
      → times_of ip evs ≡ t ∷ ts
      → All (λ x. x ≤ t + fail_window) ts
      → record_at kv json (record_failures s evs) ip ≡ counted (length ts + 1) t
  unfolding record_failures times_of
  record_failures-first s ip [] t ts h fits fresh e a = cc
  record_failures-first s ip (x ∷ evs) t ts h fits fresh e a = elim (Bool-cases (text_eq x.ip ip)) [
    | inl same ↦
        let e' : x.at ∷ times_of ip evs ≡ t ∷ ts = rw same at e in
        let at_t : x.at ≡ t = cc in
        let rest : times_of ip evs ≡ ts = cc in
        let first : next_record kv json x.at (record_at kv json s ip)
            ≡ record { count = 1; first_at = t } =
          rw (fresh, at_t) (unfold next_record in refl) in
        let r : record_at kv json (record_failure kv json healthy x.at s x.ip).0 ip ≡ counted 1 t =
          rw ((text_eq_iff x.ip ip).0 same)
            (record_failure-record_at x.at s ip h (rw first fits) ∙ ap some first) in
        rw (← rest) (
          record_failures-counted (record_failure kv json healthy x.at s x.ip).0 ip evs 1 t h fits
            (rw rest a) r)
    | inr other ↦
        record_failures-first (record_failure kv json healthy x.at s x.ip).0 ip evs t ts h fits
          (ap (record_of kv json) (record_failure-value_at_ne x.at s x.ip ip other) ∙ fresh)
          (rw other at e) a
  ]

  -- While the store works: a non-empty address with no record is kept out at `now` exactly if its
  -- failed logins `t ∷ ts`, the first at a time that can be stored and the others not later than
  -- 60 seconds after it, are five or more and the 60 seconds are not over, whatever other addresses
  -- try meanwhile.
  pub lockout :
      (s : kv.State) (ip : Text) (evs : List Attempt) (now t : ℕ) (ts : List ℕ)
      → text_eq ip [] ≡ false
      → t ≤ json.last_time
      → record_at kv json s ip ≡ none
      → times_of ip evs ≡ t ∷ ts
      → All (λ x. x ≤ t + fail_window) ts
      → (allow kv json healthy now (record_failures s evs) ip).1
        ≡ (ltb (length (t ∷ ts)) fail_max || ltb (t + fail_window) now)
  lockout s ip evs now t ts h fits fresh e a =
      rw (allow-verdict, h, record_failures-first s ip evs t ts h fits fresh e a)
        (unfold blocks in ground arith)
