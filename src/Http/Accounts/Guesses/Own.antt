-- ===== src/Http/Accounts/Guesses/Own.antt =====
-- What a login does to the record of its own address (internal/httpapi/handlers_auth.go).
use frp_easy.Prelude.{
  ℕ, ◌+◌, ◌-◌, ◌≤◌, ◌≡◌, refl, ap, ◌∙◌, Bool, true, false, ◌⊎◌, inl, inr, Option, none, some, [],
  str_eq, Text, text_eq, Result, ok, err, ltb, arith, Bool-cases,
}
use frp_easy.Storage.Kv.{Io, healthy}
use frp_easy.Storage.KvStore.{KvStore}
use frp_easy.Storage.Sessions.{Clock}
use frp_easy.Storage.Admin.{Admin, AdminError, SqliteNow, get_admin}
use frp_easy.Auth.RateLimit.{Codec, FailRecord, fail_window, is_expired, allow, next_record}
use frp_easy.Auth.RateLimit.Stored.{record_at, read_lem}
use frp_easy.Auth.RateLimit.Lockout.{record_failure-record_at}
use frp_easy.Auth.Hash.{Crypto, VerifyError, verify_password}
use frp_easy.Http.Validate.{Unicode}
use frp_easy.Http.Accounts.{
  Server, Call, Credentials, login, refuse, if_verified, check_credentials, login_body, is_verified,
}
use frp_easy.Http.Accounts.Guesses.{
  Try, Within, is_wrong, right_for, is_right, enters, tried, Tracked,
}

module _ {V : Type 0} (kv : KvStore V) (json : Codec V) (c : Clock) (now : SqliteNow c) (k : Crypto)
    (u : Unicode) where
  allow-Tracked :
      (from at n : ℕ) (f : kv.State) (ip : Text)
      → text_eq ip [] ≡ false
      → at ≤ from + fail_window
      → Tracked kv json c now k u from (record_at kv json f ip) n
      → (w : ℕ) × (allow kv json healthy at f ip ≡ (f, ltb n 5, w))
  unfolding allow
  allow-Tracked from at n f ip ne early (inl (r, z)) =
      (0, rw (ne, read_lem kv json healthy f ip, r, z))
  allow-Tracked from at n f ip ne early (inr (t, r, lo, hi, le)) = elim (Bool-cases (ltb n 5)) [
    | inl e ↦ (0, rw (ne, read_lem kv json healthy f ip, r, e))
    | inr e ↦
        let fresh : ltb (t + fail_window) at ≡ false = ground (arith, early, lo) in
        (
          t + fail_window - at,
          rw (ne, read_lem kv json healthy f ip, r, e) (unfold is_expired in rw fresh),
        )
  ]

  refuse_wrong : (q : Call) (s : Server kv) → is_wrong (refuse kv json c now k u q s).1 ≡ true
  unfolding refuse
  refuse_wrong q s = refl

  next-Tracked :
      (from at n : ℕ) (r : Option FailRecord)
      → from ≤ at
      → at ≤ from + fail_window
      → ltb n 5 ≡ true
      → Tracked kv json c now k u from r n
      → Tracked kv json c now k u from (some (next_record kv json at r)) (n + 1)
  unfolding next_record is_expired
  next-Tracked from at n r lo hi lt (inl (e, z)) = rw (e, z) (inr (at, refl, lo, hi, omega arith))
  next-Tracked from at n r lo hi lt (inr (t, e, lo', hi', le)) =
      let fresh : ltb (t + fail_window) at ≡ false = ground (arith, hi, lo') in
      rw (e, fresh) (inr (t, refl, lo', hi', ground (arith, lt)))

  next_fits :
      (from at n : ℕ) (r : Option FailRecord)
      → from + fail_window ≤ json.last_time
      → from ≤ at
      → at ≤ from + fail_window
      → Tracked kv json c now k u from r n
      → (next_record kv json at r).first_at ≤ json.last_time
  unfolding next_record is_expired
  next_fits from at n r fits lo hi (inl (e, z)) = rw e (omega arith)
  next_fits from at n r fits lo hi (inr (t, e, lo', hi', le)) =
      let fresh : ltb (t + fail_window) at ≡ false = ground (arith, hi, lo') in
      rw (e, fresh) (omega arith)

  -- a refusal counts one more
  refuse-Tracked :
      (from n : ℕ) (x : Try) (s : Server kv)
      → text_eq x.call.ip [] ≡ false
      → from + fail_window ≤ json.last_time
      → Within from x
      → ltb n 5 ≡ true
      → Tracked kv json c now k u from (record_at kv json s.fails x.call.ip) n
      → Tracked kv json c now k u from
          (record_at kv json (refuse kv json c now k u x.call s).0.fails x.call.ip)
          (n + 1)
  unfolding refuse
  refuse-Tracked from n x s ne fits w lt tr =
      let r = record_at kv json s.fails x.call.ip in
      let written =
        record_failure-record_at kv json x.call.failure_at s.fails x.call.ip ne
          (next_fits from x.call.failure_at n r fits w.failure_from w.failure_to tr) in
      rw (w.failure_works, written)
        (next-Tracked from x.call.failure_at n r w.failure_from w.failure_to lt tr)

  -- without the right credentials a body is refused, or leaves the server as it is
  login_body-wrong :
      (q : Call) (b : Option Credentials) (s : Server kv)
      → is_right kv json c now k u q b s ≡ false
      → (login_body kv json c now k u q b s ≡ refuse kv json c now k u q s)
        ⊎ (((login_body kv json c now k u q b s).0 ≡ s)
            × (is_wrong (login_body kv json c now k u q b s).1 ≡ false))
  login_body-wrong q none s h = inr (refl, refl)
  login_body-wrong q (some b) s h = for_admin (get_admin c q.admin_io s.admin) h
    where
      for_verdict :
          (v : Result VerifyError Bool)
          → is_verified kv json c now k u v ≡ false
          → (if_verified kv json c now k u q s v ≡ refuse kv json c now k u q s)
            ⊎ (((if_verified kv json c now k u q s v).0 ≡ s)
                × (is_wrong (if_verified kv json c now k u q s v).1 ≡ false))
      for_verdict (err e) g = inr (refl, refl)
      for_verdict (ok false) g = inl refl
      for_verdict (ok true) g = cc

      for_admin :
          (a : Result AdminError (Option Admin))
          → right_for kv json c now k u b a ≡ false
          → (check_credentials kv json c now k u q b s a ≡ refuse kv json c now k u q s)
            ⊎ (((check_credentials kv json c now k u q b s a).0 ≡ s)
                × (is_wrong (check_credentials kv json c now k u q b s a).1 ≡ false))
      for_admin (err e) g = inr (refl, refl)
      for_admin (ok none) g = inr (refl, refl)
      for_admin (ok (some a)) g = elim (Bool-cases (str_eq b.username a.username)) [
        | inr e ↦ rw e (inl refl)
        | inl e ↦ rw e (for_verdict (verify_password k b.password a.password_hash) (rw e at g))
      ]

  -- a try that does not enter: tested and counted, or not tested
  pub own_step :
      (from n : ℕ) (x : Try) (s : Server kv)
      → text_eq x.call.ip [] ≡ false
      → from + fail_window ≤ json.last_time
      → Within from x
      → enters kv json c now k u x s ≡ false
      → Tracked kv json c now k u from (record_at kv json s.fails x.call.ip) n
      → ((is_wrong (tried kv json c now k u x s).1 ≡ true)
          × Tracked kv json c now k u from
              (record_at kv json (tried kv json c now k u x s).0.fails x.call.ip)
              (n + 1))
        ⊎ ((is_wrong (tried kv json c now k u x s).1 ≡ false)
            × Tracked kv json c now k u from
                (record_at kv json (tried kv json c now k u x s).0.fails x.call.ip)
                n)
  unfolding login
  own_step from n x s ne fits w out tr =
      let (t, answer) = allow-Tracked from x.call.allow_at n s.fails x.call.ip ne w.allow_to tr in
      let got : allow kv json x.call.allow_io x.call.allow_at s.fails x.call.ip
          ≡ (s.fails, ltb n 5, t) =
        ap (λ (io : Io). allow kv json io x.call.allow_at s.fails x.call.ip) w.allow_works
        ∙ answer in
      elim (Bool-cases (ltb n 5)) [
        | inr e ↦ rw (got, e) (inr (refl, tr))
        | inl e ↦
            let wrong : is_right kv json c now k u x.call x.body s ≡ false = rw (got, e) at out in
            elim (login_body-wrong x.call x.body s wrong) [
              | inl r ↦
                  rw (got, e, r)
                    (inl (refuse_wrong x.call s, refuse-Tracked from n x s ne fits w e tr))
              | inr (same, quiet) ↦ rw (got, e, same, quiet) (inr (refl, tr))
            ]
      ]
