-- ===== src/Http/Accounts/Guesses/Others.antt =====
-- What a login leaves of the records of other addresses (internal/httpapi/handlers_auth.go).
use frp_easy.Prelude.{
  ℕ, ◌≡◌, pos, refl, sym, ap, ◌∙◌, Bool, true, false, inl, inr, Option, none, some, List, [],
  str_eq, Text, text_eq, Result, ok, err, arith, Bool-cases, Option-cases,
}
use frp_easy.Storage.Kv.{Io}
use frp_easy.Storage.KvStore.{KvStore}
use frp_easy.Storage.Sessions.{Session, SessionRow, SessionError, Clock, create_session}
use frp_easy.Storage.Admin.{Admin, AdminError, SqliteNow, get_admin}
use frp_easy.Auth.RateLimit.{Codec, key, allow, reset, read}
use frp_easy.Auth.RateLimit.Stored.{key_eq}
use frp_easy.Auth.RateLimit.Lockout.{record_failure-value_at_ne}
use frp_easy.Auth.Hash.{Crypto, VerifyError, verify_password}
use frp_easy.Http.Validate.{Unicode}
use frp_easy.Http.Accounts.{
  Server, Call, Credentials, login, refuse, open_session, with_new_session, if_verified,
  check_credentials, login_body, if_allowed, session_ttl,
}
use frp_easy.Http.Accounts.Guesses.{Try, Within, tried}

module _ {V : Type 0} (kv : KvStore V) (json : Codec V) (c : Clock) (now : SqliteNow c) (k : Crypto)
    (u : Unicode) where
  delete_other :
      (io : Io) (f : kv.State) (j ip : Text)
      → text_eq j ip ≡ false
      → kv.value_at (kv.delete io f (key j)).0 (key ip) ≡ kv.value_at f (key ip)
  delete_other io f j ip ne =
      rw (kv.delete_law io f (key j) (key ip), key_eq j ip, ne) (ground arith)

  allow_other :
      (io : Io) (at : ℕ) (f : kv.State) (j ip : Text)
      → text_eq j ip ≡ false
      → kv.value_at (allow kv json io at f j).0 (key ip) ≡ kv.value_at f (key ip)
  unfolding allow
  allow_other io at f j ip ne = elim (Bool-cases (text_eq j [])) [
    | inl e ↦ rw e
    | inr e ↦ elim (Option-cases (read kv json io f j)) [
      | inl r ↦ rw (e, r)
      | inr (rec, r) ↦ ground (arith, e, r, delete_other io f j ip ne)
    ]
  ]

  reset_other :
      (io : Io) (f : kv.State) (j ip : Text)
      → text_eq j ip ≡ false
      → kv.value_at (reset kv json io f j).0 (key ip) ≡ kv.value_at f (key ip)
  unfolding reset
  reset_other io f j ip ne = ground (arith, delete_other io f j ip ne)

  open_session-fails :
      (q : Call) (s : Server kv) → (open_session kv json c now k u q s).0.fails ≡ s.fails
  unfolding open_session
  open_session-fails q s =
      created (
        create_session c q.session_io q.session_at (pos session_ttl) q.token q.csrf_token
          s.sessions)
    where
      created :
          (o : List SessionRow × Result SessionError Session)
          → (with_new_session kv json c now k u s o).0.fails ≡ s.fails
      created (rows, err e) = refl
      created (rows, ok sess) = refl

  login_body_other :
      (from : ℕ) (x : Try) (s : Server kv) (ip : Text)
      → text_eq x.call.ip ip ≡ false
      → Within from x
      → kv.value_at (login_body kv json c now k u x.call x.body s).0.fails (key ip)
        ≡ kv.value_at s.fails (key ip)
  login_body_other from x s ip ne w = for_body x.body
    where
      by_refuse :
          kv.value_at (refuse kv json c now k u x.call s).0.fails (key ip)
          ≡ kv.value_at s.fails (key ip)
      by_refuse =
          unfold refuse in
          rw w.failure_works
            (record_failure-value_at_ne kv json x.call.failure_at s.fails x.call.ip ip ne)

      for_verdict :
          (v : Result VerifyError Bool)
          → kv.value_at (if_verified kv json c now k u x.call s v).0.fails (key ip)
            ≡ kv.value_at s.fails (key ip)
      for_verdict (err e) = refl
      for_verdict (ok false) = by_refuse
      for_verdict (ok true) =
          rw (open_session-fails) (reset_other x.call.reset_io s.fails x.call.ip ip ne)

      for_admin :
          (b : Credentials) (a : Result AdminError (Option Admin))
          → kv.value_at (check_credentials kv json c now k u x.call b s a).0.fails (key ip)
            ≡ kv.value_at s.fails (key ip)
      for_admin b (err e) = refl
      for_admin b (ok none) = refl
      for_admin b (ok (some a)) = elim (Bool-cases (str_eq b.username a.username)) [
        | inr e ↦ rw e by_refuse
        | inl e ↦ rw e (for_verdict (verify_password k b.password a.password_hash))
      ]

      for_body :
          (b : Option Credentials)
          → kv.value_at (login_body kv json c now k u x.call b s).0.fails (key ip)
            ≡ kv.value_at s.fails (key ip)
      for_body none = refl
      for_body (some b) = for_admin b (get_admin c x.call.admin_io s.admin)

  -- the tries of other addresses leave the record alone
  pub tried_other :
      (from : ℕ) (x : Try) (s : Server kv) (ip : Text)
      → text_eq x.call.ip ip ≡ false
      → Within from x
      → kv.value_at (tried kv json c now k u x s).0.fails (key ip) ≡ kv.value_at s.fails (key ip)
  unfolding login
  tried_other from x s ip ne w =
      for_answer (allow kv json x.call.allow_io x.call.allow_at s.fails x.call.ip) refl
    where
      for_answer :
          (o : kv.State × Bool × ℕ)
          → allow kv json x.call.allow_io x.call.allow_at s.fails x.call.ip ≡ o
          → kv.value_at (if_allowed kv json c now k u x.call x.body s o).0.fails (key ip)
            ≡ kv.value_at s.fails (key ip)
      for_answer (f, false, t) e =
          ap (λ (o : kv.State × Bool × ℕ). kv.value_at o.0 (key ip)) (sym e)
          ∙ allow_other x.call.allow_io x.call.allow_at s.fails x.call.ip ip ne
      for_answer (f, true, t) e =
          login_body_other from x (record s { fails = f }) ip ne w
          ∙ ap (λ (o : kv.State × Bool × ℕ). kv.value_at o.0 (key ip)) (sym e)
          ∙ allow_other x.call.allow_io x.call.allow_at s.fails x.call.ip ip ne
