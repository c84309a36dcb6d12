-- ===== src/Http/Accounts/Password.antt =====
-- Which password is let in after changePassword of internal/httpapi/handlers_auth.go.
use frp_easy.Prelude.{
  ◌<◌, ◌≤◌, ◌≡◌, refl, Bool, true, false, not, ◌==◌, Option, none, some, Text, Result, ok, err, All,
  length, if◌then◌else◌,
}
use frp_easy.Storage.KvStore.{KvStore}
use frp_easy.Storage.Sessions.{Clock}
use frp_easy.Storage.Admin.{Admin, SqliteNow, select_admin, get_admin}
use frp_easy.Auth.RateLimit.{Codec, allow}
use frp_easy.Auth.Hash.{Crypto, VerifyError, verify_password}
use frp_easy.Http.Validate.{Unicode, InputError, validate_password}
use frp_easy.Http.Accounts.{
  Server, Call, Credentials, ChangePasswordRequest, done, old_password_wrong, login,
  change_password, new_password_checked, is_verified,
}
use frp_easy.Http.Accounts.Enter.{
  OnRecord, save_hash-OnRecord, OnRecord-found, login_on_record, answered,
}

module _ {V : Type 0} (kv : KvStore V) (json : Codec V) (c : Clock) (now : SqliteNow c) (k : Crypto)
    (u : Unicode) where
  change_password-OnRecord :
      (q : Call) (b : ChangePasswordRequest) (s s' : Server kv) (a : Admin)
      → get_admin c q.admin_io s.admin ≡ ok (some a)
      → change_password kv json c now k u q (some b) s ≡ (s', done)
      → (verify_password k b.old_password a.password_hash ≡ ok true)
        × OnRecord kv json c now k u q a.username b.new_password s s'
  unfolding change_password
  change_password-OnRecord q b s s' a got did =
      by_verdict (verify_password k b.old_password a.password_hash) (rw got at did)
    where
      by_rule :
          (e : Option InputError)
          → new_password_checked kv json c now k u q b a.username s e ≡ (s', done)
          → OnRecord kv json c now k u q a.username b.new_password s s'
      by_rule (some e) x = cc
      by_rule none x =
          save_hash-OnRecord kv json c now k u (λ t. (t, done)) q a.username b.new_password s s'
            done (λ t. refl) (λ z. cc z) x

      by_verdict :
          (v : Result VerifyError Bool)
          → (if not (is_verified kv json c now k u v)
              then (s, old_password_wrong)
              else new_password_checked kv json c now k u q b a.username s
                  (validate_password u b.new_password))
            ≡ (s', done)
          → (v ≡ ok true) × OnRecord kv json c now k u q a.username b.new_password s s'
      by_verdict (err e) x = cc
      by_verdict (ok false) x = cc
      by_verdict (ok true) x = (refl, by_rule (validate_password u b.new_password) x)

  -- A changePassword that is answered 200 was given the old password, and after it, as long as the
  -- administrator's row is left alone, a login that the limiter lets in opens a session if it names
  -- the administrator and its password has the key of the new password, and is refused as a failure
  -- otherwise: under the conditions of login-setup.
  pub login-change_password :
      (q later : Call) (b : ChangePasswordRequest) (attempt : Credentials) (s s' s2 : Server kv)
      (a : Admin) (salt : Text)
      → get_admin c q.admin_io s.admin ≡ ok (some a)
      → change_password kv json c now k u q (some b) s ≡ (s', done)
      → q.salt ≡ some salt
      → All (λ x. x < 256) salt
      → (length salt == 0) ≡ false
      → q.admin_at ≤ c.last_time
      → s2.admin ≡ s'.admin
      → later.admin_io select_admin ≡ false
      → (allow kv json later.allow_io later.allow_at s2.fails later.ip).1 ≡ true
      → (verify_password k b.old_password a.password_hash ≡ ok true)
        × (login kv json c now k u later (some attempt) s2
            ≡ answered kv json c now k u a.username b.new_password salt later attempt s2)
  login-change_password q later b attempt s s' s2 a salt got did salted bytes ne fits same works
        let_in =
      let (old, stored) = change_password-OnRecord q b s s' a got did in
      let (a2, found, name, hashed) =
        OnRecord-found kv json c now k u q a.username b.new_password s s' later s2 stored fits same
          works in
      (
        old,
        rw (← name) (
            login_on_record kv json c now k u later attempt s2 a2 b.new_password salt found
              (rw salted at hashed) bytes ne let_in),
      )
