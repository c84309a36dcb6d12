-- ===== src/Http/Accounts/Enter.antt =====
-- Which credentials are let in after setup or changePassword has set them
-- (internal/httpapi/handlers_setup.go and handlers_auth.go).
use frp_easy.Prelude.{
  ℕ, ◌-◌, ◌%◌, ◌<◌, ◌≤◌, ◌≡◌, pos, ◌≢◌, refl, sym, ap, ◌∙◌, Bool, true, false, ◌==◌, ◌&&◌, Option,
  none, some, List, String, str_eq, Text, text_eq, Result, ok, err, All, length, if◌then◌else◌,
  Bool-cases, inl, inr,
}
use frp_easy.Storage.KvStore.{KvStore}
use frp_easy.Storage.Sessions.{Session, SessionRow, SessionError, Clock, create_session}
use frp_easy.Storage.Admin.{
  Admin, AdminRow, AdminError, SqliteNow, select_admin, get_admin, set_admin, get_admin-set_admin,
}
use frp_easy.Auth.RateLimit.{Codec, allow, reset}
use frp_easy.Auth.Hash.{Crypto, HashError, own_key, hash_password}
use frp_easy.Auth.Hash.RoundTrip.{verify_password-hash_password}
use frp_easy.Http.Validate.{Unicode, InputError, validate_password, validate_username}
use frp_easy.Http.Accounts.{
  Server, Call, Credentials, Reply, logged_in, already_initialized, internal, session_ttl, login,
  setup, refuse, open_session, with_new_session, login_body, if_allowed, saved, save_hash,
  setup_password_checked, setup_username_checked, setup_if_none,
}

module _ {V : Type 0} (kv : KvStore V) (json : Codec V) (c : Clock) (now : SqliteNow c) (k : Crypto)
    (u : Unicode) where
  -- what a login comes to that the limiter lets in, if `name` and the key of `plain` are on record
  abbrev pub answered : String → Text → Text → Call → Credentials → Server kv → Server kv × Reply
  answered name plain salt q b s =
      let s' = record s { fails = (allow kv json q.allow_io q.allow_at s.fails q.ip).0 } in
      if str_eq b.username name && text_eq (own_key k b.password salt) (own_key k plain salt)
      then open_session kv json c now k u q
          (record s' { fails = (reset kv json q.reset_io s'.fails q.ip).0 })
      else refuse kv json c now k u q s'

  login_let_in :
      (q : Call) (b : Option Credentials) (s : Server kv) (o : kv.State × Bool × ℕ)
      → o.1 ≡ true
      → if_allowed kv json c now k u q b s o
        ≡ login_body kv json c now k u q b (record s { fails = o.0 })
  login_let_in q b s (f, false, w) h = cc
  login_let_in q b s (f, true, w) h = refl

  pub login_on_record :
      (q : Call) (b : Credentials) (s : Server kv) (a : Admin) (plain salt : Text)
      → get_admin c q.admin_io s.admin ≡ ok (some a)
      → hash_password k plain (some salt) ≡ ok a.password_hash
      → All (λ x. x < 256) salt
      → (length salt == 0) ≡ false
      → (allow kv json q.allow_io q.allow_at s.fails q.ip).1 ≡ true
      → login kv json c now k u q (some b) s ≡ answered a.username plain salt q b s
  unfolding login
  login_on_record q b s a plain salt got hashed bytes ne let_in =
      login_let_in q (some b) s (allow kv json q.allow_io q.allow_at s.fails q.ip) let_in
      ∙ (elim (Bool-cases (str_eq b.username a.username)) [
        | inr e ↦ rw (got, e)
        | inl e ↦
            let v =
              verify_password-hash_password k b.password plain salt a.password_hash hashed bytes
                ne in
            elim (Bool-cases (text_eq (own_key k b.password salt) (own_key k plain salt))) [
              | inl f ↦ rw (got, e, v, f)
              | inr f ↦ rw (got, e, v, f)
            ]
      ])

  open_session-admin :
      (q : Call) (s : Server kv) → (open_session kv json c now k u q s).0.admin ≡ s.admin
  unfolding open_session
  open_session-admin q s =
      created (
        create_session c q.session_io q.session_at (pos session_ttl) q.token q.csrf_token
          s.sessions)
    where
      created :
          (o : List SessionRow × Result SessionError Session)
          → (with_new_session kv json c now k u s o).0.admin ≡ s.admin
      created (rows, err e) = refl
      created (rows, ok sess) = refl

  -- the hash of a password is on record
  abbrev pub OnRecord : Call → String → Text → Server kv → Server kv → Type 0
  OnRecord q name plain s s' =
      (h : Text) × (hash_password k plain q.salt ≡ ok h)
      × (set_admin c now q.admin_io q.admin_at name h s.admin ≡ (s'.admin, none))

  pub save_hash-OnRecord :
      (next : Server kv → Server kv × Reply) (q : Call) (name : String) (plain : Text)
      (s s' : Server kv) (r : Reply)
      → ((x : Server kv) → (next x).0.admin ≡ x.admin)
      → (r ≢ internal)
      → save_hash kv json c now k u next q name s (hash_password k plain q.salt) ≡ (s', r)
      → OnRecord q name plain s s'
  save_hash-OnRecord next q name plain s s' r keeps good =
      by_hash (hash_password k plain q.salt) refl
    where
      by_row :
          (h : Text) (o : Option AdminRow × Option _)
          → hash_password k plain q.salt ≡ ok h
          → set_admin c now q.admin_io q.admin_at name h s.admin ≡ o
          → saved kv json c now k u next s o ≡ (s', r)
          → OnRecord q name plain s s'
      by_row h (row, some e) g f x = absurd (good (sym (ap (λ (z : Server kv × Reply). z.1) x)))
      by_row h (row, none) g f x =
          let same : row ≡ s'.admin =
            sym (keeps (record s { admin = row })) ∙ ap (λ (z : Server kv × Reply). z.0.admin) x in
          (h, g, rw (← same) f)

      by_hash :
          (o : Result HashError Text)
          → hash_password k plain q.salt ≡ o
          → save_hash kv json c now k u next q name s o ≡ (s', r)
          → OnRecord q name plain s s'
      by_hash (err e) g x = absurd (good (sym (ap (λ (z : Server kv × Reply). z.1) x)))
      by_hash (ok h) g x = by_row h (set_admin c now q.admin_io q.admin_at name h s.admin) g refl x

  pub OnRecord-found :
      (q : Call) (name : String) (plain : Text) (s s' : Server kv) (later : Call) (s2 : Server kv)
      → OnRecord q name plain s s'
      → q.admin_at ≤ c.last_time
      → s2.admin ≡ s'.admin
      → later.admin_io select_admin ≡ false
      → (a : Admin) × (get_admin c later.admin_io s2.admin ≡ ok (some a))
        × (a.username ≡ name)
        × (hash_password k plain q.salt ≡ ok a.password_hash)
  OnRecord-found q name plain s s' later s2 (h, g, f) fits same works = (
    record {
      username = name;
      password_hash = h;
      updated_at = q.admin_at - q.admin_at % 1000000000;
    },
    rw same (
        get_admin-set_admin c now q.admin_io later.admin_io q.admin_at name h s.admin s'.admin f
          fits works),
    refl,
    g,
  )

  setup-OnRecord :
      (q : Call) (b : Credentials) (s s' : Server kv) (sess : Session)
      → setup kv json c now k u q (some b) s ≡ (s', logged_in sess)
      → OnRecord q b.username b.password s s'
  unfolding setup
  setup-OnRecord q b s s' sess = by_admin (get_admin c q.admin_io s.admin)
    where
      by_password :
          (e : Option InputError)
          → setup_password_checked kv json c now k u q b s e ≡ (s', logged_in sess)
          → OnRecord q b.username b.password s s'
      by_password (some e) x = cc
      by_password none x =
          save_hash-OnRecord (open_session kv json c now k u q) q b.username b.password s s'
            (logged_in sess) (open_session-admin q) (λ z. cc z) x

      by_username :
          (e : Option InputError)
          → setup_username_checked kv json c now k u q b s e ≡ (s', logged_in sess)
          → OnRecord q b.username b.password s s'
      by_username (some e) x = cc
      by_username none x = by_password (validate_password u b.password) x

      by_admin :
          (a : Result AdminError (Option Admin))
          → setup_if_none kv json c now k u q (some b) s a ≡ (s', logged_in sess)
          → OnRecord q b.username b.password s s'
      by_admin (err e) x = cc
      by_admin (ok (some a)) x = cc
      by_admin (ok none) x = by_username (validate_username u b.username) x

  -- After a setup that has succeeded, as long as the administrator's row is left alone, a login that
  -- the limiter lets in opens a session if it names the setup's username and its password has the
  -- key of the setup's password, and is refused as a failure otherwise: if the row can be read, the
  -- salt is not empty, and the setup was not after the year 9999.
  pub login-setup :
      (q later : Call) (b attempt : Credentials) (s s' s2 : Server kv) (sess : Session)
      (salt : Text)
      → setup kv json c now k u q (some b) s ≡ (s', logged_in sess)
      → q.salt ≡ some salt
      → All (λ x. x < 256) salt
      → (length salt == 0) ≡ false
      → q.admin_at ≤ c.last_time
      → s2.admin ≡ s'.admin
      → later.admin_io select_admin ≡ false
      → (allow kv json later.allow_io later.allow_at s2.fails later.ip).1 ≡ true
      → login kv json c now k u later (some attempt) s2
        ≡ answered b.username b.password salt later attempt s2
  login-setup q later b attempt s s' s2 sess salt did salted bytes ne fits same works let_in =
      let (a, found, name, hashed) =
        OnRecord-found q b.username b.password s s' later s2 (setup-OnRecord q b s s' sess did) fits
          same works in
      rw (← name) (
        login_on_record later attempt s2 a b.password salt found (rw salted at hashed) bytes ne
          let_in)

  -- A setup succeeds once: after one has, every further setup that can read the administrator's row
  -- answers ALREADY_INITIALIZED and changes nothing, whatever its body, if the first was not after
  -- the year 9999.
  pub setup_once :
      (q later : Call) (b : Credentials) (body : Option Credentials) (s s' : Server kv)
      (sess : Session)
      → setup kv json c now k u q (some b) s ≡ (s', logged_in sess)
      → q.admin_at ≤ c.last_time
      → later.admin_io select_admin ≡ false
      → setup kv json c now k u later body s' ≡ (s', already_initialized)
  unfolding setup
  setup_once q later b body s s' sess did fits works =
      let (a, found, name, hashed) =
        OnRecord-found q b.username b.password s s' later s' (setup-OnRecord q b s s' sess did) fits
          refl works in
      rw found
