-- ===== src/Http/Accounts.antt =====
-- internal/httpapi/handlers_auth.go and handlers_setup.go over internal/auth and internal/storage.
-- Of a reply the kind and the header Retry-After are kept.
pub mod Guesses
pub mod Enter
pub mod Password
pub mod Toy
pub mod Examples
use frp_easy.Prelude.{
  ℕ, pos, ◌+◌, ◌*◌, ◌/◌, Bool, true, false, Option, none, some, List, String, str_eq, Text, Result,
  ok, err, not, if◌then◌else◌, ltb, ◌||◌,
}
use frp_easy.Storage.Kv.{Io}
use frp_easy.Storage.KvStore.{KvStore}
use frp_easy.Storage.Sessions.{
  SessionRow, Session, SessionStmt, Clock, SessionError, create_session, delete_session,
}
use frp_easy.Storage.Admin.{AdminRow, Admin, AdminStmt, AdminError, SqliteNow, get_admin, set_admin}
use frp_easy.Auth.RateLimit.{Codec, AuthError, allow, record_failure, reset}
use frp_easy.Auth.Hash.{Crypto, HashError, VerifyError, hash_password, verify_password}
use frp_easy.Http.Validate.{Unicode, InputError, validate_password, validate_username}

-- the tables that the handlers share
pub record Server {V : Type 0} (kv : KvStore V) : Type 0 where
  pub admin : Option AdminRow
  pub sessions : List SessionRow
  pub fails : kv.State

-- What a request meets: its address, the times at which the clock is read, the statements that
-- fail, and what crypto/rand gives.
pub record Call : Type 0 where
  pub ip : Text
  pub allow_at : ℕ
  pub failure_at : ℕ
  pub session_at : ℕ
  pub admin_at : ℕ
  pub allow_io : Io
  pub failure_io : Io
  pub reset_io : Io
  pub admin_io : AdminStmt → Bool
  pub session_io : SessionStmt → Bool
  pub token : Option String
  pub csrf_token : Option String
  pub salt : Option Text

-- LoginRequest, SetupRequest
pub record Credentials : Type 0 where
  pub username : String
  pub password : Text

pub record ChangePasswordRequest : Type 0 where
  pub old_password : Text
  pub new_password : Text

pub data Reply : Type 0 where
  rate_limited : ℕ → Reply
  bad_json internal setup_required already_initialized unauthenticated old_password_wrong : Reply
  wrong_credentials : Option ℕ → Reply
  bad_username bad_password : InputError → Reply
  logged_in : Session → Reply
  done : Reply
  me_is csrf_is : String → Reply

abbrev pub status : Reply → ℕ
status (rate_limited _) = 429
status bad_json = 400
status internal = 500
status setup_required = 401
status already_initialized = 409
status unauthenticated = 401
status old_password_wrong = 401
status (wrong_credentials _) = 401
status (bad_username _) = 422
status (bad_password _) = 422
status (logged_in _) = 200
status done = 200
status (me_is _) = 200
status (csrf_is _) = 200

abbrev pub session_ttl : ℕ
session_ttl = 12 * 3600 * 1000000000

-- the seconds of Retry-After
abbrev pub retry_seconds : ℕ → ℕ
retry_seconds wait = wait / 1000000000 + 1

module _ {V : Type 0} (kv : KvStore V) (json : Codec V) (c : Clock) (now : SqliteNow c) (k : Crypto)
    (u : Unicode) where
  abbrev pub with_new_session :
      Server kv → List SessionRow × Result SessionError Session → Server kv × Reply
  with_new_session s (rows, err _) = (record s { sessions = rows }, internal)
  with_new_session s (rows, ok sess) = (record s { sessions = rows }, logged_in sess)

  -- a new session and its cookie
  unfoldable pub open_session : Call → Server kv → Server kv × Reply
  open_session q s =
      with_new_session s (
        create_session c q.session_io q.session_at (pos session_ttl) q.token q.csrf_token
          s.sessions)

  abbrev pub refused : Server kv → kv.State × ℕ × ℕ × Option AuthError → Server kv × Reply
  refused s (fails, _, wait, _) = (
    record s { fails = fails },
    wrong_credentials (if ltb 0 wait then some (retry_seconds wait) else none),
  )

  -- recordLoginFail and the reply after it
  unfoldable pub refuse : Call → Server kv → Server kv × Reply
  refuse q s = refused s (record_failure kv json q.failure_io q.failure_at s.fails q.ip)

  abbrev pub if_verified : Call → Server kv → Result VerifyError Bool → Server kv × Reply
  if_verified q s (err _) = (s, internal)
  if_verified q s (ok false) = refuse q s
  if_verified q s (ok true) =
      open_session q (record s { fails = (reset kv json q.reset_io s.fails q.ip).0 })

  abbrev pub check_credentials :
      Call → Credentials → Server kv → Result AdminError (Option Admin) → Server kv × Reply
  check_credentials q b s (err _) = (s, internal)
  check_credentials q b s (ok none) = (s, setup_required)
  check_credentials q b s (ok (some a)) =
      if not (str_eq b.username a.username)
      then refuse q s
      else if_verified q s (verify_password k b.password a.password_hash)

  abbrev pub login_body : Call → Option Credentials → Server kv → Server kv × Reply
  login_body q none s = (s, bad_json)
  login_body q (some b) s = check_credentials q b s (get_admin c q.admin_io s.admin)

  abbrev pub if_allowed :
      Call → Option Credentials → Server kv → kv.State × Bool × ℕ → Server kv × Reply
  if_allowed q b s (fails, false, wait) =
      (record s { fails = fails }, rate_limited (retry_seconds wait))
  if_allowed q b s (fails, true, wait) = login_body q b (record s { fails = fails })

  -- login; no body is one that does not decode
  unfoldable pub login : Call → Option Credentials → Server kv → Server kv × Reply
  login q b s = if_allowed q b s (allow kv json q.allow_io q.allow_at s.fails q.ip)

  -- logout, whose session comes from SessionAuth
  unfoldable pub logout : Call → Option Session → Server kv → Server kv × Reply
  logout q none s = (s, done)
  logout q (some sess) s =
      (record s { sessions = (delete_session c q.session_io sess.token s.sessions).0 }, done)

  abbrev pub me_reply : Result AdminError (Option Admin) → Reply
  me_reply (err _) = unauthenticated
  me_reply (ok none) = unauthenticated
  me_reply (ok (some a)) = me_is a.username

  -- me
  unfoldable pub me : Call → Server kv → Server kv × Reply
  me q s = (s, me_reply (get_admin c q.admin_io s.admin))

  -- csrf
  unfoldable pub csrf_token_of : Option Session → Server kv → Server kv × Reply
  csrf_token_of none s = (s, unauthenticated)
  csrf_token_of (some sess) s = (s, csrf_is sess.csrf_token)

  abbrev pub saved :
      (Server kv → Server kv × Reply)
      → Server kv
      → Option AdminRow × Option AdminError
      → Server kv × Reply
  saved next s (row, some _) = (record s { admin = row }, internal)
  saved next s (row, none) = next (record s { admin = row })

  -- SetAdmin with the hash of a password, and what follows
  abbrev pub save_hash :
      (Server kv → Server kv × Reply)
      → Call
      → String
      → Server kv
      → Result HashError Text
      → Server kv × Reply
  save_hash next q name s (err _) = (s, internal)
  save_hash next q name s (ok h) =
      saved next s (set_admin c now q.admin_io q.admin_at name h s.admin)

  abbrev pub is_verified : Result VerifyError Bool → Bool
  is_verified (err _) = false
  is_verified (ok b) = b

  abbrev pub new_password_checked :
      Call → ChangePasswordRequest → String → Server kv → Option InputError → Server kv × Reply
  new_password_checked q b name s (some e) = (s, bad_password e)
  new_password_checked q b name s none =
      save_hash (λ t. (t, done)) q name s (hash_password k b.new_password q.salt)

  abbrev pub change_for :
      Call
      → ChangePasswordRequest
      → Server kv
      → Result AdminError (Option Admin)
      → Server kv × Reply
  change_for q b s (err _) = (s, unauthenticated)
  change_for q b s (ok none) = (s, unauthenticated)
  change_for q b s (ok (some a)) =
      if not (is_verified (verify_password k b.old_password a.password_hash))
      then (s, old_password_wrong)
      else new_password_checked q b a.username s (validate_password u b.new_password)

  -- changePassword
  unfoldable pub change_password :
      Call → Option ChangePasswordRequest → Server kv → Server kv × Reply
  change_password q none s = (s, bad_json)
  change_password q (some b) s = change_for q b s (get_admin c q.admin_io s.admin)

  abbrev pub setup_password_checked :
      Call → Credentials → Server kv → Option InputError → Server kv × Reply
  setup_password_checked q b s (some e) = (s, bad_password e)
  setup_password_checked q b s none =
      save_hash (open_session q) q b.username s (hash_password k b.password q.salt)

  abbrev pub setup_username_checked :
      Call → Credentials → Server kv → Option InputError → Server kv × Reply
  setup_username_checked q b s (some e) = (s, bad_username e)
  setup_username_checked q b s none = setup_password_checked q b s (validate_password u b.password)

  abbrev pub setup_if_none :
      Call → Option Credentials → Server kv → Result AdminError (Option Admin) → Server kv × Reply
  setup_if_none q b s (err _) = (s, internal)
  setup_if_none q b s (ok (some _)) = (s, already_initialized)
  setup_if_none q none s (ok none) = (s, bad_json)
  setup_if_none q (some b) s (ok none) =
      setup_username_checked q b s (validate_username u b.username)

  -- setup
  unfoldable pub setup : Call → Option Credentials → Server kv → Server kv × Reply
  setup q b s = setup_if_none q b s (get_admin c q.admin_io s.admin)
