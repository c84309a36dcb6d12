-- ===== src/Http/Accounts/Examples.antt =====
-- The handlers of internal/httpapi/handlers_auth.go with a toy key derivation and a plain clock.
use frp_easy.Prelude.{
  ℕ, ◌+◌, ◌<◌, ◌≤◌, ◌≡◌, refl, true, false, Option, none, some, List, [], ◌∷◌, String, Text, codes,
  text_eq, ok, All, arith,
}
use frp_easy.Storage.Kv.{healthy}
use frp_easy.Storage.KvStore.{sqlite_store}
use frp_easy.Storage.Sessions.{Session, create_session, find_session, parse_sqlite_time}
use frp_easy.Storage.Admin.{Admin, get_admin, set_admin}
use frp_easy.Auth.RateLimit.{allow}
use frp_easy.Auth.RateLimit.Examples.{plain_codec, store, empty, home}
use frp_easy.Auth.Hash.{phc, own_key, hash_password, verify_password}
use frp_easy.Http.Validate.{validate_password, validate_username}
use frp_easy.Http.Accounts.{
  Server, Call, Credentials, ChangePasswordRequest, logged_in, done, already_initialized, login,
  setup, change_password, open_session,
}
use frp_easy.Auth.RateLimit.Stored.{record_at, record_of}
use frp_easy.Auth.Hash.RoundTrip.{verify_password-hash_password}
use frp_easy.Http.Accounts.Enter.{answered, login-setup, setup_once}
use frp_easy.Http.Accounts.Password.{login-change_password}
use frp_easy.Http.Accounts.Guesses.{Try, Within, guesses}
use frp_easy.Http.Accounts.Guesses.Bound.{guesses_at_most_five}
use frp_easy.Http.Accounts.Toy.{clock, now, crypto, unicode}

abbrev call : ℕ → String → Call
call at token = record {
  ip = home;
  allow_at = at;
  failure_at = at + 1;
  session_at = at + 2;
  admin_at = at + 3;
  allow_io = healthy;
  failure_io = healthy;
  reset_io = healthy;
  admin_io = λ x. false;
  session_io = λ x. false;
  token = some token;
  csrf_token = some "c";
  salt = some (1 ∷ 2 ∷ 3 ∷ []);
}

abbrev root : Credentials
root = record { username = "root"; password = codes "correct horse 1" }

abbrev guess : Credentials
guess = record { username = "root"; password = codes "correct horse 2" }

abbrev fresh : Server store
fresh = record { admin = none; sessions = []; fails = empty }

abbrev first_session : Session
first_session = record {
  token = "t1";
  csrf_token = "c";
  created_at = 102;
  expires_at = 43200000000102;
}

abbrev after_setup : Server store
after_setup = (setup store plain_codec clock now crypto unicode (call 100 "t1") (some root) fresh).0

set_up :
    setup store plain_codec clock now crypto unicode (call 100 "t1") (some root) fresh
    ≡ (after_setup, logged_in first_session)
unfolding setup get_admin validate_username validate_password hash_password text_eq set_admin
    open_session create_session find_session
set_up = refl

salt_bytes : All (λ b. b < 256) (1 ∷ 2 ∷ 3 ∷ [])
salt_bytes = (omega arith, (omega arith, (omega arith, tt)))

let_in : (allow store plain_codec healthy 1000 after_setup.fails home).1 ≡ true
unfolding allow sqlite_store setup get_admin validate_username validate_password hash_password
    text_eq set_admin open_session create_session find_session empty
let_in = refl

login-setup_example :
    login store plain_codec clock now crypto unicode (call 1000 "t2") (some guess) after_setup
    ≡ answered store plain_codec clock now crypto unicode "root"
        (codes "correct horse 1")
        (1 ∷ 2 ∷ 3 ∷ [])
        (call 1000 "t2")
        guess
        after_setup
login-setup_example =
    login-setup store plain_codec clock now crypto unicode (call 100 "t1") (call 1000 "t2") root
      guess fresh after_setup after_setup first_session (1 ∷ 2 ∷ 3 ∷ []) set_up refl salt_bytes refl
      (omega arith) refl refl let_in

setup_once_example :
    setup store plain_codec clock now crypto unicode (call 1000 "t2") (some guess) after_setup
    ≡ (after_setup, already_initialized)
setup_once_example =
    setup_once store plain_codec clock now crypto unicode (call 100 "t1") (call 1000 "t2") root
      (some guess) fresh after_setup first_session set_up (omega arith) refl

home_ne : text_eq home [] ≡ false
unfolding text_eq
home_ne = refl

no_record : record_at store plain_codec after_setup.fails home ≡ none
unfolding record_of sqlite_store setup get_admin validate_username validate_password hash_password
    text_eq set_admin open_session create_session find_session empty
no_record = refl

abbrev change : ChangePasswordRequest
change = record { old_password = codes "correct horse 1"; new_password = codes "battery staple 2" }

abbrev root_admin : Admin
root_admin = record {
  username = "root";
  password_hash =
      phc crypto (1 ∷ 2 ∷ 3 ∷ []) (own_key crypto (codes "correct horse 1") (1 ∷ 2 ∷ 3 ∷ []));
  updated_at = 0;
}

abbrev after_change : Server store
after_change =
    (change_password store plain_codec clock now crypto unicode (call 500 "t3") (some change)
      after_setup).0

found : get_admin clock (λ x. false) after_setup.admin ≡ ok (some root_admin)
unfolding parse_sqlite_time setup get_admin validate_username validate_password hash_password
    text_eq set_admin open_session create_session find_session
found = refl

changed :
    change_password store plain_codec clock now crypto unicode
      (call 500 "t3")
      (some change)
      after_setup
    ≡ (after_change, done)
unfolding change_password parse_sqlite_time verify_password setup get_admin validate_username
    validate_password hash_password text_eq set_admin open_session create_session find_session
changed = refl

still_let_in : (allow store plain_codec healthy 1000 after_change.fails home).1 ≡ true
unfolding allow sqlite_store change_password parse_sqlite_time verify_password setup get_admin
    validate_username validate_password hash_password text_eq set_admin open_session create_session
    find_session empty
still_let_in = refl

hashed :
    hash_password crypto (codes "correct horse 1") (some (1 ∷ 2 ∷ 3 ∷ []))
    ≡ ok root_admin.password_hash
unfolding hash_password text_eq
hashed = refl

login-change_password_example :
    (verify_password crypto (codes "correct horse 1") root_admin.password_hash ≡ ok true)
    × (login store plain_codec clock now crypto unicode (call 1000 "t2") (some root) after_change
        ≡ answered store plain_codec clock now crypto unicode "root"
            (codes "battery staple 2")
            (1 ∷ 2 ∷ 3 ∷ [])
            (call 1000 "t2")
            root
            after_change)
login-change_password_example =
    login-change_password store plain_codec clock now crypto unicode (call 500 "t3")
      (call 1000 "t2") change root after_setup after_change after_change root_admin (1 ∷ 2 ∷ 3 ∷ [])
      found changed refl salt_bytes refl (omega arith) refl refl still_let_in

verify_password-hash_password_example :
    verify_password crypto (codes "pass") root_admin.password_hash
    ≡ ok (
        text_eq
          (own_key crypto (codes "pass") (1 ∷ 2 ∷ 3 ∷ []))
          (own_key crypto (codes "correct horse 1") (1 ∷ 2 ∷ 3 ∷ [])))
verify_password-hash_password_example =
    verify_password-hash_password crypto (codes "pass") (codes "correct horse 1") (1 ∷ 2 ∷ 3 ∷ [])
      root_admin.password_hash hashed salt_bytes refl

abbrev tries : List Try
tries =
    record { call = call 1000 "t2"; body = some guess }
    ∷ record { call = record (call 2000 "t3") { ip = codes "10.0.0.2" }; body = some guess }
    ∷ record { call = call 3000 "t4"; body = some guess }
    ∷ []

in_time :
    (at : ℕ) (token : String) (b : Option Credentials) (ip : Text)
    → 1000 ≤ at
    → at ≤ 5000
    → Within 1000 (record { call = record (call at token) { ip = ip }; body = b })
in_time at token b ip lo hi = record {
  allow_from = lo;
  allow_to = omega (arith, hi);
  failure_from = omega (arith, lo);
  failure_to = omega (arith, hi);
  allow_works = refl;
  failure_works = refl;
}

guesses_at_most_five_example :
    guesses store plain_codec clock now crypto unicode home after_setup tries ≤ 5
guesses_at_most_five_example =
    guesses_at_most_five store plain_codec clock now crypto unicode 1000 home tries after_setup
      home_ne (omega arith) no_record
      (
        in_time 1000 "t2" (some guess) home (omega arith) (omega arith),
        (
          in_time 2000 "t3" (some guess) (codes "10.0.0.2") (omega arith) (omega arith),
          (in_time 3000 "t4" (some guess) home (omega arith) (omega arith), tt),
        ),
      )
