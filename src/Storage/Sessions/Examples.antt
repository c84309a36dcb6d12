-- ===== src/Storage/Sessions/Examples.antt =====
-- A session of internal/storage/sessions.go with a plain clock.
use frp_easy.Prelude.{
  ℕ, ◌+◌, ◌≡◌, refl, pos, false, Option, none, some, [], ◌∷◌, Text, text_eq, ok, err, ltb, arith,
  if◌then◌else◌,
}
use frp_easy.Storage.Sessions.{
  SessionRow, Session, Clock, Io, session_not_found, create_session, get_session, delete_session,
  find_session,
}
use frp_easy.Storage.Sessions.Lifetime.{get_session-create_session}

abbrev pub works : Io
works _ = false

abbrev pub one_number : Text → Option ℕ
one_number [] = none
one_number (n ∷ []) = some n
one_number (n ∷ _ ∷ _) = none

pub text_eq-one : (n : ℕ) → text_eq (n ∷ []) [] ≡ false
unfolding text_eq
text_eq-one n = refl

abbrev pub plain_clock : Clock
plain_clock = record {
  format = λ n. n ∷ [];
  parse = λ layout t. one_number t;
  trim = λ t. t;
  last_time = 1000000;
  parse-format = λ n h. refl;
  trim-format = λ n. refl;
  format_ne = text_eq-one;
}

abbrev pub session : Session
session = record { token = "t1"; csrf_token = "c1"; created_at = 100; expires_at = 700 }

abbrev pub session_row : SessionRow
session_row = record {
  token = "t1";
  csrf_token = "c1";
  created_at = 100 ∷ [];
  expires_at = 700 ∷ [];
}

login_run :
    create_session plain_clock works 100 (pos 600) (some "t1") (some "c1") []
    ≡ (session_row ∷ [], ok session)
unfolding create_session find_session
login_run = refl

logout_run : delete_session plain_clock works "t1" (session_row ∷ []) ≡ ([], none)
unfolding delete_session
logout_run = refl

abbrev other_row : SessionRow
other_row = record session_row { token = "t2" }

get_session-create_session_example :
    get_session plain_clock works 701 "t1" (session_row ∷ other_row ∷ [])
    ≡ (if ltb (100 + 600) 701 then err session_not_found else ok session)
unfolding find_session
get_session-create_session_example =
    get_session-create_session plain_clock works works 100 600 701 (some "t1") (some "c1") []
      (session_row ∷ []) (session_row ∷ other_row ∷ []) session login_run refl (omega arith) refl
      refl
