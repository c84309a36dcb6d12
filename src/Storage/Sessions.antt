-- ===== src/Storage/Sessions.antt =====
-- internal/storage/sessions.go, parseSQLiteTime of internal/storage/helpers.go and the table
-- `sessions`. The random source, the calls of the driver that fail and the clock are arguments.
pub mod Lifetime
pub mod Examples
use frp_easy.Prelude.{
  ℕ, zero, suc, length, ◌-◌, ◌+◌, ◌≤◌, ◌≡◌, ℤ, pos, negsuc, Bool, true, false, not, ◌||◌, Option,
  none, some, List, [], ◌∷◌, ◌++◌, String, str_eq, Text, text_eq, Result, ok, err, if◌then◌else◌,
  ltb, filter,
}
use frp_easy.Storage.Kv.{text_le}

pub record SessionRow : Type 0 where
  pub token : String
  pub csrf_token : String
  pub created_at : Text
  pub expires_at : Text

pub record Session : Type 0 where
  pub token : String
  pub csrf_token : String
  pub created_at : ℕ
  pub expires_at : ℕ

pub data Layout : Type 0 where
  rfc3339_nano rfc3339 date_time date_time_fraction : Layout

-- time.Format with RFC3339Nano, time.Parse and strings.TrimSpace, in nanoseconds of UTC: a time up to
-- the year 9999 is written as a text with no space around it, which is read back.
pub record Clock : Type 0 where
  pub format : ℕ → Text
  pub parse : Layout → Text → Option ℕ
  pub trim : Text → Text
  pub last_time : ℕ
  pub parse-format : (n : ℕ) → n ≤ last_time → parse rfc3339_nano (format n) ≡ some n
  pub trim-format : (n : ℕ) → trim (format n) ≡ format n
  pub format_ne : (n : ℕ) → text_eq (format n) [] ≡ false

pub data SessionError : Type 0 where
  bad_ttl no_random insert_failed query_failed bad_time session_not_found : SessionError

pub data SessionStmt : Type 0 where
  select_session insert_session delete_session_row purge_sessions : SessionStmt

abbrev pub Io : Type 0
Io = SessionStmt → Bool

abbrev pub or_parse : Option ℕ → Option ℕ → Option ℕ
or_parse (some t) next = some t
or_parse none next = next

unfoldable pub find_session : String → List SessionRow → Option SessionRow
find_session t [] = none
find_session t (r ∷ rs) = let rest = find_session t rs in if str_eq r.token t then some r else rest

module _ (c : Clock) where
  abbrev pub parse_trimmed : Text → Option ℕ
  parse_trimmed s =
      if text_eq s []
      then none
      else or_parse (c.parse rfc3339_nano s) (
          or_parse (c.parse rfc3339 s)
            (or_parse (c.parse date_time s) (c.parse date_time_fraction s)))

  unfoldable pub parse_sqlite_time : Text → Option ℕ
  parse_sqlite_time s = parse_trimmed (c.trim s)

  -- INSERT INTO sessions, with the PRIMARY KEY on the token
  abbrev pub insert_checked :
      Session → List SessionRow → Option SessionRow → List SessionRow × Result SessionError Session
  insert_checked s rows (some _) = (rows, err insert_failed)
  insert_checked s rows none = (
    rows
        ++ record {
          token = s.token;
          csrf_token = s.csrf_token;
          created_at = c.format s.created_at;
          expires_at = c.format s.expires_at;
        }
          ∷ [],
    ok s,
  )

  abbrev pub insert_new :
      Io
      → ℕ
      → ℕ
      → Option String
      → Option String
      → List SessionRow
      → List SessionRow × Result SessionError Session
  insert_new io now ttl none _ rows = (rows, err no_random)
  insert_new io now ttl (some _) none rows = (rows, err no_random)
  insert_new io now ttl (some token) (some csrf) rows =
      if io insert_session
      then (rows, err insert_failed)
      else insert_checked
          (record { token = token; csrf_token = csrf; created_at = now; expires_at = now + ttl })
          rows (find_session token rows)

  -- (*Store).CreateSession; the two tokens come from crypto/rand
  unfoldable pub create_session :
      Io
      → ℕ
      → ℤ
      → Option String
      → Option String
      → List SessionRow
      → List SessionRow × Result SessionError Session
  create_session io now (negsuc _) t u rows = (rows, err bad_ttl)
  create_session io now (pos zero) t u rows = (rows, err bad_ttl)
  create_session io now (pos (suc n)) t u rows = insert_new io now (suc n) t u rows

  abbrev pub alive : ℕ → Session → Result SessionError Session
  alive now s = if ltb s.expires_at now then err session_not_found else ok s

  abbrev pub read_session : ℕ → SessionRow → Option ℕ → Option ℕ → Result SessionError Session
  read_session now r none _ = err bad_time
  read_session now r (some _) none = err bad_time
  read_session now r (some a) (some b) =
      alive now
        (record { token = r.token; csrf_token = r.csrf_token; created_at = a; expires_at = b })

  abbrev pub found_session : ℕ → Option SessionRow → Result SessionError Session
  found_session now none = err session_not_found
  found_session now (some r) =
      read_session now r (parse_sqlite_time r.created_at) (parse_sqlite_time r.expires_at)

  -- (*Store).GetSession
  unfoldable pub get_session : Io → ℕ → String → List SessionRow → Result SessionError Session
  get_session io now token rows =
      if str_eq token ""
      then err session_not_found
      else if io select_session
      then err query_failed
      else found_session now (find_session token rows)

  -- (*Store).DeleteSession
  unfoldable pub delete_session :
      Io → String → List SessionRow → List SessionRow × Option SessionError
  delete_session io token rows =
      if io delete_session_row
      then (rows, some query_failed)
      else (filter (λ r. not (str_eq r.token token)) rows, none)

  -- (*Store).PurgeExpiredSessions: the database compares the texts; the rows that are
  -- left, and the number of those deleted
  unfoldable pub purge_expired_sessions :
      Io → ℕ → List SessionRow → List SessionRow × ℕ × Option SessionError
  purge_expired_sessions io now rows =
      let kept = filter (λ r. text_le (c.format now) r.expires_at) rows in
      if io purge_sessions
      then (rows, 0, some query_failed)
      else (kept, length rows - length kept, none)
