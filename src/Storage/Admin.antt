-- ===== src/Storage/Admin.antt =====
-- internal/storage/admin.go and the table `admin`, whose CHECK leaves it one row at most.
use frp_easy.Prelude.{
  ℕ, ◌-◌, ◌%◌, ◌≤◌, ◌≡◌, Bool, false, ◌||◌, Option, none, some, [], String, str_eq, Text, text_eq,
  Result, ok, err, if◌then◌else◌, arith,
}
use frp_easy.Storage.Sessions.{Clock, rfc3339_nano, rfc3339, date_time, parse_sqlite_time}

pub record AdminRow : Type 0 where
  pub username : String
  pub password_hash : Text
  pub updated_at : Text

pub record Admin : Type 0 where
  pub username : String
  pub password_hash : Text
  pub updated_at : ℕ

pub data AdminError : Type 0 where
  missing_field query_failed bad_time upsert_failed : AdminError

pub data AdminStmt : Type 0 where
  select_admin upsert_admin : AdminStmt

abbrev pub Io : Type 0
Io = AdminStmt → Bool

-- SQLite's datetime('now'): whole seconds, in a text that only the layout of dates with a space reads
pub record SqliteNow (c : Clock) : Type 0 where
  pub datetime : ℕ → Text
  pub trim-datetime : (n : ℕ) → c.trim (datetime n) ≡ datetime n
  pub datetime_ne : (n : ℕ) → text_eq (datetime n) [] ≡ false
  pub not_nano : (n : ℕ) → c.parse rfc3339_nano (datetime n) ≡ none
  pub not_rfc3339 : (n : ℕ) → c.parse rfc3339 (datetime n) ≡ none
  pub parse-datetime :
      (n : ℕ) → n ≤ c.last_time → c.parse date_time (datetime n) ≡ some (n - n % 1000000000)

module _ (c : Clock) where
  abbrev pub with_time : AdminRow → Option ℕ → Result AdminError (Option Admin)
  with_time r none = err bad_time
  with_time r (some t) =
      ok (some (record { username = r.username; password_hash = r.password_hash; updated_at = t }))

  abbrev pub scan_admin : Option AdminRow → Result AdminError (Option Admin)
  scan_admin none = ok none
  scan_admin (some r) = with_time r (parse_sqlite_time c r.updated_at)

  -- (*Store).GetAdmin
  unfoldable pub get_admin : Io → Option AdminRow → Result AdminError (Option Admin)
  get_admin io row = if io select_admin then err query_failed else scan_admin row

  module _ (d : SqliteNow c) where
    -- (*Store).SetAdmin
    unfoldable pub set_admin :
        Io → ℕ → String → Text → Option AdminRow → Option AdminRow × Option AdminError
    set_admin io now username password_hash row =
        if str_eq username "" || text_eq password_hash []
        then (row, some missing_field)
        else if io upsert_admin
        then (row, some upsert_failed)
        else (
          some (record {
            username = username;
            password_hash = password_hash;
            updated_at = d.datetime now;
          }),
          none,
        )

    parse_sqlite_time-datetime :
        (n : ℕ) → n ≤ c.last_time → parse_sqlite_time c (d.datetime n) ≡ some (n - n % 1000000000)
    unfolding parse_sqlite_time
    parse_sqlite_time-datetime n h =
        rw (d.trim-datetime n, d.datetime_ne n, d.not_nano n, d.not_rfc3339 n, d.parse-datetime n h)

    -- what GetAdmin finds after a SetAdmin that has succeeded
    pub get_admin-set_admin :
        (io io' : Io) (now : ℕ) (name : String) (h : Text) (row row' : Option AdminRow)
        → set_admin io now name h row ≡ (row', none)
        → now ≤ c.last_time
        → io' select_admin ≡ false
        → get_admin io' row'
          ≡ ok (
              some (record {
                username = name;
                password_hash = h;
                updated_at = now - now % 1000000000;
              }))
    unfolding get_admin set_admin
    get_admin-set_admin io io' now name h row row' e fits works =
        let stored : row'
            ≡ some (record { username = name; password_hash = h; updated_at = d.datetime now }) =
          ground (arith, e) in
        rw (works, stored, parse_sqlite_time-datetime now fits)
