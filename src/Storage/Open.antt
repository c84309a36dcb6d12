-- ===== src/Storage/Open.antt =====
-- Open of internal/storage/store.go: a database that fails the check is moved aside, and the file that
-- is then at the path is opened and migrated. What SQLite does to the files while it tests and opens
-- the database is a parameter; that no file is there is one of the reasons for a rename to fail.
pub mod Kept
pub mod Examples
use frp_easy.Prelude.{
  Bool, true, false, not, ◌&&◌, ◌||◌, Option, none, some, List, [], ◌∷◌, String, Text, text_eq,
  if◌then◌else◌, ℤ,
}
use frp_easy.Files.{File, Fs, rename}
use frp_easy.Storage.Migrate.Load.{DirEntry}
use frp_easy.Storage.Migrate.Apply.{Db, MigrateError, MigrateEnv, migrate}

pub data OpenError : Type 0 where
  mkdir_failed stat_failed rename_failed sqlite_failed : OpenError
  migrate_failed : MigrateError → OpenError

-- a file beside the database, the name to which it is moved, and whether that fails
pub record Beside : Type 0 where
  pub from_path : String
  pub to_path : String
  pub rename_fails : Bool

-- `is_healthy` is the answer of PRAGMA integrity_check on a file, `db_path` the path of data.db,
-- `broken_path` the name with the time, `beside` the files of SQLite beside it; `probe_writes` and
-- `open_writes` are what SQLite does to the files in probeIntegrity, and from openSqlite on
pub record OpenEnv : Type 0 where
  pub mkdir_fails : Bool
  pub stat_fails : Bool
  pub is_healthy : Text → Bool
  pub db_path : String
  pub broken_path : String
  pub rename_fails : Bool
  pub beside : List Beside
  pub probe_writes : Fs → Fs
  pub open_writes : Fs → Fs
  pub sqlite_fails : Bool
  pub migrate_env : MigrateEnv

-- `opened true` is a store with ErrCorruptReset
pub data Opened (D : Type 0) : Type 0 where
  opened : Bool → Db D → Opened D
  open_failed : OpenError → Opened D

-- from the file's contents: whether Open moves it aside
unfoldable pub is_broken : OpenEnv → Option File → Bool
is_broken env none = false
is_broken env (some f) = not (text_eq f.content []) && not (env.is_healthy f.content)

-- the files after the test of the file at the path, if there is one that is not empty
unfoldable pub probed : OpenEnv → Option File → Fs → Fs
probed env none fs = fs
probed env (some f) fs = if text_eq f.content [] then fs else env.probe_writes fs

-- the renames that may fail
unfoldable pub move_beside : List Beside → Fs → Fs
move_beside [] fs = fs
move_beside (b ∷ bs) fs =
    let moved = move_beside bs (rename b.from_path b.to_path fs) in
    let left = move_beside bs fs in if b.rename_fails then left else moved

module _ {D : Type 0} (run : Text → Db D → Option (Db D)) (scan : Text → Option ℤ)
    (read_db : Fs → Db D) where
  abbrev pub migrated : Bool → Db D × Option MigrateError → Opened D
  migrated reset (db, none) = opened reset db
  migrated reset (db, some e) = open_failed (migrate_failed e)

  -- from openSqlite on
  abbrev pub open_and_migrate : OpenEnv → Option (List DirEntry) → Bool → Fs → Fs × Opened D
  open_and_migrate env dir reset fs =
      if env.sqlite_fails
      then (env.open_writes fs, open_failed sqlite_failed)
      else (env.open_writes fs, migrated reset (migrate run scan env.migrate_env dir (read_db fs)))

  -- Open; `read_db` is what SQLite makes of the files at the path and beside it
  unfoldable pub open_store : OpenEnv → Option (List DirEntry) → Fs → Fs × Opened D
  unfolding is_broken probed move_beside
  open_store env dir fs =
      let tested = probed env (fs env.db_path) fs in
      let aside = move_beside env.beside (rename env.db_path env.broken_path tested) in
      if env.mkdir_fails
      then (fs, open_failed mkdir_failed)
      else if env.stat_fails
      then (fs, open_failed stat_failed)
      else if not (is_broken env (fs env.db_path))
      then open_and_migrate env dir false tested
      else if env.rename_fails
      then (tested, open_failed rename_failed)
      else open_and_migrate env dir true aside
