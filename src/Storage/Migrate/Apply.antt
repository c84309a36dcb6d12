-- ===== src/Storage/Migrate/Apply.antt =====
-- migrate and applyOne of internal/storage/store.go.
use frp_easy.Prelude.{
  ℤ, Bool, false, ◌||◌, Option, none, some, List, [], ◌∷◌, Text, Result, ok, err, if◌then◌else◌,
  eq_ℤ,
}
use frp_easy.Storage.Migrate.Load.{DirEntry, Migration, LoadError, load_migrations}

-- `versions` is the table schema_migrations, `tables` all the rest
pub record Db (D : Type 0) : Type 0 where
  pub versions : List ℤ
  pub tables : D

pub data ApplyError : Type 0 where
  begin_failed exec_failed insert_failed commit_failed : ApplyError

pub data MigrateError : Type 0 where
  bootstrap_failed read_failed : MigrateError
  load_failed : LoadError → MigrateError
  apply_failed : Migration → ApplyError → MigrateError

-- the calls of the driver that fail, each transaction's by its version
pub record MigrateEnv : Type 0 where
  pub bootstrap_fails : Bool
  pub read_fails : Bool
  pub begin_fails : ℤ → Bool
  pub insert_fails : ℤ → Bool
  pub commit_fails : ℤ → Bool

-- the map `applied`
unfoldable pub member : ℤ → List ℤ → Bool
member v [] = false
member v (w ∷ ws) = eq_ℤ v w || member v ws

-- INSERT OR IGNORE INTO schema_migrations
unfoldable pub insert_or_ignore : {D : Type 0} → ℤ → Db D → Db D
unfolding member
insert_or_ignore v db =
    if member v db.versions then db else record db { versions = v ∷ db.versions }

module _ {D : Type 0} (run : Text → Db D → Option (Db D)) (scan : Text → Option ℤ) where
  -- from the INSERT of applyOne on
  abbrev pub record_version :
      MigrateEnv → Migration → Db D → Option (Db D) → Db D × Option ApplyError
  record_version env m db none = (db, some exec_failed)
  record_version env m db (some db') =
      if env.insert_fails m.version
      then (db, some insert_failed)
      else if env.commit_fails m.version
      then (db, some commit_failed)
      else (insert_or_ignore m.version db', none)

  -- (*Store).applyOne
  unfoldable pub apply_one : MigrateEnv → Migration → Db D → Db D × Option ApplyError
  apply_one env m db =
      if env.begin_fails m.version
      then (db, some begin_failed)
      else record_version env m db (run m.up_sql db)

  abbrev pub next_migration :
      (Db D → Db D × Option MigrateError)
      → Migration
      → Db D × Option ApplyError
      → Db D × Option MigrateError
  next_migration next m (db, some e) = (db, some (apply_failed m e))
  next_migration next m (db, none) = next db

  -- the loop of migrate
  unfoldable pub apply_all :
      MigrateEnv → List ℤ → List Migration → Db D → Db D × Option MigrateError
  unfolding apply_one member
  apply_all env applied [] db = (db, none)
  apply_all env applied (m ∷ ms) db =
      let skip = apply_all env applied ms db in
      if member m.version applied
      then skip
      else next_migration (apply_all env applied ms) m (apply_one env m db)

  abbrev pub apply_loaded :
      MigrateEnv → Db D → Result LoadError (List Migration) → Db D × Option MigrateError
  apply_loaded env db (err e) = (db, some (load_failed e))
  apply_loaded env db (ok ms) = apply_all env db.versions ms db

  -- (*Store).migrate; a new database has no versions, with or without the table
  unfoldable pub migrate : MigrateEnv → Option (List DirEntry) → Db D → Db D × Option MigrateError
  unfolding load_migrations apply_all
  migrate env dir db =
      if env.bootstrap_fails
      then (db, some bootstrap_failed)
      else if env.read_fails
      then (db, some read_failed)
      else apply_loaded env db (load_migrations scan dir)
