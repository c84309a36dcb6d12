-- ===== src/Storage/Open/Examples.antt =====
-- Open of internal/storage/store.go on a broken file.
use frp_easy.Prelude.{
  ◌≡◌, refl, true, false, none, some, List, [], ◌∷◌, str_eq, Text, codes, text_eq, if◌then◌else◌,
}
use frp_easy.Files.{File, Fs}
use frp_easy.Storage.Migrate.Apply.{Db}
use frp_easy.Storage.Migrate.Examples.{run, scan, dir, env, old}
use frp_easy.Storage.Open.{Beside, OpenEnv, probed, open_store}
use frp_easy.Storage.Open.Kept.{Kept}

abbrev wal : Beside
wal = record { from_path = "data.db-wal"; to_path = "data.db.broken-1-wal"; rename_fails = true }

abbrev broken : OpenEnv
broken = record {
  mkdir_fails = false;
  stat_fails = false;
  is_healthy = λ t. text_eq t (codes "SQLite");
  db_path = "data.db";
  broken_path = "data.db.broken-1";
  rename_fails = false;
  beside = wal ∷ [];
  probe_writes = λ g. g;
  open_writes = λ g. g;
  sqlite_fails = false;
  migrate_env = env;
}

abbrev torn : File
torn = record { content = codes "SQL"; mode = 420 }

abbrev disk : Fs
disk q = if str_eq "data.db" q then some torn else none

abbrev read_db : Fs → Db (List Text)
read_db f = old

moved : (open_store run scan read_db broken dir disk).0 "data.db.broken-1" ≡ some torn
unfolding open_store probed text_eq
moved = refl
