-- ===== src/Storage/Migrate/Examples.antt =====
-- internal/storage/store.go with two embedded migrations, and a database that lists the scripts it ran.
use frp_easy.Prelude.{
  ◌-◌, ℤ, pos, ◌≡◌, refl, true, false, Option, none, some, List, [], ◌∷◌, Text, codes, ok, eq_ℤ,
}
use frp_easy.Storage.Migrate.Load.{DirEntry, Migration, load_migrations, Ascending}
use frp_easy.Storage.Migrate.Apply.{Db, MigrateEnv, member, insert_or_ignore, migrate}
use frp_easy.Storage.Migrate.Steps.{pending}
use frp_easy.Storage.Migrate.Prefix.{PrefixRun, migrate-PrefixRun}

abbrev pub scan : Text → Option ℤ
scan (_ ∷ _ ∷ _ ∷ d ∷ []) = some (pos (d - 48))
scan _ = none

abbrev pub run : Text → Db (List Text) → Option (Db (List Text))
run sql db = some (record db { tables = sql ∷ db.tables })

run_keeps :
    (sql : Text) (db db' : Db (List Text)) (v : ℤ)
    → run sql db ≡ some db'
    → member v db.versions ≡ true
    → member v db'.versions ≡ true
run_keeps sql db db' v h on =
    let same : record db { tables = sql ∷ db.tables } ≡ db' = cc h in rw (← same) on

abbrev pub file : Text → Text → DirEntry
file name sql = record { name = name; is_dir = false; text = some sql }

abbrev pub dir : Option (List DirEntry)
dir = some (
    file (codes "0002_later.up.sql") (codes "B")
    ∷ file (codes "0001_init.down.sql") (codes "X")
    ∷ file (codes "0001_init.up.sql") (codes "A")
    ∷ [])

abbrev pub init : Migration
init = record { version = pos 1; name = codes "init"; up_sql = codes "A" }

abbrev pub later : Migration
later = record { version = pos 2; name = codes "later"; up_sql = codes "B" }

abbrev pub env : MigrateEnv
env = record {
  bootstrap_fails = false;
  read_fails = false;
  begin_fails = λ v. false;
  insert_fails = λ v. false;
  commit_fails = λ v. eq_ℤ v (pos 3);
}

abbrev pub old : Db (List Text)
old = record { versions = []; tables = [] }

abbrev pub new : Db (List Text)
new = record { versions = pos 2 ∷ pos 1 ∷ []; tables = codes "B" ∷ codes "A" ∷ [] }

loaded : load_migrations scan dir ≡ ok (init ∷ later ∷ [])
unfolding load_migrations
loaded = refl

migrated : migrate run scan env dir old ≡ (new, none)
unfolding migrate insert_or_ignore
migrated = refl

migrate-PrefixRun_example :
    Ascending (init ∷ later ∷ [])
    × PrefixRun run scan (pending [] (init ∷ later ∷ [])) old (migrate run scan env dir old)
migrate-PrefixRun_example =
    migrate-PrefixRun run scan env dir (init ∷ later ∷ []) old loaded refl refl
