-- ===== src/Storage/Migrate/Prefix.antt =====
-- Which scripts migrate of internal/storage/store.go has run when it returns.
use frp_easy.Prelude.{
  ℤ, ◌≡◌, refl, sym, ap, false, Option, none, some, List, [], ◌∷◌, ◌++◌, Text, ok, Bool-cases, inl,
  inr,
}
use frp_easy.Storage.Migrate.Load.{DirEntry, Migration, load_migrations, Ascending}
use frp_easy.Storage.Migrate.Sorted.{load_migrations-Ascending}
use frp_easy.Storage.Migrate.Apply.{
  apply_failed, Db, ApplyError, MigrateError, MigrateEnv, member, apply_one, next_migration,
  apply_all, migrate,
}
use frp_easy.Storage.Migrate.Steps.{pending, then_insert, run_all, apply_one-ok, apply_one-err}

module _ {D : Type 0} (run : Text → Db D → Option (Db D)) (scan : Text → Option ℤ) where
  -- all scripts of the list have run, or the named one is the first that has not
  abbrev pub Stop : List Migration → Option MigrateError → Type 0
  Stop [] none = Unit
  Stop (m ∷ ms) (some (apply_failed n x)) = n ≡ m
  Stop _ _ = ⊥

  -- the scripts of a first part of the list have run, in the list's order
  abbrev pub PrefixRun : List Migration → Db D → Db D × Option MigrateError → Type 0
  PrefixRun ms db (db', e) =
      (done : List Migration) × (todo : List Migration) × (ms ≡ done ++ todo)
      × (run_all run scan done db ≡ some db')
      × Stop todo e

  cons-PrefixRun :
      (m : Migration) (ms : List Migration) (db db1 : Db D) (o : Db D × Option MigrateError)
      → then_insert run scan m (run m.up_sql db) ≡ some db1
      → PrefixRun ms db1 o
      → PrefixRun (m ∷ ms) db o
  unfolding run_all
  cons-PrefixRun m ms db db1 (db', e) step (done, todo, split, ran, stop) =
      (m ∷ done, todo, ap (λ t. m ∷ t) split, rw step ran, stop)

  apply_all-PrefixRun :
      (env : MigrateEnv) (applied : List ℤ) (ms : List Migration) (db : Db D)
      → PrefixRun (pending applied ms) db (apply_all run scan env applied ms db)
  unfolding apply_all run_all
  apply_all-PrefixRun env applied [] db = ([], [], refl, refl, tt)
  apply_all-PrefixRun env applied (m ∷ ms) db = elim (Bool-cases (member m.version applied)) [
    | inl e ↦ rw e (apply_all-PrefixRun env applied ms db)
    | inr e ↦
        rw e
          (by_step (λ d. apply_all-PrefixRun env applied ms d) (apply_one run scan env m db) refl)
  ]
    where
      by_step :
          ((d : Db D) → PrefixRun (pending applied ms) d (apply_all run scan env applied ms d))
          → (o : Db D × Option ApplyError) → apply_one run scan env m db ≡ o
          → PrefixRun
              (m ∷ pending applied ms)
              db
              (next_migration run scan (apply_all run scan env applied ms) m o)
      by_step again (db1, none) h =
          cons-PrefixRun m (pending applied ms) db db1 (apply_all run scan env applied ms db1)
            (apply_one-ok run scan env m db db1 h) (again db1)
      by_step again (db1, some x) h = (
        [],
        m ∷ pending applied ms,
        refl,
        ap some (sym (apply_one-err run scan env m db db1 x h)),
        refl,
      )

  -- Migrate runs the scripts that are not applied yet in ascending order of their versions, each with
  -- its version put on record, and stops at the first that fails, which it names and whose changes are
  -- undone: if the versions on record and the embedded files can be read.
  pub migrate-PrefixRun :
      (env : MigrateEnv) (dir : Option (List DirEntry)) (ms : List Migration) (db : Db D)
      → load_migrations scan dir ≡ ok ms
      → env.bootstrap_fails ≡ false
      → env.read_fails ≡ false
      → Ascending ms × PrefixRun (pending db.versions ms) db (migrate run scan env dir db)
  unfolding migrate
  migrate-PrefixRun env dir ms db load boot read = (
    load_migrations-Ascending scan dir ms load,
    rw (boot, read, load) (apply_all-PrefixRun env db.versions ms db),
  )
