-- ===== src/Storage/Migrate/Again.antt =====
-- What a successful migrate of internal/storage/store.go leaves to a further one.
use frp_easy.Prelude.{
  ℤ, ◌≡◌, ◌⊎◌, refl, true, false, Option, none, some, List, [], ◌∷◌, Text, ok, All, arith,
  Bool-cases, inl, inr,
}
use frp_easy.Storage.Migrate.Load.{DirEntry, Migration, load_migrations}
use frp_easy.Storage.Migrate.Apply.{
  Db, ApplyError, MigrateEnv, member, insert_or_ignore, apply_one, next_migration, apply_all,
  migrate,
}
use frp_easy.Storage.Migrate.Steps.{
  Recorded, insert_or_ignore_self, insert_or_ignore-keeps, then_insert, apply_one-ok,
}

module _ {D : Type 0} (run : Text → Db D → Option (Db D)) (scan : Text → Option ℤ) where
  module _
      (keeps : (sql : Text) (db db' : Db D) (v : ℤ)
        → run sql db ≡ some db'
        → member v db.versions ≡ true
        → member v db'.versions ≡ true) where
    apply_one-keeps :
        (m : Migration) (db db' : Db D) (v : ℤ) (o : Option (Db D))
        → run m.up_sql db ≡ o
        → then_insert run scan m o ≡ some db'
        → member v db.versions ≡ true
        → member v db'.versions ≡ true
    apply_one-keeps m db db' v none r h on = cc
    apply_one-keeps m db db' v (some d) r h on =
        let same : insert_or_ignore m.version d ≡ db' = cc h in
        rw (← same) (insert_or_ignore-keeps m.version v d (keeps m.up_sql db d v r on))

    apply_one-Recorded :
        (m : Migration) (db' : Db D) (o : Option (Db D))
        → then_insert run scan m o ≡ some db'
        → Recorded db' m
    apply_one-Recorded m db' none h = cc
    apply_one-Recorded m db' (some d) h =
        let same : insert_or_ignore m.version d ≡ db' = cc h in
        rw (← same) (insert_or_ignore_self m.version d)

    -- what a successful loop keeps on record
    apply_all-keeps :
        (env : MigrateEnv) (applied : List ℤ) (ms : List Migration) (db db' : Db D) (v : ℤ)
        → apply_all run scan env applied ms db ≡ (db', none)
        → member v db.versions ≡ true
        → member v db'.versions ≡ true
    unfolding apply_all
    apply_all-keeps env applied [] db db' v h on = let same : db ≡ db' = cc h in rw (← same) on
    apply_all-keeps env applied (m ∷ ms) db db' v h on =
        elim (Bool-cases (member m.version applied)) [
          | inl e ↦ apply_all-keeps env applied ms db db' v (rw e at h) on
          | inr e ↦
              by_step (λ d g. apply_all-keeps env applied ms d db' v g)
                (apply_one run scan env m db) refl (rw e at h)
        ]
      where
        by_step :
            ((d : Db D)
              → apply_all run scan env applied ms d ≡ (db', none)
              → member v d.versions ≡ true
              → member v db'.versions ≡ true)
            → (o : Db D × Option ApplyError) → apply_one run scan env m db ≡ o
            → next_migration run scan (apply_all run scan env applied ms) m o ≡ (db', none)
            → member v db'.versions ≡ true
        by_step again (d, some x) s g = cc
        by_step again (d, none) s g = again d g (
            apply_one-keeps m db d v (run m.up_sql db) refl (apply_one-ok run scan env m db d s) on)

    apply_all-Recorded :
        (env : MigrateEnv) (applied : List ℤ) (ms : List Migration) (db db' : Db D)
        → ((v : ℤ) → member v applied ≡ true → member v db.versions ≡ true)
        → apply_all run scan env applied ms db ≡ (db', none)
        → All (Recorded db') ms
    unfolding apply_all
    apply_all-Recorded env applied [] db db' sub h = tt
    apply_all-Recorded env applied (m ∷ ms) db db' sub h =
        elim (Bool-cases (member m.version applied)) [
          | inl e ↦
              let rest = rw e at h in
              (
                apply_all-keeps env applied ms db db' m.version rest (sub m.version e),
                apply_all-Recorded env applied ms db db' sub rest,
              )
          | inr e ↦
              by_step (λ d s g. apply_all-Recorded env applied ms d db' s g)
                (apply_one run scan env m db) refl (rw e at h)
        ]
      where
        by_step :
            ((d : Db D)
              → ((v : ℤ) → member v applied ≡ true → member v d.versions ≡ true)
              → apply_all run scan env applied ms d ≡ (db', none)
              → All (Recorded db') ms)
            → (o : Db D × Option ApplyError) → apply_one run scan env m db ≡ o
            → next_migration run scan (apply_all run scan env applied ms) m o ≡ (db', none)
            → Recorded db' m × All (Recorded db') ms
        by_step again (d, some x) s g = cc
        by_step again (d, none) s g =
            let did = apply_one-ok run scan env m db d s in
            (
              apply_all-keeps env applied ms d db' m.version g
                  (apply_one-Recorded m d (run m.up_sql db) did),
              again d (λ v on. apply_one-keeps m db d v (run m.up_sql db) refl did (sub v on)) g,
            )

    apply_all-nothing :
        (env : MigrateEnv) (ms : List Migration) (db : Db D)
        → (applied : List ℤ) → All (λ m. member m.version applied ≡ true) ms
        → apply_all run scan env applied ms db ≡ (db, none)
    unfolding apply_all
    apply_all-nothing env [] db applied a = refl
    apply_all-nothing env (m ∷ ms) db applied (e, a) = rw e (apply_all-nothing env ms db applied a)

    -- If no script takes a version off the record: after a migrate that has succeeded the version of
    -- every embedded migration is on record, and a further migrate that can read changes nothing.
    pub migrate_again :
        (env env' : MigrateEnv) (dir : Option (List DirEntry)) (ms : List Migration) (db db' : Db D)
        → load_migrations scan dir ≡ ok ms
        → migrate run scan env dir db ≡ (db', none)
        → env'.bootstrap_fails ≡ false
        → env'.read_fails ≡ false
        → All (Recorded db') ms × (migrate run scan env' dir db' ≡ (db', none))
    unfolding migrate
    migrate_again env env' dir ms db db' load did boot read =
        let all_recorded = recorded (Bool-cases env.bootstrap_fails) (Bool-cases env.read_fails) in
        (
          all_recorded,
          rw (boot, read, load) (apply_all-nothing env' ms db' db'.versions all_recorded),
        )
      where
        recorded :
            (env.bootstrap_fails ≡ true) ⊎ (env.bootstrap_fails ≡ false)
            → (env.read_fails ≡ true) ⊎ (env.read_fails ≡ false)
            → All (Recorded db') ms
        recorded (inl e) f = absurd (ground (arith, did, e))
        recorded (inr e) (inl f) = absurd (ground (arith, did, e, f))
        recorded (inr e) (inr f) =
            apply_all-Recorded env db.versions ms db db' (λ v on. on) (rw (e, f, load) at did)
