-- ===== src/Storage/Migrate/Steps.antt =====
-- One step of migrate of internal/storage/store.go, and scripts run in a row.
use frp_easy.Prelude.{
  ℤ, pos, negsuc, ◌≡◌, true, not, Option, none, some, List, [], ◌∷◌, Text, eq_ℤ, filter, arith,
  Bool-cases, inl, inr,
}
use frp_easy.Storage.Migrate.Load.{Migration}
use frp_easy.Storage.Migrate.Apply.{
  Db, ApplyError, MigrateEnv, member, insert_or_ignore, record_version, apply_one,
}

eq_ℤ_refl : (v : ℤ) → eq_ℤ v v ≡ true
eq_ℤ_refl (pos n) = ground arith
eq_ℤ_refl (negsuc n) = ground arith

module _ {D : Type 0} where
  -- a version that is on record
  abbrev pub Recorded : Db D → Migration → Type 0
  Recorded db m = member m.version db.versions ≡ true

  pub insert_or_ignore_self : (v : ℤ) (db : Db D) → member v (insert_or_ignore v db).versions ≡ true
  unfolding insert_or_ignore
  insert_or_ignore_self v db = elim (Bool-cases (member v db.versions)) [
    | inl e ↦ rw (e, e)
    | inr e ↦ rw e (unfold member in rw (eq_ℤ_refl v))
  ]

  pub insert_or_ignore-keeps :
      (v w : ℤ) (db : Db D)
      → member w db.versions ≡ true
      → member w (insert_or_ignore v db).versions ≡ true
  unfolding insert_or_ignore
  insert_or_ignore-keeps v w db h = elim (Bool-cases (member v db.versions)) [
    | inl e ↦ rw e h
    | inr e ↦ rw e (unfold member in ground (arith, h))
  ]

-- the migrations that are not applied yet
abbrev pub pending : List ℤ → List Migration → List Migration
pending applied ms = filter (λ m. not (member m.version applied)) ms

module _ {D : Type 0} (run : Text → Db D → Option (Db D)) (scan : Text → Option ℤ) where
  abbrev pub then_insert : Migration → Option (Db D) → Option (Db D)
  then_insert m none = none
  then_insert m (some db) = some (insert_or_ignore m.version db)

  abbrev pub bind_db : Option (Db D) → (Db D → Option (Db D)) → Option (Db D)
  bind_db none f = none
  bind_db (some db) f = f db

  -- scripts run one after the other, each with its version recorded
  unfoldable pub run_all : List Migration → Db D → Option (Db D)
  run_all [] db = some db
  run_all (m ∷ ms) db = bind_db (then_insert m (run m.up_sql db)) (run_all ms)

  pub apply_one-ok :
      (env : MigrateEnv) (m : Migration) (db db' : Db D)
      → apply_one run scan env m db ≡ (db', none)
      → then_insert m (run m.up_sql db) ≡ some db'
  unfolding apply_one
  apply_one-ok env m db db' h = elim (Bool-cases (env.begin_fails m.version)) [
    | inl e ↦ absurd (ground (arith, h, e))
    | inr e ↦ by_run (run m.up_sql db) (rw e at h)
  ]
    where
      by_run :
          (o : Option (Db D))
          → record_version run scan env m db o ≡ (db', none)
          → then_insert m o ≡ some db'
      by_run none x = cc
      by_run (some d) x = ground (arith, x)

  pub apply_one-err :
      (env : MigrateEnv) (m : Migration) (db db' : Db D) (e : ApplyError)
      → apply_one run scan env m db ≡ (db', some e)
      → db' ≡ db
  unfolding apply_one
  apply_one-err env m db db' x h = elim (Bool-cases (env.begin_fails m.version)) [
    | inl e ↦ ground (arith, h, e)
    | inr e ↦ by_run (run m.up_sql db) (rw e at h)
  ]
    where
      by_run : (o : Option (Db D)) → record_version run scan env m db o ≡ (db', some x) → db' ≡ db
      by_run none y = cc
      by_run (some d) y = ground (arith, y)
