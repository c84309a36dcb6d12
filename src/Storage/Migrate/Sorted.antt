-- ===== src/Storage/Migrate/Sorted.antt =====
-- The order in which loadMigrations of internal/storage/store.go returns the migrations.
use frp_easy.Prelude.{
  ℤ, pos, negsuc, ◌≡◌, refl, true, false, Option, none, some, List, [], ◌∷◌, Text, Result, ok, err,
  ltb_ℤ, arith, Bool-cases, inl, inr,
}
use frp_easy.Storage.Migrate.Load.{
  DirEntry, Migration, LoadError, load_entries, load_migrations, sorted, sort_by_version,
  insert_sorted, Ascending,
}

ltb_ℤ_asym : (a b : ℤ) → ltb_ℤ a b ≡ true → ltb_ℤ b a ≡ false
ltb_ℤ_asym (pos a) (pos b) h = ground (arith, h)
ltb_ℤ_asym (pos a) (negsuc b) h = cc
ltb_ℤ_asym (negsuc a) (pos b) h = refl
ltb_ℤ_asym (negsuc a) (negsuc b) h = ground (arith, h)

-- a smaller one in front of a list
cons-Ascending :
    (x m : Migration) (xs : List Migration)
    → ltb_ℤ x.version m.version ≡ true
    → Ascending (x ∷ xs)
    → Ascending (insert_sorted m xs)
    → Ascending (x ∷ insert_sorted m xs)
cons-Ascending x m [] lt a b = (ltb_ℤ_asym x.version m.version lt, tt)
cons-Ascending x m (y ∷ ys) lt a b = elim (Bool-cases (ltb_ℤ y.version m.version)) [
  | inl e ↦ rw e (a.0, rw e at b)
  | inr e ↦ rw e (ltb_ℤ_asym x.version m.version lt, rw e at b)
]

insert_sorted-Ascending :
    (m : Migration) (xs : List Migration) → Ascending xs → Ascending (insert_sorted m xs)
insert_sorted-Ascending m [] h = tt
insert_sorted-Ascending m (x ∷ xs) h = elim (Bool-cases (ltb_ℤ x.version m.version)) [
  | inl e ↦ rw e (cons-Ascending x m xs e h (insert_sorted-Ascending m xs (tail_of x xs h)))
  | inr e ↦ rw e (e, h)
]
  where
    tail_of : (y : Migration) (ys : List Migration) → Ascending (y ∷ ys) → Ascending ys
    tail_of y [] a = tt
    tail_of y (z ∷ zs) a = a.1

sort_by_version-Ascending : (ms : List Migration) → Ascending (sort_by_version ms)
unfolding sort_by_version
sort_by_version-Ascending [] = tt
sort_by_version-Ascending (m ∷ ms) =
    insert_sorted-Ascending m (sort_by_version ms) (sort_by_version-Ascending ms)

pub load_migrations-Ascending :
    (scan : Text → Option ℤ) (dir : Option (List DirEntry)) (ms : List Migration)
    → load_migrations scan dir ≡ ok ms
    → Ascending ms
unfolding load_migrations
load_migrations-Ascending scan none ms h = cc
load_migrations-Ascending scan (some es) ms h = by_loop (load_entries scan es) h
  where
    by_loop : (r : Result LoadError (List Migration)) → sorted scan r ≡ ok ms → Ascending ms
    by_loop (err e) x = cc
    by_loop (ok us) x =
        let same : sort_by_version us ≡ ms = cc x in rw (← same) (sort_by_version-Ascending us)
