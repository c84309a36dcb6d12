-- ===== src/Storage/Proxies/Rows.antt =====
-- The statements on `proxies` keep its constraints
-- (internal/storage/sqlmigrations/0001_init.up.sql, internal/storage/proxies.go).
use frp_easy.Prelude.{
  ℕ, ◌+◌, ◌≤◌, ℤ, Bool, true, false, ◌||◌, ◌==◌, Option, none, some, List, [], ◌∷◌, ◌++◌, str_eq,
  eq_iff, ok, err, ◌≡◌, inl, inr, refl, arith, All, All-append, All-imp, Bool-cases, Option-cases,
}
use frp_easy.Storage.Proxies.Schema.{
  Row, Table, check_row, same_port, same_remote, has_name, has_remote, violated, others,
  replace_row, insert_row, update_row, delete_row,
}

-- two rows that some UNIQUE constraint, or the primary key, keeps apart
unfoldable pub clash : Row → Row → Bool
clash r q = r.id == q.id || (str_eq r.name q.name || same_remote r q)

unfoldable pub any_clash : Row → List Row → Bool
unfolding clash
any_clash r [] = false
any_clash r (q ∷ rs) = clash r q || any_clash r rs

abbrev pub Separate : List Row → Type 0
Separate [] = Unit
Separate (r ∷ rs) = (any_clash r rs ≡ false) × Separate rs

-- what the schema promises of the table
pub record IsTable (t : Table) : Type 0 where
  pub checked : All (λ r. check_row r ≡ true) t.rows
  pub separate : Separate t.rows
  pub used : All (λ r. r.id ≤ t.last_id) t.rows

same_port_comm : (a b : Option ℤ) → same_port a b ≡ same_port b a
same_port_comm none none = refl
same_port_comm none (some b) = refl
same_port_comm (some a) none = refl
same_port_comm (some a) (some b) = ground arith

clash_comm : (r q : Row) → clash r q ≡ clash q r
unfolding clash
clash_comm r q = ground (
  arith,
  same_port_comm r.remote_port q.remote_port,
  eq_iff r.name q.name,
  eq_iff q.name r.name,
  eq_iff r.kind q.kind,
  eq_iff q.kind r.kind,
)

any_clash-append :
    (r q : Row) (rs : List Row) → any_clash r (rs ++ q ∷ []) ≡ (any_clash r rs || clash r q)
unfolding any_clash
any_clash-append r q [] = ground arith
any_clash-append r q (x ∷ rs) = ground (arith, any_clash-append r q rs)

Separate-append :
    (q : Row) (rs : List Row) → Separate rs → any_clash q rs ≡ false → Separate (rs ++ q ∷ [])
unfolding any_clash
Separate-append q [] s h = (refl, tt)
Separate-append q (r ∷ rs) s h = (
  ground (arith, any_clash-append r q rs, clash_comm q r),
  Separate-append q rs s.1 (ground arith),
)

any_clash-others :
    (i : ℕ) (r : Row) (rs : List Row) → any_clash r rs ≡ false → any_clash r (others i rs) ≡ false
unfolding any_clash others
any_clash-others i r [] h = refl
any_clash-others i r (q ∷ rs) h = ground (arith, any_clash-others i r rs)

Separate-others : (i : ℕ) (rs : List Row) → Separate rs → Separate (others i rs)
unfolding others
Separate-others i [] s = tt
Separate-others i (r ∷ rs) s = elim (Bool-cases (r.id == i)) [
  | inl e ↦ rw e (Separate-others i rs s.1)
  | inr e ↦ rw e (any_clash-others i r rs s.0, Separate-others i rs s.1)
]

violated-none :
    (b : Bool) (q : Row) (rs : List Row)
    → violated b q rs ≡ none
    → (check_row q ≡ true) × (has_name q rs ≡ false) × (has_remote q rs ≡ false)
unfolding violated
violated-none b q rs h = ground arith

-- beside rows with other ids, UNIQUE is all that `clash` asks
any_clash_unique :
    (q : Row) (rs : List Row)
    → has_name q rs ≡ false
    → has_remote q rs ≡ false
    → All (λ r. (q.id == r.id) ≡ false) rs
    → any_clash q rs ≡ false
unfolding any_clash has_name has_remote
any_clash_unique q [] n m a = refl
any_clash_unique q (r ∷ rs) n m a = ground (arith, any_clash_unique q rs)

fresh_id :
    (n : ℕ) (rs : List Row) → All (λ r. r.id ≤ n) rs → All (λ r. ((n + 1) == r.id) ≡ false) rs
fresh_id n rs a = All-imp _ _ rs (λ r h. ground arith) a

others_ids : (i : ℕ) (rs : List Row) → All (λ r. (i == r.id) ≡ false) (others i rs)
unfolding others
others_ids i [] = tt
others_ids i (r ∷ rs) = elim (Bool-cases (r.id == i)) [
  | inl e ↦ rw e (others_ids i rs)
  | inr e ↦ rw e (ground arith, others_ids i rs)
]

le_next : (a n : ℕ) → a ≤ n → a ≤ n + 1
le_next a n h = omega arith

le_refl : (a : ℕ) → a ≤ a
le_refl a = omega arith

pub insert_row-eq :
    (b : Bool) (r : Row) (t t' : Table)
    → insert_row b r t ≡ ok t'
    → (violated b (record r { id = t.last_id + 1 }) t.rows ≡ none)
      × (t' ≡ record {
        rows = t.rows ++ record r { id = t.last_id + 1 } ∷ [];
        last_id = t.last_id + 1;
      })
unfolding insert_row
insert_row-eq b r t t' h =
    elim (Option-cases (violated b (record r { id = t.last_id + 1 }) t.rows)) [
      | inr (c, e) ↦ let x : err c ≡ ok t' = rw (e, insert_row) at h in cc x
      | inl e ↦
          let x : ok (record {
            rows = t.rows ++ record r { id = t.last_id + 1 } ∷ [];
            last_id = t.last_id + 1;
          })
              ≡ ok t' =
            rw (e, insert_row) at h in
          (e, cc x)
    ]

pub insert_row-IsTable :
    (b : Bool) (r : Row) (t t' : Table) → IsTable t → insert_row b r t ≡ ok t' → IsTable t'
insert_row-IsTable b r t t' v h =
    let (e, x) = insert_row-eq b r t t' h in
    let q : Row = record r { id = t.last_id + 1 } in
    let (k, n, m) = violated-none b q t.rows e in
    rw x (record {
      checked = All-append _ t.rows (q ∷ []) v.checked (k, tt);
      separate =
          Separate-append q t.rows v.separate
            (any_clash_unique q t.rows n m (fresh_id t.last_id t.rows v.used));
      used =
          All-append _ t.rows (q ∷ []) (All-imp _ _ t.rows (λ y l. le_next y.id t.last_id l) v.used)
            (le_refl (t.last_id + 1), tt);
    })

pub All-replace_row {κ} :
    (P : Row → Type κ) (q : Row) (rs : List Row) → P q → All P rs → All P (replace_row q rs)
unfolding replace_row
All-replace_row P q [] h a = tt
All-replace_row P q (r ∷ rs) h a = elim (Bool-cases (r.id == q.id)) [
  | inl e ↦ rw e (h, All-replace_row P q rs h a.1)
  | inr e ↦ rw e (a.0, All-replace_row P q rs h a.1)
]

All-others {κ} : (P : Row → Type κ) (i : ℕ) (rs : List Row) → All P rs → All P (others i rs)
unfolding others
All-others P i [] a = tt
All-others P i (r ∷ rs) a = elim (Bool-cases (r.id == i)) [
  | inl e ↦ rw e (All-others P i rs a.1)
  | inr e ↦ rw e (a.0, All-others P i rs a.1)
]

any_clash-replace :
    (r q : Row) (rs : List Row)
    → any_clash r rs ≡ false
    → clash r q ≡ false
    → any_clash r (replace_row q rs) ≡ false
unfolding any_clash replace_row
any_clash-replace r q [] h c = refl
any_clash-replace r q (x ∷ rs) h c = ground (arith, any_clash-replace r q rs)

-- a row whose id none of the others has
others-same :
    (r : Row) (i : ℕ) (rs : List Row)
    → (r.id == i) ≡ true
    → any_clash r rs ≡ false
    → others i rs ≡ rs
unfolding others any_clash
others-same r i [] e h = refl
others-same r i (x ∷ rs) e h = ground (arith, others-same r i rs)

replace-same :
    (r q : Row) (rs : List Row)
    → (r.id == q.id) ≡ true
    → any_clash r rs ≡ false
    → replace_row q rs ≡ rs
unfolding replace_row any_clash
replace-same r q [] e h = refl
replace-same r q (x ∷ rs) e h = ground (arith, replace-same r q rs)

Separate-replace :
    (q : Row) (rs : List Row)
    → Separate rs
    → any_clash q (others q.id rs) ≡ false
    → Separate (replace_row q rs)
unfolding replace_row others
Separate-replace q [] s h = tt
Separate-replace q (r ∷ rs) s h = elim (Bool-cases (r.id == q.id)) [
  | inl e ↦
      let h' : any_clash q rs ≡ false = rw (e, others-same r q.id rs e s.0) at h in
      rw (e, replace-same r q rs e s.0) (h', s.1)
  | inr e ↦
      let h' : any_clash q (r ∷ others q.id rs) ≡ false = rw e at h in
      rw e (
        any_clash-replace r q rs s.0 (unfold any_clash in ground (arith, clash_comm q r)),
        Separate-replace q rs s.1 (unfold any_clash in ground arith),
      )
]

pub update_row-eq :
    (b : Bool) (r : Row) (t t' : Table)
    → update_row b r t ≡ ok t'
    → (violated b r (others r.id t.rows) ≡ none) × (t' ≡ record t { rows = replace_row r t.rows })
unfolding update_row
update_row-eq b r t t' h = elim (Option-cases (violated b r (others r.id t.rows))) [
  | inr (c, e) ↦ let x : err c ≡ ok t' = rw (e, update_row) at h in cc x
  | inl e ↦
      let x : ok (record t { rows = replace_row r t.rows }) ≡ ok t' = rw (e, update_row) at h in
      (e, cc x)
]

pub update_row-IsTable :
    (b : Bool) (r : Row) (t t' : Table)
    → IsTable t
    → r.id ≤ t.last_id
    → update_row b r t ≡ ok t'
    → IsTable t'
update_row-IsTable b r t t' v i h =
    let (e, x) = update_row-eq b r t t' h in
    let (k, n, m) = violated-none b r (others r.id t.rows) e in
    rw x (record {
      checked = All-replace_row _ r t.rows k v.checked;
      separate =
          Separate-replace r t.rows v.separate
            (any_clash_unique r (others r.id t.rows) n m (others_ids r.id t.rows));
      used = All-replace_row _ r t.rows i v.used;
    })

pub delete_row-IsTable : (i : ℕ) (t : Table) → IsTable t → IsTable (delete_row i t)
unfolding delete_row
delete_row-IsTable i t v = record {
  checked = All-others _ i t.rows v.checked;
  separate = Separate-others i t.rows v.separate;
  used = All-others _ i t.rows v.used;
}
