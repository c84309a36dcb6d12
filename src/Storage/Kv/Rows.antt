-- ===== src/Storage/Kv/Rows.antt =====
-- What the statements of internal/storage/kv.go do to the rows of the table `kv`.
use frp_easy.Prelude.{
  ◌≡◌, refl, Bool, true, false, ◌||◌, ◌⊎◌, none, some, List, [], ◌∷◌, Text, text_eq, text_eq_iff,
  text_eq_refl, arith, if◌then◌else◌, All, Any, Bool-cases, inl, inr,
}
use frp_easy.Storage.Kv.{
  Entry, select_value, upsert, delete_key_rows, insert_by_key, order_by_key, text_le,
}

module _ {ℓ} {V : Type ℓ} where
  pub select_value-upsert :
      (k j : Text) (v : V) (t : List (Entry V))
      → select_value j (upsert k v t) ≡ (if text_eq k j then some v else select_value j t)
  unfolding select_value upsert
  select_value-upsert k j v [] = refl
  select_value-upsert k j v (e ∷ t) = ground (
    arith,
    text_eq_iff e.key k,
    text_eq_iff e.key j,
    text_eq_iff k j,
    select_value-upsert k j v t,
  )

  pub select_value-delete :
      (k j : Text) (t : List (Entry V))
      → select_value j (delete_key_rows k t) ≡ (if text_eq k j then none else select_value j t)
  unfolding select_value delete_key_rows
  select_value-delete k j [] = ground arith
  select_value-delete k j (e ∷ t) =
      ground (
        arith,
        text_eq_iff e.key k,
        text_eq_iff e.key j,
        text_eq_iff k j,
        select_value-delete k j t,
      )

  unfoldable pub has_key : Text → List (Entry V) → Bool
  has_key k [] = false
  has_key k (e ∷ t) = text_eq e.key k || has_key k t

  -- PRIMARY KEY: no two rows have one key
  abbrev pub KeysUnique : List (Entry V) → Type 0
  KeysUnique [] = Unit
  KeysUnique (e ∷ t) = (has_key e.key t ≡ false) × KeysUnique t

  has_key-upsert :
      (k j : Text) (v : V) (t : List (Entry V))
      → has_key j (upsert k v t) ≡ (text_eq k j || has_key j t)
  unfolding has_key upsert
  has_key-upsert k j v [] = refl
  has_key-upsert k j v (e ∷ t) =
      ground
        (arith, text_eq_iff e.key k, text_eq_iff e.key j, text_eq_iff k j, has_key-upsert k j v t)

  has_key-delete :
      (k j : Text) (t : List (Entry V))
      → has_key j t ≡ false
      → has_key j (delete_key_rows k t) ≡ false
  unfolding has_key delete_key_rows
  has_key-delete k j [] h = refl
  has_key-delete k j (e ∷ t) h = ground (arith, has_key-delete k j t)

  pub upsert-KeysUnique :
      (k : Text) (v : V) (t : List (Entry V)) → KeysUnique t → KeysUnique (upsert k v t)
  unfolding upsert
  upsert-KeysUnique k v [] u = (unfold has_key in refl, tt)
  upsert-KeysUnique k v (e ∷ t) u = ground (
    arith,
    text_eq_iff e.key k,
    text_eq_iff k e.key,
    has_key-upsert k e.key v t,
    upsert-KeysUnique k v t u.1,
  )

  pub delete-KeysUnique :
      (k : Text) (t : List (Entry V)) → KeysUnique t → KeysUnique (delete_key_rows k t)
  unfolding delete_key_rows
  delete-KeysUnique k [] u = tt
  delete-KeysUnique k (e ∷ t) u =
      ground (arith, has_key-delete k e.key t, delete-KeysUnique k t u.1)

  -- every row is what a SELECT by its key finds
  abbrev pub Found : List (Entry V) → Entry V → Type ℓ
  Found t e = select_value e.key t ≡ some e.value

  Found-cons :
      (x : Entry V) (t s : List (Entry V))
      → has_key x.key s ≡ false
      → All (Found t) s
      → All (Found (x ∷ t)) s
  unfolding has_key select_value
  Found-cons x t [] h a = tt
  Found-cons x t (e ∷ s) h a = (
    ground (arith, text_eq_iff x.key e.key, text_eq_iff e.key x.key),
    Found-cons x t s (ground arith) a.1,
  )

  pub Found-All : (t : List (Entry V)) → KeysUnique t → All (Found t) t
  unfolding select_value
  Found-All [] u = tt
  Found-All (x ∷ t) u = (rw (text_eq_refl x.key), Found-cons x t t u.0 (Found-All t u.1))

  pub select_value-Any :
      (k : Text) (v : V) (t : List (Entry V))
      → select_value k t ≡ some v
      → Any (λ e. text_eq e.key k ≡ true) t
  unfolding select_value
  select_value-Any k v [] h = cc
  select_value-Any k v (e ∷ t) h = elim (Bool-cases (text_eq e.key k)) [
    | inl p ↦ inl p
    | inr p ↦ inr (select_value-Any k v t (rw p at h))
  ]

  module _ {κ} (P : Entry V → Type κ) where
    All-insert_by_key :
        (e : Entry V) (t : List (Entry V)) → P e → All P t → All P (insert_by_key e t)
    unfolding insert_by_key
    All-insert_by_key e [] h a = (h, tt)
    All-insert_by_key e (f ∷ t) h a = elim (Bool-cases (text_le e.key f.key)) [
      | inl p ↦ rw p (h, a)
      | inr p ↦ rw p (a.0, All-insert_by_key e t h a.1)
    ]

    pub All-order_by_key : (t : List (Entry V)) → All P t → All P (order_by_key t)
    unfolding order_by_key
    All-order_by_key [] a = tt
    All-order_by_key (e ∷ t) a = All-insert_by_key e (order_by_key t) a.0 (All-order_by_key t a.1)

  module _ (P : Entry V → Type 0) where
    Any-insert_by_key :
        (e : Entry V) (t : List (Entry V)) → P e ⊎ Any P t → Any P (insert_by_key e t)
    unfolding insert_by_key
    Any-insert_by_key e [] h = h
    Any-insert_by_key e (f ∷ t) h = elim (Bool-cases (text_le e.key f.key)) [
      | inl p ↦ rw p h
      | inr p ↦ rw p (behind (Any-insert_by_key e t) h)
    ]
      where
        behind :
            (P e ⊎ Any P t → Any P (insert_by_key e t))
            → P e ⊎ (P f ⊎ Any P t)
            → P f ⊎ Any P (insert_by_key e t)
        behind ih (inl a) = inr (ih (inl a))
        behind ih (inr (inl b)) = inl b
        behind ih (inr (inr c)) = inr (ih (inr c))

    pub Any-order_by_key : (t : List (Entry V)) → Any P t → Any P (order_by_key t)
    unfolding order_by_key
    Any-order_by_key [] a = a
    Any-order_by_key (e ∷ t) (inl h) = Any-insert_by_key e (order_by_key t) (inl h)
    Any-order_by_key (e ∷ t) (inr h) =
        Any-insert_by_key e (order_by_key t) (inr (Any-order_by_key t h))
