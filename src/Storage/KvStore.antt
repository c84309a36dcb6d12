-- ===== src/Storage/KvStore.antt =====
-- The interface `kvStore` of internal/auth/ratelimit.go with what its users may rely on, and its
-- implementation by internal/storage/kv.go.
pub mod Examples
use frp_easy.Prelude.{
  true, ◌&&◌, not, Option, none, some, List, [], ◌∷◌, ◌++◌, Text, text_eq, text_eq_iff,
  if◌then◌else◌, Result, ok, err, All, Any, All-filter, Any-filter, Any-imp, filter, ◌≡◌, refl,
  arith, Bool-cases, inl, inr,
}
use frp_easy.Storage.Kv.{
  Entry, Io, KvError, empty_key, sql_failed, select_key, upsert_key, delete_key, select_like,
  kv_get, kv_set, kv_delete, kv_list_by_prefix, select_value, escape_like, order_by_key,
}
use frp_easy.Storage.Kv.Like.{LikeOperator, has_prefix_fold-append, like-escape_like}
use frp_easy.Storage.Kv.Rows.{
  KeysUnique, upsert-KeysUnique, delete-KeysUnique, select_value-upsert, select_value-delete,
  Found-All, select_value-Any, All-order_by_key, Any-order_by_key,
}

-- the value that is stored under a key decides what each operation does
pub record KvStore (V : Type 0) : Type 1 where
  pub State : Type 0
  pub value_at : State → Text → Option V
  pub get : Io → State → Text → Result KvError (Option V)
  pub set : Io → State → Text → V → State × Option KvError
  pub delete : Io → State → Text → State × Option KvError
  pub list_by_prefix : Io → State → Text → Result KvError (List (Entry V))
  pub get_law :
      (io : Io) (s : State) (k : Text)
      → get io s k ≡ (if io (select_key k) then err sql_failed else ok (value_at s k))
  pub set_law :
      (io : Io) (s : State) (k j : Text) (v : V)
      → value_at (set io s k v).0 j ≡ (
          if not (text_eq k []) && not (io (upsert_key k)) && text_eq k j
          then some v
          else value_at s j)
  pub set_error :
      (io : Io) (s : State) (k : Text) (v : V)
      → (set io s k v).1 ≡ (
          if text_eq k []
          then some empty_key
          else if io (upsert_key k)
          then some sql_failed
          else none)
  pub delete_law :
      (io : Io) (s : State) (k j : Text)
      → value_at (delete io s k).0 j
        ≡ (if not (io (delete_key k)) && text_eq k j then none else value_at s j)
  pub delete_error :
      (io : Io) (s : State) (k : Text)
      → (delete io s k).1 ≡ (if io (delete_key k) then some sql_failed else none)
  pub list_sound :
      (io : Io) (s : State) (p : Text) (es : List (Entry V))
      → list_by_prefix io s p ≡ ok es
      → All (λ e. value_at s e.key ≡ some e.value) es
  pub list_complete :
      (io : Io) (s : State) (p x : Text) (v : V) (es : List (Entry V))
      → list_by_prefix io s p ≡ ok es
      → value_at s (p ++ x) ≡ some v
      → Any (λ e. e.key ≡ p ++ x) es

-- the table `kv` with its PRIMARY KEY
pub record KvTable (V : Type 0) : Type 0 where
  pub rows : List (Entry V)
  pub keys_unique : KeysUnique rows

like_key :
    (o : LikeOperator) (p x k : Text)
    → text_eq k (p ++ x) ≡ true
    → o.like (escape_like p ++ 37 ∷ []) k ≡ true
like_key o p x k h =
    rw (like-escape_like o p k, (text_eq_iff k (p ++ x)).0 h) (has_prefix_fold-append p x)

module _ {V : Type 0} where
  pub set_rows-KeysUnique :
      (io : Io) (t : List (Entry V)) (k : Text) (v : V)
      → KeysUnique t
      → KeysUnique (kv_set io t k v).0
  unfolding kv_set
  set_rows-KeysUnique io t k v u = ground (arith, upsert-KeysUnique k v t u)

  pub delete_rows-KeysUnique :
      (io : Io) (t : List (Entry V)) (k : Text) → KeysUnique t → KeysUnique (kv_delete io t k).0
  unfolding kv_delete
  delete_rows-KeysUnique io t k u = ground (arith, delete-KeysUnique k t u)

  pub set_rows_law :
      (io : Io) (t : List (Entry V)) (k j : Text) (v : V)
      → select_value j (kv_set io t k v).0 ≡ (
          if not (text_eq k []) && not (io (upsert_key k)) && text_eq k j
          then some v
          else select_value j t)
  unfolding kv_set
  set_rows_law io t k j v = ground (arith, select_value-upsert k j v t)

  pub set_rows_error :
      (io : Io) (t : List (Entry V)) (k : Text) (v : V)
      → (kv_set io t k v).1 ≡ (
          if text_eq k []
          then some empty_key
          else if io (upsert_key k)
          then some sql_failed
          else none)
  unfolding kv_set
  set_rows_error io t k v = ground arith

  pub delete_rows_law :
      (io : Io) (t : List (Entry V)) (k j : Text)
      → select_value j (kv_delete io t k).0
        ≡ (if not (io (delete_key k)) && text_eq k j then none else select_value j t)
  unfolding kv_delete
  delete_rows_law io t k j = ground (arith, select_value-delete k j t)

  pub delete_rows_error :
      (io : Io) (t : List (Entry V)) (k : Text)
      → (kv_delete io t k).1 ≡ (if io (delete_key k) then some sql_failed else none)
  unfolding kv_delete
  delete_rows_error io t k = ground arith

  table_set : Io → KvTable V → Text → V → KvTable V × Option KvError
  table_set io t k v = (
    record {
      rows = (kv_set io t.rows k v).0;
      keys_unique = set_rows-KeysUnique io t.rows k v t.keys_unique;
    },
    (kv_set io t.rows k v).1,
  )

  table_delete : Io → KvTable V → Text → KvTable V × Option KvError
  table_delete io t k = (
    record {
      rows = (kv_delete io t.rows k).0;
      keys_unique = delete_rows-KeysUnique io t.rows k t.keys_unique;
    },
    (kv_delete io t.rows k).1,
  )

  module _ (o : LikeOperator) where
    listed :
        (io : Io) (t : List (Entry V)) (p : Text) (es : List (Entry V))
        → kv_list_by_prefix o.like io t p ≡ ok es
        → es ≡ order_by_key (filter (λ e. o.like (escape_like p ++ 37 ∷ []) e.key) t)
    unfolding kv_list_by_prefix
    listed io t p es h = elim (Bool-cases (io (select_like (escape_like p ++ 37 ∷ [])))) [
      | inl f ↦ absurd (ground (arith, h, f))
      | inr f ↦ ground (arith, h, f)
    ]

    pub list_rows_sound :
        (io : Io) (t : KvTable V) (p : Text) (es : List (Entry V))
        → kv_list_by_prefix o.like io t.rows p ≡ ok es
        → All (λ e. select_value e.key t.rows ≡ some e.value) es
    list_rows_sound io t p es h =
        rw (listed io t.rows p es h)
          (All-order_by_key _ _ (All-filter _ _ _ (Found-All t.rows t.keys_unique)))

    -- A KVListByPrefix that returns entries returns one for every stored key that begins with the
    -- prefix.
    pub list_rows_complete :
        (io : Io) (t : KvTable V) (p x : Text) (v : V) (es : List (Entry V))
        → kv_list_by_prefix o.like io t.rows p ≡ ok es
        → select_value (p ++ x) t.rows ≡ some v
        → Any (λ e. e.key ≡ p ++ x) es
    list_rows_complete io t p x v es h g = rw (listed io t.rows p es h) (
        Any-imp _ _ _ (λ e. (text_eq_iff e.key (p ++ x)).0)
          (Any-order_by_key _ _
            (Any-filter _ _ _ (λ e. like_key o p x e.key) (select_value-Any (p ++ x) v t.rows g))))

    -- internal/storage/kv.go keeps the interface's promises.
    unfoldable pub sqlite_store : KvStore V
    unfolding table_set table_delete kv_get kv_set kv_delete
    sqlite_store = record {
      State = KvTable V;
      value_at = λ t k. select_value k t.rows;
      get = λ io t k. kv_get io t.rows k;
      set = table_set;
      delete = table_delete;
      list_by_prefix = λ io t p. kv_list_by_prefix o.like io t.rows p;
      get_law = λ io t k. refl;
      set_law = λ io t k j v. set_rows_law io t.rows k j v;
      set_error = λ io t k v. set_rows_error io t.rows k v;
      delete_law = λ io t k j. delete_rows_law io t.rows k j;
      delete_error = λ io t k. delete_rows_error io t.rows k;
      list_sound = list_rows_sound;
      list_complete = list_rows_complete;
    }
