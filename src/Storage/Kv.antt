-- ===== src/Storage/Kv.antt =====
-- internal/storage/kv.go and the table `kv` of sqlmigrations/0001_init.up.sql.
-- A statement is carried out on the rows, or the driver reports an error and the rows stay as
-- they were. Which statements fail is the driver's choice, an argument of each operation.

pub mod Like
pub mod Rows
pub mod Examples
use frp_easy.Prelude.{
  ℕ, Bool, true, false, ◌&&◌, Option, none, some, List, [], ◌∷◌, ◌++◌, Text, text_eq, if◌then◌else◌,
  Result, ok, err, filter, ltb, ◌==◌, ◌||◌,
}

pub record Entry {ℓ} (V : Type ℓ) : Type ℓ where
  pub key : Text
  pub value : V

-- The statements that kv.go gives to the driver.
pub data Stmt : Type 0 where
  select_key upsert_key delete_key select_like : Text → Stmt

-- true: the driver reports an error for this statement
abbrev pub Io : Type 0
Io = Stmt → Bool

-- a driver that reports no error
abbrev pub healthy : Io
healthy _ = false

pub data KvError : Type 0 where
  empty_key sql_failed : KvError

-- escapeLike: three strings.ReplaceAll, each of one byte by two
unfoldable pub replace_byte : ℕ → Text → Text
replace_byte c [] = []
replace_byte c (x ∷ s) = let rest = replace_byte c s in if x == c then 92 ∷ x ∷ rest else x ∷ rest

unfoldable pub escape_like : Text → Text
unfolding replace_byte
escape_like s = replace_byte 95 (replace_byte 37 (replace_byte 92 s))

-- byte order of keys, for ORDER BY
unfoldable pub text_le : Text → Text → Bool
text_le [] t = true
text_le (a ∷ s) [] = false
text_le (a ∷ s) (b ∷ t) = ltb a b || (a == b && text_le s t)

module _ {ℓ} {V : Type ℓ} where
  -- SELECT value FROM kv WHERE key = ?
  unfoldable pub select_value : Text → List (Entry V) → Option V
  select_value k [] = none
  select_value k (e ∷ t) = if text_eq e.key k then some e.value else select_value k t

  -- INSERT … ON CONFLICT(key) DO UPDATE SET value = excluded.value
  unfoldable pub upsert : Text → V → List (Entry V) → List (Entry V)
  upsert k v [] = record { key = k; value = v } ∷ []
  upsert k v (e ∷ t) =
      let rest = upsert k v t in
      if text_eq e.key k then record { key = e.key; value = v } ∷ t else e ∷ rest

  -- DELETE FROM kv WHERE key = ?
  unfoldable pub delete_key_rows : Text → List (Entry V) → List (Entry V)
  delete_key_rows k [] = []
  delete_key_rows k (e ∷ t) =
      let rest = delete_key_rows k t in if text_eq e.key k then rest else e ∷ rest

  unfoldable pub insert_by_key : Entry V → List (Entry V) → List (Entry V)
  insert_by_key e [] = e ∷ []
  insert_by_key e (f ∷ t) =
      let rest = insert_by_key e t in if text_le e.key f.key then e ∷ f ∷ t else f ∷ rest

  unfoldable pub order_by_key : List (Entry V) → List (Entry V)
  unfolding insert_by_key
  order_by_key [] = []
  order_by_key (e ∷ t) = insert_by_key e (order_by_key t)

  -- (*Store).KVGet: `ok none` is found=false
  unfoldable pub kv_get : Io → List (Entry V) → Text → Result KvError (Option V)
  unfolding select_value
  kv_get io t key = if io (select_key key) then err sql_failed else ok (select_value key t)

  -- (*Store).KVSet
  unfoldable pub kv_set : Io → List (Entry V) → Text → V → List (Entry V) × Option KvError
  unfolding upsert
  kv_set io t key v =
      if text_eq key []
      then (t, some empty_key)
      else if io (upsert_key key)
      then (t, some sql_failed)
      else (upsert key v t, none)

  -- (*Store).KVDelete
  unfoldable pub kv_delete : Io → List (Entry V) → Text → List (Entry V) × Option KvError
  unfolding delete_key_rows
  kv_delete io t key =
      if io (delete_key key) then (t, some sql_failed) else (delete_key_rows key t, none)

  -- (*Store).KVListByPrefix; `like` is SQLite's operator with the escape character `\`
  unfoldable pub kv_list_by_prefix :
      (Text → Text → Bool) → Io → List (Entry V) → Text → Result KvError (List (Entry V))
  unfolding order_by_key escape_like
  kv_list_by_prefix like io t prefix =
      let pattern' = escape_like prefix ++ 37 ∷ [] in
      if io (select_like pattern')
      then err sql_failed
      else ok (order_by_key (filter (λ e. like pattern' e.key) t))
