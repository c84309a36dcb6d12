-- ===== src/Storage/KvStore/Examples.antt =====
-- KVListByPrefix of internal/storage/kv.go on a table of two rows.
use frp_easy.Prelude.{ℕ, refl, [], ◌∷◌, codes, text_eq}
use frp_easy.Storage.Kv.Rows.{KeysUnique, has_key}
use frp_easy.Storage.KvStore.{KvTable}

sample_keys :
    KeysUnique {V = ℕ}
      (record { key = codes "login.b"; value = 2 } ∷ record { key = codes "a"; value = 1 } ∷ [])
unfolding has_key text_eq
sample_keys = (refl, (refl, tt))

abbrev two_rows : KvTable ℕ
two_rows = record {
  rows = record { key = codes "login.b"; value = 2 } ∷ record { key = codes "a"; value = 1 } ∷ [];
  keys_unique = sample_keys;
}
