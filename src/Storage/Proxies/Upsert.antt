-- ===== src/Storage/Proxies/Upsert.antt =====
-- What UpsertProxy and DeleteProxy of internal/storage/proxies.go promise.
use frp_easy.Prelude.{
  ℕ, ◌+◌, ◌≤◌, true, false, ◌||◌, ◌==◌, Option, none, some, List, [], ◌∷◌, Result, ok, err, ◌≡◌,
  inl, inr, refl, arith, All, Bool-cases, Option-cases,
}
use frp_easy.Storage.Proxies.Schema.{Row, Table, Constraint, find_row, insert_row, update_row}
use frp_easy.Storage.Proxies.Errors.{Driver}
use frp_easy.Storage.Proxies.Shaped.{IsShaped, insert_row-IsShaped, update_row-IsShaped}
use frp_easy.Storage.Proxies.Rows.{IsTable, insert_row-IsTable, update_row-IsTable}
use frp_easy.Storage.Proxies.{
  Proxy, ShapeError, StoreError, Io, DomainsCodec, invalid, not_found, version_conflict, sql_error,
  validate_proxy_shape, to_row, classify, fill_updated_at, insert_proxy, after_insert, after_update,
  update_found, update_proxy, upsert_proxy, last_insert_id, insert, update, commit, begin,
  read_version,
}

find_row-le :
    (i n : ℕ) (rs : List Row) (r : Row) → All (λ x. x.id ≤ n) rs → find_row i rs ≡ some r → i ≤ n
unfolding find_row
find_row-le i n [] r a h = cc
find_row-le i n (x ∷ rs) r a h = ground (arith, find_row-le i n rs r a.1)

-- What an upsert may come to: refused with the table as it was; a new row; a new row whose id could
-- not be read back; or the row of the same id and version written anew, with the next version.
pub data Outcome (d : Driver) (json : DomainsCodec) (io : Io) (now : ℕ) (p : Proxy) (t : Table)
    (o : Table × Result StoreError Proxy) : Type 0 where
  refused : (e : StoreError) → o ≡ (t, err e) → Outcome d json io now p t o
  inserted :
      (t' : Table)
      → (p.id == 0) ≡ true
      → insert_row d.name_first (to_row d json now p 1) t ≡ ok t'
      → o ≡ (t', ok (fill_updated_at d json io t' (record p { id = t'.last_id; version = 1 })))
      → Outcome d json io now p t o
  half_inserted :
      (t' : Table) (e : StoreError)
      → (p.id == 0) ≡ true
      → io last_insert_id ≡ true
      → insert_row d.name_first (to_row d json now p 1) t ≡ ok t'
      → o ≡ (t', err e)
      → Outcome d json io now p t o
  updated :
      (t' : Table) (r : Row)
      → (p.id == 0) ≡ false
      → find_row p.id t.rows ≡ some r
      → r.version ≡ p.version
      → update_row d.name_first (to_row d json now p (p.version + 1)) t ≡ ok t'
      → o ≡ (t', ok (fill_updated_at d json io t' (record p { version = p.version + 1 })))
      → Outcome d json io now p t o

module _ (d : Driver) (json : DomainsCodec) (io : Io) (now : ℕ) (p : Proxy) (t : Table) where
  after_insert-Outcome :
      (p.id == 0) ≡ true
      → (res : Result Constraint Table) → insert_row d.name_first (to_row d json now p 1) t ≡ res
      → Outcome d json io now p t (after_insert d json io p t res)
  unfolding after_insert
  after_insert-Outcome z (err c) h = refused _ refl
  after_insert-Outcome z (ok t') h = elim (Bool-cases (io last_insert_id)) [
    | inl e ↦ half_inserted t' (sql_error d.io_message) z e h (rw e)
    | inr e ↦ inserted t' z h (rw e)
  ]

  after_update-Outcome :
      (r : Row)
      → (p.id == 0) ≡ false
      → find_row p.id t.rows ≡ some r
      → r.version ≡ p.version
      → (res : Result Constraint Table)
      → update_row d.name_first (to_row d json now p (p.version + 1)) t ≡ res
      → Outcome d json io now p t (after_update d json io p p.version t res)
  unfolding after_update
  after_update-Outcome r z f v (err c) h = refused _ refl
  after_update-Outcome r z f v (ok t') h = elim (Bool-cases (io commit)) [
    | inl e ↦ refused (sql_error d.io_message) (rw e)
    | inr e ↦ updated t' r z f v h (rw e)
  ]

  update_found-Outcome :
      (p.id == 0) ≡ false
      → (found : Option Row) → find_row p.id t.rows ≡ found
      → Outcome d json io now p t (update_found d json io now p t found)
  unfolding update_found
  update_found-Outcome z none h = refused not_found refl
  update_found-Outcome z (some r) h = elim (Bool-cases (r.version == p.version)) [
    | inr e ↦ refused version_conflict (rw e)
    | inl e ↦
        let v : r.version ≡ p.version = ground arith in
        elim (Bool-cases (io update)) [
          | inl f ↦ refused (classify d json d.io_message) (rw (e, f))
          | inr f ↦ rw (e, f, v) (after_update-Outcome r z h v _ refl)
        ]
  ]

  update_proxy-Outcome :
      (p.id == 0) ≡ false → Outcome d json io now p t (update_proxy d json io now p t)
  unfolding update_proxy
  update_proxy-Outcome z = elim (Bool-cases (io begin || io read_version)) [
    | inl e ↦ refused (sql_error d.io_message) (rw e)
    | inr e ↦ rw e (update_found-Outcome z _ refl)
  ]

  insert_proxy-Outcome :
      (p.id == 0) ≡ true → Outcome d json io now p t (insert_proxy d json io now p t)
  unfolding insert_proxy
  insert_proxy-Outcome z = elim (Bool-cases (io insert)) [
    | inl e ↦ refused (classify d json d.io_message) (rw e)
    | inr e ↦ rw e (after_insert-Outcome z _ refl)
  ]

  -- Every call of UpsertProxy comes to one of the outcomes, whatever statements fail.
  pub upsert_proxy-Outcome : Outcome d json io now p t (upsert_proxy d json io now p t)
  unfolding upsert_proxy
  upsert_proxy-Outcome = elim (Option-cases (validate_proxy_shape p)) [
    | inr (x, e) ↦ refused (invalid x) (rw (e, upsert_proxy))
    | inl e ↦ elim (Bool-cases (p.id == 0)) [
      | inl z ↦ rw (e, upsert_proxy, z) (insert_proxy-Outcome z)
      | inr z ↦ rw (e, upsert_proxy, z) (update_proxy-Outcome z)
    ]
  ]

  Outcome-IsTable :
      (o : Table × Result StoreError Proxy) → Outcome d json io now p t o → IsTable t → IsTable o.0
  Outcome-IsTable o (refused e q) v = rw q v
  Outcome-IsTable o (inserted t' z h q) v =
      rw q (insert_row-IsTable d.name_first (to_row d json now p 1) t t' v h)
  Outcome-IsTable o (half_inserted t' e z y h q) v =
      rw q (insert_row-IsTable d.name_first (to_row d json now p 1) t t' v h)
  Outcome-IsTable o (updated t' r z f w h q) v = rw q (
      update_row-IsTable d.name_first (to_row d json now p (p.version + 1)) t t' v
        (unfold to_row in find_row-le p.id t.last_id t.rows r v.used f) h)

  Outcome-IsShaped :
      validate_proxy_shape p ≡ none
      → (o : Table × Result StoreError Proxy) → Outcome d json io now p t o
      → All (IsShaped json) t.rows
      → All (IsShaped json) o.0.rows
  Outcome-IsShaped v o (refused e q) a = rw q a
  Outcome-IsShaped v o (inserted t' z h q) a =
      rw q (insert_row-IsShaped d json now p t t' v d.name_first h a)
  Outcome-IsShaped v o (half_inserted t' e z y h q) a =
      rw q (insert_row-IsShaped d json now p t t' v d.name_first h a)
  Outcome-IsShaped v o (updated t' r z f w h q) a =
      rw q (update_row-IsShaped d json now p t t' v d.name_first (p.version + 1) h a)

  upsert_proxy-invalid :
      (x : ShapeError)
      → validate_proxy_shape p ≡ some x
      → upsert_proxy d json io now p t ≡ (t, err (invalid x))
  unfolding upsert_proxy
  upsert_proxy-invalid x e = rw (e, upsert_proxy) refl

  upsert_proxy-IsShaped :
      All (IsShaped json) t.rows → All (IsShaped json) (upsert_proxy d json io now p t).0.rows
  upsert_proxy-IsShaped a = elim (Option-cases (validate_proxy_shape p)) [
    | inr (x, e) ↦ rw (upsert_proxy-invalid x e) a
    | inl e ↦ Outcome-IsShaped e _ upsert_proxy-Outcome a
  ]

  -- UpsertProxy keeps two promises of the table. The one of the schema: every row passes the CHECKs, no
  -- two rows share a name, an id, or a type and remote port of tcp or udp, and no id is above the largest
  -- one used. And the one of its own check before the statement: every row has a name, its remote port,
  -- if it has one, is a port, and its column of domains is NULL or holds at least one. Two rows may hold
  -- the same domain.
  pub upsert_proxy-IsTable :
      IsTable t
      → All (IsShaped json) t.rows
      → IsTable (upsert_proxy d json io now p t).0
        × All (IsShaped json) (upsert_proxy d json io now p t).0.rows
  upsert_proxy-IsTable v a = (Outcome-IsTable _ upsert_proxy-Outcome v, upsert_proxy-IsShaped a)

  -- An UpsertProxy that returns an error has left the table as it was, unless what failed is
  -- reading the new row's id.
  pub upsert_proxy_error :
      {t' : Table} {e : StoreError}
      → io last_insert_id ≡ false
      → upsert_proxy d json io now p t ≡ (t', err e)
      → t' ≡ t
  upsert_proxy_error {t'} {e} ok_id h = by_outcome upsert_proxy-Outcome
    where
      by_outcome : Outcome d json io now p t (upsert_proxy d json io now p t) → t' ≡ t
      by_outcome (refused x q) = cc
      by_outcome (inserted u z k q) = cc
      by_outcome (half_inserted u x z y k q) = cc
      by_outcome (updated u r z f w k q) = cc
