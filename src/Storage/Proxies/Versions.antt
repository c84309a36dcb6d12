-- ===== src/Storage/Proxies/Versions.antt =====
-- Optimistic locking and reading back in internal/storage/proxies.go.
use frp_easy.Prelude.{
  ℕ, ◌+◌, ◌≤◌, Bool, false, ◌==◌, some, List, [], ◌∷◌, ◌++◌, String, str_eq, Result, ok, err,
  if◌then◌else◌, ◌≡◌, refl, arith, All, ap,
}
use frp_easy.Storage.Proxies.Schema.{Row, Table, find_row, replace_row, update_row, insert_row}
use frp_easy.Storage.Proxies.Errors.{Driver}
use frp_easy.Storage.Proxies.Rows.{IsTable, insert_row-eq, update_row-eq}
use frp_easy.Storage.Proxies.{
  Proxy, StoreError, Io, healthy, DomainsCodec, to_row, domains_column, scan_domains, get_proxy,
  scan_proxy, fill_updated_at, upsert_proxy,
}
use frp_easy.Storage.Proxies.Upsert.{
  Outcome, refused, inserted, half_inserted, updated, upsert_proxy-Outcome,
}

find_row-replace :
    (q r : Row) (rs : List Row)
    → find_row q.id rs ≡ some r
    → find_row q.id (replace_row q rs) ≡ some q
unfolding find_row replace_row
find_row-replace q r [] h = cc
find_row-replace q r (x ∷ rs) h = ground (arith, find_row-replace q r rs)

find_row-append :
    (q : Row) (n : ℕ) (rs : List Row)
    → All (λ x. x.id ≤ n) rs
    → q.id ≡ n + 1
    → find_row q.id (rs ++ q ∷ []) ≡ some q
unfolding find_row
find_row-append q n [] a h = ground arith
find_row-append q n (x ∷ rs) a h = ground (arith, find_row-append q n rs)

module _ (d : Driver) (json : DomainsCodec) where
  scan_domains_column : (ds : List String) → scan_domains d json (domains_column d json ds) ≡ ok ds
  unfolding scan_domains domains_column
  scan_domains_column [] = refl
  scan_domains_column (x ∷ xs) =
      ground (arith, json.encode_nonempty (x ∷ xs), json.decode-encode (x ∷ xs))

  -- the proxy that a row written from `p` reads back as
  abbrev pub stored : ℕ → Proxy → ℕ → ℕ → Proxy
  stored now p i v = record p {
    id = i;
    local_ip = if str_eq p.local_ip "" then "127.0.0.1" else p.local_ip;
    version = v;
    updated_at = now;
  }

  scan_proxy-to_row :
      (now : ℕ) (p : Proxy) (i v : ℕ)
      → scan_proxy d json (record (to_row d json now p v) { id = i }) ≡ ok (stored now p i v)
  unfolding scan_proxy to_row
  scan_proxy-to_row now p i v = rw (scan_domains_column p.custom_domains)

  fill_updated_at-version :
      (io : Io) (u : Table) (x : Proxy) → (fill_updated_at d json io u x).version ≡ x.version
  unfolding fill_updated_at
  fill_updated_at-version io u x = ground arith

  fill_updated_at-id : (io : Io) (u : Table) (x : Proxy) → (fill_updated_at d json io u x).id ≡ x.id
  unfolding fill_updated_at
  fill_updated_at-id io u x = ground arith

  get_proxy-stored :
      (now : ℕ) (p : Proxy) (i v : ℕ) (u : Table)
      → find_row i u.rows ≡ some (record (to_row d json now p v) { id = i })
      → get_proxy d json healthy i u ≡ ok (stored now p i v)
  unfolding get_proxy
  get_proxy-stored now p i v u f = rw f (scan_proxy-to_row now p i v)

  find_row-insert_row :
      (b : Bool) (now v : ℕ) (p : Proxy) (t u : Table)
      → IsTable t
      → insert_row b (to_row d json now p v) t ≡ ok u
      → find_row u.last_id u.rows ≡ some (record (to_row d json now p v) { id = u.last_id })
  find_row-insert_row b now v p t u tab k = rw (insert_row-eq b (to_row d json now p v) t u k).1 (
      find_row-append (record (to_row d json now p v) { id = t.last_id + 1 }) t.last_id t.rows
        tab.used refl)

  find_row-update_row :
      (b : Bool) (now v : ℕ) (p : Proxy) (t u : Table) (r : Row)
      → find_row p.id t.rows ≡ some r
      → update_row b (to_row d json now p v) t ≡ ok u
      → find_row p.id u.rows ≡ some (to_row d json now p v)
  unfolding to_row
  find_row-update_row b now v p t u r f k =
      rw (update_row-eq b (to_row d json now p v) t u k).1
        (find_row-replace (to_row d json now p v) r t.rows f)

  module _ (now : ℕ) (p : Proxy) (t : Table) where
    -- what a successful update of row `p.id` found and left
    abbrev pub Advanced : Table → Proxy → Type 0
    Advanced t' p' =
        ((r : Row) × (find_row p.id t.rows ≡ some r) × (r.version ≡ p.version))
        × (find_row p.id t'.rows ≡ some (to_row d json now p (p.version + 1)))
        × (p'.version ≡ p.version + 1)

    Outcome-Advanced :
        (io : Io) (t' : Table) (p' : Proxy)
        → (p.id == 0) ≡ false
        → Outcome d json io now p t (t', ok p')
        → Advanced t' p'
    Outcome-Advanced io t' p' z (refused x q) = cc
    Outcome-Advanced io t' p' z (inserted u y k q) = absurd (ground (arith, y, z))
    Outcome-Advanced io t' p' z (half_inserted u x y g k q) = cc
    Outcome-Advanced io t' p' z (updated u r y f w k q) =
        let a : t' ≡ u = cc q in
        let b : p' ≡ fill_updated_at d json io u (record p { version = p.version + 1 }) = cc q in
        (
          (r, f, w),
          rw a (find_row-update_row d.name_first now (p.version + 1) p t u r f k),
          rw b (fill_updated_at-version io u (record p { version = p.version + 1 })),
        )

    -- A successful update found the row at the version that the caller had read, wrote the caller's
    -- values with the next version, and returned that version.
    pub upsert_proxy-version :
        (io : Io) (t' : Table) (p' : Proxy)
        → (p.id == 0) ≡ false
        → upsert_proxy d json io now p t ≡ (t', ok p')
        → Advanced t' p'
    upsert_proxy-version io t' p' z h =
        Outcome-Advanced io t' p' z (rw h at (upsert_proxy-Outcome d json io now p t))

    stale :
        (io : Io) (now' : ℕ) (q : Proxy) (t' : Table) (r : Row)
        (o : Table × Result StoreError Proxy)
        → (q.id == 0) ≡ false
        → find_row q.id t'.rows ≡ some r
        → r.version ≡ q.version + 1
        → Outcome d json io now' q t' o
        → (e : StoreError) × (o ≡ (t', err e))
    stale io now' q t' r o z f v (refused x h) = (x, h)
    stale io now' q t' r o z f v (inserted u y k h) = absurd (ground (arith, y, z))
    stale io now' q t' r o z f v (half_inserted u x y g k h) = absurd (ground (arith, y, z))
    stale io now' q t' r o z f v (updated u s y g w k h) =
        let same : r ≡ s = cc in absurd (omega (arith, ap (λ (x : Row). x.version) same))

    -- No update is lost: after a successful update of a row, any other update that was prepared at
    -- the same version is refused and changes nothing.
    pub no_lost_update :
        (io io' : Io) (now' : ℕ) (q p' : Proxy) (t' : Table)
        → (p.id == 0) ≡ false
        → q.id ≡ p.id
        → q.version ≡ p.version
        → upsert_proxy d json io now p t ≡ (t', ok p')
        → (e : StoreError) × (upsert_proxy d json io' now' q t' ≡ (t', err e))
    no_lost_update io io' now' q p' t' z i v h =
        let (before, after, new) = upsert_proxy-version io t' p' z h in
        stale io' now' q t' (to_row d json now p (p.version + 1)) _ (rw i z) (rw i after)
          (rw v (unfold to_row in refl)) (upsert_proxy-Outcome d json io' now' q t')

    Outcome-stored :
        (p' : Proxy) (t' : Table)
        → IsTable t
        → Outcome d json healthy now p t (t', ok p')
        → get_proxy d json healthy p'.id t' ≡ ok (stored now p p'.id p'.version)
    Outcome-stored p' t' tab (refused x q) = cc
    Outcome-stored p' t' tab (half_inserted u x y g k q) = cc
    Outcome-stored p' t' tab (inserted u y k q) =
        let a : t' ≡ u = cc q in
        let x : Proxy = record p { id = u.last_id; version = 1 } in
        let b : p' ≡ fill_updated_at d json healthy u x = cc q in
        rw (a, b, fill_updated_at-version healthy u x, fill_updated_at-id healthy u x)
          (get_proxy-stored now p u.last_id 1 u
            (find_row-insert_row d.name_first now 1 p t u tab k))
    Outcome-stored p' t' tab (updated u r y f w k q) =
        let a : t' ≡ u = cc q in
        let x : Proxy = record p { version = p.version + 1 } in
        let b : p' ≡ fill_updated_at d json healthy u x = cc q in
        rw (a, b, fill_updated_at-version healthy u x, fill_updated_at-id healthy u x)
          (get_proxy-stored now p p.id (p.version + 1) u
            (unfold to_row in find_row-update_row d.name_first now (p.version + 1) p t u r f k))

    -- On a table that keeps the schema's promises and when no statement fails, the id and the version
    -- that a successful UpsertProxy returns are those
    -- under which GetProxy finds the caller's values, the empty local address replaced by 127.0.0.1.
    pub get_proxy-upsert_proxy :
        (p' : Proxy) (t' : Table)
        → IsTable t
        → upsert_proxy d json healthy now p t ≡ (t', ok p')
        → get_proxy d json healthy p'.id t' ≡ ok (stored now p p'.id p'.version)
    get_proxy-upsert_proxy p' t' tab h =
        Outcome-stored p' t' tab (rw h at (upsert_proxy-Outcome d json healthy now p t))
