-- ===== src/Http/Proxies/Replies.antt =====
-- What the replies of internal/httpapi/handlers_proxies.go say of the table.
use frp_easy.Prelude.{
  ℕ, ◌+◌, ◌≤◌, ℤ, pos, Bool, true, false, Option, none, some, List, [], ◌∷◌, String, Text, Result,
  ok, err, ◌≡◌, refl, arith, Bool-cases, inl, inr, length, leb, leb_ℤ, length-append, bind-eq,
}
use frp_easy.Http.Validate.{InputError}
use frp_easy.Http.Proxies.{
  ProxyInput, Reply, failed, create_proxy, create_built, create_checked, write_reply, handle_update,
  update_at, update_decoded, update_built, build_proxy_for_insert, at_least_zero,
}
use frp_easy.Storage.Proxies.Schema.{Table, Row, replace_row}
use frp_easy.Storage.Proxies.Errors.{Driver}
use frp_easy.Storage.Proxies.Rows.{insert_row-eq, update_row-eq}
use frp_easy.Storage.Proxies.{
  Proxy, StoreError, DomainsCodec, Io, upsert_proxy, list_proxies, scan_all, scan_proxy,
  last_insert_id, query, to_row,
}
use frp_easy.Storage.Proxies.Upsert.{
  Outcome, refused, inserted, half_inserted, updated, upsert_proxy-Outcome, upsert_proxy_error,
}

-- a reply that is not an error
abbrev pub succeeds : Reply → Bool
succeeds (failed _ _ _) = false
succeeds _ = true

length-replace_row : (q : Row) (rs : List Row) → length (replace_row q rs) ≡ length rs
unfolding replace_row
length-replace_row q [] = refl
length-replace_row q (r ∷ rs) = ground (arith, length-replace_row q rs)

module _ (d : Driver) (json : DomainsCodec) (trim : String → String) (low : Text → Text) where
  length-scan_all :
      (rs : List Row) (ps : List Proxy) → scan_all d json rs ≡ ok ps → length ps ≡ length rs
  length-scan_all [] [] h = refl
  length-scan_all [] (p ∷ ps) h = cc
  length-scan_all (r ∷ rs) ps h =
      let (p, e, h₁) = bind-eq (scan_proxy d json r) _ ps h in
      let (qs, f, h₂) = bind-eq (scan_all d json rs) _ ps h₁ in
      let g : p ∷ qs ≡ ps = cc h₂ in rw (← g, length-scan_all rs qs f)

  length-upsert_proxy :
      (io : Io) (now : ℕ) (p : Proxy) (t : Table) (o : Table × Result StoreError Proxy)
      → Outcome d json io now p t o
      → length o.0.rows ≤ length t.rows + 1
  length-upsert_proxy io now p t o (refused e q) = rw q (omega arith)
  length-upsert_proxy io now p t o (inserted t' z k q) =
      rw (q, (insert_row-eq d.name_first (to_row d json now p 1) t t' k).1, length-append)
        (omega arith)
  length-upsert_proxy io now p t o (half_inserted t' e z y k q) =
      rw (q, (insert_row-eq d.name_first (to_row d json now p 1) t t' k).1, length-append)
        (omega arith)
  length-upsert_proxy io now p t o (updated t' r z f w k q) =
      rw
        (
          q,
          (update_row-eq d.name_first (to_row d json now p (p.version + 1)) t t' k).1,
          length-replace_row,
        )
        (omega arith)

  length-list_proxies :
      (io : Io) (t : Table) (ps : List Proxy)
      → list_proxies d json io t ≡ ok ps
      → length ps ≡ length t.rows
  unfolding list_proxies
  length-list_proxies io t ps h = elim (Bool-cases (io query)) [
    | inl e ↦ absurd (ground (arith, h, e))
    | inr e ↦ length-scan_all t.rows ps (rw e at h)
  ]

  write_reply-table :
      (status : ℕ) (o : Table × Result StoreError Proxy)
      → (write_reply d json trim low status o).0 ≡ o.0
  write_reply-table status (t, ok p) = refl
  write_reply-table status (t, err e) = refl

  create_checked-limit :
      (io : Io) (now : ℕ) (p : Proxy) (t : Table) (l : Result StoreError (List Proxy))
      → list_proxies d json io t ≡ l
      → length t.rows ≤ 200
      → length (create_checked d json trim low io now p t l).0.rows ≤ 200
  unfolding create_checked
  create_checked-limit io now p t (err e) h le = le
  create_checked-limit io now p t (ok ps) h le =
      let same = length-list_proxies io t ps h in
      elim (Bool-cases (leb 200 (length ps))) [
        | inl e ↦ rw e le
        | inr e ↦
            let more = length-upsert_proxy io now p t _ (upsert_proxy-Outcome d json io now p t) in
            rw (e, write_reply-table 201 (upsert_proxy d json io now p t))
              (ground (arith, same, more, e))
      ]

  create_built-limit :
      (io : Io) (now : ℕ) (t : Table) (b : Result (String × InputError) Proxy)
      → length t.rows ≤ 200
      → length (create_built d json trim low io now t b).0.rows ≤ 200
  create_built-limit io now t (err e) le = le
  create_built-limit io now t (ok p) le =
      create_checked-limit io now p t (list_proxies d json io t) refl le

  -- Requests to create that are handled one after the other keep a table of at most 200 rules at
  -- most that long.
  pub create_proxy-limit :
      (io : Io) (now : ℕ) (x : Option ProxyInput) (t : Table)
      → length t.rows ≤ 200
      → length (create_proxy d json trim low io now x t).0.rows ≤ 200
  unfolding create_proxy
  create_proxy-limit io now none t le = le
  create_proxy-limit io now (some x) t le =
      create_built-limit io now t (build_proxy_for_insert d json trim low x) le

  write_reply-kept :
      (io : Io) (now status : ℕ) (p : Proxy) (t : Table) (o : Table × Result StoreError Proxy)
      → io last_insert_id ≡ false
      → upsert_proxy d json io now p t ≡ o
      → succeeds (write_reply d json trim low status o).1 ≡ false
      → (write_reply d json trim low status o).0 ≡ t
  write_reply-kept io now status p t (t', ok q) v h f = cc
  write_reply-kept io now status p t (t', err e) v h f = upsert_proxy_error d json io now p t v h

  create_checked-kept :
      (io : Io) (now : ℕ) (p : Proxy) (t : Table) (l : Result StoreError (List Proxy))
      → io last_insert_id ≡ false
      → succeeds (create_checked d json trim low io now p t l).1 ≡ false
      → (create_checked d json trim low io now p t l).0 ≡ t
  unfolding create_checked
  create_checked-kept io now p t (err e) v f = refl
  create_checked-kept io now p t (ok ps) v f = elim (Bool-cases (leb 200 (length ps))) [
    | inl e ↦ rw e
    | inr e ↦ rw e (write_reply-kept io now 201 p t _ v refl (rw e at f))
  ]

  create_built-kept :
      (io : Io) (now : ℕ) (t : Table) (b : Result (String × InputError) Proxy)
      → io last_insert_id ≡ false
      → succeeds (create_built d json trim low io now t b).1 ≡ false
      → (create_built d json trim low io now t b).0 ≡ t
  create_built-kept io now t (err e) v f = refl
  create_built-kept io now t (ok p) v f = create_checked-kept io now p t _ v f

  update_built-kept :
      (io : Io) (now : ℕ) (t : Table) (b : Result (String × InputError) Proxy)
      → io last_insert_id ≡ false
      → succeeds (update_built d json trim low io now t b).1 ≡ false
      → (update_built d json trim low io now t b).0 ≡ t
  update_built-kept io now t (err e) v f = refl
  update_built-kept io now t (ok p) v f = write_reply-kept io now 200 p t _ v refl f

  update_decoded-kept :
      (io : Io) (now i : ℕ) (t : Table) (x : Option ProxyInput)
      → io last_insert_id ≡ false
      → succeeds (update_decoded d json trim low io now i t x).1 ≡ false
      → (update_decoded d json trim low io now i t x).0 ≡ t
  update_decoded-kept io now i t none v f = refl
  update_decoded-kept io now i t (some x) v f = elim (Bool-cases (leb_ℤ x.version (pos 0))) [
    | inl e ↦ rw e
    | inr e ↦ rw e (update_built-kept io now t _ v (rw e at f))
  ]

  update_at-kept :
      (io : Io) (now : ℕ) (i : ℤ) (x : Option ProxyInput) (t : Table)
      → io last_insert_id ≡ false
      → succeeds (update_at d json trim low io now i x t).1 ≡ false
      → (update_at d json trim low io now i x t).0 ≡ t
  update_at-kept io now i x t v f = elim (Bool-cases (leb_ℤ i (pos 0))) [
    | inl e ↦ rw e
    | inr e ↦ rw e (update_decoded-kept io now (at_least_zero i) t x v (rw e at f))
  ]

  -- If the id of a new row can be read, a create that is answered with an error has left the table
  -- as it was.
  pub create_proxy_error :
      (io : Io) (now : ℕ) (x : Option ProxyInput) (t : Table)
      → io last_insert_id ≡ false
      → succeeds (create_proxy d json trim low io now x t).1 ≡ false
      → (create_proxy d json trim low io now x t).0 ≡ t
  unfolding create_proxy
  create_proxy_error io now none t v f = refl
  create_proxy_error io now (some x) t v f = create_built-kept io now t _ v f

  -- If the id of a new row can be read, an update that is answered with an error has left the
  -- table as it was.
  pub handle_update_error :
      (io : Io) (now : ℕ) (i : Option ℤ) (x : Option ProxyInput) (t : Table)
      → io last_insert_id ≡ false
      → succeeds (handle_update d json trim low io now i x t).1 ≡ false
      → (handle_update d json trim low io now i x t).0 ≡ t
  unfolding handle_update
  handle_update_error io now none x t v f = refl
  handle_update_error io now (some i) x t v f = update_at-kept io now i x t v f
