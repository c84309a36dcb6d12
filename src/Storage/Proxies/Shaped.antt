-- ===== src/Storage/Proxies/Shaped.antt =====
-- The form of a row that validateProxyShape of internal/storage/proxies.go asks for beyond the CHECKs of
-- the schema.
use frp_easy.Prelude.{
  ℕ, ◌+◌, Bool, false, none, some, List, [], ◌∷◌, String, str_eq, ok, ◌≡◌, ◌⊎◌, inl, inr, refl,
  arith, All, All-append, Bool-cases,
}
use frp_easy.Storage.Proxies.Schema.{Row, Table, insert_row, update_row, is_port_kind}
use frp_easy.Storage.Proxies.Errors.{Driver}
use frp_easy.Storage.Proxies.Rows.{All-replace_row, insert_row-eq, update_row-eq}
use frp_easy.Storage.Proxies.{
  Proxy, DomainsCodec, remote_out_of_range, domains_column, validate_proxy_shape, to_row,
}

-- a name, a remote port that is one, and a list of domains that is not empty, or no list
pub record IsShaped (json : DomainsCodec) (r : Row) : Type 0 where
  pub named : str_eq r.name "" ≡ false
  pub port : remote_out_of_range r.remote_port ≡ false
  pub domains :
      (r.custom_domains ≡ none)
      ⊎ ((x : String) × (xs : List String) × (r.custom_domains ≡ some (json.encode (x ∷ xs))))

domains_column-encode :
    (d : Driver) (json : DomainsCodec) (ds : List String)
    → (domains_column d json ds ≡ none)
      ⊎ ((x : String) × (xs : List String) × (domains_column d json ds
            ≡ some (json.encode (x ∷ xs))))
unfolding domains_column
domains_column-encode d json [] = inl refl
domains_column-encode d json (x ∷ xs) = inr (x, xs, rw (json.encode_nonempty (x ∷ xs)) refl)

to_row-IsShaped :
    (d : Driver) (json : DomainsCodec) (now v i : ℕ) (p : Proxy)
    → validate_proxy_shape p ≡ none
    → IsShaped json (record (to_row d json now p v) { id = i })
unfolding to_row validate_proxy_shape
to_row-IsShaped d json now v i p h = elim (Bool-cases (is_port_kind p.kind)) [
  | inl k ↦ record {
    named = ground (arith, h, k);
    port = ground (arith, h, k);
    domains = domains_column-encode d json p.custom_domains;
  }
  | inr k ↦ record {
    named = ground (arith, h, k);
    port = ground (arith, h, k);
    domains = domains_column-encode d json p.custom_domains;
  }
]

module _ (d : Driver) (json : DomainsCodec) (now : ℕ) (p : Proxy) (t t' : Table)
    (shape : validate_proxy_shape p ≡ none) where
  pub insert_row-IsShaped :
      (b : Bool)
      → insert_row b (to_row d json now p 1) t ≡ ok t'
      → All (IsShaped json) t.rows
      → All (IsShaped json) t'.rows
  insert_row-IsShaped b h a =
      let (e, x) = insert_row-eq b (to_row d json now p 1) t t' h in
      rw x (All-append _ t.rows _ a (to_row-IsShaped d json now 1 (t.last_id + 1) p shape, tt))

  pub update_row-IsShaped :
      (b : Bool) (v : ℕ)
      → update_row b (to_row d json now p v) t ≡ ok t'
      → All (IsShaped json) t.rows
      → All (IsShaped json) t'.rows
  unfolding to_row
  update_row-IsShaped b v h a =
      let (e, x) = update_row-eq b (to_row d json now p v) t t' h in
      rw x (
        All-replace_row _ (to_row d json now p v) t.rows (to_row-IsShaped d json now v p.id p shape)
          a)
