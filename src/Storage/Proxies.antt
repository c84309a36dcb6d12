-- ===== src/Storage/Proxies.antt =====
-- internal/storage/proxies.go over the rows of the table `proxies`.
pub mod Schema
pub mod Errors
pub mod Rows
pub mod Shaped
pub mod Upsert
pub mod Versions
pub mod PlainCodec
pub mod Examples
use frp_easy.Prelude.{
  ◌≡◌, ℕ, ◌+◌, ℤ, pos, Bool, true, false, not, ◌&&◌, ◌||◌, ◌==◌, Option, none, some, List, [], ◌∷◌,
  String, str_eq, Text, Result, ok, err, bind, if◌then◌else◌, ltb_ℤ,
}
use frp_easy.Storage.Proxies.Schema.{
  Row, Table, Constraint, replace_row, others, violated, check_row, has_name, has_remote,
  insert_row, update_row, delete_row, find_row, is_port_kind, is_domain_kind,
}
use frp_easy.Storage.Proxies.Errors.{
  Driver, is_duplicate_name_error, is_duplicate_remote_port_error,
}

pub record Proxy : Type 0 where
  pub id : ℕ
  pub name : String
  pub kind : String
  pub local_ip : String
  pub local_port : ℤ
  pub remote_port : Option ℤ
  pub custom_domains : List String
  pub enabled : Bool
  pub version : ℕ
  pub updated_at : ℕ

pub data ShapeError : Type 0 where
  requires_remote_port must_not_set_custom_domains must_not_set_remote_port : ShapeError
  requires_custom_domains invalid_type name_required local_port_out_of_range : ShapeError
  remote_port_out_of_range : ShapeError

pub data StoreError : Type 0 where
  invalid : ShapeError → StoreError
  not_found version_conflict duplicate_name duplicate_remote_port : StoreError
  sql_error : Text → StoreError
  decode_error : StoreError

-- The calls of the driver that the DAO makes; which of them fail is the driver's choice.
pub data Call : Type 0 where
  query insert last_insert_id begin read_version update commit delete rows_affected : Call

abbrev pub Io : Type 0
Io = Call → Bool

abbrev pub healthy : Io
healthy _ = false

abbrev pub is_empty_text : Text → Bool
is_empty_text [] = true
is_empty_text (_ ∷ _) = false

-- json.Marshal and json.Unmarshal of a non-empty []string of valid UTF-8
pub record DomainsCodec : Type 0 where
  pub encode : List String → Text
  pub decode : Text → Option (List String)
  pub decode-encode : (ds : List String) → decode (encode ds) ≡ some ds
  pub encode_nonempty : (ds : List String) → is_empty_text (encode ds) ≡ false

abbrev pub out_of_range : ℤ → Bool
out_of_range p = ltb_ℤ p (pos 1) || ltb_ℤ (pos 65535) p

abbrev pub is_empty : List String → Bool
is_empty [] = true
is_empty (_ ∷ _) = false

abbrev pub remote_out_of_range : Option ℤ → Bool
remote_out_of_range none = false
remote_out_of_range (some r) = out_of_range r

abbrev pub is_some : Option ℤ → Bool
is_some none = false
is_some (some _) = true

-- the checks after the switch on the type
abbrev pub validate_rest : Proxy → Option ShapeError
validate_rest p =
    if str_eq p.name ""
    then some name_required
    else if out_of_range p.local_port
    then some local_port_out_of_range
    else if remote_out_of_range p.remote_port
    then some remote_port_out_of_range
    else none

unfoldable pub validate_proxy_shape : Proxy → Option ShapeError
validate_proxy_shape p =
    if is_port_kind p.kind
    then (if not (is_some p.remote_port)
        then some requires_remote_port
        else if not (is_empty p.custom_domains)
        then some must_not_set_custom_domains
        else validate_rest p)
    else if is_domain_kind p.kind
    then (if is_some p.remote_port
        then some must_not_set_remote_port
        else if is_empty p.custom_domains
        then some requires_custom_domains
        else validate_rest p)
    else some invalid_type

module _ (d : Driver) (json : DomainsCodec) where
  abbrev nullable : Text → Option Text
  nullable t = if is_empty_text t then none else some t

  -- encodeCustomDomains and nullableString: no domains are NULL
  unfoldable pub domains_column : List String → Option Text
  domains_column [] = none
  domains_column (x ∷ xs) = nullable (json.encode (x ∷ xs))

  -- the column `custom_domains` in scanProxy
  unfoldable pub scan_domains : Option Text → Result StoreError (List String)
  scan_domains none = ok []
  scan_domains (some t) =
      if is_empty_text t
      then ok []
      else elim (json.decode t) [ none ↦ err decode_error | some ds ↦ ok ds ]

  -- scanProxy
  unfoldable pub scan_proxy : Row → Result StoreError Proxy
  unfolding scan_domains
  scan_proxy r = bind (scan_domains r.custom_domains) (λ ds. ok (record {
    id = r.id;
    name = r.name;
    kind = r.kind;
    local_ip = r.local_ip;
    local_port = r.local_port;
    remote_port = r.remote_port;
    custom_domains = ds;
    enabled = r.enabled;
    version = r.version;
    updated_at = r.updated_at;
  }))

  -- the values of the INSERT and of the UPDATE
  unfoldable pub to_row : ℕ → Proxy → ℕ → Row
  unfolding domains_column
  to_row now p version = record {
    id = p.id;
    name = p.name;
    kind = p.kind;
    local_ip = if str_eq p.local_ip "" then "127.0.0.1" else p.local_ip;
    local_port = p.local_port;
    remote_port = p.remote_port;
    custom_domains = domains_column p.custom_domains;
    enabled = p.enabled;
    version = version;
    updated_at = now;
  }

  -- (*Store).GetProxy and getProxyLocked
  unfoldable pub get_proxy : Io → ℕ → Table → Result StoreError Proxy
  unfolding find_row scan_proxy
  get_proxy io i t =
      if io query
      then err (sql_error d.io_message)
      else elim (find_row i t.rows) [ none ↦ err not_found | some r ↦ scan_proxy r ]

  -- (*Store).ListProxies: rows stand by id
  abbrev pub scan_all : List Row → Result StoreError (List Proxy)
  scan_all [] = ok []
  scan_all (r ∷ rs) = bind (scan_proxy r) (λ p. bind (scan_all rs) (λ ps. ok (p ∷ ps)))

  unfoldable pub list_proxies : Io → Table → Result StoreError (List Proxy)
  unfolding scan_proxy
  list_proxies io t = if io query then err (sql_error d.io_message) else scan_all t.rows

  unfoldable pub classify : Text → StoreError
  classify m =
      if is_duplicate_name_error m
      then duplicate_name
      else if is_duplicate_remote_port_error m
      then duplicate_remote_port
      else sql_error m

  -- p.UpdatedAt is read back if it can be
  unfoldable pub fill_updated_at : Io → Table → Proxy → Proxy
  unfolding get_proxy
  fill_updated_at io t p = elim (get_proxy io p.id t) [
    | err _ ↦ p
    | ok fresh ↦ record p { updated_at = fresh.updated_at }
  ]

  -- the branch p.ID == 0 after the INSERT
  unfoldable pub after_insert :
      Io → Proxy → Table → Result Constraint Table → Table × Result StoreError Proxy
  after_insert io p t (err c) = (t, err (classify (d.message c)))
  after_insert io p t (ok t') =
      if io last_insert_id
      then (t', err (sql_error d.io_message))
      else (t', ok (fill_updated_at io t' (record p { id = t'.last_id; version = 1 })))

  -- the branch p.ID == 0
  unfoldable pub insert_proxy : Io → ℕ → Proxy → Table → Table × Result StoreError Proxy
  insert_proxy io now p t =
      if io insert
      then (t, err (classify d.io_message))
      else after_insert io p t (insert_row d.name_first (to_row now p 1) t)

  -- the transaction after the UPDATE; a failed COMMIT leaves the table as it was
  unfoldable pub after_update :
      Io → Proxy → ℕ → Table → Result Constraint Table → Table × Result StoreError Proxy
  after_update io p current t (err c) = (t, err (classify (d.message c)))
  after_update io p current t (ok t') =
      if io commit
      then (t, err (sql_error d.io_message))
      else (t', ok (fill_updated_at io t' (record p { version = current + 1 })))

  -- the transaction after `SELECT version`
  unfoldable pub update_found :
      Io → ℕ → Proxy → Table → Option Row → Table × Result StoreError Proxy
  update_found io now p t none = (t, err not_found)
  update_found io now p t (some r) =
      if not (r.version == p.version)
      then (t, err version_conflict)
      else if io update
      then (t, err (classify d.io_message))
      else after_update io p r.version t (update_row d.name_first (to_row now p (r.version + 1)) t)

  unfoldable pub update_proxy : Io → ℕ → Proxy → Table → Table × Result StoreError Proxy
  update_proxy io now p t =
      if io begin || io read_version
      then (t, err (sql_error d.io_message))
      else update_found io now p t (find_row p.id t.rows)

  -- (*Store).UpsertProxy: the table, and the error or the proxy with its fields filled in
  unfoldable pub upsert_proxy : Io → ℕ → Proxy → Table → Table × Result StoreError Proxy
  upsert_proxy io now p t = elim (validate_proxy_shape p) [
    | some e ↦ (t, err (invalid e))
    | none ↦ if p.id == 0 then insert_proxy io now p t else update_proxy io now p t
  ]

  -- (*Store).DeleteProxy
  unfoldable pub delete_proxy : Io → ℕ → Table → Table × Option StoreError
  delete_proxy io i t =
      if io delete
      then (t, some (sql_error d.io_message))
      else if io rows_affected
      then (delete_row i t, some (sql_error d.io_message))
      else elim (find_row i t.rows) [ none ↦ (t, some not_found) | some _ ↦ (delete_row i t, none) ]
