-- ===== src/Http/Proxies.antt =====
-- internal/httpapi/handlers_proxies.go over the DAO of Storage/Proxies. A handler takes the decoded
-- request, `none` where it does not parse, and gives the table and the reply; texts of messages and
-- the rendering of the configuration after the reply are left out.
pub mod Accepted
pub mod Replies
use frp_easy.Prelude.{
  ℕ, ◌+◌, ℤ, pos, negsuc, Bool, true, false, not, ◌&&◌, ◌||◌, ◌==◌, Option, none, some, List, [],
  ◌∷◌, String, str_eq, Text, codes, Result, ok, err, bind, if◌then◌else◌, leb, leb_ℤ, length,
}
use frp_easy.Http.Validate.{
  InputError, required, not_accepted, validate_proxy_name, validate_proxy_type, validate_port,
  validate_domain,
}
use frp_easy.Storage.Proxies.Schema.{Table, is_port_kind, is_domain_kind}
use frp_easy.Storage.Proxies.Errors.{Driver, contains}
use frp_easy.Storage.Proxies.{
  Proxy, StoreError, ShapeError, DomainsCodec, Io, invalid, not_found, version_conflict,
  duplicate_name, duplicate_remote_port, sql_error, decode_error, upsert_proxy, delete_proxy,
  list_proxies, requires_remote_port, must_not_set_custom_domains, must_not_set_remote_port,
  requires_custom_domains, invalid_type,
}

pub record ProxyInput : Type 0 where
  pub name : String
  pub kind : String
  pub local_ip : String
  pub local_port : ℤ
  pub remote_port : Option ℤ
  pub custom_domains : List String
  pub enabled : Option Bool
  pub version : ℤ

pub data Code : Type 0 where
  validation_failed conflict code_not_found internal : Code

-- the status, and the body or the error's code and field
pub data Reply : Type 0 where
  body : ℕ → Proxy → Reply
  bodies : List Proxy → Reply
  done : Reply
  failed : ℕ → Code → String → Reply

unfoldable pub validate_domains : List String → Option (String × InputError)
validate_domains [] = none
validate_domains (d ∷ ds) = elim (validate_domain d) [
  | some e ↦ some ("customDomains", e)
  | none ↦ validate_domains ds
]

abbrev pub on_field :
    String → Option InputError → Option (String × InputError) → Option (String × InputError)
on_field f (some e) next = some (f, e)
on_field f none next = next

abbrev pub port_rules : ProxyInput → Option ℤ → List String → Option (String × InputError)
port_rules x none _ = some ("remotePort", required)
port_rules x (some r) [] = on_field "remotePort" (validate_port r) none
port_rules x (some r) (_ ∷ _) =
    on_field "remotePort" (validate_port r) (some ("customDomains", not_accepted))

abbrev pub domain_rules : ProxyInput → Option ℤ → List String → Option (String × InputError)
domain_rules x (some _) _ = some ("remotePort", not_accepted)
domain_rules x none [] = some ("customDomains", required)
domain_rules x none (d ∷ ds) = validate_domains (d ∷ ds)

-- the switch on the type
unfoldable pub kind_rules : ProxyInput → Option (String × InputError)
kind_rules x =
    if is_port_kind x.kind
    then port_rules x x.remote_port x.custom_domains
    else if is_domain_kind x.kind
    then domain_rules x x.remote_port x.custom_domains
    else none

-- validateProxyInput: the field and the error
unfoldable pub validate_proxy_input : ProxyInput → Option (String × InputError)
validate_proxy_input x = on_field "name" (validate_proxy_name x.name) (
    on_field "type" (validate_proxy_type x.kind)
      (on_field "localPort" (validate_port x.local_port) (kind_rules x)))

abbrev pub enabled_of : Option Bool → Bool
enabled_of none = true
enabled_of (some b) = b

abbrev pub at_least_zero : ℤ → ℕ
at_least_zero (pos n) = n
at_least_zero (negsuc _) = 0

abbrev pub reply_error : ℕ → Code → String × InputError → Reply
reply_error status code (field, e) = failed status code field

-- the words that mapProxyWriteError looks for in the lower-case text of an error of the DAO
unfoldable pub is_rule_error : (Text → Text) → StoreError → Bool
is_rule_error low (invalid requires_remote_port) = true
is_rule_error low (invalid must_not_set_custom_domains) = true
is_rule_error low (invalid must_not_set_remote_port) = true
is_rule_error low (invalid requires_custom_domains) = true
is_rule_error low (invalid invalid_type) = true
is_rule_error low (invalid _) = false
is_rule_error low (sql_error m) =
    contains (codes "requires") (low m)
    || (contains (codes "must not") (low m) || contains (codes "invalid") (low m))
is_rule_error low _ = false

-- (*handlers).mapProxyWriteError
unfoldable pub map_proxy_write_error : (Text → Text) → StoreError → Reply
map_proxy_write_error low not_found = failed 404 code_not_found ""
map_proxy_write_error low version_conflict = failed 409 conflict "version"
map_proxy_write_error low duplicate_name = failed 409 conflict "name"
map_proxy_write_error low duplicate_remote_port = failed 422 conflict "remotePort"
map_proxy_write_error low e =
    if is_rule_error low e then failed 422 validation_failed "" else failed 500 internal ""

-- `trim` is strings.TrimSpace and `low` strings.ToLower
module _ (d : Driver) (json : DomainsCodec) (trim : String → String) (low : Text → Text) where
  -- the proxy of buildProxyForInsert
  unfoldable pub new_proxy : ProxyInput → Proxy
  new_proxy x = record {
    id = 0;
    name = x.name;
    kind = x.kind;
    local_ip = if str_eq (trim x.local_ip) "" then "127.0.0.1" else trim x.local_ip;
    local_port = x.local_port;
    remote_port = x.remote_port;
    custom_domains = x.custom_domains;
    enabled = enabled_of x.enabled;
    version = 0;
    updated_at = 0;
  }

  unfoldable pub build_proxy_for_insert : ProxyInput → Result (String × InputError) Proxy
  build_proxy_for_insert x = elim (validate_proxy_input x) [
    | some e ↦ err e
    | none ↦ ok (new_proxy x)
  ]

  unfoldable pub build_proxy_for_update : ProxyInput → ℕ → Result (String × InputError) Proxy
  build_proxy_for_update x i =
      bind (build_proxy_for_insert x)
        (λ p. ok (record p { id = i; version = at_least_zero x.version }))

  abbrev pub write_reply : ℕ → Table × Result StoreError Proxy → Table × Reply
  write_reply status (t, ok p) = (t, body status p)
  write_reply status (t, err e) = (t, map_proxy_write_error low e)

  -- (*handlers).listProxies
  unfoldable pub handle_list : Io → Table → Reply
  handle_list io t = elim (list_proxies d json io t) [
    | err e ↦ failed 500 internal ""
    | ok ps ↦ bodies ps
  ]

  -- createProxy after the validation; `listing` is the answer of ListProxies
  unfoldable pub create_checked :
      Io → ℕ → Proxy → Table → Result StoreError (List Proxy) → Table × Reply
  create_checked io now p t (err e) = (t, failed 500 internal "")
  create_checked io now p t (ok existing) =
      if leb 200 (length existing)
      then (t, failed 422 validation_failed "")
      else write_reply 201 (upsert_proxy d json io now p t)

  abbrev pub create_built : Io → ℕ → Table → Result (String × InputError) Proxy → Table × Reply
  create_built io now t (err e) = (t, reply_error 422 validation_failed e)
  create_built io now t (ok p) = create_checked io now p t (list_proxies d json io t)

  -- (*handlers).createProxy
  unfoldable pub create_proxy : Io → ℕ → Option ProxyInput → Table → Table × Reply
  create_proxy io now none t = (t, failed 400 validation_failed "")
  create_proxy io now (some x) t = create_built io now t (build_proxy_for_insert x)

  abbrev pub update_built : Io → ℕ → Table → Result (String × InputError) Proxy → Table × Reply
  update_built io now t (err e) = (t, reply_error 422 validation_failed e)
  update_built io now t (ok p) = write_reply 200 (upsert_proxy d json io now p t)

  abbrev pub update_decoded : Io → ℕ → ℕ → Table → Option ProxyInput → Table × Reply
  update_decoded io now i t none = (t, failed 400 validation_failed "")
  update_decoded io now i t (some x) =
      if leb_ℤ x.version (pos 0)
      then (t, failed 422 validation_failed "version")
      else update_built io now t (build_proxy_for_update x i)

  abbrev pub update_at : Io → ℕ → ℤ → Option ProxyInput → Table → Table × Reply
  update_at io now i x t =
      if leb_ℤ i (pos 0)
      then (t, failed 400 validation_failed "id")
      else update_decoded io now (at_least_zero i) t x

  -- (*handlers).updateProxy; the id is what strconv.ParseInt makes of the path
  unfoldable pub handle_update : Io → ℕ → Option ℤ → Option ProxyInput → Table → Table × Reply
  handle_update io now none x t = (t, failed 400 validation_failed "id")
  handle_update io now (some i) x t = update_at io now i x t

  abbrev pub delete_reply : Table × Option StoreError → Table × Reply
  delete_reply (t, none) = (t, done)
  delete_reply (t, some not_found) = (t, failed 404 code_not_found "")
  delete_reply (t, some _) = (t, failed 500 internal "")

  abbrev pub delete_at : Io → ℤ → Table → Table × Reply
  delete_at io i t =
      if leb_ℤ i (pos 0)
      then (t, failed 400 validation_failed "id")
      else delete_reply (delete_proxy d json io (at_least_zero i) t)

  -- (*handlers).deleteProxy
  unfoldable pub handle_delete : Io → Option ℤ → Table → Table × Reply
  handle_delete io none t = (t, failed 400 validation_failed "id")
  handle_delete io (some i) t = delete_at io i t
