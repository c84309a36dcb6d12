-- ===== src/Http/Proxies/Accepted.antt =====
-- What passes the validation of internal/httpapi/handlers_proxies.go passes that of
-- internal/storage/proxies.go.
use frp_easy.Prelude.{
  ℤ, true, false, Option, none, some, List, [], ◌∷◌, String, str_eq, Text, ◌≡◌, refl, arith,
  Bool-cases, inl, inr,
}
use frp_easy.Http.Validate.{validate_proxy_name, validate_proxy_type, validate_port, InputError}
use frp_easy.Http.Proxies.{
  ProxyInput, on_field, kind_rules, port_rules, domain_rules, validate_proxy_input, new_proxy,
}
use frp_easy.Storage.Proxies.Schema.{is_port_kind, is_domain_kind}
use frp_easy.Storage.Proxies.Errors.{Driver}
use frp_easy.Storage.Proxies.{
  Proxy, DomainsCodec, validate_proxy_shape, validate_rest, out_of_range, is_some, is_empty,
  remote_out_of_range,
}

on_field-none :
    (f : String) (e : Option InputError) (next : Option (String × InputError))
    → on_field f e next ≡ none
    → (e ≡ none) × (next ≡ none)
on_field-none f (some e) next h = cc
on_field-none f none next h = (refl, h)

validate_port-none : (p : ℤ) → validate_port p ≡ none → out_of_range p ≡ false
unfolding validate_port
validate_port-none p h = ground arith

validate_proxy_name-none : (n : String) → validate_proxy_name n ≡ none → str_eq n "" ≡ false
unfolding validate_proxy_name
validate_proxy_name-none n h = ground arith

port_rules-none :
    (x : ProxyInput) (r : Option ℤ) (ds : List String)
    → port_rules x r ds ≡ none
    → (is_some r ≡ true) × (is_empty ds ≡ true) × (remote_out_of_range r ≡ false)
port_rules-none x none ds h = cc
port_rules-none x (some r) [] h =
    (refl, refl, validate_port-none r (on_field-none "remotePort" (validate_port r) none h).0)
port_rules-none x (some r) (d ∷ ds) h = cc (on_field-none "remotePort" (validate_port r) _ h).1

domain_rules-none :
    (x : ProxyInput) (r : Option ℤ) (ds : List String)
    → domain_rules x r ds ≡ none
    → (is_some r ≡ false) × (is_empty ds ≡ false) × (remote_out_of_range r ≡ false)
domain_rules-none x (some r) ds h = cc
domain_rules-none x none [] h = cc
domain_rules-none x none (d ∷ ds) h = (refl, refl, refl)

validate_proxy_type-none :
    (k : String) → validate_proxy_type k ≡ none → is_port_kind k ≡ false → is_domain_kind k ≡ true
unfolding validate_proxy_type
validate_proxy_type-none k h f = ground arith

validate_rest-none :
    (p : Proxy)
    → str_eq p.name "" ≡ false
    → out_of_range p.local_port ≡ false
    → remote_out_of_range p.remote_port ≡ false
    → validate_rest p ≡ none
validate_rest-none p a b c = rw (a, b, c)

-- The proxy that buildProxyForInsert makes of an input that passes validateProxyInput also passes
-- validateProxyShape, so UpsertProxy never refuses its form.
pub new_proxy-Shape :
    (d : Driver) (json : DomainsCodec) (trim : String → String) (low : Text → Text) (x : ProxyInput)
    → validate_proxy_input x ≡ none
    → validate_proxy_shape (new_proxy d json trim low x) ≡ none
unfolding validate_proxy_input validate_proxy_shape new_proxy kind_rules
new_proxy-Shape d json trim low x h =
    let (a, h₁) = on_field-none "name" (validate_proxy_name x.name) _ h in
    let (b, h₂) = on_field-none "type" (validate_proxy_type x.kind) _ h₁ in
    let (c, h₃) = on_field-none "localPort" (validate_port x.local_port) _ h₂ in
    let n = validate_proxy_name-none x.name a in
    let o = validate_port-none x.local_port c in
    elim (Bool-cases (is_port_kind x.kind)) [
      | inl e ↦
          let (r, s, q) = port_rules-none x x.remote_port x.custom_domains (rw e at h₃) in
          rw (e, r, s, n, o, q)
      | inr e ↦
          let f = validate_proxy_type-none x.kind b e in
          let (r, s, q) = domain_rules-none x x.remote_port x.custom_domains (rw (e, f) at h₃) in
          rw (e, f, r, s, n, o, q)
    ]
