-- ===== src/Frpconf/Render/Accepts.antt =====
-- Which inputs RenderFrpc and RenderFrps of internal/frpconf/render.go accept, and what the
-- rendered configuration says of them.
use frp_easy.Prelude.{
  ℤ, pos, true, false, ◌||◌, Option, none, some, List, [], ◌∷◌, String, str_eq, Result, ok, err,
  if◌then◌else◌, ◌≡◌, ◌↔◌, ◌⊎◌, inl, inr, refl, arith, All, Bool-cases, guard-eq, bind-eq, leb_ℤ,
}
use frp_easy.Frpconf.AllowPorts.{out_of_range}
use frp_easy.Frpconf.Render.{
  ProxyInput, ProxyEntry, FrpcRoot, FrpcRenderInput, RenderError, auth_section, is_empty,
  is_port_kind, is_domain_kind, proxy_to_entry, cons_entry, proxies_to_entries, frpc_root,
  or_default, FrpAuth, base_entry, port_entry, domain_entry, invalid_type, name_required,
  local_port_out_of_range, unsupported_auth_method, server_addr_required, frpc_root_of,
  port_out_of_range,
}

abbrev pub Shape : ProxyInput → Type 0
Shape p =
    ((is_port_kind p.kind ≡ true) × ((n : ℤ) × (p.remote_port ≡ some n)) × (p.custom_domains ≡ []))
    ⊎ ((is_port_kind p.kind ≡ false)
        × (is_domain_kind p.kind ≡ true)
        × (p.remote_port ≡ none)
        × (is_empty p.custom_domains ≡ false))

-- a rule that upstream frpc understands: ports for tcp and udp, domains for http and https
pub record IsRule (p : ProxyInput) : Type 0 where
  pub named : str_eq p.name "" ≡ false
  pub local_port_valid : out_of_range p.local_port ≡ false
  pub shaped : Shape p

abbrev pub remote_or_zero : Option ℤ → ℤ
remote_or_zero none = pos 0
remote_or_zero (some n) = n

-- the entry says what the rule says
pub record Renders (p : ProxyInput) (e : ProxyEntry) : Type 0 where
  pub same_name : e.name ≡ p.name
  pub same_kind : e.kind ≡ p.kind
  pub same_port : e.local_port ≡ p.local_port
  pub ip_given : str_eq e.local_ip "" ≡ false
  pub same_domains : e.custom_domains ≡ p.custom_domains
  pub same_remote : e.remote_port ≡ remote_or_zero p.remote_port

abbrev pub RendersAll : List ProxyInput → List ProxyEntry → Type 0
RendersAll [] [] = Unit
RendersAll [] (e ∷ es) = ⊥
RendersAll (p ∷ ps) [] = ⊥
RendersAll (p ∷ ps) (e ∷ es) = Renders p e × RendersAll ps es

-- the local address is never empty
default_ip : (s : String) → str_eq (or_default s "127.0.0.1") "" ≡ false
default_ip s = elim (Bool-cases (str_eq s "")) [ inl e ↦ rw e | inr e ↦ rw e e ]

port_entry-IsRule :
    (p : ProxyInput) (e : ProxyEntry) (r : Option ℤ) (ds : List String)
    → port_entry (record p { remote_port = r; custom_domains = ds }) (base_entry p) r ≡ ok e
    → ((n : ℤ) × (r ≡ some n))
      × (ds ≡ [])
      × (e ≡ record (base_entry p) { remote_port = remote_or_zero r })
port_entry-IsRule p e none ds h = cc
port_entry-IsRule p e (some r) [] h = ((r, refl), refl, cc)
port_entry-IsRule p e (some r) (d ∷ ds) h = cc

domain_entry-IsRule :
    (p : ProxyInput) (e : ProxyEntry) (r : Option ℤ) (ds : List String)
    → domain_entry (record p { remote_port = r; custom_domains = ds }) (base_entry p) r ≡ ok e
    → (r ≡ none) × (is_empty ds ≡ false) × (e ≡ record (base_entry p) { custom_domains = ds })
domain_entry-IsRule p e r [] h = cc
domain_entry-IsRule p e none (d ∷ ds) h = (refl, refl, cc)
domain_entry-IsRule p e (some r) (d ∷ ds) h = cc

-- what is left of proxy_to_entry once the name and the local port have passed
abbrev by_kind : ProxyInput → Result RenderError ProxyEntry
by_kind p =
    if is_port_kind p.kind
    then port_entry p (base_entry p) p.remote_port
    else if is_domain_kind p.kind
    then domain_entry p (base_entry p) p.remote_port
    else err (invalid_type p.name)

abbrev entry_of : ProxyInput → ProxyEntry
entry_of p = record (base_entry p) {
  remote_port = remote_or_zero p.remote_port;
  custom_domains = p.custom_domains;
}

by_kind-Shape : (p : ProxyInput) (e : ProxyEntry) → by_kind p ≡ ok e → Shape p × (e ≡ entry_of p)
by_kind-Shape p e h = elim (Bool-cases (is_port_kind p.kind)) [
  | inl a ↦
      let (r, d, q) = port_entry-IsRule p e p.remote_port p.custom_domains (rw a at h) in
      (inl (a, r, d), rw (q, d))
  | inr a ↦ elim (Bool-cases (is_domain_kind p.kind)) [
    | inl b ↦
        let (r, d, q) = domain_entry-IsRule p e p.remote_port p.custom_domains (rw (a, b) at h) in
        (inr (a, b, r, d), rw (q, r))
    | inr b ↦ let x : err (invalid_type p.name) ≡ ok e = rw (a, b) at h in cc x
  ]
]

proxy_to_entry-by_kind :
    (p : ProxyInput) (e : ProxyEntry)
    → proxy_to_entry p ≡ ok e
    → (str_eq p.name "" ≡ false) × (out_of_range p.local_port ≡ false) × (by_kind p ≡ ok e)
unfolding proxy_to_entry
proxy_to_entry-by_kind p e h = elim (Bool-cases (str_eq p.name "")) [
  | inl a ↦ let x : err name_required ≡ ok e = rw a at h in cc x
  | inr a ↦ elim (Bool-cases (out_of_range p.local_port)) [
    | inl b ↦ let x : err (local_port_out_of_range p.name) ≡ ok e = rw (a, b) at h in cc x
    | inr b ↦ (a, b, rw (a, b) at h)
  ]
]

proxy_to_entry-IsRule :
    (p : ProxyInput) (e : ProxyEntry) → proxy_to_entry p ≡ ok e → IsRule p × Renders p e
proxy_to_entry-IsRule p e h =
    let (a, b, c) = proxy_to_entry-by_kind p e h in
    let (s, q) = by_kind-Shape p e c in
    (
      record { named = a; local_port_valid = b; shaped = s },
      rw q (record {
        same_name = refl;
        same_kind = refl;
        same_port = refl;
        ip_given = default_ip p.local_ip;
        same_domains = refl;
        same_remote = refl;
      }),
    )

IsRule-proxy_to_entry : (p : ProxyInput) → IsRule p → (e : ProxyEntry) × (proxy_to_entry p ≡ ok e)
unfolding proxy_to_entry
IsRule-proxy_to_entry p h = by_shape h.shaped
  where
    by_shape : Shape p → (e : ProxyEntry) × (proxy_to_entry p ≡ ok e)
    by_shape (inl (k, (n, r), d)) =
        (record (base_entry p) { remote_port = n }, rw (h.named, h.local_port_valid, k, r, d))
    by_shape (inr (k, k', r, d)) = (
      record (base_entry p) { custom_domains = p.custom_domains },
      rw (h.named, h.local_port_valid, k, k', d, r),
    )

cons_entry-eq :
    (m : Result RenderError ProxyEntry) (n : Result RenderError (List ProxyEntry))
    (es : List ProxyEntry)
    → cons_entry m n ≡ ok es
    → (x : ProxyEntry) × (xs : List ProxyEntry) × (m ≡ ok x) × (n ≡ ok xs) × (es ≡ x ∷ xs)
cons_entry-eq (ok x) (ok xs) es h = (x, xs, refl, refl, cc)
cons_entry-eq (ok x) (err e) es h = cc
cons_entry-eq (err e) n es h = cc

proxies_to_entries-IsRule :
    (ps : List ProxyInput) (es : List ProxyEntry)
    → proxies_to_entries ps ≡ ok es
    → All IsRule ps × RendersAll ps es
unfolding proxies_to_entries
proxies_to_entries-IsRule [] [] h = (tt, tt)
proxies_to_entries-IsRule [] (e ∷ es) h = cc
proxies_to_entries-IsRule (p ∷ ps) es h =
    let (x, xs, a, b, c) = cons_entry-eq (proxy_to_entry p) (proxies_to_entries ps) es h in
    let (r, q) = proxy_to_entry-IsRule p x a in
    let (rs, qs) = proxies_to_entries-IsRule ps xs b in rw c ((r, rs), (q, qs))

IsRule-proxies_to_entries :
    (ps : List ProxyInput)
    → All IsRule ps
    → (es : List ProxyEntry) × (proxies_to_entries ps ≡ ok es)
unfolding proxies_to_entries
IsRule-proxies_to_entries [] a = ([], refl)
IsRule-proxies_to_entries (p ∷ ps) a =
    let (e, h) = IsRule-proxy_to_entry p a.0 in
    let (es, k) = IsRule-proxies_to_entries ps a.1 in (e ∷ es, rw (h, k))

-- the only method is `token`; it is not looked at when no token is set
abbrev pub AuthValid : String → String → Type 0
AuthValid method token = (str_eq token "" || str_eq (or_default method "token") "token") ≡ true

auth_section_iff :
    (m t : String) → ((a : Option FrpAuth) × (auth_section m t ≡ ok a)) ↔ AuthValid m t
unfolding auth_section
auth_section_iff m t = elim (Bool-cases (str_eq t "")) [
  | inl e ↦ (λ h. rw e, λ h. (none, rw e))
  | inr e ↦ elim (Bool-cases (str_eq (or_default m "token") "token")) [
    | inl f ↦ (
      λ h. rw (e, f),
      λ h. (some (record { method = or_default m "token"; token = t }), rw (e, f)),
    )
    | inr f ↦ (
      λ (a, h).
          let x : err (unsupported_auth_method (or_default m "token")) ≡ ok a = rw (e, f) at h in
          cc x,
      λ h. let x : false ≡ true = rw (e, f) at h in cc x,
    )
  ]
]

pub record FrpcAccepted (x : FrpcRenderInput) : Type 0 where
  pub addressed : str_eq x.server_addr "" ≡ false
  pub port_valid : out_of_range x.server_port ≡ false
  pub auth_valid : AuthValid x.auth_method x.auth_token
  pub rules : All IsRule x.proxies

pub frpc_root-eq :
    (x : FrpcRenderInput) (root : FrpcRoot)
    → frpc_root x ≡ ok root
    → (a : Option FrpAuth) × (es : List ProxyEntry) × (str_eq x.server_addr "" ≡ false)
      × (out_of_range x.server_port ≡ false)
      × (auth_section x.auth_method x.auth_token ≡ ok a)
      × (proxies_to_entries x.proxies ≡ ok es)
      × (frpc_root_of x a es ≡ root)
unfolding frpc_root
frpc_root-eq x root h =
    let (n, h₁) = guard-eq (str_eq x.server_addr "") server_addr_required _ root h in
    let (p, h₂) =
      guard-eq (out_of_range x.server_port) (port_out_of_range x.server_port) _ root h₁ in
    let (a, e, h₃) = bind-eq (auth_section x.auth_method x.auth_token) _ root h₂ in
    let (es, f, h₄) = bind-eq (proxies_to_entries x.proxies) _ root h₃ in (a, es, n, p, e, f, cc h₄)

-- RenderFrpc gets as far as the TOML encoder exactly for the inputs with a server address, a server
-- port within 1 to 65535, no authentication method but `token` if a token is set, and well-formed rules
-- only. Without a token the method is not looked at.
pub frpc_root_accepts :
    (x : FrpcRenderInput) → ((root : FrpcRoot) × (frpc_root x ≡ ok root)) ↔ FrpcAccepted x
unfolding frpc_root
frpc_root_accepts x = (
  λ (root, h).
      let (a, es, n, p, e, f, q) = frpc_root-eq x root h in
      record {
        addressed = n;
        port_valid = p;
        auth_valid = (auth_section_iff x.auth_method x.auth_token).0 (a, e);
        rules = (proxies_to_entries-IsRule x.proxies es f).0;
      },
  λ h.
      let (a, e) = (auth_section_iff x.auth_method x.auth_token).1 h.auth_valid in
      let (es, f) = IsRule-proxies_to_entries x.proxies h.rules in
      (frpc_root_of x a es, rw (h.addressed, h.port_valid, e, f)),
)

-- The configuration that RenderFrpc hands to the encoder has one entry for each rule, in order and
-- with the rule's name, type, ports and domains; frpc does not exit on a failed login; and the admin
-- server is left out exactly if its port is not positive.
pub frpc_root_renders :
    (x : FrpcRenderInput) (root : FrpcRoot)
    → frpc_root x ≡ ok root
    → RendersAll x.proxies root.proxies
      × (root.login_fail_exit ≡ some false)
      × ((root.web_server ≡ none) ↔ (leb_ℤ x.admin_port (pos 0) ≡ true))
frpc_root_renders x root h =
    let (a, es, n, p, e, f, q) = frpc_root-eq x root h in
    rw (← q) ((proxies_to_entries-IsRule x.proxies es f).1, refl, (ground arith, ground arith))
