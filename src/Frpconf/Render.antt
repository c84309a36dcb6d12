-- ===== src/Frpconf/Render.antt =====
-- RenderFrpc and RenderFrps of internal/frpconf/render.go: the checks, the defaults, and the value
-- that is handed to the TOML encoder. The encoder is a parameter.
pub mod Accepts
pub mod Ports
use frp_easy.Prelude.{
  ℕ, ℤ, pos, eq_ℤ, ltb_ℤ, Bool, true, false, not, ◌&&◌, ◌||◌, Option, none, some, List, [], ◌∷◌,
  String, str_eq, Text, Result, ok, err, bind, if◌then◌else◌, map, length, ◌==◌, ltb,
}
use frp_easy.Frpconf.AllowPorts.{
  AllowPortRange, PortsError, is_zero, out_of_range, validate_frps_allow_ports,
}

pub record ProxyInput : Type 0 where
  pub name : String
  pub kind : String
  pub local_ip : String
  pub local_port : ℤ
  pub remote_port : Option ℤ
  pub custom_domains : List String

-- frpProxyEntry
pub record ProxyEntry : Type 0 where
  pub name : String
  pub kind : String
  pub local_ip : String
  pub local_port : ℤ
  pub remote_port : ℤ
  pub custom_domains : List String

pub record FrpAuth : Type 0 where
  pub method : String
  pub token : String

pub record FrpWebServer : Type 0 where
  pub addr : String
  pub port : ℤ
  pub user : String
  pub password : String

pub record FrpLog : Type 0 where
  pub to : String
  pub level : String
  pub max_days : ℤ

pub record FrpcRoot : Type 0 where
  pub server_addr : String
  pub server_port : ℤ
  pub login_fail_exit : Option Bool
  pub log : Option FrpLog
  pub auth : Option FrpAuth
  pub web_server : Option FrpWebServer
  pub proxies : List ProxyEntry

pub record FrpsRoot : Type 0 where
  pub bind_port : ℤ
  pub log : Option FrpLog
  pub auth : Option FrpAuth
  pub web_server : Option FrpWebServer
  pub allow_ports : List AllowPortRange

pub record FrpcRenderInput : Type 0 where
  pub server_addr : String
  pub server_port : ℤ
  pub auth_method : String
  pub auth_token : String
  pub proxies : List ProxyInput
  pub admin_addr : String
  pub admin_port : ℤ
  pub admin_user : String
  pub admin_pass : String
  pub log_path : String
  pub log_level : String
  pub log_max_days : ℤ

pub record FrpsRenderInput : Type 0 where
  pub bind_port : ℤ
  pub auth_method : String
  pub auth_token : String
  pub dashboard_enabled : Bool
  pub dashboard_addr : String
  pub dashboard_port : ℤ
  pub dashboard_user : String
  pub dashboard_pass : String
  pub log_path : String
  pub log_level : String
  pub log_max_days : ℤ
  pub allow_ports : List AllowPortRange

pub data RenderError : Type 0 where
  server_addr_required : RenderError
  port_out_of_range : ℤ → RenderError
  unsupported_auth_method : String → RenderError
  name_required : RenderError
  local_port_out_of_range requires_remote_port must_not_set_custom_domains : String → RenderError
  requires_custom_domains must_not_set_remote_port invalid_type : String → RenderError
  allow_ports_invalid : PortsError → RenderError
  marshal_failed : RenderError

abbrev pub or_default : String → String → String
or_default s d = if str_eq s "" then d else s

unfoldable pub build_log : String → String → ℤ → FrpLog
build_log path level max_days = record {
  to = path;
  level = or_default level "info";
  max_days = if is_zero max_days then pos 7 else max_days;
}

abbrev pub log_section : String → String → ℤ → Option FrpLog
log_section path level max_days =
    if str_eq path "" then none else some (build_log path level max_days)

-- the auth section; an empty token leaves it out
unfoldable pub auth_section : String → String → Result RenderError (Option FrpAuth)
auth_section method token =
    if str_eq token ""
    then ok none
    else if str_eq (or_default method "token") "token"
    then ok (some (record { method = or_default method "token"; token = token }))
    else err (unsupported_auth_method (or_default method "token"))

abbrev pub is_empty : List String → Bool
is_empty [] = true
is_empty (_ ∷ _) = false

-- the `tcp`, `udp` branch, the `http`, `https` branch
abbrev pub port_entry : ProxyInput → ProxyEntry → Option ℤ → Result RenderError ProxyEntry
port_entry p e none = err (requires_remote_port p.name)
port_entry p e (some r) =
    if is_empty p.custom_domains
    then ok (record e { remote_port = r })
    else err (must_not_set_custom_domains p.name)

abbrev pub domain_entry : ProxyInput → ProxyEntry → Option ℤ → Result RenderError ProxyEntry
domain_entry p e r =
    if is_empty p.custom_domains then err (requires_custom_domains p.name) else elim r [
      | some _ ↦ err (must_not_set_remote_port p.name)
      | none ↦ ok (record e { custom_domains = p.custom_domains })
    ]

abbrev pub is_port_kind : String → Bool
is_port_kind k = str_eq k "tcp" || str_eq k "udp"

abbrev pub is_domain_kind : String → Bool
is_domain_kind k = str_eq k "http" || str_eq k "https"

abbrev pub base_entry : ProxyInput → ProxyEntry
base_entry p = record {
  name = p.name;
  kind = p.kind;
  local_ip = or_default p.local_ip "127.0.0.1";
  local_port = p.local_port;
  remote_port = pos 0;
  custom_domains = [];
}

unfoldable pub proxy_to_entry : ProxyInput → Result RenderError ProxyEntry
proxy_to_entry p =
    if str_eq p.name ""
    then err name_required
    else if out_of_range p.local_port
    then err (local_port_out_of_range p.name)
    else let e = base_entry p in
      if is_port_kind p.kind
      then port_entry p e p.remote_port
      else if is_domain_kind p.kind
      then domain_entry p e p.remote_port
      else err (invalid_type p.name)

abbrev pub cons_entry :
    Result RenderError ProxyEntry
    → Result RenderError (List ProxyEntry)
    → Result RenderError (List ProxyEntry)
cons_entry (err e) _ = err e
cons_entry (ok x) (err e) = err e
cons_entry (ok x) (ok xs) = ok (x ∷ xs)

-- the loop over in.Proxies stops at the first error
unfoldable pub proxies_to_entries : List ProxyInput → Result RenderError (List ProxyEntry)
proxies_to_entries [] = ok []
proxies_to_entries (p ∷ ps) = cons_entry (proxy_to_entry p) (proxies_to_entries ps)

infixl 5 ◌>>=◌
abbrev pub ◌>>=◌ {ℓ κ} :
    {A : Type ℓ} {B : Type κ}
    → Result RenderError A
    → (A → Result RenderError B)
    → Result RenderError B
m >>= f = bind m f

-- the webServer section of frpc.toml
abbrev pub admin_section : FrpcRenderInput → Option FrpWebServer
admin_section x =
    if ltb_ℤ (pos 0) x.admin_port
    then some (record {
      addr = or_default x.admin_addr "127.0.0.1";
      port = x.admin_port;
      user = x.admin_user;
      password = x.admin_pass;
    })
    else none

abbrev pub frpc_root_of : FrpcRenderInput → Option FrpAuth → List ProxyEntry → FrpcRoot
frpc_root_of x auth entries = record {
  server_addr = x.server_addr;
  server_port = x.server_port;
  login_fail_exit = some false;
  log = log_section x.log_path x.log_level x.log_max_days;
  auth = auth;
  web_server = admin_section x;
  proxies = entries;
}

-- RenderFrpc up to the call of toml.Marshal
unfoldable pub frpc_root : FrpcRenderInput → Result RenderError FrpcRoot
frpc_root x =
    if str_eq x.server_addr ""
    then err server_addr_required
    else if out_of_range x.server_port
    then err (port_out_of_range x.server_port)
    else (do
      auth ← auth_section x.auth_method x.auth_token
      entries ← proxies_to_entries x.proxies
      ok (frpc_root_of x auth entries))

-- one [[allowPorts]] entry
unfoldable pub render_allow_port : AllowPortRange → AllowPortRange
render_allow_port r =
    if is_zero r.single
    then record { start = r.start; end = r.end; single = pos 0 }
    else record { start = pos 0; end = pos 0; single = r.single }

-- a nil or empty list is skipped
unfoldable pub allow_ports_section : List AllowPortRange → Result RenderError (List AllowPortRange)
allow_ports_section [] = ok []
allow_ports_section (r ∷ rs) = elim (validate_frps_allow_ports (r ∷ rs)) [
  | some e ↦ err (allow_ports_invalid e)
  | none ↦ ok (map render_allow_port (r ∷ rs))
]

-- the webServer section of frps.toml
abbrev pub dashboard_section : FrpsRenderInput → Option FrpWebServer
dashboard_section x =
    if x.dashboard_enabled
    then some (record {
      addr = or_default x.dashboard_addr "127.0.0.1";
      port = if is_zero x.dashboard_port then pos 7500 else x.dashboard_port;
      user = x.dashboard_user;
      password = x.dashboard_pass;
    })
    else none

abbrev pub frps_root_of : FrpsRenderInput → Option FrpAuth → List AllowPortRange → FrpsRoot
frps_root_of x auth ports = record {
  bind_port = x.bind_port;
  log = log_section x.log_path x.log_level x.log_max_days;
  auth = auth;
  web_server = dashboard_section x;
  allow_ports = ports;
}

-- RenderFrps up to the call of toml.Marshal
unfoldable pub frps_root : FrpsRenderInput → Result RenderError FrpsRoot
frps_root x = if out_of_range x.bind_port then err (port_out_of_range x.bind_port) else (do
  auth ← auth_section x.auth_method x.auth_token
  ports ← allow_ports_section x.allow_ports
  ok (frps_root_of x auth ports))

-- the encoder of go-toml, which may fail
module _ {R : Type 0} (marshal : R → Option Text) where
  unfoldable pub marshal_root : Result RenderError R → Result RenderError Text
  marshal_root (err e) = err e
  marshal_root (ok r) = elim (marshal r) [ none ↦ err marshal_failed | some t ↦ ok t ]

unfoldable pub render_frpc : (FrpcRoot → Option Text) → FrpcRenderInput → Result RenderError Text
unfolding frpc_root marshal_root
render_frpc marshal x = marshal_root marshal (frpc_root x)

unfoldable pub render_frps : (FrpsRoot → Option Text) → FrpsRenderInput → Result RenderError Text
unfolding frps_root marshal_root
render_frps marshal x = marshal_root marshal (frps_root x)
