-- ===== src/Frpconf/Examples.antt =====
-- internal/frpconf/render.go on a small configuration of each kind.
use frp_easy.Prelude.{
  ℕ, ◌≤◌, ◌≡◌, ◌↔◌, refl, pos, false, none, some, List, [], ◌∷◌, ok, All, length,
}
use frp_easy.Frpconf.AllowPorts.{AllowPortRange, validate_frps_allow_ports}
use frp_easy.Frpconf.AllowPorts.Disjoint.{IsEntry, AllApart, validate_frps_allow_ports_iff}
use frp_easy.Frpconf.Render.{
  ProxyInput, FrpcRenderInput, FrpAuth, ProxyEntry, auth_section, proxy_to_entry,
  proxies_to_entries, allow_ports_section, render_allow_port, FrpsRenderInput, FrpcRoot, frpc_root,
  frps_root, frpc_root_of, frps_root_of,
}
use frp_easy.Frpconf.Render.Accepts.{FrpcAccepted, frpc_root_accepts}
use frp_easy.Frpconf.Render.Ports.{allowed, frps_root_ports}

abbrev pub ports : List AllowPortRange
ports =
    record { start = pos 6000; end = pos 7000; single = pos 0 }
    ∷ record { start = pos 0; end = pos 0; single = pos 80 }
    ∷ []

abbrev pub web : ProxyInput
web = record {
  name = "web";
  kind = "http";
  local_ip = "";
  local_port = pos 8080;
  remote_port = none;
  custom_domains = "a.example.org" ∷ [];
}

abbrev pub client : FrpcRenderInput
client = record {
  server_addr = "frp.example.org";
  server_port = pos 7000;
  auth_method = "token";
  auth_token = "secret";
  proxies = web ∷ [];
  admin_addr = "127.0.0.1";
  admin_port = pos 7400;
  admin_user = "u";
  admin_pass = "p";
  log_path = "frpc.log";
  log_level = "";
  log_max_days = pos 0;
}

abbrev pub server : FrpsRenderInput
server = record {
  bind_port = pos 7000;
  auth_method = "token";
  auth_token = "secret";
  dashboard_enabled = false;
  dashboard_addr = "";
  dashboard_port = pos 0;
  dashboard_user = "";
  dashboard_pass = "";
  log_path = "";
  log_level = "";
  log_max_days = pos 0;
  allow_ports = ports;
}

validate_frps_allow_ports_iff_example :
    (validate_frps_allow_ports ports ≡ none)
    ↔ ((length ports ≤ 100) × All IsEntry ports × AllApart ports)
validate_frps_allow_ports_iff_example = validate_frps_allow_ports_iff ports

frpc_root_accepts_example : ((root : FrpcRoot) × (frpc_root client ≡ ok root)) ↔ FrpcAccepted client
frpc_root_accepts_example = frpc_root_accepts client

abbrev pub token_auth : FrpAuth
token_auth = record { method = "token"; token = "secret" }

abbrev pub web_entry : ProxyEntry
web_entry = record {
  name = "web";
  kind = "http";
  local_ip = "127.0.0.1";
  local_port = pos 8080;
  remote_port = pos 0;
  custom_domains = "a.example.org" ∷ [];
}

client_run : frpc_root client ≡ ok (frpc_root_of client (some token_auth) (web_entry ∷ []))
unfolding frpc_root auth_section proxies_to_entries proxy_to_entry
client_run = refl

server_run : frps_root server ≡ ok (frps_root_of server (some token_auth) ports)
unfolding frps_root auth_section allow_ports_section render_allow_port validate_frps_allow_ports
server_run = refl

frps_root_ports_example :
    (validate_frps_allow_ports ports ≡ none) × ((p : ℕ) → allowed ports p ≡ allowed ports p)
frps_root_ports_example =
    frps_root_ports server (frps_root_of server (some token_auth) ports) server_run
