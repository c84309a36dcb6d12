-- ===== src/Http/Config.antt =====
-- internal/httpapi/config_helper.go: the configuration files of frpc and frps from the settings and
-- the rules, written by AtomicWrite. What the process manager does on a change is Procmgr's; here it
-- is whether it is told.
pub mod Written
pub mod Dashboard
pub mod Examples
use frp_easy.Prelude.{
  ℤ, pos, Bool, true, false, not, ◌&&◌, Option, none, some, List, [], ◌∷◌, String, str_eq, Text,
  Result, ok, err, if◌then◌else◌, map, filter,
}
use frp_easy.Files.{Fs}
use frp_easy.Storage.Kv.{Io}
use frp_easy.Storage.KvStore.{KvStore}
use frp_easy.Storage.Proxies.{Proxy, StoreError}
use frp_easy.Frpconf.AllowPorts.{AllowPortRange}
use frp_easy.Frpconf.Render.{
  ProxyInput, FrpcRoot, FrpsRoot, FrpcRenderInput, FrpsRenderInput, RenderError, render_frpc,
  render_frps,
}
use frp_easy.Frpconf.AtomicWrite.{WriteEnv, WriteError, WriteRun, atomic_write}
use frp_easy.Http.Settings.{
  FrpsConfig, FrpcServerConn, DashboardCreds, SettingsJson, or_port, or_text, is_partial, filled,
  read_frps, read_conn, read_creds,
}

pub data ConfigError : Type 0 where
  list_failed : StoreError → ConfigError
  render_failed : RenderError → ConfigError
  write_failed : WriteError → ConfigError

-- FrpcAdmin of the handlers' dependencies
pub record FrpcAdmin : Type 0 where
  pub addr : String
  pub port : ℤ
  pub user : String
  pub pass : String

-- `path` is none where the paths of the configurations are not set
pub record ConfigEnv : Type 0 where
  pub path : Option String
  pub log_path : String
  pub admin : FrpcAdmin
  pub has_procmgr : Bool
  pub write : WriteEnv

-- the files, the error, and whether the process manager is told
pub record Applied : Type 0 where
  pub fs : Fs
  pub error : Option ConfigError
  pub told : Bool

-- the rule that frpconf is given for a row
unfoldable pub input_of : Proxy → ProxyInput
input_of p = record {
  name = p.name;
  kind = p.kind;
  local_ip = p.local_ip;
  local_port = p.local_port;
  remote_port = p.remote_port;
  custom_domains = p.custom_domains;
}

-- the loop over the rows leaves out what is not enabled
unfoldable pub enabled_inputs : List Proxy → List ProxyInput
unfolding input_of
enabled_inputs ps = map input_of (filter (λ p. p.enabled) ps)

unfoldable pub frpc_input : ConfigEnv → FrpcServerConn → List ProxyInput → FrpcRenderInput
frpc_input env conn rules = record {
  server_addr = conn.server_addr;
  server_port = conn.server_port;
  auth_method = conn.auth_method;
  auth_token = conn.auth_token;
  proxies = rules;
  admin_addr = env.admin.addr;
  admin_port = env.admin.port;
  admin_user = env.admin.user;
  admin_pass = env.admin.pass;
  log_path = env.log_path;
  log_level = "";
  log_max_days = pos 0;
}

-- the user's credentials, or the generated ones for an enabled dashboard that lacks a field
unfoldable pub dashboard_creds : DashboardCreds → FrpsConfig → DashboardCreds
dashboard_creds auto c =
    if c.dashboard_enabled && is_partial c.dashboard_user c.dashboard_pass
    then filled auto c.dashboard_user c.dashboard_pass
    else record { user = c.dashboard_user; pass = c.dashboard_pass }

unfoldable pub frps_input : ConfigEnv → DashboardCreds → FrpsConfig → FrpsRenderInput
frps_input env creds c = record {
  bind_port = or_port c.bind_port (pos 7000);
  auth_method = c.auth_method;
  auth_token = c.auth_token;
  dashboard_enabled = c.dashboard_enabled;
  dashboard_addr = c.dashboard_addr;
  dashboard_port = c.dashboard_port;
  dashboard_user = creds.user;
  dashboard_pass = creds.pass;
  log_path = env.log_path;
  log_level = "";
  log_max_days = pos 0;
  allow_ports = c.allow_ports;
}

-- from the answer of AtomicWrite on
abbrev pub written : ConfigEnv → WriteRun → Option WriteError → Applied
written env r (some e) = record { fs = r.fs; error = some (write_failed e); told = false }
written env r none = record { fs = r.fs; error = none; told = env.has_procmgr }

abbrev pub write_rendered : ConfigEnv → String → Fs → Result RenderError Text → Applied
write_rendered env path fs (err e) = record {
  fs = fs;
  error = some (render_failed e);
  told = false;
}
write_rendered env path fs (ok text) =
    let r = atomic_write env.write path text fs in written env r r.error

module _ {V : Type 0} (kv : KvStore V) (json : SettingsJson V) where
  abbrev pub render_listed :
      (FrpcRoot → Option Text)
      → ConfigEnv
      → String
      → FrpcServerConn
      → Fs
      → Result StoreError (List Proxy)
      → Applied
  render_listed marshal env path conn fs (err e) = record {
    fs = fs;
    error = some (list_failed e);
    told = false;
  }
  render_listed marshal env path conn fs (ok ps) =
      write_rendered env path fs (render_frpc marshal (frpc_input env conn (enabled_inputs ps)))

  abbrev pub frpc_at :
      (FrpcRoot → Option Text)
      → ConfigEnv
      → Io
      → kv.State
      → Result StoreError (List Proxy)
      → Fs
      → Option String
      → Applied
  frpc_at marshal env io s listing fs none = record { fs = fs; error = none; told = false }
  frpc_at marshal env io s listing fs (some path) =
      render_listed marshal env path (read_conn kv json io s) fs listing

  -- (*handlers).renderAndApplyFrpc; `listing` is the answer of ListProxies
  unfoldable pub render_and_apply_frpc :
      (FrpcRoot → Option Text)
      → ConfigEnv
      → Io
      → kv.State
      → Result StoreError (List Proxy)
      → Fs
      → Applied
  unfolding read_conn frpc_input enabled_inputs render_frpc
  render_and_apply_frpc marshal env io s listing fs = frpc_at marshal env io s listing fs env.path

  abbrev pub frps_at :
      (FrpsRoot → Option Text) → ConfigEnv → Io → kv.State → Fs → Option String → Applied
  frps_at marshal env io s fs none = record { fs = fs; error = none; told = false }
  frps_at marshal env io s fs (some path) =
      let c = read_frps kv json io s in
      let creds = dashboard_creds (read_creds kv json io s) c in
      write_rendered env path fs (render_frps marshal (frps_input env creds c))

  -- (*handlers).renderAndApplyFrps
  unfoldable pub render_and_apply_frps :
      (FrpsRoot → Option Text) → ConfigEnv → Io → kv.State → Fs → Applied
  unfolding read_frps read_creds dashboard_creds frps_input render_frps
  render_and_apply_frps marshal env io s fs = frps_at marshal env io s fs env.path
