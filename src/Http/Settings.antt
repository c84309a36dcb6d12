-- ===== src/Http/Settings.antt =====
-- internal/httpapi/handlers_server.go, and resolveFrpsDashboard of handlers_server_runtime.go, over
-- the interface of internal/storage/kv.go. The rendering after the reply is Config's; texts of
-- messages are left out.
pub mod Kept
use frp_easy.Prelude.{
  ℕ, ℤ, pos, Bool, true, false, not, ◌&&◌, ◌||◌, ◌≡◌, Option, none, some, List, [], ◌∷◌, String,
  str_eq, Text, codes, Result, ok, err, if◌then◌else◌,
}
use frp_easy.Storage.Kv.{Io, KvError}
use frp_easy.Storage.KvStore.{KvStore}
use frp_easy.Frpconf.AllowPorts.{AllowPortRange, PortsError, is_zero, validate_frps_allow_ports}
use frp_easy.Http.Errors.{Refusal, refusal, validation_failed, internal}
use frp_easy.Http.Validate.{InputError, validate_port}

pub record FrpsConfig : Type 0 where
  pub bind_port : ℤ
  pub auth_method : String
  pub auth_token : String
  pub dashboard_enabled : Bool
  pub dashboard_addr : String
  pub dashboard_port : ℤ
  pub dashboard_user : String
  pub dashboard_pass : String
  pub allow_ports : List AllowPortRange

pub record FrpcServerConn : Type 0 where
  pub server_addr : String
  pub server_port : ℤ
  pub auth_method : String
  pub auth_token : String

-- FrpsDashboardCreds
pub record DashboardCreds : Type 0 where
  pub user : String
  pub pass : String

-- the zero values
abbrev pub zero_frps : FrpsConfig
zero_frps = record {
  bind_port = pos 0;
  auth_method = "";
  auth_token = "";
  dashboard_enabled = false;
  dashboard_addr = "";
  dashboard_port = pos 0;
  dashboard_user = "";
  dashboard_pass = "";
  allow_ports = [];
}

abbrev pub zero_conn : FrpcServerConn
zero_conn = record { server_addr = ""; server_port = pos 0; auth_method = ""; auth_token = "" }

abbrev pub zero_creds : DashboardCreds
zero_creds = record { user = ""; pass = "" }

-- json.Marshal and json.Unmarshal of the three: what a zero value is after Unmarshal, and whether it
-- gave no error
pub record SettingsJson (V : Type 0) : Type 0 where
  pub marshal_frps : FrpsConfig → V
  pub unmarshal_frps : V → FrpsConfig × Bool
  pub marshal_conn : FrpcServerConn → V
  pub unmarshal_conn : V → FrpcServerConn × Bool
  pub unmarshal_creds : V → DashboardCreds × Bool
  pub unmarshal-marshal_frps : (c : FrpsConfig) → unmarshal_frps (marshal_frps c) ≡ (c, true)
  pub unmarshal-marshal_conn : (c : FrpcServerConn) → unmarshal_conn (marshal_conn c) ≡ (c, true)

unfoldable pub kv_frps_config : Text
kv_frps_config = codes "frps.config"

unfoldable pub kv_frpc_server_cfg : Text
kv_frpc_server_cfg = codes "frpc.serverConn"

unfoldable pub kv_frps_dashboard_autogen : Text
kv_frps_dashboard_autogen = codes "frps.dashboard.autogen"

abbrev pub mask : String
mask = "***"

unfoldable pub masked : String → String
masked token = if str_eq token "" then "" else mask

abbrev pub or_port : ℤ → ℤ → ℤ
or_port p d = if is_zero p then d else p

abbrev pub or_text : String → String → String
or_text s d = if str_eq s "" then d else s

-- putServer from the validation on: the field that is refused
abbrev pub check_allow_ports : List AllowPortRange → Option String
check_allow_ports [] = none
check_allow_ports (r ∷ rs) = elim (validate_frps_allow_ports (r ∷ rs)) [
  | some e ↦ some "allowPorts"
  | none ↦ none
]

abbrev pub when_bad : Option InputError → String → Option String → Option String
when_bad (some e) field next = some field
when_bad none field next = next

-- the defaults of putServer
abbrev pub with_ports : FrpsConfig → FrpsConfig
with_ports c = record c {
  bind_port = or_port c.bind_port (pos 7000);
  dashboard_port =
      if c.dashboard_enabled then or_port c.dashboard_port (pos 7500) else c.dashboard_port;
}

unfoldable pub check_frps : FrpsConfig → Option String
check_frps c = when_bad (validate_port c.bind_port) "bindPort" (
    if c.dashboard_enabled
    then when_bad (validate_port c.dashboard_port) "dashboardPort" (check_allow_ports c.allow_ports)
    else check_allow_ports c.allow_ports)

unfoldable pub check_conn : FrpcServerConn → Option String
check_conn c =
    if str_eq c.server_addr ""
    then some "serverAddr"
    else when_bad (validate_port c.server_port) "serverPort" none

pub data SettingsReply : Type 0 where
  frps_settings : FrpsConfig → SettingsReply
  conn_settings : FrpcServerConn → SettingsReply
  refused : Refusal → SettingsReply

-- the user's credentials, and the generated ones where a field is empty
abbrev pub filled : DashboardCreds → String → String → DashboardCreds
filled auto user pass = record { user = or_text user auto.user; pass = or_text pass auto.pass }

abbrev pub is_partial : String → String → Bool
is_partial user pass = str_eq user "" || str_eq pass ""

pub record Dashboard : Type 0 where
  pub addr : String
  pub port : ℤ
  pub creds : DashboardCreds

pub data Resolved : Type 0 where
  disabled no_creds : Resolved
  resolved : Dashboard → Resolved

-- the credentials in force
abbrev pub effective : FrpsConfig → DashboardCreds → DashboardCreds
effective c auto =
    if is_partial c.dashboard_user c.dashboard_pass
    then filled auto c.dashboard_user c.dashboard_pass
    else record { user = c.dashboard_user; pass = c.dashboard_pass }

-- resolveFrpsDashboard on what it has read
unfoldable pub resolve_with : FrpsConfig → DashboardCreds → Resolved
resolve_with c auto =
    if not c.dashboard_enabled
    then disabled
    else if is_partial (effective c auto).user (effective c auto).pass
    then no_creds
    else resolved (record {
      addr = or_text c.dashboard_addr "127.0.0.1";
      port = or_port c.dashboard_port (pos 7500);
      creds = effective c auto;
    })

module _ {V : Type 0} (kv : KvStore V) (json : SettingsJson V) where
  -- the value under a key if it can be read and is there
  abbrev pub value_of : Result KvError (Option V) → Option V
  value_of (err e) = none
  value_of (ok none) = none
  value_of (ok (some v)) = some v

  abbrev pub stored : Io → kv.State → Text → Option V
  stored io s k = value_of (kv.get io s k)

  abbrev pub frps_from : Option V → FrpsConfig
  frps_from none = zero_frps
  frps_from (some v) = (json.unmarshal_frps v).0

  abbrev pub conn_from : Option V → FrpcServerConn
  conn_from none = zero_conn
  conn_from (some v) = (json.unmarshal_conn v).0

  abbrev pub creds_from : Option V → DashboardCreds
  creds_from none = zero_creds
  creds_from (some v) = (json.unmarshal_creds v).0

  unfoldable pub read_frps : Io → kv.State → FrpsConfig
  read_frps io s = frps_from (stored io s kv_frps_config)

  unfoldable pub read_conn : Io → kv.State → FrpcServerConn
  read_conn io s = conn_from (stored io s kv_frpc_server_cfg)

  unfoldable pub read_creds : Io → kv.State → DashboardCreds
  read_creds io s = creds_from (stored io s kv_frps_dashboard_autogen)

  -- (*handlers).getServer
  unfoldable pub get_server : Io → Bool → kv.State → FrpsConfig
  unfolding read_frps masked
  get_server io reveal s =
      let c = read_frps io s in
      record c {
        bind_port = or_port c.bind_port (pos 7000);
        auth_token = if reveal then c.auth_token else masked c.auth_token;
      }

  -- (*handlers).getClient
  unfoldable pub get_client : Io → Bool → kv.State → FrpcServerConn
  unfolding read_conn masked
  get_client io reveal s =
      let c = read_conn io s in
      record c { auth_token = if reveal then c.auth_token else masked c.auth_token }

  -- the token of the stored settings, if they can be read
  abbrev pub frps_token : FrpsConfig → Option V → String
  frps_token c none = c.auth_token
  frps_token c (some v) =
      if (json.unmarshal_frps v).1 then (json.unmarshal_frps v).0.auth_token else c.auth_token

  abbrev pub conn_token : FrpcServerConn → Option V → String
  conn_token c none = c.auth_token
  conn_token c (some v) =
      if (json.unmarshal_conn v).1 then (json.unmarshal_conn v).0.auth_token else c.auth_token

  -- a mask that comes back keeps the stored token
  unfoldable pub keep_frps : Io → kv.State → FrpsConfig → FrpsConfig
  keep_frps io s c =
      if str_eq c.auth_token mask
      then record c { auth_token = frps_token c (stored io s kv_frps_config) }
      else c

  unfoldable pub keep_conn : Io → kv.State → FrpcServerConn → FrpcServerConn
  keep_conn io s c =
      if str_eq c.auth_token mask
      then record c { auth_token = conn_token c (stored io s kv_frpc_server_cfg) }
      else c

  abbrev pub saved : SettingsReply → kv.State × Option KvError → kv.State × SettingsReply
  saved reply (s, none) = (s, reply)
  saved reply (s, some e) = (s, refused (refusal 500 internal ""))

  abbrev pub save_frps : Io → FrpsConfig → kv.State → kv.State × SettingsReply
  save_frps io c s =
      saved (frps_settings (record c { auth_token = masked c.auth_token }))
        (kv.set io s kv_frps_config (json.marshal_frps c))

  abbrev pub save_conn : Io → FrpcServerConn → kv.State → kv.State × SettingsReply
  save_conn io c s =
      saved (conn_settings (record c { auth_token = masked c.auth_token }))
        (kv.set io s kv_frpc_server_cfg (json.marshal_conn c))

  abbrev pub put_checked_frps :
      Io → FrpsConfig → kv.State → Option String → kv.State × SettingsReply
  put_checked_frps io c s (some field) = (s, refused (refusal 422 validation_failed field))
  put_checked_frps io c s none = save_frps io (keep_frps io s c) s

  abbrev pub put_checked_conn :
      Io → FrpcServerConn → kv.State → Option String → kv.State × SettingsReply
  put_checked_conn io c s (some field) = (s, refused (refusal 422 validation_failed field))
  put_checked_conn io c s none = save_conn io (keep_conn io s c) s

  -- (*handlers).putServer; the body is none where it does not parse
  unfoldable pub put_server : Io → Option FrpsConfig → kv.State → kv.State × SettingsReply
  unfolding check_frps keep_frps masked
  put_server io none s = (s, refused (refusal 400 validation_failed ""))
  put_server io (some c) s = put_checked_frps io (with_ports c) s (check_frps (with_ports c))

  -- (*handlers).putClient
  unfoldable pub put_client : Io → Option FrpcServerConn → kv.State → kv.State × SettingsReply
  unfolding check_conn keep_conn masked
  put_client io none s = (s, refused (refusal 400 validation_failed ""))
  put_client io (some c) s = put_checked_conn io c s (check_conn c)

  -- (*handlers).resolveFrpsDashboard
  unfoldable pub resolve_frps_dashboard : Io → kv.State → Resolved
  unfolding read_frps read_creds resolve_with
  resolve_frps_dashboard io s = resolve_with (read_frps io s) (read_creds io s)
