-- ===== src/Http/Config/Examples.antt =====
-- Settings of internal/httpapi/handlers_server.go on an empty table of internal/storage/kv.go, and
-- the files that config_helper.go writes then.
use frp_easy.Prelude.{
  ◌≡◌, refl, pos, Bool, List, true, false, none, some, [], ◌∷◌, String, text_eq, codes, ok,
  if◌then◌else◌,
}
use frp_easy.Files.{Fs}
use frp_easy.Storage.Kv.{healthy, Entry, select_value}
use frp_easy.Storage.Kv.Rows.{KeysUnique, has_key}
use frp_easy.Storage.KvStore.{KvStore, sqlite_store}
use frp_easy.Storage.Kv.Examples.{ascii_operator}
use frp_easy.Storage.Proxies.{Proxy, validate_proxy_shape}
use frp_easy.Frpconf.Render.{FrpcRoot, FrpsRoot, auth_section, allow_ports_section}
use frp_easy.Frpconf.AtomicWrite.{WriteEnv, atomic_write}
use frp_easy.Http.Validate.{validate_port}
use frp_easy.Http.Settings.{
  FrpsConfig, FrpcServerConn, DashboardCreds, SettingsJson, kv_frps_config, kv_frpc_server_cfg,
  kv_frps_dashboard_autogen, zero_frps, zero_conn, zero_creds, with_ports, check_frps, check_conn,
  get_server, get_client, put_server, put_client, resolve_frps_dashboard,
}
use frp_easy.Http.Settings.Kept.{put-get_token}
use frp_easy.Http.Config.{ConfigEnv, render_and_apply_frpc, render_and_apply_frps}
use frp_easy.Http.Config.Written.{IsWritten, put_client-IsWritten}
use frp_easy.Http.Config.Dashboard.{Names, resolve_frps_dashboard-Names}

-- stored values, as their codec sees them
data Value : Type 0 where
  frps : FrpsConfig → Value
  conn : FrpcServerConn → Value
  creds : DashboardCreds → Value

abbrev to_frps : Value → FrpsConfig × Bool
to_frps (frps c) = (c, true)
to_frps _ = (zero_frps, false)

abbrev to_conn : Value → FrpcServerConn × Bool
to_conn (conn c) = (c, true)
to_conn _ = (zero_conn, false)

abbrev to_creds : Value → DashboardCreds × Bool
to_creds (creds c) = (c, true)
to_creds _ = (zero_creds, false)

abbrev json : SettingsJson Value
json = record {
  marshal_frps = frps;
  unmarshal_frps = to_frps;
  marshal_conn = conn;
  unmarshal_conn = to_conn;
  unmarshal_creds = to_creds;
  unmarshal-marshal_frps = λ c. refl;
  unmarshal-marshal_conn = λ c. refl;
}

abbrev store : KvStore Value
store = sqlite_store ascii_operator

abbrev home : FrpcServerConn
home = record {
  server_addr = "frps.example.org";
  server_port = pos 7000;
  auth_method = "";
  auth_token = "s3cret";
}

abbrev server : FrpsConfig
server = record zero_frps {
  bind_port = pos 7000;
  auth_token = "t0ken";
  dashboard_enabled = true;
  dashboard_port = pos 7500;
}

abbrev rows : List (Entry Value)
rows =
    record { key = codes "frpc.serverConn"; value = conn home }
    ∷ record { key = codes "frps.config"; value = frps server }
    ∷ record {
      key = codes "frps.dashboard.autogen";
      value = creds (record { user = "admin"; pass = "x9" });
    }
    ∷ []

rows_unique : KeysUnique rows
unfolding has_key text_eq
rows_unique = (refl, (refl, (refl, tt)))

unfoldable filled_store : store.State
unfolding sqlite_store
filled_store = record { rows = rows; keys_unique = rows_unique }

stored_conn : store.value_at filled_store kv_frpc_server_cfg ≡ some (conn home)
unfolding sqlite_store filled_store select_value kv_frpc_server_cfg text_eq
stored_conn = refl

stored_frps : store.value_at filled_store kv_frps_config ≡ some (frps server)
unfolding sqlite_store filled_store select_value kv_frps_config text_eq
stored_frps = refl

-- what a browser sends back
abbrev edited : FrpcServerConn
edited = record home { server_port = pos 7001; auth_token = "***" }

abbrev edited_server : FrpsConfig
edited_server = record server { auth_token = "***" }

shown_conn : edited.auth_token ≡ (get_client store json healthy false filled_store).auth_token
unfolding sqlite_store filled_store get_client kv_frpc_server_cfg text_eq
shown_conn = refl

shown_frps :
    edited_server.auth_token ≡ (get_server store json healthy false filled_store).auth_token
unfolding sqlite_store filled_store get_server kv_frps_config text_eq
shown_frps = refl

valid_conn : check_conn edited ≡ none
unfolding check_conn validate_port
valid_conn = refl

valid_frps : check_frps (with_ports edited_server) ≡ none
unfolding check_frps validate_port
valid_frps = refl

put-get_token_example :
    (store.value_at (put_client store json healthy (some edited) filled_store).0 kv_frpc_server_cfg
      ≡ (if text_eq kv_frpc_server_cfg kv_frpc_server_cfg
          then some (conn (record edited { auth_token = home.auth_token }))
          else store.value_at filled_store kv_frpc_server_cfg))
    × (store.value_at
          (put_server store json healthy (some edited_server) filled_store).0
          kv_frpc_server_cfg
        ≡ (if text_eq kv_frps_config kv_frpc_server_cfg
            then some (frps (record (with_ports edited_server) { auth_token = server.auth_token }))
            else store.value_at filled_store kv_frpc_server_cfg))
put-get_token_example =
    put-get_token store json healthy healthy filled_store home edited server edited_server
      stored_conn stored_frps (λ k. refl) (λ k. refl) (λ k. refl) valid_conn valid_frps shown_conn
      shown_frps kv_frpc_server_cfg

abbrev calls : WriteEnv
calls = record {
  fails = λ e. false;
  temp = ".frpconf-1.tmp";
  temp_mode = 384;
  partial = 0;
  cleanup_fails = false;
}

abbrev env : String → ConfigEnv
env path = record {
  path = some path;
  log_path = "";
  admin = record { addr = "127.0.0.1"; port = pos 7400; user = "admin"; pass = "x" };
  has_procmgr = true;
  write = calls;
}

abbrev disk : Fs
disk q = none

abbrev ssh : Proxy
ssh = record {
  id = 1;
  name = "ssh";
  kind = "tcp";
  local_ip = "127.0.0.1";
  local_port = pos 22;
  remote_port = some (pos 6022);
  custom_domains = [];
  enabled = true;
  version = 1;
  updated_at = 0;
}

ssh_shape : validate_proxy_shape ssh ≡ none
unfolding validate_proxy_shape
ssh_shape = refl

valid_home : check_conn home ≡ none
unfolding check_conn validate_port
valid_home = refl

put_client-IsWritten_example :
    IsWritten store json
      (λ (r : FrpcRoot). some (codes "toml"))
      (env "frpc.toml")
      "frpc.toml"
      home
      (ssh ∷ record ssh { name = "off"; enabled = false } ∷ [])
      (render_and_apply_frpc store json
        (λ (r : FrpcRoot). some (codes "toml"))
        (env "frpc.toml")
        healthy
        (put_client store json healthy (some home) filled_store).0
        (ok (ssh ∷ record ssh { name = "off"; enabled = false } ∷ []))
        disk)
unfolding validate_proxy_shape
put_client-IsWritten_example =
    put_client-IsWritten store json (λ r. some (codes "toml")) (env "frpc.toml") "frpc.toml" disk
      (λ e. refl) refl refl refl (λ r. (codes "toml", refl)) healthy healthy filled_store home
      (ssh ∷ record ssh { name = "off"; enabled = false } ∷ []) refl valid_home refl refl
      (ssh_shape, (ssh_shape, tt)) refl refl

frps_done :
    (render_and_apply_frps store json
      (λ (r : FrpsRoot). some (codes "toml"))
      (env "frps.toml")
      healthy
      filled_store
      disk).error
    ≡ none
unfolding render_and_apply_frps filled_store sqlite_store kv_frps_config kv_frps_dashboard_autogen
    text_eq atomic_write auth_section allow_ports_section
frps_done = refl

resolve_frps_dashboard-Names_example :
    Names store json
      (λ (r : FrpsRoot). some (codes "toml"))
      (env "frps.toml")
      "frps.toml"
      disk
      (resolve_frps_dashboard store json healthy filled_store)
      (render_and_apply_frps store json
        (λ (r : FrpsRoot). some (codes "toml"))
        (env "frps.toml")
        healthy
        filled_store
        disk).fs
resolve_frps_dashboard-Names_example =
    resolve_frps_dashboard-Names store json (λ r. some (codes "toml")) (env "frps.toml") "frps.toml"
      disk healthy filled_store refl refl refl frps_done
