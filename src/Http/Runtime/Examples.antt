-- ===== src/Http/Runtime/Examples.antt =====
-- internal/httpapi/handlers_server_runtime.go where frps lists two types and is gone for the others.
use frp_easy.Prelude.{pos, some, none, Text, codes, text_eq, if◌then◌else◌}
use frp_easy.Http.Settings.{Dashboard, resolved}
use frp_easy.Http.Runtime.{Answer, answered, unreached, frps_proxy_types, server_runtime_proxies}
use frp_easy.Http.Runtime.Parts.{Told, server_runtime_proxies-Told}

abbrev dashboard : Dashboard
dashboard = record {
  addr = "127.0.0.1";
  port = pos 7500;
  creds = record { user = "admin"; pass = "x9" };
}

abbrev frps : Dashboard → Text → Answer
frps d path =
    if text_eq path (codes "/api/proxy/tcp")
    then answered 200 (some (codes "[]"))
    else if text_eq path (codes "/api/proxy/udp")
    then answered 404 none
    else unreached

server_runtime_proxies-Told_example :
    Told frps codes
      (λ t. some t)
      dashboard
      frps_proxy_types
      (server_runtime_proxies frps codes (λ t. some t) (resolved dashboard))
server_runtime_proxies-Told_example = server_runtime_proxies-Told frps codes (λ t. some t) dashboard
