-- ===== src/Http/Runtime.antt =====
-- internal/frpsadmin/client.go, and the handlers of internal/httpapi/handlers_server_runtime.go that
-- call frps by it. What answers a request is a parameter; texts of messages are left out.
pub mod Parts
pub mod Examples
use frp_easy.Prelude.{
  ℕ, ◌+◌, ◌==◌, leb, Bool, true, false, not, ◌&&◌, ◌||◌, Option, none, some, List, [], ◌∷◌, ◌++◌,
  String, str_eq, Text, codes, Result, ok, err, if◌then◌else◌, take, length,
}
use frp_easy.Http.Errors.{Refusal, refusal, validation_failed, not_found, internal}
use frp_easy.Http.Settings.{Resolved, disabled, no_creds, resolved, Dashboard}

pub data AdminError : Type 0 where
  unauthorized missing unavailable unexpected_status unreadable : AdminError

-- what http.Client.Do gives for a request: an error, or a status with the body that can be read
pub data Answer : Type 0 where
  unbuilt unreached : Answer
  answered : ℕ → Option Text → Answer

module _ {A : Type 0} (decode : Text → Option A) where
  abbrev pub decoded : Option A → Result AdminError A
  decoded none = err unreadable
  decoded (some a) = ok a

  -- at most 1 MiB of the body is read
  abbrev pub body_of : Option Text → Result AdminError A
  body_of none = err unreadable
  body_of (some b) = decoded (decode (take 1048576 b))

  -- (*Client).doGet on what the request has met
  unfoldable pub do_get : Answer → Result AdminError A
  do_get unbuilt = err unreadable
  do_get unreached = err unavailable
  do_get (answered status body) =
      if status == 200
      then body_of body
      else if status == 401
      then err unauthorized
      else if status == 404
      then err missing
      else if leb 500 status
      then err unavailable
      else err unexpected_status

-- frpsProxyTypes
unfoldable pub frps_proxy_types : List String
frps_proxy_types = "tcp" ∷ "udp" ∷ "http" ∷ "https" ∷ "stcp" ∷ "sudp" ∷ "xtcp" ∷ []

-- writeFrpsadminError
unfoldable pub write_frpsadmin_error : AdminError → Refusal
write_frpsadmin_error unauthorized = refusal 502 internal ""
write_frpsadmin_error missing = refusal 404 not_found ""
write_frpsadmin_error unavailable = refusal 503 internal ""
write_frpsadmin_error _ = refusal 502 internal ""

abbrev pub is_fatal : AdminError → Bool
is_fatal unauthorized = true
is_fatal unavailable = true
is_fatal _ = false

unfoldable pub is_in : String → List String → Bool
is_in pt [] = false
is_in pt (t ∷ ts) = let rest = is_in pt ts in if str_eq t pt then true else rest

-- isFrpsProxyType
unfoldable pub is_frps_proxy_type : String → Bool
is_frps_proxy_type pt = is_in pt frps_proxy_types

-- buildFrpsAdminClient: the dashboard to call, or the refusal
unfoldable pub build_frps_admin_client : Resolved → Result Refusal Dashboard
build_frps_admin_client disabled = err (refusal 503 internal "")
build_frps_admin_client no_creds = err (refusal 503 internal "")
build_frps_admin_client (resolved d) = ok d

-- the two maps of the reply, the number of fatal errors, and the first of them
pub record Tally (A : Type 0) : Type 0 where
  pub proxies : List (String × A)
  pub errors : List (String × AdminError)
  pub fatal : ℕ
  pub first : Option AdminError

-- frps by its dashboard and the path of the request, and url.PathEscape
module _ (frps : Dashboard → Text → Answer) (escape : String → Text) {A : Type 0}
    (decode : Text → Option A) where
  -- (*Client).Proxies; a missing array is decoded as an empty one
  unfoldable pub proxies : Dashboard → String → Result AdminError A
  proxies d t = do_get decode (frps d (codes "/api/proxy/" ++ escape t))

  -- (*Client).ProxyDetail
  unfoldable pub proxy_detail : Dashboard → String → String → Result AdminError A
  proxy_detail d t name =
      do_get decode (frps d (codes "/api/proxy/" ++ escape t ++ codes "/" ++ escape name))

  abbrev pub add : String → Result AdminError A → Tally A → Tally A
  add t (ok ps) r = record r { proxies = (t, ps) ∷ r.proxies }
  add t (err e) r =
      if is_fatal e
      then record {
        proxies = r.proxies;
        errors = (t, e) ∷ r.errors;
        fatal = r.fatal + 1;
        first = some e;
      }
      else record r { errors = (t, e) ∷ r.errors }

  -- the loop over the types
  unfoldable pub aggregate : Dashboard → List String → Tally A
  aggregate d [] = record { proxies = []; errors = []; fatal = 0; first = none }
  aggregate d (t ∷ ts) = add t (proxies d t) (aggregate d ts)

  abbrev pub replied : Tally A → ℕ → Option AdminError → Result Refusal (Tally A)
  replied r n none = ok r
  replied r n (some e) = if r.fatal == n then err (write_frpsadmin_error e) else ok r

  abbrev pub runtime_proxies_of : Result Refusal Dashboard → Result Refusal (Tally A)
  runtime_proxies_of (err e) = err e
  runtime_proxies_of (ok d) =
      let r = aggregate d frps_proxy_types in replied r (length frps_proxy_types) r.first

  -- (*handlers).serverRuntimeProxies
  unfoldable pub server_runtime_proxies : Resolved → Result Refusal (Tally A)
  server_runtime_proxies x = runtime_proxies_of (build_frps_admin_client x)

  abbrev pub shown : Result AdminError A → Result Refusal A
  shown (ok a) = ok a
  shown (err e) = err (write_frpsadmin_error e)

  abbrev pub detail_of : String → String → Result Refusal Dashboard → Result Refusal A
  detail_of t name (err e) = err e
  detail_of t name (ok d) = shown (proxy_detail d t name)

  -- (*handlers).serverRuntimeProxyDetail
  unfoldable pub server_runtime_proxy_detail : Resolved → String → String → Result Refusal A
  server_runtime_proxy_detail x t name =
      if not (is_frps_proxy_type t)
      then err (refusal 422 validation_failed "type")
      else detail_of t name (build_frps_admin_client x)
