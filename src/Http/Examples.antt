-- ===== src/Http/Examples.antt =====
-- internal/httpapi on sample requests.
use frp_easy.Prelude.{
  ℕ, suc, ◌≡◌, refl, pos, Bool, true, false, Option, none, some, [], ◌∷◌, String, Text, Result, ok,
}
use frp_easy.Storage.Sessions.{Session, SessionError, get_session}
use frp_easy.Storage.Sessions.Examples.{plain_clock, works, session_row}
use frp_easy.Storage.Proxies.Schema.{
  insert_row, violated, check_row, has_name, has_remote, find_row,
}
use frp_easy.Storage.Proxies.Errors.{is_duplicate_name_error}
use frp_easy.Storage.Proxies.{
  validate_proxy_shape, healthy, list_proxies, upsert_proxy, insert_proxy, after_insert, to_row,
  classify, scan_proxy, update_proxy, update_found,
}
use frp_easy.Storage.Proxies.Examples.{sqlite_driver, one_rule}
use frp_easy.Storage.Proxies.PlainCodec.{plain_domains}
use frp_easy.Http.Validate.{
  validate_proxy_name, proxy_name_re, validate_proxy_type, validate_port, validate_domain,
  domain_re,
}
use frp_easy.Http.Proxies.{
  ProxyInput, build_proxy_for_insert, build_proxy_for_update, create_checked, map_proxy_write_error,
  validate_proxy_input, new_proxy, create_proxy, handle_update, kind_rules, validate_domains,
}
use frp_easy.Http.Proxies.Accepted.{new_proxy-Shape}
use frp_easy.Http.Proxies.Replies.{create_proxy_error, succeeds}
use frp_easy.Http.Redact.{Json, object, array, string, number, field, no_fields, item, no_items}
use frp_easy.Http.Middleware.{Request, Handler, Answered, protected, protected-Answered}

abbrev pub trim : String → String
trim s = s

abbrev pub low : Text → Text
low t = t

abbrev pub web : ProxyInput
web = record {
  name = "web";
  kind = "http";
  local_ip = "";
  local_port = pos 8080;
  remote_port = none;
  custom_domains = "a.example.org" ∷ [];
  enabled = none;
  version = pos 0;
}

web_run : validate_proxy_input web ≡ none
unfolding validate_proxy_input validate_proxy_name proxy_name_re validate_proxy_type validate_port
    kind_rules validate_domains validate_domain domain_re
web_run = refl

new_proxy-Shape_example :
    validate_proxy_shape (new_proxy sqlite_driver plain_domains trim low web) ≡ none
new_proxy-Shape_example = new_proxy-Shape sqlite_driver plain_domains trim low web web_run

-- a second rule on the port of the first, and an update with an old version
abbrev pub second_ssh : ProxyInput
second_ssh = record {
  name = "ssh2";
  kind = "tcp";
  local_ip = "";
  local_port = pos 22;
  remote_port = some (pos 6000);
  custom_domains = [];
  enabled = none;
  version = pos 2;
}

create_run :
    succeeds
      (create_proxy sqlite_driver plain_domains trim low healthy 9 (some second_ssh) one_rule).1
    ≡ false
unfolding create_proxy build_proxy_for_insert validate_proxy_input validate_proxy_name proxy_name_re
    validate_proxy_type validate_port kind_rules create_checked list_proxies upsert_proxy
    validate_proxy_shape new_proxy insert_proxy after_insert insert_row violated check_row to_row
    has_name has_remote classify is_duplicate_name_error sqlite_driver map_proxy_write_error
    scan_proxy
create_run = refl

update_run :
    succeeds
      (handle_update sqlite_driver plain_domains trim low healthy 9
        (some (pos 1))
        (some second_ssh)
        one_rule).1
    ≡ false
unfolding handle_update build_proxy_for_update build_proxy_for_insert validate_proxy_input
    validate_proxy_name proxy_name_re validate_proxy_type validate_port kind_rules upsert_proxy
    validate_proxy_shape new_proxy update_proxy update_found find_row map_proxy_write_error
update_run = refl

create_proxy_error_example :
    (create_proxy sqlite_driver plain_domains trim low healthy 9 (some second_ssh) one_rule).0
    ≡ one_rule
create_proxy_error_example =
    create_proxy_error sqlite_driver plain_domains trim low healthy 9 (some second_ssh) one_rule
      refl create_run

-- a handler that counts, behind the protected chain
abbrev pub counts : Handler ℕ ℕ
counts ctx r s = (suc s, ok s)

abbrev pub sessions_at : ℕ → String → Result SessionError Session
sessions_at s token = get_session plain_clock works 200 token (session_row ∷ [])

abbrev pub post : Request
post = record { method = "POST"; cookie = some "t1"; csrf_header = "c1" }

abbrev pub is_ready : ℕ → Option Bool
is_ready s = some true

protected-Answered_example :
    Answered sessions_at counts post 3 (protected is_ready sessions_at counts none post 3)
protected-Answered_example = protected-Answered is_ready sessions_at counts none post 3

-- a login's body, with the test of the case of letters that the keys here need
abbrev pub login_body : Json
login_body = object (
    field "user" (string "admin") (
      field "password" (string "hunter2") (
        field "extra" (array (item (object (field "token" (number "7") no_fields)) no_items))
          no_fields)))
