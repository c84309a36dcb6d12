-- ===== src/Storage/Proxies/Examples.antt =====
-- internal/storage/proxies.go with SQLite's texts, on a table of one tcp rule.
use frp_easy.Prelude.{
  All, inl, ◌≡◌, refl, pos, true, false, none, some, [], ◌∷◌, Text, codes, arith, ok, err,
}
use frp_easy.Storage.Proxies.Schema.{
  Row, has_name, has_remote, find_row, replace_row, others, violated, Table, Constraint,
  check_failed, unique_name, unique_remote_port, insert_row, update_row, check_row,
}
use frp_easy.Storage.Proxies.Errors.{
  Driver, contains, is_duplicate_name_error, is_duplicate_remote_port_error,
}
use frp_easy.Storage.Proxies.Shaped.{IsShaped}
use frp_easy.Storage.Proxies.{
  Proxy, validate_proxy_shape, to_row, update_proxy, update_found, after_update, classify,
  fill_updated_at, insert_proxy, after_insert, StoreError, healthy, upsert_proxy, get_proxy,
  duplicate_remote_port,
}
use frp_easy.Storage.Proxies.PlainCodec.{plain_domains}
use frp_easy.Storage.Proxies.Rows.{IsTable, any_clash}
use frp_easy.Storage.Proxies.Upsert.{upsert_proxy-IsTable, upsert_proxy_error}
use frp_easy.Storage.Proxies.Versions.{stored, no_lost_update, get_proxy-upsert_proxy}

abbrev pub sqlite_message : Constraint → Text
sqlite_message check_failed = codes "CHECK constraint failed: name <> ''"
sqlite_message unique_name = codes "UNIQUE constraint failed: proxies.name"
sqlite_message unique_remote_port =
    codes "UNIQUE constraint failed: proxies.type, proxies.remote_port"

unfoldable pub sqlite_driver : Driver
unfolding is_duplicate_name_error is_duplicate_remote_port_error contains
sqlite_driver = record {
  name_first = true;
  message = sqlite_message;
  io_message = codes "disk I/O error";
  name_text = refl;
  remote_text = refl;
  remote_text_no_name = refl;
  check_text = refl;
  io_text = refl;
}

abbrev pub ssh : Proxy
ssh = record {
  id = 1;
  name = "ssh";
  kind = "tcp";
  local_ip = "";
  local_port = pos 22;
  remote_port = some (pos 6000);
  custom_domains = [];
  enabled = true;
  version = 3;
  updated_at = 0;
}

abbrev pub ssh_row : Row
ssh_row = record {
  id = 1;
  name = "ssh";
  kind = "tcp";
  local_ip = "127.0.0.1";
  local_port = pos 22;
  remote_port = some (pos 6000);
  custom_domains = none;
  enabled = true;
  version = 3;
  updated_at = 5;
}

abbrev pub one_rule : Table
one_rule = record { rows = ssh_row ∷ []; last_id = 1 }

one_rule-IsTable : IsTable one_rule
unfolding check_row any_clash
one_rule-IsTable = record { checked = (refl, tt); separate = (refl, tt); used = (omega arith, tt) }

ssh_row-IsShaped : IsShaped plain_domains ssh_row
ssh_row-IsShaped = record { named = refl; port = refl; domains = inl refl }

upsert_proxy-IsTable_example :
    IsTable (upsert_proxy sqlite_driver plain_domains healthy 9 ssh one_rule).0
    × All
        (IsShaped plain_domains)
        (upsert_proxy sqlite_driver plain_domains healthy 9 ssh one_rule).0.rows
upsert_proxy-IsTable_example =
    upsert_proxy-IsTable sqlite_driver plain_domains healthy 9 ssh one_rule one_rule-IsTable
      (ssh_row-IsShaped, tt)

-- the same rule disabled, and a second rule on the same port
abbrev pub ssh_off : Proxy
ssh_off = record ssh { enabled = false }

abbrev pub ssh_written : Table
ssh_written = record {
  rows = record ssh_row { enabled = false; version = 4; updated_at = 9 } ∷ [];
  last_id = 1;
}

abbrev pub ssh_answer : Proxy
ssh_answer = record ssh_off { version = 4; updated_at = 9 }

abbrev pub ssh_other : Proxy
ssh_other = record ssh { id = 0; name = "ssh2" }

update_run :
    upsert_proxy sqlite_driver plain_domains healthy 9 ssh_off one_rule
    ≡ (ssh_written, ok ssh_answer)
unfolding upsert_proxy validate_proxy_shape update_proxy update_found find_row after_update
    update_row violated check_row to_row has_name others has_remote replace_row fill_updated_at
update_run = refl

clash_run :
    upsert_proxy sqlite_driver plain_domains healthy 9 ssh_other one_rule
    ≡ (one_rule, err duplicate_remote_port)
unfolding upsert_proxy validate_proxy_shape insert_proxy after_insert insert_row violated check_row
    to_row has_name has_remote classify is_duplicate_name_error sqlite_driver
clash_run = refl

upsert_proxy_error_example : one_rule ≡ one_rule
upsert_proxy_error_example =
    upsert_proxy_error sqlite_driver plain_domains healthy 9 ssh_other one_rule refl clash_run

no_lost_update_example :
    (e : StoreError) × (upsert_proxy sqlite_driver plain_domains healthy 10 ssh ssh_written
      ≡ (ssh_written, err e))
no_lost_update_example =
    no_lost_update sqlite_driver plain_domains 9 ssh_off one_rule healthy healthy 10 ssh ssh_answer
      ssh_written refl refl refl update_run

get_proxy-upsert_proxy_example :
    get_proxy sqlite_driver plain_domains healthy 1 ssh_written
    ≡ ok (stored sqlite_driver plain_domains 9 ssh_off 1 4)
get_proxy-upsert_proxy_example =
    get_proxy-upsert_proxy sqlite_driver plain_domains 9 ssh_off one_rule ssh_answer ssh_written
      one_rule-IsTable update_run
