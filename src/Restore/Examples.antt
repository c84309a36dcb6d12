-- ===== src/Restore/Examples.antt =====
-- A start and a stop by internal/httpapi/handlers_proc.go on an empty store, and the next start of
-- cmd/frp-easy/main.go.
use frp_easy.Prelude.{ℕ, ◌+◌, ◌≡◌, refl, Bool, true, false, none, List, [], ◌∷◌, length}
use frp_easy.Storage.Kv.{healthy}
use frp_easy.Storage.KvStore.{KvStore, sqlite_store}
use frp_easy.Storage.Kv.Examples.{ascii_operator}
use frp_easy.Procmgr.{new_process, validate_kind, start, start_section, stable_section, stable_poll}
use frp_easy.Procmgr.Calls.{
  Change, apply_config_change, quiet, start_and_wait, wait_until_stable, happens,
}
use frp_easy.Procmgr.Examples.{frpc_launch}
use frp_easy.Http.Processes.{ModeText, Call, apply_config_best_effort, proc_start, proc_stop}
use frp_easy.Restore.{Attempt, Try, Pause, run_start, retry_restore_loop, auto_restore_procs}
use frp_easy.Restore.Left.{Started, Ended, retry_restore_loop-Ended, auto_restore-Left}

abbrev modes : ModeText Bool
modes = record { format_bool = λ b. b; parse_bool = λ b. b; parse_bool-format_bool = λ b. refl }

abbrev store : KvStore Bool
store = sqlite_store ascii_operator

unfoldable empty_store : store.State
unfolding sqlite_store
empty_store = record { rows = []; keys_unique = tt }

abbrev change : Change
change = record {
  reload = none;
  at_reload = quiet;
  at_stop = quiet;
  launch = frpc_launch;
  sleeps = [];
}

abbrev call : Call
call = record {
  is_missing = true;
  told = true;
  change = change;
  at_stop = quiet;
  launch = frpc_launch;
  sleeps = quiet ∷ [];
}

abbrev try : Try
try = record { launch = frpc_launch; sleeps = quiet ∷ quiet ∷ [] }

-- each retry finds no binary
abbrev pause : ℕ → Pause
pause d = record {
  ends = false;
  meanwhile = λ ps. ps;
  next = record { launch = record frpc_launch { bin_found = false }; sleeps = [] };
}

abbrev waits : List ℕ
waits = 5 ∷ 15 ∷ []

abbrev first : List Attempt
first = record { index = 0; succeeded = false } ∷ []

retry_restore_loop-Ended_example :
    Ended pause
      (length first + length waits)
      waits
      (retry_restore_loop pause waits 1 new_process first)
retry_restore_loop-Ended_example = retry_restore_loop-Ended pause waits 1 new_process first

begun : (proc_start store modes healthy "frpc" call empty_store new_process).1 ≡ none
unfolding proc_start apply_config_best_effort start_and_wait wait_until_stable happens start
    start_section new_process stable_section stable_poll validate_kind apply_config_change
begun = refl

again : (run_start try new_process).1 ≡ none
unfolding start_and_wait wait_until_stable happens start start_section new_process stable_section
    stable_poll
again = refl

auto_restore-Left_example :
    (auto_restore_procs pause store modes healthy "frpc" true true try
        (proc_stop store modes healthy "frpc" call empty_store new_process).0.0
        new_process
      ≡ (new_process, none))
    × Started try
        (auto_restore_procs pause store modes healthy "frpc" true true try
          (proc_start store modes healthy "frpc" call empty_store new_process).0.0
          new_process).0
unfolding new_process validate_kind
auto_restore-Left_example =
    auto_restore-Left pause store modes healthy healthy "frpc" call call try empty_store new_process
      new_process refl refl refl begun refl again
