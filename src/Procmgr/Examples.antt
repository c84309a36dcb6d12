-- ===== src/Procmgr/Examples.antt =====
-- A run of internal/procmgr/manager.go: a child is started and settles, and is started anew after a
-- change of its configuration; and the last lines of another.
use frp_easy.Prelude.{◌≡◌, none, false, refl, true, some, [], ◌∷◌}
use frp_easy.Procmgr.{
  Launch, start, start_section, new_process, stable_section, stable_poll, stop_begin, stop_end,
  supervise_end, validate_kind,
}
use frp_easy.Procmgr.Interleaving.{
  World, Reach, here, next, forks, settles, initial, Coherent, Known, Reach-Coherent,
}
use frp_easy.Procmgr.Calls.{
  Change, quiet, exits, apply_config_change, change_running, happens, restart, stop, start_and_wait,
  wait_until_stable,
}
use frp_easy.Procmgr.Calls.Applied.{Applied, apply_config_change-Applied}
use frp_easy.Procmgr.Tail.{IsTail, push_all, new_ring_buffer, push_all-new_ring_buffer}

abbrev pub frpc_launch : Launch
frpc_launch = record {
  bin_found = true;
  config_path = "frpc.toml";
  log_path = "frpc.log";
  mkdir_ok = true;
  fork_pid = some 4711;
  fork_error = "";
}

abbrev pub settled : World
settled = record initial {
  ps = (stable_section (start frpc_launch new_process).0).0;
  live = 4711 ∷ [];
}

settled-Reach : Reach settled
unfolding start start_section new_process stable_section
settled-Reach = next (next here (forks frpc_launch 4711 refl)) settles

Reach-Coherent_example : Coherent settled.ps × Known settled
Reach-Coherent_example = Reach-Coherent settled-Reach

-- the reload is refused, so the process is started anew
abbrev change : Change
change = record {
  reload = some false;
  at_reload = quiet;
  at_stop = exits none;
  launch = record frpc_launch { fork_pid = some 4712 };
  sleeps = quiet ∷ quiet ∷ [];
}

changed : (apply_config_change "frpc" change settled.ps).1 ≡ none
unfolding apply_config_change change_running happens restart stop start_and_wait wait_until_stable
    start start_section new_process stable_section stable_poll stop_begin stop_end supervise_end
    validate_kind
changed = refl

apply_config_change-Applied_example :
    Applied "frpc" change settled.ps (apply_config_change "frpc" change settled.ps).0
unfolding start start_section new_process stable_section
apply_config_change-Applied_example =
    apply_config_change-Applied "frpc" change settled.ps refl refl changed

push_all-new_ring_buffer_example :
    IsTail 2 ("a" ∷ "b" ∷ "c" ∷ []) (push_all ("a" ∷ "b" ∷ "c" ∷ []) (new_ring_buffer 2)).buf
push_all-new_ring_buffer_example = push_all-new_ring_buffer 2 ("a" ∷ "b" ∷ "c" ∷ [])
