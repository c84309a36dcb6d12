-- ===== src/Procmgr/Calls.antt =====
-- Whole calls of internal/procmgr/manager.go for one kind, one call at a time: Stop, Start with
-- waitUntilStable, Restart, ApplyConfigChange and Shutdown, beside what the child does meanwhile.
pub mod Applied
use frp_easy.Prelude.{
  ℕ, ◌≡◌, refl, ◌⊎◌, inl, inr, Bool, true, false, not, Option, none, some, List, [], ◌∷◌, String,
  str_eq, if◌then◌else◌, Bool-cases, arith,
}
use frp_easy.Procmgr.{
  State, stopped, starting, running, stopping, error, ProcessState, validate_kind, Launch,
  StartResult, already_active, started, start, start_section, Stable, is_stable, exited_early,
  disappeared, stable_poll, stable_section, stop_begin, stop_end, supervise_leaves, supervise_end,
}
use frp_easy.Procmgr.Interleaving.{Coherent}

-- what a child does in a stretch of time: it goes on, or Wait returns, with its error
pub data Event : Type 0 where
  quiet : Event
  exits : Option String → Event

abbrev pub child_exits : Option String → ProcessState → Option ℕ → ProcessState
child_exits o ps none = ps
child_exits none ps (some c) = supervise_end none ps
child_exits (some e) ps (some c) = if supervise_leaves ps then ps else supervise_end (some e) ps

-- supervise from the return of Wait on
unfoldable pub happens : Event → ProcessState → ProcessState
unfolding supervise_end supervise_leaves
happens quiet ps = ps
happens (exits o) ps = child_exits o ps ps.child

abbrev pub stop_from : Event → ProcessState × Option ℕ → ProcessState
stop_from e (ps, none) = ps
stop_from e (ps, some c) = stop_end (happens e ps)

-- (*Manager).Stop of a valid kind; `e` is what the child does before the wait for it is over
unfoldable pub stop : Event → ProcessState → ProcessState
unfolding stop_begin stop_end happens
stop e ps = stop_from e (stop_begin ps)

-- waitUntilStable, with the sleeps of 100 ms that its 3 seconds leave
unfoldable pub wait_until_stable : List Event → ProcessState → ProcessState × Stable
unfolding stable_poll stable_section happens
wait_until_stable [] ps = stable_section ps
wait_until_stable (e ∷ es) ps =
    let rest = wait_until_stable es (happens e ps) in
    elim (stable_poll ps.state) [ some r ↦ (ps, r) | none ↦ rest ]

pub data CallError : Type 0 where
  bad_kind : CallError
  start_refused : StartResult → CallError
  not_stable : Stable → CallError

abbrev pub stable_error : Stable → Option CallError
stable_error is_stable = none
stable_error s = some (not_stable s)

abbrev pub settle : ProcessState × Stable → ProcessState × Option CallError
settle (ps, s) = (ps, stable_error s)

abbrev pub start_from : List Event → ProcessState × StartResult → ProcessState × Option CallError
start_from es (ps, started c) = settle (wait_until_stable es ps)
start_from es (ps, already_active) = (ps, none)
start_from es (ps, r) = (ps, some (start_refused r))

-- (*Manager).Start of a valid kind
unfoldable pub start_and_wait : Launch → List Event → ProcessState → ProcessState × Option CallError
unfolding start wait_until_stable
start_and_wait l es ps = start_from es (start l ps)

-- (*Manager).Restart of a valid kind
unfoldable pub restart :
    Event → Launch → List Event → ProcessState → ProcessState × Option CallError
unfolding stop start_and_wait
restart e l es ps = start_and_wait l es (stop e ps)

-- neither at work nor on its way
abbrev pub is_halted : State → Bool
is_halted stopped = true
is_halted error = true
is_halted _ = false

abbrev is_running : State → Bool
is_running running = true
is_running _ = false

-- what ApplyConfigChange meets: the answer of the reloader, if there is one, what the child does
-- before that answer, and what Restart meets
pub record Change : Type 0 where
  pub reload : Option Bool
  pub at_reload : Event
  pub at_stop : Event
  pub launch : Launch
  pub sleeps : List Event

abbrev pub restart_for : Change → ProcessState → ProcessState × Option CallError
restart_for x ps = restart x.at_stop x.launch x.sleeps ps

abbrev pub reload_frpc : Change → ProcessState → Option Bool → ProcessState × Option CallError
reload_frpc x ps none = restart_for x ps
reload_frpc x ps (some true) = (happens x.at_reload ps, none)
reload_frpc x ps (some false) = restart_for x (happens x.at_reload ps)

-- the switch on the kind in ApplyConfigChange
unfoldable pub change_running : String → Change → ProcessState → ProcessState × Option CallError
unfolding happens restart
change_running kind x ps =
    if str_eq kind "frpc" then reload_frpc x ps x.reload else restart_for x ps

-- (*Manager).ApplyConfigChange
unfoldable pub apply_config_change :
    String → Change → ProcessState → ProcessState × Option CallError
apply_config_change kind x ps =
    if not (validate_kind kind)
    then (ps, some bad_kind)
    else if not (is_running ps.state)
    then (ps, none)
    else change_running kind x ps

-- the states of frpc and of frps
pub record Manager : Type 0 where
  pub frpc : ProcessState
  pub frps : ProcessState

-- (*Manager).Shutdown
unfoldable pub shutdown : Event → Event → Manager → Manager
unfolding stop
shutdown e e' m = record { frpc = stop e m.frpc; frps = stop e' m.frps }
