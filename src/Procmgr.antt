-- ===== src/Procmgr.antt =====
-- internal/procmgr/manager.go: the sections of its methods that hold the mutex, for one kind of
-- process. The two kinds have each a state of their own and no section touches both.
pub mod Interleaving
pub mod Calls
pub mod Tail
pub mod Examples
use frp_easy.Prelude.{
  ℕ, Bool, true, false, not, ◌&&◌, ◌||◌, Option, none, some, List, [], ◌∷◌, String, str_eq,
  if◌then◌else◌,
}

pub data State : Type 0 where
  stopped starting running stopping error : State

-- `child` stands for the fields cmd, cancel and doneCh, which are set and cleared together; a child is
-- known by its pid
pub record ProcessState : Type 0 where
  pub state : State
  pub pid : ℕ
  pub last_err : String
  pub child : Option ℕ

-- New
unfoldable pub new_process : ProcessState
new_process = record { state = stopped; pid = 0; last_err = ""; child = none }

-- validateKind
unfoldable pub validate_kind : String → Bool
validate_kind kind = str_eq kind "frpc" || str_eq kind "frps"

-- What Start meets outside: the binary's path, the path of the configuration, the log directory, and
-- the fork with its pid or its error.
pub record Launch : Type 0 where
  pub bin_found : Bool
  pub config_path : String
  pub log_path : String
  pub mkdir_ok : Bool
  pub fork_pid : Option ℕ
  pub fork_error : String

pub data StartResult : Type 0 where
  already_active busy bin_missing no_config mkdir_failed fork_failed : StartResult
  started : ℕ → StartResult

abbrev pub forked : Launch → ProcessState → Option ℕ → ProcessState × StartResult
forked l ps none = (record ps { state = error; last_err = l.fork_error }, fork_failed)
forked l ps (some pid) =
    (record { state = starting; pid = pid; last_err = ""; child = some pid }, started pid)

abbrev pub launch : Launch → ProcessState → ProcessState × StartResult
launch l ps =
    if not l.bin_found
    then (ps, bin_missing)
    else if str_eq l.config_path ""
    then (ps, no_config)
    else if not (str_eq l.log_path "") && not l.mkdir_ok
    then (ps, mkdir_failed)
    else forked l ps l.fork_pid

-- the locked section of Start; the switch on the state comes first
unfoldable pub start_section : Launch → ProcessState → State → ProcessState × StartResult
start_section l ps starting = (ps, already_active)
start_section l ps running = (ps, already_active)
start_section l ps stopping = (ps, busy)
start_section l ps stopped = launch l ps
start_section l ps error = launch l ps

unfoldable pub start : Launch → ProcessState → ProcessState × StartResult
unfolding start_section
start l ps = start_section l ps ps.state

pub data Stable : Type 0 where
  is_stable exited_early disappeared : Stable

-- one look of the loop of waitUntilStable: an error ends it
unfoldable pub stable_poll : State → Option Stable
stable_poll error = some exited_early
stable_poll stopped = some disappeared
stable_poll _ = none

abbrev pub promoted : ProcessState → State → ProcessState × Stable
promoted ps starting = (record ps { state = running }, is_stable)
promoted ps error = (ps, exited_early)
promoted ps _ = (ps, is_stable)

-- the locked section at the end of waitUntilStable
unfoldable pub stable_section : ProcessState → ProcessState × Stable
stable_section ps = promoted ps ps.state

abbrev pub stop_with : ProcessState → State → Option ℕ → ProcessState × Option ℕ
stop_with ps stopped _ = (ps, none)
stop_with ps _ none = (ps, none)
stop_with ps _ (some c) = (record ps { state = stopping }, some c)

-- the first locked section of Stop: the child to kill, or none where Stop returns at once
unfoldable pub stop_begin : ProcessState → ProcessState × Option ℕ
stop_begin ps = stop_with ps ps.state ps.child

-- the last locked section of Stop
unfoldable pub stop_end : ProcessState → ProcessState
stop_end ps = record ps { state = stopped; pid = 0; child = none }

abbrev pub is_stopping : State → Bool
is_stopping stopping = true
is_stopping _ = false

-- supervise after a failed Wait: it leaves the state to Stop if it sees `stopping`
unfoldable pub supervise_leaves : ProcessState → Bool
supervise_leaves ps = is_stopping ps.state

-- the last locked section of supervise, with the error of Wait if there was one
unfoldable pub supervise_end : Option String → ProcessState → ProcessState
supervise_end none ps = record { state = stopped; pid = 0; last_err = ""; child = none }
supervise_end (some e) ps = record { state = error; pid = 0; last_err = e; child = none }
