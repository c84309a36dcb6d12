-- ===== src/Http/Processes.antt =====
-- internal/httpapi/handlers_proc.go and handlers_mode.go: the control of the processes over
-- Procmgr.Calls, and the mode that is kept in the key-value store. Of the rendering before a start
-- only the message to the process manager is here; Config has the rest.
use frp_easy.Prelude.{
  ◌≡◌, Bool, true, false, not, Option, none, some, List, String, Text, codes, ◌++◌, Result, ok, err,
  if◌then◌else◌,
}
use frp_easy.Storage.Kv.{Io, KvError}
use frp_easy.Storage.KvStore.{KvStore}
use frp_easy.Procmgr.{ProcessState, validate_kind, Launch, busy, bin_missing}
use frp_easy.Procmgr.Calls.{
  Event, Change, CallError, start_refused, Manager, stop, start_and_wait, restart,
  apply_config_change,
}
use frp_easy.Http.Errors.{
  Refusal, refusal, validation_failed, proc_busy, internal, bin_missing as code_bin_missing,
}

-- the text that is kept for a mode: strconv.FormatBool, ParseBool (false where it gives an error), and
-- the test for "true"
pub record ModeText (V : Type 0) : Type 0 where
  pub format_bool : Bool → V
  pub parse_bool : V → Bool
  pub parse_bool-format_bool : (b : Bool) → parse_bool (format_bool b) ≡ b

-- "mode." + kind + ".enabled", and the two constants
unfoldable pub mode_key : String → Text
mode_key kind = codes "mode." ++ codes kind ++ codes ".enabled"

pub record ModeState : Type 0 where
  pub frpc : Bool
  pub frps : Bool

-- what a handler meets outside: whether an error of the search for the binary is ErrBinMissing, whether the rendering tells the process manager, what the change then
-- comes to, and what the child and the fork do afterwards
pub record Call : Type 0 where
  pub is_missing : Bool
  pub told : Bool
  pub change : Change
  pub at_stop : Event
  pub launch : Launch
  pub sleeps : List Event

-- mapProcErr
unfoldable pub map_proc_err : Bool → CallError → Refusal
map_proc_err true (start_refused bin_missing) = refusal 422 code_bin_missing ""
map_proc_err m (start_refused busy) = refusal 409 proc_busy ""
map_proc_err m _ = refusal 500 internal ""

abbrev bad_proc_kind : Refusal
bad_proc_kind = refusal 400 validation_failed "kind"

-- applyConfigBestEffort, as far as the process sees it
unfoldable pub apply_config_best_effort : String → Call → ProcessState → ProcessState
apply_config_best_effort kind x ps = if x.told then (apply_config_change kind x.change ps).0 else ps

-- applyModeToProc
unfoldable pub apply_mode_to_proc : String → Bool → Call → ProcessState → ProcessState
apply_mode_to_proc kind true x ps =
    (start_and_wait x.launch x.sleeps (apply_config_best_effort kind x ps)).0
apply_mode_to_proc kind false x ps = stop x.at_stop ps

module _ {V : Type 0} (kv : KvStore V) (modes : ModeText V) where
  abbrev pub bool_of : Result KvError (Option V) → Bool
  bool_of (err e) = false
  bool_of (ok none) = false
  bool_of (ok (some v)) = modes.parse_bool v

  -- readBoolKV
  unfoldable pub read_bool_kv : Io → kv.State → String → Bool
  read_bool_kv io s kind = bool_of (kv.get io s (mode_key kind))

  -- (*handlers).getMode
  unfoldable pub get_mode : Io → kv.State → ModeState
  get_mode io s = record { frpc = read_bool_kv io s "frpc"; frps = read_bool_kv io s "frps" }

  -- (*handlers).persistMode
  unfoldable pub persist_mode : Io → String → Bool → kv.State → kv.State × Option KvError
  persist_mode io kind b s = kv.set io s (mode_key kind) (modes.format_bool b)

  -- the state of the store and of the process, and the refusal if there is one
  abbrev pub Handled : Type 0
  Handled = (kv.State × ProcessState) × Option Refusal

  -- the error of persistMode is dropped
  abbrev pub start_handled :
      Io → Bool → String → kv.State → ProcessState × Option CallError → Handled
  start_handled io m kind s (ps, some e) = ((s, ps), some (map_proc_err m e))
  start_handled io m kind s (ps, none) = (((persist_mode io kind true s).0, ps), none)

  -- (*handlers).procStart
  unfoldable pub proc_start : Io → String → Call → kv.State → ProcessState → Handled
  proc_start io kind x s ps =
      if not (validate_kind kind)
      then ((s, ps), some bad_proc_kind)
      else start_handled io x.is_missing kind s
          (start_and_wait x.launch x.sleeps (apply_config_best_effort kind x ps))

  -- (*handlers).procStop
  unfoldable pub proc_stop : Io → String → Call → kv.State → ProcessState → Handled
  proc_stop io kind x s ps =
      if not (validate_kind kind)
      then ((s, ps), some bad_proc_kind)
      else (((persist_mode io kind false s).0, stop x.at_stop ps), none)

  abbrev pub restart_handled : Bool → kv.State → ProcessState × Option CallError → Handled
  restart_handled m s (ps, some e) = ((s, ps), some (map_proc_err m e))
  restart_handled m s (ps, none) = ((s, ps), none)

  -- (*handlers).procRestart
  unfoldable pub proc_restart : String → Call → kv.State → ProcessState → Handled
  proc_restart kind x s ps =
      if not (validate_kind kind)
      then ((s, ps), some bad_proc_kind)
      else restart_handled x.is_missing s (restart x.at_stop x.launch x.sleeps ps)

  abbrev pub ModeHandled : Type 0
  ModeHandled = (kv.State × Manager) × Result Refusal ModeState

  abbrev pub apply_modes : Bool → ModeState → Call → Call → Manager → Manager
  apply_modes false b x y m = m
  apply_modes true b x y m = record {
    frpc = apply_mode_to_proc "frpc" b.frpc x m.frpc;
    frps = apply_mode_to_proc "frps" b.frps y m.frps;
  }

  abbrev pub frps_written :
      Bool → ModeState → Call → Call → Manager → kv.State × Option KvError → ModeHandled
  frps_written procs b x y m (s, some e) = ((s, m), err (refusal 500 internal ""))
  frps_written procs b x y m (s, none) = ((s, apply_modes procs b x y m), ok b)

  abbrev pub frpc_written :
      Io → Bool → ModeState → Call → Call → Manager → kv.State × Option KvError → ModeHandled
  frpc_written io procs b x y m (s, some e) = ((s, m), err (refusal 500 internal ""))
  frpc_written io procs b x y m (s, none) =
      frps_written procs b x y m (persist_mode io "frps" b.frps s)

  -- (*handlers).putMode; the body is none where it does not parse, `procs` is whether there is a
  -- process manager
  unfoldable pub put_mode :
      Io → Bool → Option ModeState → Call → Call → kv.State → Manager → ModeHandled
  put_mode io procs none x y s m = ((s, m), err (refusal 400 validation_failed ""))
  put_mode io procs (some b) x y s m =
      frpc_written io procs b x y m (persist_mode io "frpc" b.frpc s)
