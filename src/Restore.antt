-- ===== src/Restore.antt =====
-- autoRestoreProcs and retryRestoreLoop of cmd/frp-easy/main.go for one kind: at the start of the
-- program the process is started again if its mode says so. The run that persistAutoRestoreLast
-- writes is a result; its times and texts are left out.
pub mod Left
pub mod Examples
use frp_easy.Prelude.{
  ℕ, zero, suc, ◌+◌, ◌≡◌, Bool, true, false, not, Option, none, some, List, [], ◌∷◌, ◌++◌, String,
  Result, ok, err, if◌then◌else◌,
}
use frp_easy.Storage.Kv.{Io, KvError}
use frp_easy.Storage.KvStore.{KvStore}
use frp_easy.Procmgr.{ProcessState, Launch}
use frp_easy.Procmgr.Calls.{Event, CallError, is_halted, start_and_wait}
use frp_easy.Http.Processes.{ModeText, mode_key, bool_of}

pub data Outcome : Type 0 where
  restored exhausted user_initiated canceled binary_missing config_missing : Outcome

-- AutoRestoreAttempt
pub record Attempt : Type 0 where
  pub index : ℕ
  pub succeeded : Bool

-- AutoRestoreLastRun
pub record Run : Type 0 where
  pub outcome : Outcome
  pub attempts : List Attempt

-- retryBackoff, in seconds
unfoldable pub retry_backoff : List ℕ
retry_backoff = 5 ∷ 15 ∷ 45 ∷ 120 ∷ 300 ∷ []

-- a Start: the fork that it meets, and what the child does while it waits
pub record Try : Type 0 where
  pub launch : Launch
  pub sleeps : List Event

-- a wait of the loop of that many seconds: whether the program is told to end, what else happens to
-- the process meanwhile, and what the Start after it meets
pub record Pause : Type 0 where
  pub ends : Bool
  pub meanwhile : ProcessState → ProcessState
  pub next : Try

abbrev pub run_start : Try → ProcessState → ProcessState × Option CallError
run_start t ps = start_and_wait t.launch t.sleeps ps

module _ (pause : ℕ → Pause) where
  abbrev pub attempted :
      ProcessState × Run → ℕ → List Attempt → ProcessState × Option CallError → ProcessState × Run
  attempted rest i done (ps, none) = (
    ps,
    record { outcome = restored; attempts = done ++ record { index = i; succeeded = true } ∷ [] },
  )
  attempted rest i done (ps, some e) = rest

  -- retryRestoreLoop from the attempt number `i` on
  unfoldable pub retry_restore_loop : List ℕ → ℕ → ProcessState → List Attempt → ProcessState × Run
  retry_restore_loop [] i ps done = (ps, record { outcome = exhausted; attempts = done })
  retry_restore_loop (d ∷ ds) i ps done =
      let p = pause d in
      let ps₁ = p.meanwhile ps in
      let tried = run_start p.next ps₁ in
      let rest =
        retry_restore_loop ds (i + 1) tried.0
          (done ++ record { index = i; succeeded = false } ∷ []) in
      if p.ends
      then (ps₁, record { outcome = canceled; attempts = done })
      else if not (is_halted ps₁.state)
      then (ps₁, record { outcome = user_initiated; attempts = done })
      else attempted rest i done tried

  -- the first attempt
  abbrev pub first_attempt : ProcessState × Option CallError → ProcessState × Run
  first_attempt (ps, none) =
      (ps, record { outcome = restored; attempts = record { index = 0; succeeded = true } ∷ [] })
  first_attempt (ps, some e) =
      retry_restore_loop retry_backoff 1 ps (record { index = 0; succeeded = false } ∷ [])

  abbrev pub failed_at_once : Outcome → Run
  failed_at_once o = record { outcome = o; attempts = record { index = 0; succeeded = false } ∷ [] }

  module _ {V : Type 0} (kv : KvStore V) (modes : ModeText V) where
    abbrev pub some_run : ProcessState × Run → ProcessState × Option Run
    some_run (ps, r) = (ps, some r)

    abbrev pub restore_enabled : Bool → Bool → Try → ProcessState → Bool → ProcessState × Option Run
    restore_enabled has_binary has_config t ps false = (ps, none)
    restore_enabled has_binary has_config t ps true =
        if not has_binary
        then (ps, some (failed_at_once binary_missing))
        else if not has_config
        then (ps, some (failed_at_once config_missing))
        else some_run (first_attempt (run_start t ps))

    -- autoRestoreProcs for one kind
    unfoldable pub auto_restore_procs :
        Io → String → Bool → Bool → Try → kv.State → ProcessState → ProcessState × Option Run
    auto_restore_procs io kind has_binary has_config t s ps =
        restore_enabled has_binary has_config t ps (bool_of kv modes (kv.get io s (mode_key kind)))
