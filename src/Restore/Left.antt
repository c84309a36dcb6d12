-- ===== src/Restore/Left.antt =====
-- How the restoration of cmd/frp-easy/main.go ends, and what it makes of the state in which the
-- handlers of internal/httpapi/handlers_proc.go have left a process.
use frp_easy.Prelude.{
  ℕ, ◌+◌, ◌≤◌, ◌≡◌, ◌⊎◌, refl, Bool, true, false, Option, none, some, List, [], ◌∷◌, ◌++◌, String,
  text_eq, text_eq_refl, length, length-append, arith, Bool-cases, inl, inr,
}
use frp_easy.Storage.Kv.{Io, select_key, upsert_key}
use frp_easy.Storage.KvStore.{KvStore}
use frp_easy.Procmgr.{ProcessState, validate_kind}
use frp_easy.Procmgr.Calls.{CallError, is_halted, start_and_wait}
use frp_easy.Procmgr.Calls.Applied.{Runs, start_and_wait-Runs}
use frp_easy.Http.Processes.{
  ModeText, Call, mode_key, persist_mode, apply_config_best_effort, start_handled, proc_start,
  proc_stop, bool_of,
}
use frp_easy.Restore.{
  Outcome, restored, exhausted, user_initiated, canceled, binary_missing, config_missing, Attempt,
  Run, Try, Pause, run_start, attempted, first_attempt, some_run, retry_restore_loop,
  auto_restore_procs,
}

-- a Start has forked a child that runs, or that has ended without an error in its last sleep
abbrev pub Started : Try → ProcessState → Type 0
Started t ps = (c : ℕ) × (t.launch.fork_pid ≡ some c) × Runs c t.sleeps ps

-- one of the waits
abbrev pub IsWait : ℕ → List ℕ → Type 0
IsWait d [] = ⊥
IsWait d (x ∷ xs) = (d ≡ x) ⊎ IsWait d xs

-- what the end of a run says of the process, after at most `n` attempts and in some of the waits `ds`
abbrev pub EndedAs : (ℕ → Pause) → ℕ → List ℕ → ProcessState → Run → Outcome → Type 0
EndedAs pause n ds ps r restored = (d : ℕ) × IsWait d ds × Started (pause d).next ps
EndedAs pause n ds ps r exhausted = length r.attempts ≡ n
EndedAs pause n ds ps r user_initiated = is_halted ps.state ≡ false
EndedAs pause n ds ps r canceled = (d : ℕ) × IsWait d ds × ((pause d).ends ≡ true)
EndedAs pause n ds ps r _ = ⊥

abbrev pub Ended : (ℕ → Pause) → ℕ → List ℕ → ProcessState × Run → Type 0
Ended pause n ds (ps, r) = (length r.attempts ≤ n) × EndedAs pause n ds ps r r.outcome

-- one wait more
EndedAs-cons :
    (pause : ℕ → Pause) (n d : ℕ) (ds : List ℕ) (ps : ProcessState) (r : Run) (o : Outcome)
    → EndedAs pause n ds ps r o
    → EndedAs pause n (d ∷ ds) ps r o
EndedAs-cons pause n d ds ps r restored (x, w, e) = (x, inr w, e)
EndedAs-cons pause n d ds ps r exhausted e = e
EndedAs-cons pause n d ds ps r user_initiated e = e
EndedAs-cons pause n d ds ps r canceled (x, w, e) = (x, inr w, e)
EndedAs-cons pause n d ds ps r binary_missing e = e
EndedAs-cons pause n d ds ps r config_missing e = e

Ended-cons :
    (pause : ℕ → Pause) (n d : ℕ) (ds : List ℕ) (q : ProcessState × Run)
    → Ended pause n ds q
    → Ended pause n (d ∷ ds) q
Ended-cons pause n d ds (ps, r) (le, e) = (le, EndedAs-cons pause n d ds ps r r.outcome e)

length-snoc : (xs : List Attempt) (x : Attempt) → length (xs ++ x ∷ []) ≡ length xs + 1
length-snoc xs x = ground (arith, length-append xs (x ∷ []))

module _ (pause : ℕ → Pause) where
  attempted-Ended :
      (n i d : ℕ) (ds : List ℕ) (done : List Attempt) (rest : ProcessState × Run)
      (q : ProcessState × Option CallError)
      → Ended pause n ds rest
      → length done + 1 ≤ n
      → (q.1 ≡ none → Started (pause d).next q.0)
      → Ended pause n (d ∷ ds) (attempted pause rest i done q)
  attempted-Ended n i d ds done rest (ps, none) e le runs = (
    omega (arith, le, length-snoc done (record { index = i; succeeded = true })),
    (d, inl refl, runs refl),
  )
  attempted-Ended n i d ds done rest (ps, some x) e le runs = Ended-cons pause n d ds rest e

  try-Started :
      (t : Try) (ps : ProcessState)
      → is_halted ps.state ≡ true
      → (run_start t ps).1 ≡ none
      → Started t (run_start t ps).0
  try-Started t ps h n = start_and_wait-Runs t.launch t.sleeps ps h n

  -- The loop of the retries ends after at most one attempt for each wait that is left, however the
  -- starts go and whatever else happens to the process in the waits: restored, and then the Start after
  -- one of those waits has forked a child, and this child runs, or it has ended without an error in the
  -- last of that Start's sleeps; exhausted, and then all the attempts were made; given up to the user,
  -- and then the process is not halted; or canceled, and then the program was told to end in one of them.
  pub retry_restore_loop-Ended :
      (ds : List ℕ) (i : ℕ) (ps : ProcessState) (done : List Attempt)
      → Ended pause (length done + length ds) ds (retry_restore_loop pause ds i ps done)
  unfolding retry_restore_loop
  retry_restore_loop-Ended [] i ps done = (omega arith, omega arith)
  retry_restore_loop-Ended (d ∷ ds) i ps done =
      let p = pause d in
      let ps₁ = p.meanwhile ps in
      let failed : Attempt = record { index = i; succeeded = false } in
      let tried = run_start p.next ps₁ in
      let later = retry_restore_loop-Ended ds (i + 1) tried.0 (done ++ failed ∷ []) in
      let same : length (done ++ failed ∷ []) + length ds ≡ length done + length (d ∷ ds) =
        omega (arith, length-snoc done failed) in
      elim (Bool-cases p.ends) [
        | inl e ↦ rw e (omega arith, (d, inl refl, e))
        | inr e ↦ elim (Bool-cases (is_halted ps₁.state)) [
          | inr h ↦ simp (e, h) (omega arith, refl)
          | inl h ↦
              simp (e, h)
                (attempted-Ended (length done + length (d ∷ ds)) i d ds done _ tried
                  (rw same at later) (omega arith) (try-Started p.next ps₁ h))
        ]
      ]

  module _ {V : Type 0} (kv : KvStore V) (modes : ModeText V) where
    -- the mode that a write leaves is the one that is read
    mode-persist_mode :
        (io io' : Io) (kind : String) (b : Bool) (s : kv.State)
        → io (upsert_key (mode_key kind)) ≡ false
        → io' (select_key (mode_key kind)) ≡ false
        → bool_of kv modes (kv.get io' (persist_mode kv modes io kind b s).0 (mode_key kind)) ≡ b
    unfolding persist_mode
    mode-persist_mode io io' kind b s write read =
        let key : text_eq (mode_key kind) [] ≡ false = unfold mode_key text_eq in refl in
        let self = text_eq_refl (mode_key kind) in
        let at : kv.value_at (kv.set io s (mode_key kind) (modes.format_bool b)).0 (mode_key kind)
            ≡ some (modes.format_bool b) =
          rw
            (
              kv.set_law io s (mode_key kind) (mode_key kind) (modes.format_bool b),
              key,
              write,
              self,
            )
            refl in
        rw
          (
            kv.get_law io' (kv.set io s (mode_key kind) (modes.format_bool b)).0 (mode_key kind),
            read,
            at,
          )
          (modes.parse_bool-format_bool b)

    proc_stop-state :
        (io : Io) (kind : String) (y : Call) (s : kv.State) (ps : ProcessState)
        → validate_kind kind ≡ true
        → (proc_stop kv modes io kind y s ps).0.0 ≡ (persist_mode kv modes io kind false s).0
    unfolding proc_stop
    proc_stop-state io kind y s ps k = rw k refl

    start_handled-state :
        (io : Io) (m : Bool) (kind : String) (s : kv.State) (q : ProcessState × Option CallError)
        → (start_handled kv modes io m kind s q).1 ≡ none
        → (start_handled kv modes io m kind s q).0.0 ≡ (persist_mode kv modes io kind true s).0
    start_handled-state io m kind s (ps, none) h = refl
    start_handled-state io m kind s (ps, some e) h = cc

    proc_start-state :
        (io : Io) (kind : String) (x : Call) (s : kv.State) (ps : ProcessState)
        → validate_kind kind ≡ true
        → (proc_start kv modes io kind x s ps).1 ≡ none
        → (proc_start kv modes io kind x s ps).0.0 ≡ (persist_mode kv modes io kind true s).0
    unfolding proc_start
    proc_start-state io kind x s ps k h = rw k (
        start_handled-state io x.is_missing kind s
          (start_and_wait x.launch x.sleeps (apply_config_best_effort kind x ps)) (rw k at h))

    first_attempt-state :
        (q : ProcessState × Option CallError)
        → q.1 ≡ none
        → (some_run pause kv modes (first_attempt pause q)).0 ≡ q.0
    first_attempt-state (ps, none) h = refl
    first_attempt-state (ps, some e) h = cc

    -- The next start of the program finds what the handlers have left, if the store could be written
    -- and is read: after procStop it leaves the process alone; after a procStart that gave no refusal
    -- it starts the process where the binary and the file are there, and if that Start gives no
    -- error it has forked a child, and this child runs, or it has ended without an error in the last of
    -- the Start's sleeps, after which no look was left to see it.
    pub auto_restore-Left :
        (io io' : Io) (kind : String) (x y : Call) (t : Try) (s : kv.State) (ps new : ProcessState)
        → validate_kind kind ≡ true
        → io (upsert_key (mode_key kind)) ≡ false
        → io' (select_key (mode_key kind)) ≡ false
        → (proc_start kv modes io kind x s ps).1 ≡ none
        → is_halted new.state ≡ true
        → (run_start t new).1 ≡ none
        → (auto_restore_procs pause kv modes io' kind true true t
              (proc_stop kv modes io kind y s ps).0.0
              new
            ≡ (new, none))
          × Started t
              (auto_restore_procs pause kv modes io' kind true true t
                (proc_start kv modes io kind x s ps).0.0
                new).0
    unfolding auto_restore_procs
    auto_restore-Left io io' kind x y t s ps new k write read started halted runs =
        let off = mode-persist_mode io io' kind false s write read in
        let on = mode-persist_mode io io' kind true s write read in
        let alive = try-Started t new halted runs in
        (
          rw (proc_stop-state io kind y s ps k, off) refl,
          rw
              (
                proc_start-state io kind x s ps k started,
                on,
                first_attempt-state (run_start t new) runs,
              )
              alive,
        )
