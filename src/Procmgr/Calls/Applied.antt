-- ===== src/Procmgr/Calls/Applied.antt =====
-- What ApplyConfigChange and Shutdown of internal/procmgr/manager.go come to.
use frp_easy.Prelude.{
  ℕ, ◌≡◌, refl, ◌⊎◌, inl, inr, Bool, true, false, not, ◌&&◌, Option, none, some, List, [], ◌∷◌,
  String, str_eq, eq_iff, Bool-cases, arith,
}
use frp_easy.Procmgr.{
  State, stopped, starting, running, stopping, error, ProcessState, validate_kind, Launch, start,
  start_section, stable_poll, stable_section, stop_begin, stop_end, supervise_leaves, supervise_end,
  forked, launch,
}
use frp_easy.Procmgr.Interleaving.{Coherent}
use frp_easy.Procmgr.Calls.{
  is_halted, Event, quiet, exits, happens, stop, wait_until_stable, start_and_wait, restart, Change,
  reload_frpc, change_running, apply_config_change, Manager, shutdown, settle, start_from,
}

-- a Stop leaves no child
stop-child : (e : Event) (ps : ProcessState) → Coherent ps → (stop e ps).child ≡ none
unfolding stop stop_begin stop_end
stop-child e ps h = ground arith

-- a Stop halts the process
stop-halted : (e : Event) (ps : ProcessState) → Coherent ps → is_halted (stop e ps).state ≡ true
unfolding stop stop_begin stop_end
stop-halted e ps h = ground arith

happens-Coherent : (e : Event) (ps : ProcessState) → Coherent ps → Coherent (happens e ps)
unfolding happens supervise_end supervise_leaves
happens-Coherent quiet ps h = h
happens-Coherent (exits none) ps h = ground arith
happens-Coherent (exits (some x)) ps h = ground arith

-- a child that has begun
abbrev begun : ℕ → ProcessState
begun c = record { state = starting; pid = c; last_err = ""; child = some c }

-- nothing happens but that the child ends without an error in the last of the sleeps
abbrev pub EndsLast : List Event → Type 0
EndsLast [] = ⊥
EndsLast (quiet ∷ es) = EndsLast es
EndsLast (exits none ∷ es) = es ≡ []
EndsLast (exits (some x) ∷ es) = ⊥

-- a new child runs, or it has ended without an error in the last of the sleeps
abbrev pub Runs : ℕ → List Event → ProcessState → Type 0
Runs c es ps =
    ((ps.state ≡ running) × (ps.child ≡ some c) × (ps.pid ≡ c))
    ⊎ ((ps.state ≡ stopped) × EndsLast es)

-- a child that has ended without an error
abbrev gone : ProcessState
gone = record { state = stopped; pid = 0; last_err = ""; child = none }

wait_until_stable-gone :
    (es : List Event)
    → (settle (wait_until_stable es gone)).1 ≡ none
    → ((wait_until_stable es gone).0.state ≡ stopped) × (es ≡ [])
unfolding wait_until_stable stable_poll stable_section
wait_until_stable-gone [] n = (refl, refl)
wait_until_stable-gone (e ∷ es) n = cc

wait_until_stable-Runs :
    (c : ℕ) (es : List Event)
    → (settle (wait_until_stable es (begun c))).1 ≡ none
    → Runs c es (wait_until_stable es (begun c)).0
unfolding wait_until_stable stable_poll stable_section happens supervise_end supervise_leaves
wait_until_stable-Runs c [] n = inl (refl, refl, refl)
wait_until_stable-Runs c (quiet ∷ es) n = wait_until_stable-Runs c es n
wait_until_stable-Runs c (exits none ∷ es) n = inr (wait_until_stable-gone es n)
wait_until_stable-Runs c (exits (some x) ∷ []) n = cc
wait_until_stable-Runs c (exits (some x) ∷ (e ∷ es)) n = cc

forked-Runs :
    (l : Launch) (es : List Event) (ps : ProcessState) (o : Option ℕ)
    → (start_from es (forked l ps o)).1 ≡ none
    → (c : ℕ) × (o ≡ some c) × Runs c es (start_from es (forked l ps o)).0
forked-Runs l es ps none n = cc
forked-Runs l es ps (some c) n = (c, refl, wait_until_stable-Runs c es n)

launch-Runs :
    (l : Launch) (es : List Event) (ps : ProcessState)
    → (start_from es (launch l ps)).1 ≡ none
    → (c : ℕ) × (l.fork_pid ≡ some c) × Runs c es (start_from es (launch l ps)).0
launch-Runs l es ps n = elim (Bool-cases l.bin_found) [
  | inr b ↦ cc (simp b at n)
  | inl b ↦ elim (Bool-cases (str_eq l.config_path "")) [
    | inl p ↦ cc (simp (b, p) at n)
    | inr p ↦ elim (Bool-cases (not (str_eq l.log_path "") && not l.mkdir_ok)) [
      | inl d ↦ cc (simp (b, p, d) at n)
      | inr d ↦ simp (b, p, d) (forked-Runs l es ps l.fork_pid (simp (b, p, d) at n))
    ]
  ]
]

start_section-launch :
    (l : Launch) (ps : ProcessState) (s : State)
    → is_halted s ≡ true
    → start_section l ps s ≡ launch l ps
unfolding start_section
start_section-launch l ps stopped h = refl
start_section-launch l ps error h = refl
start_section-launch l ps starting h = cc
start_section-launch l ps running h = cc
start_section-launch l ps stopping h = cc

-- a start of a halted process without an error
pub start_and_wait-Runs :
    (l : Launch) (es : List Event) (ps : ProcessState)
    → is_halted ps.state ≡ true
    → (start_and_wait l es ps).1 ≡ none
    → (c : ℕ) × (l.fork_pid ≡ some c) × Runs c es (start_and_wait l es ps).0
unfolding start_and_wait start
start_and_wait-Runs l es ps h n =
    let launched = start_section-launch l ps ps.state h in
    rw launched (launch-Runs l es ps (rw launched at n))

-- the process, as it was at `before`, was stopped, is held without a child then, and a Start of it has
-- forked a new one
abbrev pub Restarted : Change → ProcessState → ProcessState → Type 0
Restarted x before ps' =
    ((stop x.at_stop before).child ≡ none)
    × (is_halted (stop x.at_stop before).state ≡ true)
    × (ps' ≡ (start_and_wait x.launch x.sleeps (stop x.at_stop before)).0)
    × (c : ℕ) × (x.launch.fork_pid ≡ some c)
    × Runs c x.sleeps ps'

restart-Restarted :
    (x : Change) (ps : ProcessState)
    → Coherent ps
    → (restart x.at_stop x.launch x.sleeps ps).1 ≡ none
    → Restarted x ps (restart x.at_stop x.launch x.sleeps ps).0
unfolding restart
restart-Restarted x ps h n =
    let halted = stop-halted x.at_stop ps h in
    let (c, forked, runs) = start_and_wait-Runs x.launch x.sleeps (stop x.at_stop ps) halted n in
    (stop-child x.at_stop ps h, halted, refl, c, forked, runs)

-- what a change without an error has come to: the process runs on, its reloader has accepted the
-- file, or a new child has been started
abbrev pub Applied : String → Change → ProcessState → ProcessState → Type 0
Applied kind x ps ps' =
    ((kind ≡ "frpc") × (x.reload ≡ some true) × (ps' ≡ happens x.at_reload ps))
    ⊎ (Restarted x ps ps' ⊎ Restarted x (happens x.at_reload ps) ps')

reload_frpc-Applied :
    (kind : String) (x : Change) (ps : ProcessState) (o : Option Bool)
    → x.reload ≡ o
    → kind ≡ "frpc"
    → Coherent ps
    → (reload_frpc x ps o).1 ≡ none
    → Applied kind x ps (reload_frpc x ps o).0
reload_frpc-Applied kind x ps none e k h n = inr (inl (restart-Restarted x ps h n))
reload_frpc-Applied kind x ps (some true) e k h n = inl (k, e, refl)
reload_frpc-Applied kind x ps (some false) e k h n =
    let coherent = happens-Coherent x.at_reload ps h in
    inr (inr (restart-Restarted x (happens x.at_reload ps) coherent n))

change_running-Applied :
    (kind : String) (x : Change) (ps : ProcessState)
    → Coherent ps
    → (change_running kind x ps).1 ≡ none
    → Applied kind x ps (change_running kind x ps).0
unfolding change_running
change_running-Applied kind x ps h n = elim (Bool-cases (str_eq kind "frpc")) [
  | inl k ↦
      let same = (eq_iff kind "frpc").0 k in
      rw k (reload_frpc-Applied kind x ps x.reload refl same h (rw k at n))
  | inr k ↦ rw k (inr (inl (restart-Restarted x ps h (rw k at n))))
]

-- An ApplyConfigChange that gives no error on a running process whose state is coherent: either the
-- kind is frpc, its reloader has accepted the new file, and nothing else was done to the process; or
-- the process was stopped, as it was or as a refused reload had left it, so that the manager holds no
-- child, and a Start has then forked a child anew, and the state says that this child runs; or it says `stopped`, and then the child has ended without an
-- error in the very last of the sleeps of waitUntilStable, after which no look was left to see it.
pub apply_config_change-Applied :
    (kind : String) (x : Change) (ps : ProcessState)
    → Coherent ps
    → ps.state ≡ running
    → (apply_config_change kind x ps).1 ≡ none
    → Applied kind x ps (apply_config_change kind x ps).0
unfolding apply_config_change
apply_config_change-Applied kind x ps h r n = elim (Bool-cases (validate_kind kind)) [
  | inr v ↦ cc (simp v at n)
  | inl v ↦ simp (v, r) (change_running-Applied kind x ps h (simp (v, r) at n))
]

-- After Shutdown neither process has a child, if both states were coherent before.
pub shutdown-child :
    (e e' : Event) (m : Manager)
    → Coherent m.frpc
    → Coherent m.frps
    → ((shutdown e e' m).frpc.child ≡ none) × ((shutdown e e' m).frps.child ≡ none)
unfolding shutdown
shutdown-child e e' m h h' = (stop-child e m.frpc h, stop-child e' m.frps h')
