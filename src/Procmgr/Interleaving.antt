-- ===== src/Procmgr/Interleaving.antt =====
-- The methods of internal/procmgr/manager.go run at the same time: their locked sections in any
-- order, and the processes of the system that they start.
use frp_easy.Prelude.{
  str_eq, ◌&&◌, ℕ, Bool, true, false, not, ◌||◌, ◌==◌, Option, none, some, List, [], ◌∷◌, String,
  ◌≡◌, refl, filter, arith, Bool-cases, inl, inr,
}
use frp_easy.Procmgr.{
  State, stopped, starting, running, stopping, error, ProcessState, new_process, Launch, started,
  start, stable_section, stop_begin, stop_end, supervise_leaves, supervise_end, promoted, stop_with,
  is_stopping, forked, launch, start_section,
}

-- `live` are the children that run; `exits` are those whose Wait has returned and whose supervisor
-- still has its last section before it; `stops` counts the Stop calls between their two sections.
pub record World : Type 0 where
  pub ps : ProcessState
  pub live : List ℕ
  pub exits : List ℕ
  pub stops : List ℕ

abbrev pub initial : World
initial = record { ps = new_process; live = []; exits = []; stops = [] }

abbrev pub without : ℕ → List ℕ → List ℕ
without c = filter (λ x. not (x == c))

unfoldable pub has : ℕ → List ℕ → Bool
has c [] = false
has c (x ∷ xs) = x == c || has c xs

pub data Step (w : World) : World → Type 0 where
  -- Start that forks a child, or that does not
  forks :
      (l : Launch) (c : ℕ)
      → (start l w.ps).1 ≡ started c
      → Step w (record w { ps = (start l w.ps).0; live = c ∷ w.live })
  refuses :
      (l : Launch)
      → ((c : ℕ) → (start l w.ps).1 ≡ started c → ⊥)
      → Step w (record w { ps = (start l w.ps).0 })
  -- the end of waitUntilStable
  settles : Step w (record w { ps = (stable_section w.ps).0 })
  -- the two sections of Stop; between them it kills and waits, at most 7 seconds
  stops_begin :
      (c : ℕ)
      → (stop_begin w.ps).1 ≡ some c
      → Step w (record w { ps = (stop_begin w.ps).0; stops = c ∷ w.stops })
  stops_end :
      (c : ℕ)
      → has c w.stops ≡ true
      → Step w (record w { ps = stop_end w.ps; stops = without c w.stops })
  -- a child ends; its supervisor stops there, or goes on to its last section
  dies_stopped :
      (c : ℕ)
      → has c w.live ≡ true
      → supervise_leaves w.ps ≡ true
      → Step w (record w { live = without c w.live })
  dies :
      (c : ℕ)
      → has c w.live ≡ true
      → Step w (record w { live = without c w.live; exits = c ∷ w.exits })
  supervises_end :
      (c : ℕ) (e : Option String)
      → has c w.exits ≡ true
      → Step w (record w { ps = supervise_end e w.ps; exits = without c w.exits })

pub data Reach : World → Type 0 where
  here : Reach initial
  next : {w u : World} → Reach w → Step w u → Reach u

-- the published state and the fields behind it agree
abbrev pub IsCoherent : ProcessState → State → Type 0
IsCoherent ps stopped = (ps.child ≡ none) × (ps.pid ≡ 0)
IsCoherent ps error = (ps.child ≡ none) × (ps.pid ≡ 0)
IsCoherent ps _ = ps.child ≡ some ps.pid

abbrev pub Coherent : ProcessState → Type 0
Coherent ps = IsCoherent ps ps.state

start-Coherent : (l : Launch) (ps : ProcessState) → Coherent ps → Coherent (start l ps).0
unfolding start
start-Coherent l ps h = ground arith

stable_section-Coherent : (ps : ProcessState) → Coherent ps → Coherent (stable_section ps).0
unfolding stable_section
stable_section-Coherent ps h = ground arith

stop_begin-Coherent : (ps : ProcessState) → Coherent ps → Coherent (stop_begin ps).0
unfolding stop_begin
stop_begin-Coherent ps h = ground arith

supervise_end-Coherent : (e : Option String) (ps : ProcessState) → Coherent (supervise_end e ps)
unfolding supervise_end
supervise_end-Coherent none ps = (refl, refl)
supervise_end-Coherent (some e) ps = (refl, refl)

Step-Coherent : {w u : World} → Step w u → Coherent w.ps → Coherent u.ps
Step-Coherent {w} (forks l c e) h = start-Coherent l w.ps h
Step-Coherent {w} (refuses l e) h = start-Coherent l w.ps h
Step-Coherent {w} settles h = stable_section-Coherent w.ps h
Step-Coherent {w} (stops_begin c e) h = stop_begin-Coherent w.ps h
Step-Coherent {w} (stops_end c e) h = unfold stop_end in (refl, refl)
Step-Coherent (dies_stopped c e f) h = h
Step-Coherent (dies c e) h = h
Step-Coherent {w} (supervises_end c x e) h = supervise_end-Coherent x w.ps

has-here : (c : ℕ) (xs : List ℕ) → has c (c ∷ xs) ≡ true
unfolding has
has-here c xs = ground arith

has-without : (x c : ℕ) (xs : List ℕ) → (x == c) ≡ false → has x (without c xs) ≡ has x xs
unfolding has
has-without x c [] n = refl
has-without x c (y ∷ ys) n = elim (Bool-cases (y == c)) [
  | inl e ↦ let other : (y == x) ≡ false = ground arith in rw (e, other) (has-without x c ys n)
  | inr e ↦ rw (e, has-without x c ys n) refl
]

-- a child is running, or its supervisor still has its last section before it
abbrev pub is_known : ℕ → List ℕ → List ℕ → Bool
is_known x live exits = has x live || has x exits

is_known-dies :
    (x c : ℕ) (live exits : List ℕ)
    → is_known x live exits ≡ true
    → is_known x (without c live) (c ∷ exits) ≡ true
unfolding has
is_known-dies x c live exits h = elim (Bool-cases (x == c)) [
  | inl e ↦ ground arith
  | inr e ↦ ground (arith, has-without x c live e)
]

-- what a state that says that a child is at work promises of it
abbrev pub IsKnown : Bool → State → Type 0
IsKnown b starting = b ≡ true
IsKnown b running = b ≡ true
IsKnown b _ = Unit

IsKnown-imp : (b b' : Bool) (s : State) → (b ≡ true → b' ≡ true) → IsKnown b s → IsKnown b' s
IsKnown-imp b b' starting f h = f h
IsKnown-imp b b' running f h = f h
IsKnown-imp b b' stopped f h = tt
IsKnown-imp b b' stopping f h = tt
IsKnown-imp b b' error f h = tt

IsKnown-true : (s : State) → IsKnown true s
IsKnown-true starting = refl
IsKnown-true running = refl
IsKnown-true stopped = tt
IsKnown-true stopping = tt
IsKnown-true error = tt

abbrev pub Known : World → Type 0
Known w = IsKnown (is_known w.ps.pid w.live w.exits) w.ps.state

start-pid :
    (l : Launch) (ps : ProcessState) (c : ℕ) → (start l ps).1 ≡ started c → (start l ps).0.pid ≡ c
unfolding start
start-pid l ps c h = ground arith

-- what a section makes of a process: it shows the same one, in a state that says no more
abbrev KeepsKnown : ProcessState → ProcessState → Type 0
KeepsKnown ps ps' = (f : ℕ → Bool) → IsKnown (f ps.pid) ps.state → IsKnown (f ps'.pid) ps'.state

forked-KeepsKnown :
    (l : Launch) (ps : ProcessState) (o : Option ℕ)
    → ((c : ℕ) → (forked l ps o).1 ≡ started c → ⊥)
    → KeepsKnown ps (forked l ps o).0
forked-KeepsKnown l ps none n f h = tt
forked-KeepsKnown l ps (some c) n f h = absurd (n c refl)

launch-KeepsKnown :
    (l : Launch) (ps : ProcessState)
    → ((c : ℕ) → (launch l ps).1 ≡ started c → ⊥)
    → KeepsKnown ps (launch l ps).0
launch-KeepsKnown l ps n f h = elim (Bool-cases l.bin_found) [
  | inr b ↦ simp b h
  | inl b ↦ elim (Bool-cases (str_eq l.config_path "")) [
    | inl p ↦ simp (b, p) h
    | inr p ↦ elim (Bool-cases (not (str_eq l.log_path "") && not l.mkdir_ok)) [
      | inl d ↦ simp (b, p, d) h
      | inr d ↦ simp (b, p, d) (forked-KeepsKnown l ps l.fork_pid (simp (b, p, d) at n) f h)
    ]
  ]
]

-- a Start that forks no child leaves the state, or makes it an error
start_section-KeepsKnown :
    (l : Launch) (ps : ProcessState) (s : State)
    → ((c : ℕ) → (start_section l ps s).1 ≡ started c → ⊥)
    → KeepsKnown ps (start_section l ps s).0
unfolding start_section
start_section-KeepsKnown l ps starting n f h = h
start_section-KeepsKnown l ps running n f h = h
start_section-KeepsKnown l ps stopping n f h = h
start_section-KeepsKnown l ps stopped n f h = launch-KeepsKnown l ps n f h
start_section-KeepsKnown l ps error n f h = launch-KeepsKnown l ps n f h

promoted-KeepsKnown :
    (ps : ProcessState) (s : State) → ps.state ≡ s → KeepsKnown ps (promoted ps s).0
promoted-KeepsKnown ps starting e f h = rw e at h
promoted-KeepsKnown ps running e f h = h
promoted-KeepsKnown ps stopped e f h = h
promoted-KeepsKnown ps stopping e f h = h
promoted-KeepsKnown ps error e f h = h

stop_with-KeepsKnown :
    (ps : ProcessState) (s : State) (o : Option ℕ) → KeepsKnown ps (stop_with ps s o).0
stop_with-KeepsKnown ps stopped o f h = h
stop_with-KeepsKnown ps starting none f h = h
stop_with-KeepsKnown ps running none f h = h
stop_with-KeepsKnown ps stopping none f h = h
stop_with-KeepsKnown ps error none f h = h
stop_with-KeepsKnown ps starting (some c) f h = tt
stop_with-KeepsKnown ps running (some c) f h = tt
stop_with-KeepsKnown ps stopping (some c) f h = tt
stop_with-KeepsKnown ps error (some c) f h = tt

is_stopping-IsKnown : (b : Bool) (s : State) → is_stopping s ≡ true → IsKnown b s
is_stopping-IsKnown b stopping e = tt
is_stopping-IsKnown b starting e = cc
is_stopping-IsKnown b running e = cc
is_stopping-IsKnown b stopped e = cc
is_stopping-IsKnown b error e = cc

Step-Known : {w u : World} → Step w u → Known w → Known u
Step-Known {w} (forks l c e) h =
    let pid = start-pid l w.ps c e in
    let known : is_known (start l w.ps).0.pid (c ∷ w.live) w.exits ≡ true =
      rw (pid, has-here c w.live) refl in
    rw known (IsKnown-true (start l w.ps).0.state)
Step-Known {w} (refuses l e) h =
    unfold start in
    start_section-KeepsKnown l w.ps w.ps.state (unfold start in e) (λ x. is_known x w.live w.exits)
      h
Step-Known {w} settles h =
    unfold stable_section in
    promoted-KeepsKnown w.ps w.ps.state refl (λ x. is_known x w.live w.exits) h
Step-Known {w} (stops_begin c e) h =
    unfold stop_begin in
    stop_with-KeepsKnown w.ps w.ps.state w.ps.child (λ x. is_known x w.live w.exits) h
Step-Known {w} (stops_end c e) h = unfold stop_end in tt
Step-Known {w} (dies_stopped c e f) h =
    unfold supervise_leaves in is_stopping-IsKnown _ w.ps.state f
Step-Known {w} (dies c e) h = IsKnown-imp _ _ w.ps.state (is_known-dies w.ps.pid c w.live w.exits) h
Step-Known {w} (supervises_end c none e) h = unfold supervise_end in tt
Step-Known {w} (supervises_end c (some x) e) h = unfold supervise_end in tt

-- In whatever order the locked sections run: where the manager shows a process as starting, running or
-- stopping, it holds a child, whose pid is the one that it shows, and where it shows `stopped` or `error`
-- it holds none and its pid is 0. And where it shows `starting` or `running`, the child with that pid
-- runs, or its Wait has returned and the last section of its supervisor is still to come. A child that
-- the manager has dropped may still run beside it: nothing is said of that one.
pub Reach-Coherent : {w : World} → Reach w → Coherent w.ps × Known w
unfolding new_process
Reach-Coherent here = ((refl, refl), tt)
Reach-Coherent (next r s) =
    let (coherent, known) = Reach-Coherent r in (Step-Coherent s coherent, Step-Known s known)
