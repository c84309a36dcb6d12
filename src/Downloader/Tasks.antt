-- ===== src/Downloader/Tasks.antt =====
-- The goroutines of internal/downloader/downloader.go for one kind, in any order with Start and
-- Cancel, as long as no Cancel runs into its limit of 3 seconds.
use frp_easy.Prelude.{
  ℕ, zero, suc, ℤ, pos, negsuc, ◌+◌, ◌≤◌, ◌≡◌, refl, Bool, true, false, Option, none, some, List,
  [], ◌∷◌, String, arith, length, length-append, ◌++◌, ltb,
}
use frp_easy.Downloader.{
  Writer, write, percentage, do_download, downloading, success, DownloadState, new_state, start,
  cancel, waits, set_progress, Ending, ends_failed, ends_canceled, ends_finish, Stage, write_ending,
  set_failed, set_canceled, finish, is_downloading,
}

-- `working` are the tasks before their last section, `leaving` those before the deferred clean-up;
-- `cancels` is the task whose cancel function is registered, and `ended` are the canceled contexts
pub record World : Type 0 where
  pub st : DownloadState
  pub working : List ℕ
  pub leaving : List ℕ
  pub cancels : Option ℕ
  pub ended : List ℕ
  pub fresh : ℕ

unfoldable pub initial : World
unfolding new_state
initial = record {
  st = new_state;
  working = [];
  leaving = [];
  cancels = none;
  ended = [];
  fresh = 0;
}

pub data Step (w : World) : World → Type 0 where
  starts :
      (kind goos : String)
      → (start kind goos w.st).1 ≡ none
      → Step w (record w {
        st = (start kind goos w.st).0;
        working = w.fresh ∷ w.working;
        fresh = w.fresh + 1;
      })
  -- a task registers its cancel function
  registers :
      (c : ℕ) (xs ys : List ℕ) → w.working ≡ xs ++ c ∷ ys → Step w (record w { cancels = some c })
  -- Cancel finds a task to cancel
  cancels_task :
      (kind : String) (c : ℕ)
      → cancel kind w.st ≡ waits
      → w.cancels ≡ some c
      → Step w (record w { ended = c ∷ w.ended })
  -- the body's writer reports
  progresses :
      (c n pct : ℕ) (xs ys : List ℕ) (pw : Writer)
      → w.working ≡ xs ++ c ∷ ys
      → (write n pw).1 ≡ some pct
      → Step w (record w { st = set_progress pct w.st })
  -- the last section of a task
  ends :
      (c : ℕ) (xs ys : List ℕ) (text : Stage → String) (fails canceled_at : Stage → Bool)
      (at_end : Bool)
      → w.working ≡ xs ++ c ∷ ys
      → Step w (record w {
        st = write_ending text (do_download fails canceled_at at_end) w.st;
        working = xs ++ ys;
        leaving = c ∷ w.leaving;
      })
  -- its deferred clean-up, which takes out whatever is registered
  leaves :
      (c : ℕ) (xs ys : List ℕ)
      → w.leaving ≡ xs ++ c ∷ ys
      → Step w (record w { cancels = none; leaving = xs ++ ys })

pub data Reach : World → Type 0 where
  here : Reach initial
  next : {w u : World} → Reach w → Step w u → Reach u

-- one task at most, and one exactly while the state says so; a success is complete
pub record Sound (st : DownloadState) (working : List ℕ) : Type 0 where
  pub one : length working ≤ 1
  pub busy : is_downloading st.status ≡ ltb 0 (length working)
  pub complete : (st.status ≡ success) → st.progress ≡ 100
  pub bounded : st.progress ≤ 100

start-Sound :
    (kind goos : String) (st : DownloadState) (c : ℕ) (cs : List ℕ)
    → (start kind goos st).1 ≡ none
    → Sound st cs
    → Sound (start kind goos st).0 (c ∷ cs)
unfolding start
start-Sound kind goos st c cs h s =
    let stopped : is_downloading st.status ≡ false = ground arith in
    let none_works : length cs ≡ 0 = ground (arith, s.busy, stopped) in
    let launched : (start kind goos st).0
        ≡ record { status = downloading; progress = 0; error = "" } =
      ground arith in
    rw launched (record {
      one = omega (arith, none_works);
      busy = ground arith;
      complete = λ e. cc;
      bounded = omega arith;
    })

percentage_bound : (l : ℤ) (n : ℕ) → percentage l n ≤ 95
unfolding percentage
percentage_bound (negsuc _) n = ground arith
percentage_bound (pos zero) n = ground arith
percentage_bound (pos (suc k)) n = ground arith

write_bound : (n pct : ℕ) (pw : Writer) → (write n pw).1 ≡ some pct → pct ≤ 95
unfolding write
write_bound n pct pw h =
    let e : percentage pw.content_length (pw.written + n) ≡ pct = ground arith in
    rw (← e) (percentage_bound pw.content_length (pw.written + n))

set_progress-Sound :
    (st : DownloadState) (cs : List ℕ) (pct : ℕ)
    → pct ≤ 95
    → 1 ≤ length cs
    → Sound st cs
    → Sound (set_progress pct st) cs
unfolding set_progress
set_progress-Sound st cs pct le busy s = record {
  one = s.one;
  busy = s.busy;
  complete = λ e. absurd (ground (arith, s.busy, e, busy));
  bounded = omega (arith, le);
}

write_ending-Sound :
    (text : Stage → String) (e : Ending) (st : DownloadState)
    → is_downloading st.status ≡ true
    → st.progress ≤ 100
    → Sound (write_ending text e st) []
unfolding write_ending set_failed set_canceled finish
write_ending-Sound text (ends_failed g) st d b =
    rw d (record { one = omega arith; busy = refl; complete = λ e. cc; bounded = b })
write_ending-Sound text ends_canceled st d b =
    rw d (record { one = omega arith; busy = refl; complete = λ e. cc; bounded = b })
write_ending-Sound text (ends_finish true) st d b =
    rw d (record { one = omega arith; busy = refl; complete = λ e. cc; bounded = b })
write_ending-Sound text (ends_finish false) st d b =
    rw d (record { one = omega arith; busy = refl; complete = λ e. refl; bounded = omega arith })

length-split : (xs ys : List ℕ) (c : ℕ) → length (xs ++ c ∷ ys) ≡ length xs + length ys + 1
length-split xs ys c = ground (arith, length-append xs (c ∷ ys))

no_other : (xs ys : List ℕ) (c : ℕ) → length (xs ++ c ∷ ys) ≤ 1 → xs ++ ys ≡ []
no_other [] [] c h = refl
no_other [] (y ∷ ys) c h = absurd (ground (arith, h))
no_other (x ∷ xs) ys c h = absurd (ground (arith, h, length-split xs ys c))

Step-Sound : {w u : World} → Step w u → Sound w.st w.working → Sound u.st u.working
Step-Sound {w} (starts kind goos h) s = start-Sound kind goos w.st w.fresh w.working h s
Step-Sound (registers c xs ys h) s = s
Step-Sound (cancels_task kind c h k) s = s
Step-Sound {w} (progresses c n pct xs ys pw h k) s =
    let works : 1 ≤ length w.working = ground (arith, h, length-split xs ys c) in
    set_progress-Sound w.st w.working pct (write_bound n pct pw k) works s
Step-Sound {w} (ends c xs ys text fails canceled_at at_end h) s =
    let alone = no_other xs ys c (rw h at s.one) in
    let works : 1 ≤ length w.working = ground (arith, h, length-split xs ys c) in
    let busy : is_downloading w.st.status ≡ true = ground (arith, s.busy, works) in
    rw alone (write_ending-Sound text (do_download fails canceled_at at_end) w.st busy s.bounded)
Step-Sound (leaves c xs ys h) s = s

-- As long as no Cancel runs into its limit of 3 seconds: at most one task works on the download of a
-- kind, and one does exactly while the state is `downloading`; the progress is at most 100, and it
-- is 100 when the state is `success`.
pub Reach-Sound : {w : World} → Reach w → Sound w.st w.working
unfolding initial new_state
Reach-Sound here = record {
  one = omega arith;
  busy = refl;
  complete = λ e. cc;
  bounded = omega arith;
}
Reach-Sound (next r s) = Step-Sound s (Reach-Sound r)
