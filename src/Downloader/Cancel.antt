-- ===== src/Downloader/Cancel.antt =====
-- Cancel of internal/downloader/downloader.go as a whole: the loop that waits for the task, beside
-- what the goroutines do to the state meanwhile.
use frp_easy.Prelude.{
  ℕ, ◌≡◌, refl, ◌⊎◌, inl, inr, Bool, true, false, not, ◌&&◌, Option, none, some, List, [], ◌∷◌,
  String, if◌then◌else◌, Bool-cases,
}
use frp_easy.Downloader.{
  DownloadState, is_kind, is_downloading, canceled, failed, StartError, bad_kind, CancelResult,
  cancel_bad_kind, nothing_to_cancel, waits, cancel, force_canceled, set_progress, set_failed,
  set_canceled, finish, Stage, Ending, ends_failed, ends_canceled, ends_finish, looks, stages,
  run_stages, do_download, write_ending,
}

-- what happens to the state of the kind during one sleep of 10 ms; a task ends with the stages that
-- fail, and it may have looked at its context for the last time before Cancel was called
pub data Meanwhile : Type 0 where
  quiet : Meanwhile
  reports : ℕ → Meanwhile
  task_ends : (Stage → Bool) → Bool → Meanwhile

-- whether the context of the task is canceled, once Cancel has called what m.cancels holds, if it holds
-- a function for the kind
unfoldable pub call_cancel : Bool → Bool → Bool
call_cancel true ctx = true
call_cancel false ctx = ctx

module _ (text : Stage → String) where
  abbrev pub ended : (Stage → Bool) → Bool → DownloadState → DownloadState
  ended fails seen st = write_ending text (do_download fails (λ g. seen) seen) st

  unfoldable pub after : Bool → Meanwhile → DownloadState → DownloadState
  unfolding set_progress write_ending do_download
  after ctx quiet st = st
  after ctx (reports pct) st = set_progress pct st
  after ctx (task_ends fails early) st = ended fails (ctx && not early) st

  -- the loop, with the sleeps that the deadline of 3 seconds leaves
  unfoldable pub await_end : Bool → List Meanwhile → DownloadState → DownloadState
  unfolding after force_canceled
  await_end ctx [] st = force_canceled st
  await_end ctx (m ∷ ms) st =
      let rest = await_end ctx ms (after ctx m st) in
      if not (is_downloading st.status) then st else rest

  abbrev pub cancel_with :
      Bool
      → Bool
      → List Meanwhile
      → DownloadState
      → CancelResult
      → DownloadState × Option StartError
  cancel_with registered ctx ms st cancel_bad_kind = (st, some bad_kind)
  cancel_with registered ctx ms st nothing_to_cancel = (st, none)
  cancel_with registered ctx ms st waits = (await_end (call_cancel registered ctx) ms st, none)

  -- (*Manager).Cancel; `registered` is whether m.cancels holds the kind, `ctx` whether the context of
  -- the task is canceled already
  unfoldable pub cancel_and_wait :
      String → Bool → Bool → List Meanwhile → DownloadState → DownloadState × Option StartError
  unfolding cancel call_cancel await_end
  cancel_and_wait kind registered ctx ms st = cancel_with registered ctx ms st (cancel kind st)

-- no task ends here that has not looked at its context since Cancel was called
abbrev pub is_late : List Meanwhile → Bool
is_late [] = true
is_late (task_ends fails early ∷ ms) = not early && is_late ms
is_late (m ∷ ms) = is_late ms

-- no success: only a failure of a stage that does not look at the context is written as one
abbrev pub IsAborted : Ending → Type 0
IsAborted (ends_failed g) = looks g ≡ false
IsAborted ends_canceled = Unit
IsAborted (ends_finish c) = c ≡ true

run_stages-IsAborted :
    (fails : Stage → Bool) (gs : List Stage) → IsAborted (run_stages fails (λ g. true) true gs)
unfolding run_stages
run_stages-IsAborted fails [] = refl
run_stages-IsAborted fails (g ∷ gs) =
    let rest = run_stages-IsAborted fails gs in
    elim (Bool-cases (fails g)) [
      | inr e ↦ rw e rest
      | inl e ↦ elim (Bool-cases (looks g)) [ inl l ↦ rw (e, l) tt | inr l ↦ rw (e, l) l ]
    ]

do_download-IsAborted : (fails : Stage → Bool) → IsAborted (do_download fails (λ g. true) true)
unfolding do_download
do_download-IsAborted fails = run_stages-IsAborted fails stages

-- what a canceled download has come to
abbrev pub Aborted : (Stage → String) → DownloadState → Type 0
Aborted text st =
    (st.status ≡ canceled)
    ⊎ ((st.status ≡ failed) × ((g : Stage) × (looks g ≡ false) × (st.error ≡ text g)))

write_ending-Aborted :
    (text : Stage → String) (e : Ending) (st : DownloadState)
    → is_downloading st.status ≡ true
    → IsAborted e
    → Aborted text (write_ending text e st)
unfolding write_ending set_failed set_canceled finish
write_ending-Aborted text (ends_failed g) st d a = rw d (inr (refl, (g, a, refl)))
write_ending-Aborted text ends_canceled st d a = rw d (inl refl)
write_ending-Aborted text (ends_finish c) st d a = rw (a, d) (inl refl)

Aborted-stops :
    (text : Stage → String) (st : DownloadState)
    → Aborted text st
    → is_downloading st.status ≡ false
Aborted-stops text st (inl e) = rw e refl
Aborted-stops text st (inr (e, w)) = rw e refl

-- what Cancel leaves, where the context was canceled and then looked at, and elsewhere
abbrev pub Came : (Stage → String) → Bool → DownloadState → Type 0
Came text true st = Aborted text st
Came text false st = is_downloading st.status ≡ false

Came-stops :
    (text : Stage → String) (b : Bool) (st : DownloadState)
    → Came text b st
    → is_downloading st.status ≡ false
Came-stops text true st a = Aborted-stops text st a
Came-stops text false st a = a

write_ending-stops :
    (text : Stage → String) (e : Ending) (st : DownloadState)
    → is_downloading st.status ≡ true
    → is_downloading (write_ending text e st).status ≡ false
unfolding write_ending set_failed set_canceled finish
write_ending-stops text (ends_failed g) st d = rw d refl
write_ending-stops text ends_canceled st d = rw d refl
write_ending-stops text (ends_finish true) st d = rw d refl
write_ending-stops text (ends_finish false) st d = rw d refl

-- the loop returns at its next look
await_end-stopped :
    (text : Stage → String) (ctx : Bool) (ms : List Meanwhile) (st : DownloadState)
    → is_downloading st.status ≡ false
    → await_end text ctx ms st ≡ st
unfolding await_end force_canceled
await_end-stopped text ctx [] st h = rw h refl
await_end-stopped text ctx (m ∷ ms) st h = rw h refl

-- the end of a task that is not seen to be early
ended-Came :
    (text : Stage → String) (fails : Stage → Bool) (ctx early : Bool) (rest : Bool)
    (st : DownloadState)
    → is_downloading st.status ≡ true
    → Came text (ctx && (not early && rest)) (ended text fails (ctx && not early) st)
ended-Came text fails true false true st d =
    write_ending-Aborted text _ st d (do_download-IsAborted fails)
ended-Came text fails true false false st d = write_ending-stops text _ st d
ended-Came text fails true true rest st d = write_ending-stops text _ st d
ended-Came text fails false early rest st d = write_ending-stops text _ st d

force_canceled-Came :
    (text : Stage → String) (b : Bool) (st : DownloadState)
    → is_downloading st.status ≡ true
    → Came text b (force_canceled st)
unfolding force_canceled
force_canceled-Came text true st d = rw d (inl refl)
force_canceled-Came text false st d = rw d refl

await_end-Came :
    (text : Stage → String) (ctx : Bool) (ms : List Meanwhile) (st : DownloadState)
    → is_downloading st.status ≡ true
    → Came text (ctx && is_late ms) (await_end text ctx ms st)
unfolding await_end
await_end-Came text ctx [] st d = force_canceled-Came text (ctx && true) st d
await_end-Came text ctx (quiet ∷ ms) st d = unfold after in rw d (await_end-Came text ctx ms st d)
await_end-Came text ctx (reports pct ∷ ms) st d =
    unfold after set_progress in rw d (await_end-Came text ctx ms (set_progress pct st) d)
await_end-Came text ctx (task_ends fails early ∷ ms) st d =
    let came = ended-Came text fails ctx early (is_late ms) st d in
    let stops = Came-stops text _ _ came in
    let done = await_end-stopped text ctx ms (ended text fails (ctx && not early) st) stops in
    unfold after in rw (d, done) came

-- Cancel of a download that is under way returns no error, after at most its 3 seconds, and the download
-- is under way no more, whatever the task reports in each sleep, and whether or not it ends and at
-- whichever stage. If its cancel function was registered, and the task has looked at its context after
-- the call of that function wherever it ends meanwhile, then the download is canceled, or failed with the
-- message of a stage that does not look at its context, and so never a success. No other task begins
-- meanwhile.
pub cancel_and_wait-Aborted :
    (text : Stage → String) (kind : String) (registered ctx : Bool) (ms : List Meanwhile)
    (st : DownloadState)
    → is_kind kind ≡ true
    → is_downloading st.status ≡ true
    → ((cancel_and_wait text kind registered ctx ms st).1 ≡ none)
      × (is_downloading (cancel_and_wait text kind registered ctx ms st).0.status ≡ false)
      × Came text (registered && is_late ms) (cancel_and_wait text kind registered ctx ms st).0
unfolding cancel_and_wait cancel call_cancel
cancel_and_wait-Aborted text kind true ctx ms st k d =
    let came = await_end-Came text true ms st d in rw (k, d) (refl, Came-stops text _ _ came, came)
cancel_and_wait-Aborted text kind false ctx ms st k d =
    let stops = Came-stops text _ _ (await_end-Came text ctx ms st d) in
    rw (k, d) (refl, stops, stops)
