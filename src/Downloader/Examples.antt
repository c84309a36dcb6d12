-- ===== src/Downloader/Examples.antt =====
-- Downloads of internal/downloader/downloader.go: one that starts and succeeds, one that is canceled,
-- and an archive that is unpacked.
use frp_easy.Prelude.{
  ◌≡◌, refl, List, none, ◌+◌, Bool, true, false, Option, some, [], ◌∷◌, Text, codes, text_eq,
  has_prefix, ok, if◌then◌else◌,
}
use frp_easy.Downloader.Archive.{Paths, Entry, Archive, tar_gz, extract}
use frp_easy.Downloader.Archive.Safety.{From, extract-From}
use frp_easy.Downloader.Cancel.{
  Meanwhile, quiet, reports, task_ends, cancel_and_wait, Aborted, cancel_and_wait-Aborted,
}
use frp_easy.Downloader.{
  Stage, is_downloading, copy_body, start, new_state, write_ending, do_download,
}
use frp_easy.Downloader.Tasks.{World, Reach, here, next, starts, ends, initial, Sound, Reach-Sound}

abbrev pub begun : World
begun = record initial {
  st = (start "frpc" "linux" initial.st).0;
  working = initial.fresh ∷ initial.working;
  fresh = initial.fresh + 1;
}

begun-Reach : Reach begun
unfolding start initial new_state
begun-Reach = next here (starts "frpc" "linux" refl)

abbrev pub never : Stage → Bool
never g = false

abbrev pub ended : World
ended = record begun {
  st = write_ending (λ g. "") (do_download never never false) begun.st;
  working = [];
  leaving = initial.fresh ∷ begun.leaving;
}

ended-Reach : Reach ended
unfolding start initial new_state
ended-Reach = next begun-Reach (ends 0 [] [] (λ g. "") never never false refl)

Reach-Sound_example : Sound ended.st ended.working
Reach-Sound_example = Reach-Sound ended-Reach

abbrev base : Text → Text
base name = if text_eq name (codes "frp/frpc") then codes "frpc" else name

abbrev unix_paths : Paths
unix_paths = record { is_abs = has_prefix (codes "/"); base = base; to_slash = λ name. name }

abbrev entry : Text → Text → Option Entry
entry name content =
    some (record { name = name; is_regular = true; opens = true; body = some content })

abbrev tar : Archive
tar =
    tar_gz true
      (entry (codes "../frpc") (codes "evil") ∷ entry (codes "frp/frpc") (codes "good") ∷ [])

taken : extract unix_paths (codes "frpc") true tar ≡ ok (codes "good")
unfolding extract text_eq has_prefix
taken = refl

extract-From_example : From unix_paths (codes "frpc") tar (codes "good")
extract-From_example = extract-From unix_paths (codes "frpc") true tar (codes "good") taken

-- the copy of the body fails when its context is canceled
abbrev copy_fails : Stage → Bool
copy_fails copy_body = true
copy_fails _ = false

abbrev sleeps : List Meanwhile
sleeps = quiet ∷ reports 40 ∷ task_ends copy_fails false ∷ []

cancel_and_wait-Aborted_example :
    ((cancel_and_wait (λ g. "") "frpc" true false sleeps begun.st).1 ≡ none)
    × (is_downloading (cancel_and_wait (λ g. "") "frpc" true false sleeps begun.st).0.status
        ≡ false)
    × Aborted (λ g. "") (cancel_and_wait (λ g. "") "frpc" true false sleeps begun.st).0
unfolding start initial new_state
cancel_and_wait-Aborted_example =
    cancel_and_wait-Aborted (λ g. "") "frpc" true false sleeps begun.st refl refl
