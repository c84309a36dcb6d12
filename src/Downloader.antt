-- ===== src/Downloader.antt =====
-- internal/downloader/downloader.go: the state of the download of one kind, and the methods that
-- change it, each between its Lock and Unlock. The two kinds have each a state of their own.
pub mod Tasks
pub mod Cancel
pub mod Release
pub mod Archive
pub mod Install
pub mod Examples
use frp_easy.Prelude.{
  ℕ, zero, suc, ◌+◌, ◌*◌, ◌/◌, ◌==◌, ltb, ℤ, pos, negsuc, Bool, true, false, not, ◌&&◌, ◌||◌,
  Option, none, some, List, [], ◌∷◌, String, str_eq, if◌then◌else◌,
}

pub data Status : Type 0 where
  idle downloading success failed canceled : Status

pub record DownloadState : Type 0 where
  pub status : Status
  pub progress : ℕ
  pub error : String

-- New
unfoldable pub new_state : DownloadState
new_state = record { status = idle; progress = 0; error = "" }

pub data StartError : Type 0 where
  already_in_progress unsupported_os bad_kind : StartError

abbrev pub is_downloading : Status → Bool
is_downloading downloading = true
is_downloading _ = false

abbrev pub is_kind : String → Bool
is_kind k = str_eq k "frpc" || str_eq k "frps"

-- Start: the state, and the error or the launch of doDownload
unfoldable pub start : String → String → DownloadState → DownloadState × Option StartError
start kind goos st =
    if not (is_kind kind)
    then (st, some bad_kind)
    else if not (str_eq goos "linux") && not (str_eq goos "windows")
    then (st, some unsupported_os)
    else if is_downloading st.status
    then (st, some already_in_progress)
    else (record { status = downloading; progress = 0; error = "" }, none)

-- Status
unfoldable pub status_of : String → DownloadState → Option DownloadState
status_of kind st = if is_kind kind then some st else none

-- the first section of Cancel: an illegal kind, nothing to do, or a wait for the end
pub data CancelResult : Type 0 where
  cancel_bad_kind nothing_to_cancel waits : CancelResult

unfoldable pub cancel : String → DownloadState → CancelResult
cancel kind st =
    if not (is_kind kind)
    then cancel_bad_kind
    else if is_downloading st.status
    then waits
    else nothing_to_cancel

-- the last section of Cancel, after 3 seconds
unfoldable pub force_canceled : DownloadState → DownloadState
force_canceled st =
    if is_downloading st.status
    then record st { status = canceled; error = "用户取消下载（goroutine 卡住，强写）" }
    else st

unfoldable pub set_progress : ℕ → DownloadState → DownloadState
set_progress pct st = record st { progress = pct }

-- progressWriter
pub record Writer : Type 0 where
  pub content_length : ℤ
  pub written : ℕ
  pub last_pct : ℕ

abbrev pub at_most_95 : ℕ → ℕ
at_most_95 n = if ltb 95 n then 95 else n

unfoldable pub percentage : ℤ → ℕ → ℕ
percentage (negsuc _) written = at_most_95 ((written / (512 * 1024)) * 2)
percentage (pos zero) written = at_most_95 ((written / (512 * 1024)) * 2)
percentage (pos (suc n)) written = at_most_95 ((written * 95) / suc n)

-- Write of n bytes: the writer, and the percentage that it reports if it is a new one
unfoldable pub write : ℕ → Writer → Writer × Option ℕ
unfolding percentage
write n pw =
    let pct = percentage pw.content_length (pw.written + n) in
    if not (pct == pw.last_pct)
    then (record pw { written = pw.written + n; last_pct = pct }, some pct)
    else (record pw { written = pw.written + n }, none)

unfoldable pub set_failed : String → DownloadState → DownloadState
set_failed msg st =
    if is_downloading st.status then record st { status = failed; error = msg } else st

unfoldable pub set_canceled : DownloadState → DownloadState
set_canceled st =
    if is_downloading st.status then record st { status = canceled; error = "用户取消下载" } else st

-- the last section of doDownload, with whether its context is canceled
unfoldable pub finish : Bool → DownloadState → DownloadState
unfolding set_canceled
finish true st = set_canceled st
finish false st =
    if not (is_downloading st.status)
    then st
    else record { status = success; progress = 100; error = "" }

-- the stages of doDownload that may fail, in their order
pub data Stage : Type 0 where
  resolve_params resolve_asset make_dir make_archive build_request : Stage
  send_request check_status copy_body rewind make_binary extract open_binary install : Stage

pub data Ending : Type 0 where
  ends_failed : Stage → Ending
  ends_canceled : Ending
  ends_finish : Bool → Ending

-- a failure with a look at the context, or without one
abbrev pub looks : Stage → Bool
looks resolve_asset = true
looks build_request = true
looks send_request = true
looks copy_body = true
looks extract = true
looks install = true
looks _ = false

abbrev pub stages : List Stage
stages =
    resolve_params ∷ resolve_asset ∷ make_dir ∷ make_archive ∷ build_request ∷ send_request
    ∷ check_status ∷ copy_body ∷ rewind ∷ make_binary ∷ extract ∷ open_binary ∷ install ∷ []

-- doDownload through the stages; `fails` and `canceled` tell of each stage whether it fails and
-- whether the context is canceled then
unfoldable pub run_stages : (Stage → Bool) → (Stage → Bool) → Bool → List Stage → Ending
run_stages fails canceled_at at_end [] = ends_finish at_end
run_stages fails canceled_at at_end (g ∷ gs) =
    let rest = run_stages fails canceled_at at_end gs in
    if not (fails g)
    then rest
    else if looks g && canceled_at g
    then ends_canceled
    else ends_failed g

unfoldable pub do_download : (Stage → Bool) → (Stage → Bool) → Bool → Ending
unfolding run_stages
do_download fails canceled_at at_end = run_stages fails canceled_at at_end stages

-- what the ending writes; `text` is the message of a failed stage
unfoldable pub write_ending : (Stage → String) → Ending → DownloadState → DownloadState
unfolding set_failed set_canceled finish
write_ending text (ends_failed g) st = set_failed (text g) st
write_ending text ends_canceled st = set_canceled st
write_ending text (ends_finish c) st = finish c st
