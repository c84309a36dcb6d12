-- ===== src/Http/Upload.antt =====
-- uploadBin of internal/httpapi/handlers_system.go over Install. Texts of messages, the log and the
-- memory that the form takes while it is parsed are left out.
pub mod Outcome
pub mod Examples
use frp_easy.Prelude.{
  ℕ, ◌*◌, Bool, true, false, not, ◌&&◌, ◌==◌, Option, none, some, List, [], ◌∷◌, String, str_eq,
  Text, Result, ok, err, if◌then◌else◌, ltb, pos, length, take,
}
use frp_easy.Files.{Fs}
use frp_easy.Downloader.{DownloadState, is_downloading, is_kind, status_of}
use frp_easy.Downloader.Install.{InstallError, InstallEnv, Installed, file_too_large, install}
use frp_easy.Procmgr.{State, running}
use frp_easy.Http.Errors.{Refusal, refusal, validation_failed, conflict, internal, proc_busy}

pub data HeaderError : Type 0 where
  too_short other_platform no_elf no_pe unknown_os : HeaderError

abbrev pub is_elf : Text → Bool
is_elf (a ∷ b ∷ c ∷ d ∷ r) = a == 0x7F && (b == 69 && (c == 76 && d == 70))
is_elf _ = false

abbrev pub is_pe : Text → Bool
is_pe (a ∷ b ∷ r) = a == 77 && b == 90
is_pe _ = false

-- validateBinaryHeader
unfoldable pub validate_binary_header : Text → String → Option HeaderError
validate_binary_header head goos =
    if ltb (length head) 4
    then some too_short
    else if str_eq goos "linux"
    then (if is_elf head then none else some (if is_pe head then other_platform else no_elf))
    else if str_eq goos "windows"
    then (if is_pe head then none else some (if is_elf head then other_platform else no_pe))
    else some unknown_os

-- pickUploadLock
pub data UploadLock : Type 0 where
  upload_lock_frpc upload_lock_frps : UploadLock

unfoldable pub pick_upload_lock : String → UploadLock
pick_upload_lock kind = if str_eq kind "frpc" then upload_lock_frpc else upload_lock_frps

abbrev pub upload_bin_max_bytes : ℕ
upload_bin_max_bytes = 64 * 1024 * 1024

-- what ParseMultipartForm makes of the body: the field kind, and the file if there is one
pub data Form : Type 0 where
  body_too_large not_multipart : Form
  form : String → Option Text → Form

-- What a request meets: whether there is a downloader, the form, the locks that are held, the
-- download of each kind, how many bytes of the file can be peeked, the calls of Install, and the
-- state of each process if there is a process manager. The platform is that of Install, whose
-- override only tests set.
pub record UploadEnv : Type 0 where
  pub has_downloader : Bool
  pub body : Form
  pub held : UploadLock → Bool
  pub download : String → DownloadState
  pub peeked : ℕ
  pub install_env : InstallEnv
  pub process : Option (String → State)

-- UploadBinResponse; `advice` is the hint to restart
pub record Uploaded : Type 0 where
  pub kind : String
  pub sha256 : String
  pub size : ℕ
  pub path : String
  pub advice : Bool

pub data UploadReply : Type 0 where
  uploaded : Uploaded → UploadReply
  refused : Refusal → UploadReply

abbrev pub is_running : State → Bool
is_running running = true
is_running _ = false

abbrev pub runs : String → Option (String → State) → Bool
runs kind none = false
runs kind (some f) = is_running (f kind)

abbrev pub busy_download : Option DownloadState → Bool
busy_download none = false
busy_download (some st) = is_downloading st.status

-- `rel` makes a path relative to the root, `join` is filepath.Join
module _ (sha : Text → String) (trim rel : String → String) (join : String → String → String)
    (root : String) (env : UploadEnv) where
  abbrev pub upload_answer : String → Fs × Result InstallError Installed → Fs × UploadReply
  upload_answer kind (fs, ok i) = (
    fs,
    uploaded (record {
      kind = kind;
      sha256 = i.sha256;
      size = i.written;
      path = rel i.path;
      advice = runs kind env.process;
    }),
  )
  upload_answer kind (fs, err file_too_large) = (fs, refused (refusal 413 validation_failed "file"))
  upload_answer kind (fs, err _) = (fs, refused (refusal 500 internal ""))

  -- from the peek on
  abbrev pub check_header : String → Text → Fs → Option HeaderError → Fs × UploadReply
  check_header kind content fs (some e) = (fs, refused (refusal 422 validation_failed "file"))
  check_header kind content fs none =
      upload_answer kind
        (install sha env.install_env (pos upload_bin_max_bytes) content join root kind fs)

  abbrev pub peek_and_install : String → Text → Fs → Fs × UploadReply
  peek_and_install kind content fs =
      let head = take env.peeked (take 64 content) in
      if length head == 0
      then (fs, refused (refusal 422 validation_failed "file"))
      else check_header kind content fs (validate_binary_header head env.install_env.goos)

  -- from the look at the file on
  abbrev pub with_file : String → Option Text → Fs → Fs × UploadReply
  with_file kind none fs = (fs, refused (refusal 422 validation_failed "file"))
  with_file kind (some content) fs =
      if length content == 0
      then (fs, refused (refusal 422 validation_failed "file"))
      else if ltb upload_bin_max_bytes (length content)
      then (fs, refused (refusal 413 validation_failed "file"))
      else if env.held (pick_upload_lock kind)
      then (fs, refused (refusal 409 proc_busy ""))
      else if busy_download (status_of kind (env.download kind))
      then (fs, refused (refusal 409 proc_busy ""))
      else peek_and_install kind content fs

  abbrev pub with_kind : String → Option Text → Fs → Fs × UploadReply
  with_kind kind file fs =
      if str_eq kind ""
      then (fs, refused (refusal 422 validation_failed "kind"))
      else if not (is_kind kind)
      then (fs, refused (refusal 422 validation_failed "kind"))
      else with_file kind file fs

  abbrev pub with_form : Form → Fs → Fs × UploadReply
  with_form body_too_large fs = (fs, refused (refusal 413 validation_failed "file"))
  with_form not_multipart fs = (fs, refused (refusal 400 validation_failed ""))
  with_form (form kind file) fs = with_kind (trim kind) file fs

  -- (*handlers).uploadBin
  unfoldable pub upload_bin : Fs → Fs × UploadReply
  unfolding install status_of pick_upload_lock validate_binary_header
  upload_bin fs =
      if not env.has_downloader
      then (fs, refused (refusal 503 internal ""))
      else with_form env.body fs
