-- ===== src/Downloader/Install.antt =====
-- Install of internal/downloader/install.go, on a file system whose calls may fail.
pub mod Leaves
use frp_easy.Prelude.{
  ℕ, zero, suc, Bool, true, false, not, ◌&&◌, Option, none, some, String, str_eq, Text, Result, ok,
  err, if◌then◌else◌, ltb, ℤ, pos, negsuc, length, take,
}
use frp_easy.Files.{Fs, create, remove, try_remove, chmod, write_file, rename}
use frp_easy.Downloader.{is_kind}
use frp_easy.Downloader.Release.{Params, resolve_params}

-- `rename_failed` and `replace_failed` have the same text: after the second one the old file is gone
pub data InstallError : Type 0 where
  install_os install_kind mkdir_failed create_failed copy_failed file_too_large : InstallError
  sync_failed close_failed remove_failed rename_failed replace_failed : InstallError

-- The environment of one run: the name that os.CreateTemp finds with its mode, after how many bytes
-- the copy stops with an error, and the calls that fail; a removal that fails because there is no
-- such file counts as done. `cleanup_fails` is whether the
-- deferred removal of the temporary file fails, whose error is dropped.
pub record InstallEnv : Type 0 where
  pub goos : String
  pub mkdir_fails : Bool
  pub temp : Option String
  pub temp_mode : ℕ
  pub copy_stops : Option ℕ
  pub sync_fails : Bool
  pub close_fails : Bool
  pub rename_fails : Bool
  pub remove_fails : Bool
  pub rename_again_fails : Bool
  pub chmod_fails : Bool
  pub cleanup_fails : Bool

pub record Installed : Type 0 where
  pub sha256 : String
  pub written : ℕ
  pub path : String

abbrev pub executable : ℕ
executable = 493

-- io.LimitReader of one byte more than allowed, if there is a limit
unfoldable pub limited : ℤ → Text → Text
limited (negsuc _) src = src
limited (pos zero) src = src
limited (pos (suc n)) src = take (suc (suc n)) src

unfoldable pub exceeds : ℤ → ℕ → Bool
exceeds (negsuc _) written = false
exceeds (pos zero) written = false
exceeds (pos (suc n)) written = ltb (suc n) written

-- `sha` is the hexadecimal SHA-256, `src` what the reader gives, `max_bytes` the limit if positive
module _ (sha : Text → String) (env : InstallEnv) (max_bytes : ℤ) (src : Text) where
  abbrev pub installed : String → Installed
  installed target = record {
    sha256 = sha (limited max_bytes src);
    written = length (limited max_bytes src);
    path = target;
  }

  -- the chmod on Linux, whose failure is only logged
  abbrev pub make_executable : String → Fs → Fs
  make_executable target fs =
      if str_eq env.goos "linux" && not env.chmod_fails then chmod target executable fs else fs

  -- from os.Rename on; `fs` has the whole temporary file
  unfoldable pub rename_onto : String → String → Fs → Fs × Result InstallError Installed
  rename_onto temp target fs =
      if not env.rename_fails
      then (make_executable target (rename temp target fs), ok (installed target))
      else if not (str_eq env.goos "windows")
      then (try_remove env.cleanup_fails temp fs, err rename_failed)
      else if env.remove_fails
      then (try_remove env.cleanup_fails temp fs, err remove_failed)
      else if env.rename_again_fails
      then (try_remove env.cleanup_fails temp (remove target fs), err replace_failed)
      else (make_executable target (rename temp target (remove target fs)), ok (installed target))

  -- after io.Copy; the deferred removal of the temporary file stands at each end
  abbrev pub after_copy : String → String → Fs → Option ℕ → Fs × Result InstallError Installed
  after_copy temp target fs (some n) =
      (try_remove env.cleanup_fails temp (write_file temp (take n src) fs), err copy_failed)
  after_copy temp target fs none =
      let written = write_file temp (limited max_bytes src) fs in
      if exceeds max_bytes (length (limited max_bytes src))
      then (try_remove env.cleanup_fails temp written, err file_too_large)
      else if env.sync_fails
      then (try_remove env.cleanup_fails temp written, err sync_failed)
      else if env.close_fails
      then (try_remove env.cleanup_fails temp written, err close_failed)
      else rename_onto temp target written

  abbrev pub create_and_copy : String → Option String → Fs → Fs × Result InstallError Installed
  create_and_copy target none fs = (fs, err create_failed)
  create_and_copy target (some temp) fs =
      after_copy temp target (create temp env.temp_mode fs) env.copy_stops

  abbrev pub install_at : String → Option Params → Fs → Fs × Result InstallError Installed
  install_at kind none fs = (fs, err install_os)
  install_at kind (some p) fs =
      if not (is_kind kind)
      then (fs, err install_kind)
      else if env.mkdir_fails
      then (fs, err mkdir_failed)
      else create_and_copy p.target_path env.temp fs

  -- (*Manager).Install; `join` is filepath.Join
  unfoldable pub install :
      (String → String → String) → String → String → Fs → Fs × Result InstallError Installed
  unfolding limited exceeds rename_onto resolve_params
  install join root kind fs = install_at kind (resolve_params join root kind env.goos) fs
