-- ===== src/Http/Upload/Examples.antt =====
-- An upload to internal/httpapi/handlers_system.go on Linux that replaces an old binary.
use frp_easy.Prelude.{
  ◌≡◌, refl, true, false, none, some, [], ◌∷◌, String, str_eq, Text, if◌then◌else◌, Bool-cases, inl,
  inr,
}
use frp_easy.Files.{Fs}
use frp_easy.Downloader.{new_state}
use frp_easy.Downloader.Release.{for_kind, resolve_params}
use frp_easy.Downloader.Install.{InstallEnv}
use frp_easy.Http.Upload.{UploadEnv, form, upload_bin}
use frp_easy.Http.Upload.Outcome.{NewName, Outcome, upload_bin-Outcome}

abbrev disk : Fs
disk q = if str_eq "frpc" q then some (record { content = 1 ∷ []; mode = 493 }) else none

abbrev calls : InstallEnv
calls = record {
  goos = "linux";
  mkdir_fails = false;
  temp = some ".install-1.tmp";
  temp_mode = 384;
  copy_stops = none;
  sync_fails = false;
  close_fails = false;
  rename_fails = false;
  remove_fails = false;
  rename_again_fails = false;
  chmod_fails = false;
  cleanup_fails = false;
}

abbrev program : Text
program = 0x7F ∷ 69 ∷ 76 ∷ 70 ∷ 2 ∷ []

abbrev env : UploadEnv
env = record {
  has_downloader = true;
  body = form "frpc" (some program);
  held = λ l. false;
  download = λ k. new_state;
  peeked = 64;
  install_env = calls;
  process = none;
}

abbrev sha : Text → String
sha t = "5f0c"

abbrev trim : String → String
trim s = s

abbrev join : String → String → String
join dir name = name

stored :
    (upload_bin sha trim trim join "/opt" env disk).0 "frpc"
    ≡ some (record { content = program; mode = 493 })
unfolding upload_bin new_state
stored = refl

apart :
    (kind : String)
    → str_eq ".install-1.tmp" (for_kind join "frp_linux" ".tar.gz" kind "frpc" "frps").target_path
      ≡ false
apart kind = elim (Bool-cases (str_eq kind "frpc")) [
  | inl e ↦ rw e
  | inr e ↦ elim (Bool-cases (str_eq kind "frps")) [ inl f ↦ rw (e, f) | inr f ↦ rw (e, f) ]
]

new_name : NewName sha trim trim join "/opt" env disk
unfolding resolve_params
new_name kind p h =
    let e : for_kind join "frp_linux" ".tar.gz" kind "frpc" "frps" ≡ p = cc h in
    (refl, rw (← e) (apart kind))

upload_bin-Outcome_example :
    Outcome sha trim trim join "/opt" env disk (upload_bin sha trim trim join "/opt" env disk)
upload_bin-Outcome_example = upload_bin-Outcome sha trim trim join "/opt" env disk new_name
