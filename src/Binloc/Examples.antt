-- ===== src/Binloc/Examples.antt =====
-- A binary of frpc that Install puts in place on Linux, and that the locator finds.
use Prim.Native.String.{◌++◌ as ◌<>◌}
use frp_easy.Prelude.{◌≡◌, refl, false, none, some, String, Text, ok, [], ◌∷◌, pos}
use frp_easy.Files.{Fs}
use frp_easy.Downloader.Release.{Params, resolve_params}
use frp_easy.Downloader.Install.{InstallEnv, Installed, install, limited, exceeds, rename_onto}
use frp_easy.Binloc.{bin_path_for}
use frp_easy.Binloc.Found.{JoinsAll, bin_path_for-install}

abbrev calls : InstallEnv
calls = record {
  goos = "linux";
  mkdir_fails = false;
  temp = some "/opt/frp_linux/.install-1.tmp";
  temp_mode = 384;
  copy_stops = none;
  sync_fails = false;
  close_fails = false;
  rename_fails = false;
  remove_fails = false;
  rename_again_fails = false;
  chmod_fails = false;
  cleanup_fails = false;
}

-- filepath.Join of clean names
abbrev join : String → String → String
join dir name = dir <> "/" <> name

joins : JoinsAll join "/opt"
joins = record {
  linux_frpc = record { either_order = refl; is_some = refl };
  linux_frps = record { either_order = refl; is_some = refl };
  windows_frpc = record { either_order = refl; is_some = refl };
  windows_frps = record { either_order = refl; is_some = refl };
}

abbrev sha : Text → String
sha t = "5f0c"

abbrev program : Text
program = 0x7F ∷ 69 ∷ 76 ∷ 70 ∷ []

abbrev disk : Fs
disk q = none

abbrev params : Params
params = record {
  target_dir = "/opt/frp_linux";
  target_path = "/opt/frp_linux/frpc";
  archive_ext = ".tar.gz";
  entry_name = "frpc";
}

abbrev answer : Installed
answer = record { sha256 = "5f0c"; written = 4; path = "/opt/frp_linux/frpc" }

placed : (install sha calls (pos 64) program join "/opt" "frpc" disk).1 ≡ ok answer
unfolding install limited exceeds rename_onto resolve_params
placed = refl

bin_path_for-install_example :
    bin_path_for join "/opt" "linux"
      (λ q. false)
      "frpc"
      (install sha calls (pos 64) program join "/opt" "frpc" disk).0
    ≡ ok "/opt/frp_linux/frpc"
unfolding resolve_params
bin_path_for-install_example =
    bin_path_for-install sha calls (pos 64) program join "/opt" (λ q. false) "frpc" disk params
      answer joins refl refl refl (refl, refl) placed
