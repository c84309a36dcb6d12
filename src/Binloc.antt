-- ===== src/Binloc.antt =====
-- internal/binloc/binloc.go: where the binaries are looked for, on Files. The search for the root is
-- left out.
pub mod Found
pub mod Examples
use frp_easy.Prelude.{
  Bool, true, false, not, Option, none, some, List, [], ◌∷◌, ◌++◌, String, str_eq, Result, ok, err,
  if◌then◌else◌,
}
use frp_easy.Files.{File, Fs}

pub data LocateError : Type 0 where
  platform not_there stat_failed unknown_kind : LocateError

-- `join` is filepath.Join, and `stat_fails` whether os.Stat of a path fails for another reason than that
-- nothing is there
module _ (join : String → String → String) (root goos : String) (stat_fails : String → Bool) where
  -- frpcRelPath
  unfoldable pub frpc_rel_path : String
  frpc_rel_path =
      if str_eq goos "windows"
      then join "frp_win" "frpc.exe"
      else if str_eq goos "linux"
      then join "frp_linux" "frpc"
      else ""

  -- frpsRelPath
  unfoldable pub frps_rel_path : String
  frps_rel_path =
      if str_eq goos "windows"
      then join "frp_win" "frps.exe"
      else if str_eq goos "linux"
      then join "frp_linux" "frps"
      else ""

  abbrev pub there : String → Option File → Result LocateError String
  there abs none = err not_there
  there abs (some f) = ok abs

  -- (*fsLocator).resolve
  unfoldable pub locate : String → Fs → Result LocateError String
  locate rel fs =
      if str_eq rel ""
      then err platform
      else if stat_fails (join root rel)
      then err stat_failed
      else there (join root rel) (fs (join root rel))

  -- (*fsLocator).FRPCPath, FRPSPath
  unfoldable pub frpc_path : Fs → Result LocateError String
  frpc_path fs = locate frpc_rel_path fs

  unfoldable pub frps_path : Fs → Result LocateError String
  frps_path fs = locate frps_rel_path fs

  -- binPathFor of internal/procmgr/manager.go
  unfoldable pub bin_path_for : String → Fs → Result LocateError String
  bin_path_for kind fs =
      if str_eq kind "frpc"
      then frpc_path fs
      else if str_eq kind "frps"
      then frps_path fs
      else err unknown_kind

  abbrev pub if_missing : String → Result LocateError String → List String
  if_missing kind (err e) = kind ∷ []
  if_missing kind (ok path) = []

  -- (*fsLocator).Missing; the two names are in order
  unfoldable pub missing : Fs → List String
  missing fs = if_missing "frpc" (frpc_path fs) ++ if_missing "frps" (frps_path fs)
