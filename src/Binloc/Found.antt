-- ===== src/Binloc/Found.antt =====
-- Where Install of internal/downloader/install.go puts a binary, internal/binloc/binloc.go finds it.
use frp_easy.Prelude.{
  ◌≡◌, refl, ◌∙◌, ap, Bool, true, false, some, String, str_eq, eq_iff, Text, Result, ok, err, ℤ,
  if◌then◌else◌, Bool-cases, inl, inr, arith,
}
use frp_easy.Files.{Fs}
use frp_easy.Downloader.{is_kind}
use frp_easy.Downloader.Release.{Params, for_kind, resolve_params}
use frp_easy.Downloader.Install.{InstallEnv, Installed, InstallError, install}
use frp_easy.Downloader.Install.Leaves.{new_binary, IsFree, Leaves, install-Leaves}
use frp_easy.Binloc.{
  there, locate, frpc_rel_path, frps_rel_path, frpc_path, frps_path, bin_path_for, unknown_kind,
}

-- a name of the release is joined to its directory and the root in either order, and is not lost
pub record Joins (join : String → String → String) (root dir name : String) : Type 0 where
  pub either_order : join root (join dir name) ≡ join (join root dir) name
  pub is_some : str_eq (join dir name) "" ≡ false

-- the four names of the two releases
pub record JoinsAll (join : String → String → String) (root : String) : Type 0 where
  pub linux_frpc : Joins join root "frp_linux" "frpc"
  pub linux_frps : Joins join root "frp_linux" "frps"
  pub windows_frpc : Joins join root "frp_win" "frpc.exe"
  pub windows_frps : Joins join root "frp_win" "frps.exe"

module _ (join : String → String → String) (root goos : String) (stat_fails : String → Bool) where
  -- a path below the root is looked for where it is
  locate-join :
      (a b : String) (fs : Fs)
      → Joins join root a b
      → stat_fails (join (join root a) b) ≡ false
      → locate join root goos stat_fails (join a b) fs
        ≡ there join root goos stat_fails (join (join root a) b) (fs (join (join root a) b))
  unfolding locate
  locate-join a b fs j s = rw (j.is_some, j.either_order, s) refl

  -- the name below the directory, for a kind
  found_at :
      (dir frpc_name frps_name kind : String) (p : Params) (fs : Fs) (ext : String)
      → Joins join root dir frpc_name
      → Joins join root dir frps_name
      → is_kind kind ≡ true
      → some (for_kind join (join root dir) ext kind frpc_name frps_name) ≡ some p
      → stat_fails p.target_path ≡ false
      → (if str_eq kind "frpc"
          then locate join root goos stat_fails (join dir frpc_name) fs
          else if str_eq kind "frps"
          then locate join root goos stat_fails (join dir frps_name) fs
          else err unknown_kind)
        ≡ there join root goos stat_fails p.target_path (fs p.target_path)
  found_at dir frpc_name frps_name kind p fs ext j j' k known s =
      let same : for_kind join (join root dir) ext kind frpc_name frps_name ≡ p = cc known in
      elim (Bool-cases (str_eq kind "frpc")) [
        | inl e ↦
            let at : join (join root dir) frpc_name ≡ p.target_path =
              rw e at (ap (λ (q : Params). q.target_path) same) in
            rw (e, ← at) (locate-join dir frpc_name fs j (rw at s))
        | inr e ↦ elim (Bool-cases (str_eq kind "frps")) [
          | inl f ↦
              let at : join (join root dir) frps_name ≡ p.target_path =
                rw (e, f) at (ap (λ (q : Params). q.target_path) same) in
              rw (e, f, ← at) (locate-join dir frps_name fs j' (rw at s))
          | inr f ↦ absurd (ground (arith, k, e, f))
        ]
      ]

  resolve_params-bin_path_for :
      (kind : String) (p : Params) (fs : Fs)
      → JoinsAll join root
      → is_kind kind ≡ true
      → resolve_params join root kind goos ≡ some p
      → stat_fails p.target_path ≡ false
      → bin_path_for join root goos stat_fails kind fs
        ≡ there join root goos stat_fails p.target_path (fs p.target_path)
  unfolding resolve_params bin_path_for frpc_path frps_path frpc_rel_path frps_rel_path
  resolve_params-bin_path_for kind p fs j k known s = elim (Bool-cases (str_eq goos "linux")) [
    | inl l ↦
        let other : str_eq goos "windows" ≡ false = rw ((eq_iff goos "linux").0 l) refl in
        rw (l, other)
          (found_at "frp_linux" "frpc" "frps" kind p fs ".tar.gz" j.linux_frpc j.linux_frps k
            (rw l at known) s)
    | inr l ↦ elim (Bool-cases (str_eq goos "windows")) [
      | inl w ↦ rw w (
          found_at "frp_win" "frpc.exe" "frps.exe" kind p fs ".zip" j.windows_frpc j.windows_frps k
            (rw (l, w) at known) s)
      | inr w ↦ cc (rw (l, w) at known)
    ]
  ]

module _ (sha : Text → String) (env : InstallEnv) (max_bytes : ℤ) (src : Text) where
  Leaves-ok :
      (target : String) (fs : Fs) (o : Fs × Result InstallError Installed) (i : Installed)
      → Leaves sha env max_bytes src env.temp target fs o
      → o.1 ≡ ok i
      → (i.path ≡ target) × (o.0 target ≡ some (new_binary sha env max_bytes src))
  Leaves-ok target fs (fs', err e) i h same = cc
  Leaves-ok target fs (fs', ok j) i (named, limit, there) same =
      let self = (eq_iff target target).1 refl in
      let alike : j ≡ i = cc same in (rw (← alike, named) refl, there target ∙ rw self refl)

  -- A binary that Install has put in place is the one that the process manager starts: the locator
  -- finds it at the path of Install's answer, on both platforms and for both kinds, if the temporary
  -- name was new, os.Stat works there, and filepath.Join gives the same path for each of the four names
  -- of the releases whether the root is joined to its directory first or last, and no empty one.
  pub bin_path_for-install :
      (join : String → String → String) (root : String) (stat_fails : String → Bool) (kind : String)
      (fs : Fs) (p : Params) (i : Installed)
      → JoinsAll join root
      → is_kind kind ≡ true
      → resolve_params join root kind env.goos ≡ some p
      → stat_fails p.target_path ≡ false
      → IsFree env.temp p.target_path fs
      → (install sha env max_bytes src join root kind fs).1 ≡ ok i
      → bin_path_for join root env.goos stat_fails kind
          (install sha env max_bytes src join root kind fs).0
        ≡ ok i.path
  bin_path_for-install join root stat_fails kind fs p i joins k known s free done =
      let o = install sha env max_bytes src join root kind fs in
      let leaves = install-Leaves sha env max_bytes src join root kind fs p known free in
      let (named, placed) = Leaves-ok p.target_path fs o i leaves done in
      let found =
        resolve_params-bin_path_for join root env.goos stat_fails kind p o.0 joins k known s in
      rw (found, placed, named) refl
