-- ===== src/Downloader/Install/Leaves.antt =====
-- What Install of internal/downloader/install.go leaves of the files.
use frp_easy.Prelude.{
  ℕ, zero, suc, [], ◌∷◌, ap, ◌≡◌, refl, Bool, true, false, not, ◌&&◌, Option, none, some, String,
  str_eq, eq_iff, Text, Result, ok, err, if◌then◌else◌, ltb, ℤ, pos, negsuc, length, take, arith,
  Bool-cases, inl, inr,
}
use frp_easy.Files.{File, Fs, create, remove, try_remove, write_file, rename}
use frp_easy.Files.Temp.{Agrees, if_same, tried, renamed}
use frp_easy.Downloader.{is_kind}
use frp_easy.Downloader.Release.{Params, resolve_params}
use frp_easy.Downloader.Install.{
  InstallError, InstallEnv, Installed, replace_failed, executable, limited, exceeds, installed,
  make_executable, rename_onto, after_copy, create_and_copy, install,
}

abbrev pub is_replace : InstallError → Bool
is_replace replace_failed = true
is_replace _ = false

-- the name that os.CreateTemp finds is new
abbrev pub IsFree : Option String → String → Fs → Type 0
IsFree none target fs = Unit
IsFree (some temp) target fs = (fs temp ≡ none) × (str_eq temp target ≡ false)

short_take : (n : ℕ) (s : Text) → ltb n (length (take (suc n) s)) ≡ false → take (suc n) s ≡ s
short_take n [] h = refl
short_take zero (c ∷ s) h = absurd (ground (arith, h))
short_take (suc n) (c ∷ s) h = ap (λ t. c ∷ t) (short_take n s (ground (arith, h)))

all_of_limited :
    (max_bytes : ℤ) (src : Text)
    → exceeds max_bytes (length (limited max_bytes src)) ≡ false
    → limited max_bytes src ≡ src
unfolding limited exceeds
all_of_limited (negsuc _) src h = refl
all_of_limited (pos zero) src h = refl
all_of_limited (pos (suc n)) src h = short_take (suc n) src h

module _ (sha : Text → String) (env : InstallEnv) (max_bytes : ℤ) (src : Text) where
  abbrev pub new_binary : File
  new_binary = record {
    content = src;
    mode = if str_eq env.goos "linux" && not env.chmod_fails then executable else env.temp_mode;
  }

  -- the temporary file that is left where its removal fails
  abbrev pub is_left : Option String → String → Bool
  is_left none q = false
  is_left (some temp) q = env.cleanup_fails && str_eq temp q

  -- after a success the target holds all that the reader gives, within the limit, and after an error
  -- all is as it was, but for the target on Windows if its replacement failed, and for a temporary file
  -- that is left
  abbrev pub Leaves : Option String → String → Fs → Fs × Result InstallError Installed → Type 0
  Leaves temp target fs (fs', ok i) =
      (i ≡ record { sha256 = sha src; written = length src; path = target })
      × (exceeds max_bytes (length src) ≡ false)
      × ((q : String) → fs' q ≡ (if str_eq target q then some new_binary else fs q))
  Leaves temp target fs (fs', err e) =
      ((is_replace e ≡ true) → str_eq env.goos "windows" ≡ true)
      × ((q : String)
          → fs' q ≡ (
              if is_replace e && str_eq target q
              then none
              else if is_left temp q
              then fs' q
              else fs q))

  limited_all :
      exceeds max_bytes (length (limited max_bytes src)) ≡ false → limited max_bytes src ≡ src
  limited_all h = all_of_limited max_bytes src h

  installed_all :
      (target : String)
      → exceeds max_bytes (length (limited max_bytes src)) ≡ false
      → (installed sha env max_bytes src target
          ≡ record { sha256 = sha src; written = length src; path = target })
        × (exceeds max_bytes (length src) ≡ false)
  installed_all target h = let e = limited_all h in (rw e, rw e at h)

  module _ (temp target : String) (fs : Fs) (fresh : fs temp ≡ none)
      (ne : str_eq temp target ≡ false) where
    make_executable_lem :
        (g : Fs)
        → ((q : String)
            → g q ≡ (
                if str_eq target q
                then some (record { content = src; mode = env.temp_mode })
                else fs q))
        → (q : String)
        → make_executable sha env max_bytes src target g q
          ≡ (if str_eq target q then some new_binary else fs q)
    make_executable_lem g h q = elim (Bool-cases (str_eq env.goos "linux" && not env.chmod_fails)) [
      | inr e ↦ rw e (h q)
      | inl e ↦ elim (Bool-cases (str_eq target q)) [
        | inl f ↦ let self = (eq_iff target target).1 refl in rw (e, f, h target, self)
        | inr f ↦ rw (e, f, h q, f)
      ]
    ]

    -- on Windows the target is removed first
    without_target-Agrees :
        (g : Fs) → Agrees temp fs g → Agrees temp (remove target fs) (remove target g)
    without_target-Agrees g a q e = elim (Bool-cases (str_eq target q)) [
      | inl f ↦ rw f
      | inr f ↦ rw f (a q e)
    ]

    renamed_again :
        (g : Fs)
        → Agrees temp fs g
        → g temp ≡ some (record { content = src; mode = env.temp_mode })
        → (q : String)
        → rename temp target (remove target g) q ≡ (
            if str_eq target q then some (record { content = src; mode = env.temp_mode }) else fs q)
    renamed_again g a new q =
        let other : str_eq target temp ≡ false =
          ground (arith, ne, eq_iff target temp, eq_iff temp target) in
        let again =
          renamed temp (remove target fs) (rw other fresh) target
            (record { content = src; mode = env.temp_mode }) (remove target g) ne
            (without_target-Agrees g a) (rw other new) q in
        elim (Bool-cases (str_eq target q)) [
          | inl f ↦ rw f (rw f at again)
          | inr f ↦ rw f (rw f at again)
        ]

    lost_target :
        (g : Fs)
        → Agrees temp fs g
        → (q : String)
        → try_remove env.cleanup_fails temp (remove target g) q ≡ (
            if str_eq target q
            then none
            else if is_left (some temp) q
            then try_remove env.cleanup_fails temp (remove target g) q
            else fs q)
    lost_target g a q = elim (Bool-cases (str_eq target q)) [
      | inl e ↦
          let other : str_eq temp q ≡ false =
            ground (arith, ne, e, eq_iff temp q, eq_iff target q, eq_iff temp target) in
          rw (e, other) refl
      | inr e ↦
          let gone : remove target fs temp ≡ none = ground (arith, fresh) in
          rw e (
            rw e at (
              tried temp (remove target fs) gone env.cleanup_fails (remove target g)
                (without_target-Agrees g a) q))
    ]

    rename_onto-Leaves :
        (g : Fs)
        → Agrees temp fs g
        → g temp ≡ some (record { content = src; mode = env.temp_mode })
        → exceeds max_bytes (length (limited max_bytes src)) ≡ false
        → Leaves (some temp) target fs (rename_onto sha env max_bytes src temp target g)
    unfolding rename_onto
    rename_onto-Leaves g a new small = elim (Bool-cases env.rename_fails) [
      | inr e ↦ rw e (
        (installed_all target small).0,
        (installed_all target small).1,
        make_executable_lem (rename temp target g) (renamed temp fs fresh target _ g ne a new),
      )
      | inl e ↦ elim (Bool-cases (str_eq env.goos "windows")) [
        | inr w ↦ rw (e, w) (λ h. cc, tried temp fs fresh env.cleanup_fails g a)
        | inl w ↦ elim (Bool-cases env.remove_fails) [
          | inl f ↦ rw (e, w, f) (λ h. cc, tried temp fs fresh env.cleanup_fails g a)
          | inr f ↦ elim (Bool-cases env.rename_again_fails) [
            | inl k ↦ rw (e, w, f, k) (λ h. w, lost_target g a)
            | inr k ↦
                rw (e, w, f, k)
                  (
                    (installed_all target small).0,
                    (installed_all target small).1,
                    make_executable_lem (rename temp target (remove target g))
                        (renamed_again g a new),
                  )
          ]
        ]
      ]
    ]

    after_copy-Leaves :
        (o : Option ℕ)
        → Leaves
            (some temp)
            target
            fs
            (after_copy sha env max_bytes src temp target (create temp env.temp_mode fs) o)
    unfolding rename_onto
    after_copy-Leaves (some n) = (
      λ h. cc,
      tried temp fs fresh env.cleanup_fails
          (write_file temp (take n src) (create temp env.temp_mode fs)) (λ q e. rw e),
    )
    after_copy-Leaves none =
        let created = create temp env.temp_mode fs in
        let written = write_file temp (limited max_bytes src) created in
        let self = (eq_iff temp temp).1 refl in
        let agrees : Agrees temp fs written = λ q e. rw e in
        let gone = tried temp fs fresh env.cleanup_fails written agrees in
        elim (Bool-cases (exceeds max_bytes (length (limited max_bytes src)))) [
          | inl e ↦ rw e (λ h. cc, gone)
          | inr e ↦ elim (Bool-cases env.sync_fails) [
            | inl f ↦ rw (e, f) (λ h. cc, gone)
            | inr f ↦ elim (Bool-cases env.close_fails) [
              | inl k ↦ rw (e, f, k) (λ h. cc, gone)
              | inr k ↦
                  rw (e, f, k) (rename_onto-Leaves written agrees (rw (self, limited_all e)) e)
            ]
          ]
        ]

  create_and_copy-Leaves :
      (target : String) (o : Option String) (fs : Fs)
      → IsFree o target fs
      → Leaves o target fs (create_and_copy sha env max_bytes src target o fs)
  create_and_copy-Leaves target none fs free = (λ h. cc, λ q. refl)
  create_and_copy-Leaves target (some temp) fs (fresh, ne) =
      after_copy-Leaves temp target fs fresh ne env.copy_stops

  -- Install on a platform that it knows leaves the whole of what it was given at the kind's path, and
  -- executable on Linux if the last chmod works, with all other paths as they were, or it has failed
  -- and all paths are as they were: but for Windows, where the old binary is gone if it was in the way
  -- and the second rename failed. What it installs is within the limit.
  pub install-Leaves :
      (join : String → String → String) (root kind : String) (fs : Fs) (p : Params)
      → resolve_params join root kind env.goos ≡ some p
      → IsFree env.temp p.target_path fs
      → Leaves env.temp p.target_path fs (install sha env max_bytes src join root kind fs)
  unfolding install
  install-Leaves join root kind fs p known free = rw known (elim (Bool-cases (is_kind kind)) [
    | inr e ↦ rw e (λ h. cc, λ q. if_same (is_left env.temp q) (fs q))
    | inl e ↦ elim (Bool-cases env.mkdir_fails) [
      | inl f ↦ rw (e, f) (λ h. cc, λ q. if_same (is_left env.temp q) (fs q))
      | inr f ↦ rw (e, f) (create_and_copy-Leaves p.target_path env.temp fs free)
    ]
  ])
