-- ===== src/Frpconf/AtomicWrite/Result.antt =====
-- The files after AtomicWrite of internal/frpconf/render.go has returned.
use frp_easy.Prelude.{
  ◌≡◌, refl, Bool, true, false, not, ◌&&◌, Option, none, some, [], String, str_eq, eq_iff, Text,
  if◌then◌else◌, take, Bool-cases, inl, inr,
}
use frp_easy.Files.{File, Fs, create, chmod, write_file}
use frp_easy.Files.Temp.{Agrees, if_same, tried, renamed}
use frp_easy.Frpconf.AtomicWrite.{
  WriteError, WriteEnv, WriteRun, owner_only, atomic_write, create_and_write, write_and_rename,
  rename_and_chmod, chmod_target, rename_temp, mkdir, create_temp, chmod_temp, write_temp,
  sync_temp, close_temp,
}

-- whether the target has been replaced: the last call may fail after that
abbrev pub replaces : Option WriteError → Bool
replaces none = true
replaces (some chmod_target) = true
replaces (some _) = false

module _ (env : WriteEnv) (path : String) (content : Text) (fs : Fs) where
  abbrev pub new_file : File
  new_file = record { content = content; mode = owner_only }

  -- what is left at each path
  abbrev Leaves : WriteRun → Type 0
  Leaves r =
      (q : String)
      → r.fs q ≡ (
          if replaces r.error && str_eq path q
          then some new_file
          else if not (replaces r.error) && env.cleanup_fails && str_eq env.temp q
          then r.fs q
          else fs q)

  module _ (fresh : fs env.temp ≡ none) (ne : str_eq env.temp path ≡ false) where
    rename_and_chmod-Leaves :
        (g : Fs)
        → Agrees env.temp fs g
        → g env.temp ≡ some new_file
        → Leaves (rename_and_chmod env path content g)
    rename_and_chmod-Leaves g a new q = elim (Bool-cases (env.fails rename_temp)) [
      | inl e ↦ rw e (tried env.temp fs fresh env.cleanup_fails g a q)
      | inr e ↦ elim (Bool-cases (env.fails chmod_target)) [
        | inl f ↦ rw (e, f) (renamed env.temp fs fresh path new_file g ne a new q)
        | inr f ↦ elim (Bool-cases (str_eq path q)) [
          | inl h ↦ let self = (eq_iff path path).1 refl in rw (e, f, h, ne, self, new)
          | inr h ↦ rw (e, f, h) (rw h at (renamed env.temp fs fresh path new_file g ne a new q))
        ]
      ]
    ]

    write_and_rename-Leaves :
        (g : Fs) (f : File)
        → Agrees env.temp fs g
        → g env.temp ≡ some f
        → f.mode ≡ owner_only
        → Leaves (write_and_rename env path content g)
    write_and_rename-Leaves g f a tmp mode q =
        let self = (eq_iff env.temp env.temp).1 refl in
        let torn = write_file env.temp (take env.partial content) g in
        let written = write_file env.temp content g in
        let torn_agrees : Agrees env.temp fs torn = λ p e. rw e (a p e) in
        let agrees : Agrees env.temp fs written = λ p e. rw e (a p e) in
        elim (Bool-cases (env.fails write_temp)) [
          | inl e ↦ rw e (tried env.temp fs fresh env.cleanup_fails torn torn_agrees q)
          | inr e ↦ elim (Bool-cases (env.fails sync_temp)) [
            | inl h ↦ rw (e, h) (tried env.temp fs fresh env.cleanup_fails written agrees q)
            | inr h ↦ elim (Bool-cases (env.fails close_temp)) [
              | inl k ↦ rw (e, h, k) (tried env.temp fs fresh env.cleanup_fails written agrees q)
              | inr k ↦
                  rw (e, h, k) (rename_and_chmod-Leaves written agrees (rw (self, tmp, mode)) q)
            ]
          ]
        ]

    create_and_write-Leaves : Leaves (create_and_write env path content fs)
    create_and_write-Leaves q =
        let self = (eq_iff env.temp env.temp).1 refl in
        let created = create env.temp env.temp_mode fs in
        let agrees : Agrees env.temp fs created = λ p e. rw e in
        let still : Agrees env.temp fs (chmod env.temp owner_only created) = λ p e. rw e in
        elim (Bool-cases (env.fails chmod_temp)) [
          | inl e ↦ rw e (tried env.temp fs fresh env.cleanup_fails created agrees q)
          | inr e ↦ rw e (
              write_and_rename-Leaves (chmod env.temp owner_only created)
                (record { content = []; mode = owner_only }) still (rw self) refl q)
        ]

    -- After AtomicWrite, if the name of the temporary file was free: the target holds the new content,
    -- readable by its owner only, if the call succeeded or only its last chmod failed; it is as it was
    -- after any other failure; and every other path is as it was, but for the temporary file, which is
    -- left after such a failure if its removal fails too.
    pub atomic_write_lem :
        (q : String)
        → (atomic_write env path content fs).fs q ≡ (
            if replaces (atomic_write env path content fs).error && str_eq path q
            then some new_file
            else if not (replaces (atomic_write env path content fs).error)
                && env.cleanup_fails
                && str_eq env.temp q
            then (atomic_write env path content fs).fs q
            else fs q)
    unfolding atomic_write
    atomic_write_lem q = elim (Bool-cases (str_eq path "")) [
      | inl e ↦ rw e (if_same (env.cleanup_fails && str_eq env.temp q) (fs q))
      | inr e ↦ elim (Bool-cases (env.fails mkdir)) [
        | inl h ↦ rw (e, h) (if_same (env.cleanup_fails && str_eq env.temp q) (fs q))
        | inr h ↦ elim (Bool-cases (env.fails create_temp)) [
          | inl k ↦ rw (e, h, k) (if_same (env.cleanup_fails && str_eq env.temp q) (fs q))
          | inr k ↦ rw (e, h, k) (create_and_write-Leaves q)
        ]
      ]
    ]
