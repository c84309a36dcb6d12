-- ===== src/Frpconf/AtomicWrite/Safety.antt =====
-- What a crash or a failed call of AtomicWrite (internal/frpconf/render.go) leaves of the target.
use frp_easy.Prelude.{
  ◌≡◌, refl, ◌⊎◌, inl, inr, false, some, [], String, str_eq, eq_iff, Text, take, All, Bool-cases,
}
use frp_easy.Files.{File, Fs, create, chmod, write_file}
use frp_easy.Frpconf.AtomicWrite.{
  WriteEnv, owner_only, atomic_write, create_and_write, write_and_rename, rename_and_chmod,
  chmod_target, rename_temp, mkdir, create_temp, chmod_temp, write_temp, sync_temp, close_temp,
}

module _ (env : WriteEnv) (path : String) (content : Text) (fs : Fs) where
  -- the old target, or the whole new one, which only the owner may read
  abbrev pub OldOrNew : Fs → Type 0
  OldOrNew g =
      (g path ≡ fs path) ⊎ (g path ≡ some (record { content = content; mode = owner_only }))

  abbrev new_file : File
  new_file = record { content = content; mode = owner_only }

  rename_and_chmod-OldOrNew :
      (g : Fs)
      → str_eq env.temp path ≡ false
      → g path ≡ fs path
      → g env.temp ≡ some new_file
      → All OldOrNew (rename_and_chmod env path content g).seen
  rename_and_chmod-OldOrNew g ne old new =
      let same = (eq_iff path path).1 refl in
      elim (Bool-cases (env.fails rename_temp)) [
        | inl e ↦ rw (e, ne) (inl old, (inl old, tt))
        | inr e ↦ elim (Bool-cases (env.fails chmod_target)) [
          | inl f ↦ rw (e, f, ne, same, new) (inl old, (inr refl, tt))
          | inr f ↦ rw (e, f, ne, same, new) (inl old, (inr refl, (inr refl, tt)))
        ]
      ]

  write_and_rename-OldOrNew :
      (g : Fs) (f : File)
      → str_eq env.temp path ≡ false
      → g path ≡ fs path
      → g env.temp ≡ some f
      → f.mode ≡ owner_only
      → All OldOrNew (write_and_rename env path content g).seen
  write_and_rename-OldOrNew g f ne old tmp mode =
      let self = (eq_iff env.temp env.temp).1 refl in
      elim (Bool-cases (env.fails write_temp)) [
        | inl e ↦ rw (e, ne) (inl old, (inl old, (inl old, tt)))
        | inr e ↦ elim (Bool-cases (env.fails sync_temp)) [
          | inl h ↦ rw (e, h, ne) (inl old, (inl old, (inl old, (inl old, tt))))
          | inr h ↦ elim (Bool-cases (env.fails close_temp)) [
            | inl k ↦ rw (e, h, k, ne) (inl old, (inl old, (inl old, (inl old, tt))))
            | inr k ↦
                let torn_old : write_file env.temp (take env.partial content) g path ≡ fs path =
                  rw ne old in
                let rest =
                  rename_and_chmod-OldOrNew (write_file env.temp content g) ne (rw ne old)
                    (rw (self, tmp, mode)) in
                rw (e, h, k) (inl old, (inl torn_old, rest))
          ]
        ]
      ]

  create_and_write-OldOrNew :
      str_eq env.temp path ≡ false → All OldOrNew (create_and_write env path content fs).seen
  create_and_write-OldOrNew ne =
      let self = (eq_iff env.temp env.temp).1 refl in
      let created = create env.temp env.temp_mode fs in
      let created_old : created path ≡ fs path = rw ne in
      elim (Bool-cases (env.fails chmod_temp)) [
        | inl e ↦ rw (e, ne) (inl refl, (inl refl, (inl refl, tt)))
        | inr e ↦
            let rest =
              write_and_rename-OldOrNew (chmod env.temp owner_only created)
                (record { content = []; mode = owner_only }) ne (rw ne) (rw self) refl in
            rw e (inl refl, (inl created_old, rest))
      ]

  -- In every state that a call of AtomicWrite leaves behind, failing calls included, the target is as
  -- it was or holds the whole new content, readable by its owner only.
  pub atomic_write_safe :
      str_eq env.temp path ≡ false → All OldOrNew (atomic_write env path content fs).seen
  unfolding atomic_write
  atomic_write_safe ne = elim (Bool-cases (str_eq path "")) [
    | inl e ↦ rw e (inl refl, tt)
    | inr e ↦ elim (Bool-cases (env.fails mkdir)) [
      | inl h ↦ rw (e, h) (inl refl, tt)
      | inr h ↦ elim (Bool-cases (env.fails create_temp)) [
        | inl k ↦ rw (e, h, k) (inl refl, tt)
        | inr k ↦ rw (e, h, k) (create_and_write-OldOrNew ne)
      ]
    ]
  ]
