-- ===== src/Frpconf/AtomicWrite.antt =====
-- AtomicWrite of internal/frpconf/render.go: a temporary file beside the target that is renamed onto it.
pub mod Safety
pub mod Result
pub mod Examples
use frp_easy.Prelude.{
  ℕ, Bool, true, false, Option, none, some, List, [], ◌∷◌, String, str_eq, Text, if◌then◌else◌,
  take,
}
use frp_easy.Files.{File, Fs, create, try_remove, chmod, write_file, rename}

-- the calls that may fail, and the refusal of an empty path
pub data WriteError : Type 0 where
  empty_path mkdir create_temp chmod_temp write_temp sync_temp close_temp rename_temp : WriteError
  chmod_target : WriteError

-- The environment of one run: the calls that fail, the name that os.CreateTemp finds and its mode,
-- how many bytes a failed write has written, and
-- whether the clean-up fails, whose error is dropped.
pub record WriteEnv : Type 0 where
  pub fails : WriteError → Bool
  pub temp : String
  pub temp_mode : ℕ
  pub partial : ℕ
  pub cleanup_fails : Bool

-- `seen` are the states of the files after each call, which a crash may leave
pub record WriteRun : Type 0 where
  pub seen : List Fs
  pub fs : Fs
  pub error : Option WriteError

abbrev pub owner_only : ℕ
owner_only = 384

-- a state that stands before the rest of a run
abbrev pub before : Fs → WriteRun → WriteRun
before fs r = record r { seen = fs ∷ r.seen }

abbrev pub stopped_at : WriteError → List Fs → Fs → WriteRun
stopped_at e seen fs = record { seen = seen; fs = fs; error = some e }

module _ (env : WriteEnv) (path : String) (content : Text) where
  -- from os.Rename on
  abbrev pub rename_and_chmod : Fs → WriteRun
  rename_and_chmod fs =
      let renamed = rename env.temp path fs in
      let final = chmod path owner_only renamed in
      if env.fails rename_temp
      then stopped_at rename_temp (fs ∷ try_remove env.cleanup_fails env.temp fs ∷ [])
          (try_remove env.cleanup_fails env.temp fs)
      else if env.fails chmod_target
      then stopped_at chmod_target (fs ∷ renamed ∷ []) renamed
      else record { seen = fs ∷ renamed ∷ final ∷ []; fs = final; error = none }

  -- from tmp.Write on
  abbrev pub write_and_rename : Fs → WriteRun
  write_and_rename fs =
      let torn = write_file env.temp (take env.partial content) fs in
      let written = write_file env.temp content fs in
      let cleaned = try_remove env.cleanup_fails env.temp written in
      if env.fails write_temp
      then stopped_at write_temp (fs ∷ torn ∷ try_remove env.cleanup_fails env.temp torn ∷ [])
          (try_remove env.cleanup_fails env.temp torn)
      else if env.fails sync_temp
      then stopped_at sync_temp (fs ∷ torn ∷ written ∷ cleaned ∷ []) cleaned
      else if env.fails close_temp
      then stopped_at close_temp (fs ∷ torn ∷ written ∷ cleaned ∷ []) cleaned
      else before fs (before torn (rename_and_chmod written))

  -- from os.CreateTemp on
  abbrev pub create_and_write : Fs → WriteRun
  create_and_write fs =
      let created = create env.temp env.temp_mode fs in
      let cleaned = try_remove env.cleanup_fails env.temp created in
      if env.fails chmod_temp
      then stopped_at chmod_temp (fs ∷ created ∷ cleaned ∷ []) cleaned
      else before fs (before created (write_and_rename (chmod env.temp owner_only created)))

  -- AtomicWrite
  unfoldable pub atomic_write : Fs → WriteRun
  atomic_write fs =
      if str_eq path ""
      then stopped_at empty_path (fs ∷ []) fs
      else if env.fails mkdir
      then stopped_at mkdir (fs ∷ []) fs
      else if env.fails create_temp
      then stopped_at create_temp (fs ∷ []) fs
      else create_and_write fs
