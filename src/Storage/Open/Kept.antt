-- ===== src/Storage/Open/Kept.antt =====
-- What becomes of an old database file in Open of internal/storage/store.go.
use frp_easy.Prelude.{
  ℤ, ◌≡◌, ◌⊎◌, Bool, true, false, Option, none, List, [], ◌∷◌, String, str_eq, Text, if◌then◌else◌,
}
use frp_easy.Files.{Fs}
use frp_easy.Storage.Migrate.Load.{DirEntry}
use frp_easy.Storage.Migrate.Apply.{Db, migrate}
use frp_easy.Storage.Open.{
  Beside, OpenEnv, Opened, opened, open_failed, sqlite_failed, is_broken, probed, migrated,
}

-- a file beside the database has another name than `p`, before and after
pub record Apart (p : String) (b : Beside) : Type 0 where
  pub from_ne : str_eq b.from_path p ≡ false
  pub to_ne : str_eq b.to_path p ≡ false

unfoldable pub is_beside : List Beside → String → Bool
is_beside [] q = false
is_beside (b ∷ bs) q = let rest = is_beside bs q in if str_eq b.from_path q then true else rest

-- the paths that SQLite writes: the database and the files beside it
abbrev pub is_own : OpenEnv → String → Bool
is_own env q = if str_eq env.db_path q then true else is_beside env.beside q

-- SQLite leaves all other paths
abbrev pub Leaves : OpenEnv → Fs → Fs → Type 0
Leaves env fs fs' = (q : String) → fs' q ≡ (if is_own env q then fs' q else fs q)

module _ {D : Type 0} (run : Text → Db D → Option (Db D)) (scan : Text → Option ℤ)
    (read_db : Fs → Db D) where
  abbrev pub is_reset : Opened D → Bool
  is_reset (opened b db) = b
  is_reset (open_failed e) = false

  -- what the database comes to that SQLite makes of the files `g`
  abbrev pub new_store : OpenEnv → Option (List DirEntry) → Fs → Opened D
  new_store env dir g =
      if env.sqlite_fails
      then open_failed sqlite_failed
      else migrated run scan read_db true (migrate run scan env.migrate_env dir (read_db g))

  -- only SQLite's own paths have changed, or the broken database is under its new name, as the test has
  -- left it, and the store is made where no file is at its path
  abbrev pub Kept : OpenEnv → Option (List DirEntry) → Fs → Fs × Opened D → Type 0
  Kept env dir fs (fs', o) =
      (Leaves env fs fs' × (is_reset o ≡ false))
      ⊎ ((is_broken env (fs env.db_path) ≡ true)
          × (fs' env.broken_path ≡ probed env (fs env.db_path) fs env.db_path)
          × (g : Fs) × (g env.db_path ≡ none)
          × (o ≡ new_store env dir g))
