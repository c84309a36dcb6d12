-- ===== src/Storage/Migrate/Load.antt =====
-- loadMigrations of internal/storage/store.go.
use frp_easy.Prelude.{
  ℤ, ◌≡◌, Bool, false, Option, none, some, List, [], ◌∷◌, Text, codes, strip_suffix, cut_at, Result,
  ok, err, bind, if◌then◌else◌, ltb_ℤ,
}

-- an entry of the embedded directory, and its text if it can be read
pub record DirEntry : Type 0 where
  pub name : Text
  pub is_dir : Bool
  pub text : Option Text

pub record Migration : Type 0 where
  pub version : ℤ
  pub name : Text
  pub up_sql : Text

pub data LoadError : Type 0 where
  no_dir malformed_name bad_version unreadable : LoadError

abbrev pub insert_sorted : Migration → List Migration → List Migration
insert_sorted m [] = m ∷ []
insert_sorted m (x ∷ xs) =
    let rest = insert_sorted m xs in if ltb_ℤ x.version m.version then x ∷ rest else m ∷ x ∷ xs

-- sort.Slice by version
unfoldable pub sort_by_version : List Migration → List Migration
sort_by_version [] = []
sort_by_version (m ∷ ms) = insert_sorted m (sort_by_version ms)

-- `scan` is fmt.Sscanf with the format %d
module _ (scan : Text → Option ℤ) where
  abbrev pub with_text : ℤ → Text → Option Text → Result LoadError Migration
  with_text v slug none = err unreadable
  with_text v slug (some t) = ok (record { version = v; name = slug; up_sql = t })

  abbrev pub with_version : Text → Option Text → Option ℤ → Result LoadError Migration
  with_version slug text none = err bad_version
  with_version slug text (some v) = with_text v slug text

  abbrev pub with_parts : Option Text → Option (Text × Text) → Result LoadError Migration
  with_parts text none = err malformed_name
  with_parts text (some (number, slug)) = with_version slug text (scan number)

  abbrev pub consed :
      Result LoadError (List Migration) → Migration → Result LoadError (List Migration)
  consed (err e) m = err e
  consed (ok ms) m = ok (m ∷ ms)

  abbrev pub with_base :
      Option Text
      → Result LoadError (List Migration)
      → Option Text
      → Result LoadError (List Migration)
  with_base text rest none = rest
  with_base text rest (some base) = bind (with_parts text (cut_at 95 base)) (consed rest)

  -- the loop over the entries
  unfoldable pub load_entries : List DirEntry → Result LoadError (List Migration)
  unfolding strip_suffix cut_at
  load_entries [] = ok []
  load_entries (e ∷ es) =
      let rest = load_entries es in
      if e.is_dir then rest else with_base e.text rest (strip_suffix (codes ".up.sql") e.name)

  abbrev pub sorted : Result LoadError (List Migration) → Result LoadError (List Migration)
  sorted (err e) = err e
  sorted (ok ms) = ok (sort_by_version ms)

  -- loadMigrations
  unfoldable pub load_migrations : Option (List DirEntry) → Result LoadError (List Migration)
  unfolding load_entries sort_by_version
  load_migrations none = err no_dir
  load_migrations (some es) = sorted (load_entries es)

-- no version comes before a smaller one
abbrev pub Ascending : List Migration → Type 0
Ascending [] = Unit
Ascending (m ∷ []) = Unit
Ascending (m ∷ n ∷ ms) = (ltb_ℤ n.version m.version ≡ false) × Ascending (n ∷ ms)
