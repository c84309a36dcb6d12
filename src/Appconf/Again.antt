-- ===== src/Appconf/Again.antt =====
-- A further Load of internal/appconf/config.go.
use frp_easy.Prelude.{
  ℕ, ◌≡◌, refl, false, Option, none, some, String, eq_iff, Text, ok, Bool-cases, inl, inr,
}
use frp_easy.Files.{File, Fs, create, write_file}
use frp_easy.Appconf.{
  AppConfig, default_config, Names, Toml, Os, validate, checked, fill, parsed, write_new,
  write_text, load_file, load_at, load,
}

-- the defaults have no empty field
fill-default_config : (names : Names) → fill names default_config ≡ default_config
unfolding fill default_config
fill-default_config names = refl

-- what os.WriteFile leaves in a new file
new_file :
    (path : String) (text : Text) (mode : ℕ) (fs : Fs)
    → write_file path text (create path mode fs) path
      ≡ some (record { content = text; mode = mode })
new_file path text mode fs = let self = (eq_iff path path).1 refl in rw self refl

module _ (names : Names) (toml : Toml) (os' : Os) (path : String)
    (reads : os'.read_fails ≡ false) where
  -- a Load of the files that are left gives the same settings and leaves them
  abbrev Repeats : Fs → AppConfig → Type 0
  Repeats fs c = load_file names toml os' path fs (fs path) ≡ (fs, ok c)

  -- the defaults as they are written are read back
  written_default :
      (text : Text)
      → toml.marshal default_config ≡ some text
      → parsed names toml (toml.unmarshal text default_config)
        ≡ checked default_config (validate names default_config)
  written_default text m =
      let back = toml.unmarshal-marshal default_config default_config text m in
      let full = fill-default_config names in simp (back, full) refl

  write_new-Repeats :
      (os : Os) (text : Text) (fs : Fs) (o : Option ℕ) (c : AppConfig)
      → toml.marshal default_config ≡ some text
      → (write_new names toml os path text fs o).1 ≡ ok c
      → Repeats (write_new names toml os path text fs o).0 c
  write_new-Repeats os text fs (some n) c m h = cc
  write_new-Repeats os text fs none c m h =
      let there = new_file path text os.mode fs in
      let read = written_default text m in simp (there, reads, read, h) refl

  write_text-Repeats :
      (os : Os) (fs : Fs) (o : Option Text) (c : AppConfig)
      → toml.marshal default_config ≡ o
      → (write_text names toml os path fs o).1 ≡ ok c
      → Repeats (write_text names toml os path fs o).0 c
  write_text-Repeats os fs none c m h = cc
  write_text-Repeats os fs (some text) c m h = elim (Bool-cases os.open_fails) [
    | inl e ↦ cc (simp e at h)
    | inr e ↦ simp e (write_new-Repeats os text fs os.write_stops c m (simp e at h))
  ]

  load_file-Repeats :
      (os : Os) (fs : Fs) (o : Option File) (c : AppConfig)
      → fs path ≡ o
      → (load_file names toml os path fs o).1 ≡ ok c
      → Repeats (load_file names toml os path fs o).0 c
  load_file-Repeats os fs none c at h = elim (Bool-cases os.mkdir_fails) [
    | inl e ↦ cc (simp e at h)
    | inr e ↦ simp e (write_text-Repeats os fs (toml.marshal default_config) c refl (simp e at h))
  ]
  load_file-Repeats os fs (some f) c at h = elim (Bool-cases os.read_fails) [
    | inl e ↦ cc (simp e at h)
    | inr e ↦ let same = simp e at h in simp (e, at, reads, same) refl
  ]

load_at_again :
    (names : Names) (toml : Toml) (os os' : Os) (fs : Fs) (o : Option String) (c : AppConfig)
    → os'.read_fails ≡ false
    → (load_at names toml os fs o).1 ≡ ok c
    → load_at names toml os' (load_at names toml os fs o).0 o
      ≡ ((load_at names toml os fs o).0, ok c)
load_at_again names toml os os' fs none c reads h = cc
load_at_again names toml os os' fs (some path) c reads h =
    load_file-Repeats names toml os' path reads os fs (fs path) c refl h

-- A Load that has given settings can be repeated: a further Load from the same path whose read
-- succeeds gives the same settings and changes no file, whether the first one read the file or wrote
-- it with the defaults.
pub load_again :
    (names : Names) (toml : Toml) (os os' : Os) (path : String) (fs : Fs) (c : AppConfig)
    → os'.read_fails ≡ false
    → (load names toml os path fs).1 ≡ ok c
    → load names toml os' path (load names toml os path fs).0
      ≡ ((load names toml os path fs).0, ok c)
unfolding load
load_again names toml os os' path fs c reads h =
    load_at_again names toml os os' fs (names.abs path) c reads h
