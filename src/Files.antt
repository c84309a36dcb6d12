-- ===== src/Files.antt =====
-- Files by path, as far as internal/frpconf and internal/downloader use them through `os`.
pub mod Temp
use frp_easy.Prelude.{ℕ, Bool, Option, none, some, [], String, str_eq, Text, if◌then◌else◌}

pub record File : Type 0 where
  pub content : Text
  pub mode : ℕ

abbrev pub Fs : Type 0
Fs = String → Option File

-- os.CreateTemp, with the mode that the umask leaves
abbrev pub create : String → ℕ → Fs → Fs
create p m fs q = if str_eq p q then some (record { content = []; mode = m }) else fs q

-- os.Remove
abbrev pub remove : String → Fs → Fs
remove p fs q = if str_eq p q then none else fs q

-- os.Remove with its error dropped: whether it fails
abbrev pub try_remove : Bool → String → Fs → Fs
try_remove fails p fs q = if str_eq p q then (if fails then fs q else none) else fs q

abbrev pub with_mode : ℕ → Option File → Option File
with_mode m none = none
with_mode m (some f) = some (record f { mode = m })

-- os.Chmod
abbrev pub chmod : String → ℕ → Fs → Fs
chmod p m fs q = if str_eq p q then with_mode m (fs p) else fs q

abbrev pub with_content : Text → Option File → Option File
with_content b none = none
with_content b (some f) = some (record f { content = b })

-- what a new file holds after writing to it
abbrev pub write_file : String → Text → Fs → Fs
write_file p b fs q = if str_eq p q then with_content b (fs p) else fs q

-- os.Rename onto another path
abbrev pub rename : String → String → Fs → Fs
rename a b fs q = if str_eq a q then none else if str_eq b q then fs a else fs q
