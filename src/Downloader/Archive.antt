-- ===== src/Downloader/Archive.antt =====
-- extractFromTarGz and extractFromZip of internal/downloader/downloader.go. An archive is the list of
-- its entries; compression and the formats are the libraries'.
pub mod Safety
use frp_easy.Prelude.{
  ℕ, ◌≡◌, refl, Bool, true, false, not, ◌&&◌, ◌||◌, Option, none, some, List, [], ◌∷◌, ◌++◌, Text,
  codes, text_eq, has_prefix, Result, ok, err, if◌then◌else◌, arith, Bool-cases, inl, inr,
}

-- path/filepath on the platform
pub record Paths : Type 0 where
  pub is_abs : Text → Bool
  pub base : Text → Text
  pub to_slash : Text → Text

-- `body` is none where the copy of the entry fails; `opens` only matters for zip
pub record Entry : Type 0 where
  pub name : Text
  pub is_regular : Bool
  pub opens : Bool
  pub body : Option Text

pub data ExtractError : Type 0 where
  open_archive gzip_reader tar_next copy_entry open_entry not_found : ExtractError
  unknown_extension : ExtractError

-- an archive by its extension, with what the libraries read of it
pub data Archive : Type 0 where
  tar_gz : Bool → List (Option Entry) → Archive
  zip : List Entry → Archive
  unknown : Archive

-- strings.Contains
unfoldable pub contains : Text → Text → Bool
unfolding has_prefix
contains sub [] = has_prefix sub []
contains sub (c ∷ cs) = has_prefix sub (c ∷ cs) || contains sub cs

abbrev pub copied : Option Text → Result ExtractError Text
copied none = err copy_entry
copied (some b) = ok b

module _ (p : Paths) (entry_name : Text) where
  -- the entry that the loop over a tar takes
  abbrev pub takes_tar : Entry → Bool
  takes_tar e =
      e.is_regular
      && (not (contains (codes "..") e.name || p.is_abs e.name)
          && text_eq (p.base e.name) entry_name)

  -- the loop over a tar, whose reader may fail instead of giving an entry
  unfoldable pub tar_loop : List (Option Entry) → Result ExtractError Text
  unfolding contains
  tar_loop [] = err not_found
  tar_loop (none ∷ es) = err tar_next
  tar_loop (some e ∷ es) = let rest = tar_loop es in if takes_tar e then copied e.body else rest

  -- extractFromTarGz
  unfoldable pub extract_from_tar_gz : Bool → Bool → List (Option Entry) → Result ExtractError Text
  unfolding tar_loop
  extract_from_tar_gz opens is_gzip es =
      if not opens then err open_archive else if not is_gzip then err gzip_reader else tar_loop es

  -- the entry that the loop over a zip takes
  abbrev pub takes_zip : Entry → Bool
  takes_zip e =
      let name = p.to_slash e.name in
      not (contains (codes "..") name || (p.is_abs e.name || has_prefix (codes "/") name))
      && text_eq (p.base e.name) entry_name

  unfoldable pub zip_loop : List Entry → Result ExtractError Text
  unfolding contains has_prefix
  zip_loop [] = err not_found
  zip_loop (e ∷ es) =
      let rest = zip_loop es in
      if takes_zip e then (if not e.opens then err open_entry else copied e.body) else rest

  -- extractFromZip
  unfoldable pub extract_from_zip : Bool → List Entry → Result ExtractError Text
  unfolding zip_loop
  extract_from_zip opens es = if not opens then err open_archive else zip_loop es

  -- the switch of doDownload on the extension
  unfoldable pub extract : Bool → Archive → Result ExtractError Text
  unfolding extract_from_tar_gz extract_from_zip
  extract opens (tar_gz is_gzip es) = extract_from_tar_gz opens is_gzip es
  extract opens (zip es) = extract_from_zip opens es
  extract opens unknown = err unknown_extension
