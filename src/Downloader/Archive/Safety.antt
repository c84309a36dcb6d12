-- ===== src/Downloader/Archive/Safety.antt =====
-- Which entry of an archive internal/downloader/downloader.go extracts.
use frp_easy.Prelude.{
  ℕ, ◌≡◌, ◌⊎◌, refl, ap, Bool, true, false, not, Option, none, some, List, [], ◌∷◌, ◌++◌, Text,
  text_eq, text_eq_iff, guard-eq, byte_eq, has_prefix, split_on, push_head, All, ok, arith,
  Bool-cases, inl, inr,
}
use frp_easy.Downloader.Archive.{
  Paths, Entry, Archive, tar_gz, zip, unknown, extract, open_archive, gzip_reader, open_entry,
  contains, copied, takes_tar, tar_loop, extract_from_tar_gz, takes_zip, zip_loop, extract_from_zip,
}

abbrev pub dot : ℕ
dot = 46

abbrev pub slash : ℕ
slash = 47

-- a component of a path that does not go up
abbrev pub StaysDown : Text → Type 0
StaysDown w = text_eq w (dot ∷ dot ∷ []) ≡ false

-- the first component, if there is one, is not one dot
abbrev NotDot : List Text → Type 0
NotDot [] = Unit
NotDot (w ∷ ws) = text_eq w (dot ∷ []) ≡ false

push_head-NotDot : (c : ℕ) (ws : List Text) → byte_eq c dot ≡ false → NotDot (push_head c ws)
unfolding text_eq
push_head-NotDot c [] h = rw h
push_head-NotDot c (w ∷ ws) h = rw h

split_on-NotDot : (s : Text) → has_prefix (dot ∷ []) s ≡ false → NotDot (split_on slash s)
unfolding split_on has_prefix
split_on-NotDot [] h = unfold text_eq in refl
split_on-NotDot (c ∷ cs) h = elim (Bool-cases (byte_eq c slash)) [
  | inl e ↦ rw e (unfold text_eq in refl)
  | inr e ↦ rw e (push_head-NotDot c (split_on slash cs) (unfold byte_eq in ground (arith, h)))
]

push_head-StaysDown :
    (c : ℕ) (ws : List Text)
    → (byte_eq c dot ≡ false) ⊎ NotDot ws
    → All StaysDown ws
    → All StaysDown (push_head c ws)
unfolding text_eq
push_head-StaysDown c [] h a = (ground arith, tt)
push_head-StaysDown c (w ∷ ws) (inl h) a = (rw h, a.1)
push_head-StaysDown c (w ∷ ws) (inr h) a = (ground (arith, h), a.1)

-- a name without two dots in a row has no component that goes up
contains-StaysDown :
    (s : Text) → contains (dot ∷ dot ∷ []) s ≡ false → All StaysDown (split_on slash s)
unfolding contains split_on
contains-StaysDown [] h = (unfold text_eq in refl, tt)
contains-StaysDown (c ∷ cs) h =
    let rest = contains-StaysDown cs (ground (arith, h)) in
    let front : has_prefix (dot ∷ dot ∷ []) (c ∷ cs) ≡ false = ground (arith, h) in
    elim (Bool-cases (byte_eq c slash)) [
      | inl e ↦ rw e (unfold text_eq in refl, rest)
      | inr e ↦ rw e (
          push_head-StaysDown c (split_on slash cs) (first front (Bool-cases (byte_eq c dot))) rest)
    ]
  where
    first :
        has_prefix (dot ∷ dot ∷ []) (c ∷ cs) ≡ false
        → (byte_eq c dot ≡ true) ⊎ (byte_eq c dot ≡ false)
        → (byte_eq c dot ≡ false) ⊎ NotDot (split_on slash cs)
    first f (inr e) = inl e
    first f (inl e) = inr (split_on-NotDot cs (unfold has_prefix byte_eq in ground (arith, f, e)))

module _ (p : Paths) (entry_name : Text) where
  -- the base name is the wanted one, the path is not absolute and does not go up
  pub record Safe (name : Text) (e : Entry) : Type 0 where
    pub stays_down : All StaysDown (split_on slash name)
    pub not_absolute : p.is_abs e.name ≡ false
    pub wanted : p.base e.name ≡ entry_name

  pub record FromTar (es : List (Option Entry)) (t : Text) : Type 0 where
    pub entry : Entry
    pub before : List (Option Entry)
    pub after : List (Option Entry)
    pub split : es ≡ before ++ some entry ∷ after
    pub regular : entry.is_regular ≡ true
    pub safe : Safe entry.name entry
    pub body : entry.body ≡ some t

  pub record FromZip (es : List Entry) (t : Text) : Type 0 where
    pub entry : Entry
    pub before : List Entry
    pub after : List Entry
    pub split : es ≡ before ++ entry ∷ after
    pub safe : Safe (p.to_slash entry.name) entry
    pub body : entry.body ≡ some t

  takes_tar-Safe :
      (e : Entry) → takes_tar p entry_name e ≡ true → (e.is_regular ≡ true) × Safe e.name e
  takes_tar-Safe e h =
      let down : contains (dot ∷ dot ∷ []) e.name ≡ false = ground (arith, h) in
      (
        ground (arith, h),
        record {
          stays_down = contains-StaysDown e.name down;
          not_absolute = ground (arith, h);
          wanted = (text_eq_iff (p.base e.name) entry_name).0 (ground (arith, h));
        },
      )

  takes_zip-Safe : (e : Entry) → takes_zip p entry_name e ≡ true → Safe (p.to_slash e.name) e
  takes_zip-Safe e h =
      let down : contains (dot ∷ dot ∷ []) (p.to_slash e.name) ≡ false = ground (arith, h) in
      record {
        stays_down = contains-StaysDown (p.to_slash e.name) down;
        not_absolute = ground (arith, h);
        wanted = (text_eq_iff (p.base e.name) entry_name).0 (ground (arith, h));
      }

  copied-eq : (b : Option Text) (t : Text) → copied b ≡ ok t → b ≡ some t
  copied-eq none t h = cc
  copied-eq (some b) t h = cc

  tar_loop-FromTar :
      (es : List (Option Entry)) (t : Text) → tar_loop p entry_name es ≡ ok t → FromTar es t
  unfolding tar_loop
  tar_loop-FromTar [] t h = cc
  tar_loop-FromTar (none ∷ es) t h = cc
  tar_loop-FromTar (some e ∷ es) t h = elim (Bool-cases (takes_tar p entry_name e)) [
    | inl x ↦
        let (regular, safe) = takes_tar-Safe e x in
        record {
          entry = e;
          before = [];
          after = es;
          split = refl;
          regular = regular;
          safe = safe;
          body = copied-eq e.body t (rw x at h);
        }
    | inr x ↦
        let r = tar_loop-FromTar es t (rw x at h) in
        record {
          entry = r.entry;
          before = some e ∷ r.before;
          after = r.after;
          split = ap (λ z. some e ∷ z) r.split;
          regular = r.regular;
          safe = r.safe;
          body = r.body;
        }
  ]

  zip_loop-FromZip : (es : List Entry) (t : Text) → zip_loop p entry_name es ≡ ok t → FromZip es t
  unfolding zip_loop
  zip_loop-FromZip [] t h = cc
  zip_loop-FromZip (e ∷ es) t h = elim (Bool-cases (takes_zip p entry_name e)) [
    | inl x ↦
        let taken = rw x at h in
        let (opens, copies) = guard-eq (not e.opens) open_entry (copied e.body) t taken in
        record {
          entry = e;
          before = [];
          after = es;
          split = refl;
          safe = takes_zip-Safe e x;
          body = copied-eq e.body t copies;
        }
    | inr x ↦
        let r = zip_loop-FromZip es t (rw x at h) in
        record {
          entry = r.entry;
          before = e ∷ r.before;
          after = r.after;
          split = ap (λ z. e ∷ z) r.split;
          safe = r.safe;
          body = r.body;
        }
  ]

  abbrev pub From : Archive → Text → Type 0
  From (tar_gz is_gzip es) t = FromTar es t
  From (zip es) t = FromZip es t
  From unknown t = ⊥

  -- What doDownload extracts is the body of an entry of the archive whose base name is the wanted one,
  -- whose path is not absolute, and none of whose components, with the separators that the zip reader
  -- turns into slashes, is `..`; from a tar.gz the entry is a regular file.
  pub extract-From :
      (opens : Bool) (a : Archive) (t : Text) → extract p entry_name opens a ≡ ok t → From a t
  unfolding extract extract_from_tar_gz extract_from_zip
  extract-From opens (tar_gz is_gzip es) t h =
      let (a, x) = guard-eq (not opens) open_archive _ t h in
      let (b, y) = guard-eq (not is_gzip) gzip_reader (tar_loop p entry_name es) t x in
      tar_loop-FromTar es t y
  extract-From opens (zip es) t h =
      let (a, x) = guard-eq (not opens) open_archive (zip_loop p entry_name es) t h in
      zip_loop-FromZip es t x
  extract-From opens unknown t h = cc
