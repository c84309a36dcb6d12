-- ===== src/Http/Upload/Outcome.antt =====
-- What uploadBin of internal/httpapi/handlers_system.go leaves of the files.
use frp_easy.Prelude.{
  ℕ, zero, suc, ◌≤◌, ◌≡◌, ◌⊎◌, refl, Bool, true, false, ◌==◌, Option, none, some, [], ◌∷◌, String,
  str_eq, Text, Result, ok, err, if◌then◌else◌, ltb, pos, length, take, arith, Bool-cases, inl, inr,
}
use frp_easy.Files.{Fs}
use frp_easy.Files.Temp.{if_same}
use frp_easy.Downloader.{is_downloading, is_kind, status_of}
use frp_easy.Downloader.Release.{Params, resolve_params}
use frp_easy.Downloader.Install.{InstallError, Installed, file_too_large, install}
use frp_easy.Downloader.Install.Leaves.{
  is_replace, is_left, new_binary, Leaves, IsFree, install-Leaves,
}
use frp_easy.Http.Upload.{
  HeaderError, UploadEnv, Uploaded, UploadReply, Form, form, body_too_large, not_multipart,
  uploaded, refused, is_elf, is_pe, upload_bin_max_bytes, validate_binary_header, pick_upload_lock,
  busy_download, upload_answer, check_header, peek_and_install, with_file, with_form, upload_bin,
}

-- the first bytes of a program of the platform
abbrev pub IsProgram : String → Text → Type 0
IsProgram goos content =
    ((str_eq goos "linux" ≡ true) × (rest : Text) × (content ≡ 0x7F ∷ 69 ∷ 76 ∷ 70 ∷ rest))
    ⊎ ((str_eq goos "windows" ≡ true) × (rest : Text) × (content ≡ 77 ∷ 90 ∷ rest))

is_elf-head : (n : ℕ) (s : Text) → is_elf (take n s) ≡ true → is_elf s ≡ true
is_elf-head (suc (suc (suc (suc n)))) (a ∷ b ∷ c ∷ d ∷ r) h = h
is_elf-head (suc (suc (suc (suc n)))) (a ∷ b ∷ c ∷ []) h = cc
is_elf-head (suc (suc (suc zero))) (a ∷ b ∷ c ∷ r) h = cc
is_elf-head (suc (suc (suc n))) (a ∷ b ∷ []) h = cc
is_elf-head (suc (suc zero)) (a ∷ b ∷ r) h = cc
is_elf-head (suc (suc n)) (a ∷ []) h = cc
is_elf-head (suc zero) (a ∷ r) h = cc
is_elf-head (suc n) [] h = cc
is_elf-head zero s h = cc

is_elf-bytes : (s : Text) → is_elf s ≡ true → (rest : Text) × (s ≡ 0x7F ∷ 69 ∷ 76 ∷ 70 ∷ rest)
is_elf-bytes (a ∷ b ∷ c ∷ d ∷ r) h = (r, ground (arith, h))
is_elf-bytes (a ∷ b ∷ c ∷ []) h = cc
is_elf-bytes (a ∷ b ∷ []) h = cc
is_elf-bytes (a ∷ []) h = cc
is_elf-bytes [] h = cc

is_pe-head : (n : ℕ) (s : Text) → is_pe (take n s) ≡ true → is_pe s ≡ true
is_pe-head (suc (suc n)) (a ∷ b ∷ r) h = h
is_pe-head (suc (suc n)) (a ∷ []) h = cc
is_pe-head (suc zero) (a ∷ r) h = cc
is_pe-head (suc n) [] h = cc
is_pe-head zero s h = cc

is_pe-bytes : (s : Text) → is_pe s ≡ true → (rest : Text) × (s ≡ 77 ∷ 90 ∷ rest)
is_pe-bytes (a ∷ b ∷ r) h = (r, ground (arith, h))
is_pe-bytes (a ∷ []) h = cc
is_pe-bytes [] h = cc

-- a head that passes the check is that of a program
validate_binary_header-IsProgram :
    (m n : ℕ) (goos : String) (s : Text)
    → validate_binary_header (take m (take n s)) goos ≡ none
    → IsProgram goos s
unfolding validate_binary_header
validate_binary_header-IsProgram m n goos s h = elim (Bool-cases (str_eq goos "linux")) [
  | inl l ↦
      let elf : is_elf (take m (take n s)) ≡ true = ground (arith, h, l) in
      let (rest, e) = is_elf-bytes s (is_elf-head n s (is_elf-head m (take n s) elf)) in
      inl (l, rest, e)
  | inr l ↦
      let windows : str_eq goos "windows" ≡ true = ground (arith, h, l) in
      let pe : is_pe (take m (take n s)) ≡ true = ground (arith, h, l) in
      let (rest, e) = is_pe-bytes s (is_pe-head n s (is_pe-head m (take n s) pe)) in
      inr (windows, rest, e)
]

module _ (sha : Text → String) (trim rel : String → String) (join : String → String → String)
    (root : String) (env : UploadEnv) where
  abbrev goos : String
  goos = env.install_env.goos

  -- what an answer 200 stands for
  pub record Stored (u : Uploaded) (fs fs' : Fs) : Type 0 where
    pub name : String
    pub content : Text
    pub params : Params
    pub sent : env.body ≡ form name (some content)
    pub named : u.kind ≡ trim name
    pub known : resolve_params join root u.kind goos ≡ some params
    pub program : IsProgram goos content
    pub fits : length content ≤ upload_bin_max_bytes
    pub size : u.size ≡ length content
    pub hash : u.sha256 ≡ sha content
    pub no_download : is_downloading (env.download u.kind).status ≡ false
    pub files :
        (q : String)
        → fs' q ≡ (
            if str_eq params.target_path q
            then some (new_binary sha env.install_env (pos upload_bin_max_bytes) content)
            else fs q)

  -- the path of a temporary file of Install that is left because its removal failed
  abbrev pub left : String → Bool
  left q = is_left sha env.install_env (pos upload_bin_max_bytes) [] env.install_env.temp q

  -- all paths are as they were, but for that one
  abbrev pub Same : Fs → Fs → Type 0
  Same fs fs' = (q : String) → fs' q ≡ (if left q then fs' q else fs q)

  -- the old binary of a kind is gone
  pub record Lost (fs fs' : Fs) : Type 0 where
    pub kind : String
    pub params : Params
    pub known : resolve_params join root kind goos ≡ some params
    pub windows : str_eq goos "windows" ≡ true
    pub files :
        (q : String)
        → fs' q ≡ (if str_eq params.target_path q then none else if left q then fs' q else fs q)

  abbrev pub Outcome : Fs → Fs × UploadReply → Type 0
  Outcome fs (fs', uploaded u) = Stored u fs fs'
  Outcome fs (fs', refused r) = Same fs fs' ⊎ Lost fs fs'

  -- the name of the temporary file is new, and no target
  abbrev pub NewName : Fs → Type 0
  NewName fs =
      (kind : String) (p : Params)
      → resolve_params join root kind goos ≡ some p
      → IsFree env.install_env.temp p.target_path fs

  module _ (name : String) (content : Text) (sent : env.body ≡ form name (some content))
      (fits : ltb upload_bin_max_bytes (length content) ≡ false)
      (quiet : is_downloading (env.download (trim name)).status ≡ false) (fs : Fs) where
    lost :
        (p : Params) (fs' : Fs) (x : InstallError)
        → resolve_params join root (trim name) goos ≡ some p
        → Leaves sha env.install_env
            (pos upload_bin_max_bytes)
            content
            env.install_env.temp
            p.target_path
            fs
            (fs', err x)
        → Same fs fs' ⊎ Lost fs fs'
    lost p fs' x known (w, files) = elim (Bool-cases (is_replace x)) [
      | inl e ↦ inr (record {
        kind = trim name;
        params = p;
        known = known;
        windows = w e;
        files = λ q. rw e at (files q);
      })
      | inr e ↦ inl (λ q. rw e at (files q))
    ]

    upload_answer-Outcome :
        (p : Params)
        → resolve_params join root (trim name) goos ≡ some p
        → IsProgram goos content
        → (r : Fs × Result InstallError Installed)
        → Leaves sha env.install_env
            (pos upload_bin_max_bytes)
            content
            env.install_env.temp
            p.target_path
            fs
            r
        → Outcome fs (upload_answer sha trim rel join root env (trim name) r)
    upload_answer-Outcome p known program (fs', ok i) (e, small, files) = record {
      name = name;
      content = content;
      params = p;
      sent = sent;
      named = refl;
      known = known;
      program = program;
      fits = ground (arith, fits);
      size = rw e;
      hash = rw e;
      no_download = quiet;
      files = files;
    }
    upload_answer-Outcome p known program (fs', err file_too_large) l =
        lost p fs' file_too_large known l
    upload_answer-Outcome p known program (fs', err x) l = lost p fs' x known l

    install-Outcome :
        NewName fs
        → IsProgram goos content
        → (o : Option Params) → resolve_params join root (trim name) goos ≡ o
        → Outcome fs (
            upload_answer sha trim rel join root env (trim name) (
              install sha env.install_env
                (pos upload_bin_max_bytes)
                content
                join
                root
                (trim name)
                fs))
    unfolding install
    install-Outcome new program none e = rw e (inl (λ q. if_same (left q) (fs q)))
    install-Outcome new program (some p) e =
        upload_answer-Outcome p e program
          (install sha env.install_env (pos upload_bin_max_bytes) content join root (trim name) fs)
          (install-Leaves sha env.install_env (pos upload_bin_max_bytes) content join root
            (trim name) fs p e (new (trim name) p e))

    check_header-Outcome :
        NewName fs
        → (o : Option HeaderError) → (o ≡ none → IsProgram goos content)
        → Outcome fs (check_header sha trim rel join root env (trim name) content fs o)
    check_header-Outcome new (some e) program = inl (λ q. if_same (left q) (fs q))
    check_header-Outcome new none program =
        install-Outcome new (program refl) (resolve_params join root (trim name) goos) refl

    peek_and_install-Outcome :
        NewName fs → Outcome fs (peek_and_install sha trim rel join root env (trim name) content fs)
    peek_and_install-Outcome new =
        let head = take env.peeked (take 64 content) in
        elim (Bool-cases (length head == 0)) [
          | inl e ↦ rw e (inl (λ q. if_same (left q) (fs q)))
          | inr e ↦ rw e (
              check_header-Outcome new (validate_binary_header head goos)
                (validate_binary_header-IsProgram env.peeked 64 goos content))
        ]

  with_file-Outcome :
      (name : String) (file : Option Text) (fs : Fs)
      → NewName fs
      → is_kind (trim name) ≡ true
      → env.body ≡ form name file
      → Outcome fs (with_file sha trim rel join root env (trim name) file fs)
  with_file-Outcome name none fs new known sent = inl (λ q. if_same (left q) (fs q))
  with_file-Outcome name (some content) fs new known sent =
      elim (Bool-cases (length content == 0)) [
        | inl e ↦ rw e (inl (λ q. if_same (left q) (fs q)))
        | inr e ↦ elim (Bool-cases (ltb upload_bin_max_bytes (length content))) [
          | inl f ↦ rw (e, f) (inl (λ q. if_same (left q) (fs q)))
          | inr f ↦ elim (Bool-cases (env.held (pick_upload_lock (trim name)))) [
            | inl g ↦ rw (e, f, g) (inl (λ q. if_same (left q) (fs q)))
            | inr g ↦
                elim (Bool-cases
                  (busy_download (status_of (trim name) (env.download (trim name))))) [
                    | inl h ↦ rw (e, f, g, h) (inl (λ q. if_same (left q) (fs q)))
                    | inr h ↦
                        let quiet : is_downloading (env.download (trim name)).status ≡ false =
                          unfold status_of in rw known at h in
                        rw (e, f, g, h) (peek_and_install-Outcome name content sent f quiet fs new)
                  ]
          ]
        ]
      ]

  with_form-Outcome :
      (b : Form) (fs : Fs)
      → NewName fs
      → env.body ≡ b
      → Outcome fs (with_form sha trim rel join root env b fs)
  with_form-Outcome body_too_large fs new sent = inl (λ q. if_same (left q) (fs q))
  with_form-Outcome not_multipart fs new sent = inl (λ q. if_same (left q) (fs q))
  with_form-Outcome (form name file) fs new sent = elim (Bool-cases (str_eq (trim name) "")) [
    | inl e ↦ rw e (inl (λ q. if_same (left q) (fs q)))
    | inr e ↦ elim (Bool-cases (is_kind (trim name))) [
      | inl f ↦ rw (e, f) (with_file-Outcome name file fs new f sent)
      | inr f ↦ rw (e, f) (inl (λ q. if_same (left q) (fs q)))
    ]
  ]

  -- An upload that is answered with 200 has put exactly the bytes that were sent at the path of its
  -- kind, with the size and the hash that the answer names, and no other path has changed; the bytes
  -- begin as a program of the platform does, are at most 64 MiB, and no download of the kind was
  -- running. After any other answer all paths are as they were, but that on Windows the old binary may
  -- be gone, and that the temporary file of Install is left if its removal fails. The name of that file
  -- is taken to be new.
  pub upload_bin-Outcome :
      (fs : Fs) → NewName fs → Outcome fs (upload_bin sha trim rel join root env fs)
  unfolding upload_bin
  upload_bin-Outcome fs new = elim (Bool-cases env.has_downloader) [
    | inl e ↦ simp e (with_form-Outcome env.body fs new refl)
    | inr e ↦ rw e (inl (λ q. if_same (left q) (fs q)))
  ]
