-- ===== src/Files/Temp.antt =====
-- A temporary file that is renamed onto a target, as internal/frpconf and internal/downloader do it.
use frp_easy.Prelude.{
  ◌≡◌, refl, sym, ap, ◌∙◌, Bool, true, false, ◌&&◌, none, some, String, str_eq, eq_iff,
  if◌then◌else◌, arith, Bool-cases, inl, inr,
}
use frp_easy.Files.{File, Fs, remove, try_remove, rename}

-- a choice between the same
pub if_same : {A : Type 0} → (b : Bool) (x : A) → x ≡ (if b then x else x)
if_same true x = refl
if_same false x = refl

-- only the file at `temp` differs
abbrev pub Agrees : String → Fs → Fs → Type 0
Agrees temp fs g = (q : String) → str_eq temp q ≡ false → g q ≡ fs q

module _ (temp : String) (fs : Fs) (fresh : fs temp ≡ none) where
  pub removed : (g : Fs) → Agrees temp fs g → (q : String) → remove temp g q ≡ fs q
  removed g a q = elim (Bool-cases (str_eq temp q)) [
    | inl e ↦ rw e (sym fresh ∙ ap fs ((eq_iff temp q).0 e))
    | inr e ↦ rw e (a q e)
  ]

  -- a clean-up whose error is dropped leaves all paths, but for the temporary one if it failed
  pub tried :
      (fails : Bool) (g : Fs)
      → Agrees temp fs g
      → (q : String)
      → try_remove fails temp g q
        ≡ (if fails && str_eq temp q then try_remove fails temp g q else fs q)
  tried true g a q = elim (Bool-cases (str_eq temp q)) [ inl e ↦ rw e | inr e ↦ rw e (a q e) ]
  tried false g a q = removed g a q

  pub renamed :
      (path : String) (f : File) (g : Fs)
      → str_eq temp path ≡ false
      → Agrees temp fs g
      → g temp ≡ some f
      → (q : String) → rename temp path g q ≡ (if str_eq path q then some f else fs q)
  renamed path f g ne a new q = elim (Bool-cases (str_eq temp q)) [
    | inl e ↦
        let same : temp ≡ q = (eq_iff temp q).0 e in
        let other : str_eq path q ≡ false =
          ground (arith, ne, eq_iff path q, eq_iff temp path, same) in
        rw (e, other) (sym fresh ∙ ap fs same)
    | inr e ↦ elim (Bool-cases (str_eq path q)) [
      | inl f ↦ rw (e, f) new
      | inr f ↦ rw (e, f) (a q e)
    ]
  ]
