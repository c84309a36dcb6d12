-- ===== src/Prelude/Texts.antt =====
-- Go strings as lists of bytes, with their equality test.
use Prim.Native.Char.{code}
use Prim.Native.Nat.{ℕ, compare, Ordering}
use Prim.Native.String.{String}
use mathlib.Core.Path.{◌≡◌, refl}
use mathlib.Core.Logic.{◌↔◌}
use mathlib.Core.Bool.{Bool, true, false, ◌&&◌}
use mathlib.Core.List.{List, [], ◌∷◌, ◌++◌}
use mathlib.Core.Option.{Option, none, some}
use native.Mathlib.Omega.{arith}
use frp_easy.Prelude.Tests.{if◌then◌else◌}
use frp_easy.Prelude.Lists.{All}

abbrev pub Text : Type 0
Text = List ℕ

-- The bytes of an ASCII literal.
abbrev pub codes : String → Text
codes String.[] = []
codes (String.◌∷◌ c s) = code c ∷ codes s

unfoldable pub byte_eq : ℕ → ℕ → Bool
byte_eq a b = elim (compare a b) [ Ordering.eq ↦ true | _ ↦ false ]

unfoldable pub text_eq : Text → Text → Bool
unfolding byte_eq
text_eq [] [] = true
text_eq [] (b ∷ bs) = false
text_eq (a ∷ as') [] = false
text_eq (a ∷ as') (b ∷ bs) = byte_eq a b && text_eq as' bs

text_eq_sound : (s t : Text) → text_eq s t ≡ true → s ≡ t
unfolding text_eq
text_eq_sound [] [] h = refl
text_eq_sound [] (b ∷ bs) h = cc
text_eq_sound (a ∷ r) [] h = cc
text_eq_sound (a ∷ r) (b ∷ bs) h = ground (arith, text_eq_sound r bs)

pub text_eq_refl : (s : Text) → text_eq s s ≡ true
unfolding text_eq
text_eq_refl [] = refl
text_eq_refl (a ∷ r) = ground (arith, text_eq_refl r)

pub text_eq_iff : (s t : Text) → (text_eq s t ≡ true) ↔ (s ≡ t)
text_eq_iff s t = (text_eq_sound s t, λ e. rw e (text_eq_refl t))

-- strings.HasPrefix
unfoldable pub has_prefix : Text → Text → Bool
unfolding byte_eq
has_prefix [] t = true
has_prefix (a ∷ p) [] = false
has_prefix (a ∷ p) (b ∷ t) = byte_eq a b && has_prefix p t

pub has_prefix-append : (p t : Text) → has_prefix p (p ++ t) ≡ true
unfolding has_prefix
has_prefix-append [] t = refl
has_prefix-append (a ∷ p) t = ground (arith, has_prefix-append p t)

pub append_cancel : (p s t : Text) → p ++ s ≡ p ++ t → s ≡ t
append_cancel [] s t h = h
append_cancel (a ∷ p) s t h = append_cancel p s t (cc)

abbrev pub push_head : ℕ → List Text → List Text
push_head c [] = (c ∷ []) ∷ []
push_head c (w ∷ ws) = (c ∷ w) ∷ ws

-- strings.Split with one byte for separator
unfoldable pub split_on : ℕ → Text → List Text
unfolding byte_eq
split_on d [] = [] ∷ []
split_on d (c ∷ cs) =
    let rest = split_on d cs in if byte_eq c d then [] ∷ rest else push_head c rest

-- the separator is not among the bytes
abbrev pub Without : ℕ → Text → Type 0
Without d = All (λ c. byte_eq c d ≡ false)

pub split_on-append :
    (d : ℕ) (w t : Text) → Without d w → split_on d (w ++ d ∷ t) ≡ w ∷ split_on d t
unfolding split_on byte_eq
split_on-append d [] t h = ground arith
split_on-append d (c ∷ w) t h = rw (h.0, split_on-append d w t h.1)

pub split_on_one : (d : ℕ) (w : Text) → Without d w → split_on d w ≡ w ∷ []
unfolding split_on
split_on_one d [] h = refl
split_on_one d (c ∷ w) h = rw (h.0, split_on_one d w h.1)

abbrev pub prepend : ℕ → Option Text → Option Text
prepend c none = none
prepend c (some w) = some (c ∷ w)

-- strings.TrimSuffix where strings.HasSuffix holds
unfoldable pub strip_suffix : Text → Text → Option Text
unfolding text_eq
strip_suffix suffix [] = if text_eq [] suffix then some [] else none
strip_suffix suffix (c ∷ cs) =
    let rest = strip_suffix suffix cs in if text_eq (c ∷ cs) suffix then some [] else prepend c rest

abbrev pub prepend_fst : ℕ → Option (Text × Text) → Option (Text × Text)
prepend_fst c none = none
prepend_fst c (some (w, rest)) = some (c ∷ w, rest)

-- strings.SplitN with one byte for separator and two parts, if there are two
unfoldable pub cut_at : ℕ → Text → Option (Text × Text)
unfolding byte_eq
cut_at d [] = none
cut_at d (c ∷ cs) =
    let rest = cut_at d cs in if byte_eq c d then some ([], cs) else prepend_fst c rest
