-- ===== src/Storage/Proxies/PlainCodec.antt =====
-- A codec of lists of strings with the law that `encoding/json` has in internal/storage/proxies.go:
-- 0 ends the list, 1 starts a string, and other numbers are characters.
use Prim.Native.Char.{Char, char, code, IsLt, IsScalar}
use Prim.Native.Nat.{Ordering, compare as compare_ℕ}
use frp_easy.Prelude.{
  ℕ, zero, suc, ◌≡◌, refl, false, Option, none, some, List, [], ◌∷◌, String, Text,
}
use frp_easy.Storage.Proxies.{DomainsCodec, is_empty_text}

-- the clauses of the built-in `IsScalar`, decided
abbrev BothLt : Ordering → Ordering → Type 0
BothLt Ordering.lt o = IsLt o
BothLt Ordering.eq _ = ⊥
BothLt Ordering.gt _ = ⊥

abbrev IsScalarBy : Ordering → Ordering → Ordering → Type 0
IsScalarBy Ordering.lt _ _ = Unit
IsScalarBy Ordering.eq o p = BothLt o p
IsScalarBy Ordering.gt o p = BothLt o p

abbrev lt_dec : (o : Ordering) → Option (IsLt o)
lt_dec Ordering.lt = some tt
lt_dec Ordering.eq = none
lt_dec Ordering.gt = none

abbrev both_dec : (o p : Ordering) → Option (BothLt o p)
both_dec Ordering.lt p = lt_dec p
both_dec Ordering.eq p = none
both_dec Ordering.gt p = none

abbrev scalar_dec : (a o p : Ordering) → Option (IsScalarBy a o p)
scalar_dec Ordering.lt o p = some tt
scalar_dec Ordering.eq o p = both_dec o p
scalar_dec Ordering.gt o p = both_dec o p

scalar_dec-some : (a o p : Ordering) (h : IsScalarBy a o p) → scalar_dec a o p ≡ some h
scalar_dec-some Ordering.lt o p h = refl
scalar_dec-some Ordering.eq Ordering.lt Ordering.lt h = refl
scalar_dec-some Ordering.eq Ordering.lt Ordering.eq h = absurd h
scalar_dec-some Ordering.eq Ordering.lt Ordering.gt h = absurd h
scalar_dec-some Ordering.eq Ordering.eq p h = absurd h
scalar_dec-some Ordering.eq Ordering.gt p h = absurd h
scalar_dec-some Ordering.gt Ordering.lt Ordering.lt h = refl
scalar_dec-some Ordering.gt Ordering.lt Ordering.eq h = absurd h
scalar_dec-some Ordering.gt Ordering.lt Ordering.gt h = absurd h
scalar_dec-some Ordering.gt Ordering.eq p h = absurd h
scalar_dec-some Ordering.gt Ordering.gt p h = absurd h

abbrev with_code : (n : ℕ) → Option (IsScalar n) → Option Char
with_code n none = none
with_code n (some h) = some (char n h)

unfoldable pub to_char : ℕ → Option Char
to_char n = with_code n (scalar_dec (compare_ℕ n 55296) (compare_ℕ 57343 n) (compare_ℕ n 1114112))

to_char-code : (c : Char) → to_char (code c) ≡ some c
unfolding to_char
to_char-code (char n h) =
    rw (scalar_dec-some (compare_ℕ n 55296) (compare_ℕ 57343 n) (compare_ℕ n 1114112) h)

abbrev starts : Option (String × List String) → Option (String × List String)
starts none = none
starts (some (s, ds)) = some ("", s ∷ ds)

abbrev extends : Option Char → Option (String × List String) → Option (String × List String)
extends (some c) (some (s, ds)) = some (String.◌∷◌ c s, ds)
extends none _ = none
extends (some _) none = none

unfoldable pub item : Text → Option (String × List String)
item [] = none
item (zero ∷ t) = some ("", [])
item (suc zero ∷ t) = starts (item t)
item (suc (suc n) ∷ t) = extends (to_char n) (item t)

unfoldable write_chars : String → Text → Text
write_chars String.[] t = t
write_chars (String.◌∷◌ c s) t = suc (suc (code c)) ∷ write_chars s t

unfoldable pub encode_list : List String → Text
unfolding write_chars
encode_list [] = 0 ∷ []
encode_list (s ∷ ds) = 1 ∷ write_chars s (encode_list ds)

abbrev second : Option (String × List String) → Option (List String)
second none = none
second (some (s, ds)) = some ds

unfoldable pub decode_list : Text → Option (List String)
unfolding item
decode_list t = second (item t)

item-write_chars :
    (s : String) (t : Text) (ds : List String)
    → item t ≡ some ("", ds)
    → item (write_chars s t) ≡ some (s, ds)
unfolding item write_chars
item-write_chars String.[] t ds h = h
item-write_chars (String.◌∷◌ c s) t ds h = rw (to_char-code c, item-write_chars s t ds h)

pub item-encode_list : (ds : List String) → item (encode_list ds) ≡ some ("", ds)
unfolding item encode_list
item-encode_list [] = refl
item-encode_list (s ∷ ds) = rw (item-write_chars s (encode_list ds) ds (item-encode_list ds))

unfoldable pub plain_domains : DomainsCodec
unfolding decode_list encode_list item write_chars
plain_domains = record {
  encode = encode_list;
  decode = decode_list;
  decode-encode = λ ds. rw (item-encode_list ds);
  encode_nonempty =
      λ ds. elim ds as (λ ds. is_empty_text (encode_list ds) ≡ false) [ [] ↦ refl | x ∷ xs ↦ refl ];
}
