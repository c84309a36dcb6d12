-- ===== src/Http/Validate.antt =====
-- The rules of internal/httpapi/validate.go for proxies; `none` accepts. Of an error only its kind
-- is kept, and the regular expressions are the tests that they spell out.
use Prim.Native.String.{len}
use frp_easy.Prelude.{
  ℕ, ℤ, pos, Bool, true, false, not, ◌&&◌, ◌||◌, ◌==◌, Option, none, some, List, [], ◌∷◌, String,
  str_eq, Text, codes, if◌then◌else◌, ltb, leb, ltb_ℤ, length,
}

pub data InputError : Type 0 where
  required bad_format out_of_range too_long too_short unknown_type not_accepted : InputError

abbrev pub is_letter : ℕ → Bool
is_letter c = (leb 65 c && leb c 90) || (leb 97 c && leb c 122)

-- [A-Za-z0-9_-]
abbrev pub is_word : ℕ → Bool
is_word c = is_letter c || ((leb 48 c && leb c 57) || (c == 95 || c == 45))

unfoldable pub each : (ℕ → Bool) → Text → Bool
each f [] = true
each f (c ∷ cs) = f c && each f cs

-- proxyNameRE
unfoldable pub proxy_name_re : Text → Bool
unfolding each
proxy_name_re cs = each is_word cs && (leb 1 (length cs) && leb (length cs) 64)

abbrev pub push_byte : ℕ → List Text → List Text
push_byte c [] = (c ∷ []) ∷ []
push_byte c (w ∷ ws) = (c ∷ w) ∷ ws

-- the labels between the dots
unfoldable pub split_dots : Text → List Text
split_dots [] = [] ∷ []
split_dots (c ∷ cs) = let rest = split_dots cs in if c == 46 then [] ∷ rest else push_byte c rest

abbrev pub inner_label : Text → Bool
inner_label w = each is_word w && (leb 1 (length w) && leb (length w) 63)

abbrev pub top_label : Text → Bool
top_label w = each is_letter w && leb 2 (length w)

unfoldable pub labels_match : List Text → Bool
labels_match [] = false
labels_match (w ∷ []) = false
labels_match (w ∷ v ∷ []) = inner_label w && top_label v
labels_match (w ∷ v ∷ u ∷ ws) = inner_label w && labels_match (v ∷ u ∷ ws)

-- domainRE
unfoldable pub domain_re : Text → Bool
unfolding labels_match split_dots
domain_re cs = labels_match (split_dots cs)

-- ValidateProxyName
unfoldable pub validate_proxy_name : String → Option InputError
validate_proxy_name name =
    if str_eq name ""
    then some required
    else if not (proxy_name_re (codes name))
    then some bad_format
    else none

-- ValidatePort
unfoldable pub validate_port : ℤ → Option InputError
validate_port p = if ltb_ℤ p (pos 1) || ltb_ℤ (pos 65535) p then some out_of_range else none

-- ValidateDomain
unfoldable pub validate_domain : String → Option InputError
validate_domain d =
    if str_eq d ""
    then some required
    else if ltb 253 (len d)
    then some too_long
    else if not (domain_re (codes d))
    then some bad_format
    else none

-- ValidateProxyType
unfoldable pub validate_proxy_type : String → Option InputError
validate_proxy_type t =
    if str_eq t "tcp" || (str_eq t "udp" || (str_eq t "http" || str_eq t "https"))
    then none
    else some unknown_type

-- The parts of unicode, of strings and of the encoding of strings that the rules for accounts use.
-- A password is a list of bytes here, so that the keys of internal/auth take it as it is.
pub record Unicode : Type 0 where
  pub bytes : String → Text
  pub trim_space : String → String
  pub runes : Text → List ℕ
  pub is_letter_rune : ℕ → Bool
  pub is_digit_rune : ℕ → Bool

module _ (u : Unicode) where
  -- the loop of ValidatePassword, with `hasLetter` and `hasDigit`
  unfoldable pub letter_and_digit : Bool → Bool → List ℕ → Bool
  letter_and_digit has_letter has_digit [] = has_letter && has_digit
  letter_and_digit has_letter has_digit (r ∷ rs) =
      let letter = letter_and_digit true has_digit rs in
      let digit = letter_and_digit has_letter true rs in
      let neither = letter_and_digit has_letter has_digit rs in
      if u.is_letter_rune r then letter else if u.is_digit_rune r then digit else neither

  -- ValidatePassword
  unfoldable pub validate_password : Text → Option InputError
  unfolding letter_and_digit
  validate_password p =
      if ltb (length p) 12
      then some too_short
      else if not (letter_and_digit false false (u.runes p))
      then some bad_format
      else none

  -- ValidateUsername
  unfoldable pub validate_username : String → Option InputError
  validate_username name =
      if str_eq (u.trim_space name) ""
      then some required
      else if ltb 32 (length (u.bytes (u.trim_space name)))
      then some too_long
      else none
