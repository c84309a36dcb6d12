-- ===== src/Http/Accounts/Toy.antt =====
-- A toy key derivation, a plain clock and ASCII rules, for runs of the handlers of
-- internal/httpapi/handlers_auth.go.
use frp_easy.Prelude.{
  ℕ, zero, suc, ◌+◌, ◌-◌, ◌%◌, ◌<◌, ◌≡◌, refl, ap, pos, false, Option, none, some, [], ◌∷◌, map,
  Text, codes, text_eq, All, length, if◌then◌else◌, arith, Without, byte_eq, leb, ◌&&◌,
}
use frp_easy.Storage.Sessions.{Layout, rfc3339_nano, rfc3339, date_time, date_time_fraction, Clock}
use frp_easy.Storage.Sessions.Examples.{one_number, text_eq-one}
use frp_easy.Storage.Admin.{SqliteNow}
use frp_easy.Auth.Hash.{Crypto, dollar}
use frp_easy.Http.Validate.{Unicode, is_letter}

abbrev pub two_numbers : Text → Option ℕ
two_numbers (n ∷ zero ∷ []) = some n
two_numbers _ = none

abbrev pub parse : Layout → Text → Option ℕ
parse rfc3339_nano t = one_number t
parse rfc3339 t = none
parse date_time t = two_numbers t
parse date_time_fraction t = none

abbrev pub year_9999 : ℕ
year_9999 = 253402300799999999999

abbrev pub clock : Clock
clock = record {
  format = λ n. n ∷ [];
  parse = parse;
  trim = λ t. t;
  last_time = year_9999;
  parse-format = λ n h. refl;
  trim-format = λ n. refl;
  format_ne = text_eq-one;
}

pub text_eq-two : (n m : ℕ) → text_eq (n ∷ m ∷ []) [] ≡ false
unfolding text_eq
text_eq-two n m = refl

abbrev pub now : SqliteNow clock
now = record {
  datetime = λ n. (n - n % 1000000000) ∷ 0 ∷ [];
  trim-datetime = λ n. refl;
  datetime_ne = λ n. text_eq-two _ _;
  not_nano = λ n. refl;
  not_rfc3339 = λ n. refl;
  parse-datetime = λ n h. refl;
}

abbrev pub sum : Text → ℕ
sum [] = 0
sum (x ∷ xs) = x + sum xs

abbrev pub repeat : ℕ → ℕ → Text
repeat zero x = []
repeat (suc n) x = x ∷ repeat n x

pub length-repeat : (n x : ℕ) → length (repeat n x) ≡ n
length-repeat zero x = refl
length-repeat (suc n) x = ap suc (length-repeat n x)

pub repeat_bytes : (n x : ℕ) → x < 256 → All (λ b. b < 256) (repeat n x)
repeat_bytes zero x h = tt
repeat_bytes (suc n) x h = (h, repeat_bytes n x h)

pub shifted_back : (b : Text) → map (λ x. x - 37) (map (λ x. x + 37) b) ≡ b
shifted_back [] = refl
shifted_back (x ∷ b) = let e : x + 37 - 37 ≡ x = omega arith in rw (e, shifted_back b)

pub shifted-Without : (b : Text) → Without dollar (map (λ x. x + 37) b)
unfolding byte_eq
shifted-Without [] = tt
shifted-Without (x ∷ b) = (ground arith, shifted-Without b)

abbrev pub crypto : Crypto
unfolding text_eq
crypto = record {
  id_key = λ p s time memory parallel n. repeat n ((sum p + sum s) % 256);
  encode = map (λ x. x + 37);
  decode = λ b. some (map (λ x. x - 37) b);
  scan_version = λ t. if text_eq t (codes "v=19") then some (pos 19) else none;
  scan_params = λ t. if text_eq t (codes "m=65536,t=3,p=2") then some (65536, 3, 2) else none;
  id_key_length = λ p s time memory parallel n. length-repeat n _;
  id_key_bytes = λ p s time memory parallel n. repeat_bytes n _ (omega arith);
  decode-encode = λ b h. ap some (shifted_back b);
  encode-Without = shifted-Without;
  scan_version_19 = refl;
  scan_params_own = refl;
}

abbrev pub unicode : Unicode
unicode = record {
  bytes = codes;
  trim_space = λ s. s;
  runes = λ t. t;
  is_letter_rune = is_letter;
  is_digit_rune = λ r. leb 48 r && leb r 57;
}
