-- ===== src/Auth/Hash.antt =====
-- internal/auth/hash.go: passwords as PHC strings of argon2id. A text is a list of bytes.
pub mod RoundTrip
use frp_easy.Prelude.{
  ℕ, ℤ, pos, negsuc, ◌<◌, ◌≡◌, Bool, true, false, ◌||◌, ◌==◌, Option, none, some, List, [], ◌∷◌,
  ◌++◌, Text, codes, text_eq, Result, ok, err, bind, not, if◌then◌else◌, All, length, split_on,
  Without,
}

-- a byte of `$`
abbrev pub dollar : ℕ
dollar = 36

-- argon2.IDKey, base64.RawStdEncoding, and fmt.Sscanf on the formats v=%d and m=%d,t=%d,p=%d
pub record Crypto : Type 0 where
  pub id_key : (password salt : Text) (time memory parallel key_len : ℕ) → Text
  pub encode : Text → Text
  pub decode : Text → Option Text
  pub scan_version : Text → Option ℤ
  pub scan_params : Text → Option (ℕ × ℕ × ℕ)
  pub id_key_length :
      (password salt : Text) (time memory parallel n : ℕ)
      → length (id_key password salt time memory parallel n) ≡ n
  pub id_key_bytes :
      (password salt : Text) (time memory parallel n : ℕ)
      → All (λ b. b < 256) (id_key password salt time memory parallel n)
  pub decode-encode : (b : Text) → All (λ x. x < 256) b → decode (encode b) ≡ some b
  pub encode-Without : (b : Text) → Without dollar (encode b)
  pub scan_version_19 : scan_version (codes "v=19") ≡ some (pos 19)
  pub scan_params_own : scan_params (codes "m=65536,t=3,p=2") ≡ some (65536, 3, 2)

abbrev pub argon2_memory : ℕ
argon2_memory = 65536

abbrev pub argon2_time : ℕ
argon2_time = 3

abbrev pub argon2_parallel : ℕ
argon2_parallel = 2

abbrev pub argon2_key_len : ℕ
argon2_key_len = 32

pub data HashError : Type 0 where
  empty_password no_salt : HashError

pub data VerifyError : Type 0 where
  empty_encoded bad_parts unsupported_algo parse_version unsupported_version parse_params :
      VerifyError
  decode_salt decode_hash empty_part invalid_params : VerifyError

abbrev pub or_error {ℓ} : {A : Type ℓ} → VerifyError → Option A → Result VerifyError A
or_error e none = err e
or_error e (some a) = ok a

abbrev pub is_version : ℤ → Bool
is_version (pos n) = n == 19
is_version (negsuc n) = false

infixl 1 ◌>>=◌
abbrev ◌>>=◌ {ℓ κ} :
    {A : Type ℓ} {B : Type κ}
    → Result VerifyError A
    → (A → Result VerifyError B)
    → Result VerifyError B
m >>= f = bind m f

module _ (k : Crypto) where
  -- the key of a password under this package's parameters
  abbrev pub own_key : Text → Text → Text
  own_key plain salt = k.id_key plain salt argon2_time argon2_memory argon2_parallel argon2_key_len

  abbrev pub phc : Text → Text → Text
  phc salt key =
      codes "$argon2id$v=19$m=65536,t=3,p=2" ++ dollar ∷ k.encode salt ++ dollar ∷ k.encode key

  abbrev pub hash_with : Text → Option Text → Result HashError Text
  hash_with plain none = err no_salt
  hash_with plain (some salt) = ok (phc salt (own_key plain salt))

  -- HashPassword; the salt comes from crypto/rand
  unfoldable pub hash_password : Text → Option Text → Result HashError Text
  hash_password plain salt = if text_eq plain [] then err empty_password else hash_with plain salt

  -- from the test for an empty salt or hash on
  abbrev pub compare_keys : Text → ℕ × ℕ × ℕ → Text → Text → Result VerifyError Bool
  compare_keys plain (memory, time, parallel) salt want =
      if length want == 0 || length salt == 0
      then err empty_part
      else if memory == 0 || (time == 0 || parallel == 0)
      then err invalid_params
      else ok (text_eq (k.id_key plain salt time memory parallel (length want)) want)

  -- from the test of the version on
  abbrev pub verify_version : Text → Text → Text → Text → ℤ → Result VerifyError Bool
  verify_version plain params salt hash version =
      if not (is_version version) then err unsupported_version else (do
        p ← or_error parse_params (k.scan_params params)
        s ← or_error decode_salt (k.decode salt)
        w ← or_error decode_hash (k.decode hash)
        compare_keys plain p s w)

  -- from the test for six parts on
  abbrev pub verify_parts : Text → List Text → Result VerifyError Bool
  verify_parts plain (_ ∷ algo ∷ version ∷ params ∷ salt ∷ hash ∷ []) =
      if text_eq algo (codes "argon2id")
      then bind (or_error parse_version (k.scan_version version))
          (verify_version plain params salt hash)
      else err unsupported_algo
  verify_parts plain _ = err bad_parts

  -- VerifyPassword
  unfoldable pub verify_password : Text → Text → Result VerifyError Bool
  unfolding split_on
  verify_password plain encoded =
      if text_eq encoded [] then err empty_encoded else verify_parts plain (split_on dollar encoded)
