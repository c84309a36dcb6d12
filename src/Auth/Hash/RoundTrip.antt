-- ===== src/Auth/Hash/RoundTrip.antt =====
-- VerifyPassword on the texts that HashPassword writes (internal/auth/hash.go).
use frp_easy.Prelude.{
  ◌<◌, ◌≡◌, ap, ◌∙◌, false, ◌==◌, some, [], ◌∷◌, Text, codes, text_eq, ok, All, length, arith,
  Bool-cases, inl, inr, split_on, split_on-append, split_on_one, byte_eq,
}
use frp_easy.Auth.Hash.{Crypto, dollar, own_key, phc, hash_password, verify_password, verify_parts}

module _ (k : Crypto) where
  split_on-phc :
      (salt key : Text)
      → split_on dollar (phc k salt key)
        ≡ []
          ∷ codes "argon2id"
          ∷ codes "v=19"
          ∷ codes "m=65536,t=3,p=2"
          ∷ k.encode salt
          ∷ k.encode key
          ∷ []
  split_on-phc salt key =
      let tail = split_on-append dollar (k.encode salt) (k.encode key) (k.encode-Without salt) in
      let last = split_on_one dollar (k.encode key) (k.encode-Without key) in
      unfold split_on byte_eq in rw (tail, last)

  -- a text that HashPassword has written lets exactly the passwords of the same key pass
  verify_password-phc :
      (attempt plain salt : Text)
      → All (λ b. b < 256) salt
      → (length salt == 0) ≡ false
      → verify_password k attempt (phc k salt (own_key k plain salt))
        ≡ ok (text_eq (own_key k attempt salt) (own_key k plain salt))
  unfolding verify_password text_eq
  verify_password-phc attempt plain salt bytes ne =
      let key = own_key k plain salt in
      ap (verify_parts k attempt) (split_on-phc salt key)
      ∙ rw (
        k.scan_version_19,
        k.scan_params_own,
        k.decode-encode salt bytes,
        k.decode-encode key (k.id_key_bytes plain salt 3 65536 2 32),
        k.id_key_length plain salt 3 65536 2 32,
        ne,
      )

  -- VerifyPassword accepts, for what HashPassword returned, exactly the passwords that have the same
  -- argon2id key under the salt, the hashed one among them, and it never fails on it, if the salt is
  -- not empty.
  pub verify_password-hash_password :
      (attempt plain salt encoded : Text)
      → hash_password k plain (some salt) ≡ ok encoded
      → All (λ b. b < 256) salt
      → (length salt == 0) ≡ false
      → verify_password k attempt encoded
        ≡ ok (text_eq (own_key k attempt salt) (own_key k plain salt))
  unfolding hash_password
  verify_password-hash_password attempt plain salt encoded h bytes ne =
      elim (Bool-cases (text_eq plain [])) [
        | inl e ↦ absurd (ground (arith, h, e))
        | inr e ↦
            let x : phc k salt (own_key k plain salt) ≡ encoded = ground (arith, h, e) in
            rw (← x) (verify_password-phc attempt plain salt bytes ne)
      ]
