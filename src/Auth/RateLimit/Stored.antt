-- ===== src/Auth/RateLimit/Stored.antt =====
-- The verdict of `Allow` in terms of the record that is stored (internal/auth/ratelimit.go).
use frp_easy.Prelude.{
  ℕ, ◌≡◌, refl, Bool, false, not, ◌&&◌, ◌||◌, Option, none, some, [], Text, text_eq, text_eq_iff,
  append_cancel, if◌then◌else◌, leb, arith, Bool-cases, inl, inr, ap,
}
use frp_easy.Storage.Kv.{Io, select_key}
use frp_easy.Storage.KvStore.{KvStore}
use frp_easy.Auth.RateLimit.{
  fail_max, login_fail_key_prefix, key, FailRecord, Codec, is_expired, read, allow,
}

pub key_ne : (ip : Text) → text_eq (key ip) [] ≡ false
unfolding key login_fail_key_prefix text_eq
key_ne ip = refl

pub key_eq : (a b : Text) → text_eq (key a) (key b) ≡ text_eq a b
unfolding key
key_eq a b = elim (Bool-cases (text_eq a b)) [
  | inl e ↦ rw e ((text_eq_iff (key a) (key b)).1 (ap key ((text_eq_iff a b).0 e)))
  | inr e ↦ elim (Bool-cases (text_eq (key a) (key b))) [
    | inl f ↦ absurd (
        ground (
          arith,
          e,
          (text_eq_iff a b).1 (append_cancel login_fail_key_prefix a b ((text_eq_iff _ _).0 f)),
        ))
    | inr f ↦ rw (e, f)
  ]
]

-- the stored record keeps an address out
unfoldable pub blocks : ℕ → Option FailRecord → Bool
unfolding is_expired
blocks now none = false
blocks now (some rec) = leb fail_max rec.count && not (is_expired now rec)

module _ {V : Type 0} (kv : KvStore V) (json : Codec V) where
  unfoldable pub record_of : Option V → Option FailRecord
  record_of none = none
  record_of (some v) = json.unmarshal v

  -- what is stored for an address
  abbrev pub record_at : kv.State → Text → Option FailRecord
  record_at s ip = record_of (kv.value_at s (key ip))

  pub read_lem :
      (io : Io) (s : kv.State) (ip : Text)
      → read kv json io s ip ≡ (if io (select_key (key ip)) then none else record_at s ip)
  unfolding read record_of
  read_lem io s ip = elim (Bool-cases (io (select_key (key ip)))) [
    | inl e ↦ ground (arith, kv.get_law io s (key ip))
    | inr e ↦ ground (arith, kv.get_law io s (key ip))
  ]

  -- Allow says no exactly to a non-empty address whose record can be read, has five or more failures and is
  -- not older than 60 seconds; a failing store lets everyone in.
  pub allow-verdict :
      (io : Io) (now : ℕ) (s : kv.State) (ip : Text)
      → (allow kv json io now s ip).1
        ≡ (text_eq ip [] || (io (select_key (key ip)) || not (blocks now (record_at s ip))))
  unfolding allow blocks
  allow-verdict io now s ip = ground (arith, read_lem io s ip)
