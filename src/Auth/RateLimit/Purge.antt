-- ===== src/Auth/RateLimit/Purge.antt =====
-- What PurgeExpired leaves of the limiter's verdicts (internal/auth/ratelimit.go).
use frp_easy.Prelude.{
  ℕ, ◌+◌, ◌≡◌, refl, true, false, not, ◌&&◌, ◌⊎◌, Option, Option-cases, none, some, List, [], ◌∷◌,
  Text, text_eq, text_eq_iff, Result, ok, err, arith, Bool-cases, inl, inr, All,
}
use frp_easy.Storage.Kv.{Entry, Io, KvError, delete_key}
use frp_easy.Storage.KvStore.{KvStore}
use frp_easy.Auth.RateLimit.{
  login_fail_key_prefix, key, Codec, allow, purges, purge_loop, purge_expired, first_error,
}
use frp_easy.Auth.RateLimit.Stored.{blocks, record_of, allow-verdict}

module _ {V : Type 0} (kv : KvStore V) (json : Codec V) where
  -- a value that PurgeExpired deletes keeps nobody out
  purges-blocks :
      (now : ℕ) (v : V)
      → purges kv json now v ≡ true
      → blocks now (record_of kv json (some v)) ≡ false
  unfolding purges blocks record_of
  purges-blocks now v h = ground arith

  -- under each key stands what stood there, or nothing where the value was to be purged
  record Purged (now : ℕ) (s t : kv.State) : Type 0 where
    at_key :
        (k : Text)
        → (kv.value_at t k ≡ kv.value_at s k)
          ⊎ (v : V) × (kv.value_at t k ≡ none)
            × (kv.value_at s k ≡ some v)
            × (purges kv json now v ≡ true)

  Purged-delete :
      (io : Io) (now : ℕ) (s t : kv.State) (k : Text) (v : V)
      → kv.value_at s k ≡ some v
      → purges kv json now v ≡ true
      → Purged now s t
      → Purged now s (kv.delete io t k).0
  Purged-delete io now s t k v stored p h = record {
    at_key = λ j. elim (Bool-cases (not (io (delete_key k)) && text_eq k j)) [
      | inl e ↦ inr (v, ground (arith, kv.delete_law io t k j), ground (arith, text_eq_iff k j), p)
      | inr e ↦ rw (kv.delete_law io t k j, e) (h.at_key j)
    ];
  }

  Purged-purge_loop :
      (io : Io) (now : ℕ) (s t : kv.State) (n : ℕ) (f : Option KvError) (es : List (Entry V))
      → All (λ e. kv.value_at s e.key ≡ some e.value) es
      → Purged now s t
      → Purged now s (purge_loop kv json io now t n f es).0
  unfolding purge_loop
  Purged-purge_loop io now s t n f [] a h = h
  Purged-purge_loop io now s t n f (e ∷ es) a h = elim (Bool-cases (purges kv json now e.value)) [
    | inr keep ↦ rw keep (Purged-purge_loop io now s t n f es a.1 h)
    | inl gone ↦
        let h' = Purged-delete io now s t e.key e.value a.0 gone h in
        elim (Option-cases (kv.delete io t e.key).1) [
          | inl x ↦
              rw (gone, x) (Purged-purge_loop io now s (kv.delete io t e.key).0 (n + 1) f es a.1 h')
          | inr (x, p) ↦
              rw (gone, p)
                (Purged-purge_loop io now s (kv.delete io t e.key).0 n (first_error f (some x)) es
                  a.1 h')
        ]
  ]

  Purged-purge_expired :
      (io : Io) (now : ℕ) (s : kv.State) → Purged now s (purge_expired kv json io now s).0
  unfolding purge_expired
  Purged-purge_expired io now s =
      go (kv.list_by_prefix io s login_fail_key_prefix) (kv.list_sound io s login_fail_key_prefix)
    where
      go :
          (r : Result KvError (List (Entry V)))
          → ((es : List (Entry V)) → r ≡ ok es → All (λ e. kv.value_at s e.key ≡ some e.value) es)
          → Purged now s
              (elim r as (λ _. kv.State × ℕ × Option KvError) [
                | err e ↦ (s, 0, some e)
                | ok entries ↦ purge_loop kv json io now s 0 none entries
              ]).0
      go (err e) sound = record { at_key = λ k. inl refl }
      go (ok es) sound =
          Purged-purge_loop io now s s 0 none es (sound es refl) (record { at_key = λ k. inl refl })

  -- PurgeExpired changes no verdict: whichever statements fail during the purge or during the
  -- question, Allow answers every address at the same time as it did before.
  pub allow-purge_expired :
      (io io' : Io) (now : ℕ) (s : kv.State) (ip : Text)
      → (allow kv json io' now (purge_expired kv json io now s).0 ip).1
        ≡ (allow kv json io' now s ip).1
  unfolding record_of
  allow-purge_expired io io' now s ip =
      let t = (purge_expired kv json io now s).0 in
      elim ((Purged-purge_expired io now s).at_key (key ip)) [
        | inl same ↦ rw (allow-verdict, allow-verdict, same)
        | inr (v, gone, old, p) ↦
            rw (allow-verdict, allow-verdict, gone, old, purges-blocks now v p)
              (unfold blocks in refl)
      ]
