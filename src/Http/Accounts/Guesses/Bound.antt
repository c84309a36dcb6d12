-- ===== src/Http/Accounts/Guesses/Bound.antt =====
-- The number of tested passwords of one address (internal/httpapi/handlers_auth.go).
use frp_easy.Prelude.{
  ℕ, ◌+◌, ◌≤◌, ◌≡◌, refl, ap, false, inl, inr, Option, none, List, [], ◌∷◌, Text, text_eq,
  text_eq_iff, All, arith, Bool-cases,
}
use frp_easy.Storage.KvStore.{KvStore}
use frp_easy.Storage.Sessions.{Clock}
use frp_easy.Storage.Admin.{SqliteNow}
use frp_easy.Auth.RateLimit.{Codec, FailRecord, fail_window}
use frp_easy.Auth.RateLimit.Stored.{record_at, record_of}
use frp_easy.Auth.Hash.{Crypto}
use frp_easy.Http.Validate.{Unicode}
use frp_easy.Http.Accounts.{Server}
use frp_easy.Http.Accounts.Guesses.{Try, Within, enters, tried, guesses, Tracked}
use frp_easy.Http.Accounts.Guesses.Own.{own_step}
use frp_easy.Http.Accounts.Guesses.Others.{tried_other}

module _ {V : Type 0} (kv : KvStore V) (json : Codec V) (c : Clock) (now : SqliteNow c) (k : Crypto)
    (u : Unicode) where
  Tracked-at_time :
      (from m : ℕ) (f : kv.State) (i j : Text)
      → i ≡ j
      → Tracked kv json c now k u from (record_at kv json f i) m
      → Tracked kv json c now k u from (record_at kv json f j) m
  Tracked-at_time from m f i j e tr = rw e at tr

  guesses-Tracked :
      (from : ℕ) (ip : Text) (xs : List Try) (n : ℕ) (s : Server kv)
      → text_eq ip [] ≡ false
      → from + fail_window ≤ json.last_time
      → All (Within from) xs
      → Tracked kv json c now k u from (record_at kv json s.fails ip) n
      → guesses kv json c now k u ip s xs + n ≤ 5
  unfolding guesses
  guesses-Tracked from ip [] n s ne fits ws (inl (r, z)) = omega (arith, z)
  guesses-Tracked from ip [] n s ne fits ws (inr (t, r, lo, hi, le)) = omega (arith, le)
  guesses-Tracked from ip (x ∷ xs) n s ne fits (w, ws) tr =
      elim (Bool-cases (text_eq x.call.ip ip)) [
        | inr other ↦
            let same : record_at kv json (tried kv json c now k u x s).0.fails ip
                ≡ record_at kv json s.fails ip =
              ap (record_of kv json) (tried_other kv json c now k u from x s ip other w) in
            rw other
              (guesses-Tracked from ip xs n (tried kv json c now k u x s).0 ne fits ws (rw same tr))
        | inl own ↦
            let same : x.call.ip ≡ ip = (text_eq_iff x.call.ip ip).0 own in
            elim (Bool-cases (enters kv json c now k u x s)) [
              | inl e ↦
                  let le = tracked_le from n (record_at kv json s.fails ip) tr in
                  rw (own, e) (omega (arith, le))
              | inr e ↦
                  elim (own_step kv json c now k u from n x s (rw same ne) fits w e (rw same tr)) [
                    | inl (wrong, tr') ↦
                        let rest =
                          guesses-Tracked from ip xs (n + 1) (tried kv json c now k u x s).0 ne fits
                            ws (Tracked-at_time from _ _ x.call.ip ip same tr') in
                        rw (own, e, wrong) (omega (arith, rest))
                    | inr (quiet, tr') ↦
                        rw (own, e, quiet)
                          (guesses-Tracked from ip xs n (tried kv json c now k u x s).0 ne fits ws
                            (Tracked-at_time from _ _ x.call.ip ip same tr'))
                  ]
            ]
      ]
    where
      tracked_le : (f m : ℕ) (r : Option FailRecord) → Tracked kv json c now k u f r m → m ≤ 5
      tracked_le f m r (inl (e, z)) = omega (arith, z)
      tracked_le f m r (inr (t, e, lo, hi, le)) = le

  -- In any sequence of logins within 60 seconds, from any addresses, at most five passwords of an
  -- address with no record are tested and found wrong before a login of that address is let in with
  -- the right credentials: if the limiter's table works, the address is not empty and the 60 seconds
  -- end at a time that can be stored.
  pub guesses_at_most_five :
      (from : ℕ) (ip : Text) (xs : List Try) (s : Server kv)
      → text_eq ip [] ≡ false
      → from + fail_window ≤ json.last_time
      → record_at kv json s.fails ip ≡ none
      → All (Within from) xs
      → guesses kv json c now k u ip s xs ≤ 5
  guesses_at_most_five from ip xs s ne fits fresh ws =
      let bound = guesses-Tracked from ip xs 0 s ne fits ws (inl (fresh, refl)) in
      omega (arith, bound)
