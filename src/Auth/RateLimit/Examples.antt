-- ===== src/Auth/RateLimit/Examples.antt =====
-- The limiter of internal/auth/ratelimit.go over an empty table of internal/storage/kv.go.
use frp_easy.Prelude.{◌+◌, ◌≡◌, refl, ◌||◌, some, List, [], ◌∷◌, Text, text_eq, codes, arith, ltb}
use frp_easy.Storage.Kv.{healthy}
use frp_easy.Storage.KvStore.{KvStore, sqlite_store}
use frp_easy.Storage.Kv.Examples.{ascii_operator}
use frp_easy.Auth.RateLimit.{FailRecord, Codec, allow, fail_max, fail_window}
use frp_easy.Auth.RateLimit.Stored.{record_of}
use frp_easy.Auth.RateLimit.Lockout.{Attempt, times_of, record_failures, lockout}

-- a codec that keeps the record itself, up to the end of the year 9999
abbrev pub plain_codec : Codec FailRecord
plain_codec = record {
  marshal = some;
  unmarshal = some;
  last_time = 253402300799999999999;
  marshal_lem = λ r h. (r, refl, refl);
}

abbrev pub store : KvStore FailRecord
store = sqlite_store ascii_operator

unfoldable pub empty : store.State
unfolding sqlite_store
empty = record { rows = []; keys_unique = tt }

abbrev pub home : Text
home = codes "10.0.0.1"

abbrev pub attempts : List Attempt
attempts =
    record { ip = home; at = 1000 }
    ∷ record { ip = codes "10.0.0.2"; at = 1500 }
    ∷ record { ip = home; at = 2000 }
    ∷ record { ip = home; at = 3000 }
    ∷ record { ip = home; at = 4000 }
    ∷ record { ip = home; at = 5000 }
    ∷ []

lockout_example :
    (allow store plain_codec healthy 6000 (record_failures store plain_codec empty attempts) home).1
    ≡ (ltb 5 fail_max || ltb (1000 + fail_window) 6000)
unfolding sqlite_store empty text_eq record_of times_of
lockout_example =
    lockout store plain_codec empty home attempts 6000 1000 (2000 ∷ 3000 ∷ 4000 ∷ 5000 ∷ []) refl
      (omega arith) refl refl (omega arith, (omega arith, (omega arith, (omega arith, tt))))
