-- ===== src/Logtail.antt =====
-- internal/logtail/tail.go: the last lines of a file, read backwards in chunks, and reading on from
-- an offset. A file is its bytes, which do not change during a call; the system calls that fail are
-- an argument.
pub mod Lines
pub mod Tail
pub mod Poll
pub mod Examples
use frp_easy.Prelude.{
  ℕ, zero, suc, ◌+◌, ◌-◌, ◌*◌, ℤ, pos, negsuc, Bool, true, false, not, ◌||◌, ◌==◌, ltb, leb, Option,
  none, some, List, [], ◌∷◌, ◌++◌, Text, Result, ok, err, if◌then◌else◌, length, take, drop, ltb_ℤ,
}

pub data TailError : Type 0 where
  open_failed stat_failed seek_failed read_failed : TailError

-- which calls fail; those on a chunk are told apart by its offset
pub record Faults : Type 0 where
  pub at_open : Bool
  pub at_stat : Bool
  pub at_seek : ℕ → Bool
  pub at_read : ℕ → Bool

abbrev pub no_faults : Faults
no_faults = record { at_open = false; at_stat = false; at_seek = λ _. false; at_read = λ _. false }

unfoldable pub tail_chunk_size : ℕ
tail_chunk_size = 4 * 1024

unfoldable pub max_read_bytes : ℕ
max_read_bytes = 2 * 1048576

unfoldable pub count_byte : Text → ℕ → ℕ
count_byte [] c = 0
count_byte (x ∷ b) c = let n = count_byte b c in if x == c then n + 1 else n

-- a line without its last '\r'
unfoldable pub strip_cr : Text → Text
strip_cr [] = []
strip_cr (x ∷ []) = if x == 13 then [] else x ∷ []
strip_cr (x ∷ y ∷ r) = x ∷ strip_cr (y ∷ r)

-- the loop of splitLines; `cur` is b[start:i]
unfoldable pub split_from : Text → Text → List Text
unfolding strip_cr
split_from [] [] = []
split_from (c ∷ cur) [] = strip_cr (c ∷ cur) ∷ []
split_from cur (x ∷ b) =
    let line = strip_cr cur ∷ split_from [] b in
    let more = split_from (cur ++ x ∷ []) b in if x == 10 then line else more

unfoldable pub split_lines : Text → List Text
unfolding split_from
split_lines b = split_from [] b

abbrev pub min' : ℕ → ℕ → ℕ
min' a b = if ltb a b then a else b

-- the loop of TailLines from `offset` with what is read so far; `none` is out of fuel
unfoldable pub scan_back : ℕ → Faults → Text → ℕ → ℕ → Text → Option (Result TailError Text)
scan_back zero f content n offset buf = none
scan_back (suc fuel) f content n offset buf =
    let size = min' offset tail_chunk_size in
    let offset' = offset - size in
    let buf' = take size (drop offset' content) ++ buf in
    let rest = scan_back fuel f content n offset' buf' in
    if offset == 0
    then some (ok buf)
    else if f.at_seek offset'
    then some (err seek_failed)
    else if f.at_read offset'
    then some (err read_failed)
    else if leb (n + 1) (count_byte buf' 10)
    then some (ok buf')
    else rest

abbrev pub last_lines : ℕ → List Text → List Text
last_lines n lines = if ltb n (length lines) then drop (length lines - n) lines else lines

abbrev pub cut_lines : ℕ → Result TailError Text → Result TailError (List Text)
cut_lines n (err e) = err e
cut_lines n (ok buf) = ok (last_lines n (split_lines buf))

-- TailLines; a chunk has at least one byte, so a round for each byte and one more are enough
unfoldable pub tail_lines : Faults → Text → ℤ → Option (Result TailError (List Text))
tail_lines f content (negsuc _) = some (ok [])
tail_lines f content (pos zero) = some (ok [])
tail_lines f content (pos (suc n)) =
    if f.at_open
    then some (err open_failed)
    else if f.at_stat
    then some (err stat_failed)
    else if length content == 0
    then some (ok [])
    else elim (scan_back (length content + 1) f content (suc n) (length content) []) [
      | none ↦ none
      | some r ↦ some (cut_lines (suc n) r)
    ]

abbrev pub start_at : ℤ → ℕ → ℕ
start_at (negsuc _) size = 0
start_at (pos o) size = if ltb size o then 0 else o

-- ReadFrom: the data and the new offset
unfoldable pub read_from : Faults → Text → ℤ → Result TailError (Text × ℕ)
read_from f content offset =
    let size = length content in
    let start = start_at offset size in
    if f.at_open
    then err open_failed
    else if f.at_stat
    then err stat_failed
    else if start == size
    then ok ([], size)
    else if f.at_seek start
    then err seek_failed
    else if f.at_read start
    then err read_failed
    else (let chunk = take (min' (size - start) max_read_bytes) (drop start content) in
        ok (chunk, start + length chunk))
