-- ===== src/Logtail/Tail.antt =====
-- TailLines of internal/logtail/tail.go against reading the whole file.
use frp_easy.Prelude.{
  ℕ, zero, suc, ◌+◌, ◌-◌, ◌≤◌, ◌<◌, ◌≡◌, refl, false, ◌==◌, leb, some, List, [], ◌∷◌, ◌++◌, Text,
  pos, ok, length, take, drop, take-append-drop, drop-drop, arith, Bool-cases, inl, inr, sym, ◌∙◌,
  ap, ◌⊎◌, drop_of_zero, drop_all,
}
use frp_easy.Logtail.{
  no_faults, tail_chunk_size, count_byte, split_lines, scan_back, last_lines, tail_lines, min',
}
use frp_easy.Logtail.Lines.{last_lines-suffix, last_lines-drop}

-- a chunk and what stands behind it
chunk-append :
    (content : Text) (offset size : ℕ)
    → size ≤ offset
    → take size (drop (offset - size) content) ++ drop offset content ≡ drop (offset - size) content
chunk-append content offset size h =
    let e : offset ≡ offset - size + size = omega arith in
    let k : drop offset content ≡ drop size (drop (offset - size) content) =
      ap (λ (i : ℕ). drop i content) e ∙ sym (drop-drop size (offset - size) content) in
    rw k (take-append-drop size (drop (offset - size) content))

-- the loop's results: the whole file, or a suffix with enough newlines
record IsEnough (content : Text) (n : ℕ) (buf : Text) : Type 0 where
  before : Text
  parts : content ≡ before ++ buf
  full : (before ≡ []) ⊎ (n + 1 ≤ count_byte buf 10)

IsEnough-last_lines :
    (content : Text) (n : ℕ) (buf : Text)
    → IsEnough content n buf
    → last_lines n (split_lines buf) ≡ last_lines n (split_lines content)
IsEnough-last_lines content n buf h = elim h.full [
  | inl e ↦ let p : content ≡ buf = rw e at h.parts in rw p
  | inr e ↦ rw h.parts (sym (last_lines-suffix n h.before buf e))
]

chunk_pos : 0 < tail_chunk_size
unfolding tail_chunk_size
chunk_pos = omega arith

-- With a round for each byte and one more the loop ends; without faults it ends with enough.
scan_back_total :
    (fuel : ℕ) (content : Text) (n offset : ℕ)
    → offset < fuel
    → offset ≤ length content
    → (buf : Text) × (scan_back fuel no_faults content n offset (drop offset content)
        ≡ some (ok buf))
      × IsEnough content n buf
unfolding scan_back
scan_back_total zero content n offset h b = absurd (omega arith)
scan_back_total (suc fuel) content n offset h b =
    let size = min' offset tail_chunk_size in
    let offset' = offset - size in
    let fits : size ≤ offset = ground arith in
    rw (chunk-append content offset size fits) (elim (Bool-cases (offset == 0)) [
      | inl e ↦
          let z : offset ≡ 0 = ground arith in
          (
            content,
            rw (e, drop_of_zero offset content z),
            record { before = []; parts = refl; full = inl refl },
          )
      | inr e ↦ elim (Bool-cases (leb (n + 1) (count_byte (drop offset' content) 10))) [
        | inl f ↦ (
          drop offset' content,
          rw (e, f),
          record {
            before = take offset' content;
            parts = sym (take-append-drop offset' content);
            full = inr (ground arith);
          },
        )
        | inr f ↦
            rw (e, f)
              (scan_back_total fuel content n offset' (ground (arith, chunk_pos)) (omega arith))
      ]
    ])

last_lines_zero : (ls : List Text) → last_lines 0 ls ≡ []
last_lines_zero [] = refl
last_lines_zero (l ∷ ls) =
    let k : length (l ∷ ls) - 0 ≡ length (l ∷ ls) = omega arith in
    last_lines-drop 0 (l ∷ ls) ∙ ap (λ (i : ℕ). drop i (l ∷ ls)) k ∙ drop_all ls

last_lines-nil : (n : ℕ) → last_lines n [] ≡ []
last_lines-nil n = last_lines-drop n [] ∙ drop_of_zero (0 - n) [] (omega arith)

-- TailLines returns, and returns the last n lines of the whole file, although it reads the file
-- backwards in chunks and stops early.
pub tail_lines-last_lines :
    (content : Text) (n : ℕ)
    → tail_lines no_faults content (pos n) ≡ some (ok (last_lines n (split_lines content)))
unfolding tail_lines
tail_lines-last_lines content zero = rw (last_lines_zero (split_lines content))
tail_lines-last_lines [] (suc n) = unfold split_lines in rw (last_lines-nil (suc n))
tail_lines-last_lines (x ∷ content) (suc n) =
    let file = x ∷ content in
    let (buf, e, enough) =
      scan_back_total (length file + 1) file (suc n) (length file) (omega arith) (omega arith) in
    let z : drop (length file) file ≡ [] = drop_all file in
    let e' : scan_back (length file + 1) no_faults file (suc n) (length file) [] ≡ some (ok buf) =
      rw z at e in
    let ne : (length file == 0) ≡ false = ground arith in
    rw (ne, e') (ap (λ (t : List Text). some (ok t)) (IsEnough-last_lines file (suc n) buf enough))
