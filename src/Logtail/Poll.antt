-- ===== src/Logtail/Poll.antt =====
-- Reading a file on with ReadFrom of internal/logtail/tail.go.
use frp_easy.Prelude.{
  ℕ, zero, suc, ◌+◌, ◌-◌, ◌≤◌, ◌<◌, ◌≡◌, refl, false, ◌==◌, ltb, [], ◌++◌, Text, ℤ, pos, ok, err,
  length, take, drop, take-append-drop, drop-drop, length-drop, length-take, arith, Bool-cases, inl,
  inr, sym, ◌∙◌, ap, guard-eq, drop_all, ◌⊎◌,
}
use frp_easy.Logtail.{
  Faults, no_faults, max_read_bytes, read_from, min', start_at, open_failed, stat_failed,
  seek_failed, read_failed,
}

-- the client's loop: ask again from the new offset
unfoldable pub poll : ℕ → Text → ℤ → Text
poll zero content offset = []
poll (suc rounds) content offset = elim (read_from no_faults content offset) [
  | err e ↦ []
  | ok (chunk, next) ↦ chunk ++ poll rounds content (pos next)
]

-- One call returns at most 2 MiB, which are the file's bytes from the place where it starts reading,
-- and the offset of what follows them; it starts at the given offset if that lies in the file, and at 0 if not.
pub read_from_lem :
    (f : Faults) (content : Text) (offset : ℤ) (chunk : Text) (next : ℕ)
    → read_from f content offset ≡ ok (chunk, next)
    → (length chunk ≤ max_read_bytes)
      × (next ≡ start_at offset (length content) + length chunk)
      × (chunk ++ drop next content ≡ drop (start_at offset (length content)) content)
unfolding read_from
read_from_lem f content offset chunk next h =
    let start = start_at offset (length content) in
    let (a, h₁) = guard-eq f.at_open open_failed _ (chunk, next) h in
    let (b, h₂) = guard-eq f.at_stat stat_failed _ (chunk, next) h₁ in
    elim (Bool-cases (start == length content)) [
      | inl e ↦
          let x : ok ([], length content) ≡ ok (chunk, next) = rw e at h₂ in
          let c : chunk ≡ [] = cc x in
          let n : next ≡ length content = cc x in
          rw (c, n) (omega arith, ground arith, ground arith)
      | inr e ↦
          let (s', h₃) = guard-eq (f.at_seek start) seek_failed _ (chunk, next) (rw e at h₂) in
          let (r, h₄) = guard-eq (f.at_read start) read_failed _ (chunk, next) h₃ in
          let size = min' (length content - start) max_read_bytes in
          let c : chunk ≡ take size (drop start content) = cc h₄ in
          let n : next ≡ start + length chunk = cc h₄ in
          let l : length chunk ≡ size =
            rw c
              (ground (arith, length-take size (drop start content), length-drop start content)) in
          let k : next ≡ start + size = omega arith in
          let d : drop next content ≡ drop size (drop start content) =
            ap (λ (i : ℕ). drop i content) k ∙ sym (drop-drop size start content) in
          (ground (arith, l), n, rw (d, c) (take-append-drop size (drop start content)))
    ]

chunk_pos : 0 < max_read_bytes
unfolding max_read_bytes
chunk_pos = omega arith

-- without faults there is an answer, and bytes are left only behind a later offset
read_from_total :
    (content : Text) (offset : ℕ)
    → offset ≤ length content
    → (chunk : Text) × (next : ℕ) × (read_from no_faults content (pos offset) ≡ ok (chunk, next))
      × (next ≤ length content)
      × ((offset < next) ⊎ (next ≡ length content))
unfolding read_from
read_from_total content offset h =
    let e : ltb (length content) offset ≡ false = ground arith in
    elim (Bool-cases (offset == length content)) [
      | inl f ↦ ([], length content, rw (e, f), omega arith, inr refl)
      | inr f ↦
          let size = min' (length content - offset) max_read_bytes in
          let chunk = take size (drop offset content) in
          let l : length chunk ≡ size =
            ground (arith, length-take size (drop offset content), length-drop offset content) in
          (
            chunk,
            offset + length chunk,
            rw (e, f),
            ground (arith, l),
            inl (ground (arith, l, chunk_pos)),
          )
    ]

-- If no call fails, asking again from each returned offset restores the bytes of the file from a
-- first offset within it on,
-- given a round for each of those bytes.
pub poll_lem :
    (rounds : ℕ) (content : Text) (offset : ℕ)
    → offset ≤ length content
    → length content - offset ≤ rounds
    → poll rounds content (pos offset) ≡ drop offset content
unfolding poll
poll_lem zero content offset h r =
    let e : offset ≡ length content = omega arith in
    sym (ap (λ (i : ℕ). drop i content) e ∙ drop_all content)
poll_lem (suc rounds) content offset h r =
    let (chunk, next, e, b, more) = read_from_total content offset h in
    let (small, at, parts) = read_from_lem no_faults content (pos offset) chunk next e in
    let inside : start_at (pos offset) (length content) ≡ offset = ground arith in
    let left : length content - next ≤ rounds = elim more [
      | inl m ↦ omega arith
      | inr m ↦ omega arith
    ] in
    rw (e, poll, poll_lem rounds content next b left)
      (parts ∙ ap (λ (i : ℕ). drop i content) inside)
