-- ===== src/Logtail/Lines.antt =====
-- How splitLines of internal/logtail/tail.go behaves on a file and on a suffix of it.
use frp_easy.Prelude.{
  ℕ, ◌+◌, ◌-◌, ◌≤◌, ◌≡◌, refl, ◌==◌, ltb, List, [], ◌∷◌, ◌++◌, Text, length, drop, length-append,
  drop-append, arith, Bool-cases, inl, inr, append_assoc, drop_of_zero, sym, ◌∙◌,
}
use frp_easy.Logtail.{count_byte, split_from, split_lines, last_lines}

split_from-append :
    (cur pre rest : Text)
    → split_from cur (pre ++ 10 ∷ rest) ≡ split_from cur (pre ++ 10 ∷ []) ++ split_from [] rest
unfolding split_from
split_from-append [] [] rest = refl
split_from-append (c ∷ cur) [] rest = refl
split_from-append cur (x ∷ pre) rest = elim (Bool-cases (x == 10)) [
  | inl e ↦ rw (e, split_from-append [] pre rest)
  | inr e ↦ rw (e, split_from-append (cur ++ x ∷ []) pre rest)
]

length-split_from : (cur b : Text) → count_byte b 10 ≤ length (split_from cur b)
unfolding split_from count_byte
length-split_from [] [] = omega arith
length-split_from (c ∷ cur) [] = omega arith
length-split_from cur (x ∷ b) = elim (Bool-cases (x == 10)) [
  | inl e ↦ rw e (omega (arith, length-split_from [] b))
  | inr e ↦ rw e (length-split_from (cur ++ x ∷ []) b)
]

first_newline :
    (b : Text) (n : ℕ)
    → n + 1 ≤ count_byte b 10
    → (pre : Text) × (rest : Text) × (b ≡ pre ++ 10 ∷ rest) × (n ≤ count_byte rest 10)
unfolding count_byte
first_newline [] n h = absurd (omega arith)
first_newline (x ∷ b) n h = elim (Bool-cases (x == 10)) [
  | inl e ↦ ([], b, ground arith, ground arith)
  | inr e ↦
      let (pre, rest, p, q) = first_newline b n (ground arith) in (x ∷ pre, rest, ground arith, q)
]

pub last_lines-drop : (n : ℕ) (ls : List Text) → last_lines n ls ≡ drop (length ls - n) ls
last_lines-drop n ls = elim (Bool-cases (ltb n (length ls))) [
  | inl e ↦ rw e
  | inr e ↦ rw e (sym (drop_of_zero (length ls - n) ls (ground arith)))
]

last_lines-append :
    (n : ℕ) (xs ys : List Text) → n ≤ length ys → last_lines n (xs ++ ys) ≡ last_lines n ys
last_lines-append n xs ys h = last_lines-drop n (xs ++ ys) ∙ same ∙ sym (last_lines-drop n ys)
  where
    k : length (xs ++ ys) - n ≡ length xs + (length ys - n)
    k = omega (arith, length-append xs ys)

    same : drop (length (xs ++ ys) - n) (xs ++ ys) ≡ drop (length ys - n) ys
    same = rw k (drop-append (length ys - n) xs ys)

-- The last lines of a file are those of any suffix of it with more newlines than lines asked for.
pub last_lines-suffix :
    (n : ℕ) (a b : Text)
    → n + 1 ≤ count_byte b 10
    → last_lines n (split_lines (a ++ b)) ≡ last_lines n (split_lines b)
unfolding split_lines
last_lines-suffix n a b h =
    let (pre, rest, p, q) = first_newline b n h in
    let long : n ≤ length (split_from [] rest) = omega (arith, length-split_from [] rest) in
    rw
      (
        p,
        ← append_assoc a pre (10 ∷ rest),
        split_from-append [] (a ++ pre) rest,
        split_from-append [] pre rest,
      )
      (last_lines-append n (split_from [] ((a ++ pre) ++ 10 ∷ [])) (split_from [] rest) long
        ∙ sym (last_lines-append n (split_from [] (pre ++ 10 ∷ [])) (split_from [] rest) long))
