-- ===== src/Storage/Kv/Like.antt =====
-- SQLite's LIKE … ESCAPE '\' (the driver's, a parameter with its documented rules) and what
-- `escapeLike(prefix)+'%'` of internal/storage/kv.go matches.
use frp_easy.Prelude.{
  ℕ, ◌+◌, ◌≡◌, ◌≢◌, refl, Bool, true, false, ◌&&◌, ◌||◌, [], ◌∷◌, ◌++◌, Text, arith, leb, ◌==◌,
  if◌then◌else◌, Bool-cases, inl, inr,
}
use frp_easy.Storage.Kv.{escape_like}

-- LIKE does not tell the case of ASCII letters apart.
abbrev pub lower : ℕ → ℕ
lower c = if leb 65 c && leb c 90 then c + 32 else c

unfoldable pub same_fold : ℕ → ℕ → Bool
same_fold c d = lower c == lower d

-- The rules of the operator that a pattern of literal and escaped bytes and a last `%` needs.
pub record LikeOperator : Type 0 where
  pub like : Text → Text → Bool
  pub like_percent : (s : Text) → like (37 ∷ []) s ≡ true
  pub like_escaped :
      (c : ℕ) (p : Text) (d : ℕ) (s : Text)
      → like (92 ∷ c ∷ p) (d ∷ s) ≡ (same_fold c d && like p s)
  pub like_escaped_end : (c : ℕ) (p : Text) → like (92 ∷ c ∷ p) [] ≡ false
  pub like_byte :
      (c : ℕ) (p : Text) (d : ℕ) (s : Text)
      → c ≢ 37
      → c ≢ 92
      → c ≢ 95
      → like (c ∷ p) (d ∷ s) ≡ (same_fold c d && like p s)
  pub like_byte_end : (c : ℕ) (p : Text) → c ≢ 37 → c ≢ 92 → c ≢ 95 → like (c ∷ p) [] ≡ false

-- A prefix, the case of ASCII letters aside.
unfoldable pub has_prefix_fold : Text → Text → Bool
unfolding same_fold
has_prefix_fold [] t = true
has_prefix_fold (a ∷ p) [] = false
has_prefix_fold (a ∷ p) (b ∷ t) = same_fold a b && has_prefix_fold p t

pub has_prefix_fold-append : (p t : Text) → has_prefix_fold p (p ++ t) ≡ true
unfolding has_prefix_fold
has_prefix_fold-append [] t = refl
has_prefix_fold-append (a ∷ p) t = ground (arith, has_prefix_fold-append p t)

abbrev is_special : ℕ → Bool
is_special c = c == 92 || (c == 37 || c == 95)

-- The three replacements act as one pass.
escape_like-cons :
    (c : ℕ) (s : Text)
    → escape_like (c ∷ s) ≡ (if is_special c then 92 ∷ c ∷ escape_like s else c ∷ escape_like s)
unfolding escape_like
escape_like-cons c s = ground arith

module _ (o : LikeOperator) where
  open o use {like, like_percent, like_escaped, like_escaped_end, like_byte, like_byte_end}

  like-prefix_cons :
      (c : ℕ) (p k : Text)
      → ((j : Text) → like (escape_like p ++ 37 ∷ []) j ≡ has_prefix_fold p j)
      → like (escape_like (c ∷ p) ++ 37 ∷ []) k ≡ has_prefix_fold (c ∷ p) k
  unfolding has_prefix_fold
  like-prefix_cons c p [] ih = elim (Bool-cases (is_special c)) [
    | inl e ↦ rw (escape_like-cons c p, e) (like_escaped_end c (escape_like p ++ 37 ∷ []))
    | inr e ↦
        rw (escape_like-cons c p, e)
          (like_byte_end c (escape_like p ++ 37 ∷ []) (ground arith) (ground arith) (ground arith))
  ]
  like-prefix_cons c p (d ∷ k) ih = elim (Bool-cases (is_special c)) [
    | inl e ↦ rw (escape_like-cons c p, e, like_escaped c (escape_like p ++ 37 ∷ []) d k, ih k)
    | inr e ↦ rw (
      escape_like-cons c p,
      e,
      like_byte c (escape_like p ++ 37 ∷ []) d k (ground arith) (ground arith) (ground arith),
      ih k,
    )
  ]

  -- `LIKE escapeLike(p)+'%'` holds of exactly the keys that begin with `p`, the case of ASCII
  -- letters aside, whatever `%`, `_` and `\` stand in `p`.
  pub like-escape_like : (p k : Text) → like (escape_like p ++ 37 ∷ []) k ≡ has_prefix_fold p k
  unfolding has_prefix_fold escape_like
  like-escape_like [] k = like_percent k
  like-escape_like (c ∷ p) k = like-prefix_cons c p k (like-escape_like p)
