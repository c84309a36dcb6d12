-- ===== src/Storage/Kv/Examples.antt =====
-- A LIKE operator of the documented kind, and what `escapeLike` of internal/storage/kv.go makes of
-- sample prefixes.
use frp_easy.Prelude.{
  ℕ, ◌≡◌, ◌≢◌, refl, Bool, true, false, ◌&&◌, ◌||◌, [], ◌∷◌, ◌++◌, Text, codes, arith, ◌==◌,
  if◌then◌else◌,
}
use frp_easy.Storage.Kv.{escape_like}
use frp_easy.Storage.Kv.Like.{LikeOperator, same_fold, has_prefix_fold, like-escape_like}

abbrev pub is_end : Text → Bool
is_end [] = true
is_end (_ ∷ _) = false

unfoldable pub any_rest : (Text → Bool) → Text → Bool
any_rest f [] = f []
any_rest f (d ∷ s) = let rest = any_rest f s in f (d ∷ s) || rest

abbrev pub eat : ℕ → (Text → Bool) → Text → Bool
eat c f [] = false
eat c f (d ∷ s) = same_fold c d && f s

abbrev pub any_byte : (Text → Bool) → Text → Bool
any_byte f [] = false
any_byte f (d ∷ s) = f s

abbrev pub unescaped : ℕ → (Text → Bool) → Text → Bool
unescaped c f s = if c == 37 then any_rest f s else if c == 95 then any_byte f s else eat c f s

unfoldable pub like_ascii : Text → Text → Bool
unfolding any_rest same_fold
like_ascii [] s = is_end s
like_ascii (c ∷ []) s = if c == 92 then false else unescaped c is_end s
like_ascii (c ∷ e ∷ p) s =
    let f = λ (t : Text). like_ascii p t in
    let g = λ (t : Text). like_ascii (e ∷ p) t in if c == 92 then eat e f s else unescaped c g s

pub any_rest-is_end : (s : Text) → any_rest is_end s ≡ true
unfolding any_rest
any_rest-is_end [] = refl
any_rest-is_end (x ∷ s) = any_rest-is_end s

pub like_ascii_byte :
    (c : ℕ) (p : Text) (d : ℕ) (s : Text)
    → c ≢ 37
    → c ≢ 92
    → c ≢ 95
    → like_ascii (c ∷ p) (d ∷ s) ≡ (same_fold c d && like_ascii p s)
unfolding like_ascii
like_ascii_byte c [] d s x y z = ground arith
like_ascii_byte c (e ∷ p) d s x y z = ground arith

pub like_ascii_byte_end :
    (c : ℕ) (p : Text) → c ≢ 37 → c ≢ 92 → c ≢ 95 → like_ascii (c ∷ p) [] ≡ false
unfolding like_ascii
like_ascii_byte_end c [] x y z = ground arith
like_ascii_byte_end c (e ∷ p) x y z = ground arith

unfoldable pub ascii_operator : LikeOperator
unfolding like_ascii
ascii_operator = record {
  like = like_ascii;
  like_percent = any_rest-is_end;
  like_escaped = λ c p d s. refl;
  like_escaped_end = λ c p. refl;
  like_byte = like_ascii_byte;
  like_byte_end = like_ascii_byte_end;
}

like-escape_like_example :
    ascii_operator.like (escape_like (codes "50%_a\\") ++ 37 ∷ []) (codes "50%_A\\x")
    ≡ has_prefix_fold (codes "50%_a\\") (codes "50%_A\\x")
like-escape_like_example = like-escape_like ascii_operator (codes "50%_a\\") (codes "50%_A\\x")
