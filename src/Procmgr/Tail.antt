-- ===== src/Procmgr/Tail.antt =====
-- The ring buffer of internal/procmgr/manager.go: the last lines of a child's output, which supervise
-- puts into the error of a child that has failed.
use frp_easy.Prelude.{
  ℕ, ◌+◌, ◌-◌, ◌≡◌, refl, ◌∙◌, List, [], ◌∷◌, ◌++◌, String, length, length-append, drop, ltb,
  if◌then◌else◌, Bool-cases, inl, inr, arith, take, take-append-drop, length-drop, append_assoc,
  append-nil, ap, sym,
}

pub record RingBuffer : Type 0 where
  pub buf : List String
  pub max : ℕ

-- newRingBuffer
unfoldable pub new_ring_buffer : ℕ → RingBuffer
new_ring_buffer n = record { buf = []; max = n }

-- (*ringBuffer).Push
unfoldable pub push : String → RingBuffer → RingBuffer
push s r =
    let grown = r.buf ++ s ∷ [] in
    if ltb r.max (length grown)
    then record r { buf = drop (length grown - r.max) grown }
    else record r { buf = grown }

-- the lines of teePipe
unfoldable pub push_all : List String → RingBuffer → RingBuffer
unfolding push
push_all [] r = r
push_all (s ∷ ss) r = push_all ss (push s r)

-- the last `n` of the lines, or all of them
pub record IsTail (n : ℕ) (lines buf : List String) : Type 0 where
  pub front : List String
  pub split : lines ≡ front ++ buf
  pub size : length buf ≡ (if ltb n (length lines) then n else length lines)

push-max : (s : String) (r : RingBuffer) → (push s r).max ≡ r.max
unfolding push
push-max s r = ground arith

push-IsTail :
    (s : String) (r : RingBuffer) (lines : List String)
    → IsTail r.max lines r.buf
    → IsTail r.max (lines ++ s ∷ []) (push s r).buf
unfolding push
push-IsTail s r lines t =
    let grown = r.buf ++ s ∷ [] in
    let k = length grown - r.max in
    let size : length grown ≡ length r.buf + 1 = ground (arith, length-append r.buf (s ∷ [])) in
    let sizes : length (lines ++ s ∷ []) ≡ length lines + 1 =
      ground (arith, length-append lines (s ∷ [])) in
    let whole : lines ++ s ∷ [] ≡ t.front ++ grown =
      ap (λ (l : List String). l ++ s ∷ []) t.split ∙ append_assoc t.front r.buf (s ∷ []) in
    elim (Bool-cases (ltb r.max (length grown))) [
      | inl e ↦ rw e (record {
        front = t.front ++ take k grown;
        split =
            whole
            ∙ ap (λ (l : List String). t.front ++ l) (sym (take-append-drop k grown))
            ∙ sym (append_assoc t.front (take k grown) (drop k grown));
        size = ground (arith, t.size, size, sizes, e, length-drop k grown);
      })
      | inr e ↦
          rw e (record {
            front = t.front;
            split = whole;
            size = ground (arith, t.size, size, sizes, e);
          })
    ]

push_all-IsTail :
    (ss lines : List String) (r : RingBuffer)
    → IsTail r.max lines r.buf
    → IsTail r.max (lines ++ ss) (push_all ss r).buf
unfolding push_all
push_all-IsTail [] lines r t = rw (append-nil lines) t
push_all-IsTail (s ∷ ss) lines r t =
    let later =
      push_all-IsTail ss (lines ++ s ∷ []) (push s r)
        (rw (push-max s r) (push-IsTail s r lines t)) in
    rw (push-max s r, append_assoc lines (s ∷ []) ss) at later

-- Whatever lines a child has written, one after the other: the buffer of size n holds the last n of
-- them in their order, or all of them where there are at most n.
pub push_all-new_ring_buffer :
    (n : ℕ) (lines : List String) → IsTail n lines (push_all lines (new_ring_buffer n)).buf
unfolding new_ring_buffer
push_all-new_ring_buffer n lines =
    push_all-IsTail lines [] (record { buf = []; max = n })
      (record { front = []; split = refl; size = ground arith })
