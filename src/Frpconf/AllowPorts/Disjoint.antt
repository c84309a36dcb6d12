-- ===== src/Frpconf/AllowPorts/Disjoint.antt =====
-- The allowPorts lists that ValidateFrpsAllowPorts of internal/frpconf/render.go accepts.
use frp_easy.Prelude.{
  ℕ, zero, ◌+◌, ◌≤◌, suc, ℤ, pos, eq_ℤ, leb_ℤ, Bool, true, false, ◌&&◌, Option, none, some, List,
  [], ◌∷◌, Result, ok, err, if◌then◌else◌, ltb, leb, length, ◌≡◌, ◌↔◌, inl, inr, refl, arith, All,
  Bool-cases,
}
use frp_easy.Frpconf.AllowPorts.{
  AllowPortRange, PortsError, Span, is_zero, check_entry, collect_spans, cons_ok, meets,
  check_against, check_pairs, validate_frps_allow_ports, or_else, check_spans,
}

-- frps lets clients use port `p` by this entry
unfoldable pub allows : AllowPortRange → ℕ → Bool
allows r p =
    if is_zero r.single then leb_ℤ r.start (pos p) && leb_ℤ (pos p) r.end else eq_ℤ r.single (pos p)

-- an entry in one of the two documented forms, over valid ports
pub data IsEntry (r : AllowPortRange) : Type 0 where
  one : (p : ℕ) → 1 ≤ p → p ≤ 65535 → r.single ≡ pos p → r.start ≡ pos 0 → r.end ≡ pos 0 → IsEntry r
  range :
      (a b : ℕ)
      → 1 ≤ a
      → a ≤ b
      → b ≤ 65535
      → r.single ≡ pos 0
      → r.start ≡ pos a
      → r.end ≡ pos b
      → IsEntry r

-- no port is allowed by both
abbrev pub Apart : AllowPortRange → AllowPortRange → Type 0
Apart r q = (p : ℕ) → allows r p ≡ true → allows q p ≡ true → ⊥

abbrev pub AllApart : List AllowPortRange → Type 0
AllApart [] = Unit
AllApart (r ∷ rs) = All (Apart r) rs × AllApart rs

-- the span of an entry
pub record IsSpan (r : AllowPortRange) (s : Span) : Type 0 where
  pub first : ℕ
  pub last : ℕ
  pub lo_eq : s.lo ≡ pos first
  pub hi_eq : s.hi ≡ pos last
  pub ordered : first ≤ last
  pub exact : (p : ℕ) → allows r p ≡ (leb first p && leb p last)

abbrev entry : ℤ → ℤ → ℤ → AllowPortRange
entry c a b = record { start = a; end = b; single = c }

abbrev span_of : ℤ → ℤ → ℤ → ℕ → Span
span_of c a b i =
    if is_zero c then record { lo = a; hi = b; idx = i } else record { lo = c; hi = c; idx = i }

IsEntry-fields :
    (i : ℕ) (c a b : ℤ) (s : Span) → check_entry i (entry c a b) ≡ ok s → IsEntry (entry c a b)
unfolding check_entry
IsEntry-fields i (pos zero) (pos a) (pos b) s h =
    range a b (ground arith) (ground arith) (ground arith) refl refl refl
IsEntry-fields i (pos (suc c)) (pos zero) (pos zero) s h =
    one (suc c) (ground arith) (ground arith) refl refl refl
IsEntry-fields i c a b s h = absurd (ground arith)

check_entry-eq :
    (i : ℕ) (c a b : ℤ) (s : Span) → check_entry i (entry c a b) ≡ ok s → s ≡ span_of c a b i
unfolding check_entry
check_entry-eq i c a b s h = ground arith

IsEntry-IsSpan :
    (i : ℕ) (r : AllowPortRange) → IsEntry r → IsSpan r (span_of r.single r.start r.end i)
unfolding allows
IsEntry-IsSpan i r (one p x y c a b) = record {
  first = p;
  last = p;
  lo_eq = ground arith;
  hi_eq = ground arith;
  ordered = omega arith;
  exact = λ q. ground arith;
}
IsEntry-IsSpan i r (range u v x y z c a b) = record {
  first = u;
  last = v;
  lo_eq = ground arith;
  hi_eq = ground arith;
  ordered = y;
  exact = λ q. ground arith;
}

IsEntry-check_entry :
    (i : ℕ) (r : AllowPortRange) → IsEntry r → (s : Span) × (check_entry i r ≡ ok s)
unfolding check_entry
IsEntry-check_entry i r (one p a b c d e) =
    (record { lo = pos p; hi = pos p; idx = i }, ground arith)
IsEntry-check_entry i r (range a b x y z c d e) =
    (record { lo = pos a; hi = pos b; idx = i }, ground arith)

check_entry-IsEntry : (i : ℕ) (r : AllowPortRange) (s : Span) → check_entry i r ≡ ok s → IsEntry r
check_entry-IsEntry i r s h = IsEntry-fields i r.single r.start r.end s h

check_entry-IsSpan : (i : ℕ) (r : AllowPortRange) (s : Span) → check_entry i r ≡ ok s → IsSpan r s
check_entry-IsSpan i r s h =
    rw (check_entry-eq i r.single r.start r.end s h)
      (IsEntry-IsSpan i r (check_entry-IsEntry i r s h))

abbrev SpansOf : List AllowPortRange → List Span → Type 0
SpansOf [] [] = Unit
SpansOf [] (s ∷ ss) = ⊥
SpansOf (r ∷ rs) [] = ⊥
SpansOf (r ∷ rs) (s ∷ ss) = IsSpan r s × SpansOf rs ss

cons_ok-eq :
    (m : Result PortsError Span) (n : Result PortsError (List Span)) (ss : List Span)
    → cons_ok m n ≡ ok ss
    → (t : Span) × (ts : List Span) × (m ≡ ok t) × (n ≡ ok ts) × (ss ≡ t ∷ ts)
cons_ok-eq (ok t) (ok ts) ss h = (t, ts, refl, refl, cc)
cons_ok-eq (ok t) (err e) ss h = cc
cons_ok-eq (err e) n ss h = cc

collect_spans-SpansOf :
    (i : ℕ) (rs : List AllowPortRange) (ss : List Span)
    → collect_spans i rs ≡ ok ss
    → All IsEntry rs × SpansOf rs ss
unfolding collect_spans
collect_spans-SpansOf i [] [] h = (tt, tt)
collect_spans-SpansOf i [] (s ∷ ss) h = cc
collect_spans-SpansOf i (r ∷ rs) ss h =
    let (t, ts, a, b, c) = cons_ok-eq (check_entry i r) (collect_spans (i + 1) rs) ss h in
    let (es, sp) = collect_spans-SpansOf (i + 1) rs ts b in
    rw c ((check_entry-IsEntry i r t a, es), (check_entry-IsSpan i r t a, sp))

collect_spans_total :
    (i : ℕ) (rs : List AllowPortRange)
    → All IsEntry rs
    → (ss : List Span) × (collect_spans i rs ≡ ok ss)
unfolding collect_spans
collect_spans_total i [] a = ([], refl)
collect_spans_total i (r ∷ rs) a =
    let (t, p) = IsEntry-check_entry i r a.0 in
    let (ts, q) = collect_spans_total (i + 1) rs a.1 in (t ∷ ts, rw (p, q))

meets-Apart :
    (r q : AllowPortRange) (s t : Span) → IsSpan r s → IsSpan q t → (meets s t ≡ false) ↔ Apart r q
meets-Apart r q s t x y = (
  λ h p a b. ground (arith, x.exact p, y.exact p),
  λ h. ground (
    arith,
    x.exact x.first,
    y.exact x.first,
    x.exact y.first,
    y.exact y.first,
    h x.first,
    h y.first,
  ),
)

check_against-Apart :
    (r : AllowPortRange) (s : Span) (qs : List AllowPortRange) (ts : List Span)
    → IsSpan r s
    → SpansOf qs ts
    → (check_against s ts ≡ none) ↔ All (Apart r) qs
unfolding check_against
check_against-Apart r s [] [] x y = (λ h. tt, λ h. refl)
check_against-Apart r s [] (t ∷ ts) x y = absurd y
check_against-Apart r s (q ∷ qs) [] x y = absurd y
check_against-Apart r s (q ∷ qs) (t ∷ ts) x y =
    let m = meets-Apart r q s t x y.0 in
    let ih = check_against-Apart r s qs ts x y.1 in
    elim (Bool-cases (meets s t)) [
      | inl e ↦ (λ h. cc, λ h. absurd (ground (arith, m.1 h.0)))
      | inr e ↦ (λ h. (m.0 e, ih.0 (rw e at h)), λ h. rw e (ih.1 h.1))
    ]

or_else-none : (a b : Option PortsError) → (or_else a b ≡ none) ↔ ((a ≡ none) × (b ≡ none))
or_else-none none b = (λ h. (refl, h), λ h. h.1)
or_else-none (some e) b = (λ h. cc, λ h. cc h.0)

check_pairs-AllApart :
    (rs : List AllowPortRange) (ss : List Span)
    → SpansOf rs ss
    → (check_pairs ss ≡ none) ↔ AllApart rs
unfolding check_pairs
check_pairs-AllApart [] [] x = (λ h. tt, λ h. refl)
check_pairs-AllApart [] (s ∷ ss) x = absurd x
check_pairs-AllApart (r ∷ rs) [] x = absurd x
check_pairs-AllApart (r ∷ rs) (s ∷ ss) x =
    let o = or_else-none (check_against s ss) (check_pairs ss) in
    let a = check_against-Apart r s rs ss x.0 x.1 in
    let ih = check_pairs-AllApart rs ss x.1 in
    (λ h. (a.0 (o.0 h).0, ih.0 (o.0 h).1), λ h. o.1 (a.1 h.0, ih.1 h.1))

-- ValidateFrpsAllowPorts accepts a list exactly when it has at most 100 entries, each entry is a
-- single port or an ordered range within 1 to 65535 with the other form left unset, and no port is
-- allowed by two of the entries.
pub validate_frps_allow_ports_iff :
    (rs : List AllowPortRange)
    → (validate_frps_allow_ports rs ≡ none) ↔ ((length rs ≤ 100) × All IsEntry rs × AllApart rs)
unfolding validate_frps_allow_ports
validate_frps_allow_ports_iff rs = (accepted, accepts)
  where
    checked :
        (res : Result PortsError (List Span))
        → ((ss : List Span) → res ≡ ok ss → All IsEntry rs × SpansOf rs ss)
        → check_spans res ≡ none
        → All IsEntry rs × AllApart rs
    checked (err e) f h = cc
    checked (ok ss) f h = ((f ss refl).0, (check_pairs-AllApart rs ss (f ss refl).1).0 h)

    accepted :
        validate_frps_allow_ports rs ≡ none → (length rs ≤ 100) × All IsEntry rs × AllApart rs
    accepted h = elim (Bool-cases (ltb 100 (length rs))) [
      | inl e ↦ absurd (ground (arith, h, e))
      | inr e ↦
          let (a, b) = checked (collect_spans 0 rs) (collect_spans-SpansOf 0 rs) (rw e at h) in
          (ground (arith, e), a, b)
    ]

    accepts : (length rs ≤ 100) × All IsEntry rs × AllApart rs → validate_frps_allow_ports rs ≡ none
    accepts (small, es, ap') =
        let (ss, e) = collect_spans_total 0 rs es in
        let f : ltb 100 (length rs) ≡ false = ground arith in
        rw (f, e) ((check_pairs-AllApart rs ss (collect_spans-SpansOf 0 rs ss e).1).1 ap')
