-- ===== src/Frpconf/AllowPorts.antt =====
-- ValidateFrpsAllowPorts of internal/frpconf/render.go.
pub mod Disjoint
use frp_easy.Prelude.{
  ℕ, ◌+◌, suc, ℤ, pos, negsuc, eq_ℤ, ltb_ℤ, leb_ℤ, Bool, true, false, not, ◌&&◌, ◌||◌, Option, none,
  some, List, [], ◌∷◌, Result, ok, err, if◌then◌else◌, ltb, length,
}

-- FrpsAllowPortRange
pub record AllowPortRange : Type 0 where
  pub start : ℤ
  pub end : ℤ
  pub single : ℤ

pub data PortsError : Type 0 where
  too_many : ℕ → PortsError
  both_set none_set single_range start_range end_range start_after_end : ℕ → PortsError
  overlap : ℕ → ℕ → PortsError

pub record Span : Type 0 where
  pub lo : ℤ
  pub hi : ℤ
  pub idx : ℕ

abbrev pub is_zero : ℤ → Bool
is_zero n = eq_ℤ n (pos 0)

-- p < 1 || p > 65535
abbrev pub out_of_range : ℤ → Bool
out_of_range p = ltb_ℤ p (pos 1) || ltb_ℤ (pos 65535) p

-- one round of the first loop
unfoldable pub check_entry : ℕ → AllowPortRange → Result PortsError Span
check_entry i r =
    if not (is_zero r.single) && (not (is_zero r.start) || not (is_zero r.end))
    then err (both_set i)
    else if is_zero r.single && (is_zero r.start && is_zero r.end)
    then err (none_set i)
    else if not (is_zero r.single)
    then (if out_of_range r.single
        then err (single_range i)
        else ok (record { lo = r.single; hi = r.single; idx = i }))
    else if out_of_range r.start
    then err (start_range i)
    else if out_of_range r.end
    then err (end_range i)
    else if ltb_ℤ r.end r.start
    then err (start_after_end i)
    else ok (record { lo = r.start; hi = r.end; idx = i })

abbrev pub cons_ok :
    Result PortsError Span → Result PortsError (List Span) → Result PortsError (List Span)
cons_ok (err e) _ = err e
cons_ok (ok s) (err e) = err e
cons_ok (ok s) (ok ss) = ok (s ∷ ss)

-- the first loop, from index `i` on
unfoldable pub collect_spans : ℕ → List AllowPortRange → Result PortsError (List Span)
unfolding check_entry
collect_spans i [] = ok []
collect_spans i (r ∷ rs) = cons_ok (check_entry i r) (collect_spans (i + 1) rs)

-- closed intervals meet
abbrev pub meets : Span → Span → Bool
meets a b = leb_ℤ a.lo b.hi && leb_ℤ b.lo a.hi

unfoldable pub check_against : Span → List Span → Option PortsError
check_against a [] = none
check_against a (b ∷ bs) = if meets a b then some (overlap a.idx b.idx) else check_against a bs

abbrev pub or_else : Option PortsError → Option PortsError → Option PortsError
or_else (some e) _ = some e
or_else none e = e

-- the second, double loop
unfoldable pub check_pairs : List Span → Option PortsError
unfolding check_against
check_pairs [] = none
check_pairs (a ∷ rest) = or_else (check_against a rest) (check_pairs rest)

abbrev pub check_spans : Result PortsError (List Span) → Option PortsError
check_spans (err e) = some e
check_spans (ok ss) = check_pairs ss

-- ValidateFrpsAllowPorts
unfoldable pub validate_frps_allow_ports : List AllowPortRange → Option PortsError
unfolding collect_spans check_pairs
validate_frps_allow_ports rs =
    if ltb 100 (length rs) then some (too_many (length rs)) else check_spans (collect_spans 0 rs)
