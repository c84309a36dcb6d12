-- ===== src/Storage/Proxies/Schema.antt =====
-- The table `proxies` of internal/storage/sqlmigrations/0001_init.up.sql: its constraints, and the
-- statements that internal/storage/proxies.go runs on it.
use frp_easy.Prelude.{
  ℕ, ◌+◌, ℤ, pos, Bool, true, false, not, ◌&&◌, ◌||◌, ◌==◌, Option, none, some, List, [], ◌∷◌, ◌++◌,
  String, str_eq, Text, Result, ok, err, if◌then◌else◌, ltb_ℤ, eq_ℤ,
}

pub record Row : Type 0 where
  pub id : ℕ
  pub name : String
  pub kind : String
  pub local_ip : String
  pub local_port : ℤ
  pub remote_port : Option ℤ
  pub custom_domains : Option Text
  pub enabled : Bool
  pub version : ℕ
  pub updated_at : ℕ

-- AUTOINCREMENT keeps the largest id ever used
pub record Table : Type 0 where
  pub rows : List Row
  pub last_id : ℕ

pub data Constraint : Type 0 where
  check_failed unique_name unique_remote_port : Constraint

abbrev pub is_port_kind : String → Bool
is_port_kind k = str_eq k "tcp" || str_eq k "udp"

abbrev pub is_domain_kind : String → Bool
is_domain_kind k = str_eq k "http" || str_eq k "https"

abbrev pub is_null {ℓ} : {A : Type ℓ} → Option A → Bool
is_null none = true
is_null (some _) = false

-- CHECK (type IN …), CHECK (local_port BETWEEN …) and the CHECK of the table
unfoldable pub check_row : Row → Bool
check_row r =
    not (ltb_ℤ r.local_port (pos 1))
    && (not (ltb_ℤ (pos 65535) r.local_port)
        && ((is_port_kind r.kind && (not (is_null r.remote_port) && is_null r.custom_domains))
            || (is_domain_kind r.kind
                && (is_null r.remote_port && not (is_null r.custom_domains)))))

abbrev pub same_port : Option ℤ → Option ℤ → Bool
same_port (some a) (some b) = eq_ℤ a b
same_port _ _ = false

-- two rows that the partial index on (type, remote_port) does not let stand together
abbrev pub same_remote : Row → Row → Bool
same_remote r q =
    is_port_kind r.kind && (str_eq r.kind q.kind && same_port r.remote_port q.remote_port)

unfoldable pub has_name : Row → List Row → Bool
has_name r [] = false
has_name r (q ∷ rs) = str_eq r.name q.name || has_name r rs

unfoldable pub has_remote : Row → List Row → Bool
has_remote r [] = false
has_remote r (q ∷ rs) = same_remote r q || has_remote r rs

-- the constraint that a row breaks beside the others; where it breaks both UNIQUE ones the driver
-- reports one of them
unfoldable pub violated : Bool → Row → List Row → Option Constraint
violated name_first r rs =
    if not (check_row r)
    then some check_failed
    else if has_name r rs && (name_first || not (has_remote r rs))
    then some unique_name
    else if has_remote r rs
    then some unique_remote_port
    else none

unfoldable pub find_row : ℕ → List Row → Option Row
find_row i [] = none
find_row i (r ∷ rs) = if r.id == i then some r else find_row i rs

-- the rows with another id
unfoldable pub others : ℕ → List Row → List Row
others i [] = []
others i (r ∷ rs) = let rest = others i rs in if r.id == i then rest else r ∷ rest

unfoldable pub replace_row : Row → List Row → List Row
replace_row q [] = []
replace_row q (r ∷ rs) = let rest = replace_row q rs in if r.id == q.id then q ∷ rest else r ∷ rest

-- INSERT INTO proxies …: the id of `r` is not read, and the row goes to the end, by id
unfoldable pub insert_row : Bool → Row → Table → Result Constraint Table
insert_row name_first r t =
    let q = record r { id = t.last_id + 1 } in
    elim (violated name_first q t.rows) [
      | some c ↦ err c
      | none ↦ ok (record { rows = t.rows ++ q ∷ []; last_id = t.last_id + 1 })
    ]

-- UPDATE proxies SET … WHERE id = r.id
unfoldable pub update_row : Bool → Row → Table → Result Constraint Table
update_row name_first r t = elim (violated name_first r (others r.id t.rows)) [
  | some c ↦ err c
  | none ↦ ok (record t { rows = replace_row r t.rows })
]

-- DELETE FROM proxies WHERE id = i
unfoldable pub delete_row : ℕ → Table → Table
delete_row i t = record t { rows = others i t.rows }
