-- ===== src/Engine/Plan.antt =====
-- engine/planner.go: the index that serves the columns of a scan, and the values that bound a scan. The
-- outer `none` is a panic, the inner one the error.
pub mod Found
use auroradb.Prelude.{
  ℕ, suc, ◌+◌, ◌-◌, ◌^◌, Bool, true, false, List, [], ◌∷◌, Option, none, some, Bytes, ltb, ◌==◌,
  equal, length, if◌then◌else◌,
}
use auroradb.Types.{Value, Record, TableDef, add_str, add_i64}
use auroradb.Parser.Syntax.{ql_str, ql_i64}

-- The loop for one column, from the index at place `i` on.
unfoldable pub first_index : ℕ → List (List Bytes) → Bytes → Option (Option ℕ)
first_index i [] col = some none
first_index i ([] ∷ idxs) col = none
first_index i ((c ∷ idx) ∷ idxs) col =
    let rest = first_index (suc i) idxs col in if equal col c then some (some i) else rest

-- The inner loop of the first search: `idx[j]` for each column is the column.
unfoldable pub starts_with : List Bytes → List Bytes → Bool
starts_with [] idx = true
starts_with (col ∷ cols) [] = false
starts_with (col ∷ cols) (c ∷ idx) =
    let rest = starts_with cols idx in if equal col c then rest else false

-- The first search for several columns. It ends at the first index with fewer columns.
unfoldable pub prefix_index : ℕ → List (List Bytes) → List Bytes → Option ℕ
prefix_index i [] cols = none
prefix_index i (idx ∷ idxs) cols =
    let rest = prefix_index (suc i) idxs cols in
    if ltb (length idx) (length cols) then none else if starts_with cols idx then some i else rest

-- How often a column stands in an index, and how often all of them do.
unfoldable pub count_col : Bytes → List Bytes → ℕ
count_col col [] = 0
count_col col (k ∷ idx) = let rest = count_col col idx in if equal col k then suc rest else rest

unfoldable pub count_cols : List Bytes → List Bytes → ℕ
count_cols [] idx = 0
count_cols (col ∷ cols) idx = count_col col idx + count_cols cols idx

-- The second search.
unfoldable pub covering_index : ℕ → List (List Bytes) → List Bytes → Option ℕ
covering_index i [] cols = none
covering_index i (idx ∷ idxs) cols =
    let rest = covering_index (suc i) idxs cols in
    if count_cols cols idx == length cols then some i else rest

unfoldable pub get_cols_index : TableDef → List Bytes → Option (Option ℕ)
get_cols_index tdef [] = some none
get_cols_index tdef (col ∷ []) = first_index 0 tdef.indexes col
get_cols_index tdef (col ∷ next ∷ cols) = elim (prefix_index 0 tdef.indexes (col ∷ next ∷ cols)) [
  | some i ↦ some (some i)
  | none ↦ some (covering_index 0 tdef.indexes (col ∷ next ∷ cols))
]

-- `none` is the error.
unfoldable pub add_val_to_record : ℕ → Record → Bytes → Value → Option Record
add_val_to_record val_type rec col val =
    if val_type == ql_str
    then some (add_str rec col val.str)
    else if val_type == ql_i64
    then some (add_i64 rec col val.i64)
    else none

abbrev pub max_value : Value
max_value = record { type = 0; i64 = 2 ^ 63 - 1; str = 0xff ∷ 0xff ∷ 0xff ∷ 0xff ∷ [] }

-- math.MinInt64 + 1
abbrev pub min_value : Value
min_value = record { type = 0; i64 = 2 ^ 63 + 1; str = 0x00 ∷ 0x00 ∷ 0x00 ∷ 0x00 ∷ [] }
