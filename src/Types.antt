-- ===== src/Types.antt =====
-- types/schema.go: values, records and table definitions, and the operations on a record.
-- The children model the codecs of the same file.
pub mod Codec
pub mod Key
pub mod Row
use auroradb.Prelude.{
  ℕ, zero, suc, ◌+◌, Bool, not, ◌||◌, List, [], ◌∷◌, ◌++◌, Option, none, some, Bytes, codes, equal,
  length, get_elem?, ltb, ◌==◌, if◌then◌else◌,
}
use auroradb.Prelude.Panic.{◌>>=◌}

abbrev pub type_bytes : ℕ
type_bytes = 1

abbrev pub type_int64 : ℕ
type_int64 = 2

-- `i64` is the bit pattern of the int64.
pub record Value : Type 0 where
  pub type : ℕ
  pub i64 : ℕ
  pub str : Bytes

-- Go's zero value of the struct.
abbrev pub zero_value : Value
zero_value = record { type = 0; i64 = 0; str = [] }

abbrev pub bytes_value : Bytes → Value
bytes_value s = record { type = type_bytes; i64 = 0; str = s }

abbrev pub int_value : ℕ → Value
int_value n = record { type = type_int64; i64 = n; str = [] }

pub record Record : Type 0 where
  pub cols : List Bytes
  pub vals : List Value

abbrev pub empty_record : Record
empty_record = record { cols = []; vals = [] }

abbrev pub add_str : Record → Bytes → Bytes → Record
add_str r col val = record { cols = r.cols ++ col ∷ []; vals = r.vals ++ bytes_value val ∷ [] }

abbrev pub add_i64 : Record → Bytes → ℕ → Record
add_i64 r col val = record { cols = r.cols ++ col ∷ []; vals = r.vals ++ int_value val ∷ [] }

-- The loop of `Get`: the place of the first column of that name, counted from `i`.
unfoldable pub find_col : ℕ → List Bytes → Bytes → Option ℕ
find_col i [] col = none
find_col i (c ∷ cs) col = if equal c col then some i else find_col (suc i) cs col

-- `Get` returns a pointer into `Vals`, here the place that it points to; `none` is nil.
unfoldable pub get : Record → Bytes → Option ℕ
unfolding find_col
get r col = find_col 0 r.cols col

pub record TableDef : Type 0 where
  pub name : Bytes
  pub cols : List Bytes
  pub types : List ℕ
  pub pkeys : ℕ
  pub prefixes : List ℕ
  pub indexes : List (List Bytes)

abbrev pub tdef_table : TableDef
tdef_table = record {
  name = codes "@table";
  cols = codes "name" ∷ codes "def" ∷ [];
  types = type_bytes ∷ type_bytes ∷ [];
  pkeys = 1;
  prefixes = 2 ∷ [];
  indexes = (codes "name" ∷ []) ∷ [];
}

abbrev pub tdef_meta : TableDef
tdef_meta = record {
  name = codes "@meta";
  cols = codes "key" ∷ codes "value" ∷ [];
  types = type_bytes ∷ type_bytes ∷ [];
  pkeys = 1;
  prefixes = 1 ∷ [];
  indexes = (codes "key" ∷ []) ∷ [];
}

-- The switch in the loop of `GetPKs`: a value of another type is left out.
add_typed : Record → Value → Option Bytes → Option Record
add_typed acc v col =
    if v.type == type_bytes
    then (do c ← col; some (add_str acc c v.str))
    else if v.type == type_int64
    then (do c ← col; some (add_i64 acc c v.i64))
    else some acc

-- The loop from place `i`, with `n` rounds left.
get_pks_from : Record → ℕ → ℕ → Record → Option Record
get_pks_from r i zero acc = some acc
get_pks_from r i (suc n) acc = do
  v ← get_elem? r.vals i
  next ← add_typed acc v (get_elem? r.cols i)
  get_pks_from r (suc i) n next

unfoldable pub get_pks : Record → ℕ → Option Record
unfolding get_pks_from add_typed
get_pks r pkeys = get_pks_from r 0 pkeys empty_record

-- `none` is the error about the number of columns.
unfoldable pub get_record_vals : TableDef → Record → ℕ → Option (List Value)
get_record_vals tdef r n =
    if ltb (length r.cols) n || not (n == tdef.pkeys) then none else some r.vals
