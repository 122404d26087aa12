-- ===== src/Index.antt =====
-- index/secondary.go: the keys of the secondary indexes of a row, and the way back to its primary key.
pub mod Rows
mod RoundTrip
pub mod PrimaryKey
pub mod Filled
pub mod Overwrite
use auroradb.Prelude.{
  ℕ, zero, suc, ◌&&◌, List, [], ◌∷◌, ◌++◌, Option, none, some, Bytes, length, get_elem?, set, drop,
  ◌==◌, if◌then◌else◌,
}
use auroradb.Prelude.Panic.{◌>>=◌, slice_to, slice_from}
use auroradb.Types.{
  Value, Record, TableDef, type_bytes, type_int64, empty_record, add_str, add_i64, find_col, get,
}
use auroradb.Types.Codec.{deserialize_bytes, deserialize_int}
use auroradb.Types.Key.{encode_key, until_zero, cut_keys}

-- `if val.Type == types.TYPE_BYTES && len(val.Str) == 0 { val.Str = []byte{0xff} }`
unfoldable pub fill : Value → Value
fill v = if v.type == type_bytes && length v.str == 0 then record v { str = 0xff ∷ [] } else v

-- One round of the loop over the columns of an index. `val` points into the row, so what is written
-- there is written to the row; a column that the row lacks is a nil dereference.
unfoldable pub index_column : Record → Bytes → Option (Record × Value)
unfolding get fill
index_column r col = do
  i ← get r col
  v ← get_elem? r.vals i
  some (record r { vals = set r.vals i (fill v) }, fill v)

unfoldable pub index_columns : Record → List Bytes → Option (Record × List Value)
index_columns r [] = some (r, [])
index_columns r (col ∷ cols) = do
  (r1, v) ← index_column r col
  (r2, vs) ← index_columns r1 cols
  some (r2, v ∷ vs)

-- One round of the loop over `tdef.Indexes[1:]`, at place `i` of that slice.
unfoldable pub secondary_key : TableDef → Record → ℕ → List Bytes → Option (Record × Bytes)
secondary_key tdef r i idx = do
  (r1, vals) ← index_columns r idx
  pks ← slice_to tdef.pkeys r1.vals
  prefix ← get_elem? tdef.prefixes (suc i)
  key ← encode_key prefix (vals ++ pks)
  some (r1, key)

unfoldable pub secondary_keys_from :
    TableDef → Record → ℕ → List (List Bytes) → Option (Record × List Bytes)
secondary_keys_from tdef r i [] = some (r, [])
secondary_keys_from tdef r i (idx ∷ rest) = do
  (r1, key) ← secondary_key tdef r i idx
  (r2, keys) ← secondary_keys_from tdef r1 (suc i) rest
  some (r2, key ∷ keys)

-- `GetSecondaryIndexesKeys`: the keys, and the row as the caller sees it afterwards.
unfoldable pub secondary_indexes_keys : TableDef → Record → Option (Record × List Bytes)
secondary_indexes_keys tdef r = do
  rest ← slice_from 1 tdef.indexes
  secondary_keys_from tdef r 0 rest

-- The types of the columns of an index; a column that the table lacks is passed over.
unfoldable pub index_types : TableDef → List Bytes → Option (List ℕ)
index_types tdef [] = some []
index_types tdef (col ∷ cols) = do
  head ← elim (find_col 0 tdef.cols col) [
    | none ↦ some []
    | some i ↦ (do t ← get_elem? tdef.types i; some (t ∷ []))
  ]
  tail ← index_types tdef cols
  some (head ++ tail)

-- One round of the loop that passes over the values of the index. `bytePtr += 8` reads nothing, so
-- it does not panic beyond the end.
unfoldable pub skip_key : ℕ → Bytes → Option Bytes
skip_key key_type s =
    if key_type == type_bytes
    then (do (key, after) ← until_zero s; some after)
    else if key_type == type_int64
    then some (drop 8 s)
    else none

unfoldable pub skip_keys : List ℕ → Bytes → Option Bytes
unfolding skip_key
skip_keys [] s = some s
skip_keys (t ∷ ts) s = do after ← skip_key t s; skip_keys ts after

-- One round of the last loop of `GetPKFromSecKey`.
unfoldable pub add_pk : Record → ℕ → Bytes → Bytes → Option Record
unfolding deserialize_int deserialize_bytes
add_pk acc key_type key col =
    if key_type == type_int64
    then (do n ← deserialize_int key; some (add_i64 acc col n))
    else if key_type == type_bytes
    then (do s ← deserialize_bytes key; some (add_str acc col s))
    else some acc

-- The loop goes through the types and finds keys and columns by place.
unfoldable pub add_pks : Record → List ℕ → List Bytes → List Bytes → Option Record
unfolding add_pk
add_pks acc [] keys cols = some acc
add_pks acc (t ∷ ts) [] cols = none
add_pks acc (t ∷ ts) (key ∷ keys) [] = none
add_pks acc (t ∷ ts) (key ∷ keys) (col ∷ cols) = do
  next ← add_pk acc t key col
  add_pks next ts keys cols

unfoldable pub pk_from_sec_key : TableDef → Bytes → ℕ → Option Record
unfolding index_types skip_keys cut_keys add_pks
pk_from_sec_key tdef encoded idx = do
  body ← slice_from 4 encoded
  cols ← get_elem? tdef.indexes idx
  value_types ← index_types tdef cols
  after ← skip_keys value_types body
  key_types ← slice_to tdef.pkeys tdef.types
  keys ← cut_keys key_types after
  add_pks empty_record key_types keys tdef.cols
