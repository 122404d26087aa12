-- ===== src/Types/Key.antt =====
-- types/schema.go: `EncodeKey` and `DecodeKey`.
pub mod RoundTrip
pub mod Order
use auroradb.Prelude.{
  ℕ, zero, suc, List, [], ◌∷◌, ◌++◌, Option, none, some, Bytes, ◌==◌, if◌then◌else◌,
}
use auroradb.Prelude.Panic.{◌>>=◌, slice_to, slice_from}
use auroradb.Prelude.Words.{big_endian}
use auroradb.Types.{Value, TableDef, type_bytes, type_int64, zero_value, bytes_value, int_value}
use auroradb.Types.Codec.{serialize_bytes, deserialize_bytes, serialize_int, deserialize_int}

-- The switch in the loop of `EncodeKey`: what it appends for one value.
unfoldable pub encode_value : Value → Option Bytes
encode_value v =
    if v.type == type_bytes
    then some (serialize_bytes v.str ++ 0x00 ∷ [])
    else if v.type == type_int64
    then serialize_int v.i64
    else none

-- The loop: what it appends behind the prefix.
unfoldable pub encode_values : List Value → Option Bytes
encode_values [] = some []
encode_values (v ∷ vs) = do head ← encode_value v; tail ← encode_values vs; some (head ++ tail)

-- `binary.BigEndian.PutUint32` writes the four bytes of the prefix.
unfoldable pub encode_key : ℕ → List Value → Option Bytes
encode_key prefix pks = do body ← encode_values pks; some (big_endian 4 prefix ++ body)

-- `for encodedBytes[bytePtr] != 0x00`: the bytes up to the delimiter, and what stands behind it.
unfoldable pub until_zero : Bytes → Option (Bytes × Bytes)
until_zero [] = none
until_zero (b ∷ s) =
    let rest = until_zero s in
    if b == 0x00 then some ([], s) else (do (key, after) ← rest; some (b ∷ key, after))

-- One round of the first loop of `DecodeKey`: the key of one column, and the bytes behind it.
unfoldable pub cut_key : ℕ → Bytes → Option (Bytes × Bytes)
unfolding until_zero slice_to slice_from
cut_key key_type s =
    if key_type == type_bytes
    then until_zero s
    else if key_type == type_int64
    then (do key ← slice_to 8 s; after ← slice_from 8 s; some (key, after))
    else none

unfoldable pub cut_keys : List ℕ → Bytes → Option (List Bytes)
unfolding cut_key
cut_keys [] s = some []
cut_keys (t ∷ ts) s = do (key, after) ← cut_key t s; keys ← cut_keys ts after; some (key ∷ keys)

-- One round of the second loop: the value of a column from its key.
unfoldable pub decode_column : ℕ → Bytes → Option Value
unfolding deserialize_int deserialize_bytes
decode_column key_type key =
    if key_type == type_int64
    then (do n ← deserialize_int key; some (int_value n))
    else if key_type == type_bytes
    then (do s ← deserialize_bytes key; some (bytes_value s))
    else some zero_value

-- The second loop goes through the types and finds the keys by place.
unfoldable pub decode_columns : List ℕ → List Bytes → Option (List Value)
unfolding decode_column
decode_columns [] keys = some []
decode_columns (t ∷ ts) [] = none
decode_columns (t ∷ ts) (key ∷ keys) = do
  v ← decode_column t key
  vs ← decode_columns ts keys
  some (v ∷ vs)

unfoldable pub decode_key : Bytes → TableDef → Option (List Value)
unfolding cut_keys decode_columns
decode_key encoded tdef = do
  body ← slice_from 4 encoded
  key_types ← slice_to tdef.pkeys tdef.types
  keys ← cut_keys key_types body
  decode_columns key_types keys
