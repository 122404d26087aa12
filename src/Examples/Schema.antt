-- ===== src/Examples/Schema.antt =====
-- The codecs of types/schema.go at a small table.
use auroradb.Prelude.{ℕ, ◌≡◌, refl, [], ◌∷◌, List, some, Bytes, codes, Ordering, arith}
use auroradb.Prelude.Panic.{slice_to}
use auroradb.Prelude.Compare.{◌then_by◌, compare_bytes}
use auroradb.Types.{Value, TableDef, type_bytes, type_int64, bytes_value, int_value}
use auroradb.Types.Codec.{serialize_bytes, serialize_int}
use auroradb.Types.Key.{encode_key, decode_key, encode_value, encode_values}
use auroradb.Types.Key.RoundTrip.{bytes, int, HasTypes, decode_key-encode_key}
use auroradb.Types.Key.Order.{
  compare_values, compare_bytes-encode_key, compare_bytes-encode_key_prefix,
}

-- The primary key (city bytes, number int).
abbrev pub shops : TableDef
shops = record {
  name = codes "shops";
  cols = codes "city" ∷ codes "number" ∷ codes "owner" ∷ [];
  types = type_bytes ∷ type_int64 ∷ type_bytes ∷ [];
  pkeys = 2;
  prefixes = 7 ∷ 8 ∷ [];
  indexes = (codes "city" ∷ codes "number" ∷ []) ∷ (codes "owner" ∷ []) ∷ [];
}

abbrev key_types : List ℕ
key_types = type_bytes ∷ type_int64 ∷ []

-- The empty city, and -1.
abbrev first : List Value
first = bytes_value [] ∷ int_value 0xffff_ffff_ffff_ffff ∷ []

-- A city of one zero byte, and 5.
abbrev second : List Value
second = bytes_value (0 ∷ []) ∷ int_value 5 ∷ []

first-HasTypes : HasTypes key_types first
first-HasTypes = (bytes [], (int 0xffff_ffff_ffff_ffff (omega arith) (omega arith), tt))

second-HasTypes : HasTypes key_types second
second-HasTypes = (bytes (0 ∷ []), (int 5 (omega arith) (omega arith), tt))

abbrev first_key : Bytes
first_key = 0 ∷ 0 ∷ 0 ∷ 7 ∷ 0 ∷ 0x7f ∷ 0xff ∷ 0xff ∷ 0xff ∷ 0xff ∷ 0xff ∷ 0xff ∷ 0xff ∷ []

abbrev second_key : Bytes
second_key = 0 ∷ 0 ∷ 0 ∷ 7 ∷ 1 ∷ 1 ∷ 0 ∷ 0x80 ∷ 0 ∷ 0 ∷ 0 ∷ 0 ∷ 0 ∷ 0 ∷ 5 ∷ []

abbrev other_key : Bytes
other_key = 0 ∷ 0 ∷ 0 ∷ 8 ∷ 0 ∷ []

first_encoded : encode_key 7 first ≡ some first_key
unfolding encode_key encode_values encode_value serialize_bytes serialize_int
first_encoded = refl

second_encoded : encode_key 7 second ≡ some second_key
unfolding encode_key encode_values encode_value serialize_bytes serialize_int
second_encoded = refl

other_encoded : encode_key 8 (bytes_value [] ∷ []) ≡ some other_key
unfolding encode_key encode_values encode_value serialize_bytes serialize_int
other_encoded = refl

decode_key-encode_key_example :
    (key : Bytes) × (encode_key 7 second ≡ some key) × (decode_key key shops ≡ some second)
unfolding slice_to
decode_key-encode_key_example = decode_key-encode_key 7 second shops key_types refl second-HasTypes

compare_bytes-encode_key_example :
    compare_bytes first_key second_key ≡ (Ordering.eq then_by compare_values first second)
compare_bytes-encode_key_example =
    compare_bytes-encode_key 7 7 key_types first second (omega arith) (omega arith) first-HasTypes
      second-HasTypes first_encoded second_encoded

compare_bytes-encode_key_prefix_example : compare_bytes second_key other_key ≡ Ordering.lt
compare_bytes-encode_key_prefix_example =
    compare_bytes-encode_key_prefix 7 8 second (bytes_value [] ∷ []) (omega arith) (omega arith)
      second_encoded other_encoded
