-- ===== src/Examples/Secondary.antt =====
-- The secondary index of a small table.
use auroradb.Prelude.{ℕ, suc, ◌≡◌, inl, refl, [], ◌∷◌, some, Bytes, codes, get_elem?, arith}
use auroradb.Prelude.Tests.{equal}
use auroradb.Prelude.Panic.{slice_to, slice_from}
use auroradb.Types.{Record, TableDef, type_bytes, bytes_value, int_value, find_col}
use auroradb.Types.Codec.{serialize_bytes, serialize_int}
use auroradb.Types.Key.{encode_key, encode_value, encode_values}
use auroradb.Types.Key.RoundTrip.{bytes, int}
use auroradb.Index.{
  index_column, index_columns, secondary_key, secondary_keys_from, secondary_indexes_keys,
  pk_from_sec_key,
}
use auroradb.Index.Rows.{IsRow}
use auroradb.Index.Filled.{pk_from_sec_key-secondary_indexes_keys}
use auroradb.Index.Overwrite.{pk_from_sec_key_overwritten}
use auroradb.Examples.Schema.{shops}

abbrev row : Record
row = record {
  cols = shops.cols;
  vals = bytes_value (codes "x") ∷ int_value 5 ∷ bytes_value (codes "al") ∷ [];
}

row-IsRow : IsRow shops row
row-IsRow = record {
  cols = refl;
  types = (bytes _, (int 5 (omega arith) (omega arith), (bytes _, tt)));
}

abbrev row_key : Bytes
row_key = 0 ∷ 0 ∷ 0 ∷ 8 ∷ 97 ∷ 108 ∷ 0 ∷ 120 ∷ 0 ∷ 0x80 ∷ 0 ∷ 0 ∷ 0 ∷ 0 ∷ 0 ∷ 0 ∷ 5 ∷ []

row_keys : secondary_indexes_keys shops row ≡ some (row, row_key ∷ [])
unfolding secondary_indexes_keys secondary_keys_from secondary_key index_columns index_column
    slice_to slice_from encode_key encode_values encode_value serialize_bytes serialize_int equal
row_keys = refl

pk_from_sec_key-secondary_indexes_keys_example :
    (row ≡ row)
    × ((j : ℕ) (key : Bytes)
        → get_elem? (row_key ∷ []) j ≡ some key
        → pk_from_sec_key shops key (suc j)
          ≡ some (record {
            cols = codes "city" ∷ codes "number" ∷ [];
            vals = bytes_value (codes "x") ∷ int_value 5 ∷ [];
          }))
unfolding slice_to
pk_from_sec_key-secondary_indexes_keys_example =
    pk_from_sec_key-secondary_indexes_keys shops row (codes "city" ∷ codes "number" ∷ [])
      (bytes_value (codes "x") ∷ int_value 5 ∷ []) row-IsRow (λ e. cc, (λ e. cc, (λ e. cc, tt)))
      refl refl row_keys

-- A table whose second index is by the first column of the primary key.
abbrev tags : TableDef
tags = record {
  name = codes "tags";
  cols = codes "tag" ∷ [];
  types = type_bytes ∷ [];
  pkeys = 1;
  prefixes = 3 ∷ 4 ∷ [];
  indexes = (codes "tag" ∷ []) ∷ (codes "tag" ∷ []) ∷ [];
}

abbrev untagged : Record
untagged = record { cols = tags.cols; vals = bytes_value [] ∷ [] }

abbrev tag_key : Bytes
tag_key = 0 ∷ 0 ∷ 0 ∷ 4 ∷ 0xff ∷ 0 ∷ 0xff ∷ 0 ∷ []

untagged_key :
    secondary_key tags untagged 0 (codes "tag" ∷ [])
    ≡ some (record { cols = tags.cols; vals = bytes_value (0xff ∷ []) ∷ [] }, tag_key)
unfolding secondary_key index_columns index_column slice_to encode_key encode_values encode_value
    serialize_bytes serialize_int equal
untagged_key = refl

pk_from_sec_key_overwritten_example :
    (pk : Record) × (pk_from_sec_key tags tag_key 1 ≡ some pk)
    × (get_elem? pk.vals 0 ≡ some (bytes_value (0xff ∷ [])))
    × (get_elem? (bytes_value (0xff ∷ []) ∷ []) 0 ≡ some (bytes_value (0xff ∷ [])))
unfolding slice_to find_col equal
pk_from_sec_key_overwritten_example =
    pk_from_sec_key_overwritten tags untagged 0 (codes "tag" ∷ []) (codes "tag" ∷ []) (codes "tag")
      0 (record { cols = refl; types = (bytes [], tt) }) refl refl (inl refl) refl (omega arith)
      refl untagged_key
