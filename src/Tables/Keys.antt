-- ===== src/Tables/Keys.antt =====
-- db/db.go: tables that TableNew cannot create.
use auroradb.Prelude.{
  ℕ, suc, ◌-◌, ◌<◌, ◌≡◌, refl, List, [], ◌∷◌, ◌++◌, none, some, Bytes, codes, arith,
}
use auroradb.Prelude.Panic.{slice_to}
use auroradb.Prelude.Words.{big_endian}
use auroradb.Types.{
  Value, TableDef, Record, get_pks, add_str, empty_record, bytes_value, tdef_meta, get_record_vals,
}
use auroradb.Types.Codec.{serialize_bytes}
use auroradb.Types.Key.{encode_value, encode_values, encode_key}
use auroradb.Types.Row.{Json, add_decoded, decode_val}
use auroradb.Storage.Pages.{Kv}
use auroradb.Storage.Transaction.{Kvtx, tx_get}
use auroradb.Tables.{row_key, read_row, db_get, save_table, table_new}

-- A row of one column has no two key columns.
get_pks_one :
    (col val : Bytes) (n : ℕ) → get_pks (add_str empty_record col val) (suc (suc n)) ≡ none
unfolding get_pks
get_pks_one col val n = refl

-- `TableNew` of a table whose primary key has more than one column panics, whatever the store and the transaction hold.
pub table_new_keys :
    (json : Json) (fuel : ℕ) (db : Kv) (tx : Kvtx) (tdef : TableDef)
    → 1 < tdef.pkeys
    → table_new json fuel db tx tdef ≡ none
unfolding table_new
table_new_keys json fuel db tx tdef h =
    let n = tdef.pkeys - 2 in
    let e : tdef.pkeys ≡ suc (suc n) = omega arith in rw (e, get_pks_one _ _ n) refl

-- The row of @meta that counts the prefixes.
abbrev pub prefix_key : Bytes
prefix_key = 0 ∷ 0 ∷ 0 ∷ 1 ∷ (codes "prefix" ++ 0 ∷ [])

prefix_row_key : row_key tdef_meta (bytes_value (codes "prefix") ∷ []) ≡ some prefix_key
unfolding row_key encode_key encode_values encode_value serialize_bytes slice_to big_endian
prefix_row_key = refl

-- A row of @meta with two values or more behind its key cannot be read.
add_decoded_meta :
    (rec : Record) (v w : Value) (more : List Value)
    → add_decoded tdef_meta rec 0 (v ∷ w ∷ more) ≡ none
unfolding add_decoded
add_decoded_meta rec v w more = refl

-- The columns of the row that is sought are there.
meta_vals :
    get_record_vals tdef_meta (add_str empty_record (codes "key") (codes "prefix")) 1
    ≡ some (bytes_value (codes "prefix") ∷ [])
unfolding get_record_vals
meta_vals = refl

db_get_meta :
    (json : Json) (fuel : ℕ) (db : Kv) (tx tx1 : Kvtx) (val : Bytes) (v w : Value)
    (more : List Value)
    → tx_get fuel db tx prefix_key ≡ some (tx1, some val)
    → json.unmarshal_vals val ≡ some (v ∷ w ∷ more)
    → db_get json fuel db tx tdef_meta (add_str empty_record (codes "key") (codes "prefix")) ≡ none
unfolding db_get read_row decode_val
db_get_meta json fuel db tx tx1 val v w more g u =
    rw (db_get, meta_vals, prefix_row_key, g, read_row, decode_val, u, add_decoded_meta _ v w more)
      refl

-- Where the count of the prefixes was saved with two values or more, creating a table panics behind the test that it is
-- new, whatever the table. `TableNew` itself appends a value to this row at each table.
pub save_table_meta :
    (json : Json) (fuel : ℕ) (db : Kv) (tx tx1 : Kvtx) (tdef : TableDef) (rec : Record)
    (val : Bytes) (v w : Value) (more : List Value)
    → tx_get fuel db tx prefix_key ≡ some (tx1, some val)
    → json.unmarshal_vals val ≡ some (v ∷ w ∷ more)
    → save_table json fuel db tx tdef rec ≡ none
unfolding save_table
save_table_meta json fuel db tx tx1 tdef rec val v w more g u =
    rw (db_get_meta json fuel db tx tx1 val v w more g u) refl
