-- ===== src/Examples/Tables.antt =====
-- A table of integers, in a transaction on a new store.
use auroradb.Prelude.{
  ◌≡◌, ◌⊎◌, inl, refl, ◌≤◌, true, false, List, [], ◌∷◌, none, some, Bytes, codes, equal, equal_refl,
  ◌∙◌, length, if◌then◌else◌, arith,
}
use auroradb.Prelude.Panic.{slice_to, slice_from}
use auroradb.Prelude.Words.{big_endian}
use auroradb.Types.{Value, Record, TableDef, type_int64, int_value}
use auroradb.Types.Codec.{serialize_int}
use auroradb.Types.Key.{encode_value, encode_values, encode_key}
use auroradb.Types.Row.{Json}
use auroradb.Util.{has}
use auroradb.Storage.Transaction.{Kvtx, new_kvtx, tx_get}
use auroradb.Storage.Transaction.Write.{tx_get-tx_set}
use auroradb.Storage.Transaction.Overlay.{empty}
use auroradb.Tables.{row_key, read_row, db_get, db_set, save_table, table_new}
use auroradb.Tables.Keys.{prefix_key, save_table_meta, table_new_keys}
use auroradb.Tables.Rows.{db_get-db_set, db_get-db_set_row}
use auroradb.Examples.Pages.{store}

unfoldable ints : List Value → Bytes
ints [] = []
ints (v ∷ vs) = v.i64 ∷ ints vs

unfoldable values : Bytes → List Value
values [] = []
values (n ∷ ns) = int_value n ∷ values ns

-- A conversion of small integers.
abbrev json : Json
json = record {
  marshal_vals = λ vs. some (ints vs);
  unmarshal_vals = λ s. some (values s);
  marshal_def = λ def. some def.name;
  unmarshal_def = λ s. none;
}

abbrev table : TableDef
table = record {
  name = codes "t";
  cols = codes "id" ∷ codes "n" ∷ [];
  types = type_int64 ∷ type_int64 ∷ [];
  pkeys = 1;
  prefixes = 3 ∷ [];
  indexes = (codes "id" ∷ []) ∷ [];
}

abbrev row : Record
row = record { cols = codes "id" ∷ codes "n" ∷ []; vals = int_value 7 ∷ int_value 9 ∷ [] }

abbrev query : Record
query = record { cols = codes "id" ∷ []; vals = int_value 7 ∷ [] }

abbrev other : Record
other = record { cols = codes "id" ∷ []; vals = int_value 8 ∷ [] }

abbrev key : Bytes
key = 0 ∷ 0 ∷ 0 ∷ 3 ∷ 128 ∷ 0 ∷ 0 ∷ 0 ∷ 0 ∷ 0 ∷ 0 ∷ 7 ∷ []

abbrev other_key : Bytes
other_key = 0 ∷ 0 ∷ 0 ∷ 3 ∷ 128 ∷ 0 ∷ 0 ∷ 0 ∷ 0 ∷ 0 ∷ 0 ∷ 8 ∷ []

row_keys :
    (row_key table row.vals ≡ some key)
    × (row_key table query.vals ≡ some key)
    × (row_key table other.vals ≡ some other_key)
unfolding row_key encode_key encode_values encode_value serialize_int slice_to big_endian
row_keys = (refl, refl, refl)

db_get-db_set_example :
    (tx1 : Kvtx) × (db_set json 1 store new_kvtx table row ≡ some (tx1, true))
    × ((q : Record) (k : Bytes)
        → 1 ≤ length q.cols
        → row_key table q.vals ≡ some k
        → (key ≡ k) ⊎ (has new_kvtx.del_set k ≡ false)
        → (tx2 : Kvtx) × (db_get json 1 store tx1 table q
            ≡ read_row json 1 store tx2 table q (if equal key k then some (9 ∷ []) else none)))
unfolding slice_from ints
db_get-db_set_example =
    db_get-db_set json 1 store new_kvtx (λ k. none) table row key (9 ∷ []) (int_value 9 ∷ [])
      (omega arith) refl (omega arith) (empty refl (λ k. refl)) (omega arith) (omega arith)
      row_keys.0 refl refl (omega arith)

db_get-db_set_row_example :
    (tx1 tx2 : Kvtx) × (db_set json 1 store new_kvtx table row ≡ some (tx1, true))
    × (db_get json 1 store tx1 table query ≡ some (tx2, row, true))
unfolding ints values
db_get-db_set_row_example =
    db_get-db_set_row json 1 store new_kvtx (λ k. none) table (codes "id" ∷ []) (codes "n" ∷ [])
      (int_value 7 ∷ []) (int_value 9 ∷ []) key (9 ∷ []) (omega arith) refl (omega arith)
      (empty refl (λ k. refl)) refl refl refl refl (omega arith) row_keys.1 refl refl (omega arith)

table_new_keys_example : table_new json 1 store new_kvtx (record table { pkeys = 2 }) ≡ none
table_new_keys_example =
    table_new_keys json 1 store new_kvtx (record table { pkeys = 2 }) (omega arith)

-- A transaction that has saved a count of two values.
counted : (tx1 tx2 : Kvtx) × (tx_get 1 store tx1 prefix_key ≡ some (tx2, some (3 ∷ 4 ∷ [])))
counted =
    let (tx1, e, read) =
      tx_get-tx_set 1 store new_kvtx (λ k. none) prefix_key (3 ∷ 4 ∷ []) (omega arith) refl
        (omega arith) (λ e. cc) (omega arith) (empty refl (λ k. refl)) in
    let (tx2, g) = read prefix_key (λ e. cc) (inl refl) in
    (tx1, tx2, g ∙ rw (equal_refl prefix_key) refl)

save_table_meta_example : save_table json 1 store counted.0 table row ≡ none
unfolding values
save_table_meta_example =
    save_table_meta json 1 store counted.0 counted.1 table row (3 ∷ 4 ∷ []) (int_value 3)
      (int_value 4) [] counted.2 refl
