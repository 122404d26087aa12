-- ===== src/Tables.antt =====
-- db/db.go: tables in a transaction. `none` is a panic, or a lack of fuel for a descent. The errors of Go are `false`.
-- A row that is passed by value keeps what the pointers of GetSecondaryIndexesKeys write into it from the caller; no
-- caller here reads it again.
pub mod Keys
pub mod Rows
pub mod Scanner
use auroradb.Prelude.{
  ℕ, suc, ◌+◌, ◌%◌, ◌^◌, Bool, true, false, List, [], ◌∷◌, ◌++◌, ◌==◌, Option, none, some, Bytes,
  codes, equal, length, get_elem?, ltb, if◌then◌else◌,
}
use auroradb.Prelude.Panic.{◌>>=◌, slice_to, slice_from}
use auroradb.Prelude.Words.{word_mod}
use auroradb.Types.{
  type_bytes, type_int64, Value, Record, TableDef, empty_record, add_str, add_i64, get, tdef_table,
  tdef_meta, get_pks, get_record_vals,
}
use auroradb.Types.Key.{encode_key}
use auroradb.Types.Row.{Json, encode_val, decode_val}
use auroradb.Index.{secondary_indexes_keys}
use auroradb.Storage.Pages.{Kv}
use auroradb.Storage.Transaction.{Kvtx, tx_get, tx_set, tx_del}

-- The key of a row: that of its primary key's values.
unfoldable pub row_key : TableDef → List Value → Option Bytes
row_key tdef values = do
  prefix ← get_elem? tdef.prefixes 0
  pks ← slice_to tdef.pkeys values
  encode_key prefix pks

-- The loops over the keys of the secondary indexes.
unfoldable pub set_index_keys : ℕ → Kvtx → List Bytes → Option Kvtx
set_index_keys fuel tx [] = some tx
set_index_keys fuel tx (key ∷ keys) = do tx1 ← tx_set fuel tx key []; set_index_keys fuel tx1 keys

unfoldable pub del_index_keys : ℕ → Kvtx → List Bytes → Option (Kvtx × Bool)
del_index_keys fuel tx [] = some (tx, true)
del_index_keys fuel tx (key ∷ keys) = do
  (tx1, ok) ← tx_del fuel tx key
  elim ok [ true ↦ del_index_keys fuel tx1 keys | false ↦ some (tx1, false) ]

-- The loop of `Insert` that copies the values of the primary key with their columns, from place `i` on.
unfoldable pub copy_typed : List Bytes → ℕ → List Value → Record → Option Record
copy_typed cols i [] acc = some acc
copy_typed cols i (v ∷ vs) acc = do
  next ←
      (if v.type == type_bytes
        then (do c ← get_elem? cols i; some (add_str acc c v.str))
        else if v.type == type_int64
        then (do c ← get_elem? cols i; some (add_i64 acc c v.i64))
        else some acc)
  copy_typed cols (suc i) vs next

-- `uint32(curPrefix)` for each index, and `curPrefix` behind the loop.
unfoldable pub number_indexes : ℕ → List (List Bytes) → List ℕ × ℕ
number_indexes cur [] = ([], cur)
number_indexes cur (idx ∷ rest) =
    let (prefixes, end) = number_indexes ((cur + 1) % word_mod) rest in
    (cur % 2 ^ 32 ∷ prefixes, end)

-- The column of that name: a nil pointer is a panic.
abbrev pub column : Record → Bytes → Option Value
column rec col = do i ← get rec col; get_elem? rec.vals i

module _ (json : Json) (fuel : ℕ) (db : Kv) where
  -- What `dbGet` does with the value of the row, if there is one.
  unfoldable pub read_row : Kvtx → TableDef → Record → Option Bytes → Option (Kvtx × Record × Bool)
  read_row tx tdef rec none = some (tx, rec, false)
  read_row tx tdef rec (some val) = do
    decoded ← decode_val json tdef rec val
    elim decoded [ none ↦ some (tx, rec, false) | some r ↦ some (tx, r, true) ]

  -- `dbGet`: the row, with the columns that were read behind its own.
  unfoldable pub db_get : Kvtx → TableDef → Record → Option (Kvtx × Record × Bool)
  db_get tx tdef rec = elim (get_record_vals tdef rec tdef.pkeys) [
    | none ↦ some (tx, rec, false)
    | some values ↦ (do
      key ← row_key tdef values
      (tx1, val) ← tx_get fuel db tx key
      read_row tx1 tdef rec val)
  ]

  unfoldable pub db_set : Kvtx → TableDef → Record → Option (Kvtx × Bool)
  db_set tx tdef rec = elim (get_record_vals tdef rec tdef.pkeys) [
    | none ↦ some (tx, false)
    | some values ↦ (do
      key ← row_key tdef values
      rest ← slice_from tdef.pkeys values
      val ← encode_val json rest
      tx1 ← tx_set fuel tx key val
      (if ltb 1 (length tdef.indexes)
          then (do
            (rec1, keys) ← secondary_indexes_keys tdef rec
            tx2 ← set_index_keys fuel tx1 keys
            some (tx2, true))
          else some (tx1, true)))
  ]

  -- `dbDel` where the row is there.
  unfoldable pub del_row : Kvtx → TableDef → Record → Bytes → Option (Kvtx × Bool)
  del_row tx tdef rec key =
      if ltb 1 (length tdef.indexes)
      then (do
        (rec1, keys) ← secondary_indexes_keys tdef rec
        (tx1, ok) ← del_index_keys fuel tx keys
        (if ok then tx_del fuel tx1 key else some (tx1, false)))
      else tx_del fuel tx key

  unfoldable pub db_del : Kvtx → TableDef → Record → Option (Kvtx × Bool)
  db_del tx tdef rec = elim (get_record_vals tdef rec tdef.pkeys) [
    | none ↦ some (tx, false)
    | some values ↦ (do
      key ← row_key tdef values
      (tx1, rec1, ok) ← db_get tx tdef rec
      (if ok then del_row tx1 tdef rec1 key else some (tx1, false)))
  ]

  -- `GetTableDef`; the inner `none` is the error.
  unfoldable pub get_table_def : Kvtx → Bytes → Option (Kvtx × Option TableDef)
  get_table_def tx table =
      if equal table (codes "@table")
      then some (tx, some tdef_table)
      else if equal table (codes "@meta")
      then some (tx, some tdef_meta)
      else (do
        (tx1, rec, ok) ← db_get tx tdef_table (add_str empty_record (codes "name") table)
        (if ok
            then (do def ← column rec (codes "def"); some (tx1, json.unmarshal_def def.str))
            else some (tx1, none)))

  -- `DBTX.Get`
  unfoldable pub get_row : Kvtx → Bytes → Record → Option (Kvtx × Record × Bool)
  get_row tx table rec = do
    (tx1, def) ← get_table_def tx table
    elim def [ none ↦ some (tx1, rec, false) | some tdef ↦ db_get tx1 tdef rec ]

  -- `Insert` in a table with this definition. `rec.Vals[:tdef.Pkeys]` may reach into the spare capacity of the slice,
  -- which holds `spare`.
  unfoldable pub insert_in : Kvtx → TableDef → Record → List Value → Option (Kvtx × Bool)
  insert_in tx tdef rec spare = do
    vals ← slice_to tdef.pkeys (rec.vals ++ spare)
    pks ← copy_typed rec.cols 0 vals empty_record
    (tx1, found, ok) ← db_get tx tdef pks
    (if ok then some (tx1, false) else db_set tx1 tdef rec)

  unfoldable pub insert_row : Kvtx → Bytes → Record → List Value → Option (Kvtx × Bool)
  insert_row tx table rec spare = do
    (tx1, def) ← get_table_def tx table
    elim def [ none ↦ some (tx1, false) | some tdef ↦ insert_in tx1 tdef rec spare ]

  -- `Update`: the row that was read is deleted, and the new one is written.
  unfoldable pub update_in : Kvtx → TableDef → Record → Option (Kvtx × Bool)
  update_in tx tdef rec = do
    pks ← get_pks rec tdef.pkeys
    (tx1, found, ok) ← db_get tx tdef pks
    (if ok
        then (do
          (tx2, gone) ← db_del tx1 tdef found
          (if gone then db_set tx2 tdef rec else some (tx2, false)))
        else some (tx1, false))

  unfoldable pub update_row : Kvtx → Bytes → Record → Option (Kvtx × Bool)
  update_row tx table rec = do
    (tx1, def) ← get_table_def tx table
    elim def [ none ↦ some (tx1, false) | some tdef ↦ update_in tx1 tdef rec ]

  -- `Upsert` behind the definition of the table; `Update` and `Insert` read it again.
  unfoldable pub upsert_in : Kvtx → TableDef → Bytes → Record → List Value → Option (Kvtx × Bool)
  upsert_in tx tdef table rec spare = do
    pks ← get_pks rec tdef.pkeys
    (tx1, found, ok) ← db_get tx tdef pks
    (if ok then update_row tx1 table rec else insert_row tx1 table rec spare)

  unfoldable pub upsert_row : Kvtx → Bytes → Record → List Value → Option (Kvtx × Bool)
  upsert_row tx table rec spare = do
    (tx1, def) ← get_table_def tx table
    elim def [ none ↦ some (tx1, false) | some tdef ↦ upsert_in tx1 tdef table rec spare ]

  unfoldable pub delete_row : Kvtx → Bytes → Record → Option (Kvtx × Bool)
  delete_row tx table rec = do
    (tx1, def) ← get_table_def tx table
    elim def [ none ↦ some (tx1, false) | some tdef ↦ db_del tx1 tdef rec ]

  -- `TableNew` where the table is new: the next prefix is kept in @meta, and the definition in @table.
  unfoldable pub save_table : Kvtx → TableDef → Record → Option (Kvtx × TableDef × Bool)
  save_table tx tdef rec = do
    (tx1, prefix_rec, ok) ←
        db_get tx tdef_meta (add_str empty_record (codes "key") (codes "prefix"))
    cur ← (if ok then (do v ← column prefix_rec (codes "value"); some v.i64) else some 3)
    let numbers = number_indexes cur tdef.indexes
    let tdef1 = record tdef { prefixes = numbers.0 }
    (tx2, saved) ← db_set tx1 tdef_meta (add_i64 prefix_rec (codes "data") numbers.1)
    elim (json.marshal_def tdef1) [
      | none ↦ some (tx2, tdef1, false)
      | some def ↦ (do
        (tx3, written) ← db_set tx2 tdef_table (add_str rec (codes "def") def)
        some (tx3, tdef1, true))
    ]

  unfoldable pub table_new : Kvtx → TableDef → Option (Kvtx × TableDef × Bool)
  table_new tx tdef =
      let rec = add_str empty_record (codes "name") tdef.name in
      do
        pks ← get_pks rec tdef.pkeys
        (tx1, found, ok) ← db_get tx tdef_table pks
        (if ok then some (tx1, tdef, false) else save_table tx1 tdef rec)
