-- ===== src/Tables/Rows.antt =====
-- db/db.go: a row that dbSet writes is what dbGet reads.
use auroradb.Prelude.{
  ℕ, zero, suc, ◌+◌, ◌<◌, ◌≤◌, ◌≡◌, ◌≢◌, ◌⊎◌, refl, sym, ap, ap₂, ◌∙◌, inl, true, false, List, [],
  ◌∷◌, ◌++◌, append-nil, append_assoc, length-append, some, Bytes, equal, equal_refl, length,
  get_elem?, ltb, if◌then◌else◌, arith,
}
use auroradb.Prelude.Panic.{slice_to, slice_from, >>=-eq-some}
use auroradb.Prelude.Words.{word_mod, big_endian}
use auroradb.Types.{Value, Record, TableDef, get_record_vals}
use auroradb.Types.Key.{encode_key, encode_values}
use auroradb.Types.Codec.RoundTrip.{slice_to-append}
use auroradb.Types.Key.RoundTrip.{slice_from-append}
use auroradb.Types.Row.{Json, encode_val, decode_val, add_decoded}
use auroradb.Util.{has}
use auroradb.Storage.Pages.{Kv}
use auroradb.Storage.Transaction.{Kvtx, kv_store}
use auroradb.Storage.Transaction.Overlay.{HoldsRoot}
use auroradb.Storage.Transaction.Write.{tx_get-tx_set}
use auroradb.Storage.Tree.Lookup.{Entries}
use auroradb.Tables.{row_key, read_row, db_get, db_set}

-- A row's key is not empty: it begins with the prefix.
encode_key_full :
    (prefix : ℕ) (vs : List Value) {k : Bytes} → encode_key prefix vs ≡ some k → k ≢ []
unfolding encode_key big_endian
encode_key_full prefix vs e = let (body, h, f) = >>=-eq-some (encode_values vs) _ e in λ g. cc

row_key_full : (tdef : TableDef) (vs : List Value) {k : Bytes} → row_key tdef vs ≡ some k → k ≢ []
unfolding row_key
row_key_full tdef vs e =
    let (prefix, h, f) = >>=-eq-some (get_elem? tdef.prefixes 0) _ e in
    let (pks, g, r) = >>=-eq-some (slice_to tdef.pkeys vs) (encode_key prefix) f in
    encode_key_full prefix pks r

-- A row with the columns of the primary key.
vals_read :
    (tdef : TableDef) (rec : Record)
    → tdef.pkeys ≤ length rec.cols
    → get_record_vals tdef rec tdef.pkeys ≡ some rec.vals
unfolding get_record_vals
vals_read tdef rec h = ground arith

-- In a transaction that has written nothing, a row of a table without secondary indexes is written with success, if its
-- key and the JSON of its other values have together at most 4064 bytes, which a page has room for. Then a row with its
-- primary key is read from the value that was written, and a row with another primary key, which the transaction has
-- not deleted, from the value in the tree that the transaction began on.
pub db_get-db_set :
    (json : Json) (fuel : ℕ) (db : Kv) (tx : Kvtx) (base : Entries) (tdef : TableDef) (rec : Record)
    (key val : Bytes) (rest : List Value)
    → 0 < fuel
    → tx.pending_root ≡ 0
    → tx.pending.n_pages + 1 < word_mod
    → HoldsRoot kv_store db fuel tx.snapshot_root base
    → tdef.pkeys ≤ length rec.cols
    → length tdef.indexes ≤ 1
    → row_key tdef rec.vals ≡ some key
    → slice_from tdef.pkeys rec.vals ≡ some rest
    → json.marshal_vals rest ≡ some val
    → length key + length val ≤ 4064
    → (tx1 : Kvtx) × (db_set json fuel db tx tdef rec ≡ some (tx1, true))
      × ((q : Record) (k : Bytes)
          → tdef.pkeys ≤ length q.cols
          → row_key tdef q.vals ≡ some k
          → (key ≡ k) ⊎ (has tx.del_set k ≡ false)
          → (tx2 : Kvtx) × (db_get json fuel db tx1 tdef q
              ≡ read_row json fuel db tx2 tdef q (if equal key k then some val else base k)))
unfolding db_set db_get encode_val
db_get-db_set json fuel db tx base tdef rec key val rest pos z room hb cols plain wk ws wv fits =
    let (tx1, e, read) =
      tx_get-tx_set fuel db tx base key val pos z room (row_key_full tdef rec.vals wk) fits hb in
    let one : ltb 1 (length tdef.indexes) ≡ false = ground arith in
    (
      tx1,
      rw (db_set, vals_read tdef rec cols, wk, ws, wv, e, one) refl,
      λ q k q_cols qk kept.
          let (tx2, g) = read k (row_key_full tdef q.vals qk) kept in
          (tx2, rw (db_get, vals_read tdef q q_cols, qk, g) refl),
    )

get_elem?-append {ℓ} :
    {A : Type ℓ} (i : ℕ) (xs ys : List A) (y : A)
    → length xs ≡ i
    → get_elem? (xs ++ y ∷ ys) i ≡ some y
get_elem?-append zero [] ys y e = refl
get_elem?-append zero (x ∷ xs) ys y e = absurd (omega arith)
get_elem?-append (suc i) [] ys y e = absurd (omega arith)
get_elem?-append (suc i) (x ∷ xs) ys y e = get_elem?-append i xs ys y (omega arith)

-- The key of a row is that of its first values.
row_key-append :
    (tdef : TableDef) (xs ys : List Value)
    → length xs ≡ tdef.pkeys
    → row_key tdef (xs ++ ys) ≡ row_key tdef xs
unfolding row_key
row_key-append tdef xs ys e =
    let all = slice_to-append tdef.pkeys xs ys e in
    let keys =
      ap (slice_to tdef.pkeys) (sym (append-nil xs)) ∙ slice_to-append tdef.pkeys xs [] e in
    rw (all, keys) refl

-- The values that were read get the columns behind those before them.
add_decoded-append :
    (tdef : TableDef) (q : Record) (i : ℕ) (before cols : List Bytes) (vs : List Value)
    → tdef.cols ≡ before ++ cols
    → length before ≡ i + tdef.pkeys
    → length vs ≡ length cols
    → add_decoded tdef q i vs ≡ some (record { cols = q.cols ++ cols; vals = q.vals ++ vs })
unfolding add_decoded
add_decoded-append tdef q i before [] [] e l n = rw (append-nil q.cols, append-nil q.vals) refl
add_decoded-append tdef q i before (c ∷ cols) [] e l n = absurd (omega arith)
add_decoded-append tdef q i before [] (v ∷ vs) e l n = absurd (omega arith)
add_decoded-append tdef q i before (c ∷ cols) (v ∷ vs) e l n =
    let read : get_elem? tdef.cols (i + tdef.pkeys) ≡ some c =
      ap (λ s. get_elem? s (i + tdef.pkeys)) e
      ∙ get_elem?-append (i + tdef.pkeys) before cols c l in
    let len : length (before ++ c ∷ []) ≡ suc i + tdef.pkeys =
      omega (arith, length-append before (c ∷ [])) in
    let next =
      add_decoded-append tdef (record { cols = q.cols ++ c ∷ []; vals = q.vals ++ v ∷ [] }) (suc i)
        (before ++ c ∷ []) cols vs (e ∙ sym (append_assoc before (c ∷ []) cols)) len
        (omega arith) in
    rw read (
      next
      ∙ ap₂ (λ a b. some (record { cols = a; vals = b })) (append_assoc q.cols (c ∷ []) cols)
          (append_assoc q.vals (v ∷ []) vs))

-- In a transaction that has written nothing, a row of a table without secondary indexes is written that has a value for
-- each of the table's columns, the first of them the primary key, and whose key and JSON have together at most 4064
-- bytes. Reading with the columns and the values of the primary key gives the whole row back. The conversion to JSON is
-- to give its values back.
pub db_get-db_set_row :
    (json : Json) (fuel : ℕ) (db : Kv) (tx : Kvtx) (base : Entries) (tdef : TableDef)
    (key_cols cols : List Bytes) (keys rest : List Value) (key val : Bytes)
    → 0 < fuel
    → tx.pending_root ≡ 0
    → tx.pending.n_pages + 1 < word_mod
    → HoldsRoot kv_store db fuel tx.snapshot_root base
    → tdef.cols ≡ key_cols ++ cols
    → length key_cols ≡ tdef.pkeys
    → length keys ≡ tdef.pkeys
    → length rest ≡ length cols
    → length tdef.indexes ≤ 1
    → row_key tdef keys ≡ some key
    → json.marshal_vals rest ≡ some val
    → json.unmarshal_vals val ≡ some rest
    → length key + length val ≤ 4064
    → (tx1 tx2 : Kvtx) × (db_set json fuel db tx tdef
          (record { cols = key_cols ++ cols; vals = keys ++ rest })
        ≡ some (tx1, true))
      × (db_get json fuel db tx1 tdef (record { cols = key_cols; vals = keys })
          ≡ some (tx2, record { cols = key_cols ++ cols; vals = keys ++ rest }, true))
unfolding read_row decode_val
db_get-db_set_row json fuel db tx base tdef key_cols cols keys rest key val pos z room hb shape lc
      lk lr plain wk wv wu fits =
    let row : Record = record { cols = key_cols ++ cols; vals = keys ++ rest } in
    let query : Record = record { cols = key_cols; vals = keys } in
    let (tx1, e, read) =
      db_get-db_set json fuel db tx base tdef row key val rest pos z room hb
        (omega (arith, length-append key_cols cols)) plain (row_key-append tdef keys rest lk ∙ wk)
        (slice_from-append tdef.pkeys keys rest lk) wv fits in
    let (tx2, g) = read query key (omega arith) wk (inl refl) in
    let add = add_decoded-append tdef query 0 key_cols cols rest shape (omega arith) lr in
    (tx1, tx2, e, g ∙ rw (equal_refl key, decode_val, wu, add) refl)
