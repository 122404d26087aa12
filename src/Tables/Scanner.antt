-- ===== src/Tables/Scanner.antt =====
-- db/db.go: the scanner of a table. `none` is a panic, or a lack of fuel for a descent. The loop of NewScanner need not
-- end: `runs_on` is that its rounds are used up. A key is nil exactly in an empty tree.
pub mod Stuck
use auroradb.Prelude.{
  ℕ, zero, suc, ◌+◌, Bool, true, false, not, ◌&&◌, ◌||◌, List, [], ◌∷◌, ◌++◌, Option, none, some,
  Bytes, Ordering, get_elem?, ◌==◌, if◌then◌else◌,
}
use auroradb.Prelude.Panic.{◌>>=◌}
use auroradb.Prelude.Outcome.{Outcome, returns, panics, runs_on}
use auroradb.Prelude.Compare.{compare_bytes}
use auroradb.Types.{
  Value, Record, TableDef, empty_record, add_str, add_i64, type_bytes, type_int64, get_pks,
}
use auroradb.Types.Key.{encode_key, decode_key}
use auroradb.Types.Row.{Json, decode_val}
use auroradb.Index.{pk_from_sec_key}
use auroradb.Storage.Pages.{Kv}
use auroradb.Storage.Tree.Iterator.{BIter, next, prev, deref, is_valid}
use auroradb.Storage.Transaction.{Kvtx, kv_store, tx_seek}
use auroradb.Tables.{db_get, column}

pub record Scanner : Type 0 where
  pub iter : BIter
  pub rec1 : Record
  pub rec2 : Record
  pub tdef : TableDef
  pub include1 : Bool
  pub include2 : Bool
  pub index : ℕ
  pub key1 : Bytes
  pub key2 : Bytes

-- `cmp < 0` and `cmp <= 0`
unfoldable pub before : Bytes → Bytes → Bool
before s t = elim (compare_bytes s t) [
  | Ordering.lt ↦ true
  | Ordering.eq ↦ false
  | Ordering.gt ↦ false
]

unfoldable pub not_behind : Bytes → Bytes → Bool
not_behind s t = elim (compare_bytes s t) [
  | Ordering.lt ↦ true
  | Ordering.eq ↦ true
  | Ordering.gt ↦ false
]

-- The two comparisons of `Valid`.
unfoldable pub in_range : Scanner → Bytes → Bool
in_range sc key =
    elim (compare_bytes key sc.key1) [
      | Ordering.lt ↦ false
      | Ordering.eq ↦ sc.include1
      | Ordering.gt ↦ true
    ]
    && elim (compare_bytes key sc.key2) [
      | Ordering.lt ↦ true
      | Ordering.eq ↦ sc.include2
      | Ordering.gt ↦ false
    ]

-- The values of an index's columns; a column that is not there is a nil pointer.
unfoldable pub column_vals : Record → List Bytes → Option (List Value)
column_vals rec [] = some []
column_vals rec (col ∷ cols) = do v ← column rec col; vs ← column_vals rec cols; some (v ∷ vs)

-- The key of a bound, by the primary key or by an index.
unfoldable pub bound_key : TableDef → ℕ → Record → Option Bytes
bound_key tdef idx rec = do
  vals ←
      (if idx == 0
        then (do pks ← get_pks rec tdef.pkeys; some pks.vals)
        else (do cols ← get_elem? tdef.indexes idx; column_vals rec cols))
  prefix ← get_elem? tdef.prefixes idx
  encode_key prefix vals

-- The byte behind a bound of an index.
abbrev pub lower_end : ℕ → Bool → Bytes
lower_end idx include = if idx == 0 then [] else if include then 0x00 ∷ [] else 0xff ∷ []

abbrev pub upper_end : ℕ → Bool → Bytes
upper_end idx include = if idx == 0 then [] else if include then 0xff ∷ [] else 0x00 ∷ []

-- The loop of `kvToRecord` over the columns of the primary key.
unfoldable pub add_keys : TableDef → Record → ℕ → List Value → Option Record
add_keys tdef rec i [] = some rec
add_keys tdef rec i (v ∷ vs) = do
  col ← get_elem? tdef.cols i
  (if v.type == type_bytes
      then add_keys tdef (add_str rec col v.str) (suc i) vs
      else if v.type == type_int64
      then add_keys tdef (add_i64 rec col v.i64) (suc i) vs
      else none)

module _ (fuel : ℕ) (db : Kv) (tx : Kvtx) where
  unfoldable pub scanner_next : Scanner → Option Scanner
  scanner_next sc = do it ← next kv_store db sc.iter; some (record sc { iter = it })

  unfoldable pub scanner_prev : Scanner → Option Scanner
  scanner_prev sc = do it ← prev kv_store db sc.iter; some (record sc { iter = it })

  unfoldable pub scanner_valid : Scanner → Option Bool
  scanner_valid sc = do
    valid ← is_valid tx.snapshot_root sc.iter
    (if valid
        then (do (key, val) ← deref tx.snapshot_root sc.iter; some (in_range sc key))
        else some false)

  -- The first key that is not before the bound of an index.
  unfoldable pub skip_before : Scanner → Option Scanner
  skip_before sc = do
    (key, val) ← deref tx.snapshot_root sc.iter
    (if before key sc.key1 && not (sc.index == 0) then scanner_next sc else some sc)

  -- A round of the loop of `NewScanner` past a bound that is left out: whether it goes on, and the scanner.
  unfoldable pub bound_round : Scanner → Option (Bool × Scanner)
  bound_round sc = do
    (key, val) ← deref tx.snapshot_root sc.iter
    (if not_behind key sc.key1 && not sc.include1
        then (do sc1 ← scanner_next sc; some (true, sc1))
        else some (false, sc))

  -- That loop, on a number of rounds. It panics where a round does.
  unfoldable pub pass_bound : ℕ → Scanner → Outcome Scanner
  pass_bound zero sc = runs_on
  pass_bound (suc rounds) sc = elim (bound_round sc) [
    | none ↦ panics
    | some (go_on, sc1) ↦ elim go_on [ true ↦ pass_bound rounds sc1 | false ↦ returns sc1 ]
  ]

  unfoldable pub place_scanner : ℕ → Scanner → Outcome Scanner
  place_scanner rounds sc = elim (skip_before sc) [
    | none ↦ panics
    | some sc1 ↦ if tx.snapshot_root == 0 then returns sc1 else pass_bound rounds sc1
  ]

  -- `NewScanner` with the bounds in order.
  unfoldable pub open_scanner :
      ℕ → TableDef → ℕ → Bytes → Bytes → Record → Record → Bool → Bool → Outcome Scanner
  open_scanner rounds tdef idx bytes1 bytes2 rec1 rec2 inc1 inc2 =
      let key1 = bytes1 ++ lower_end idx inc1 in
      let key2 = bytes2 ++ upper_end idx inc2 in
      elim (tx_seek fuel db tx key1) [
        | none ↦ panics
        | some it ↦ place_scanner rounds (record {
          iter = it;
          rec1 = rec1;
          rec2 = rec2;
          tdef = tdef;
          include1 = inc1;
          include2 = inc2;
          index = idx;
          key1 = key1;
          key2 = key2;
        })
      ]

  -- The keys of both bounds.
  unfoldable pub bound_keys : TableDef → ℕ → Record → Record → Option (Bytes × Bytes)
  bound_keys tdef idx rec1 rec2 = do
    bytes1 ← bound_key tdef idx rec1
    bytes2 ← bound_key tdef idx rec2
    some (bytes1, bytes2)

  unfoldable pub new_scanner : ℕ → TableDef → Record → Record → Bool → Bool → ℕ → Outcome Scanner
  new_scanner rounds tdef rec1 rec2 inc1 inc2 idx = elim (bound_keys tdef idx rec1 rec2) [
    | none ↦ panics
    | some (bytes1, bytes2) ↦ elim (compare_bytes bytes1 bytes2) [
      | Ordering.gt ↦ open_scanner rounds tdef idx bytes2 bytes1 rec2 rec1 inc2 inc1
      | Ordering.eq ↦ open_scanner rounds tdef idx bytes1 bytes2 rec1 rec2 inc1 inc2
      | Ordering.lt ↦ open_scanner rounds tdef idx bytes1 bytes2 rec1 rec2 inc1 inc2
    ]
  ]

  -- `kvToRecord`, by an index and by the primary key; the inner `none` is the error.
  unfoldable pub sec_key_row : Json → TableDef → Bytes → ℕ → Option (Kvtx × Option Record)
  sec_key_row json tdef key idx = do
    pks ← pk_from_sec_key tdef key idx
    (tx1, rec, ok) ← db_get json fuel db tx tdef pks
    some (tx1, if ok then some rec else none)

  unfoldable pub pk_row : Json → TableDef → Bytes → Bytes → Option (Kvtx × Option Record)
  pk_row json tdef key val = do
    keys ← decode_key key tdef
    rec ← add_keys tdef empty_record 0 keys
    row ← decode_val json tdef rec val
    some (tx, row)

  unfoldable pub kv_to_record : Json → TableDef → Bytes → Bytes → ℕ → Option (Kvtx × Option Record)
  kv_to_record json tdef key val idx =
      if idx == 0 then pk_row json tdef key val else sec_key_row json tdef key idx

  -- `Scanner.Deref`
  unfoldable pub scanner_deref : Json → Scanner → Option (Kvtx × Option Record)
  scanner_deref json sc = do
    valid ← scanner_valid sc
    (if valid
        then (do
          (key, val) ← deref tx.snapshot_root sc.iter
          kv_to_record json sc.tdef key val sc.index)
        else some (tx, none))
