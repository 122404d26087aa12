-- ===== src/Types/Row.antt =====
-- types/schema.go: the values of a row, as encoding/json keeps them.
use auroradb.Prelude.{ℕ, suc, ◌+◌, List, [], ◌∷◌, ◌++◌, Option, none, some, Bytes, get_elem?}
use auroradb.Prelude.Panic.{◌>>=◌}
use auroradb.Types.{Value, Record, TableDef}

-- json.Marshal and json.Unmarshal at the types that the program uses; `none` is the error.
pub record Json : Type 0 where
  pub marshal_vals : List Value → Option Bytes
  pub unmarshal_vals : Bytes → Option (List Value)
  pub marshal_def : TableDef → Option Bytes
  pub unmarshal_def : Bytes → Option TableDef

-- The loop of `DecodeVal` from place `i`.
unfoldable pub add_decoded : TableDef → Record → ℕ → List Value → Option Record
add_decoded tdef rec i [] = some rec
add_decoded tdef rec i (v ∷ vs) = do
  col ← get_elem? tdef.cols (i + tdef.pkeys)
  add_decoded tdef (record { cols = rec.cols ++ col ∷ []; vals = rec.vals ++ v ∷ [] }) (suc i) vs

module _ (json : Json) where
  -- `none` is the panic.
  unfoldable pub encode_val : List Value → Option Bytes
  encode_val vals = json.marshal_vals vals

  -- The inner `none` is the error.
  unfoldable pub decode_val : TableDef → Record → Bytes → Option (Option Record)
  decode_val tdef rec val = elim (json.unmarshal_vals val) [
    | none ↦ some none
    | some vals ↦ (do r ← add_decoded tdef rec 0 vals; some (some r))
  ]
