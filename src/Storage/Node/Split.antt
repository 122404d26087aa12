-- ===== src/Storage/Node/Split.antt =====
-- storage/btree.go: nodeSplit2 and nodeSplit3. `none` is a panic, or the exit of log.Fatalf.
use auroradb.Prelude.{
  ℕ, zero, suc, ◌+◌, ◌-◌, ◌*◌, ◌/◌, ◌%◌, true, false, List, [], ◌∷◌, Option, none, some, ltb, leb,
  if◌then◌else◌,
}
use auroradb.Prelude.Panic.{◌>>=◌}
use auroradb.Storage.Node.{
  page_size, header, u16_mod, BNode, make, btype, nkeys, set_header, kv_pos, nbytes,
}
use auroradb.Storage.Node.Ranges.{node_append_range}

-- The size with the entry between two positions added to it.
abbrev pub add_entry : ℕ → ℕ → ℕ → ℕ
add_entry size left right = (size + (right + u16_mod - left) % u16_mod + 8 + 2) % u16_mod

-- The first loop, from the last entry down: the index it stops at.
unfoldable pub split_down : ℕ → BNode → ℕ → Option ℕ
split_down zero old size = some 0
split_down (suc idx) old size = elim (ltb size page_size) [
  | false ↦ some (suc idx)
  | true ↦ (do
    left ← kv_pos old idx
    right ← kv_pos old (suc idx)
    split_down idx old (add_entry size left right))
]

-- The second loop, from the first entry up, with the number of entries that are left.
unfoldable pub split_up : ℕ → BNode → ℕ → ℕ → ℕ → Option ℕ
split_up zero old half idx size = some idx
split_up (suc rest) old half idx size = elim (ltb size half) [
  | false ↦ some idx
  | true ↦ (do
    right ← kv_pos old (suc idx)
    left ← kv_pos old idx
    split_up rest old half (suc idx) (add_entry size left right))
]

-- The end of both branches.
unfoldable pub divide : BNode → BNode → BNode → ℕ → Option (BNode × BNode × ℕ)
divide left right old idx = do
  type ← btype old
  n ← nkeys old
  left1 ← set_header left type idx
  right1 ← set_header right type ((n + u16_mod - idx) % u16_mod)
  left2 ← node_append_range left1 old 0 0 idx
  right2 ← node_append_range right1 old 0 idx ((n + u16_mod - idx) % u16_mod)
  some (left2, right2, idx)

unfoldable pub node_split2 : BNode → BNode → BNode → Option (BNode × BNode × ℕ)
node_split2 left right old = do
  bytes ← nbytes old
  n ← nkeys old
  (if leb bytes page_size
      then some (left, right, 0)
      else if ltb (2 * page_size) bytes
      then (do idx ← split_down n old header; divide left right old ((idx + 1) % u16_mod))
      else (do idx ← split_up n old (bytes / 2) 0 header; divide left right old idx))

-- `b[:PAGE_SIZE]`
unfoldable pub truncate : BNode → Option BNode
truncate b = if leb page_size b.size then some (record b { size = page_size }) else none

-- The left node is still too large: it is split once more.
unfoldable pub split_left : BNode → BNode → Option (List BNode)
split_left left right = do
  (leftleft, middle, idx) ← node_split2 (make page_size) (make page_size) left
  bytes ← nbytes leftleft
  (if leb bytes page_size then some (leftleft ∷ middle ∷ right ∷ []) else none)

-- The nodes of the array that are in use; their number is the other result.
unfoldable pub node_split3 : BNode → Option (List BNode)
node_split3 old = do
  bytes ← nbytes old
  (if leb bytes page_size then (do b ← truncate old; some (b ∷ [])) else (do
    (left, right, idx) ← node_split2 (make (2 * page_size)) (make page_size) old
    left_bytes ← nbytes left
    (if leb left_bytes page_size
        then (do b ← truncate left; some (b ∷ right ∷ []))
        else split_left left right)))
