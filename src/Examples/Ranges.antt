-- ===== src/Examples/Ranges.antt =====
-- Nodes that are built from the entries of other nodes, as storage/btree.go builds them.
use auroradb.Prelude.{ℕ, ◌≡◌, refl, [], ◌∷◌, Option, some, Bytes}
use auroradb.Prelude.Panic.{◌>>=◌}
use auroradb.Prelude.Words.{little_endian, from_little_endian}
use auroradb.Storage.Node.{
  BNode, make, bnode_leaf, read16, read64, write16, write64, copy, btype, nkeys, getptr, offset_pos,
  get_offset, kv_pos, slice, get_key, get_val, nbytes, set_header, setptr, set_offset,
  node_append_kv, bytes_from, overlay,
}
use auroradb.Storage.Node.Ranges.{
  leaf_insert, leaf_update, leaf_delete, node_merge, node_append_range, append_entries, copy_ptrs,
  copy_offsets, copy_entries, kv_start,
}

-- A leaf with the entries 5 ↦ 50 and 7 ↦ 70.
abbrev leaf : Option BNode
leaf = do
  b1 ← set_header (make 128) bnode_leaf 2
  b2 ← node_append_kv b1 0 0 (5 ∷ []) (50 ∷ [])
  node_append_kv b2 1 0 (7 ∷ []) (70 ∷ [])

-- An entry between them, then another value for the last one, then the first one is removed.
abbrev edited : Option BNode
edited = do
  b ← leaf
  b1 ← leaf_insert (make 128) b 1 (6 ∷ []) (60 ∷ 61 ∷ [])
  b2 ← leaf_update (make 128) b1 2 (7 ∷ []) (71 ∷ [])
  leaf_delete (make 128) b2 0

-- The leaf and the edited one together.
abbrev merged : Option BNode
merged = do b ← leaf; c ← edited; node_merge (make 128) b c

abbrev entries : Option (ℕ × Bytes × Bytes × Bytes × Bytes)
entries = do
  b ← merged
  n ← nkeys b
  k ← get_key b 1
  v ← get_val b 1
  l ← get_key b 2
  w ← get_val b 2
  some (n, k, v, l, w)

merged_entries : entries ≡ some (4, 7 ∷ [], 70 ∷ [], 6 ∷ [], 60 ∷ 61 ∷ [])
unfolding leaf_insert leaf_update leaf_delete node_merge node_append_range append_entries copy_ptrs
    copy_offsets copy_entries kv_start read16 read64 write16 write64 copy btype nkeys getptr
    offset_pos get_offset kv_pos slice get_key get_val nbytes set_header setptr set_offset
    node_append_kv bytes_from overlay little_endian from_little_endian
merged_entries = refl
