-- ===== src/Storage/Node/Ranges.antt =====
-- storage/btree.go: the operations that build a node from the entries of others. The node that is built and
-- the one it is built from are different slices at every call, and a slice's capacity is taken for its length.
-- `none` is a panic, or the exit of log.Fatalf.
use auroradb.Prelude.{
  ℕ, zero, suc, ◌+◌, ◌-◌, ◌*◌, ◌%◌, ◌||◌, List, [], ◌∷◌, Option, none, some, Bytes, length, ltb,
  ◌==◌, if◌then◌else◌,
}
use auroradb.Prelude.Panic.{◌>>=◌}
use auroradb.Storage.Node.{
  header, bnode_leaf, bnode_node, u16_mod, BNode, copy, slice, btype, nkeys, getptr, setptr,
  get_offset, set_offset, set_header, get_key, node_append_kv,
}

unfoldable pub kv_start : BNode → Option ℕ
kv_start b = do n ← nkeys b; some ((header + 8 * n + 2 * n) % u16_mod)

-- `count` pointers, those at `dst` and `src` first.
unfoldable pub copy_ptrs : ℕ → BNode → BNode → ℕ → ℕ → Option BNode
copy_ptrs zero b old dst src = some b
copy_ptrs (suc count) b old dst src = do
  ptr ← getptr old src
  b1 ← setptr b dst ptr
  copy_ptrs count b1 old ((dst + 1) % u16_mod) ((src + 1) % u16_mod)

-- `count` offsets, those behind `dst` and `src` first, moved by `shift`.
unfoldable pub copy_offsets : ℕ → BNode → BNode → ℕ → ℕ → ℕ → Option BNode
copy_offsets zero b old dst src shift = some b
copy_offsets (suc count) b old dst src shift = do
  off ← get_offset old ((src + 1) % u16_mod)
  b1 ← set_offset b ((dst + 1) % u16_mod) ((off + shift) % u16_mod)
  copy_offsets count b1 old ((dst + 1) % u16_mod) ((src + 1) % u16_mod) shift

-- `copy(new[newBegin:], old[begin:end])`
unfoldable pub copy_entries : BNode → BNode → ℕ → ℕ → ℕ → Option BNode
copy_entries b old to begin end =
    if ltb end begin then none else (do s ← slice old begin (end - begin); copy b to s)

-- What `nodeAppendRange` does behind its tests. `i <= n` holds for every uint16 `i` if `n` is 65535:
-- `none` is that loop without end, too.
unfoldable pub append_entries : BNode → BNode → ℕ → ℕ → ℕ → Option BNode
append_entries b old dst src n = if n == 65535 then none else (do
  b1 ← copy_ptrs n b old dst src
  dst_begin ← get_offset b1 dst
  src_begin ← get_offset old src
  b2 ← copy_offsets n b1 old dst src ((dst_begin + u16_mod - src_begin) % u16_mod)
  old_start ← kv_start old
  first ← get_offset old src
  last ← get_offset old ((src + n) % u16_mod)
  new_start ← kv_start b2
  to ← get_offset b2 dst
  copy_entries b2 old ((to + new_start) % u16_mod) ((first + old_start) % u16_mod)
      ((last + old_start) % u16_mod))

unfoldable pub node_append_range : BNode → BNode → ℕ → ℕ → ℕ → Option BNode
node_append_range b old dst src n = do
  new_keys ← nkeys b
  old_keys ← nkeys old
  (if ltb new_keys ((dst + n) % u16_mod) || ltb old_keys ((src + n) % u16_mod)
      then none
      else if n == 0
      then some b
      else append_entries b old dst src n)

unfoldable pub leaf_insert : BNode → BNode → ℕ → Bytes → Bytes → Option BNode
leaf_insert b old idx key val = do
  n ← nkeys old
  b1 ← set_header b bnode_leaf ((n + 1) % u16_mod)
  b2 ← node_append_range b1 old 0 0 idx
  b3 ← node_append_kv b2 idx 0 key val
  node_append_range b3 old ((idx + 1) % u16_mod) idx ((n + u16_mod - idx) % u16_mod)

-- `old.nkeys()-(idx+1)`
abbrev pub keys_behind : ℕ → ℕ → ℕ
keys_behind n idx = (n + u16_mod - (idx + 1) % u16_mod) % u16_mod

unfoldable pub leaf_update : BNode → BNode → ℕ → Bytes → Bytes → Option BNode
leaf_update b old idx key val = do
  type ← btype old
  n ← nkeys old
  b1 ← set_header b type n
  b2 ← node_append_range b1 old 0 0 idx
  b3 ← node_append_kv b2 idx 0 key val
  node_append_range b3 old ((idx + 1) % u16_mod) ((idx + 1) % u16_mod) (keys_behind n idx)

unfoldable pub leaf_delete : BNode → BNode → ℕ → Option BNode
leaf_delete b old idx = do
  n ← nkeys old
  b1 ← set_header b bnode_leaf ((n + u16_mod - 1) % u16_mod)
  b2 ← node_append_range b1 old 0 0 idx
  node_append_range b2 old idx ((idx + 1) % u16_mod) (keys_behind n idx)

-- `tree.new` may be the store's or a transaction's: it acts on a state of its own.
module _ {S : Type 0} (new : S → BNode → Option (S × ℕ)) where
  unfoldable pub append_kids : S → BNode → ℕ → List BNode → Option (S × BNode)
  append_kids st b idx [] = some (st, b)
  append_kids st b idx (kid ∷ kids) = do
    (st1, ptr) ← new st kid
    key ← get_key kid 0
    b1 ← node_append_kv b idx ptr key []
    append_kids st1 b1 ((idx + 1) % u16_mod) kids

  unfoldable pub node_replace_kid_n : S → BNode → BNode → ℕ → List BNode → Option (S × BNode)
  node_replace_kid_n st b old idx kids = do
    n ← nkeys old
    b1 ← set_header b bnode_node ((n + length kids % u16_mod + u16_mod - 1) % u16_mod)
    b2 ← node_append_range b1 old 0 0 idx
    (st1, b3) ← append_kids st b2 idx kids
    b4 ←
        node_append_range b3 old ((idx + length kids) % u16_mod) ((idx + 1) % u16_mod)
          (keys_behind n idx)
    some (st1, b4)

unfoldable pub node_replace_2kid : BNode → BNode → ℕ → ℕ → Bytes → Option BNode
node_replace_2kid b old idx merged_ptr key = do
  type ← btype old
  n ← nkeys old
  b1 ← set_header b type ((n + u16_mod - 1) % u16_mod)
  b2 ← node_append_range b1 old 0 0 idx
  b3 ← node_append_kv b2 idx merged_ptr key []
  node_append_range b3 old ((idx + 1) % u16_mod) ((idx + 2) % u16_mod)
      ((n + u16_mod - (idx + 2) % u16_mod) % u16_mod)

unfoldable pub node_merge : BNode → BNode → BNode → Option BNode
node_merge b left right = do
  type ← btype left
  n ← nkeys left
  k ← nkeys right
  b1 ← set_header b type ((n + k) % u16_mod)
  b2 ← node_append_range b1 left 0 0 n
  node_append_range b2 right n 0 k
