-- ===== src/Storage/Tree.antt =====
-- storage/btree.go: lookup, insertion and deletion in a B-tree. `none` is a panic, or the exit of log.Fatalf. A
-- descent runs on fuel, one for each level, and `none` is a lack of it, too. A slice's capacity is taken for its
-- length.
pub mod Lookup
pub mod Iterator
pub mod First
pub mod Leaf
pub mod Refine
use auroradb.Prelude.{
  ℕ, zero, suc, ◌+◌, ◌-◌, ◌*◌, ◌/◌, ◌%◌, Bool, true, false, ◌&&◌, List, [], ◌∷◌, Option, none, some,
  Bytes, Ordering, length, ltb, leb, ◌==◌, equal, if◌then◌else◌,
}
use auroradb.Prelude.Panic.{◌>>=◌, ◌>>◌}
use auroradb.Prelude.Compare.{compare_bytes}
use auroradb.Storage.Node.{
  page_size, header, bnode_leaf, bnode_node, u16_mod, BNode, make, btype, nkeys, getptr, set_header,
  get_key, get_val, nbytes, node_append_kv, node_lookup_le,
}
use auroradb.Storage.Node.Ranges.{
  leaf_insert, leaf_update, leaf_delete, node_append_range, node_replace_kid_n, node_replace_2kid,
  node_merge,
}
use auroradb.Storage.Node.Split.{node_split3}

-- The functions of a `BTree`, on the state that they share; the root is kept apart.
pub record Store (S : Type 0) : Type 0 where
  pub get : S → ℕ → Option BNode
  pub new : S → BNode → Option (S × ℕ)
  pub del : S → ℕ → Option S

-- The sibling that a node is merged with.
pub data Merge : Type 0 where
  apart : Merge
  with_left : BNode → Merge
  with_right : BNode → Merge

abbrev pub is_before : Bytes → Bytes → Bool
is_before s t = elim (compare_bytes s t) [ Ordering.lt ↦ true | _ ↦ false ]

-- `leftSib.nbytes() + updated.nbytes() - HEADER <= PAGE_SIZE`
unfoldable pub fits_merged : BNode → BNode → Option Bool
fits_merged sibling updated = do
  a ← nbytes sibling
  b ← nbytes updated
  some (leb ((a + b + u16_mod - header) % u16_mod) page_size)

-- The leaf with the key: its value is changed, or it is put in its place.
unfoldable pub insert_leaf : BNode → ℕ → Bytes → Bytes → Option BNode
insert_leaf node idx key val = do
  k ← get_key node idx
  (if equal key k then leaf_update (make (2 * page_size)) node idx key val else (do
    first ← get_key node 0
    (if is_before key first && idx == 0
        then (do
          n ← nkeys node
          b1 ← set_header (make (2 * page_size)) bnode_leaf ((n + 1) % u16_mod)
          b2 ← node_append_kv b1 0 0 key val
          node_append_range b2 node 1 0 n)
        else leaf_insert (make (2 * page_size)) node ((idx + 1) % u16_mod) key val)))

-- `none` for a key that is not there; `BNode{}` of the code.
unfoldable pub delete_leaf : BNode → ℕ → Bytes → Option (Option BNode)
delete_leaf node idx key = do
  k ← get_key node idx
  (if equal key k then (do b ← leaf_delete (make page_size) node idx; some (some b)) else some none)

-- The first leaf of an empty tree, with an empty key before the first one.
unfoldable pub first_leaf : Bytes → Bytes → Option BNode
first_leaf key val = do
  b1 ← set_header (make page_size) bnode_leaf 2
  b2 ← node_append_kv b1 0 0 [] []
  node_append_kv b2 1 0 key val

-- A child of the new root: the first one leaves out its first entry if the root was a leaf.
unfoldable pub root_child : Bool → BNode → Option BNode
root_child drop_first child =
    if drop_first
    then (do
      type ← btype child
      n ← nkeys child
      b ← set_header (make page_size) type ((n + u16_mod - 1) % u16_mod)
      node_append_range b child 0 1 ((n + u16_mod - 1) % u16_mod))
    else some child

module _ {S : Type 0} (tree : Store S) where
  -- A sibling that fits.
  unfoldable pub try_sibling : S → BNode → ℕ → BNode → (BNode → Merge) → Option Merge
  try_sibling st node place updated c = do
    ptr ← getptr node place
    sibling ← tree.get st ptr
    fits ← fits_merged sibling updated
    some (if fits then c sibling else apart)

  unfoldable pub try_right : S → BNode → ℕ → BNode → Option Merge
  try_right st node idx updated = do
    n ← nkeys node
    (if ltb ((idx + 1) % u16_mod) n
        then try_sibling st node ((idx + 1) % u16_mod) updated with_right
        else some apart)

  unfoldable pub try_siblings : S → BNode → ℕ → BNode → Option Merge
  try_siblings st node idx updated = do
    m ← (if idx == 0 then some apart else try_sibling st node (idx - 1) updated with_left)
    elim m [
      | apart ↦ try_right st node idx updated
      | with_left b ↦ some (with_left b)
      | with_right b ↦ some (with_right b)
    ]

  unfoldable pub should_merge : S → BNode → ℕ → BNode → Option Merge
  should_merge st node idx updated = do
    bytes ← nbytes updated
    (if ltb (page_size / 4) bytes then some apart else try_siblings st node idx updated)

  -- `nodeInsert` behind the insertion into the child.
  unfoldable pub replace_split : S → BNode → ℕ → ℕ → BNode → Option (S × BNode)
  replace_split st node idx kptr knode = do
    split ← node_split3 knode
    st1 ← tree.del st kptr
    node_replace_kid_n tree.new st1 (make (2 * page_size)) node idx split

  unfoldable pub tree_insert : ℕ → S → BNode → Bytes → Bytes → Option (S × BNode)
  tree_insert zero st node key val = none
  tree_insert (suc fuel) st node key val = do
    idx ← node_lookup_le node key
    type ← btype node
    (let inner = (do
      kptr ← getptr node idx
      kid ← tree.get st kptr
      (st1, knode) ← tree_insert fuel st kid key val
      replace_split st1 node idx kptr knode) in
        if type == bnode_leaf
        then (do b ← insert_leaf node idx key val; some (st, b))
        else if type == bnode_node
        then inner
        else none)

  -- `nodeDelete` where the child and a sibling are merged: into the place `at`, without the sibling `gone`.
  unfoldable pub replace_merged : S → BNode → ℕ → ℕ → BNode → BNode → Option (S × BNode)
  replace_merged st node at gone left right = do
    merged ← node_merge (make page_size) left right
    gone_ptr ← getptr node gone
    st1 ← tree.del st gone_ptr
    (st2, ptr) ← tree.new st1 merged
    key ← get_key merged 0
    b ← node_replace_2kid (make page_size) node at ptr key
    some (st2, b)

  -- `nodeDelete` where the child stays apart.
  unfoldable pub replace_apart : S → BNode → ℕ → BNode → Option (S × BNode)
  replace_apart st node idx updated = do
    k ← nkeys updated
    n ← nkeys node
    (if k == 0
        then if n == 1 && idx == 0
          then (do b ← set_header (make page_size) bnode_node 0; some (st, b))
          else some (st, make page_size)
        else node_replace_kid_n tree.new st (make page_size) node idx (updated ∷ []))

  unfoldable pub replace_updated : S → BNode → ℕ → BNode → Option (S × BNode)
  replace_updated st node idx updated = do
    m ← should_merge st node idx updated
    elim m [
      | with_left sibling ↦ replace_merged st node (idx - 1) (idx - 1) sibling updated
      | with_right sibling ↦ replace_merged st node idx ((idx + 1) % u16_mod) updated sibling
      | apart ↦ replace_apart st node idx updated
    ]

  -- The inner `none` is the empty node for a key that is not there.
  unfoldable pub tree_delete : ℕ → S → BNode → Bytes → Option (S × Option BNode)
  tree_delete zero st node key = none
  tree_delete (suc fuel) st node key = do
    idx ← node_lookup_le node key
    type ← btype node
    (let inner = (do
      kptr ← getptr node idx
      kid ← tree.get st kptr
      (st1, updated) ← tree_delete fuel st kid key
      elim updated [
        | none ↦ some (st1, none)
        | some u ↦ (do (st2, b) ← replace_updated st1 node idx u; some (st2, some b))
      ]) in
        if type == bnode_leaf
        then (do r ← delete_leaf node idx key; some (st, r))
        else if type == bnode_node
        then inner
        else none)

  -- The inner `none` is the error.
  unfoldable pub get_val_at : ℕ → S → BNode → Bytes → Option (Option Bytes)
  get_val_at zero st node key = none
  get_val_at (suc fuel) st node key = do
    type ← btype node
    (let inner = (do
      idx ← node_lookup_le node key
      cptr ← getptr node idx
      kid ← tree.get st cptr
      get_val_at fuel st kid key) in
        if type == bnode_leaf
        then (do
          idx ← node_lookup_le node key
          k ← get_key node idx
          (if equal k key then (do v ← get_val node idx; some (some v)) else some none))
        else if type == bnode_node
        then inner
        else some none)

  -- `GetVal`
  unfoldable pub tree_get_val : ℕ → S → ℕ → Bytes → Option (Option Bytes)
  tree_get_val fuel st root key =
      if root == 0 then some none else (do b ← tree.get st root; get_val_at fuel st b key)

  -- The loop over the children of the new root.
  unfoldable pub root_children : S → BNode → ℕ → Bool → List BNode → Option (S × BNode)
  root_children st b i was_leaf [] = some (st, b)
  root_children st b i was_leaf (child ∷ children) = do
    kid ← root_child (was_leaf && i == 0) child
    (st1, ptr) ← tree.new st kid
    key ← get_key kid 0
    b1 ← node_append_kv b i ptr key []
    root_children st1 b1 (i + 1) was_leaf children

  -- The end of `Insert`: the new root.
  unfoldable pub set_root : S → Bool → List BNode → Option (S × ℕ)
  set_root st was_leaf [] = none
  set_root st was_leaf (b ∷ []) = tree.new st b
  set_root st was_leaf (b ∷ c ∷ more) = do
    b1 ← set_header (make page_size) bnode_node (length (b ∷ c ∷ more))
    (st1, b2) ← root_children st b1 0 was_leaf (b ∷ c ∷ more)
    tree.new st1 b2

  unfoldable pub insert_root : S → ℕ → BNode → Option (S × ℕ)
  insert_root st root node = do
    split ← node_split3 node
    old ← tree.get st root
    type ← btype old
    st1 ← (if type == bnode_leaf then some st else tree.del st root)
    set_root st1 (type == bnode_leaf) split

  -- `Insert`: the new root.
  unfoldable pub insert : ℕ → S → ℕ → Bytes → Bytes → Option (S × ℕ)
  insert fuel st root key val =
      if root == 0 then (do b ← first_leaf key val; tree.new st b) else (do
        old ← tree.get st root
        (st1, node) ← tree_insert fuel st old key val
        insert_root st1 root node)

  -- The root is left out if it has one child.
  unfoldable pub delete_root : S → BNode → Option (S × ℕ)
  delete_root st updated = do
    type ← btype updated
    n ← nkeys updated
    (if type == bnode_node && n == 1
        then (do ptr ← getptr updated 0; some (st, ptr))
        else tree.new st updated)

  -- `Delete`: the new root, and whether the key was there.
  unfoldable pub delete : ℕ → S → ℕ → Bytes → Option (S × ℕ × Bool)
  delete fuel st root key = if root == 0 then none else (do
    old ← tree.get st root
    (st1, updated) ← tree_delete fuel st old key
    elim updated [
      | none ↦ some (st1, root, false)
      | some b ↦ (do st2 ← tree.del st1 root; (st3, ptr) ← delete_root st2 b; some (st3, ptr, true))
    ])
