-- ===== src/Storage/Tree/Leaf/Delete.antt =====
-- storage/btree.go: what treeDelete does to a leaf in order.
use mathlib.Core.Path.{subst}
use auroradb.Prelude.{
  ℕ, ◌+◌, ◌*◌, ◌<◌, ◌≤◌, ◌≡◌, ◌≢◌, ◌⊎◌, refl, sym, ap, ◌∙◌, inl, inr, true, false, Bool-cases, List,
  [], ◌∷◌, ◌++◌, none, some, Bytes, Ordering, All, length, length-append, equal, equal_refl,
  equal→eq, arith,
}
use auroradb.Prelude.Compare.{Ordering-cases, compare_bytes, compare_bytes_swap}
use auroradb.Storage.Node.{BNode, make, page_size, bnode_leaf, get_key, node_lookup_le}
use auroradb.Storage.Node.Entries.{Entry, total, total-append}
use auroradb.Storage.Node.Entries.Read.{Built-Reads}
use auroradb.Storage.Node.Entries.Leaf.{IsNode}
use auroradb.Storage.Node.Entries.Place.{node_lookup_le-Place}
use auroradb.Storage.Node.Entries.Update.{leaf_delete-IsNode}
use auroradb.Storage.Node.Entries.Ordered.{
  Behind, Before, Ascending, delete_entry, Ascending-Before, All-Before_trans, find, find-append,
  find_first,
}
use auroradb.Storage.Node.Entries.Deletion.{delete_entry-append, delete_at, find-Behind}
use auroradb.Storage.Tree.{delete_leaf}
use auroradb.Storage.Tree.Leaf.{unequal}

deleted_at :
    (key : Bytes) (xs zs : List Entry) (e : Entry)
    → Ascending (xs ++ e ∷ zs)
    → key ≡ e.key
    → delete_entry key (xs ++ e ∷ zs) ≡ xs ++ zs
deleted_at key xs zs e asc same =
    delete_entry-append key xs (e ∷ zs)
      (subst (λ k. All (Before k) xs) (sym same) (Ascending-Before xs zs e asc))
    ∙ ap (λ s. xs ++ s) (delete_at key e zs (ap (equal key) (sym same) ∙ equal_refl key))

none-Before : (key : Bytes) (xs : List Entry) → length xs ≡ 0 → All (Before key) xs
none-Before key [] h = tt
none-Before key (x ∷ xs) h = absurd (omega arith)

-- What `delete_leaf` does with a key that is there, and with one that is not.
abbrev pub Deleted : BNode → ℕ → Bytes → List Entry → Type 0
Deleted node idx key es =
    ((find key es ≡ none) × (delete_leaf node idx key ≡ some none))
    ⊎ ((b' : BNode) × (v : Bytes) × (find key es ≡ some v)
        × (delete_leaf node idx key ≡ some (some b'))
        × (b'.size ≡ page_size)
        × IsNode b' bnode_leaf (delete_entry key es))

module _ (node : BNode) (key : Bytes) (xs zs : List Entry) (e : Entry)
    (o : IsNode node bnode_leaf (xs ++ e ∷ zs)) (asc : Ascending (xs ++ e ∷ zs))
    (behind : All (Behind key) zs) (at : (length xs ≡ 0) ⊎ (compare_bytes e.key key ≢ Ordering.gt))
    (room : 4 + 10 * length (xs ++ e ∷ zs) + total (xs ++ e ∷ zs) ≤ page_size) where
  place_read : get_key node (length xs) ≡ some e.key
  place_read = (Built-Reads node (length (xs ++ e ∷ zs)) xs zs e o.built).key

  Deleted-there : equal key e.key ≡ true → Deleted node (length xs) key (xs ++ e ∷ zs)
  unfolding delete_leaf total
  Deleted-there same =
      let same_key = equal→eq key e.key same in
      let n1 = length-append xs (e ∷ zs) in
      let n2 = length-append xs zs in
      let t1 = total-append xs (e ∷ zs) in
      let t2 = total-append xs zs in
      let (b', w, s, r) =
        leaf_delete-IsNode (make page_size) node bnode_leaf xs zs e o (omega arith) (omega arith) in
      inr (
        b',
        e.val,
        find-append key xs (e ∷ zs)
              (subst (λ k. All (Before k) xs) (sym same_key) (Ascending-Before xs zs e asc))
            ∙ find_first key e zs
            ∙ rw same refl,
        rw (place_read, same, w) refl,
        s,
        subst (IsNode b' bnode_leaf) (sym (deleted_at key xs zs e asc same_key)) r,
      )

  All-Before_xs : equal key e.key ≡ false → All (Before key) xs
  All-Before_xs other = elim at [
    | inl z ↦ none-Before key xs z
    | inr h ↦ elim (Ordering-cases (compare_bytes key e.key)) [
      | inl lt ↦ absurd (h (compare_bytes_swap key e.key lt))
      | inr (inl eq) ↦ absurd (unequal key e.key other eq)
      | inr (inr gt) ↦ All-Before_trans e.key key xs gt (Ascending-Before xs zs e asc)
    ]
  ]

  Deleted-missing : equal key e.key ≡ false → Deleted node (length xs) key (xs ++ e ∷ zs)
  unfolding delete_leaf
  Deleted-missing other = inl (
    find-append key xs (e ∷ zs) (All-Before_xs other)
        ∙ find_first key e zs
        ∙ rw other (find-Behind key zs behind),
    rw (place_read, other) refl,
  )

  Deleted-place : Deleted node (length xs) key (xs ++ e ∷ zs)
  Deleted-place = elim (Bool-cases (equal key e.key)) [
    | inl same ↦ Deleted-there same
    | inr other ↦ Deleted-missing other
  ]

-- The leaf case of `treeDelete`, on a leaf in order that has at least one entry and fits a page: the search for the key
-- ends; where the key is there, a leaf is built with the other entries in order, and where it is not, that is said.
pub delete_leaf-IsNode :
    (node : BNode) (key : Bytes) (es : List Entry)
    → IsNode node bnode_leaf es
    → Ascending es
    → 0 < length es
    → 4 + 10 * length es + total es ≤ page_size
    → (idx : ℕ) × (node_lookup_le node key ≡ some idx) × Deleted node idx key es
delete_leaf-IsNode node key es o asc some_entry room =
    let (idx, w, p) = node_lookup_le-Place node es key o.built asc some_entry in
    let shape = p.at.shape in
    (
      idx,
      w,
      subst (λ i. Deleted node i key es) p.at.len
          (subst (Deleted node (length p.at.xs) key) (sym shape) (
            Deleted-place node key p.at.xs p.at.zs p.at.e (subst (IsNode node bnode_leaf) shape o)
              (subst Ascending shape asc) p.behind
              (subst (λ i. (i ≡ 0) ⊎ (compare_bytes p.at.e.key key ≢ Ordering.gt)) (sym p.at.len)
                p.not_after)
              (subst (λ s. 4 + 10 * length s + total s ≤ page_size) shape room))),
    )
