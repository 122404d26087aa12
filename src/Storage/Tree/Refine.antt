-- ===== src/Storage/Tree/Refine.antt =====
-- storage/btree.go: insertion into a leaf and deletion from it, seen through GetVal.
use mathlib.Core.Path.{subst}
use auroradb.Prelude.{
  ℕ, zero, suc, ◌+◌, ◌*◌, ◌<◌, ◌≤◌, ◌≡◌, ◌≢◌, ◌⊎◌, refl, sym, ap, ◌∙◌, inl, inr, Bool-cases, List,
  [], ◌∷◌, ◌++◌, none, some, Bytes, length, equal, equal_refl, equal→eq, if◌then◌else◌, arith,
}
use auroradb.Prelude.Compare.{Ordering-cases, compare_bytes}
use auroradb.Storage.Node.{BNode, page_size, bnode_leaf, get_val, node_lookup_le}
use auroradb.Storage.Node.Entries.{Entry, size, total, Built}
use auroradb.Storage.Node.Entries.Leaf.{IsNode}
use auroradb.Storage.Node.Entries.Read.{Built-Reads}
use auroradb.Storage.Node.Entries.Place.{key_at, key_at_here, parts, Built-IsSorted}
use auroradb.Storage.Node.Entries.Ordered.{
  pair, Ascending, insert_entry, delete_entry, find, find_first, find-append, find-insert_entry,
  insert_before, insert_at, insert_behind, insert_entry-Ascending, Ascending-Before,
}
use auroradb.Storage.Node.Entries.Deletion.{
  delete_at, delete_behind, find-delete_entry, delete_entry-Ascending,
}
use auroradb.Storage.Tree.{Store, insert_leaf, delete_leaf, get_val_at}
use auroradb.Storage.Tree.Lookup.{IsLeaf, leaf_get}
use auroradb.Storage.Tree.Leaf.{insert_leaf-IsNode}
use auroradb.Storage.Tree.Leaf.Delete.{delete_leaf-IsNode}

-- The value at a place.
unfoldable val_at : List Entry → ℕ → Bytes
val_at [] i = []
val_at (e ∷ es) zero = e.val
val_at (e ∷ es) (suc i) = val_at es i

val_here : (xs zs : List Entry) (e : Entry) → val_at (xs ++ e ∷ zs) (length xs) ≡ e.val
unfolding val_at
val_here [] zs e = refl
val_here (x ∷ xs) zs e = val_here xs zs e

-- The value that is found for the key of an entry is its own.
find_here :
    (xs zs : List Entry) (e : Entry)
    → Ascending (xs ++ e ∷ zs)
    → find e.key (xs ++ e ∷ zs) ≡ some e.val
find_here xs zs e h =
    find-append e.key xs (e ∷ zs) (Ascending-Before xs zs e h)
    ∙ find_first e.key e zs
    ∙ rw (equal_refl e.key) refl

-- A key that no place has is not found.
find_nowhere :
    (k : Bytes) (es : List Entry) → ((j : ℕ) → j < length es → key_at es j ≢ k) → find k es ≡ none
unfolding key_at
find_nowhere k [] h = unfold find in refl
find_nowhere k (e ∷ es) h = find_first k e es ∙ elim (Bool-cases (equal k e.key)) [
  | inl same ↦ absurd (h 0 (omega arith) (sym (equal→eq k e.key same)))
  | inr other ↦ rw other (find_nowhere k es (λ j lt. h (suc j) (omega arith)))
]

-- A leaf whose entries ascend holds what is found among them.
pub IsNode-IsLeaf :
    (b : BNode) (es : List Entry)
    → IsNode b bnode_leaf es
    → Ascending es
    → 0 < length es
    → IsLeaf b (λ k. find k es)
IsNode-IsLeaf b es o asc some_entry = record {
  n = length es;
  keys = key_at es;
  vals = val_at es;
  type = o.type_read;
  sorted = Built-IsSorted b es o.built asc;
  some_key = some_entry;
  read = λ j lt.
      let p = parts es j lt in
      let r =
        Built-Reads b (length es) p.xs p.zs p.e (subst (Built b (length es)) p.shape o.built) in
      ap (get_val b) (sym p.len)
      ∙ r.val
      ∙ ap some (
          sym (val_here p.xs p.zs p.e)
          ∙ ap (λ s. val_at s (length p.xs)) (sym p.shape)
          ∙ ap (val_at es) p.len);
  entry = λ j lt.
      let p = parts es j lt in
      subst (λ i. find (key_at es i) es ≡ some (val_at es i)) p.len
        (subst (λ s. find (key_at s (length p.xs)) s ≡ some (val_at s (length p.xs))) (sym p.shape)
          (ap (λ k. find k (p.xs ++ p.e ∷ p.zs)) (key_at_here p.xs p.zs p.e)
            ∙ find_here p.xs p.zs p.e (subst Ascending p.shape asc)
            ∙ ap some (sym (val_here p.xs p.zs p.e))));
  no_other = λ k h. find_nowhere k es h;
}

-- An insertion leaves entries, and so does a deletion of one of several.
insert_entry_full : (key val : Bytes) (es : List Entry) → 0 < length (insert_entry key val es)
insert_entry_full key val [] = unfold insert_entry in omega arith
insert_entry_full key val (e ∷ es) = elim (Ordering-cases (compare_bytes key e.key)) [
  | inl lt ↦ subst (λ s. 0 < length s) (sym (insert_before key val e es lt)) (omega arith)
  | inr (inl eq) ↦ subst (λ s. 0 < length s) (sym (insert_at key val e es eq)) (omega arith)
  | inr (inr gt) ↦ subst (λ s. 0 < length s) (sym (insert_behind key val e es gt)) (omega arith)
]

delete_entry_full :
    (key : Bytes) (es : List Entry) → 1 < length es → 0 < length (delete_entry key es)
delete_entry_full key [] h = absurd (omega arith)
delete_entry_full key (e ∷ es) h = elim (Bool-cases (equal key e.key)) [
  | inl same ↦ subst (λ s. 0 < length s) (sym (delete_at key e es same)) (omega arith)
  | inr other ↦ subst (λ s. 0 < length s) (sym (delete_behind key e es other)) (omega arith)
]

module _ {S : Type 0} (tree : Store S) (st : S) (fuel : ℕ) where
  -- What is read of a leaf after an insertion: the value that was put in for its key, and for every other key what it had.
  pub get_val_at-insert_leaf :
      (node : BNode) (key val k : Bytes) (es : List Entry)
      → IsNode node bnode_leaf es
      → Ascending es
      → 0 < length es
      → 14 + 10 * length es + total es + size (pair key val) ≤ 2 * page_size
      → (idx : ℕ) × (b' : BNode) × (node_lookup_le node key ≡ some idx)
        × (insert_leaf node idx key val ≡ some b')
        × (get_val_at tree (suc fuel) st b' k
            ≡ (if equal k key then some (some val) else get_val_at tree (suc fuel) st node k))
  get_val_at-insert_leaf node key val k es o asc some_entry room =
      let (idx, b', w, e, s, r) = insert_leaf-IsNode node key val es o asc some_entry room in
      let old =
        leaf_get tree st fuel node (λ q. find q es) k (IsNode-IsLeaf node es o asc some_entry) in
      let new =
        leaf_get tree st fuel b' (λ q. find q (insert_entry key val es)) k
          (IsNode-IsLeaf b' (insert_entry key val es) r (insert_entry-Ascending key val es asc)
            (insert_entry_full key val es)) in
      let found = find-insert_entry k key val es in
      (
        idx,
        b',
        w,
        e,
        new
            ∙ ap some found
            ∙ (elim (Bool-cases (equal k key)) [ inl h ↦ rw h refl | inr h ↦ rw h (sym old) ]),
      )

  -- What is read of a leaf after a deletion that leaves entries: nothing for the key, and what it had for every other.
  pub get_val_at-delete_leaf :
      (node : BNode) (key k : Bytes) (es : List Entry)
      → IsNode node bnode_leaf es
      → Ascending es
      → 1 < length es
      → 4 + 10 * length es + total es ≤ page_size
      → (idx : ℕ) × (node_lookup_le node key ≡ some idx)
        × ((delete_leaf node idx key ≡ some none)
              × (get_val_at tree (suc fuel) st node key ≡ some none)
            ⊎ ((b' : BNode) × (delete_leaf node idx key ≡ some (some b'))
                × (get_val_at tree (suc fuel) st b' k
                    ≡ (if equal k key then some none else get_val_at tree (suc fuel) st node k))))
  get_val_at-delete_leaf node key k es o asc some_entry room =
      let (idx, w, r) = delete_leaf-IsNode node key es o asc (omega arith) room in
      let old = λ (q : Bytes).
        leaf_get tree st fuel node (λ k. find k es) q (IsNode-IsLeaf node es o asc (omega arith)) in
      (
        idx,
        w,
        elim r [
          | inl (missing, e) ↦ inl (e, old key ∙ ap some missing)
          | inr (b', v, there, e, s, n) ↦ inr (
            b',
            e,
            leaf_get tree st fuel b' (λ q. find q (delete_entry key es)) k
                  (IsNode-IsLeaf b' (delete_entry key es) n (delete_entry-Ascending key es asc)
                    (delete_entry_full key es some_entry))
                ∙ ap some (find-delete_entry k key es asc)
                ∙ (elim (Bool-cases (equal k key)) [
                  | inl h ↦ rw h refl
                  | inr h ↦ rw h (sym (old k))
                ]),
          )
        ],
      )
