-- ===== src/Storage/Tree/Leaf.antt =====
-- storage/btree.go: what treeInsert does to a leaf in order.
pub mod Delete
use mathlib.Core.Path.{subst}
use auroradb.Prelude.{
  ℕ, zero, suc, ◌+◌, ◌-◌, ◌*◌, ◌%◌, ◌<◌, ◌≤◌, ◌≡◌, ◌≢◌, ◌⊎◌, refl, sym, ap, ◌∙◌, inl, inr, true,
  false, Bool-cases, List, [], ◌∷◌, ◌++◌, append-nil, append_assoc, Option, none, some, Bytes,
  Ordering, All, length, length-append, equal, equal_refl, equal→eq, ◌==◌, ◌&&◌, if◌then◌else◌,
  arith,
}
use auroradb.Prelude.Panic.{◌>>=◌}
use auroradb.Prelude.Compare.{
  Ordering-cases, compare_bytes, compare_bytes→eq, compare_bytes_refl, compare_bytes_swap,
}
use auroradb.Storage.Node.{
  BNode, make, page_size, bnode_leaf, nkeys, get_key, set_header, node_append_kv, node_lookup_le,
  u16_mod,
}
use auroradb.Storage.Node.Ranges.{node_append_range, leaf_insert, leaf_update, leaf_delete}
use auroradb.Storage.Node.Entries.{Entry, size, total, total-append, Built}
use auroradb.Storage.Node.Entries.Read.{Built-Reads}
use auroradb.Storage.Node.Entries.Range.{node_append_range-Built}
use auroradb.Storage.Node.Entries.Append.{node_append_kv-Built}
use auroradb.Storage.Node.Entries.Leaf.{IsNode, header_lem}
use auroradb.Storage.Node.Entries.Place.{Parts, Place, node_lookup_le-Place}
use auroradb.Storage.Node.Entries.Update.{
  leaf_insert-IsNode, leaf_update-IsNode, leaf_delete-IsNode, extended-IsNode,
}
use auroradb.Storage.Node.Entries.Ordered.{
  pair, Behind, Before, Ascending, insert_entry, delete_entry, insert_before, insert_at,
  insert_behind, insert_entry-append, insert_entry_first, Ascending-Before, All-Before_trans,
  not_equal, find, find-append, find_first,
}
use auroradb.Storage.Node.Entries.Deletion.{delete_entry-append, delete_at, find-Behind}
use auroradb.Storage.Tree.{insert_leaf, delete_leaf, is_before}

-- The branch of `treeInsert` for a key before the first one.
prepend :
    (old : BNode) (es : List Entry) (key val : Bytes)
    → IsNode old bnode_leaf es
    → 14 + 10 * length es + total es + size (pair key val) ≤ 2 * page_size
    → (b1 b2 b3 : BNode) × (set_header (make (2 * page_size)) bnode_leaf ((length es + 1) % u16_mod)
        ≡ some b1)
      × (node_append_kv b1 0 0 key val ≡ some b2)
      × (node_append_range b2 old 1 0 (length es) ≡ some b3)
      × (b3.size ≡ 2 * page_size)
      × IsNode b3 bnode_leaf (pair key val ∷ es)
unfolding total
prepend old es key val o room =
    let n = suc (length es) in
    let (b1, w1, s1, t1, h1) =
      header_lem (make (2 * page_size)) bnode_leaf n (omega arith) (omega arith) (omega arith) in
    let (b2, w2, r2) =
      node_append_kv-Built b1 n [] (pair key val) h1 (omega arith) (omega arith)
        (omega (arith, s1)) in
    let (b3, w3, r3) =
      node_append_range-Built b2 old n (length es) (pair key val ∷ []) [] es [] r2.built
        (subst (Built old (length es)) (sym (append-nil es)) o.built) (omega arith)
        (omega (arith, s1, r2.size)) in
    let count : (length es + 1) % u16_mod ≡ n = omega arith in
    (
      b1,
      b2,
      b3,
      rw count w1,
      w2,
      w3,
      r3.size ∙ r2.size ∙ s1,
      extended-IsNode b1 b3 bnode_leaf (pair key val ∷ es) t1 (record {
        size = r3.size ∙ r2.size;
        type = λ i l u. r3.type i l u ∙ r2.type i l u;
        built = r3.built;
      }),
    )

-- The entries with this one put in, at the place found.
module _ (key val : Bytes) (xs zs : List Entry) (e : Entry) (asc : Ascending (xs ++ e ∷ zs))
    (behind : All (Behind key) zs) where
  before : All (Before e.key) xs
  before = Ascending-Before xs zs e asc

  inserted_at : key ≡ e.key → insert_entry key val (xs ++ e ∷ zs) ≡ xs ++ pair key val ∷ zs
  inserted_at same =
      insert_entry-append key val xs (e ∷ zs) (subst (λ k. All (Before k) xs) (sym same) before)
      ∙ ap (λ s. xs ++ s)
          (insert_at key val e zs (ap (compare_bytes key) (sym same) ∙ compare_bytes_refl key))

  inserted_behind :
      compare_bytes key e.key ≡ Ordering.gt
      → insert_entry key val (xs ++ e ∷ zs) ≡ (xs ++ e ∷ []) ++ pair key val ∷ zs
  inserted_behind gt =
      insert_entry-append key val xs (e ∷ zs) (All-Before_trans e.key key xs gt before)
      ∙ ap (λ s. xs ++ s)
          (insert_behind key val e zs gt ∙ ap (λ s. e ∷ s) (insert_entry_first key val zs behind))
      ∙ sym (append_assoc xs (e ∷ []) (pair key val ∷ zs))

-- What the branches of `insert_leaf` have in common.
abbrev Inserted : BNode → ℕ → Bytes → Bytes → List Entry → Type 0
Inserted node idx key val es =
    (b' : BNode) × (insert_leaf node idx key val ≡ some b')
    × (b'.size ≡ 2 * page_size)
    × IsNode b' bnode_leaf (insert_entry key val es)

module _ (node : BNode) (key val : Bytes) (xs zs : List Entry) (e : Entry)
    (o : IsNode node bnode_leaf (xs ++ e ∷ zs)) (asc : Ascending (xs ++ e ∷ zs))
    (behind : All (Behind key) zs)
    (room : 14 + 10 * length (xs ++ e ∷ zs) + total (xs ++ e ∷ zs) + size (pair key val)
      ≤ 2 * page_size) where
  key_read : get_key node (length xs) ≡ some e.key
  key_read = (Built-Reads node (length (xs ++ e ∷ zs)) xs zs e o.built).key

  -- The key is there.
  Inserted-update : equal key e.key ≡ true → Inserted node (length xs) key val (xs ++ e ∷ zs)
  unfolding insert_leaf total
  Inserted-update same =
      let n1 = length-append xs (e ∷ zs) in
      let n2 = length-append xs zs in
      let t1 = total-append xs (e ∷ zs) in
      let t2 = total-append xs zs in
      let (b', w, s, r) =
        leaf_update-IsNode (make (2 * page_size)) node bnode_leaf xs zs e key val o (omega arith)
          (omega arith) (omega arith) in
      (
        b',
        rw (key_read, same) w,
        s,
        subst (IsNode b' bnode_leaf)
            (sym (inserted_at key val xs zs e asc behind (equal→eq key e.key same))) r,
      )

  -- The key is behind the one at the place.
  Inserted-insert :
      (first : Bytes)
      → compare_bytes key e.key ≡ Ordering.gt
      → get_key node 0 ≡ some first
      → is_before key first && (length xs == 0) ≡ false
      → Inserted node (length xs) key val (xs ++ e ∷ zs)
  unfolding insert_leaf
  Inserted-insert first gt read not_first =
      let other : equal key e.key ≡ false = not_equal key e.key (λ h. cc) in
      let same = append_assoc xs (e ∷ []) zs in
      let n1 = length-append xs (e ∷ []) in
      let n2 = length-append xs (e ∷ zs) in
      let (b', w, s, r) =
        leaf_insert-IsNode (make (2 * page_size)) node bnode_leaf (xs ++ e ∷ []) zs key val
          (subst (IsNode node bnode_leaf) (sym same) o) (omega arith)
          (subst (λ es. 14 + 10 * length es + total es + size (pair key val) ≤ 2 * page_size)
            (sym same) room) in
      let next : (length xs + 1) % u16_mod ≡ length (xs ++ e ∷ []) =
        (let r = o.built.room in let s = o.built.small in omega arith) in
      (
        b',
        rw (key_read, other, read, not_first, next) w,
        s,
        subst (IsNode b' bnode_leaf) (sym (inserted_behind key val xs zs e asc behind gt)) r,
      )

pub unequal : (a b : Bytes) → equal a b ≡ false → compare_bytes a b ≢ Ordering.eq
unequal a b h e =
    let r = equal_refl b in
    let q : equal b b ≡ false = subst (λ k. equal k b ≡ false) (compare_bytes→eq a b e) h in cc

-- The key is before all others.
Inserted-first :
    (node : BNode) (key val : Bytes) (zs : List Entry) (e : Entry)
    → IsNode node bnode_leaf (e ∷ zs)
    → compare_bytes key e.key ≡ Ordering.lt
    → 14 + 10 * length (e ∷ zs) + total (e ∷ zs) + size (pair key val) ≤ 2 * page_size
    → Inserted node 0 key val (e ∷ zs)
unfolding insert_leaf
Inserted-first node key val zs e o lt room =
    let read = (Built-Reads node (length (e ∷ zs)) [] zs e o.built).key in
    let other : equal key e.key ≡ false = not_equal key e.key (λ h. cc) in
    let yes_before : is_before key e.key && (0 == 0) ≡ true = ground arith in
    let (b1, b2, b3, w1, w2, w3, s, r) = prepend node (e ∷ zs) key val o room in
    (
      b3,
      rw (read, other, yes_before, o.built.count, w1, w2) w3,
      s,
      subst (IsNode b3 bnode_leaf) (sym (insert_before key val e zs lt)) r,
    )

Inserted-lt :
    (node : BNode) (key val : Bytes) (xs zs : List Entry) (e : Entry)
    → IsNode node bnode_leaf (xs ++ e ∷ zs)
    → (length xs ≡ 0) ⊎ (compare_bytes e.key key ≢ Ordering.gt)
    → 14 + 10 * length (xs ++ e ∷ zs) + total (xs ++ e ∷ zs) + size (pair key val) ≤ 2 * page_size
    → compare_bytes key e.key ≡ Ordering.lt
    → Inserted node (length xs) key val (xs ++ e ∷ zs)
Inserted-lt node key val [] zs e o at room lt = Inserted-first node key val zs e o lt room
Inserted-lt node key val (x ∷ xs) zs e o at room lt = elim at [
  | inl z ↦ absurd (omega arith)
  | inr h ↦ absurd (h (compare_bytes_swap key e.key lt))
]

Inserted-gt :
    (node : BNode) (key val : Bytes) (xs zs : List Entry) (e : Entry)
    → IsNode node bnode_leaf (xs ++ e ∷ zs)
    → Ascending (xs ++ e ∷ zs)
    → All (Behind key) zs
    → 14 + 10 * length (xs ++ e ∷ zs) + total (xs ++ e ∷ zs) + size (pair key val) ≤ 2 * page_size
    → compare_bytes key e.key ≡ Ordering.gt
    → Inserted node (length xs) key val (xs ++ e ∷ zs)
Inserted-gt node key val [] zs e o asc behind room gt =
    Inserted-insert node key val [] zs e o asc behind room e.key gt
      (Built-Reads node (length (e ∷ zs)) [] zs e o.built).key (ground arith)
Inserted-gt node key val (x ∷ xs) zs e o asc behind room gt =
    Inserted-insert node key val (x ∷ xs) zs e o asc behind room x.key gt
      (Built-Reads node (length (x ∷ (xs ++ e ∷ zs))) [] (xs ++ e ∷ zs) x o.built).key
      (ground arith)

Inserted-place :
    (node : BNode) (key val : Bytes) (xs zs : List Entry) (e : Entry)
    → IsNode node bnode_leaf (xs ++ e ∷ zs)
    → Ascending (xs ++ e ∷ zs)
    → All (Behind key) zs
    → (length xs ≡ 0) ⊎ (compare_bytes e.key key ≢ Ordering.gt)
    → 14 + 10 * length (xs ++ e ∷ zs) + total (xs ++ e ∷ zs) + size (pair key val) ≤ 2 * page_size
    → Inserted node (length xs) key val (xs ++ e ∷ zs)
Inserted-place node key val xs zs e o asc behind at room = elim (Bool-cases (equal key e.key)) [
  | inl same ↦ Inserted-update node key val xs zs e o asc behind room same
  | inr other ↦ elim (Ordering-cases (compare_bytes key e.key)) [
    | inl lt ↦ Inserted-lt node key val xs zs e o at room lt
    | inr (inl eq) ↦ absurd (unequal key e.key other eq)
    | inr (inr gt) ↦ Inserted-gt node key val xs zs e o asc behind room gt
  ]
]

-- The leaf case of `treeInsert`, on a leaf in order that has at least one entry, with room for one more in the buffer of
-- two pages: the search for the key ends, and a leaf is built whose entries are the ordered list with the entry put in.
pub insert_leaf-IsNode :
    (node : BNode) (key val : Bytes) (es : List Entry)
    → IsNode node bnode_leaf es
    → Ascending es
    → 0 < length es
    → 14 + 10 * length es + total es + size (pair key val) ≤ 2 * page_size
    → (idx : ℕ) × (b' : BNode) × (node_lookup_le node key ≡ some idx)
      × (insert_leaf node idx key val ≡ some b')
      × (b'.size ≡ 2 * page_size)
      × IsNode b' bnode_leaf (insert_entry key val es)
insert_leaf-IsNode node key val es o asc some_entry room =
    let (idx, w, p) = node_lookup_le-Place node es key o.built asc some_entry in
    let shape = p.at.shape in
    let (b', e, s, r) =
      subst (λ i. Inserted node i key val es) p.at.len
        (subst (Inserted node (length p.at.xs) key val) (sym shape) (
          Inserted-place node key val p.at.xs p.at.zs p.at.e
            (subst (IsNode node bnode_leaf) shape o) (subst Ascending shape asc) p.behind
            (subst (λ i. (i ≡ 0) ⊎ (compare_bytes p.at.e.key key ≢ Ordering.gt)) (sym p.at.len)
              p.not_after)
            (subst (λ s. 14 + 10 * length s + total s + size (pair key val) ≤ 2 * page_size) shape
              room))) in
    (idx, b', w, e, s, r)
