-- ===== src/Storage/Tree/Lookup.antt =====
-- storage/btree.go: `GetVal` on a tree whose nodes are in order.
use native.Mathlib.Decide.{dec_lt}
use mathlib.Core.Path.{subst}
use auroradb.Prelude.{
  ℕ, zero, suc, ◌<◌, ◌≡◌, ◌≢◌, inl, inr, sym, ap, ◌∙◌, false, Bool-cases, Option, Option-cases,
  none, some, Bytes, Ordering, equal, equal_refl, equal→eq, ◌==◌, arith,
}
use auroradb.Prelude.Compare.{compare_bytes, compare_bytes_refl, compare_bytes_trans}
use auroradb.Storage.Node.{BNode, bnode_leaf, bnode_node, btype, getptr, get_val}
use auroradb.Storage.Node.Lookup.{IsSorted, IsLastLe, node_lookup_le-IsLastLe}
use auroradb.Storage.Tree.{Store, get_val_at, tree_get_val}

-- What a tree holds: the value of each key that is there.
abbrev pub Entries : Type 0
Entries = Bytes → Option Bytes

-- A leaf in order holds its own entries.
pub record IsLeaf (b : BNode) (m : Entries) : Type 0 where
  pub n : ℕ
  pub keys : ℕ → Bytes
  pub vals : ℕ → Bytes
  pub type : btype b ≡ some bnode_leaf
  pub sorted : IsSorted b n keys
  pub some_key : 0 < n
  pub read : (j : ℕ) → j < n → get_val b j ≡ some (vals j)
  pub entry : (j : ℕ) → j < n → m (keys j) ≡ some (vals j)
  pub no_other : (k : Bytes) → ((j : ℕ) → j < n → keys j ≢ k) → m k ≡ none

-- A node in order over children that hold what lies between its keys; the first child may hold what is before the
-- first key.
pub record IsInner {S : Type 0} (tree : Store S) (st : S) (Holds : BNode → Entries → Type 0)
    (b : BNode) (m : Entries) : Type 0 where
  pub n : ℕ
  pub keys : ℕ → Bytes
  pub kids : ℕ → BNode
  pub maps : ℕ → Entries
  pub ptrs : ℕ → ℕ
  pub type : btype b ≡ some bnode_node
  pub sorted : IsSorted b n keys
  pub some_key : 0 < n
  pub read : (j : ℕ) → j < n → getptr b j ≡ some (ptrs j)
  pub kid : (j : ℕ) → j < n → tree.get st (ptrs j) ≡ some (kids j)
  pub holds : (j : ℕ) → j < n → Holds (kids j) (maps j)
  pub from_key :
      (j : ℕ) (k v : Bytes)
      → j < n
      → 0 < j
      → maps j k ≡ some v
      → compare_bytes (keys j) k ≢ Ordering.gt
  pub before_next :
      (j : ℕ) (k v : Bytes)
      → suc j < n
      → maps j k ≡ some v
      → compare_bytes (keys (suc j)) k ≡ Ordering.gt
  pub entry : (j : ℕ) (k v : Bytes) → j < n → maps j k ≡ some v → m k ≡ some v
  pub no_other : (k : Bytes) → ((j : ℕ) → j < n → maps j k ≡ none) → m k ≡ none

-- A tree with `h` levels of nodes above its leaves.
unfoldable pub Holds : {S : Type 0} → Store S → S → ℕ → BNode → Entries → Type 0
Holds tree st zero b m = IsLeaf b m
Holds tree st (suc h) b m = IsInner tree st (Holds tree st h) b m

IsLastLe-lt :
    {n idx : ℕ} {keys : ℕ → Bytes} {key : Bytes} → 0 < n → IsLastLe n keys key idx → idx < n
IsLastLe-lt pos l = elim l.below [ inl e ↦ omega arith | inr (lt, h) ↦ lt ]

-- The place found is the only one where the key can be.
other_keys :
    {b : BNode} {n : ℕ} {keys : ℕ → Bytes} {key : Bytes} {idx : ℕ} (j : ℕ)
    → IsSorted b n keys
    → IsLastLe n keys key idx
    → equal (keys idx) key ≡ false
    → j < n
    → keys j ≢ key
other_keys {keys} {key} {idx} j s l ne lt e = elim (dec_lt j idx) [
  | yes before ↦ elim l.below [
    | inl z ↦ absurd (omega arith)
    | inr (li, not_after) ↦
        not_after
          (subst (λ k. compare_bytes (keys idx) k ≡ Ordering.gt) e (s.ascending j idx before li))
  ]
  | no not_before ↦ elim (dec_lt idx j) [
    | yes after ↦
        let h = l.above j after lt in
        let r = compare_bytes_refl key in
        let q : compare_bytes key key ≡ Ordering.gt =
          subst (λ k. compare_bytes k key ≡ Ordering.gt) e h in
        cc
    | no not_after ↦
        let same : j ≡ idx = omega arith in
        let q : equal key key ≡ false =
          subst (λ k. equal k key ≡ false) (ap keys (sym same) ∙ e) ne in
        let r = equal_refl key in cc
  ]
]

module _ {S : Type 0} (tree : Store S) (st : S) where
  pub leaf_get :
      (fuel : ℕ) (b : BNode) (m : Entries) (key : Bytes)
      → IsLeaf b m
      → get_val_at tree (suc fuel) st b key ≡ some (m key)
  unfolding get_val_at
  leaf_get fuel b m key f =
      let (idx, e, l) = node_lookup_le-IsLastLe b f.n f.keys key f.sorted in
      let lt = IsLastLe-lt f.some_key l in
      elim (Bool-cases (equal (f.keys idx) key)) [
        | inl same ↦
            rw (f.type, get_val_at, e, f.sorted.read idx lt, same, f.read idx lt)
              (ap some (sym (f.entry idx lt) ∙ ap m (equal→eq (f.keys idx) key same)))
        | inr other ↦
            rw (f.type, get_val_at, e, f.sorted.read idx lt, other)
              (ap some (sym (f.no_other key (λ j lj. other_keys j f.sorted l other lj))))
      ]

  -- A key that another child has is not before the place found, and not after it.
  misplaced :
      {H : BNode → Entries → Type 0} {b : BNode} {m : Entries} {key v : Bytes} {idx : ℕ}
      → (f : IsInner tree st H b m) → IsLastLe f.n f.keys key idx
      → f.maps idx key ≡ none
      → (j : ℕ) → j < f.n
      → f.maps j key ≡ some v
      → ⊥
  misplaced {key} {v} {idx} f l e j lj there = elim (dec_lt idx j) [
    | yes after ↦ f.from_key j key v lj (omega arith) there (l.above j after lj)
    | no not_after ↦ elim (dec_lt j idx) [
      | no not_before ↦
          let same : j ≡ idx = omega arith in
          let q : f.maps idx key ≡ some v = ap (λ i. f.maps i key) (sym same) ∙ there in cc
      | yes before ↦ elim l.below [
        | inl z ↦ absurd (omega arith)
        | inr (li, not_gt) ↦ elim (dec_lt (suc j) idx) [
          | yes gap ↦ not_gt (
              compare_bytes_trans (f.keys idx) (f.keys (suc j)) key
                (f.sorted.ascending (suc j) idx gap li) (f.before_next j key v (omega arith) there))
          | no close ↦
              let same : suc j ≡ idx = omega arith in
              not_gt (
                subst (λ i. compare_bytes (f.keys i) key ≡ Ordering.gt) same
                  (f.before_next j key v (omega arith) there))
        ]
      ]
    ]
  ]

  -- The child at the place found holds the key if any child does.
  inner_entry :
      {H : BNode → Entries → Type 0} {b : BNode} {m : Entries} {key : Bytes} {idx : ℕ}
      → (f : IsInner tree st H b m) → IsLastLe f.n f.keys key idx
      → f.maps idx key ≡ m key
  inner_entry {key} {idx} f l = elim (Option-cases (f.maps idx key)) [
    | inr (v, e) ↦ e ∙ sym (f.entry idx key v (IsLastLe-lt f.some_key l) e)
    | inl e ↦
        e
        ∙ sym (
            f.no_other key (λ j lj. elim (Option-cases (f.maps j key)) [
              | inl none_there ↦ none_there
              | inr (v, there) ↦ absurd (misplaced f l e j lj there)
            ]))
  ]

  get_val_at-Holds :
      (h fuel : ℕ) (b : BNode) (m : Entries) (key : Bytes)
      → h < fuel
      → Holds tree st h b m
      → get_val_at tree fuel st b key ≡ some (m key)
  unfolding get_val_at Holds
  get_val_at-Holds h zero b m key lt f = absurd (omega arith)
  get_val_at-Holds zero (suc fuel) b m key lt f = leaf_get fuel b m key f
  get_val_at-Holds (suc h) (suc fuel) b m key lt f =
      let (idx, e, l) = node_lookup_le-IsLastLe b f.n f.keys key f.sorted in
      let li = IsLastLe-lt f.some_key l in
      rw (f.type, get_val_at, e, f.read idx li, f.kid idx li)
        (get_val_at-Holds h fuel (f.kids idx) (f.maps idx) key (omega arith) (f.holds idx li)
          ∙ ap some (inner_entry f l))

  -- In a tree whose nodes are in order, `GetVal` finds the value of each key that is there, at whatever depth, and
  -- gives the error for every other key; it does not panic, and the fuel of its depth is enough.
  pub tree_get_val-Holds :
      (h fuel root : ℕ) (b : BNode) (m : Entries) (key : Bytes)
      → h < fuel
      → root ≢ 0
      → tree.get st root ≡ some b
      → Holds tree st h b m
      → tree_get_val tree fuel st root key ≡ some (m key)
  unfolding tree_get_val
  tree_get_val-Holds h fuel root b m key lt nz e f = elim (Bool-cases (root == 0)) [
    | inl z ↦ absurd (nz (ground arith))
    | inr p ↦ rw (p, e) (get_val_at-Holds h fuel b m key lt f)
  ]
