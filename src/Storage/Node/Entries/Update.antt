-- ===== src/Storage/Node/Entries/Update.antt =====
-- storage/btree.go: leafInsert, leafUpdate, leafDelete and nodeMerge on the lists of entries.
use mathlib.Core.Path.{subst}
use auroradb.Prelude.{
  ℕ, suc, ◌+◌, ◌-◌, ◌*◌, ◌%◌, ◌<◌, ◌≤◌, ◌≡◌, refl, sym, ap, ◌∙◌, List, [], ◌∷◌, ◌++◌, append-nil,
  append_assoc, some, Bytes, length, length-append, arith,
}
use auroradb.Storage.Node.{BNode, bnode_leaf, btype, u16_mod}
use auroradb.Storage.Node.Ranges.{
  node_append_range, keys_behind, leaf_insert, leaf_update, leaf_delete, node_merge,
}
use auroradb.Storage.Node.Agree.{AgreeOn, read16-AgreeOn}
use auroradb.Storage.Node.Entries.{Entry, size, total, total-append, Built}
use auroradb.Storage.Node.Entries.Range.{node_append_range-Built}
use auroradb.Storage.Node.Entries.Part.{Extends}
use auroradb.Storage.Node.Entries.Ordered.{pair}
use auroradb.Storage.Node.Entries.Leaf.{IsNode, header_lem, Spliced, splice}

-- The type stays where the first two bytes do.
btype-AgreeOn : (b b' : BNode) → b'.size ≡ b.size → AgreeOn b'.at b.at 0 2 → btype b' ≡ btype b
unfolding btype
btype-AgreeOn b b' s h = read16-AgreeOn b b' s 0 h

Spliced-IsNode :
    (b0 old : BNode) (type : ℕ) (xs ms zs : List Entry) (e : Entry) (n : ℕ)
    → btype b0 ≡ some type
    → n ≡ length (xs ++ e ∷ zs)
    → (s : Spliced b0 old n xs ms zs e) → IsNode s.last type (xs ++ e ∷ zs)
Spliced-IsNode b0 old type xs ms zs e n t len s = record {
  type_read = btype-AgreeOn b0 s.last s.size_lem s.type_lem ∙ t;
  built = subst (λ m. Built s.last m (xs ++ e ∷ zs)) len s.built;
}

-- An insertion into a leaf puts the entry between those before its place and the others.
pub leaf_insert-IsNode :
    (b old : BNode) (type : ℕ) (xs zs : List Entry) (key val : Bytes)
    → IsNode old type (xs ++ zs)
    → b.size < u16_mod
    → 14 + 10 * length (xs ++ zs) + total (xs ++ zs) + size (pair key val) ≤ b.size
    → (b' : BNode) × (leaf_insert b old (length xs) key val ≡ some b')
      × (b'.size ≡ b.size)
      × IsNode b' bnode_leaf (xs ++ pair key val ∷ zs)
unfolding leaf_insert
leaf_insert-IsNode b old type xs zs key val o small room =
    let len = length-append xs zs in
    let sum = total-append xs zs in
    let n = length (xs ++ zs) in
    let (b0, w0, s0, t0, h0) = header_lem b bnode_leaf (n + 1) (omega arith) (omega arith) small in
    let s =
      splice b0 old (n + 1) n xs [] zs (pair key val) h0 o.built (omega arith) (omega arith)
        (omega (arith, s0)) in
    let count : (n + 1) % u16_mod ≡ n + 1 = omega arith in
    let next : (length xs + 1) % u16_mod ≡ suc (length xs) = omega arith in
    let from : length xs + length {A = Entry} [] ≡ length xs = omega arith in
    let rest : (n + u16_mod - length xs) % u16_mod ≡ length zs = omega arith in
    (
      s.last,
      rw (o.built.count, count, w0, s.first_lem, s.middle_lem, next, rest) (rw from at s.last_lem),
      s.size_lem ∙ s0,
      Spliced-IsNode b0 old bnode_leaf xs [] zs (pair key val) (n + 1) t0
          (omega (arith, length-append xs (pair key val ∷ zs))) s,
    )

-- An update of a leaf puts the entry in place of the one at its place; the type stays.
pub leaf_update-IsNode :
    (b old : BNode) (type : ℕ) (xs zs : List Entry) (m : Entry) (key val : Bytes)
    → IsNode old type (xs ++ m ∷ zs)
    → type < u16_mod
    → b.size < u16_mod
    → 14 + 10 * length (xs ++ zs) + total (xs ++ zs) + size (pair key val) ≤ b.size
    → (b' : BNode) × (leaf_update b old (length xs) key val ≡ some b')
      × (b'.size ≡ b.size)
      × IsNode b' type (xs ++ pair key val ∷ zs)
unfolding leaf_update
leaf_update-IsNode b old type xs zs m key val o known small room =
    let len = length-append xs zs in
    let sum = total-append xs zs in
    let n = length (xs ++ m ∷ zs) in
    let all : n ≡ length xs + suc (length zs) = length-append xs (m ∷ zs) in
    let (b0, w0, s0, t0, h0) = header_lem b type n known (omega arith) small in
    let s =
      splice b0 old n n xs (m ∷ []) zs (pair key val) h0 o.built all (omega arith)
        (omega (arith, s0)) in
    let next : (length xs + 1) % u16_mod ≡ suc (length xs) = omega arith in
    let from : length xs + length (m ∷ []) ≡ suc (length xs) = omega arith in
    let rest : keys_behind n (length xs) ≡ length zs = omega arith in
    (
      s.last,
      rw (o.type_read, o.built.count, w0, s.first_lem, s.middle_lem, rest, next)
          (rw from at s.last_lem),
      s.size_lem ∙ s0,
      Spliced-IsNode b0 old type xs (m ∷ []) zs (pair key val) n t0
          (omega (arith, length-append xs (pair key val ∷ zs))) s,
    )

-- Parts of two nodes, one behind the other, in an empty buffer.
appended_twice :
    (b0 left right : BNode) (n k l : ℕ) (xs ys us vs ws : List Entry)
    → Built b0 n []
    → Built left k (xs ++ ys)
    → Built right l (us ++ (vs ++ ws))
    → n ≡ length (xs ++ vs)
    → 4 + 10 * n + total xs + total vs ≤ b0.size
    → (b1 b2 : BNode) × (node_append_range b0 left 0 0 (length xs) ≡ some b1)
      × (node_append_range b1 right (length xs) (length us) (length vs) ≡ some b2)
      × Extends b0 b2 n (xs ++ vs)
unfolding total
appended_twice b0 left right n k l xs ys us vs ws h left_built right_built places room =
    let len = length-append xs vs in
    let (b1, w1, r1) =
      node_append_range-Built b0 left n k [] [] xs ys h left_built (omega arith) (omega arith) in
    let (b2, w2, r2) =
      node_append_range-Built b1 right n l xs us vs ws r1.built right_built (omega arith)
        (omega (arith, r1.size)) in
    (
      b1,
      b2,
      w1,
      w2,
      record {
        size = r2.size ∙ r1.size;
        type = λ i l u. r2.type i l u ∙ r1.type i l u;
        built = r2.built;
      },
    )

pub extended-IsNode :
    (b b' : BNode) (type : ℕ) (es : List Entry)
    → btype b ≡ some type
    → Extends b b' (length es) es
    → IsNode b' type es
extended-IsNode b b' type es t r = record {
  type_read = btype-AgreeOn b b' r.size r.type ∙ t;
  built = r.built;
}

-- A deletion from a leaf leaves out the entry at its place.
pub leaf_delete-IsNode :
    (b old : BNode) (type : ℕ) (xs zs : List Entry) (m : Entry)
    → IsNode old type (xs ++ m ∷ zs)
    → b.size < u16_mod
    → 4 + 10 * length (xs ++ zs) + total (xs ++ zs) ≤ b.size
    → (b' : BNode) × (leaf_delete b old (length xs) ≡ some b')
      × (b'.size ≡ b.size)
      × IsNode b' bnode_leaf (xs ++ zs)
unfolding leaf_delete
leaf_delete-IsNode b old type xs zs m o small room =
    let len = length-append xs zs in
    let all = length-append xs (m ∷ zs) in
    let n = length (xs ++ zs) in
    let before = length (xs ++ m ∷ zs) in
    let places = o.built.room in
    let bound = o.built.small in
    let (b0, w0, s0, t0, h0) = header_lem b bnode_leaf n (omega arith) (omega arith) small in
    let moved : xs ++ m ∷ zs ≡ (xs ++ m ∷ []) ++ (zs ++ []) =
      sym (append_assoc xs (m ∷ []) zs) ∙ ap (λ s. (xs ++ m ∷ []) ++ s) (sym (append-nil zs)) in
    let (b1, b2, w1, w2, r) =
      appended_twice b0 old old n before before xs (m ∷ zs) (xs ++ m ∷ []) zs [] h0 o.built
        (subst (Built old before) moved o.built) refl (omega (arith, s0, total-append xs zs)) in
    let count : (before + u16_mod - 1) % u16_mod ≡ n = omega arith in
    let next : (length xs + 1) % u16_mod ≡ length (xs ++ m ∷ []) =
      omega (arith, length-append xs (m ∷ [])) in
    let rest : keys_behind before (length xs) ≡ length zs = omega arith in
    (
      b2,
      rw (o.built.count, count, w0, w1, rest, next) w2,
      r.size ∙ s0,
      extended-IsNode b0 b2 bnode_leaf (xs ++ zs) t0 r,
    )

-- A merge puts the entries of the right node behind those of the left one; the type is the left one's.
pub node_merge-IsNode :
    (b left right : BNode) (type other : ℕ) (xs ys : List Entry)
    → IsNode left type xs
    → IsNode right other ys
    → type < u16_mod
    → b.size < u16_mod
    → 4 + 10 * length (xs ++ ys) + total (xs ++ ys) ≤ b.size
    → (b' : BNode) × (node_merge b left right ≡ some b')
      × (b'.size ≡ b.size)
      × IsNode b' type (xs ++ ys)
unfolding node_merge
node_merge-IsNode b left right type other xs ys o p known small room =
    let len = length-append xs ys in
    let n = length (xs ++ ys) in
    let (b0, w0, s0, t0, h0) = header_lem b type n known (omega arith) small in
    let (b1, b2, w1, w2, r) =
      appended_twice b0 left right n (length xs) (length ys) xs [] [] ys [] h0
        (subst (Built left (length xs)) (sym (append-nil xs)) o.built)
        (subst (Built right (length ys)) (sym (append-nil ys)) p.built) refl
        (omega (arith, s0, total-append xs ys)) in
    let count : (length xs + length ys) % u16_mod ≡ n = omega arith in
    (
      b2,
      rw (o.type_read, o.built.count, p.built.count, count, w0, w1) w2,
      r.size ∙ s0,
      extended-IsNode b0 b2 type (xs ++ ys) t0 r,
    )
