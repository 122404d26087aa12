-- ===== src/Storage/Node/Lookup.antt =====
-- storage/btree.go: `nodeLookupLE` finds the last key that is not after the one sought.
use native.Mathlib.Decide.{ℕ_discrete}
use auroradb.Prelude.{
  ℕ, zero, suc, ◌+◌, ◌-◌, ◌%◌, ◌<◌, ◌≤◌, ◌≡◌, ◌≢◌, ◌⊎◌, inl, inr, refl, sym, ◌∙◌, true, Bool-cases,
  some, Bytes, Ordering, ltb, arith,
}
use auroradb.Prelude.Compare.{Ordering-cases, compare_bytes, compare_bytes_trans, compare_bytes→eq}
use auroradb.Storage.Node.{BNode, nkeys, get_key, middle, lookup_loop, node_lookup_le, u16_mod}

-- A node of `n` keys `keys 0`, `keys 1`, …, each after the one before.
pub record IsSorted (b : BNode) (n : ℕ) (keys : ℕ → Bytes) : Type 0 where
  pub count : nkeys b ≡ some n
  pub small : n < u16_mod
  pub read : (i : ℕ) → i < n → get_key b i ≡ some (keys i)
  pub ascending : (i j : ℕ) → i < j → j < n → compare_bytes (keys j) (keys i) ≡ Ordering.gt

-- The place is the last one whose key is not after `key`, or 0 if there is none behind the first.
pub record IsLastLe (n : ℕ) (keys : ℕ → Bytes) (key : Bytes) (idx : ℕ) : Type 0 where
  pub below : (idx ≡ 0) ⊎ ((idx < n) × (compare_bytes (keys idx) key ≢ Ordering.gt))
  pub above : (j : ℕ) → idx < j → j < n → compare_bytes (keys j) key ≡ Ordering.gt

middle_bounds :
    (low high : ℕ)
    → low < high
    → high < u16_mod
    → (low ≤ middle low high) × (middle low high < high)
middle_bounds low high h k = omega arith

lt_ne_gt : {o : Ordering} → o ≡ Ordering.lt → o ≢ Ordering.gt
lt_ne_gt h k = cc

eq_ne_gt : {o : Ordering} → o ≡ Ordering.eq → o ≢ Ordering.gt
eq_ne_gt h k = cc

-- One round that compares with the key at the middle.
lookup_round :
    (fuel : ℕ) (b : BNode) (key : Bytes) (low high found : ℕ) {k : Bytes}
    → ltb low high ≡ true
    → get_key b (middle low high) ≡ some k
    → lookup_loop (suc fuel) b key low high found ≡ elim (compare_bytes k key) [
      | Ordering.eq ↦ some (middle low high)
      | Ordering.lt ↦
          lookup_loop fuel b key ((middle low high + 1) % u16_mod) high (middle low high)
      | Ordering.gt ↦ lookup_loop fuel b key low (middle low high) found
    ]
unfolding lookup_loop
lookup_round fuel b key low high found more read = rw (more, lookup_loop, read)

module _ (b : BNode) (n : ℕ) (keys : ℕ → Bytes) (key : Bytes) (s : IsSorted b n keys) where
  loop_finds :
      (fuel low high found : ℕ)
      → high ≤ n
      → high - low < fuel
      → found + 1 ≡ low
      → (found ≡ 0) ⊎ ((found < n) × (compare_bytes (keys found) key ≢ Ordering.gt))
      → ((j : ℕ) → high ≤ j → j < n → compare_bytes (keys j) key ≡ Ordering.gt)
      → (idx : ℕ) × (lookup_loop fuel b key low high found ≡ some idx) × IsLastLe n keys key idx
  unfolding lookup_loop
  loop_finds zero low high found hn hf hl hb ha = absurd (omega arith)
  loop_finds (suc fuel) low high found hn hf hl hb ha = elim (Bool-cases (ltb low high)) [
    | inr done ↦ (
      found,
      rw (done, lookup_loop),
      record { below = hb; above = λ j lt jn. ha j (ground arith) jn },
    )
    | inl more ↦
        let lt : low < high = ground arith in
        let mid = middle low high in
        let (ge, small) = middle_bounds low high lt (omega (arith, s.small)) in
        let step = lookup_round fuel b key low high found more (s.read mid (omega arith)) in
        elim (Ordering-cases (compare_bytes (keys mid) key)) [
          | inl before ↦
              let (idx, e, r) =
                loop_finds fuel ((mid + 1) % u16_mod) high mid hn (omega (arith, s.small))
                  (omega (arith, s.small)) (inr (omega arith, lt_ne_gt before)) ha in
              (idx, step ∙ rw before e, r)
          | inr (inl here) ↦ (
            mid,
            step ∙ rw here,
            record {
              below = inr (omega arith, eq_ne_gt here);
              above = λ j lt jn.
                  rw (sym (compare_bytes→eq (keys mid) key here)) (s.ascending mid j lt jn);
            },
          )
          | inr (inr after) ↦
              let (idx, e, r) =
                loop_finds fuel low mid found (omega arith) (omega arith) hl hb (λ j ge jn.
                  elim (ℕ_discrete mid j) [
                    | yes same ↦ rw (← same) after
                    | no other ↦
                        compare_bytes_trans (keys j) (keys mid) key
                          (s.ascending mid j (omega arith) jn) after
                  ]) in
              (idx, step ∙ rw after e, r)
        ]
  ]

-- In a node whose keys ascend, the search ends without a panic, at the last key that is not after the one
-- sought, or at 0 if every key behind the first one is after it.
pub node_lookup_le-IsLastLe :
    (b : BNode) (n : ℕ) (keys : ℕ → Bytes) (key : Bytes)
    → IsSorted b n keys
    → (idx : ℕ) × (node_lookup_le b key ≡ some idx) × IsLastLe n keys key idx
unfolding node_lookup_le
node_lookup_le-IsLastLe b n keys key s =
    let (idx, e, r) =
      loop_finds b n keys key s (suc n) 1 n 0 (omega arith) (omega arith) (omega arith) (inl refl)
        (λ j ge lt. absurd (omega arith)) in
    (idx, rw s.count e, r)
