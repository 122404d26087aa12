-- ===== src/Examples/Nodes.antt =====
-- A leaf of two entries.
use auroradb.Prelude.{ℕ, zero, suc, ◌<◌, ◌≡◌, refl, [], ◌∷◌, some, Bytes, codes, Ordering, arith}
use auroradb.Prelude.Words.{from_little_endian}
use auroradb.Prelude.Compare.{compare_bytes}
use auroradb.Storage.Node.{
  BNode, read16, offset_pos, get_offset, kv_pos, nkeys, get_key, slice, bytes_from, overlay,
  node_append_kv, node_lookup_le,
}
use auroradb.Storage.Node.Lookup.{IsSorted, IsLastLe, node_lookup_le-IsLastLe}
use auroradb.Storage.Node.Append.{HasEntry, node_append_kv-HasEntry}

-- The bytes of a leaf with the keys "" and "k", as the program writes them.
abbrev leaf_bytes : Bytes
leaf_bytes =
    2 ∷ 0 ∷ 2 ∷ 0 ∷ 0 ∷ 0 ∷ 0 ∷ 0 ∷ 0 ∷ 0 ∷ 0 ∷ 0 ∷ 0 ∷ 0 ∷ 0 ∷ 0 ∷ 0 ∷ 0 ∷ 0 ∷ 0 ∷ 4 ∷ 0 ∷ 10 ∷ 0
    ∷ 0 ∷ 0 ∷ 0 ∷ 0 ∷ 1 ∷ 0 ∷ 1 ∷ 0 ∷ 107 ∷ 118 ∷ []

abbrev leaf : BNode
leaf = record { size = 64; at = λ i. overlay (λ j. 0) 0 leaf_bytes i }

abbrev leaf_keys : ℕ → Bytes
leaf_keys zero = []
leaf_keys (suc i) = codes "k"

leaf_read : (i : ℕ) → i < 2 → get_key leaf i ≡ some (leaf_keys i)
unfolding get_key kv_pos nkeys get_offset offset_pos read16 slice bytes_from overlay
    from_little_endian
leaf_read zero h = refl
leaf_read (suc zero) h = refl
leaf_read (suc (suc i)) h = absurd (omega arith)

leaf_ascending : (i j : ℕ) → i < j → j < 2 → compare_bytes (leaf_keys j) (leaf_keys i) ≡ Ordering.gt
unfolding compare_bytes
leaf_ascending zero zero h k = absurd (omega arith)
leaf_ascending zero (suc j) h k = refl
leaf_ascending (suc i) zero h k = absurd (omega arith)
leaf_ascending (suc i) (suc j) h k = absurd (omega arith)

leaf_count : nkeys leaf ≡ some 2
unfolding nkeys read16 bytes_from overlay from_little_endian
leaf_count = refl

leaf-IsSorted : IsSorted leaf 2 leaf_keys
leaf-IsSorted = record {
  count = leaf_count;
  small = omega arith;
  read = leaf_read;
  ascending = leaf_ascending;
}

node_lookup_le-IsLastLe_example :
    (idx : ℕ) × (node_lookup_le leaf (codes "m") ≡ some idx) × IsLastLe 2 leaf_keys (codes "m") idx
node_lookup_le-IsLastLe_example = node_lookup_le-IsLastLe leaf 2 leaf_keys (codes "m") leaf-IsSorted

leaf_offset : get_offset leaf 1 ≡ some 4
unfolding nkeys get_offset offset_pos read16 bytes_from overlay from_little_endian
leaf_offset = refl

node_append_kv-HasEntry_example :
    (b : BNode) × (node_append_kv leaf 1 9 (codes "j") (codes "w") ≡ some b)
    × HasEntry leaf b 2 1 4 9 (codes "j") (codes "w")
node_append_kv-HasEntry_example =
    node_append_kv-HasEntry leaf 2 1 4 9 (codes "j") (codes "w")
      (record {
        count = leaf_count;
        place = omega arith;
        offset = leaf_offset;
        room = omega arith;
        small = omega arith;
      })
      (omega arith)
