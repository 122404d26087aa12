-- ===== src/Storage/Node/Entries/Leaf.antt =====
-- storage/btree.go: leafInsert, leafUpdate and leafDelete on the list of entries.
use mathlib.Core.Path.{subst}
use auroradb.Prelude.{
  ℕ, suc, ◌+◌, ◌*◌, ◌^◌, ◌<◌, ◌≤◌, ◌≡◌, refl, sym, ap, ap₂, ◌∙◌, inr, List, [], ◌∷◌, ◌++◌,
  append-nil, append_assoc, some, length, length-append, arith,
}
use auroradb.Prelude.Words.{little_endian}
use auroradb.Storage.Node.{
  BNode, put, btype, nkeys, get_offset, set_header, node_append_kv, bytes_from, u16_mod,
}
use auroradb.Storage.Node.Memory.{read16-put, read16-put_self}
use auroradb.Storage.Node.Writes.{write16_lem}
use auroradb.Storage.Node.Ranges.{node_append_range}
use auroradb.Storage.Node.Agree.{AgreeOn}
use auroradb.Storage.Node.Entries.{
  Entry, size, total, total-append, encodes, Pointers, Offsets, Built,
}
use auroradb.Storage.Node.Entries.Append.{node_append_kv-Built}
use auroradb.Storage.Node.Entries.Range.{node_append_range-Built}

-- A node whose places are all taken, of this type.
pub record IsNode (b : BNode) (type : ℕ) (es : List Entry) : Type 0 where
  pub type_read : btype b ≡ some type
  pub built : Built b (length es) es

-- The header of an empty buffer.
pub header_lem :
    (b : BNode) (type n : ℕ)
    → type < u16_mod
    → 4 + 10 * n ≤ b.size
    → b.size < u16_mod
    → (b0 : BNode) × (set_header b type n ≡ some b0)
      × (b0.size ≡ b.size)
      × (btype b0 ≡ some type)
      × Built b0 n []
unfolding set_header btype nkeys Pointers Offsets get_offset total bytes_from encodes
header_lem b type n ht room small =
    let b1 = put b 0 (little_endian 2 type) in
    let b0 = put b1 2 (little_endian 2 n) in
    (
      b0,
      rw (write16_lem b 0 type (omega arith), write16_lem b1 2 n (omega arith)),
      refl,
      read16-put b1 2 (little_endian 2 n) 0 (inr (omega arith))
          ∙ read16-put_self b 0 type (omega arith) ht,
      record {
        count = read16-put_self b1 2 n (omega arith) (omega arith);
        places = omega arith;
        small = small;
        room = omega arith;
        words = tt;
        pointers = tt;
        offsets = refl;
        body = refl;
      },
    )

-- Entries from before a place, one entry, and entries from behind the place, with `ms` between them left out.
pub record Spliced (b0 old : BNode) (n : ℕ) (xs ms zs : List Entry) (e : Entry) : Type 0 where
  pub first : BNode
  pub middle : BNode
  pub last : BNode
  pub first_lem : node_append_range b0 old 0 0 (length xs) ≡ some first
  pub middle_lem : node_append_kv first (length xs) e.ptr e.key e.val ≡ some middle
  pub last_lem :
      node_append_range middle old (suc (length xs)) (length xs + length ms) (length zs) ≡ some last
  pub size_lem : last.size ≡ b0.size
  pub type_lem : AgreeOn last.at b0.at 0 2
  pub built : Built last n (xs ++ e ∷ zs)

pub splice :
    (b0 old : BNode) (n k : ℕ) (xs ms zs : List Entry) (e : Entry)
    → Built b0 n []
    → Built old k (xs ++ (ms ++ zs))
    → n ≡ length xs + suc (length zs)
    → e.ptr < 2 ^ 64
    → 4 + 10 * n + total xs + size e + total zs ≤ b0.size
    → Spliced b0 old n xs ms zs e
unfolding total
splice b0 old n k xs ms zs e h o places word room =
    let (b1, w1, r1) =
      node_append_range-Built b0 old n k [] [] xs (ms ++ zs) h o (omega arith) (omega arith) in
    let (b2, w2, r2) =
      node_append_kv-Built b1 n xs e r1.built (omega arith) word (omega (arith, r1.size)) in
    let len : length (xs ++ e ∷ []) ≡ suc (length xs) = omega (arith, length-append xs (e ∷ [])) in
    let sum : total (xs ++ e ∷ []) ≡ total xs + size e = omega (arith, total-append xs (e ∷ [])) in
    let shape : xs ++ (ms ++ zs) ≡ (xs ++ ms) ++ (zs ++ []) =
      sym (append_assoc xs ms zs) ∙ ap (λ s. (xs ++ ms) ++ s) (sym (append-nil zs)) in
    let (b3, w3, r3) =
      node_append_range-Built b2 old n k (xs ++ e ∷ []) (xs ++ ms) zs [] r2.built
        (subst (Built old k) shape o) (omega arith) (omega (arith, r1.size, r2.size)) in
    record {
      first = b1;
      middle = b2;
      last = b3;
      first_lem = w1;
      middle_lem = w2;
      last_lem =
          ap₂ (λ i j. node_append_range b2 old i j (length zs)) (sym len)
            (sym (length-append xs ms))
          ∙ w3;
      size_lem = r3.size ∙ r2.size ∙ r1.size;
      type_lem = λ i l u. r3.type i l u ∙ r2.type i l u ∙ r1.type i l u;
      built = subst (Built b3 n) (append_assoc xs (e ∷ []) zs) r3.built;
    }
