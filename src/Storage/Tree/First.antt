-- ===== src/Storage/Tree/First.antt =====
-- storage/btree.go: the first leaf of an empty tree.
use auroradb.Prelude.{
  ℕ, zero, suc, ◌+◌, ◌*◌, ◌<◌, ◌≤◌, ◌≡◌, ◌≢◌, ◌⊎◌, inl, inr, refl, sym, ap, ◌∙◌, [], ◌∷◌, Option,
  none, some, Bytes, Ordering, length, equal, equal_refl, equal→eq, Bool-cases, if◌then◌else◌,
  arith, false,
}
use auroradb.Prelude.Panic.{◌>>=◌, >>=_assoc}
use auroradb.Prelude.Words.{little_endian, from_little_endian}
use auroradb.Prelude.Compare.{compare_bytes}
use auroradb.Storage.Node.{
  BNode, make, page_size, bnode_leaf, bytes_from, read16, write16, write64, copy, overlay, btype,
  nkeys, offset_pos, get_offset, kv_pos, slice, get_key, get_val, set_header, setptr, set_offset,
  node_append_kv,
}
use auroradb.Storage.Node.Append.{HasEntry, node_append_kv-HasEntry}
use auroradb.Storage.Tree.{first_leaf}
use auroradb.Storage.Tree.Lookup.{Entries, IsLeaf}

abbrev sentinel_leaf : Option BNode
sentinel_leaf = do b1 ← set_header (make page_size) bnode_leaf 2; node_append_kv b1 0 0 [] []

-- The leaf with the empty key and room for another one.
abbrev sentinel : BNode
sentinel = elim sentinel_leaf [ none ↦ make 0 | some b ↦ b ]

-- It is written, and this is what it says of its size, its entries and its type.
record IsSentinel (b : BNode) : Type 0 where
  written : sentinel_leaf ≡ some b
  size : b.size ≡ page_size
  count : nkeys b ≡ some 2
  offset : get_offset b 1 ≡ some 4
  type : (b.at 0 ≡ 2) × (b.at 1 ≡ 0)
  lengths : (b.at 24 ≡ 0) × (b.at 25 ≡ 0) × (b.at 26 ≡ 0) × (b.at 27 ≡ 0)

sentinel-IsSentinel : IsSentinel sentinel
unfolding write16 write64 copy nkeys read16 offset_pos get_offset kv_pos set_header setptr
    set_offset node_append_kv bytes_from overlay little_endian from_little_endian
sentinel-IsSentinel = record {
  written = refl;
  size = refl;
  count = refl;
  offset = refl;
  type = (refl, refl);
  lengths = (refl, refl, refl, refl);
}

read16_bytes :
    (b : BNode) (pos x y : ℕ)
    → pos + 2 ≤ b.size
    → b.at pos ≡ x
    → b.at (suc pos) ≡ y
    → read16 b pos ≡ some (x + 256 * (y + 256 * 0))
unfolding read16 bytes_from from_little_endian
read16_bytes b pos x y h e f = ground (arith, e, f)

-- A page of two keys whose first entry is empty.
first_entry :
    (b : BNode)
    → b.size ≡ page_size
    → nkeys b ≡ some 2
    → (b.at 24 ≡ 0) × (b.at 25 ≡ 0) × (b.at 26 ≡ 0) × (b.at 27 ≡ 0)
    → (get_key b 0 ≡ some []) × (get_val b 0 ≡ some [])
unfolding get_key get_val kv_pos get_offset slice bytes_from
first_entry b size count (z0, z1, z2, z3) =
    let k = read16_bytes b 24 0 0 (omega arith) z0 z1 in
    let v = read16_bytes b 26 0 0 (omega arith) z2 z3 in
    (rw (count, k) (ground arith), rw (count, k, v) (ground arith))

-- The empty key and the one that was put in.
abbrev first_keys : Bytes → ℕ → Bytes
first_keys key zero = []
first_keys key (suc j) = key

abbrev pub first_entries : Bytes → Bytes → Entries
first_entries key val k = if equal key k then some val else if equal [] k then some [] else none

module _ (key val : Bytes) (full : key ≢ []) (fits : length key + length val ≤ 4064) where
  appended :
      (b : BNode) × (node_append_kv sentinel 1 0 key val ≡ some b)
      × HasEntry sentinel b 2 1 4 0 key val
  appended =
      node_append_kv-HasEntry sentinel 2 1 4 0 key val
        (record {
          count = sentinel-IsSentinel.count;
          place = omega arith;
          offset = sentinel-IsSentinel.offset;
          room = omega (arith, sentinel-IsSentinel.size);
          small = omega (arith, sentinel-IsSentinel.size);
        })
        (omega arith)

  abbrev page : BNode
  page = appended.0

  page_entry : HasEntry sentinel page 2 1 4 0 key val
  page_entry = appended.2

  kept : (i : ℕ) → (i < 2) ⊎ ((24 ≤ i) × (i < 28)) → page.at i ≡ sentinel.at i
  kept i h = page_entry.kept i (omega arith) (omega arith) (omega arith)

  page_size_lem : page.size ≡ page_size
  page_size_lem = page_entry.size ∙ sentinel-IsSentinel.size

  page_type : btype page ≡ some bnode_leaf
  unfolding btype
  page_type =
      let (t0, t1) = sentinel-IsSentinel.type in
      let size = page_size_lem in
      read16_bytes page 0 2 0 (omega arith) (kept 0 (omega arith) ∙ t0) (kept 1 (omega arith) ∙ t1)

  page_first : (get_key page 0 ≡ some []) × (get_val page 0 ≡ some [])
  page_first =
      let (z0, z1, z2, z3) = sentinel-IsSentinel.lengths in
      first_entry page page_size_lem page_entry.count (
        kept 24 (omega arith) ∙ z0,
        kept 25 (omega arith) ∙ z1,
        kept 26 (omega arith) ∙ z2,
        kept 27 (omega arith) ∙ z3,
      )

  after_nothing : (k : Bytes) → k ≢ [] → compare_bytes k [] ≡ Ordering.gt
  unfolding compare_bytes
  after_nothing [] ne = absurd (ne refl)
  after_nothing (x ∷ k) ne = refl

  ascending :
      (i j : ℕ) → i < j → j < 2 → compare_bytes (first_keys key j) (first_keys key i) ≡ Ordering.gt
  ascending zero zero h k = absurd (omega arith)
  ascending zero (suc j) h k = after_nothing key full
  ascending (suc i) zero h k = absurd (omega arith)
  ascending (suc i) (suc j) h k = absurd (omega arith)

  read_key : (j : ℕ) → j < 2 → get_key page j ≡ some (first_keys key j)
  read_key zero h = page_first.0
  read_key (suc zero) h = page_entry.key_read
  read_key (suc (suc j)) h = absurd (omega arith)

  abbrev first_vals : ℕ → Bytes
  first_vals zero = []
  first_vals (suc j) = val

  read_val : (j : ℕ) → j < 2 → get_val page j ≡ some (first_vals j)
  read_val zero h = page_first.1
  read_val (suc zero) h = page_entry.val_read
  read_val (suc (suc j)) h = absurd (omega arith)

  no_key : equal key [] ≡ false
  no_key = elim (Bool-cases (equal key [])) [
    | inl e ↦ absurd (full (equal→eq key [] e))
    | inr e ↦ e
  ]

  entry : (j : ℕ) → j < 2 → first_entries key val (first_keys key j) ≡ some (first_vals j)
  entry zero h = rw (no_key, equal_refl []) refl
  entry (suc zero) h = rw (equal_refl key) refl
  entry (suc (suc j)) h = absurd (omega arith)

  no_other : (k : Bytes) → ((j : ℕ) → j < 2 → first_keys key j ≢ k) → first_entries key val k ≡ none
  no_other k ne = elim (Bool-cases (equal key k)) [
    | inl e ↦ absurd (ne 1 (omega arith) (equal→eq key k e))
    | inr e ↦ elim (Bool-cases (equal [] k)) [
      | inl f ↦ absurd (ne 0 (omega arith) (equal→eq [] k f))
      | inr f ↦ rw (e, f) refl
    ]
  ]

  -- The first leaf of a tree is in order, and holds the empty key and the one that was put in.
  pub first_leaf-IsLeaf :
      (b : BNode) × (first_leaf key val ≡ some b) × IsLeaf b (first_entries key val)
  unfolding first_leaf
  first_leaf-IsLeaf = (
    page,
    sym (
          >>=_assoc (set_header (make page_size) bnode_leaf 2) (λ b. node_append_kv b 0 0 [] [])
            (λ b. node_append_kv b 1 0 key val))
        ∙ ap (λ o. o >>= λ b. node_append_kv b 1 0 key val) sentinel-IsSentinel.written
        ∙ appended.1,
    record {
      n = 2;
      keys = first_keys key;
      vals = first_vals;
      type = page_type;
      sorted = record {
        count = page_entry.count;
        small = omega arith;
        read = read_key;
        ascending = ascending;
      };
      some_key = omega arith;
      read = read_val;
      entry = entry;
      no_other = no_other;
    },
  )
