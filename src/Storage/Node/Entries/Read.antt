-- ===== src/Storage/Node/Entries/Read.antt =====
-- storage/btree.go: the pointer, the key and the value of each entry of a node are read back.
use auroradb.Prelude.{
  ℕ, ◌+◌, ◌*◌, ◌%◌, ◌<◌, ◌≤◌, ◌≡◌, refl, sym, ap, ap₂, ◌∙◌, List, [], ◌∷◌, ◌++◌, append-nil, some,
  Bytes, length, length-append, true, leb, arith,
}
use auroradb.Prelude.Words.{little_endian, length-little_endian, from_little_endian-little_endian}
use auroradb.Storage.Node.{
  BNode, bytes_from, read16, slice, getptr, get_offset, kv_pos, get_key, get_val, u16_mod,
}
use auroradb.Storage.Node.Agree.{bytes_from-add, append-injective, length-bytes_from}
use auroradb.Storage.Node.Entries.{
  Entry, size, total, encode, encodes, total-append, Pointers, Offsets, Built, Pointers-behind,
  Offsets-behind,
}
use auroradb.Storage.Node.Entries.Part.{part_of_body}

-- A run that begins with these bytes.
run_parts :
    (f : ℕ → ℕ) (pos : ℕ) (xs ys : Bytes)
    → bytes_from f pos (length xs + length ys) ≡ xs ++ ys
    → (bytes_from f pos (length xs) ≡ xs) × (bytes_from f (pos + length xs) (length ys) ≡ ys)
run_parts f pos xs ys e =
    append-injective (bytes_from f pos (length xs)) xs _ _ (length-bytes_from f pos (length xs))
      (sym (bytes_from-add f pos (length xs) (length ys)) ∙ e)

-- A word that is written at a place.
word_read :
    (b : BNode) (pos v : ℕ)
    → pos + 2 ≤ b.size
    → v < u16_mod
    → bytes_from b.at pos 2 ≡ little_endian 2 v
    → read16 b pos ≡ some v
unfolding read16
word_read b pos v room small e =
    let fits : leb (pos + 2) b.size ≡ true = ground arith in
    rw (fits, e) (ap some (from_little_endian-little_endian 2 v (omega arith)))

-- What is read of the entry `e` at the place `i`.
pub record Reads (b : BNode) (i : ℕ) (e : Entry) : Type 0 where
  pub pointer : getptr b i ≡ some e.ptr
  pub key : get_key b i ≡ some e.key
  pub val : get_val b i ≡ some e.val

-- The four parts of an entry's bytes.
entry_parts :
    (f : ℕ → ℕ) (pos : ℕ) (e : Entry)
    → bytes_from f pos (size e) ≡ encode e
    → (bytes_from f pos 2 ≡ little_endian 2 (length e.key))
      × (bytes_from f (pos + 2) 2 ≡ little_endian 2 (length e.val))
      × (bytes_from f (pos + 4) (length e.key) ≡ e.key)
      × (bytes_from f (pos + 4 + length e.key) (length e.val) ≡ e.val)
unfolding encode
entry_parts f pos e h =
    let k = little_endian 2 (length e.key) in
    let v = little_endian 2 (length e.val) in
    let lk = length-little_endian 2 (length e.key) in
    let lv = length-little_endian 2 (length e.val) in
    let lkv = length-append e.key e.val in
    let lvkv = length-append v (e.key ++ e.val) in
    let n1 : length k + length (v ++ (e.key ++ e.val)) ≡ size e = omega arith in
    let (p1, r1) = run_parts f pos k (v ++ (e.key ++ e.val)) (ap (bytes_from f pos) n1 ∙ h) in
    let n2 : length v + length (e.key ++ e.val) ≡ length (v ++ (e.key ++ e.val)) = omega arith in
    let (p2, r2) =
      run_parts f (pos + length k) v (e.key ++ e.val)
        (ap (bytes_from f (pos + length k)) n2 ∙ r1) in
    let (p3, p4) =
      run_parts f (pos + length k + length v) e.key e.val
        (ap (bytes_from f (pos + length k + length v)) (sym lkv) ∙ r2) in
    let q1 : pos + length k ≡ pos + 2 = omega arith in
    let q2 : pos + length k + length v ≡ pos + 4 = omega arith in
    (
      ap (bytes_from f pos) (sym lk) ∙ p1,
      ap₂ (bytes_from f) (sym q1) (sym lv) ∙ p2,
      ap (λ q. bytes_from f q (length e.key)) (sym q2) ∙ p3,
      ap (λ q. bytes_from f (q + length e.key) (length e.val)) (sym q2) ∙ p4,
    )

-- The entries of a node are those that `getPtr`, `getKey` and `getVal` read.
pub Built-Reads :
    (b : BNode) (n : ℕ) (xs zs : List Entry) (e : Entry)
    → Built b n (xs ++ e ∷ zs)
    → Reads b (length xs) e
unfolding Pointers Offsets total encodes kv_pos get_key get_val slice
Built-Reads b n xs zs e h =
    let sum = total-append xs (e ∷ zs) in
    let len = length-append xs (e ∷ zs) in
    let room = h.room in
    let small = h.small in
    let start = 4 + 10 * n + total xs in
    let one : total (e ∷ []) ≡ size e = omega arith in
    let all =
      ap (bytes_from b.at start) (sym one)
      ∙ part_of_body b.at (4 + 10 * n) xs (e ∷ []) zs h.body
      ∙ append-nil (encode e) in
    let (klen, vlen, key, val) = entry_parts b.at start e all in
    let place : 0 + length xs ≡ length xs = omega arith in
    let sum0 : 0 + total xs ≡ total xs = omega arith in
    let offset : get_offset b (length xs) ≡ some (total xs) =
      rw (place, sum0) at (Offsets-behind b 0 0 xs (e ∷ zs) h.offsets).0 in
    let at : (4 + 8 * n + 2 * n + total xs) % u16_mod ≡ start = omega arith in
    let at2 : (start + 2) % u16_mod ≡ start + 2 = omega arith in
    let at4 : (start + 4) % u16_mod ≡ start + 4 = omega arith in
    let atv : (start + 4 + length e.key) % u16_mod ≡ start + 4 + length e.key = omega arith in
    let k = word_read b start (length e.key) (omega arith) (omega arith) klen in
    let v = word_read b (start + 2) (length e.val) (omega arith) (omega arith) vlen in
    let key_fits : leb (start + 4 + length e.key) b.size ≡ true = ground arith in
    let val_fits : leb (start + 4 + length e.key + length e.val) b.size ≡ true = ground arith in
    record {
      pointer = rw place at (Pointers-behind b 0 xs (e ∷ zs) h.pointers).0;
      key = rw (h.count, offset, at, k, at4, key_fits, key) refl;
      val = rw (h.count, offset, at, k, at2, v, atv, val_fits, val) refl;
    }
