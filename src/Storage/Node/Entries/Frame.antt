-- ===== src/Storage/Node/Entries/Frame.antt =====
-- storage/btree.go: the entries of a node stay under writes elsewhere, and what single writes leave.
use auroradb.Prelude.{
  ℕ, suc, ◌+◌, ◌-◌, ◌*◌, ◌%◌, ◌^◌, ◌<◌, ◌≤◌, ◌≡◌, refl, ◌∙◌, inr, List, [], ◌∷◌, some, Bytes,
  length, arith,
}
use auroradb.Prelude.Words.{little_endian}
use auroradb.Storage.Node.{
  BNode, put, nkeys, getptr, setptr, get_offset, set_offset, write64, u16_mod,
}
use auroradb.Storage.Node.Memory.{
  Apart, overlay_outside, offset_pos_lem, nkeys-put, read64-put_self, read16-put_self,
}
use auroradb.Storage.Node.Writes.{write16_lem}
use auroradb.Storage.Node.Agree.{AgreeOn, getptr-AgreeOn, get_offset-AgreeOn}
use auroradb.Storage.Node.Entries.{Entry, size, Pointers, Offsets}

-- A buffer and what it was before: the header and the size are as they were.
pub record Framed (b b' : BNode) (n : ℕ) : Type 0 where
  pub size : b'.size ≡ b.size
  pub count : nkeys b ≡ some n
  pub narrow : 4 + 10 * n < u16_mod
  pub header : AgreeOn b'.at b.at 2 4

module _ (b b' : BNode) (n : ℕ) (f : Framed b b' n) where
  pub Pointers-Framed :
      (i : ℕ) (es : List Entry)
      → i + length es ≤ n
      → AgreeOn b'.at b.at (4 + 8 * i) (4 + 8 * (i + length es))
      → Pointers b i es
      → Pointers b' i es
  unfolding Pointers
  Pointers-Framed i [] le h p = tt
  Pointers-Framed i (e ∷ es) le h (q, p) = (
    getptr-AgreeOn b b' f.size n f.count f.narrow f.header i (omega arith)
          (λ k l u. h k (omega arith) (omega arith))
        ∙ q,
    Pointers-Framed (suc i) es (omega arith) (λ k l u. h k (omega arith) (omega arith)) p,
  )

  pub Offsets-Framed :
      (i off : ℕ) (es : List Entry)
      → i + length es ≤ n
      → AgreeOn b'.at b.at (4 + 8 * n) (4 + 8 * n + 2 * (i + length es))
      → Offsets b i off es
      → Offsets b' i off es
  unfolding Offsets
  Offsets-Framed i off [] le h o =
      get_offset-AgreeOn b b' f.size n f.count f.narrow f.header i (omega arith)
        (λ k l u. h k (omega arith) (omega arith))
      ∙ o
  Offsets-Framed i off (e ∷ es) le h (q, o) = (
    get_offset-AgreeOn b b' f.size n f.count f.narrow f.header i (omega arith)
          (λ k l u. h k (omega arith) (omega arith))
        ∙ q,
    Offsets-Framed (suc i) (off + size e) es (omega arith)
        (λ k l u. h k (omega arith) (omega arith)) o,
  )

-- A write behind the header.
pub put-Framed :
    (b : BNode) (n pos : ℕ) (s : Bytes)
    → nkeys b ≡ some n
    → 4 + 10 * n < u16_mod
    → 4 ≤ pos
    → Framed b (put b pos s) n
put-Framed b n pos s count narrow le = record {
  size = refl;
  count = count;
  narrow = narrow;
  header = λ i l u. overlay_outside b.at pos s i (inr (omega arith));
}

-- The bytes before a write and behind it.
pub put-AgreeOn :
    (b : BNode) (pos : ℕ) (s : Bytes) (lo hi : ℕ)
    → Apart pos (length s) lo (hi - lo)
    → AgreeOn (put b pos s).at b.at lo hi
put-AgreeOn b pos s lo hi away i l u = overlay_outside b.at pos s i (omega arith)

module _ (b : BNode) (n : ℕ) (count : nkeys b ≡ some n) (room : 4 + 10 * n ≤ b.size)
    (small : b.size < u16_mod) where
  pub setptr_lem :
      (idx ptr : ℕ) → idx < n → setptr b idx ptr ≡ some (put b (4 + 8 * idx) (little_endian 8 ptr))
  unfolding setptr write64
  setptr_lem idx ptr lt =
      let e : (4 + idx * 8) % u16_mod ≡ 4 + 8 * idx = omega arith in rw (count, e) (ground arith)

  pub getptr-setptr :
      (idx ptr : ℕ)
      → idx < n
      → ptr < 2 ^ 64
      → getptr (put b (4 + 8 * idx) (little_endian 8 ptr)) idx ≡ some ptr
  unfolding getptr
  getptr-setptr idx ptr lt h =
      let e : (4 + idx * 8) % u16_mod ≡ 4 + 8 * idx = omega arith in
      rw
        (
          nkeys-put b (4 + 8 * idx) (little_endian 8 ptr) (omega arith),
          count,
          e,
          read64-put_self b (4 + 8 * idx) ptr (omega arith) h,
        )
        (ground arith)

  pub set_offset_lem :
      (idx v : ℕ)
      → idx < n
      → set_offset b (suc idx) v ≡ some (put b (4 + 8 * n + 2 * idx) (little_endian 2 v))
  unfolding set_offset
  set_offset_lem idx v lt =
      rw (offset_pos_lem b n idx count (omega arith) lt)
        (write16_lem b (4 + 8 * n + 2 * idx) v (omega arith))

  pub get_offset-set_offset :
      (idx v : ℕ)
      → idx < n
      → v < u16_mod
      → get_offset (put b (4 + 8 * n + 2 * idx) (little_endian 2 v)) (suc idx) ≡ some v
  unfolding get_offset
  get_offset-set_offset idx v lt h =
      let b' = put b (4 + 8 * n + 2 * idx) (little_endian 2 v) in
      let c = nkeys-put b (4 + 8 * n + 2 * idx) (little_endian 2 v) (omega arith) ∙ count in
      rw
        (
          offset_pos_lem b' n idx c (omega arith) lt,
          read16-put_self b (4 + 8 * n + 2 * idx) v (omega arith) h,
        )
        (ground arith)
