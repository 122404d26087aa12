-- ===== src/Storage/Node/Memory.antt =====
-- storage/btree.go: reading what was written to a buffer, and what was written elsewhere.
use auroradb.Prelude.{
  ℕ, zero, suc, ◌+◌, ◌*◌, ◌^◌, ◌<◌, ◌≤◌, ◌≡◌, ◌⊎◌, inr, refl, ◌∙◌, ap₂, [], ◌∷◌, some, Bytes,
  length, arith,
}
use auroradb.Prelude.Words.{little_endian, length-little_endian, from_little_endian-little_endian}
use auroradb.Storage.Node.{
  BNode, bytes_from, overlay, put, read16, read64, nkeys, offset_pos, get_offset, u16_mod,
}

-- The places `pos`, …, `pos + n - 1` and `at`, …, `at + m - 1` have none in common.
abbrev pub Apart : ℕ → ℕ → ℕ → ℕ → Type 0
Apart pos n q m = (pos + n ≤ q) ⊎ (q + m ≤ pos)

pub overlay_outside :
    (at : ℕ → ℕ) (pos : ℕ) (s : Bytes) (i : ℕ)
    → Apart pos (length s) i 1
    → overlay at pos s i ≡ at i
unfolding overlay
overlay_outside at pos [] i h = refl
overlay_outside at pos (x ∷ s) i h = ground (arith, overlay_outside at (suc pos) s i)

-- Bytes read apart from those written are the old ones.
pub bytes_from-overlay-Apart :
    (at : ℕ → ℕ) (pos : ℕ) (s : Bytes) (q n : ℕ)
    → Apart pos (length s) q n
    → bytes_from (overlay at pos s) q n ≡ bytes_from at q n
unfolding bytes_from
bytes_from-overlay-Apart at pos s q zero h = refl
bytes_from-overlay-Apart at pos s q (suc n) h =
    ap₂ (λ x xs. x ∷ xs) (overlay_outside at pos s q (omega arith))
      (bytes_from-overlay-Apart at pos s (suc q) n (omega arith))

overlay_at : (at : ℕ → ℕ) (pos x : ℕ) (s : Bytes) → overlay at pos (x ∷ s) pos ≡ x
unfolding overlay
overlay_at at pos x s = ground arith

bytes_from-eq :
    (f g : ℕ → ℕ) (q n : ℕ) → ((i : ℕ) → q ≤ i → f i ≡ g i) → bytes_from f q n ≡ bytes_from g q n
unfolding bytes_from
bytes_from-eq f g q zero h = refl
bytes_from-eq f g q (suc n) h =
    ap₂ (λ x xs. x ∷ xs) (h q (omega arith))
      (bytes_from-eq f g (suc q) n (λ i le. h i (omega arith)))

overlay_behind :
    (at : ℕ → ℕ) (pos x : ℕ) (s : Bytes) (i : ℕ)
    → suc pos ≤ i
    → overlay at pos (x ∷ s) i ≡ overlay at (suc pos) s i
unfolding overlay
overlay_behind at pos x s i h = ground arith

-- Bytes read where they were written are those.
pub bytes_from-overlay :
    (at : ℕ → ℕ) (pos : ℕ) (s : Bytes) → bytes_from (overlay at pos s) pos (length s) ≡ s
unfolding bytes_from
bytes_from-overlay at pos [] = refl
bytes_from-overlay at pos (x ∷ s) =
    ap₂ (λ y ys. y ∷ ys) (overlay_at at pos x s)
      (bytes_from-eq (overlay at pos (x ∷ s)) (overlay at (suc pos) s) (suc pos) (length s)
          (overlay_behind at pos x s)
        ∙ bytes_from-overlay at (suc pos) s)

pub read16-put :
    (b : BNode) (pos : ℕ) (s : Bytes) (q : ℕ)
    → Apart pos (length s) q 2
    → read16 (put b pos s) q ≡ read16 b q
unfolding read16
read16-put b pos s q h = rw (bytes_from-overlay-Apart b.at pos s q 2 h)

pub read64-put :
    (b : BNode) (pos : ℕ) (s : Bytes) (q : ℕ)
    → Apart pos (length s) q 8
    → read64 (put b pos s) q ≡ read64 b q
unfolding read64
read64-put b pos s q h = rw (bytes_from-overlay-Apart b.at pos s q 8 h)

pub read16-put_self :
    (b : BNode) (pos v : ℕ)
    → pos + 2 ≤ b.size
    → v < u16_mod
    → read16 (put b pos (little_endian 2 v)) pos ≡ some v
unfolding read16
read16-put_self b pos v h lt =
    let s = little_endian 2 v in
    let same : bytes_from (overlay b.at pos s) pos 2 ≡ s =
      rw (length-little_endian 2 v) at (bytes_from-overlay b.at pos s) in
    rw (same, from_little_endian-little_endian 2 v (omega arith)) (ground arith)

pub read64-put_self :
    (b : BNode) (pos v : ℕ)
    → pos + 8 ≤ b.size
    → v < 2 ^ 64
    → read64 (put b pos (little_endian 8 v)) pos ≡ some v
unfolding read64
read64-put_self b pos v h lt =
    let s = little_endian 8 v in
    let same : bytes_from (overlay b.at pos s) pos 8 ≡ s =
      rw (length-little_endian 8 v) at (bytes_from-overlay b.at pos s) in
    rw (same, from_little_endian-little_endian 8 v (omega arith)) (ground arith)

-- The number of keys and the offsets stay under a write elsewhere.
pub nkeys-put : (b : BNode) (pos : ℕ) (s : Bytes) → 4 ≤ pos → nkeys (put b pos s) ≡ nkeys b
unfolding nkeys
nkeys-put b pos s h = read16-put b pos s 2 (inr h)

pub offset_pos_lem :
    (b : BNode) (n idx : ℕ)
    → nkeys b ≡ some n
    → 4 + 10 * n < u16_mod
    → suc idx ≤ n
    → offset_pos b (suc idx) ≡ some (4 + 8 * n + 2 * idx)
unfolding offset_pos
offset_pos_lem b n idx en fits le = rw en (ground arith)

pub get_offset-put :
    (b : BNode) (pos : ℕ) (s : Bytes) (n idx : ℕ)
    → nkeys b ≡ some n
    → 4 + 10 * n < u16_mod
    → idx ≤ n
    → 4 ≤ pos
    → Apart pos (length s) (4 + 8 * n) (2 * idx)
    → get_offset (put b pos s) idx ≡ get_offset b idx
unfolding get_offset
get_offset-put b pos s n zero en fits le hp away = refl
get_offset-put b pos s n (suc idx) en fits le hp away = rw (
  offset_pos_lem (put b pos s) n idx (nkeys-put b pos s hp ∙ en) fits le,
  offset_pos_lem b n idx en fits le,
  read16-put b pos s (4 + 8 * n + 2 * idx) (omega arith),
)
