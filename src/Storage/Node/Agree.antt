-- ===== src/Storage/Node/Agree.antt =====
-- storage/btree.go: what is read of two buffers that agree where it is read.
use auroradb.Prelude.{
  ℕ, zero, suc, ◌+◌, ◌*◌, ◌%◌, ◌<◌, ◌≤◌, ◌≡◌, refl, sym, ap, ap₂, ◌∙◌, List, [], ◌∷◌, ◌++◌, some,
  length, arith,
}
use auroradb.Storage.Node.{BNode, bytes_from, read16, read64, nkeys, getptr, get_offset, u16_mod}
use auroradb.Storage.Node.Memory.{offset_pos_lem}

-- The bytes from `lo` up to `hi` are the same.
abbrev pub AgreeOn : (ℕ → ℕ) → (ℕ → ℕ) → ℕ → ℕ → Type 0
AgreeOn f g lo hi = (i : ℕ) → lo ≤ i → i < hi → f i ≡ g i

pub bytes_from-AgreeOn :
    (f g : ℕ → ℕ) (pos n : ℕ) → AgreeOn f g pos (pos + n) → bytes_from f pos n ≡ bytes_from g pos n
unfolding bytes_from
bytes_from-AgreeOn f g pos zero h = refl
bytes_from-AgreeOn f g pos (suc n) h =
    ap₂ (λ x xs. x ∷ xs) (h pos (omega arith) (omega arith))
      (bytes_from-AgreeOn f g (suc pos) n (λ i l u. h i (omega arith) (omega arith)))

-- A run of bytes, read in two parts.
pub bytes_from-add :
    (f : ℕ → ℕ) (pos m n : ℕ)
    → bytes_from f pos (m + n) ≡ bytes_from f pos m ++ bytes_from f (pos + m) n
unfolding bytes_from
bytes_from-add f pos zero n =
    let e : zero + n ≡ n = omega arith in
    let q : pos + 0 ≡ pos = omega arith in
    ap (bytes_from f pos) e ∙ ap (λ p. bytes_from f p n) (sym q)
bytes_from-add f pos (suc m) n =
    let e : suc m + n ≡ suc (m + n) = omega arith in
    let q : suc pos + m ≡ pos + suc m = omega arith in
    ap (bytes_from f pos) e
    ∙ ap (λ s. f pos ∷ s)
        (bytes_from-add f (suc pos) m n ∙ ap (λ p. bytes_from f (suc pos) m ++ bytes_from f p n) q)

pub length-bytes_from : (f : ℕ → ℕ) (pos n : ℕ) → length (bytes_from f pos n) ≡ n
unfolding bytes_from
length-bytes_from f pos zero = refl
length-bytes_from f pos (suc n) = omega (arith, length-bytes_from f (suc pos) n)

cons-injective {ℓ} : {A : Type ℓ} {x y : A} {s t : List A} → x ∷ s ≡ y ∷ t → (x ≡ y) × (s ≡ t)
cons-injective e = (cc, cc)

-- Equal runs have equal parts, where the first parts are as long.
pub append-injective {ℓ} :
    {A : Type ℓ} (xs ys s t : List A)
    → length xs ≡ length ys
    → xs ++ s ≡ ys ++ t
    → (xs ≡ ys) × (s ≡ t)
append-injective [] [] s t h e = (refl, e)
append-injective [] (y ∷ ys) s t h e = absurd (omega arith)
append-injective (x ∷ xs) [] s t h e = absurd (omega arith)
append-injective (x ∷ xs) (y ∷ ys) s t h e =
    let (p, q) = cons-injective e in
    let (r, u) = append-injective xs ys s t (omega arith) q in (ap₂ (λ a as'. a ∷ as') p r, u)

module _ (b b' : BNode) (size : b'.size ≡ b.size) where
  pub read16-AgreeOn : (pos : ℕ) → AgreeOn b'.at b.at pos (pos + 2) → read16 b' pos ≡ read16 b pos
  unfolding read16
  read16-AgreeOn pos h = rw (size, bytes_from-AgreeOn b'.at b.at pos 2 h)

  pub read64-AgreeOn : (pos : ℕ) → AgreeOn b'.at b.at pos (pos + 8) → read64 b' pos ≡ read64 b pos
  unfolding read64
  read64-AgreeOn pos h = rw (size, bytes_from-AgreeOn b'.at b.at pos 8 h)

  pub nkeys-AgreeOn : AgreeOn b'.at b.at 2 4 → nkeys b' ≡ nkeys b
  unfolding nkeys
  nkeys-AgreeOn h = read16-AgreeOn 2 h

  module _ (n : ℕ) (count : nkeys b ≡ some n) (small : 4 + 10 * n < u16_mod)
      (header : AgreeOn b'.at b.at 2 4) where
    pub getptr-AgreeOn :
        (idx : ℕ)
        → idx < n
        → AgreeOn b'.at b.at (4 + 8 * idx) (4 + 8 * idx + 8)
        → getptr b' idx ≡ getptr b idx
    unfolding getptr
    getptr-AgreeOn idx lt h =
        let e : (4 + idx * 8) % u16_mod ≡ 4 + 8 * idx = omega arith in
        rw (nkeys-AgreeOn header, count, e, read64-AgreeOn (4 + 8 * idx) h)

    pub get_offset-AgreeOn :
        (idx : ℕ)
        → idx ≤ n
        → AgreeOn b'.at b.at (4 + 8 * n) (4 + 8 * n + 2 * idx)
        → get_offset b' idx ≡ get_offset b idx
    unfolding get_offset
    get_offset-AgreeOn zero le h = refl
    get_offset-AgreeOn (suc idx) le h = rw (
      offset_pos_lem b' n idx (nkeys-AgreeOn header ∙ count) small le,
      offset_pos_lem b n idx count small le,
      read16-AgreeOn (4 + 8 * n + 2 * idx) (λ i l u. h i (omega arith) (omega arith)),
    )
