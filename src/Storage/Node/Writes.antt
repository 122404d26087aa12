-- ===== src/Storage/Node/Writes.antt =====
-- storage/btree.go: the writes of `nodeAppendKV`, one by one, where there is room.
use auroradb.Prelude.{
  ℕ, zero, suc, ◌+◌, ◌-◌, ◌*◌, ◌%◌, ◌<◌, ◌≤◌, ◌≡◌, refl, inl, inr, ◌∙◌, ap, ap₂, List, [], ◌∷◌,
  some, Bytes, length, take, arith,
}
use auroradb.Prelude.Words.{little_endian, length-little_endian}
use auroradb.Storage.Node.{
  BNode, put, nkeys, get_offset, set_offset, kv_pos, setptr, write16, write64, copy, node_append_kv,
  u16_mod,
}
use auroradb.Storage.Node.Memory.{Apart, nkeys-put, get_offset-put, offset_pos_lem}

pub take_all {ℓ} : {A : Type ℓ} (n : ℕ) (s : List A) → length s ≤ n → take n s ≡ s
take_all zero [] h = refl
take_all zero (x ∷ s) h = absurd (omega arith)
take_all (suc n) [] h = refl
take_all (suc n) (x ∷ s) h = ap (λ r. x ∷ r) (take_all n s (omega arith))

pub write16_lem :
    (b : BNode) (pos v : ℕ)
    → pos + 2 ≤ b.size
    → write16 b pos v ≡ some (put b pos (little_endian 2 v))
unfolding write16
write16_lem b pos v h = ground arith

pub copy_lem :
    (b : BNode) (pos : ℕ) (s : Bytes) → pos + length s ≤ b.size → copy b pos s ≡ some (put b pos s)
unfolding copy
copy_lem b pos s h = rw (take_all (b.size - pos) s (omega arith)) (ground arith)

pub kv_pos_lem :
    (b : BNode) (n idx off : ℕ)
    → nkeys b ≡ some n
    → get_offset b idx ≡ some off
    → 4 + 10 * n + off < u16_mod
    → kv_pos b idx ≡ some (4 + 10 * n + off)
unfolding kv_pos
kv_pos_lem b n idx off en eo fits = rw (en, eo) (ap some (omega arith))

module _ (b : BNode) (n idx off ptr : ℕ) (key val : Bytes) where
  abbrev pub pos : ℕ
  pos = 4 + 10 * n + off

  abbrev pub step1 : BNode
  step1 = put b (4 + 8 * idx) (little_endian 8 ptr)

  abbrev pub step2 : BNode
  step2 = put step1 pos (little_endian 2 (length key))

  abbrev pub step3 : BNode
  step3 = put step2 (pos + 2) (little_endian 2 (length val))

  abbrev pub step4 : BNode
  step4 = put step3 (pos + 4) key

  abbrev pub step5 : BNode
  step5 = put step4 (pos + 4 + length key) val

  abbrev pub step6 : BNode
  step6 = put step5 (4 + 8 * n + 2 * idx) (little_endian 2 (off + 4 + length key + length val))

pub unwrapped : (x : ℕ) → x < u16_mod → x % u16_mod ≡ x
unwrapped x h = omega arith

-- There is room for the entry in the buffer behind those before it.
pub record Fits (b : BNode) (n idx off ptr : ℕ) (key val : Bytes) : Type 0 where
  pub count : nkeys b ≡ some n
  pub place : idx < n
  pub offset : get_offset b idx ≡ some off
  pub room : 4 + 10 * n + off + 4 + length key + length val ≤ b.size
  pub small : b.size < u16_mod

-- The number of keys and the offset of the place are as they were.
pub record Stable (b : BNode) (n idx off : ℕ) : Type 0 where
  pub count : nkeys b ≡ some n
  pub offset : get_offset b idx ≡ some off

pub put-Stable :
    (b : BNode) (n idx off at : ℕ) (s : Bytes)
    → Stable b n idx off
    → 4 + 10 * n < u16_mod
    → idx ≤ n
    → 4 ≤ at
    → Apart at (length s) (4 + 8 * n) (2 * idx)
    → Stable (put b at s) n idx off
put-Stable b n idx off at s h fits le ge away = record {
  count = nkeys-put b at s ge ∙ h.count;
  offset = get_offset-put b at s n idx h.count fits le ge away ∙ h.offset;
}

module _ (b : BNode) (n idx off ptr : ℕ) (key val : Bytes) (f : Fits b n idx off ptr key val) where
  pub Stable1 : Stable (step1 b n idx off ptr key val) n idx off
  Stable1 =
      put-Stable b n idx off (4 + 8 * idx) (little_endian 8 ptr)
        (record { count = f.count; offset = f.offset }) (omega (arith, f.room, f.small))
        (omega (arith, f.place)) (omega arith)
        (rw (length-little_endian 8 ptr) (inl (omega (arith, f.place))))

  pub Stable4 : Stable (step4 b n idx off ptr key val) n idx off
  Stable4 =
      let narrow : 4 + 10 * n < u16_mod = omega (arith, f.room, f.small) in
      let le : idx ≤ n = omega (arith, f.place) in
      let p = pos b n idx off ptr key val in
      let s1 = step1 b n idx off ptr key val in
      let s2 = step2 b n idx off ptr key val in
      let s3 = step3 b n idx off ptr key val in
      put-Stable s3 n idx off (p + 4) key
        (put-Stable s2 n idx off (p + 2) (little_endian 2 (length val))
          (put-Stable s1 n idx off p (little_endian 2 (length key)) Stable1 narrow le (omega arith)
            (inr (omega arith)))
          narrow le (omega arith) (inr (omega arith)))
        narrow le (omega arith) (inr (omega arith))

  pub Stable5 : Stable (step5 b n idx off ptr key val) n idx off
  Stable5 =
      put-Stable (step4 b n idx off ptr key val) n idx off
        (pos b n idx off ptr key val + 4 + length key) val Stable4 (omega (arith, f.room, f.small))
        (omega (arith, f.place)) (omega arith) (inr (omega (arith, f.place)))

  setptr_lem : setptr b idx ptr ≡ some (step1 b n idx off ptr key val)
  unfolding setptr write64
  setptr_lem = rw f.count (ground (arith, f.place, f.room, f.small))

  set_offset_lem :
      set_offset (step5 b n idx off ptr key val) (suc idx) (off + 4 + length key + length val)
      ≡ some (step6 b n idx off ptr key val)
  unfolding set_offset
  set_offset_lem =
      rw
        (offset_pos_lem (step5 b n idx off ptr key val) n idx Stable5.count
          (omega (arith, f.room, f.small)) f.place)
        (write16_lem (step5 b n idx off ptr key val) (4 + 8 * n + 2 * idx)
          (off + 4 + length key + length val) (omega (arith, f.room, f.place)))

  -- The writes are those of `nodeAppendKV`: none panics, and no position wraps.
  pub node_append_kv_lem : node_append_kv b idx ptr key val ≡ some (step6 b n idx off ptr key val)
  unfolding node_append_kv
  node_append_kv_lem =
      let p = pos b n idx off ptr key val in
      let total : p + 4 + length key + length val < u16_mod = omega (arith, f.room, f.small) in
      rw
        (
          setptr_lem,
          kv_pos_lem (step1 b n idx off ptr key val) n idx off Stable1.count Stable1.offset
              (omega arith),
          unwrapped (length key) (omega arith),
          write16_lem (step1 b n idx off ptr key val) p (length key) (omega (arith, f.room)),
          unwrapped (p + 2) (omega arith),
          unwrapped (length val) (omega arith),
          write16_lem (step2 b n idx off ptr key val) (p + 2) (length val) (omega (arith, f.room)),
          unwrapped (p + 4) (omega arith),
          copy_lem (step3 b n idx off ptr key val) (p + 4) key (omega (arith, f.room)),
          unwrapped (p + 4 + length key) (omega arith),
          copy_lem (step4 b n idx off ptr key val) (p + 4 + length key) val f.room,
          Stable5.offset,
        )
        (ap₂ (λ i v. set_offset (step5 b n idx off ptr key val) i v) (omega (arith, f.place))
            (omega arith)
          ∙ set_offset_lem)
