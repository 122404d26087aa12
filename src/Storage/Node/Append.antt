-- ===== src/Storage/Node/Append.antt =====
-- storage/btree.go: an entry that `nodeAppendKV` wrote is read back, and the rest of the node is kept.
use auroradb.Prelude.{
  ℕ, suc, ◌+◌, ◌*◌, ◌^◌, ◌<◌, ◌≡◌, refl, inl, inr, ◌∙◌, ap, some, Bytes, length, arith,
}
use auroradb.Prelude.Panic.{◌>>=◌}
use auroradb.Prelude.Words.{little_endian, length-little_endian}
use auroradb.Storage.Node.{
  BNode, put, nkeys, getptr, get_offset, get_key, get_val, offset_pos, kv_pos, slice,
  node_append_kv, read16, read64,
}
use auroradb.Storage.Node.Memory.{
  Apart, overlay_outside, bytes_from-overlay, bytes_from-overlay-Apart, read16-put, read16-put_self,
  read64-put, read64-put_self, offset_pos_lem,
}
use auroradb.Storage.Node.Writes.{
  Fits, Stable, Stable5, put-Stable, step1, step2, step3, step4, step5, step6, pos,
  node_append_kv_lem, kv_pos_lem, unwrapped,
}

-- The node `b'` is `b` with an entry at place `idx`, whose key and value begin behind the offset `off`.
pub record HasEntry (b b' : BNode) (n idx off ptr : ℕ) (key val : Bytes) : Type 0 where
  pub size : b'.size ≡ b.size
  pub count : nkeys b' ≡ some n
  pub pointer : getptr b' idx ≡ some ptr
  pub key_read : get_key b' idx ≡ some key
  pub val_read : get_val b' idx ≡ some val
  pub offset : get_offset b' idx ≡ some off
  pub next_offset : get_offset b' (suc idx) ≡ some (off + 4 + length key + length val)
  pub kept :
      (i : ℕ)
      → Apart (4 + 8 * idx) 8 i 1
      → Apart (4 + 8 * n + 2 * idx) 2 i 1
      → Apart (4 + 10 * n + off) (4 + length key + length val) i 1
      → b'.at i ≡ b.at i

get_offset-suc :
    (b : BNode) (i : ℕ) → get_offset b (suc i) ≡ (do at ← offset_pos b (suc i); read16 b at)
unfolding get_offset
get_offset-suc b i = ground arith

module _ (b : BNode) (n idx off ptr : ℕ) (key val : Bytes) (f : Fits b n idx off ptr key val) where
  Stable6 : Stable (step6 b n idx off ptr key val) n idx off
  Stable6 =
      put-Stable (step5 b n idx off ptr key val) n idx off (4 + 8 * n + 2 * idx)
        (little_endian 2 (off + 4 + length key + length val)) (Stable5 b n idx off ptr key val f)
        (omega (arith, f.room, f.small)) (omega (arith, f.place)) (omega arith) (inr (omega arith))

  abbrev end : ℕ
  end = off + 4 + length key + length val

  abbrev b5 : BNode
  b5 = step5 b n idx off ptr key val

  abbrev b4 : BNode
  b4 = step4 b n idx off ptr key val

  abbrev b3 : BNode
  b3 = step3 b n idx off ptr key val

  abbrev b2 : BNode
  b2 = step2 b n idx off ptr key val

  abbrev b1 : BNode
  b1 = step1 b n idx off ptr key val

  abbrev p : ℕ
  p = pos b n idx off ptr key val

  abbrev slot : ℕ
  slot = 4 + 8 * n + 2 * idx

  klen_read : read16 (put b5 slot (little_endian 2 end)) p ≡ some (length key)
  klen_read =
      read16-put b5 slot (little_endian 2 end) p
        (inl (omega (arith, length-little_endian 2 end, f.place)))
      ∙ read16-put b4 (p + 4 + length key) val p (inr (omega arith))
      ∙ read16-put b3 (p + 4) key p (inr (omega arith))
      ∙ read16-put b2 (p + 2) (little_endian 2 (length val)) p (inr (omega arith))
      ∙ read16-put_self b1 p (length key) (omega (arith, f.room)) (omega (arith, f.room, f.small))

  vlen_read : read16 (put b5 slot (little_endian 2 end)) (p + 2) ≡ some (length val)
  vlen_read =
      read16-put b5 slot (little_endian 2 end) (p + 2)
        (inl (omega (arith, length-little_endian 2 end, f.place)))
      ∙ read16-put b4 (p + 4 + length key) val (p + 2) (inr (omega arith))
      ∙ read16-put b3 (p + 4) key (p + 2) (inr (omega arith))
      ∙ read16-put_self b2 (p + 2) (length val) (omega (arith, f.room))
          (omega (arith, f.room, f.small))

  key_slice : slice (put b5 slot (little_endian 2 end)) (p + 4) (length key) ≡ some key
  unfolding slice
  key_slice =
      rw
        (
          bytes_from-overlay-Apart b5.at slot (little_endian 2 end) (p + 4) (length key)
              (inl (omega (arith, length-little_endian 2 end, f.place))),
          bytes_from-overlay-Apart b4.at (p + 4 + length key) val (p + 4) (length key)
              (inr (omega arith)),
          bytes_from-overlay b3.at (p + 4) key,
        )
        (ground (arith, f.room))

  val-slice : slice (put b5 slot (little_endian 2 end)) (p + 4 + length key) (length val) ≡ some val
  unfolding slice
  val-slice =
      rw
        (
          bytes_from-overlay-Apart b5.at slot (little_endian 2 end) (p + 4 + length key)
              (length val) (inl (omega (arith, length-little_endian 2 end, f.place))),
          bytes_from-overlay b4.at (p + 4 + length key) val,
        )
        (ground (arith, f.room))

  place_read : kv_pos (put b5 slot (little_endian 2 end)) idx ≡ some p
  place_read =
      kv_pos_lem (put b5 slot (little_endian 2 end)) n idx off Stable6.count Stable6.offset
        (omega (arith, f.room, f.small))

  get_key_lem : get_key (put b5 slot (little_endian 2 end)) idx ≡ some key
  unfolding get_key
  get_key_lem =
      rw (place_read, klen_read, unwrapped (p + 4) (omega (arith, f.room, f.small)), key_slice)

  get_val_lem : get_val (put b5 slot (little_endian 2 end)) idx ≡ some val
  unfolding get_val
  get_val_lem = rw (
    place_read,
    klen_read,
    unwrapped (p + 2) (omega (arith, f.room, f.small)),
    vlen_read,
    unwrapped (p + 4 + length key) (omega (arith, f.room, f.small)),
    val-slice,
  )

  pointer_read : ptr < 2 ^ 64 → read64 (put b5 slot (little_endian 2 end)) (4 + idx * 8) ≡ some ptr
  pointer_read h =
      ap (read64 (put b5 slot (little_endian 2 end))) (omega arith)
      ∙ read64-put b5 slot (little_endian 2 end) (4 + 8 * idx) (inr (omega (arith, f.place)))
      ∙ read64-put b4 (p + 4 + length key) val (4 + 8 * idx) (inr (omega (arith, f.place)))
      ∙ read64-put b3 (p + 4) key (4 + 8 * idx) (inr (omega (arith, f.place)))
      ∙ read64-put b2 (p + 2) (little_endian 2 (length val)) (4 + 8 * idx)
          (inr (omega (arith, f.place)))
      ∙ read64-put b1 p (little_endian 2 (length key)) (4 + 8 * idx) (inr (omega (arith, f.place)))
      ∙ read64-put_self b (4 + 8 * idx) ptr (omega (arith, f.room, f.place)) h

  getptr_lem : ptr < 2 ^ 64 → getptr (put b5 slot (little_endian 2 end)) idx ≡ some ptr
  unfolding getptr
  getptr_lem h = rw Stable6.count (ground (arith, f.place, f.room, f.small, pointer_read h))

  next_offset_lem : get_offset (put b5 slot (little_endian 2 end)) (suc idx) ≡ some end
  next_offset_lem =
      get_offset-suc (put b5 slot (little_endian 2 end)) idx
      ∙ rw
          (offset_pos_lem (put b5 slot (little_endian 2 end)) n idx Stable6.count
            (omega (arith, f.room, f.small)) f.place)
          (read16-put_self b5 slot end (omega (arith, f.room, f.place))
            (omega (arith, f.room, f.small)))

  kept_lem :
      (i : ℕ)
      → Apart (4 + 8 * idx) 8 i 1
      → Apart (4 + 8 * n + 2 * idx) 2 i 1
      → Apart (4 + 10 * n + off) (4 + length key + length val) i 1
      → (put b5 slot (little_endian 2 end)).at i ≡ b.at i
  kept_lem i a1 a2 a3 =
      overlay_outside b5.at slot (little_endian 2 end) i (rw (length-little_endian 2 end) a2)
      ∙ overlay_outside b4.at (p + 4 + length key) val i (omega arith)
      ∙ overlay_outside b3.at (p + 4) key i (omega arith)
      ∙ overlay_outside b2.at (p + 2) (little_endian 2 (length val)) i
          (rw (length-little_endian 2 (length val)) (omega arith))
      ∙ overlay_outside b1.at p (little_endian 2 (length key)) i
          (rw (length-little_endian 2 (length key)) (omega arith))
      ∙ overlay_outside b.at (4 + 8 * idx) (little_endian 8 ptr) i
          (rw (length-little_endian 8 ptr) a1)

-- Where there is room behind the entries before it, `nodeAppendKV` writes an entry that is read back whole,
-- sets the next offset behind it, and changes no byte but those of its pointer, its offset and itself.
pub node_append_kv-HasEntry :
    (b : BNode) (n idx off ptr : ℕ) (key val : Bytes)
    → Fits b n idx off ptr key val
    → ptr < 2 ^ 64
    → (b' : BNode) × (node_append_kv b idx ptr key val ≡ some b')
      × HasEntry b b' n idx off ptr key val
node_append_kv-HasEntry b n idx off ptr key val f h = (
  step6 b n idx off ptr key val,
  node_append_kv_lem b n idx off ptr key val f,
  record {
    size = refl;
    count = (Stable6 b n idx off ptr key val f).count;
    pointer = getptr_lem b n idx off ptr key val f h;
    key_read = get_key_lem b n idx off ptr key val f;
    val_read = get_val_lem b n idx off ptr key val f;
    offset = (Stable6 b n idx off ptr key val f).offset;
    next_offset = next_offset_lem b n idx off ptr key val f;
    kept = kept_lem b n idx off ptr key val f;
  },
)
