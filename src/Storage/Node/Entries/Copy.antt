-- ===== src/Storage/Node/Entries/Copy.antt =====
-- storage/btree.go: the loops of nodeAppendRange.
use auroradb.Prelude.{
  ℕ, suc, ◌+◌, ◌*◌, ◌%◌, ◌^◌, ◌<◌, ◌≤◌, ◌≡◌, refl, sym, ◌∙◌, ◌⊎◌, List, [], ◌∷◌, some, length, All,
  arith,
}
use auroradb.Prelude.Words.{little_endian, length-little_endian}
use auroradb.Storage.Node.{BNode, put, nkeys, get_offset, u16_mod}
use auroradb.Storage.Node.Memory.{nkeys-put}
use auroradb.Storage.Node.Ranges.{copy_ptrs, copy_offsets}
use auroradb.Storage.Node.Agree.{getptr-AgreeOn, get_offset-AgreeOn}
use auroradb.Storage.Node.Entries.{Entry, size, total, Pointers, Offsets, Offsets-first}
use auroradb.Storage.Node.Entries.Frame.{
  put-AgreeOn, setptr_lem, getptr-setptr, set_offset_lem, get_offset-set_offset,
}

-- What a loop leaves of a buffer: all but the bytes from `lo` up to `hi`.
pub record Rest (b b' : BNode) (lo hi : ℕ) : Type 0 where
  pub size : b'.size ≡ b.size
  pub count : nkeys b' ≡ nkeys b
  pub kept : (i : ℕ) → (i < lo) ⊎ (hi ≤ i) → b'.at i ≡ b.at i

-- The loop over the pointers ends, writes those of the entries, and nothing else.
pub copy_ptrs_lem :
    (b old : BNode) (n dst src : ℕ) (ys : List Entry)
    → nkeys b ≡ some n
    → 4 + 10 * n ≤ b.size
    → b.size < u16_mod
    → dst + length ys ≤ n
    → src + length ys < u16_mod
    → All (λ e. e.ptr < 2 ^ 64) ys
    → Pointers old src ys
    → (b' : BNode) × (copy_ptrs (length ys) b old dst src ≡ some b')
      × Rest b b' (4 + 8 * dst) (4 + 8 * (dst + length ys))
      × Pointers b' dst ys
unfolding copy_ptrs Pointers
copy_ptrs_lem b old n dst src [] count room small le lt w p =
    (b, refl, record { size = refl; count = refl; kept = λ i h. refl }, tt)
copy_ptrs_lem b old n dst src (y ∷ ys) count room small le lt (wy, w) (q, p) =
    let b1 = put b (4 + 8 * dst) (little_endian 8 y.ptr) in
    let len = length-little_endian 8 y.ptr in
    let c1 = nkeys-put b (4 + 8 * dst) (little_endian 8 y.ptr) (omega arith) ∙ count in
    let (b', e, r, ps) =
      copy_ptrs_lem b1 old n (suc dst) (suc src) ys c1 room small (omega arith) (omega arith) w p in
    let d : (dst + 1) % u16_mod ≡ suc dst = omega arith in
    let s : (src + 1) % u16_mod ≡ suc src = omega arith in
    (
      b',
      rw (q, setptr_lem b n count room small dst y.ptr (omega arith), d, s) e,
      record {
        size = r.size;
        count = r.count ∙ c1 ∙ sym count;
        kept = λ i h.
            r.kept i (omega arith)
            ∙ put-AgreeOn b (4 + 8 * dst) (little_endian 8 y.ptr) i (suc i) (omega arith) i
                (omega arith) (omega arith);
      },
      (
        getptr-AgreeOn b1 b' r.size n c1 (omega arith) (λ i l u. r.kept i (omega arith)) dst
              (omega arith) (λ i l u. r.kept i (omega arith))
            ∙ getptr-setptr b n count room small dst y.ptr (omega arith) wy,
        ps,
      ),
    )

-- The loop over the offsets ends, and writes those of the entries from the place `dst` on, where the offset there is
-- known and the shift leads from the one offset to the other.
pub copy_offsets_lem :
    (b old : BNode) (n dst src to from shift : ℕ) (ys : List Entry)
    → nkeys b ≡ some n
    → 4 + 10 * n ≤ b.size
    → b.size < u16_mod
    → dst + length ys ≤ n
    → src + length ys < u16_mod
    → (from + shift) % u16_mod ≡ to
    → to + total ys < u16_mod
    → from + total ys < u16_mod
    → Offsets old src from ys
    → get_offset b dst ≡ some to
    → (b' : BNode) × (copy_offsets (length ys) b old dst src shift ≡ some b')
      × Rest b b' (4 + 8 * n + 2 * dst) (4 + 8 * n + 2 * (dst + length ys))
      × Offsets b' dst to ys
unfolding copy_offsets Offsets total
copy_offsets_lem b old n dst src to from shift [] count room small le lt es ht hf o first =
    (b, refl, record { size = refl; count = refl; kept = λ i h. refl }, first)
copy_offsets_lem b old n dst src to from shift (y ∷ ys) count room small le lt es ht hf (q, o)
      first =
    let v = to + size y in
    let slot = 4 + 8 * n + 2 * dst in
    let b1 = put b slot (little_endian 2 v) in
    let len = length-little_endian 2 v in
    let c1 = nkeys-put b slot (little_endian 2 v) (omega arith) ∙ count in
    let next = get_offset-set_offset b n count room small dst v (omega arith) (omega arith) in
    let (b', e, r, os) =
      copy_offsets_lem b1 old n (suc dst) (suc src) v (from + size y) shift ys c1 room small
        (omega arith) (omega arith) (omega arith) (omega arith) (omega arith) o next in
    let d : (dst + 1) % u16_mod ≡ suc dst = omega arith in
    let s : (src + 1) % u16_mod ≡ suc src = omega arith in
    let moved : (from + size y + shift) % u16_mod ≡ v = omega arith in
    let kept : (i : ℕ)
        → (i < slot) ⊎ (4 + 8 * n + 2 * (dst + suc (length ys)) ≤ i)
        → b'.at i ≡ b.at i =
      λ i h.
        r.kept i (omega arith)
        ∙ put-AgreeOn b slot (little_endian 2 v) i (suc i) (omega arith) i (omega arith)
            (omega arith) in
    (
      b',
      rw
          (
            d,
            s,
            Offsets-first old (suc src) (from + size y) ys o,
            moved,
            set_offset_lem b n count room small dst v (omega arith),
          )
          e,
      record { size = r.size; count = r.count ∙ c1 ∙ sym count; kept = kept },
      (
        get_offset-AgreeOn b b' r.size n count (omega arith) (λ i l u. kept i (omega arith)) dst
              (omega arith) (λ i l u. kept i (omega arith))
            ∙ first,
        os,
      ),
    )
