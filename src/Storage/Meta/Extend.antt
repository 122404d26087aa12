-- ===== src/Storage/Meta/Extend.antt =====
-- storage/disk.go: the mapping that a commit grows covers the pages it writes.
use auroradb.Prelude.{
  ℕ, zero, suc, ◌+◌, ◌*◌, ◌%◌, ◌^◌, ◌<◌, ◌≤◌, ◌≡◌, true, false, List, [], ◌∷◌, ◌++◌, ltb, inl, inr,
  refl, ◌∙◌, none, some, Bool-cases, if◌then◌else◌, arith,
}
use auroradb.Prelude.Words.{word_mod}
use auroradb.Prelude.Int64.{add_int, mul_int, less_int}
use auroradb.Storage.Pages.{Kv}
use auroradb.Storage.Meta.{total, double_until, chunk_length, map_chunk, extend_mmap}

pub less_int_small : (a b : ℕ) → a < 2 ^ 63 → b < 2 ^ 63 → less_int a b ≡ ltb a b
unfolding less_int
less_int_small a b h k = ground arith

-- What the loop finds: a length that covers the size, and the mapping stays an int.
abbrev Covers : ℕ → ℕ → ℕ → ℕ → Type 0
Covers fuel mmap_total alloc size =
    (len : ℕ) × (double_until fuel mmap_total alloc size ≡ some len)
    × (size ≤ mmap_total + len)
    × (mmap_total + len < 2 ^ 63)

-- `alloc` after a number of rounds.
unfoldable doubled : ℕ → ℕ → ℕ
doubled zero alloc = alloc
doubled (suc k) alloc = doubled k (alloc * 2)

-- A round, where nothing wraps.
double_until_round :
    (fuel mmap_total alloc size : ℕ)
    → size ≤ 2 ^ 62
    → mmap_total + alloc < 2 ^ 63
    → double_until (suc fuel) mmap_total alloc size ≡ (
        if ltb (mmap_total + alloc) size
        then double_until fuel mmap_total (alloc * 2) size
        else some alloc)
unfolding double_until add_int mul_int
double_until_round fuel mmap_total alloc size small whole =
    let sum : (mmap_total + alloc) % word_mod ≡ mmap_total + alloc = omega arith in
    let twice : alloc * 2 % word_mod ≡ alloc * 2 = omega arith in
    rw (double_until, sum, twice, less_int_small (mmap_total + alloc) size whole (omega arith)) refl

double_until-Covers :
    (k mmap_total alloc size : ℕ)
    → size ≤ 2 ^ 62
    → mmap_total + alloc < 2 ^ 63
    → size ≤ doubled k alloc
    → Covers (suc k) mmap_total alloc size
unfolding doubled
double_until-Covers zero mmap_total alloc size small whole h =
    let ends : ltb (mmap_total + alloc) size ≡ false = ground arith in
    (
      alloc,
      double_until_round 0 mmap_total alloc size small whole ∙ rw ends refl,
      omega arith,
      whole,
    )
double_until-Covers (suc k) mmap_total alloc size small whole h =
    elim (Bool-cases (ltb (mmap_total + alloc) size)) [
      | inl less ↦
          let below : mmap_total + alloc < size = ground arith in
          let (len, e, c, w) =
            double_until-Covers k mmap_total (alloc * 2) size small (omega arith) h in
          (len, double_until_round (suc k) mmap_total alloc size small whole ∙ rw less e, c, w)
      | inr covered ↦ (
        alloc,
        double_until_round (suc k) mmap_total alloc size small whole ∙ rw covered refl,
        ground arith,
        whole,
      )
    ]

-- With a chunk of length 0, which is what 64 rounds leave, a loop that goes on has no end.
double_until_endless :
    (fuel mmap_total size : ℕ)
    → less_int (add_int mmap_total 0) size ≡ true
    → double_until fuel mmap_total 0 size ≡ none
unfolding double_until mul_int
double_until_endless zero mmap_total size h = refl
double_until_endless (suc fuel) mmap_total size h =
    rw (double_until, h) (double_until_endless fuel mmap_total size h)

chunk_length_covers :
    (mmap_total size : ℕ)
    → mmap_total < size
    → size ≤ 2 ^ 62
    → (len : ℕ) × (chunk_length mmap_total size ≡ some len)
      × (size ≤ mmap_total + len)
      × (mmap_total + len < 2 ^ 63)
unfolding chunk_length doubled
chunk_length_covers mmap_total size less small =
    let first = if ltb mmap_total (2 ^ 26) then 2 ^ 26 else mmap_total in
    let same : less_int mmap_total (2 ^ 26) ≡ ltb mmap_total (2 ^ 26) =
      less_int_small mmap_total (2 ^ 26) (omega arith) (omega arith) in
    let whole : mmap_total + first < 2 ^ 63 = ground arith in
    let least : 2 ^ 26 ≤ first = ground arith in
    rw same (double_until-Covers 64 mmap_total first size small whole (omega arith))

-- The store that it leaves differs in its chunks only.
pub extend_mmap_chunks :
    (db : Kv) (size : ℕ)
    → total db.chunks < 2 ^ 63
    → size ≤ 2 ^ 62
    → (chunks : List ℕ) × (extend_mmap db size false ≡ some (record db { chunks = chunks }, true))
unfolding extend_mmap map_chunk
extend_mmap_chunks db size whole small =
    let same = less_int_small (total db.chunks) size whole (omega arith) in
    elim (Bool-cases (ltb (total db.chunks) size)) [
      | inl grows ↦
          let (len, e, c, w) = chunk_length_covers (total db.chunks) size (ground arith) small in
          (db.chunks ++ len ∷ [], rw (same, grows, e) refl)
      | inr fits ↦ (db.chunks, rw (same, fits) refl)
    ]
