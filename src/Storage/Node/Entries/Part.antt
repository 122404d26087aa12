-- ===== src/Storage/Node/Entries/Part.antt =====
-- storage/btree.go: a part of the entries of a node, as nodeAppendRange reads it.
use mathlib.Core.Path.{subst}
use auroradb.Prelude.{
  ℕ, ◌+◌, ◌-◌, ◌*◌, ◌^◌, ◌<◌, ◌≤◌, ◌≡◌, sym, ap, ◌∙◌, List, [], ◌∷◌, ◌++◌, true, false, some, Bytes,
  length, length-append, All, ltb, leb, arith,
}
use auroradb.Storage.Node.{BNode, bytes_from, put, slice, get_offset}
use auroradb.Storage.Node.Writes.{copy_lem}
use auroradb.Storage.Node.Ranges.{copy_entries}
use auroradb.Storage.Node.Agree.{AgreeOn, bytes_from-add, append-injective, length-bytes_from}
use auroradb.Storage.Node.Entries.{
  Entry, total, encodes, encodes-append, length-encodes, total-append, Pointers, Offsets, Built,
  Pointers-behind, Pointers-before, Offsets-behind, Offsets-first,
}

-- The node `b'` is `b` with these entries behind its own: the size and the type are as they were.
pub record Extends (b b' : BNode) (n : ℕ) (es : List Entry) : Type 0 where
  pub size : b'.size ≡ b.size
  pub type : AgreeOn b'.at b.at 0 2
  pub built : Built b' n es

-- All of `es` before and behind a part of them.
pub All-behind : {A : Type 0} (P : A → Type 0) (xs ys : List A) → All P (xs ++ ys) → All P ys
All-behind P [] ys h = h
All-behind P (x ∷ xs) ys (hx, h) = All-behind P xs ys h

pub All-before : {A : Type 0} (P : A → Type 0) (xs ys : List A) → All P (xs ++ ys) → All P xs
All-before P [] ys h = tt
All-before P (x ∷ xs) ys (hx, h) = (hx, All-before P xs ys h)

-- A part of the bytes of a node's entries.
pub part_of_body :
    (f : ℕ → ℕ) (pos : ℕ) (xs ys zs : List Entry)
    → bytes_from f pos (total (xs ++ (ys ++ zs))) ≡ encodes (xs ++ (ys ++ zs))
    → bytes_from f (pos + total xs) (total ys) ≡ encodes ys
part_of_body f pos xs ys zs e =
    let t1 : total (xs ++ (ys ++ zs)) ≡ total xs + (total ys + total zs) =
      omega (arith, total-append xs (ys ++ zs), total-append ys zs) in
    let split =
      sym (bytes_from-add f pos (total xs) (total ys + total zs))
      ∙ ap (bytes_from f pos) (sym t1)
      ∙ e
      ∙ encodes-append xs (ys ++ zs) in
    let behind =
      (append-injective (bytes_from f pos (total xs)) (encodes xs) _ _
        (length-bytes_from f pos (total xs) ∙ sym (length-encodes xs)) split).1 in
    let split2 =
      sym (bytes_from-add f (pos + total xs) (total ys) (total zs))
      ∙ behind
      ∙ encodes-append ys zs in
    (append-injective (bytes_from f (pos + total xs) (total ys)) (encodes ys) _ _
      (length-bytes_from f (pos + total xs) (total ys) ∙ sym (length-encodes ys)) split2).0

-- The copy of the bytes.
pub copy_entries_lem :
    (b old : BNode) (to from n : ℕ) (s : Bytes)
    → bytes_from old.at from n ≡ s
    → length s ≡ n
    → from + n ≤ old.size
    → to + n ≤ b.size
    → copy_entries b old to from (from + n) ≡ some (put b to s)
unfolding copy_entries slice
copy_entries_lem b old to from n s e len h k =
    let le : ltb (from + n) from ≡ false = ground arith in
    let d : from + n - from ≡ n = omega arith in
    let fits : leb (from + n) old.size ≡ true = ground arith in
    rw (le, d, fits, e) (copy_lem b to s (omega arith))

module _ (old : BNode) (k : ℕ) (xs ys zs : List Entry) (o : Built old k (xs ++ (ys ++ zs))) where
  pub old_places : length xs + length ys ≤ k
  old_places = omega (arith, o.places, length-append xs (ys ++ zs), length-append ys zs)

  pub old_room : 4 + 10 * k + total xs + total ys ≤ old.size
  old_room = omega (arith, o.room, total-append xs (ys ++ zs), total-append ys zs)

  pub old_words : All (λ e. e.ptr < 2 ^ 64) ys
  old_words = All-before _ ys zs (All-behind _ xs (ys ++ zs) o.words)

  pub old_pointers : Pointers old (length xs) ys
  old_pointers =
      subst (λ i. Pointers old i ys) (omega arith)
        (Pointers-before old (0 + length xs) ys zs (Pointers-behind old 0 xs (ys ++ zs) o.pointers))

  pub old-Offsets : Offsets old (length xs) (total xs) (ys ++ zs)
  old-Offsets =
      subst (λ i. Offsets old i (total xs) (ys ++ zs)) (omega arith)
        (subst (λ f. Offsets old (0 + length xs) f (ys ++ zs)) (omega arith)
          (Offsets-behind old 0 0 xs (ys ++ zs) o.offsets))

  pub old_first : get_offset old (length xs) ≡ some (total xs)
  old_first = Offsets-first old (length xs) (total xs) (ys ++ zs) old-Offsets

  pub old_last : get_offset old (length xs + length ys) ≡ some (total xs + total ys)
  old_last =
      Offsets-first old (length xs + length ys) (total xs + total ys) zs
        (Offsets-behind old (length xs) (total xs) ys zs old-Offsets)
