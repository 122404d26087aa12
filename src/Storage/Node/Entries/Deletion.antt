-- ===== src/Storage/Node/Entries/Deletion.antt =====
-- storage/btree.go: what a deletion does to the list of a leaf's entries, in the order of their keys.
use mathlib.Core.Path.{subst}
use auroradb.Prelude.{
  ◌≡◌, refl, sym, ap, ◌∙◌, inl, inr, true, false, Bool-cases, List, [], ◌∷◌, ◌++◌, none, Bytes, All,
  equal, equal_refl, equal→eq, if◌then◌else◌, arith,
}
use auroradb.Prelude.Compare.{compare_bytes_swap_eq, compare_bytes→eq}
use auroradb.Storage.Node.Entries.{Entry}
use auroradb.Storage.Node.Entries.Ordered.{
  Behind, Before, Ascending, not_equal, delete_entry, find, find_first,
}

-- The two cases of a deletion.
module _ (key : Bytes) (e : Entry) (es : List Entry) where
  pub delete_at : equal key e.key ≡ true → delete_entry key (e ∷ es) ≡ es
  unfolding delete_entry
  delete_at h = rw (delete_entry, h) refl

  pub delete_behind : equal key e.key ≡ false → delete_entry key (e ∷ es) ≡ e ∷ delete_entry key es
  unfolding delete_entry
  delete_behind h = rw (delete_entry, h) refl

delete_entry-Behind :
    (a key : Bytes) (es : List Entry) → All (Behind a) es → All (Behind a) (delete_entry key es)
delete_entry-Behind a key [] h = unfold delete_entry in tt
delete_entry-Behind a key (e ∷ es) (he, hs) = elim (Bool-cases (equal key e.key)) [
  | inl same ↦ subst (All (Behind a)) (sym (delete_at key e es same)) hs
  | inr other ↦
      subst (All (Behind a)) (sym (delete_behind key e es other))
        (he, delete_entry-Behind a key es hs)
]

-- A deletion keeps the order.
pub delete_entry-Ascending :
    (key : Bytes) (es : List Entry) → Ascending es → Ascending (delete_entry key es)
unfolding Ascending
delete_entry-Ascending key [] h = unfold delete_entry in tt
delete_entry-Ascending key (e ∷ es) (he, h) = elim (Bool-cases (equal key e.key)) [
  | inl same ↦ subst Ascending (sym (delete_at key e es same)) h
  | inr other ↦
      subst Ascending (sym (delete_behind key e es other))
        (delete_entry-Behind e.key key es he, delete_entry-Ascending key es h)
]

-- A key that every entry is behind is not there.
pub find-Behind : (k : Bytes) (es : List Entry) → All (Behind k) es → find k es ≡ none
find-Behind k [] h = unfold find in refl
find-Behind k (e ∷ es) (he, hs) =
    let other : equal k e.key ≡ false =
      not_equal k e.key (λ h. (let r = compare_bytes_swap_eq k e.key h in cc)) in
    find_first k e es ∙ rw other (find-Behind k es hs)

-- After a deletion the key has no value, and every other key has the value it had.
pub find-delete_entry :
    (k key : Bytes) (es : List Entry)
    → Ascending es
    → find k (delete_entry key es) ≡ (if equal k key then none else find k es)
unfolding Ascending
find-delete_entry k key [] h = unfold delete_entry find in ground arith
find-delete_entry k key (e ∷ es) (he, h) = elim (Bool-cases (equal key e.key)) [
  | inl same ↦
      let same_key = equal→eq key e.key same in
      ap (find k) (delete_at key e es same) ∙ elim (Bool-cases (equal k key)) [
        | inl g ↦
            let gone = equal→eq k key g ∙ same_key in
            rw g (find-Behind k es (subst (λ a. All (Behind a) es) (sym gone) he))
        | inr g ↦
            let other : equal k e.key ≡ false = ap (equal k) (sym same_key) ∙ g in
            let step = find_first k e es in rw (g, step, other) refl
      ]
  | inr differs ↦
      let rest = find-delete_entry k key es h in
      let step = find_first k e es in
      ap (find k) (delete_behind key e es differs)
      ∙ find_first k e (delete_entry key es)
      ∙ elim (Bool-cases (equal k e.key)) [
        | inl same ↦
            let same_key = equal→eq k e.key same in
            let other : equal k key ≡ false =
              not_equal k key
                (λ g. (let r = compare_bytes→eq k key g in let q = equal_refl e.key in cc)) in
            rw (same, other, step, same) refl
        | inr other ↦ rw (other, rest, step, other) refl
      ]
]

-- A deletion behind entries before the key, and of entries that are all behind it.
pub delete_entry-append :
    (key : Bytes) (xs ys : List Entry)
    → All (Before key) xs
    → delete_entry key (xs ++ ys) ≡ xs ++ delete_entry key ys
delete_entry-append key [] ys h = refl
delete_entry-append key (x ∷ xs) ys (hx, h) =
    delete_behind key x (xs ++ ys) (not_equal key x.key (λ e. cc))
    ∙ ap (λ s. x ∷ s) (delete_entry-append key xs ys h)
