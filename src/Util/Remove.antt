-- ===== src/Util/Remove.antt =====
-- util/util.go: what IntSliceRemove leaves.
use auroradb.Prelude.{
  ℕ, zero, suc, ◌≤◌, ◌≡◌, refl, List, [], ◌∷◌, ◌++◌, append_assoc, length, get_elem?, some, none,
  ◌==◌, if◌then◌else◌, arith, inl, inr, Bool-cases,
}
use auroradb.Util.{cut_at, remove_loop, int_slice_remove}

-- The elements other than the key, in their order.
unfoldable pub without : ℕ → List ℕ → List ℕ
without key [] = []
without key (x ∷ ls) = let rest = without key ls in if x == key then rest else x ∷ rest

get_elem?-append :
    (xs : List ℕ) (y : ℕ) (ys : List ℕ) → get_elem? (xs ++ y ∷ ys) (length xs) ≡ some y
get_elem?-append [] y ys = refl
get_elem?-append (x ∷ xs) y ys = ground (arith, get_elem?-append xs y ys)

get_elem?-end : (xs : List ℕ) → get_elem? (xs ++ []) (length xs) ≡ none
get_elem?-end [] = refl
get_elem?-end (x ∷ xs) = ground (arith, get_elem?-end xs)

cut_at-append : (xs : List ℕ) (y : ℕ) (ys : List ℕ) → cut_at (length xs) (xs ++ y ∷ ys) ≡ xs ++ ys
unfolding cut_at
cut_at-append [] y ys = refl
cut_at-append (x ∷ xs) y ys = ground (arith, cut_at-append xs y ys)

length-snoc : (xs : List ℕ) (y : ℕ) → length (xs ++ y ∷ []) ≡ suc (length xs)
length-snoc [] y = refl
length-snoc (x ∷ xs) y = ground (arith, length-snoc xs y)

-- Behind the elements that were kept, the loop removes the key from the rest.
remove_loop_lem :
    (fuel key : ℕ) (xs ys : List ℕ)
    → length ys ≤ fuel
    → remove_loop fuel key (length xs) (xs ++ ys) ≡ xs ++ without key ys
unfolding remove_loop without
remove_loop_lem zero key xs [] le = refl
remove_loop_lem zero key xs (y ∷ ys) le = absurd (omega arith)
remove_loop_lem (suc fuel) key xs [] le = rw (remove_loop, get_elem?-end xs)
remove_loop_lem (suc fuel) key xs (y ∷ ys) le = elim (Bool-cases (y == key)) [
  | inl same ↦
      rw (remove_loop, get_elem?-append xs y ys, same, cut_at-append xs y ys)
        (remove_loop_lem fuel key xs ys (omega arith))
  | inr other ↦ rw (
    remove_loop,
    get_elem?-append xs y ys,
    other,
    ← append_assoc xs (y ∷ []) ys,
    ← length-snoc xs y,
    remove_loop_lem fuel key (xs ++ y ∷ []) ys (omega arith),
    append_assoc xs (y ∷ []) (without key ys),
  )
]

-- The loop that removes in place leaves exactly the elements other than the key, in their order.
pub int_slice_remove-without : (key : ℕ) (ls : List ℕ) → int_slice_remove key ls ≡ without key ls
unfolding int_slice_remove
int_slice_remove-without key ls = remove_loop_lem (length ls) key [] ls (omega arith)
