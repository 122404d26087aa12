-- ===== src/Util.antt =====
-- util/util.go: a set of byte strings, and IntSliceRemove.
pub mod Remove
use auroradb.Prelude.{
  ℕ, zero, suc, Bool, true, false, List, [], ◌∷◌, none, some, Bytes, ◌==◌, equal, length, get_elem?,
  if◌then◌else◌,
}

-- The strings of the map, and no values.
pub record Set : Type 0 where
  pub store : Bytes → Bool

abbrev pub new_set : Set
new_set = record { store = λ k. false }

abbrev pub has : Set → Bytes → Bool
has s key = s.store key

-- The map with a key set or deleted.
unfoldable pub with_key : (Bytes → Bool) → Bytes → Bool → Bytes → Bool
with_key store key present k = if equal k key then present else store k

-- The method `Set`: whether the key was not there.
unfoldable pub set_key : Set → Bytes → Set × Bool
set_key s key =
    if has s key then (s, false) else (record { store = with_key s.store key true }, true)

-- The method `Del`: whether the key was there.
unfoldable pub del_key : Set → Bytes → Set × Bool
del_key s key =
    if has s key then (record { store = with_key s.store key false }, true) else (s, false)

-- `append(ls[:i], ls[i+1:]...)` at an `i` in range.
unfoldable pub cut_at : ℕ → List ℕ → List ℕ
cut_at i [] = []
cut_at zero (x ∷ ls) = ls
cut_at (suc i) (x ∷ ls) = x ∷ cut_at i ls

-- The loop, on fuel: the index stays where an element is removed.
unfoldable pub remove_loop : ℕ → ℕ → ℕ → List ℕ → List ℕ
remove_loop zero key i ls = ls
remove_loop (suc fuel) key i ls = elim (get_elem? ls i) [
  | none ↦ ls
  | some x ↦
      let removed = remove_loop fuel key i (cut_at i ls) in
      let kept = remove_loop fuel key (suc i) ls in if x == key then removed else kept
]

-- Each round removes an element or moves past one, so the length is enough fuel.
unfoldable pub int_slice_remove : ℕ → List ℕ → List ℕ
int_slice_remove key ls = remove_loop (length ls) key 0 ls
