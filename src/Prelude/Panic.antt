-- ===== src/Prelude/Panic.antt =====
-- Go code that can panic: `none` is a panic (an index out of range, a nil dereference, an explicit
-- call of panic).
use Prim.Native.Nat.{ℕ, zero, suc}
use mathlib.Core.Option.{Option, none, some}
use mathlib.Core.Path.{◌≡◌, refl}
use mathlib.Core.List.{List, [], ◌∷◌}

infixl 5 ◌>>=◌ ◌>>◌
abbrev pub ◌>>=◌ {ℓ κ} : {A : Type ℓ} {B : Type κ} → Option A → (A → Option B) → Option B
none >>= f = none
some a >>= f = f a

abbrev pub ◌>>◌ {ℓ κ} : {A : Type ℓ} {B : Type κ} → Option A → Option B → Option B
m >> k = m >>= λ _. k

pub >>=_assoc {ℓ κ μ} :
    {A : Type ℓ} {B : Type κ} {C : Type μ} (m : Option A) (f : A → Option B) (k : B → Option C)
    → ((m >>= f) >>= k) ≡ (m >>= λ a. f a >>= k)
>>=_assoc none f k = refl
>>=_assoc (some a) f k = refl

pub some-injective {ℓ} : {A : Type ℓ} {a b : A} → some a ≡ some b → a ≡ b
some-injective h = cc

-- Inversion of a run that does not panic.
pub >>=-eq-some {ℓ κ} :
    {A : Type ℓ} {B : Type κ} (m : Option A) (f : A → Option B) {b : B}
    → (m >>= f) ≡ some b
    → (a : A) × (m ≡ some a) × (f a ≡ some b)
>>=-eq-some none f h = cc
>>=-eq-some (some a) f h = (a, refl, h)

-- xs[:n] and xs[n:], which panic beyond the length. (Go lets xs[:n] reach into spare capacity.)
module _ {ℓ} {A : Type ℓ} where
  unfoldable pub slice_to : ℕ → List A → Option (List A)
  slice_to zero xs = some []
  slice_to (suc n) [] = none
  slice_to (suc n) (x ∷ xs) = do r ← slice_to n xs; some (x ∷ r)

  unfoldable pub slice_from : ℕ → List A → Option (List A)
  slice_from zero xs = some xs
  slice_from (suc n) [] = none
  slice_from (suc n) (x ∷ xs) = slice_from n xs
