-- ===== src/Prelude/Compare.antt =====
-- Three-way comparison: bytes.Compare, and comparison by a first and then a second criterion.
use native.Mathlib.Nat.{pow-suc}
use Prim.Native.Nat.{ℕ, zero, suc, ◌/◌, ◌%◌, ◌^◌, ◌<◌, compare, Ordering}
use mathlib.Core.Path.{◌≡◌, refl, sym, ◌∙◌}
use mathlib.Core.Logic.{◌⊎◌, inl, inr}
use mathlib.Core.List.{[], ◌∷◌, ◌++◌}
use native.Mathlib.Omega.{arith}
use auroradb.Prelude.Tests.{Bytes}
use auroradb.Prelude.Lists.{length}
use auroradb.Prelude.Words.{big_endian, length-big_endian}

infixr 40 ◌then_by◌
abbrev pub ◌then_by◌ : Ordering → Ordering → Ordering
Ordering.lt then_by o = Ordering.lt
Ordering.eq then_by o = o
Ordering.gt then_by o = Ordering.gt

-- bytes.Compare and strings.Compare: the first byte that differs decides, and a prefix is less.
unfoldable pub compare_bytes : Bytes → Bytes → Ordering
compare_bytes [] [] = Ordering.eq
compare_bytes [] (y ∷ ys) = Ordering.lt
compare_bytes (x ∷ xs) [] = Ordering.gt
compare_bytes (x ∷ xs) (y ∷ ys) = compare x y then_by compare_bytes xs ys

pub then_by_assoc : (a b c : Ordering) → ((a then_by b) then_by c) ≡ (a then_by (b then_by c))
then_by_assoc Ordering.lt b c = refl
then_by_assoc Ordering.eq b c = refl
then_by_assoc Ordering.gt b c = refl

pub then_by-eq : (a : Ordering) → (a then_by Ordering.eq) ≡ a
then_by-eq Ordering.lt = refl
then_by-eq Ordering.eq = refl
then_by-eq Ordering.gt = refl

pub Ordering-cases : (o : Ordering) → (o ≡ Ordering.lt) ⊎ (o ≡ Ordering.eq) ⊎ (o ≡ Ordering.gt)
Ordering-cases Ordering.lt = inl refl
Ordering-cases Ordering.eq = inr (inl refl)
Ordering-cases Ordering.gt = inr (inr refl)

pub compare_bytes_refl : (s : Bytes) → compare_bytes s s ≡ Ordering.eq
unfolding compare_bytes
compare_bytes_refl [] = refl
compare_bytes_refl (x ∷ xs) = ground (arith, compare_bytes_refl xs)

pub compare_bytes→eq : (s t : Bytes) → compare_bytes s t ≡ Ordering.eq → s ≡ t
unfolding compare_bytes
compare_bytes→eq [] [] h = refl
compare_bytes→eq [] (y ∷ ys) h = ground arith
compare_bytes→eq (x ∷ xs) [] h = ground arith
compare_bytes→eq (x ∷ xs) (y ∷ ys) h = ground (arith, compare_bytes→eq xs ys)

-- Behind heads of one length, the heads decide first.
pub compare_bytes-append :
    (xs ys s t : Bytes)
    → length xs ≡ length ys
    → compare_bytes (xs ++ s) (ys ++ t) ≡ (compare_bytes xs ys then_by compare_bytes s t)
unfolding compare_bytes
compare_bytes-append [] [] s t h = refl
compare_bytes-append [] (y ∷ ys) s t h = absurd (omega arith)
compare_bytes-append (x ∷ xs) [] s t h = absurd (omega arith)
compare_bytes-append (x ∷ xs) (y ∷ ys) s t h =
    ground (arith, compare_bytes-append xs ys s t (omega arith))

compare_last :
    (a b : ℕ)
    → compare a b
      ≡ (compare (a / 256) (b / 256) then_by compare_bytes ((a % 256) ∷ []) ((b % 256) ∷ []))
unfolding compare_bytes
compare_last a b = ground arith

-- Big-endian bytes are ordered as the numbers are.
pub compare_bytes-big_endian :
    (n a b : ℕ)
    → a < 256 ^ n
    → b < 256 ^ n
    → compare_bytes (big_endian n a) (big_endian n b) ≡ compare a b
unfolding big_endian
compare_bytes-big_endian zero a b h k = unfold compare_bytes in ground arith
compare_bytes-big_endian (suc n) a b h k = ground (
  arith,
  compare_bytes-append (big_endian n (a / 256)) (big_endian n (b / 256)) ((a % 256) ∷ [])
      ((b % 256) ∷ []) (length-big_endian n (a / 256) ∙ sym (length-big_endian n (b / 256))),
  compare_bytes-big_endian n (a / 256) (b / 256) (omega (arith, pow-suc 256 n))
      (omega (arith, pow-suc 256 n)),
  compare_last a b,
)

pub compare_bytes_trans :
    (a b c : Bytes)
    → compare_bytes a b ≡ Ordering.gt
    → compare_bytes b c ≡ Ordering.gt
    → compare_bytes a c ≡ Ordering.gt
unfolding compare_bytes
compare_bytes_trans [] [] c h k = ground arith
compare_bytes_trans [] (y ∷ b) c h k = ground arith
compare_bytes_trans (x ∷ a) [] [] h k = refl
compare_bytes_trans (x ∷ a) [] (z ∷ c) h k = ground arith
compare_bytes_trans (x ∷ a) (y ∷ b) [] h k = refl
compare_bytes_trans (x ∷ a) (y ∷ b) (z ∷ c) h k = ground (arith, compare_bytes_trans a b c)

pub compare_bytes_swap :
    (a b : Bytes) → compare_bytes a b ≡ Ordering.lt → compare_bytes b a ≡ Ordering.gt
unfolding compare_bytes
compare_bytes_swap [] [] h = ground arith
compare_bytes_swap [] (y ∷ b) h = refl
compare_bytes_swap (x ∷ a) [] h = ground arith
compare_bytes_swap (x ∷ a) (y ∷ b) h = ground (arith, compare_bytes_swap a b)

pub compare_bytes_swap_gt :
    (a b : Bytes) → compare_bytes a b ≡ Ordering.gt → compare_bytes b a ≡ Ordering.lt
unfolding compare_bytes
compare_bytes_swap_gt [] [] h = ground arith
compare_bytes_swap_gt [] (y ∷ b) h = ground arith
compare_bytes_swap_gt (x ∷ a) [] h = refl
compare_bytes_swap_gt (x ∷ a) (y ∷ b) h = ground (arith, compare_bytes_swap_gt a b)

pub compare_bytes_swap_eq :
    (a b : Bytes) → compare_bytes a b ≡ Ordering.eq → compare_bytes b a ≡ Ordering.eq
unfolding compare_bytes
compare_bytes_swap_eq [] [] h = refl
compare_bytes_swap_eq [] (y ∷ b) h = ground arith
compare_bytes_swap_eq (x ∷ a) [] h = ground arith
compare_bytes_swap_eq (x ∷ a) (y ∷ b) h = ground (arith, compare_bytes_swap_eq a b)
