-- ===== src/Prelude/Words.antt =====
-- Machine words as native numbers: encoding/binary's byte orders, and int64 as a bit pattern.
use native.Mathlib.Nat.{pow-suc}
use Prim.Native.Nat.{ℕ, zero, suc, ◌+◌, ◌*◌, ◌/◌, ◌%◌, ◌^◌, ◌<◌, compare, Ordering}
use mathlib.Core.Path.{◌≡◌, refl}
use mathlib.Core.Bool.{Bool}
use mathlib.Core.List.{[], ◌∷◌, ◌++◌}
use native.Mathlib.Omega.{arith}
use auroradb.Prelude.Tests.{Bytes, leb, if◌then◌else◌}
use auroradb.Prelude.Lists.{length, length-append}

-- binary.BigEndian.PutUint64 and its kin: the `n` low bytes of a number, the lowest one last.
unfoldable pub big_endian : ℕ → ℕ → Bytes
big_endian zero w = []
big_endian (suc n) w = big_endian n (w / 256) ++ (w % 256) ∷ []

-- binary.BigEndian.Uint64: a number from bytes, the highest first.
unfoldable pub from_big_endian : ℕ → Bytes → ℕ
from_big_endian acc [] = acc
from_big_endian acc (b ∷ bs) = from_big_endian (acc * 256 + b) bs

-- binary.LittleEndian.PutUint64 and its kin: the lowest byte first.
unfoldable pub little_endian : ℕ → ℕ → Bytes
little_endian zero w = []
little_endian (suc n) w = (w % 256) ∷ little_endian n (w / 256)

unfoldable pub from_little_endian : Bytes → ℕ
from_little_endian [] = 0
from_little_endian (b ∷ bs) = b + 256 * from_little_endian bs

pub length-big_endian : (n w : ℕ) → length (big_endian n w) ≡ n
unfolding big_endian
length-big_endian zero w = refl
length-big_endian (suc n) w =
    omega (
      arith,
      length-append (big_endian n (w / 256)) ((w % 256) ∷ []),
      length-big_endian n (w / 256),
    )

pub length-little_endian : (n w : ℕ) → length (little_endian n w) ≡ n
unfolding little_endian
length-little_endian zero w = refl
length-little_endian (suc n) w = omega (arith, length-little_endian n (w / 256))

from_big_endian-append :
    (acc : ℕ) (xs : Bytes) (b : ℕ)
    → from_big_endian acc (xs ++ b ∷ []) ≡ from_big_endian acc xs * 256 + b
unfolding from_big_endian
from_big_endian-append acc [] b = refl
from_big_endian-append acc (x ∷ xs) b = from_big_endian-append (acc * 256 + x) xs b

pub from_big_endian-big_endian : (n w : ℕ) → w < 256 ^ n → from_big_endian 0 (big_endian n w) ≡ w
unfolding big_endian from_big_endian
from_big_endian-big_endian zero w h = omega arith
from_big_endian-big_endian (suc n) w h = omega (
  arith,
  from_big_endian-append 0 (big_endian n (w / 256)) (w % 256),
  from_big_endian-big_endian n (w / 256) (omega (arith, pow-suc 256 n)),
)

pub from_little_endian-little_endian :
    (n w : ℕ) → w < 256 ^ n → from_little_endian (little_endian n w) ≡ w
unfolding little_endian from_little_endian
from_little_endian-little_endian zero w h = omega arith
from_little_endian-little_endian (suc n) w h =
    omega (arith, from_little_endian-little_endian n (w / 256) (omega (arith, pow-suc 256 n)))

-- An int64 is its bit pattern, a number below 2 ^ 64.
abbrev pub word_mod : ℕ
word_mod = 2 ^ 64

abbrev pub sign_bit : ℕ
sign_bit = 2 ^ 63

-- The top bit is the sign.
abbrev pub negative : ℕ → Bool
negative w = leb sign_bit w

-- Go's < and == on int64, read off the two patterns: negative numbers come first.
unfoldable pub compare_int : ℕ → ℕ → Ordering
compare_int a b =
    if negative a
    then (if negative b then compare a b else Ordering.lt)
    else (if negative b then Ordering.gt else compare a b)
