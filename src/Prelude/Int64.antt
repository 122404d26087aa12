-- ===== src/Prelude/Int64.antt =====
-- Go's int64 arithmetic on bit patterns: it wraps, and division truncates toward zero.
use Prim.Native.Nat.{ℕ, ◌+◌, ◌-◌, ◌*◌, ◌/◌, ◌%◌, ◌^◌}
use mathlib.Core.Bool.{Bool, not}
use mathlib.Core.Option.{Option, none, some}
use auroradb.Prelude.Tests.{ltb, ◌==◌, if◌then◌else◌}
use auroradb.Prelude.Words.{word_mod, negative}

unfoldable pub add_int : ℕ → ℕ → ℕ
add_int a b = (a + b) % word_mod

unfoldable pub sub_int : ℕ → ℕ → ℕ
sub_int a b = (a + word_mod - b) % word_mod

unfoldable pub mul_int : ℕ → ℕ → ℕ
mul_int a b = a * b % word_mod

-- `<` on the bit patterns of two int64s.
unfoldable pub less_int : ℕ → ℕ → Bool
less_int a b = ltb ((a + 2 ^ 63) % word_mod) ((b + 2 ^ 63) % word_mod)

unfoldable pub neg_int : ℕ → ℕ
neg_int a = (word_mod - a) % word_mod

-- The absolute value, as an unsigned number.
unfoldable pub magnitude : ℕ → ℕ
magnitude a = if negative a then word_mod - a else a

-- Whether exactly one of the two is negative.
opposite : ℕ → ℕ → Bool
opposite a b = if negative a then not (negative b) else negative b

-- The quotient of the absolute values with the sign that the operands give; `none` is the panic of a
-- division by zero. The smallest int64 divided by -1 wraps to itself.
unfoldable pub div_int : ℕ → ℕ → Option ℕ
unfolding magnitude neg_int opposite
div_int a b =
    let q = magnitude a / magnitude b in
    if b == 0 then none else some (if opposite a b then neg_int q else q)

-- The remainder has the sign of the dividend.
unfoldable pub mod_int : ℕ → ℕ → Option ℕ
unfolding magnitude neg_int
mod_int a b =
    let r = magnitude a % magnitude b in
    if b == 0 then none else some (if negative a then neg_int r else r)
