-- ===== src/Examples/Query.antt =====
-- A number of a query.
use auroradb.Prelude.{
  ℕ, Bool, ◌≡◌, refl, true, [], ◌∷◌, ◌&&◌, ◌-◌, ◌*◌, ◌+◌, Option, none, some, Bytes, ◌==◌, leb,
  codes,
}
use auroradb.Types.{zero_value, int_value}
use auroradb.Parser.Lexer.{p_num}
use auroradb.Parser.Lexer.Tokens.{stops, p_num-append}

abbrev ascii_space : ℕ → Bool
ascii_space c = c == 32

abbrev ascii_digit : ℕ → Bool
ascii_digit c = leb 48 c && leb c 57

-- Of two digits.
abbrev two_digits : Bytes → Option ℕ
two_digits (a ∷ b ∷ []) = some ((a - 48) * 10 + (b - 48))
two_digits s = none

p_num-append_example :
    p_num ascii_space ascii_digit two_digits (codes "  42 ") zero_value
    ≡ (codes " ", int_value 42, true)
unfolding stops
p_num-append_example =
    p_num-append ascii_space ascii_digit two_digits (codes "  ") (codes "2") (codes " ") 52 42
      zero_value (refl, (refl, tt)) refl (refl, (refl, tt)) refl refl
