-- ===== src/Examples/Parsing.antt =====
-- Queries in ASCII.
use auroradb.Prelude.{
  ℕ, Bool, ◌≡◌, refl, [], ◌∷◌, ◌&&◌, ◌-◌, ◌*◌, ◌+◌, Option, none, some, Bytes, ◌==◌, leb, codes,
  map, if◌then◌else◌, arith,
}
use auroradb.Prelude.Tests.{equal}
use auroradb.Types.{Value, zero_value, int_value}
use auroradb.Parser.Syntax.{QlNode, node, nil, cons, ql_sym, ql_add, ql_mul, ql_neg, ql_cmp_lt}
use auroradb.Prelude.Outcome.{returns, runs_on}
use auroradb.Parser.Lexer.{
  skip_space, span, is_str, is_sym, number_at, p_num, string_at, p_str, symbol_at, p_sym,
  is_valid_keyword, any_fold,
}
use auroradb.Parser.Keywords.{
  Packages, Parser, word_at, words_at, p_keyword, expect, p_must_sym, read_num, read_str, read_sym,
}
use auroradb.Parser.Expr.{
  val_with_type, op_at, bin_loop, p_expr_bin_op, kids_loop, p_expr_tuple, atom_sym, atom_num,
  atom_str, p_expr_atom, p_expr_un_op, p_expr_mul, p_expr_add, p_expr_cmp_with, p_expr_and,
  p_expr_or_with, expr_or, p_expr_or,
}
use auroradb.Parser.Expr.Ends.{Ends, p_expr_or-Ends}
use auroradb.Parser.Statement.Ends.{p_query-Ends}
use auroradb.Parser.Statement.Create.{p_query, table_body}
use auroradb.Parser.Statement.Hang.{IsStuck, table_body_stuck}

abbrev is_digit : ℕ → Bool
is_digit c = leb b'0' c && leb c b'9'

abbrev lower : ℕ → ℕ
lower c = if leb b'A' c && leb c b'Z' then c + 32 else c

-- Digits only, and no overflow.
decimal : ℕ → Bytes → Option ℕ
decimal acc [] = some acc
decimal acc (c ∷ s) =
    let rest = decimal (acc * 10 + (c - 48)) s in if is_digit c then rest else none

abbrev ascii : Packages
unfolding decimal equal
ascii = record {
  is_space = λ c. c == 32;
  is_letter = λ c. leb b'a' (lower c) && leb (lower c) b'z';
  is_number = is_digit;
  equal_fold = λ s t. equal (map lower s) (map lower t);
  to_lower = map lower;
  atoi = λ s. elim s [ [] ↦ none | c ∷ t ↦ decimal 0 (c ∷ t) ];
}

abbrev query : Bytes → Parser
query s = record { rest = s; err = [] }

abbrev binary : ℕ → QlNode → QlNode → QlNode
binary t l r = node (val_with_type t) (cons l (cons r nil))

abbrev leaf : Value → QlNode
leaf v = node v nil

abbrev num : ℕ → QlNode
num n = leaf (int_value n)

-- Products bind closer than sums, sums closer than comparisons, and equal operators to the left.
precedence :
    p_expr_or ascii (query (codes "@a + 1 * (2 + 3) + -4 < 5"))
    ≡ returns (
      query [],
      binary ql_cmp_lt
          (binary ql_add
            (binary ql_add
              (leaf (record zero_value { type = ql_sym; str = codes "a" }))
              (binary ql_mul (num 1) (binary ql_add (num 2) (num 3))))
            (node (val_with_type ql_neg) (cons (num 4) nil)))
          (num 5),
    )
unfolding skip_space span is_str is_sym number_at p_num string_at p_str symbol_at p_sym
    is_valid_keyword any_fold word_at words_at p_keyword expect p_must_sym read_num read_str
    read_sym op_at bin_loop p_expr_bin_op kids_loop p_expr_tuple atom_sym atom_num atom_str
    p_expr_atom p_expr_un_op p_expr_mul p_expr_add p_expr_cmp_with p_expr_and p_expr_or_with expr_or
    p_expr_or decimal equal
precedence = refl

p_expr_or-Ends_example : Ends 6 (p_expr_or ascii (query (codes "(@a,1)")))
p_expr_or-Ends_example = p_expr_or-Ends ascii (query (codes "(@a,1)"))

p_query-Ends_example : Ends 18 (p_query ascii (query (codes "delete from t (( ;")))
p_query-Ends_example = p_query-Ends ascii (query (codes "delete from t (( ;"))

semicolon-IsStuck : IsStuck ascii b';' []
unfolding ascii is_str word_at is_valid_keyword any_fold decimal equal
semicolon-IsStuck = record {
  no_i = omega arith;
  no_p = omega arith;
  no_space = refl;
  no_str = refl;
  no_comma = refl;
  no_word = refl;
}

-- `create table t (;`
table_body_stuck_example : table_body ascii 1000 (query (codes ";")) (codes "t") ≡ runs_on
table_body_stuck_example =
    table_body_stuck ascii b';' [] semicolon-IsStuck 1000 (query (codes ";")) (codes "t") refl
