-- ===== src/Examples/Filter.antt =====
-- Filters over a small row.
use auroradb.Prelude.{
  ℕ, ◌≡◌, ◌≢◌, refl, sym, none, Bool, false, not, ◌&&◌, ◌||◌, [], ◌∷◌, some, codes, arith,
}
use mathlib.Core.Path.{subst}
use auroradb.Prelude.Tests.{equal}
use auroradb.Prelude.Words.{compare_int}
use auroradb.Types.{Record, int_value, get}
use auroradb.Parser.Syntax.{
  QlNode, node, nil, ql_sym, ql_bool, ql_and, ql_or, ql_neg, ql_div, ql_cmp_lt, ql_cmp_gt,
  ql_cmp_ge, ql_cmp_le, ql_cmp_eq,
}
use auroradb.Engine.Eval.{
  Context, eval, eval_node, ql_symbol, ql_cmp, ql_cmp_on, comparison, eval_left_right_kids,
  eval_record_bool, is_cmp,
}
use auroradb.Engine.Eval.Typing.{
  integer, boolean, Typed, IsNonZero, number, column, compared, divided, Evaluates, eval-Evaluates,
  eval-is_division,
}
use auroradb.Engine.Eval.Filters.{
  judge, binary, unary, eval_record_bool_logic, eval_record_bool_cmp, eval_record_bool_neg,
}

abbrev row : Record
row = record { cols = codes "id" ∷ codes "n" ∷ []; vals = int_value 7 ∷ int_value 2 ∷ [] }

abbrev int_node : ℕ → QlNode
int_node n = node (int_value n) nil

abbrev id_node : QlNode
id_node = node (record { type = ql_sym; i64 = 0; str = codes "id" }) nil

id_found : get row (codes "id") ≡ some 0
unfolding get equal
id_found = refl

id-Typed : Typed row id_node integer
id-Typed = column _ nil 0 (int_value 7) integer refl id_found refl tt refl

abbrev n_node : QlNode
n_node = node (record { type = ql_sym; i64 = 0; str = codes "n" }) nil

n_value : eval row n_node ≡ some (record { out = int_value 2; err = [] })
unfolding eval eval_node ql_symbol get equal
n_value = refl

n-Typed : Typed row n_node integer
unfolding get equal
n-Typed = column _ nil 1 (int_value 2) integer refl refl refl tt refl

-- id / n < 5
abbrev small : QlNode
small = binary ql_cmp_lt (binary ql_div id_node n_node) (int_node 5)

small-Typed : Typed row small boolean
unfolding is_cmp
small-Typed =
    compared _ _ _ nil integer refl tt
      (divided _ id_node n_node nil refl id-Typed n-Typed
        (subst IsNonZero (sym n_value) (omega arith)))
      (number _ nil refl)

-- The same row with 0 in the column n.
abbrev zero_row : Record
zero_row = record { cols = row.cols; vals = int_value 7 ∷ int_value 0 ∷ [] }

zero_value_read : eval zero_row n_node ≡ some (record { out = int_value 0; err = [] })
unfolding eval eval_node ql_symbol get equal
zero_value_read = refl

zero-Typed : Typed zero_row n_node integer
unfolding get equal
zero-Typed = column _ nil 1 (int_value 0) integer refl refl refl tt refl

eval-is_division_example : eval zero_row (binary ql_div (int_node 1) n_node) ≡ none
eval-is_division_example =
    eval-is_division zero_row (record { type = ql_div; i64 = 0; str = [] }) (int_node 1) n_node nil
      (record { out = int_value 0; err = [] }) refl (number _ nil refl) zero-Typed zero_value_read
      refl

eval-Evaluates_example : Evaluates boolean (eval row small)
eval-Evaluates_example = eval-Evaluates row small boolean small-Typed

eval_record_bool_logic_example :
    (a : Bool) × (b : Bool) × (eval_record_bool row small ≡ some (judge a))
    × (eval_record_bool row small ≡ some (judge b))
    × (eval_record_bool row (binary ql_and small small) ≡ some (judge (a && b)))
    × (eval_record_bool row (binary ql_or small small) ≡ some (judge (a || b)))
eval_record_bool_logic_example = eval_record_bool_logic row small small small-Typed small-Typed

eval_record_bool_cmp_example :
    (lt : Bool) × (gt : Bool) × (eval_record_bool row (binary ql_cmp_lt id_node (int_node 2))
      ≡ some (judge lt))
    × (eval_record_bool row (binary ql_cmp_gt id_node (int_node 2)) ≡ some (judge gt))
    × (eval_record_bool row (binary ql_cmp_ge id_node (int_node 2)) ≡ some (judge (not lt)))
    × (eval_record_bool row (binary ql_cmp_le id_node (int_node 2)) ≡ some (judge (not gt)))
    × (eval_record_bool row (binary ql_cmp_eq id_node (int_node 2))
        ≡ some (judge (not lt && not gt)))
    × (lt && gt ≡ false)
eval_record_bool_cmp_example =
    eval_record_bool_cmp row integer id_node (int_node 2) tt id-Typed (number _ nil refl)

-- 1 < 2
abbrev true_node : QlNode
true_node = binary ql_cmp_lt (int_node 1) (int_node 2)

abbrev true_context : Context
true_context = record { out = record { type = ql_bool; i64 = 1; str = [] }; err = [] }

true_evaluated : eval row true_node ≡ some true_context
unfolding eval eval_node ql_cmp ql_cmp_on comparison eval_left_right_kids compare_int
true_evaluated = refl

eval_record_bool_neg_example :
    (d : Context) × (eval row (unary ql_neg true_node) ≡ some d)
    × (d.err ≢ [])
    × (eval_record_bool row (unary ql_neg true_node) ≡ eval_record_bool row true_node)
eval_record_bool_neg_example = eval_record_bool_neg row true_node true_context true_evaluated refl
