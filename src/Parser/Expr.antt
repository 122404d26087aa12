-- ===== src/Parser/Expr.antt =====
-- parser/parser.go: expressions. Every function of the descent is called with a new node, and gives what it makes
-- of it. The expression in parentheses is `inner`, and only `expr_or` calls itself, on fuel.
pub mod Shrinks
pub mod Ends
use auroradb.Prelude.{
  ℕ, zero, suc, true, false, List, [], ◌∷◌, Option, none, some, Bytes, codes, length,
}
use auroradb.Types.{Value, zero_value}
use auroradb.Parser.Syntax.{
  QlNode, Kids, node, nil, cons, ql_or, ql_and, ql_cmp_le, ql_cmp_ge, ql_cmp_eq, ql_cmp_lt,
  ql_cmp_gt, ql_add, ql_sub, ql_mul, ql_div, ql_mod, ql_neg, ql_tup,
}
use auroradb.Prelude.Outcome.{Outcome, returns, panics, runs_on, ◌>>=◌}
use auroradb.Parser.Keywords.{
  Packages, Parser, p_err, p_keyword, expect, read_num, read_str, read_sym,
}

-- What a function leaves: the parser and the node.
abbrev pub Parsed : Type 0
Parsed = Outcome (Parser × QlNode)

-- `valWithType`
abbrev pub val_with_type : ℕ → Value
val_with_type t = record zero_value { type = t }

abbrev pub or_ops : List (Bytes × ℕ)
or_ops = (codes "or", ql_or) ∷ []

abbrev pub and_ops : List (Bytes × ℕ)
and_ops = (codes "and", ql_and) ∷ []

abbrev pub cmp_ops : List (Bytes × ℕ)
cmp_ops =
    (codes "<=", ql_cmp_le)
    ∷ (codes ">=", ql_cmp_ge)
    ∷ (codes "==", ql_cmp_eq)
    ∷ (codes "<", ql_cmp_lt)
    ∷ (codes ">", ql_cmp_gt)
    ∷ []

abbrev pub add_ops : List (Bytes × ℕ)
add_ops = (codes "+", ql_add) ∷ (codes "-", ql_sub) ∷ []

abbrev pub mul_ops : List (Bytes × ℕ)
mul_ops = (codes "*", ql_mul) ∷ (codes "/", ql_div) ∷ (codes "%", ql_mod) ∷ []

-- The end of `pExprTuple`.
abbrev pub tuple_of : QlNode → Kids → QlNode
tuple_of first nil = first
tuple_of first (cons k ks) = node (val_with_type ql_tup) (cons first (cons k ks))

module _ (g : Packages) where
  -- The loop over the operators: the first that stands at the parser.
  unfoldable pub op_at : List (Bytes × ℕ) → Parser → Option (Parser × ℕ)
  op_at [] p = none
  op_at ((op, t) ∷ ops) p = elim (p_keyword g p (op ∷ [])) [
    | none ↦ op_at ops p
    | some p1 ↦ some (p1, t)
  ]

  module _ (next : Parser → Parsed) (ops : List (Bytes × ℕ)) where
    -- The loop `for more`; each round reads an operator.
    unfoldable pub bin_loop : ℕ → QlNode → Parser → Parsed
    bin_loop zero left p = runs_on
    bin_loop (suc fuel) left p = elim (op_at ops p) [
      | none ↦ returns (p, left)
      | some (p1, t) ↦ (do
        (p2, right) ← next p1
        bin_loop fuel (node (val_with_type t) (cons left (cons right nil))) p2)
    ]

    unfoldable pub p_expr_bin_op : Parser → Parsed
    p_expr_bin_op p = do (p1, left) ← next p; bin_loop (suc (length p1.rest)) left p1

  -- The loop of `pExprTuple`; each round reads a comma.
  unfoldable pub kids_loop : (Parser → Parsed) → ℕ → Parser → Outcome (Parser × Kids)
  kids_loop inner zero p = runs_on
  kids_loop inner (suc fuel) p = elim (p_keyword g p (codes "," ∷ [])) [
    | none ↦ returns (p, nil)
    | some p1 ↦ (do (p2, k) ← inner p1; (p3, ks) ← kids_loop inner fuel p2; returns (p3, cons k ks))
  ]

  unfoldable pub p_expr_tuple : (Parser → Parsed) → Parser → Parsed
  p_expr_tuple inner p = do
    (p1, first) ← inner p
    (p2, ks) ← kids_loop inner (suc (length p1.rest)) p1
    returns (p2, tuple_of first ks)

  -- The last cases of `pExprAtom`: a refused number has set the type.
  unfoldable pub atom_str : Parser → Value → Parser × Value
  atom_str p v =
      let (p1, w, ok) = read_str g p v in
      elim ok [ true ↦ (p1, w) | false ↦ (p_err p1 (codes "expected symbol, number or string"), w) ]

  unfoldable pub atom_num : Parser → Value → Parser × Value
  atom_num p v =
      let (p1, w, ok) = read_num g p v in elim ok [ true ↦ (p1, w) | false ↦ atom_str p1 w ]

  unfoldable pub atom_sym : Parser → Value → Parser × Value
  atom_sym p v =
      let (p1, w, ok) = read_sym g p v in elim ok [ true ↦ (p1, w) | false ↦ atom_num p1 w ]

  module _ (inner : Parser → Parsed) where
    unfoldable pub p_expr_atom : Parser → Parsed
    p_expr_atom p = elim (p_keyword g p (codes "(" ∷ [])) [
      | some p1 ↦ (do
        (p2, n) ← p_expr_tuple inner p1
        returns (expect g p2 (codes ")") (codes "unclosed paranthesis"), n))
      | none ↦ let (p1, v) = atom_sym p zero_value in returns (p1, node v nil)
    ]

    unfoldable pub p_expr_un_op : Parser → Parsed
    p_expr_un_op p = elim (p_keyword g p (codes "-" ∷ [])) [
      | some p1 ↦ (do
        (p2, n) ← p_expr_atom p1
        returns (p2, node (val_with_type ql_neg) (cons n nil)))
      | none ↦ p_expr_atom p
    ]

    unfoldable pub p_expr_mul : Parser → Parsed
    p_expr_mul = p_expr_bin_op p_expr_un_op mul_ops

    unfoldable pub p_expr_add : Parser → Parsed
    p_expr_add = p_expr_bin_op p_expr_mul add_ops

    unfoldable pub p_expr_cmp_with : Parser → Parsed
    p_expr_cmp_with = p_expr_bin_op p_expr_add cmp_ops

    unfoldable pub p_expr_and : Parser → Parsed
    p_expr_and = p_expr_bin_op p_expr_cmp_with and_ops

    unfoldable pub p_expr_or_with : Parser → Parsed
    p_expr_or_with = p_expr_bin_op p_expr_and or_ops

  -- One parenthesis is read for each fuel.
  unfoldable pub expr_or : ℕ → Parser → Parsed
  expr_or zero p = runs_on
  expr_or (suc fuel) p = p_expr_or_with (expr_or fuel) p

  unfoldable pub p_expr_or : Parser → Parsed
  p_expr_or p = expr_or (suc (length p.rest)) p

  unfoldable pub p_expr_cmp : Parser → Parsed
  p_expr_cmp p = p_expr_cmp_with (expr_or (suc (length p.rest))) p

  unfoldable pub p_tuple : Parser → Parsed
  p_tuple p = p_expr_tuple (expr_or (suc (length p.rest))) p
