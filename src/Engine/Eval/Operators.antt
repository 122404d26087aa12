-- ===== src/Engine/Eval/Operators.antt =====
-- engine/executor.go: what the operators give on two operands that evaluated with no error.
use auroradb.Prelude.{ℕ, ◌≡◌, sym, ◌∙◌, List, [], ◌∷◌, Option, some, ◌==◌, arith}
use auroradb.Prelude.Panic.{◌>>=◌}
use auroradb.Prelude.Words.{compare_int}
use auroradb.Prelude.Compare.{compare_bytes}
use auroradb.Parser.Syntax.{ql_str, ql_i64, ql_bool}
use auroradb.Engine.Eval.{
  Context, fresh, operands, eval_left_right_kids, ql_cmp, ql_cmp_on, ql_or_and, ql_or_and_on,
  ql_numeric, ql_numeric_on, comparison, logic, numeric, set_numeric, with_out, bit,
}

module _ (op : ℕ) (l r : Context) (kids : List (Option Context)) (cl : l.err ≡ [])
    (cr : r.err ≡ []) where
  operands_clean :
      l.out.type ≡ r.out.type
      → eval_left_right_kids fresh (some l ∷ some r ∷ kids) ≡ some (operands l.out (some r.out))
  unfolding eval_left_right_kids
  operands_clean h = ground arith

  pub ql_cmp_strings :
      l.out.type ≡ ql_str
      → r.out.type ≡ ql_str
      → ql_cmp fresh op (some l ∷ some r ∷ kids)
        ≡ some (with_out fresh ql_bool (bit (comparison op (compare_bytes l.out.str r.out.str))))
  unfolding ql_cmp ql_cmp_on
  ql_cmp_strings tl tr = rw (operands_clean (tl ∙ sym tr), tl)

  pub ql_cmp_numbers :
      l.out.type ≡ ql_i64
      → r.out.type ≡ ql_i64
      → ql_cmp fresh op (some l ∷ some r ∷ kids)
        ≡ some (with_out fresh ql_bool (bit (comparison op (compare_int l.out.i64 r.out.i64))))
  unfolding ql_cmp ql_cmp_on
  ql_cmp_numbers tl tr = rw (operands_clean (tl ∙ sym tr), tl)

  pub ql_or_and_bits :
      l.out.type ≡ ql_bool
      → r.out.type ≡ ql_bool
      → ql_or_and fresh op (some l ∷ some r ∷ kids)
        ≡ some (with_out fresh ql_bool (bit (logic op (l.out.i64 == 1) (r.out.i64 == 1))))
  unfolding ql_or_and ql_or_and_on
  ql_or_and_bits tl tr = rw (operands_clean (tl ∙ sym tr), tl)

  pub ql_numeric_numbers :
      l.out.type ≡ ql_i64
      → r.out.type ≡ ql_i64
      → ql_numeric fresh op (some l ∷ some r ∷ kids)
        ≡ (do res ← numeric op l.out.i64 r.out.i64; some (set_numeric fresh res))
  unfolding ql_numeric ql_numeric_on
  ql_numeric_numbers tl tr = rw (operands_clean (tl ∙ sym tr), tl)
