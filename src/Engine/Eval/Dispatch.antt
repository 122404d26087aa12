-- ===== src/Engine/Eval/Dispatch.antt =====
-- engine/executor.go: which case of `qlEval` each type of node takes.
use auroradb.Prelude.{◌≡◌, ◌||◌, true, List, [], Option, some, ◌==◌, arith}
use auroradb.Types.{Value, Record}
use auroradb.Parser.Syntax.{ql_str, ql_i64, ql_sym, ql_neg}
use auroradb.Engine.Eval.{
  Context, fresh, eval_node, is_cmp, is_logic, is_numeric, ql_cmp, ql_or_and, ql_numeric, ql_symbol,
  ql_negate,
}

module _ (env : Record) (v : Value) (kids : List (Option Context)) where
  pub eval_node_literal :
      (v.type == ql_str || v.type == ql_i64) ≡ true
      → eval_node env v kids ≡ some (record { out = v; err = [] })
  unfolding eval_node
  eval_node_literal h = ground arith

  pub eval_node_symbol : v.type ≡ ql_sym → eval_node env v kids ≡ ql_symbol env v.str
  unfolding eval_node
  eval_node_symbol h = rw (h, eval_node)

  pub eval_node_cmp : is_cmp v.type ≡ true → eval_node env v kids ≡ ql_cmp fresh v.type kids
  unfolding eval_node
  eval_node_cmp h = ground arith

  pub eval_node_logic : is_logic v.type ≡ true → eval_node env v kids ≡ ql_or_and fresh v.type kids
  unfolding eval_node
  eval_node_logic h = ground arith

  pub eval_node_numeric :
      is_numeric v.type ≡ true → eval_node env v kids ≡ ql_numeric fresh v.type kids
  unfolding eval_node
  eval_node_numeric h = ground arith

  pub eval_node_neg : v.type ≡ ql_neg → eval_node env v kids ≡ ql_negate kids
  unfolding eval_node
  eval_node_neg h = rw (h, eval_node)
