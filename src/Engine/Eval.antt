-- ===== src/Engine/Eval.antt =====
-- engine/executor.go: the evaluation of an expression over a row. A context holds the result and the
-- chain of errors so far; the texts of the errors are not modelled. `none` is a panic.
pub mod Dispatch
pub mod Operators
pub mod Typing
pub mod Filters
use auroradb.Prelude.{
  ℕ, Bool, true, false, not, ◌&&◌, ◌||◌, List, [], ◌∷◌, ◌++◌, Option, none, some, Bytes, get_elem?,
  Ordering, ◌==◌, if◌then◌else◌,
}
use auroradb.Prelude.Panic.{◌>>=◌}
use auroradb.Prelude.Words.{compare_int}
use auroradb.Prelude.Compare.{compare_bytes}
use auroradb.Prelude.Int64.{add_int, sub_int, mul_int, div_int, mod_int, neg_int}
use auroradb.Types.{Value, Record, zero_value, get}
use auroradb.Parser.Syntax.{
  QlNode, Kids, node, nil, cons, ql_str, ql_i64, ql_sym, ql_cmp_ge, ql_cmp_gt, ql_cmp_le, ql_cmp_lt,
  ql_or, ql_and, ql_add, ql_sub, ql_mod, ql_mul, ql_div, ql_bool, ql_cmp_eq, ql_neg,
}

pub data EvalError : Type 0 where
  unknown_column neg_type invalid_kids bad_kid different_types invalid_node : EvalError

-- `QLEvalContext` without its `env`, which no code changes. No error is the empty chain.
pub record Context : Type 0 where
  pub out : Value
  pub err : List EvalError

abbrev pub fresh : Context
fresh = record { out = zero_value; err = [] }

abbrev pub ql_err : Context → EvalError → Context
ql_err ctx e = record ctx { err = ctx.err ++ e ∷ [] }

unfoldable pub failed : Context → Bool
failed ctx = elim ctx.err [ [] ↦ false | e ∷ es ↦ true ]

-- The two operands, the second only if there is one; or the context with one more error.
pub data Operands : Type 0 where
  operands : Value → Option Value → Operands
  refused : Context → Operands

-- `evalLeftRightKids`. The results of the kids come in as a list: one that the code does not ask for
-- is not read.
unfoldable pub eval_left_right_kids : Context → List (Option Context) → Option Operands
unfolding failed
eval_left_right_kids ctx [] = none
eval_left_right_kids ctx (none ∷ kids) = none
eval_left_right_kids ctx (some left ∷ []) =
    if failed left then some (refused (ql_err ctx bad_kid)) else some (operands left.out none)
eval_left_right_kids ctx (some left ∷ none ∷ kids) =
    if failed left then some (refused (ql_err ctx bad_kid)) else none
eval_left_right_kids ctx (some left ∷ some right ∷ kids) =
    if failed left
    then some (refused (ql_err ctx bad_kid))
    else if failed right
    then some (refused (ql_err ctx bad_kid))
    else if not (left.out.type == right.out.type)
    then some (refused (ql_err ctx different_types))
    else some (operands left.out (some right.out))

-- `ctx.out = types.Value{Type: t, I64: n}`
abbrev pub with_out : Context → ℕ → ℕ → Context
with_out ctx t n = record ctx { out = record { type = t; i64 = n; str = [] } }

or_zero : Option Value → Value
or_zero none = zero_value
or_zero (some v) = v

-- The switch of `qlNumeric`; `none` inside is the default, an error.
unfoldable pub numeric : ℕ → ℕ → ℕ → Option (Option ℕ)
numeric op a b =
    if op == ql_add
    then some (some (add_int a b))
    else if op == ql_sub
    then some (some (sub_int a b))
    else if op == ql_mul
    then some (some (mul_int a b))
    else if op == ql_div
    then (do q ← div_int a b; some (some q))
    else if op == ql_mod
    then (do r ← mod_int a b; some (some r))
    else if op == ql_neg
    then some (some (neg_int a))
    else some none

unfoldable pub set_numeric : Context → Option ℕ → Context
set_numeric ctx none = ql_err ctx invalid_node
set_numeric ctx (some n) = with_out ctx ql_i64 n

unfoldable pub ql_numeric_on : Context → ℕ → Operands → Option Context
unfolding set_numeric or_zero
ql_numeric_on ctx op (refused c) = some c
ql_numeric_on ctx op (operands left right) =
    if not (left.type == ql_i64)
    then some (ql_err ctx invalid_kids)
    else (do res ← numeric op left.i64 (or_zero right).i64; some (set_numeric ctx res))

unfoldable pub ql_numeric : Context → ℕ → List (Option Context) → Option Context
ql_numeric ctx op kids = do ops ← eval_left_right_kids ctx kids; ql_numeric_on ctx op ops

abbrev pub bit : Bool → ℕ
bit b = if b then 1 else 0

-- The switch of `qlOrAnd`, on whether each side is 1.
unfoldable pub logic : ℕ → Bool → Bool → Bool
logic op a b = if op == ql_or then a || b else if op == ql_and then a && b else false

unfoldable pub ql_or_and_on : Context → ℕ → Operands → Option Context
ql_or_and_on ctx op (refused c) = some c
ql_or_and_on ctx op (operands left right) =
    if not (left.type == ql_bool)
    then some (ql_err ctx invalid_kids)
    else (do r ← right; some (with_out ctx ql_bool (bit (logic op (left.i64 == 1) (r.i64 == 1)))))

unfoldable pub ql_or_and : Context → ℕ → List (Option Context) → Option Context
ql_or_and ctx op kids = do ops ← eval_left_right_kids ctx kids; ql_or_and_on ctx op ops

is_lt : Ordering → Bool
is_lt Ordering.lt = true
is_lt Ordering.eq = false
is_lt Ordering.gt = false

is_eq : Ordering → Bool
is_eq Ordering.lt = false
is_eq Ordering.eq = true
is_eq Ordering.gt = false

is_gt : Ordering → Bool
is_gt Ordering.lt = false
is_gt Ordering.eq = false
is_gt Ordering.gt = true

-- The two switches of `qlCmp`, which make the same tests on numbers and on strings.
unfoldable pub comparison : ℕ → Ordering → Bool
unfolding is_lt is_eq is_gt
comparison op c =
    if op == ql_cmp_eq
    then is_eq c
    else if op == ql_cmp_ge
    then is_eq c || is_gt c
    else if op == ql_cmp_le
    then is_eq c || is_lt c
    else if op == ql_cmp_gt
    then is_gt c
    else if op == ql_cmp_lt
    then is_lt c
    else false

unfoldable pub ql_cmp_on : Context → ℕ → Operands → Option Context
ql_cmp_on ctx op (refused c) = some c
ql_cmp_on ctx op (operands left right) =
    if not (left.type == ql_i64) && not (left.type == ql_str)
    then some (ql_err ctx invalid_kids)
    else if left.type == ql_i64
    then (do
      r ← right
      some (with_out ctx ql_bool (bit (comparison op (compare_int left.i64 r.i64)))))
    else (do
      r ← right
      some (with_out ctx ql_bool (bit (comparison op (compare_bytes left.str r.str)))))

unfoldable pub ql_cmp : Context → ℕ → List (Option Context) → Option Context
ql_cmp ctx op kids = do ops ← eval_left_right_kids ctx kids; ql_cmp_on ctx op ops

unfoldable pub is_cmp : ℕ → Bool
is_cmp t = t == ql_cmp_ge || t == ql_cmp_le || t == ql_cmp_lt || t == ql_cmp_gt || t == ql_cmp_eq

unfoldable pub is_logic : ℕ → Bool
is_logic t = t == ql_or || t == ql_and

unfoldable pub is_numeric : ℕ → Bool
is_numeric t = t == ql_add || t == ql_sub || t == ql_mul || t == ql_div || t == ql_mod

-- The case of a symbol: a pointer to the value of the column, or nil.
unfoldable pub ql_symbol : Record → Bytes → Option Context
ql_symbol env name = elim (get env name) [
  | none ↦ some (ql_err fresh unknown_column)
  | some i ↦ (do v ← get_elem? env.vals i; some (record { out = v; err = [] }))
]

unfoldable pub negate : Context → Context
negate c =
    if c.out.type == ql_i64
    then record c { out = record c.out { i64 = neg_int c.out.i64 } }
    else ql_err c neg_type

unfoldable pub ql_negate : List (Option Context) → Option Context
ql_negate [] = none
ql_negate (kid ∷ kids) = do c ← kid; some (negate c)

-- The switch of `qlEval` in a fresh context, given the results of the kids.
unfoldable pub eval_node : Record → Value → List (Option Context) → Option Context
unfolding is_cmp is_logic is_numeric
eval_node env v kids =
    if v.type == ql_str || v.type == ql_i64
    then some (record { out = v; err = [] })
    else if v.type == ql_sym
    then ql_symbol env v.str
    else if is_cmp v.type
    then ql_cmp fresh v.type kids
    else if is_logic v.type
    then ql_or_and fresh v.type kids
    else if is_numeric v.type
    then ql_numeric fresh v.type kids
    else if v.type == ql_neg
    then ql_negate kids
    else some fresh

-- `qlEval`. Each call in the program starts from a fresh context, that of a negation included.
unfoldable mutual
  pub eval : Record → QlNode → Option Context
  eval env (node v kids) = eval_node env v (eval_kids env kids)

  pub eval_kids : Record → Kids → List (Option Context)
  eval_kids env nil = []
  eval_kids env (cons n kids) = eval env n ∷ eval_kids env kids

-- `QLEvalRecordBool`: no error, or one of its two errors. It does not look at the errors of `qlEval`.
pub data Verdict : Type 0 where
  holds not_boolean fails : Verdict

unfoldable pub verdict : Context → Verdict
verdict c =
    if not (c.out.type == ql_bool) then not_boolean else if c.out.i64 == 0 then fails else holds

unfoldable pub eval_record_bool : Record → QlNode → Option Verdict
unfolding verdict
eval_record_bool rec expr = do c ← eval rec expr; some (verdict c)
