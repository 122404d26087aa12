-- ===== src/Engine/Eval/Filters.antt =====
-- engine/executor.go: `QLEvalRecordBool` on typed filters, and on a negated one.
use mathlib.Core.List.{concat-ne-nil}
use auroradb.Prelude.{
  ℕ, ◌≡◌, ◌≢◌, refl, sym, ◌∙◌, ap, Bool, true, false, not, ◌&&◌, ◌||◌, [], ◌∷◌, ◌++◌, some,
  Ordering, ◌==◌, if◌then◌else◌, arith,
}
use auroradb.Prelude.Words.{compare_int}
use auroradb.Prelude.Compare.{compare_bytes}
use auroradb.Types.{Record}
use auroradb.Parser.Syntax.{
  QlNode, node, nil, cons, ql_bool, ql_or, ql_and, ql_neg, ql_cmp_lt, ql_cmp_le, ql_cmp_gt,
  ql_cmp_ge, ql_cmp_eq,
}
use auroradb.Engine.Eval.{
  is_cmp, is_logic, Context, fresh, with_out, bit, logic, comparison, neg_type, eval, eval_kids,
  eval_record_bool, verdict, Verdict, holds, fails, negate, ql_negate,
}
use auroradb.Engine.Eval.Operators.{ql_cmp_strings, ql_cmp_numbers, ql_or_and_bits}
use auroradb.Engine.Eval.Dispatch.{eval_node_cmp, eval_node_logic, eval_node_neg}
use auroradb.Engine.Eval.Typing.{
  Ty, string, integer, boolean, HasTy, IsScalar, Typed, eval-Evaluates,
}

-- The verdict on a Boolean.
abbrev pub judge : Bool → Verdict
judge b = if b then holds else fails

-- An expression with two operands.
abbrev pub binary : ℕ → QlNode → QlNode → QlNode
binary op l r = node (record { type = op; i64 = 0; str = [] }) (cons l (cons r nil))

abbrev pub unary : ℕ → QlNode → QlNode
unary op l = node (record { type = op; i64 = 0; str = [] }) (cons l nil)

verdict-bit : (b : Bool) → verdict (with_out fresh ql_bool (bit b)) ≡ judge b
unfolding verdict
verdict-bit true = refl
verdict-bit false = refl

verdict_typed : (c : Context) → HasTy boolean c.out → verdict c ≡ judge (c.out.i64 == 1)
unfolding verdict
verdict_typed c h = ground arith

eval_record_bool_lem :
    (env : Record) (n : QlNode) (c : Context)
    → eval env n ≡ some c
    → eval_record_bool env n ≡ some (verdict c)
unfolding eval_record_bool
eval_record_bool_lem env n c e = rw e

-- The two operators on typed sides.
module _ (env : Record) (op : ℕ) (l r : QlNode) (a b : Context) (ea : eval env l ≡ some a)
    (eb : eval env r ≡ some b) (ca : a.err ≡ []) (cb : b.err ≡ []) where
  logic_verdict :
      is_logic op ≡ true
      → HasTy boolean a.out
      → HasTy boolean b.out
      → eval_record_bool env (binary op l r)
        ≡ some (judge (logic op (a.out.i64 == 1) (b.out.i64 == 1)))
  unfolding eval_record_bool eval
  logic_verdict h ta tb = rw (
    eval_node_logic env (record { type = op; i64 = 0; str = [] })
        (eval_kids env (cons l (cons r nil))) h,
    ea,
    eb,
    ql_or_and_bits op a b [] ca cb ta.0 tb.0,
    verdict-bit,
  )

  cmp_verdict_strings :
      is_cmp op ≡ true
      → HasTy string a.out
      → HasTy string b.out
      → eval_record_bool env (binary op l r)
        ≡ some (judge (comparison op (compare_bytes a.out.str b.out.str)))
  unfolding eval_record_bool eval
  cmp_verdict_strings h ta tb = rw (
    eval_node_cmp env (record { type = op; i64 = 0; str = [] })
        (eval_kids env (cons l (cons r nil))) h,
    ea,
    eb,
    ql_cmp_strings op a b [] ca cb ta tb,
    verdict-bit,
  )

  cmp_verdict_numbers :
      is_cmp op ≡ true
      → HasTy integer a.out
      → HasTy integer b.out
      → eval_record_bool env (binary op l r)
        ≡ some (judge (comparison op (compare_int a.out.i64 b.out.i64)))
  unfolding eval_record_bool eval
  cmp_verdict_numbers h ta tb = rw (
    eval_node_cmp env (record { type = op; i64 = 0; str = [] })
        (eval_kids env (cons l (cons r nil))) h,
    ea,
    eb,
    ql_cmp_numbers op a b [] ca cb ta tb,
    verdict-bit,
  )

-- On typed filters, "and" holds exactly when both sides hold and "or" exactly when at least one does; what
-- does not hold fails with no type error.
pub eval_record_bool_logic :
    (env : Record) (l r : QlNode)
    → Typed env l boolean
    → Typed env r boolean
    → (a : Bool) × (b : Bool) × (eval_record_bool env l ≡ some (judge a))
      × (eval_record_bool env r ≡ some (judge b))
      × (eval_record_bool env (binary ql_and l r) ≡ some (judge (a && b)))
      × (eval_record_bool env (binary ql_or l r) ≡ some (judge (a || b)))
unfolding logic is_logic
eval_record_bool_logic env l r tl tr =
    let el = eval-Evaluates env l boolean tl in
    let er = eval-Evaluates env r boolean tr in
    let a = el.context in
    let b = er.context in
    (
      a.out.i64 == 1,
      b.out.i64 == 1,
      eval_record_bool_lem env l a el.result ∙ ap some (verdict_typed a el.typed),
      eval_record_bool_lem env r b er.result ∙ ap some (verdict_typed b er.typed),
      logic_verdict env ql_and l r a b el.result er.result el.clean er.clean refl el.typed er.typed,
      logic_verdict env ql_or l r a b el.result er.result el.clean er.clean refl el.typed er.typed,
    )

abbrev Complements : Record → QlNode → QlNode → Type 0
Complements env l r =
    (lt : Bool) × (gt : Bool) × (eval_record_bool env (binary ql_cmp_lt l r) ≡ some (judge lt))
    × (eval_record_bool env (binary ql_cmp_gt l r) ≡ some (judge gt))
    × (eval_record_bool env (binary ql_cmp_ge l r) ≡ some (judge (not lt)))
    × (eval_record_bool env (binary ql_cmp_le l r) ≡ some (judge (not gt)))
    × (eval_record_bool env (binary ql_cmp_eq l r) ≡ some (judge (not lt && not gt)))
    × (lt && gt ≡ false)

complements :
    (env : Record) (l r : QlNode) (o : Ordering)
    → ((op : ℕ)
        → is_cmp op ≡ true
        → eval_record_bool env (binary op l r) ≡ some (judge (comparison op o)))
    → Complements env l r
unfolding comparison is_cmp
complements env l r Ordering.lt at = (
  true,
  false,
  at ql_cmp_lt refl,
  at ql_cmp_gt refl,
  at ql_cmp_ge refl,
  at ql_cmp_le refl,
  at ql_cmp_eq refl,
  refl,
)
complements env l r Ordering.eq at = (
  false,
  false,
  at ql_cmp_lt refl,
  at ql_cmp_gt refl,
  at ql_cmp_ge refl,
  at ql_cmp_le refl,
  at ql_cmp_eq refl,
  refl,
)
complements env l r Ordering.gt at = (
  false,
  true,
  at ql_cmp_lt refl,
  at ql_cmp_gt refl,
  at ql_cmp_ge refl,
  at ql_cmp_le refl,
  at ql_cmp_eq refl,
  refl,
)

-- On operands of one scalar type, >= is the negation of <, <= that of >, == holds when neither < nor >
-- does, and < and > do not both hold.
pub eval_record_bool_cmp :
    (env : Record) (t : Ty) (l r : QlNode)
    → IsScalar t
    → Typed env l t
    → Typed env r t
    → (lt : Bool) × (gt : Bool) × (eval_record_bool env (binary ql_cmp_lt l r) ≡ some (judge lt))
      × (eval_record_bool env (binary ql_cmp_gt l r) ≡ some (judge gt))
      × (eval_record_bool env (binary ql_cmp_ge l r) ≡ some (judge (not lt)))
      × (eval_record_bool env (binary ql_cmp_le l r) ≡ some (judge (not gt)))
      × (eval_record_bool env (binary ql_cmp_eq l r) ≡ some (judge (not lt && not gt)))
      × (lt && gt ≡ false)
unfolding is_cmp
eval_record_bool_cmp env string l r sc tl tr =
    let el = eval-Evaluates env l string tl in
    let er = eval-Evaluates env r string tr in
    let a = el.context in
    let b = er.context in
    complements env l r (compare_bytes a.out.str b.out.str) (λ op h.
      cmp_verdict_strings env op l r a b el.result er.result el.clean er.clean h el.typed er.typed)
eval_record_bool_cmp env integer l r sc tl tr =
    let el = eval-Evaluates env l integer tl in
    let er = eval-Evaluates env r integer tr in
    let a = el.context in
    let b = er.context in
    complements env l r (compare_int a.out.i64 b.out.i64) (λ op h.
      cmp_verdict_numbers env op l r a b el.result er.result el.clean er.clean h el.typed er.typed)
eval_record_bool_cmp env boolean l r sc tl tr = elim sc [ ]

negated_eval :
    (env : Record) (l : QlNode) (c : Context)
    → eval env l ≡ some c
    → c.out.type ≡ ql_bool
    → eval env (unary ql_neg l) ≡ some (record c { err = c.err ++ neg_type ∷ [] })
unfolding eval ql_negate negate
negated_eval env l c e h = rw (
  eval_node_neg env (record { type = ql_neg; i64 = 0; str = [] }) (eval_kids env (cons l nil)) refl,
  e,
  h,
)

-- Negating an expression that evaluates to a Boolean is a type error of the evaluation, but the filter
-- takes the negated expression for the expression itself.
pub eval_record_bool_neg :
    (env : Record) (l : QlNode) (c : Context)
    → eval env l ≡ some c
    → c.out.type ≡ ql_bool
    → (d : Context) × (eval env (unary ql_neg l) ≡ some d)
      × (d.err ≢ [])
      × (eval_record_bool env (unary ql_neg l) ≡ eval_record_bool env l)
unfolding verdict
eval_record_bool_neg env l c e h = (
  record c { err = c.err ++ neg_type ∷ [] },
  negated_eval env l c e h,
  concat-ne-nil neg_type c.err,
  eval_record_bool_lem env (unary ql_neg l) _ (negated_eval env l c e h)
      ∙ sym (eval_record_bool_lem env l c e),
)
