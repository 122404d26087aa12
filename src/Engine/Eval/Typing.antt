-- ===== src/Engine/Eval/Typing.antt =====
-- engine/executor.go: expressions that are typed evaluate with no error, to a value of their type.
use auroradb.Prelude.{
  Option-cases, inl, inr, none, sym, ap, ℕ, ◌<◌, ◌≡◌, ◌≢◌, refl, ◌∙◌, Bool, true, ◌||◌, List, [],
  ◌∷◌, Option, some, Bytes, get_elem?, ◌==◌, if◌then◌else◌, arith,
}
use mathlib.Core.Path.{subst}
use auroradb.Prelude.Panic.{some-injective}
use auroradb.Prelude.Int64.{add_int, sub_int, mul_int, div_int, mod_int, neg_int}
use auroradb.Types.{Value, Record, get}
use auroradb.Parser.Syntax.{
  QlNode, Kids, node, cons, ql_str, ql_i64, ql_sym, ql_bool, ql_add, ql_sub, ql_mul, ql_div, ql_mod,
  ql_neg,
}
use auroradb.Engine.Eval.{
  fresh, with_out, bit, negate, numeric, set_numeric, Context, eval, eval_kids, is_cmp, is_logic,
  is_numeric, ql_cmp, ql_or_and, ql_numeric, ql_symbol, ql_negate,
}
use auroradb.Engine.Eval.Operators.{
  ql_cmp_strings, ql_cmp_numbers, ql_or_and_bits, ql_numeric_numbers,
}
use auroradb.Engine.Eval.Dispatch.{
  eval_node_literal, eval_node_symbol, eval_node_cmp, eval_node_logic, eval_node_numeric,
  eval_node_neg,
}

-- The types of results.
pub data Ty : Type 0 where
  string integer boolean : Ty

-- A value of the type; a Boolean is 0 or 1.
abbrev pub HasTy : Ty → Value → Type 0
HasTy string v = v.type ≡ ql_str
HasTy integer v = v.type ≡ ql_i64
HasTy boolean v = (v.type ≡ ql_bool) × (v.i64 < 2)

abbrev pub IsScalar : Ty → Type 0
IsScalar string = Unit
IsScalar integer = Unit
IsScalar boolean = ⊥

-- The operators that are defined on all numbers.
abbrev pub is_total : ℕ → Bool
is_total t = t == ql_add || t == ql_sub || t == ql_mul

abbrev pub is_division : ℕ → Bool
is_division t = t == ql_div || t == ql_mod

-- The number that an evaluation ends in, if it ends in one, is not 0.
abbrev pub IsNonZero : Option Context → Type 0
IsNonZero none = Unit
IsNonZero (some c) = c.out.i64 ≢ 0

-- The typed expressions over a row. A divisor is any typed expression that does not evaluate to 0 over this row.
pub data Typed (env : Record) : QlNode → Ty → Type 0 where
  text : (v : Value) (ks : Kids) → v.type ≡ ql_str → Typed env (node v ks) string
  number : (v : Value) (ks : Kids) → v.type ≡ ql_i64 → Typed env (node v ks) integer
  column :
      (v : Value) (ks : Kids) (i : ℕ) (w : Value) (t : Ty)
      → v.type ≡ ql_sym
      → get env v.str ≡ some i
      → get_elem? env.vals i ≡ some w
      → IsScalar t
      → HasTy t w
      → Typed env (node v ks) t
  compared :
      (v : Value) (l r : QlNode) (ks : Kids) (t : Ty)
      → is_cmp v.type ≡ true
      → IsScalar t
      → Typed env l t
      → Typed env r t
      → Typed env (node v (cons l (cons r ks))) boolean
  joined :
      (v : Value) (l r : QlNode) (ks : Kids)
      → is_logic v.type ≡ true
      → Typed env l boolean
      → Typed env r boolean
      → Typed env (node v (cons l (cons r ks))) boolean
  combined :
      (v : Value) (l r : QlNode) (ks : Kids)
      → is_total v.type ≡ true
      → Typed env l integer
      → Typed env r integer
      → Typed env (node v (cons l (cons r ks))) integer
  divided :
      (v : Value) (l r : QlNode) (ks : Kids)
      → is_division v.type ≡ true
      → Typed env l integer
      → Typed env r integer
      → IsNonZero (eval env r)
      → Typed env (node v (cons l (cons r ks))) integer
  negated :
      (v : Value) (l : QlNode) (ks : Kids)
      → v.type ≡ ql_neg
      → Typed env l integer
      → Typed env (node v (cons l ks)) integer

-- The evaluation ends with no panic and no error, in a value of the type.
pub record Evaluates (t : Ty) (o : Option Context) : Type 0 where
  pub context : Context
  pub result : o ≡ some context
  pub clean : context.err ≡ []
  pub typed : HasTy t context.out

-- Numbers and tests.
bit_bound : (b : Bool) → bit b < 2
bit_bound b = ground arith

cmp_Evaluates :
    (op : ℕ) (kids : List (Option Context)) (l r : Context) (t : Ty)
    → IsScalar t
    → l.err ≡ []
    → r.err ≡ []
    → HasTy t l.out
    → HasTy t r.out
    → Evaluates boolean (ql_cmp fresh op (some l ∷ some r ∷ kids))
cmp_Evaluates op kids l r string sc cl cr hl hr = record {
  context = _;
  result = ql_cmp_strings op l r kids cl cr hl hr;
  clean = refl;
  typed = (refl, bit_bound _);
}
cmp_Evaluates op kids l r integer sc cl cr hl hr = record {
  context = _;
  result = ql_cmp_numbers op l r kids cl cr hl hr;
  clean = refl;
  typed = (refl, bit_bound _);
}
cmp_Evaluates op kids l r boolean sc cl cr hl hr = elim sc [ ]

logic_Evaluates :
    (op : ℕ) (kids : List (Option Context)) (l r : Context)
    → l.err ≡ []
    → r.err ≡ []
    → HasTy boolean l.out
    → HasTy boolean r.out
    → Evaluates boolean (ql_or_and fresh op (some l ∷ some r ∷ kids))
logic_Evaluates op kids l r cl cr hl hr = record {
  context = _;
  result = ql_or_and_bits op l r kids cl cr hl.0 hr.0;
  clean = refl;
  typed = (refl, bit_bound _);
}

numeric-Evaluates :
    (op : ℕ) (kids : List (Option Context)) (l r : Context) (n : ℕ)
    → l.err ≡ []
    → r.err ≡ []
    → HasTy integer l.out
    → HasTy integer r.out
    → numeric op l.out.i64 r.out.i64 ≡ some (some n)
    → Evaluates integer (ql_numeric fresh op (some l ∷ some r ∷ kids))
numeric-Evaluates op kids l r n cl cr hl hr e = record {
  context = with_out fresh ql_i64 n;
  result = ql_numeric_numbers op l r kids cl cr hl hr ∙ rw e (unfold set_numeric in refl);
  clean = refl;
  typed = refl;
}

numeric_total : (op a b : ℕ) → is_total op ≡ true → (n : ℕ) × (numeric op a b ≡ some (some n))
unfolding numeric
numeric_total op a b h = (
  (if op == ql_add then add_int a b else if op == ql_sub then sub_int a b else mul_int a b),
  ground arith,
)

div_int_total : (a b : ℕ) → b ≢ 0 → (q : ℕ) × (div_int a b ≡ some q)
unfolding div_int
div_int_total a b nz = elim (Option-cases (div_int a b)) [
  | inl e ↦ absurd (ground arith)
  | inr q ↦ q
]

mod_int_total : (a b : ℕ) → b ≢ 0 → (q : ℕ) × (mod_int a b ≡ some q)
unfolding mod_int
mod_int_total a b nz = elim (Option-cases (mod_int a b)) [
  | inl e ↦ absurd (ground arith)
  | inr q ↦ q
]

numeric_division :
    (op a b : ℕ) → is_division op ≡ true → b ≢ 0 → (n : ℕ) × (numeric op a b ≡ some (some n))
unfolding numeric
numeric_division op a b h nz =
    let (q, eq) = div_int_total a b nz in
    let (r, er) = mod_int_total a b nz in ((if op == ql_div then q else r), ground arith)

is_numeric-is_total : (op : ℕ) → is_total op ≡ true → is_numeric op ≡ true
unfolding is_numeric
is_numeric-is_total op h = ground arith

is_numeric-is_division : (op : ℕ) → is_division op ≡ true → is_numeric op ≡ true
unfolding is_numeric
is_numeric-is_division op h = ground arith

negate-Evaluates :
    (l : Context) → l.err ≡ [] → HasTy integer l.out → Evaluates integer (some (negate l))
unfolding negate
negate-Evaluates l cl hl = record {
  context = record l { out = record l.out { i64 = neg_int l.out.i64 } };
  result = rw hl;
  clean = cl;
  typed = hl;
}

symbol_Evaluates :
    (env : Record) (name : Bytes) (i : ℕ) (w : Value) (t : Ty)
    → get env name ≡ some i
    → get_elem? env.vals i ≡ some w
    → HasTy t w
    → Evaluates t (ql_symbol env name)
unfolding ql_symbol
symbol_Evaluates env name i w t eg ev h = record {
  context = record { out = w; err = [] };
  result = rw (eg, ql_symbol, ev);
  clean = refl;
  typed = h;
}

-- A typed expression, in which no divisor evaluates to 0, evaluates with no panic and no error, to a value of its type.
pub eval-Evaluates : (env : Record) (n : QlNode) (t : Ty) → Typed env n t → Evaluates t (eval env n)
unfolding eval ql_negate
eval-Evaluates env n _ (text v ks h) =
    rw (eval_node_literal env v (eval_kids env ks) (ground arith))
      (record { context = _; result = refl; clean = refl; typed = h })
eval-Evaluates env n _ (number v ks h) =
    rw (eval_node_literal env v (eval_kids env ks) (ground arith))
      (record { context = _; result = refl; clean = refl; typed = h })
eval-Evaluates env n _ (column v ks i w t h eg ev sc ht) =
    rw (eval_node_symbol env v (eval_kids env ks) h) (symbol_Evaluates env v.str i w t eg ev ht)
eval-Evaluates env n _ (compared v l r ks s h sc tl tr) =
    let el = eval-Evaluates env l s tl in
    let er = eval-Evaluates env r s tr in
    rw (eval_node_cmp env v (eval_kids env (cons l (cons r ks))) h, el.result, er.result)
      (cmp_Evaluates v.type (eval_kids env ks) el.context er.context s sc el.clean er.clean el.typed
        er.typed)
eval-Evaluates env n _ (joined v l r ks h tl tr) =
    let el = eval-Evaluates env l boolean tl in
    let er = eval-Evaluates env r boolean tr in
    rw (eval_node_logic env v (eval_kids env (cons l (cons r ks))) h, el.result, er.result)
      (logic_Evaluates v.type (eval_kids env ks) el.context er.context el.clean er.clean el.typed
        er.typed)
eval-Evaluates env n _ (combined v l r ks h tl tr) =
    let el = eval-Evaluates env l integer tl in
    let er = eval-Evaluates env r integer tr in
    let (k, ek) = numeric_total v.type el.context.out.i64 er.context.out.i64 h in
    rw
      (
        eval_node_numeric env v (eval_kids env (cons l (cons r ks))) (is_numeric-is_total v.type h),
        el.result,
        er.result,
      )
      (numeric-Evaluates v.type (eval_kids env ks) el.context er.context k el.clean er.clean
        el.typed er.typed ek)
eval-Evaluates env n _ (divided v l r ks h tl tr nz) =
    let el = eval-Evaluates env l integer tl in
    let er = eval-Evaluates env r integer tr in
    let (k, ek) =
      numeric_division v.type el.context.out.i64 er.context.out.i64 h
        (subst IsNonZero er.result nz) in
    rw
      (
        eval_node_numeric env v (eval_kids env (cons l (cons r ks)))
            (is_numeric-is_division v.type h),
        el.result,
        er.result,
      )
      (numeric-Evaluates v.type (eval_kids env ks) el.context er.context k el.clean er.clean
        el.typed er.typed ek)
eval-Evaluates env n _ (negated v l ks h tl) =
    let el = eval-Evaluates env l integer tl in
    rw (eval_node_neg env v (eval_kids env (cons l ks)) h, el.result)
      (negate-Evaluates el.context el.clean el.typed)

numeric_division_zero : (op a : ℕ) → is_division op ≡ true → numeric op a 0 ≡ none
unfolding numeric div_int mod_int
numeric_division_zero op a h = ground arith

-- A division of typed integers whose divisor evaluates to 0 panics.
pub eval-is_division :
    (env : Record) (v : Value) (l r : QlNode) (ks : Kids) (c : Context)
    → is_division v.type ≡ true
    → Typed env l integer
    → Typed env r integer
    → eval env r ≡ some c
    → c.out.i64 ≡ 0
    → eval env (node v (cons l (cons r ks))) ≡ none
unfolding eval
eval-is_division env v l r ks c h tl tr e z =
    let el = eval-Evaluates env l integer tl in
    let er = eval-Evaluates env r integer tr in
    let zero_read : er.context.out.i64 ≡ 0 =
      ap (λ c. c.out.i64) (some-injective (sym er.result ∙ e)) ∙ z in
    rw
      (
        eval_node_numeric env v (eval_kids env (cons l (cons r ks)))
            (is_numeric-is_division v.type h),
        el.result,
        er.result,
      )
      (ql_numeric_numbers v.type el.context er.context (eval_kids env ks) el.clean er.clean el.typed
          er.typed
        ∙ rw (zero_read, numeric_division_zero v.type el.context.out.i64 h) refl)
