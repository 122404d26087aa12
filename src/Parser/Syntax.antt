-- ===== src/Parser/Syntax.antt =====
-- parser/parser.go: the nodes of an expression, and the numbers of their types.
use auroradb.Prelude.{ℕ}
use auroradb.Types.{Value, type_bytes, type_int64}

abbrev pub ql_str : ℕ
ql_str = type_bytes

abbrev pub ql_i64 : ℕ
ql_i64 = type_int64

abbrev pub ql_sym : ℕ
ql_sym = 3

abbrev pub ql_cmp_ge : ℕ
ql_cmp_ge = 10

abbrev pub ql_cmp_gt : ℕ
ql_cmp_gt = 11

abbrev pub ql_cmp_le : ℕ
ql_cmp_le = 12

abbrev pub ql_cmp_lt : ℕ
ql_cmp_lt = 13

abbrev pub ql_or : ℕ
ql_or = 14

abbrev pub ql_and : ℕ
ql_and = 15

abbrev pub ql_add : ℕ
ql_add = 16

abbrev pub ql_sub : ℕ
ql_sub = 17

abbrev pub ql_mod : ℕ
ql_mod = 18

abbrev pub ql_mul : ℕ
ql_mul = 19

abbrev pub ql_div : ℕ
ql_div = 20

abbrev pub ql_bool : ℕ
ql_bool = 21

abbrev pub ql_cmp_eq : ℕ
ql_cmp_eq = 22

abbrev pub ql_neg : ℕ
ql_neg = 30

abbrev pub ql_tup : ℕ
ql_tup = 40

-- A node embeds its `Value`; `Kids` is the slice of its children.
mutual
  pub data QlNode : Type 0 where
    node : Value → Kids → QlNode

  pub data Kids : Type 0 where
    nil : Kids
    cons : QlNode → Kids → Kids
