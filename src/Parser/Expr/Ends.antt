-- ===== src/Parser/Expr/Ends.antt =====
-- parser/parser.go: parsing an expression ends.
use auroradb.Prelude.{
  ℕ, zero, suc, ◌≤◌, ◌<◌, ◌≡◌, List, [], ◌∷◌, some, Bytes, codes, length, arith, Option-cases, inl,
  inr, All,
}
use auroradb.Types.{Value, zero_value}
use auroradb.Parser.Syntax.{QlNode, node, nil, cons, ql_neg}
use auroradb.Prelude.Outcome.{Outcome, returns}
use auroradb.Parser.Keywords.{Packages, Parser, p_keyword, expect, read_num, read_sym}
use auroradb.Parser.Expr.{
  Parsed, val_with_type, or_ops, and_ops, cmp_ops, add_ops, mul_ops, tuple_of, op_at, bin_loop,
  p_expr_bin_op, kids_loop, p_expr_tuple, atom_str, atom_num, atom_sym, p_expr_atom, p_expr_un_op,
  p_expr_mul, p_expr_add, p_expr_cmp_with, p_expr_and, p_expr_or_with, expr_or, p_expr_or,
  p_expr_cmp, p_tuple,
}
use auroradb.Parser.Expr.Shrinks.{p_keyword-lt, expect-le, read_num-le, read_str-le, read_sym-le}

-- It returns, and leaves no more than `n` bytes.
pub record Ends {A : Type 0} (n : ℕ) (m : Outcome (Parser × A)) : Type 0 where
  pub after : Parser
  pub value : A
  pub result : m ≡ returns (after, value)
  pub shorter : length after.rest ≤ n

-- So it does wherever fewer than `f` bytes are left.
abbrev EndsBelow : ℕ → (Parser → Parsed) → Type 0
EndsBelow f next = (p : Parser) → length p.rest < f → Ends (length p.rest) (next p)

-- Every operator has a name.
abbrev Named : List (Bytes × ℕ) → Type 0
Named = All (λ o. 0 < length o.0)

module _ (g : Packages) where
  op_at-lt :
      (ops : List (Bytes × ℕ)) (p : Parser) {p1 : Parser} {t : ℕ}
      → Named ops
      → op_at g ops p ≡ some (p1, t)
      → length p1.rest < length p.rest
  unfolding op_at
  op_at-lt [] p nm e = absurd (ground (arith, e))
  op_at-lt ((op, t) ∷ ops) p (pos, nm) e = elim (Option-cases (p_keyword g p (op ∷ []))) [
    | inl h ↦ op_at-lt ops p nm (rw (op_at, h) at e)
    | inr (p1, h) ↦ ground (arith, h, e, p_keyword-lt g p op pos h)
  ]

  module _ (f : ℕ) (next : Parser → Parsed) (below : EndsBelow f next) (ops : List (Bytes × ℕ))
      (nm : Named ops) where
    bin_loop-Ends :
        (fuel : ℕ) (left : QlNode) (p : Parser)
        → length p.rest < fuel
        → length p.rest < f
        → Ends (length p.rest) (bin_loop g next ops fuel left p)
    unfolding bin_loop
    bin_loop-Ends zero left p h k = absurd (omega arith)
    bin_loop-Ends (suc fuel) left p h k = elim (Option-cases (op_at g ops p)) [
      | inl e ↦ record { after = p; value = left; result = rw (bin_loop, e); shorter = omega arith }
      | inr ((p1, t), e) ↦
          let less = op_at-lt ops p nm e in
          let r = below p1 (omega arith) in
          let le = r.shorter in
          let q =
            bin_loop-Ends fuel (node (val_with_type t) (cons left (cons r.value nil))) r.after
              (omega arith) (omega arith) in
          let le2 = q.shorter in
          record {
            after = q.after;
            value = q.value;
            result = rw (bin_loop, e, r.result) q.result;
            shorter = omega arith;
          }
    ]

    p_expr_bin_op-EndsBelow : EndsBelow f (p_expr_bin_op g next ops)
    unfolding p_expr_bin_op
    p_expr_bin_op-EndsBelow p h =
        let r = below p h in
        let le = r.shorter in
        let q =
          bin_loop-Ends (suc (length r.after.rest)) r.value r.after (omega arith) (omega arith) in
        let le2 = q.shorter in
        record {
          after = q.after;
          value = q.value;
          result = rw r.result q.result;
          shorter = omega arith;
        }

  module _ (f : ℕ) (inner : Parser → Parsed) (below : EndsBelow f inner) where
    kids_loop-Ends :
        (fuel : ℕ) (p : Parser)
        → length p.rest < fuel
        → length p.rest < f
        → Ends (length p.rest) (kids_loop g inner fuel p)
    unfolding kids_loop
    kids_loop-Ends zero p h k = absurd (omega arith)
    kids_loop-Ends (suc fuel) p h k = elim (Option-cases (p_keyword g p (codes "," ∷ []))) [
      | inl e ↦ record { after = p; value = nil; result = rw (kids_loop, e); shorter = omega arith }
      | inr (p1, e) ↦
          let less = p_keyword-lt g p (codes ",") (omega arith) e in
          let r = below p1 (omega arith) in
          let le = r.shorter in
          let q = kids_loop-Ends fuel r.after (omega arith) (omega arith) in
          let le2 = q.shorter in
          record {
            after = q.after;
            value = cons r.value q.value;
            result = rw (kids_loop, e, r.result, q.result);
            shorter = omega arith;
          }
    ]

    pub p_expr_tuple-EndsBelow : EndsBelow f (p_expr_tuple g inner)
    unfolding p_expr_tuple
    p_expr_tuple-EndsBelow p h =
        let r = below p h in
        let le = r.shorter in
        let q = kids_loop-Ends (suc (length r.after.rest)) r.after (omega arith) (omega arith) in
        let le2 = q.shorter in
        record {
          after = q.after;
          value = tuple_of r.value q.value;
          result = rw (r.result, q.result);
          shorter = omega arith;
        }

  atom_str-le : (p : Parser) (v : Value) → length (atom_str g p v).0.rest ≤ length p.rest
  unfolding atom_str
  atom_str-le p v = ground (arith, read_str-le g p v)

  atom_num-le : (p : Parser) (v : Value) → length (atom_num g p v).0.rest ≤ length p.rest
  unfolding atom_num
  atom_num-le p v =
      ground (arith, read_num-le g p v, atom_str-le (read_num g p v).0 (read_num g p v).1)

  atom_sym-le : (p : Parser) (v : Value) → length (atom_sym g p v).0.rest ≤ length p.rest
  unfolding atom_sym
  atom_sym-le p v =
      ground (arith, read_sym-le g p v, atom_num-le (read_sym g p v).0 (read_sym g p v).1)

  -- An atom reads the parenthesis before the expression in it: that has less fuel.
  module _ (f : ℕ) (inner : Parser → Parsed) (below : EndsBelow f inner) where
    p_expr_atom-EndsBelow : EndsBelow (suc f) (p_expr_atom g inner)
    unfolding p_expr_atom
    p_expr_atom-EndsBelow p h = elim (Option-cases (p_keyword g p (codes "(" ∷ []))) [
      | inl e ↦
          let le = atom_sym-le p zero_value in
          record {
            after = (atom_sym g p zero_value).0;
            value = node (atom_sym g p zero_value).1 nil;
            result = rw (p_expr_atom, e);
            shorter = omega arith;
          }
      | inr (p1, e) ↦
          let less = p_keyword-lt g p (codes "(") (omega arith) e in
          let r = p_expr_tuple-EndsBelow f inner below p1 (omega arith) in
          let le = r.shorter in
          let le2 = expect-le g r.after (codes ")") (codes "unclosed paranthesis") (omega arith) in
          record {
            after = expect g r.after (codes ")") (codes "unclosed paranthesis");
            value = r.value;
            result = rw (p_expr_atom, e, r.result);
            shorter = omega arith;
          }
    ]

    p_expr_un_op-EndsBelow : EndsBelow (suc f) (p_expr_un_op g inner)
    unfolding p_expr_un_op
    p_expr_un_op-EndsBelow p h = elim (Option-cases (p_keyword g p (codes "-" ∷ []))) [
      | inl e ↦
          let r = p_expr_atom-EndsBelow p h in
          record {
            after = r.after;
            value = r.value;
            result = rw (p_expr_un_op, e) r.result;
            shorter = r.shorter;
          }
      | inr (p1, e) ↦
          let less = p_keyword-lt g p (codes "-") (omega arith) e in
          let r = p_expr_atom-EndsBelow p1 (omega arith) in
          let le = r.shorter in
          record {
            after = r.after;
            value = node (val_with_type ql_neg) (cons r.value nil);
            result = rw (p_expr_un_op, e, r.result);
            shorter = omega arith;
          }
    ]

    level :
        (next : Parser → Parsed) (ops : List (Bytes × ℕ))
        → Named ops
        → EndsBelow (suc f) next
        → EndsBelow (suc f) (p_expr_bin_op g next ops)
    level next ops nm b = p_expr_bin_op-EndsBelow (suc f) next b ops nm

    p_expr_cmp_with-EndsBelow : EndsBelow (suc f) (p_expr_cmp_with g inner)
    unfolding p_expr_cmp_with p_expr_add p_expr_mul
    p_expr_cmp_with-EndsBelow =
        level _ cmp_ops (omega arith)
          (level _ add_ops (omega arith) (level _ mul_ops (omega arith) p_expr_un_op-EndsBelow))

    p_expr_or_with-EndsBelow : EndsBelow (suc f) (p_expr_or_with g inner)
    unfolding p_expr_or_with p_expr_and
    p_expr_or_with-EndsBelow =
        level _ or_ops (omega arith) (level _ and_ops (omega arith) p_expr_cmp_with-EndsBelow)

  expr_or-EndsBelow : (f : ℕ) → EndsBelow f (expr_or g f)
  unfolding expr_or
  expr_or-EndsBelow zero p h = absurd (omega arith)
  expr_or-EndsBelow (suc f) p h = p_expr_or_with-EndsBelow f (expr_or g f) (expr_or-EndsBelow f) p h

  -- On every input an expression is parsed: the descent returns, and leaves no more than it was given.
  pub p_expr_or-Ends : (p : Parser) → Ends (length p.rest) (p_expr_or g p)
  unfolding p_expr_or
  p_expr_or-Ends p = expr_or-EndsBelow (suc (length p.rest)) p (omega arith)

  pub p_expr_cmp-Ends : (p : Parser) → Ends (length p.rest) (p_expr_cmp g p)
  unfolding p_expr_cmp
  p_expr_cmp-Ends p =
      let f = suc (length p.rest) in
      p_expr_cmp_with-EndsBelow f (expr_or g f) (expr_or-EndsBelow f) p (omega arith)

  pub p_tuple-Ends : (p : Parser) → Ends (length p.rest) (p_tuple g p)
  unfolding p_tuple
  p_tuple-Ends p =
      let f = suc (length p.rest) in
      p_expr_tuple-EndsBelow f (expr_or g f) (expr_or-EndsBelow f) p (omega arith)
