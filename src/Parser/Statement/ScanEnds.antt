-- ===== src/Parser/Statement/ScanEnds.antt =====
-- parser/parser.go: the parts that the statements share end.
use auroradb.Prelude.{
  ℕ, zero, suc, ◌≤◌, ◌<◌, refl, List, [], ◌∷◌, some, Bytes, codes, length, arith, ◌^◌, ◌-◌,
  Option-cases, inl, inr,
}
use auroradb.Types.{zero_value}
use auroradb.Parser.Syntax.{QlNode}
use auroradb.Prelude.Outcome.{Outcome, returns, ◌>>=◌}
use auroradb.Parser.Keywords.{Packages, Parser, p_keyword, expect, read_sym}
use auroradb.Parser.Expr.{p_expr_or, p_expr_cmp, p_tuple}
use auroradb.Parser.Expr.Shrinks.{
  p_keyword-lt, p_keyword-le, expect-le, read_num-le, read_sym-le, p_must_sym-le,
}
use auroradb.Parser.Expr.Ends.{Ends, p_expr_or-Ends, p_expr_cmp-Ends, p_tuple-Ends}
use auroradb.Parser.Statement.{
  QlScan, p_count, p_offset, p_limit, conditions_loop, set_keys, p_index_by, p_filter, p_maybe,
  p_index, p_scan, p_name, p_select_expr, p_update_expr, list_loop, p_list,
}

pub Ends-bind :
    {A B : Type 0} (n : ℕ) (m : Outcome (Parser × A)) (f : Parser × A → Outcome (Parser × B))
    → Ends n m
    → ((p : Parser) (a : A) → length p.rest ≤ n → Ends n (f (p, a)))
    → Ends n (m >>= f)
Ends-bind n m f r k =
    let q = k r.after r.value r.shorter in
    record { after = q.after; value = q.value; result = rw r.result q.result; shorter = q.shorter }

pub Ends-le : {A : Type 0} {m : Outcome (Parser × A)} (k n : ℕ) → k ≤ n → Ends k m → Ends n m
Ends-le k n h r =
    let le = r.shorter in
    record { after = r.after; value = r.value; result = r.result; shorter = omega arith }

pub Ends-returns :
    {A : Type 0} (n : ℕ) (p : Parser) (a : A) → length p.rest ≤ n → Ends n (returns (p, a))
Ends-returns n p a h = record { after = p; value = a; result = refl; shorter = h }

module _ (g : Packages) where
  set_keys-Ends :
      {n : ℕ} (p : Parser) (scan : QlScan) (first : QlNode) (cs : List QlNode)
      → length p.rest ≤ n
      → Ends n (returns (set_keys g p scan first cs))
  unfolding set_keys
  set_keys-Ends p scan first [] h = Ends-returns _ p _ h
  set_keys-Ends p scan first (c ∷ []) h = Ends-returns _ p _ h
  set_keys-Ends p scan first (c ∷ d ∷ cs) h = Ends-returns _ _ _ h

  conditions_loop-Ends :
      (fuel : ℕ) (p : Parser)
      → length p.rest < fuel
      → Ends (length p.rest) (conditions_loop g fuel p)
  unfolding conditions_loop
  conditions_loop-Ends zero p h = absurd (omega arith)
  conditions_loop-Ends (suc fuel) p h = elim (Option-cases (p_keyword g p (codes "and" ∷ []))) [
    | inl e ↦ rw (conditions_loop, e) (Ends-returns _ p [] (omega arith))
    | inr (p1, e) ↦
        let less = p_keyword-lt g p (codes "and") (omega arith) e in
        rw (conditions_loop, e)
          (Ends-le (length p1.rest) _ (omega arith) (
            Ends-bind (length p1.rest) (p_expr_cmp g p1) _ (p_expr_cmp-Ends g p1) (λ p2 c le.
              Ends-bind (length p1.rest) (conditions_loop g fuel p2) _
                (Ends-le _ _ le (conditions_loop-Ends fuel p2 (omega arith)))
                (λ p3 cs le3. Ends-returns _ p3 (c ∷ cs) le3))))
  ]

  module _ {A : Type 0} (item : Parser → Outcome (Parser × A))
      (ends : (p : Parser) → Ends (length p.rest) (item p)) where
    list_loop-Ends :
        (fuel : ℕ) (p : Parser)
        → length p.rest < fuel
        → Ends (length p.rest) (list_loop g item fuel p)
    unfolding list_loop
    list_loop-Ends zero p h = absurd (omega arith)
    list_loop-Ends (suc fuel) p h = elim (Option-cases (p_keyword g p (codes "," ∷ []))) [
      | inl e ↦ rw (list_loop, e) (Ends-returns _ p [] (omega arith))
      | inr (p1, e) ↦
          let less = p_keyword-lt g p (codes ",") (omega arith) e in
          rw (list_loop, e)
            (Ends-le (length p1.rest) _ (omega arith) (
              Ends-bind (length p1.rest) (item p1) _ (ends p1) (λ p2 c le.
                Ends-bind (length p1.rest) (list_loop g item fuel p2) _
                  (Ends-le _ _ le (list_loop-Ends fuel p2 (omega arith)))
                  (λ p3 cs le3. Ends-returns _ p3 (c ∷ cs) le3))))
    ]

    pub p_list-Ends : (p : Parser) → Ends (length p.rest) (p_list g item p)
    unfolding p_list
    p_list-Ends p = Ends-bind (length p.rest) (item p) _ (ends p) (λ p1 x le.
        Ends-bind (length p.rest) (list_loop g item (suc (length p1.rest)) p1) _
          (Ends-le _ _ le (list_loop-Ends (suc (length p1.rest)) p1 (omega arith)))
          (λ p2 xs le2. Ends-returns _ p2 (x ∷ xs) le2))

  p_name-le : (p : Parser) → length (p_name g p).0.rest ≤ length p.rest
  unfolding p_name
  p_name-le p = elim (Option-cases (p_keyword g p (codes "as" ∷ []))) [
    | inl e ↦ rw (length, e) (omega arith)
    | inr (p1, e) ↦
        rw (length, e)
          (omega (arith, p_must_sym-le g p1, p_keyword-lt g p (codes "as") (omega arith) e))
  ]

  pub p_select_expr-Ends : (p : Parser) → Ends (length p.rest) (p_select_expr g p)
  unfolding p_select_expr
  p_select_expr-Ends p =
      Ends-bind (length p.rest) (p_expr_or g p) _ (p_expr_or-Ends g p) (λ p1 n le.
        Ends-returns _ (p_name g p1).0 ((p_name g p1).1, n) (omega (arith, p_name-le p1)))

  pub p_update_expr-Ends : (p : Parser) → Ends (length p.rest) (p_update_expr g p)
  unfolding p_update_expr
  p_update_expr-Ends p =
      let p1 =
        expect g (read_sym g p zero_value).0 (codes "=")
          (codes "invalid update query syntax expected '=' ") in
      let le : length p1.rest ≤ length p.rest = omega (
        arith,
        read_sym-le g p zero_value,
        expect-le g (read_sym g p zero_value).0 (codes "=")
            (codes "invalid update query syntax expected '=' ") (omega arith),
      ) in
      Ends-bind (length p.rest) (p_expr_or g p1) _ (Ends-le _ _ le (p_expr_or-Ends g p1))
        (λ p2 n le2. Ends-returns _ p2 ((read_sym g p zero_value).1.str, n) le2)

  p_index_by-Ends : (p : Parser) (scan : QlScan) → Ends (length p.rest) (p_index_by g p scan)
  unfolding p_index_by
  p_index_by-Ends p scan = elim (Option-cases (p_keyword g p (codes "(" ∷ []))) [
    | inl e ↦
        rw (p_index_by, e)
          (Ends-bind (length p.rest) (p_expr_cmp g p) _ (p_expr_cmp-Ends g p) (λ p1 first le.
            Ends-bind (length p.rest) (conditions_loop g (suc (length p1.rest)) p1) _
              (Ends-le _ _ le (conditions_loop-Ends (suc (length p1.rest)) p1 (omega arith)))
              (λ p2 cs le2. set_keys-Ends p2 scan first cs le2)))
    | inr (p1, e) ↦
        let less = p_keyword-lt g p (codes "(") (omega arith) e in
        rw (p_index_by, e)
          (Ends-bind (length p.rest) (p_tuple g p1) _
            (Ends-le _ _ (omega arith) (p_tuple-Ends g p1))
            (λ p2 n le. Ends-returns _ (expect g p2 (codes ")") (codes "tuple is not closed")) _ (
              omega
                (arith, expect-le g p2 (codes ")") (codes "tuple is not closed") (omega arith)))))
  ]

  p_filter-Ends : (p : Parser) (scan : QlScan) → Ends (length p.rest) (p_filter g p scan)
  unfolding p_filter
  p_filter-Ends p scan = elim (Option-cases (p_keyword g p (codes "filter" ∷ []))) [
    | inl e ↦ rw (p_filter, e) (Ends-returns _ p scan (omega arith))
    | inr (p1, e) ↦
        let less = p_keyword-lt g p (codes "filter") (omega arith) e in
        rw (p_filter, e)
          (Ends-bind (length p.rest) (p_expr_or g p1) _
            (Ends-le _ _ (omega arith) (p_expr_or-Ends g p1))
            (λ p2 n le. Ends-returns _ p2 (record scan { filter = some n }) le))
  ]

  p_index-Ends : (p : Parser) (scan : QlScan) → Ends (length p.rest) (p_index g p scan)
  unfolding p_index
  p_index-Ends p scan = elim (Option-cases (p_keyword g p (codes "index" ∷ codes "by" ∷ []))) [
    | inl e ↦ rw (p_index, e) (Ends-returns _ p scan (omega arith))
    | inr (p1, e) ↦
        rw (p_index, e)
          (Ends-le _ _ (p_keyword-le g p (codes "index" ∷ codes "by" ∷ []) (omega arith) e)
            (p_index_by-Ends p1 scan))
  ]

  p_count-le : (p : Parser) (msg : Bytes) → length (p_count g p msg).0.rest ≤ length p.rest
  unfolding p_count
  p_count-le p msg = ground (arith, read_num-le g p zero_value)

  p_offset-le : (p : Parser) (scan : QlScan) → length (p_offset g p scan).0.rest ≤ length p.rest
  unfolding p_offset
  p_offset-le p scan = p_count-le p (codes "expected number after offset")

  p_limit-le : (p : Parser) (scan : QlScan) → length (p_limit g p scan).0.rest ≤ length p.rest
  unfolding p_limit
  p_limit-le p scan = p_count-le p (codes "expected number after limit")

  p_maybe-le :
      (kw : Bytes) (f : Parser → QlScan → Parser × QlScan) (p : Parser) (scan : QlScan)
      → 0 < length kw
      → ((q : Parser) (s : QlScan) → length (f q s).0.rest ≤ length q.rest)
      → length (p_maybe g (kw ∷ []) f (p, scan)).0.rest ≤ length p.rest
  unfolding p_maybe
  p_maybe-le kw f p scan pos h = elim (Option-cases (p_keyword g p (kw ∷ []))) [
    | inl e ↦ rw (length, e) (omega arith)
    | inr (p1, e) ↦ rw (length, e) (omega (arith, h p1 scan, p_keyword-lt g p kw pos e))
  ]

  pub p_scan-Ends : (p : Parser) (scan : QlScan) → Ends (length p.rest) (p_scan g p scan)
  unfolding p_scan
  p_scan-Ends p scan =
      Ends-bind (length p.rest) (p_index g p scan) _ (p_index-Ends p scan) (λ p1 scan1 le1.
        Ends-bind (length p.rest) (p_filter g p1 scan1) _ (Ends-le _ _ le1 (p_filter-Ends p1 scan1))
          (λ p2 scan2 le2.
            let scan3 = record scan2 { offset = 0; limit = 2 ^ 63 - 1 } in
            let q = p_maybe g (codes "offset" ∷ []) (p_offset g) (p2, scan3) in
            let r = p_maybe g (codes "limit" ∷ []) (p_limit g) q in
            Ends-returns _ r.0 r.1 (
              omega (
                arith,
                p_maybe-le (codes "offset") (p_offset g) p2 scan3 (omega arith) p_offset-le,
                p_maybe-le (codes "limit") (p_limit g) q.0 q.1 (omega arith) p_limit-le,
              ))))
