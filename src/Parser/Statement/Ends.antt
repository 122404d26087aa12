-- ===== src/Parser/Statement/Ends.antt =====
-- parser/parser.go: every statement but `create table` is parsed in the end.
use auroradb.Prelude.{
  ℕ, ◌≤◌, ◌<◌, ◌≡◌, refl, List, [], ◌∷◌, none, some, Bytes, codes, length, arith, ◌⊎◌, Option-cases,
  inl, inr,
}
use auroradb.Prelude.Outcome.{Outcome, returns}
use auroradb.Parser.Keywords.{Packages, Parser, p_keyword, expect, p_must_sym}
use auroradb.Parser.Expr.{p_tuple}
use auroradb.Parser.Expr.Shrinks.{p_keyword-lt, p_keyword-le, expect-le, p_must_sym-le}
use auroradb.Parser.Expr.Ends.{Ends, p_tuple-Ends}
use auroradb.Parser.Statement.{
  empty_scan, p_scan, p_end, p_select_expr, p_update_expr, p_list, p_select_expr_list,
  p_update_expr_list, p_columns, p_select, p_insert, p_upsert, p_update, p_delete,
}
use auroradb.Parser.Statement.ScanEnds.{
  Ends-bind, Ends-le, Ends-returns, p_list-Ends, p_select_expr-Ends, p_update_expr-Ends,
  p_scan-Ends,
}
use auroradb.Parser.Statement.Create.{Stmt, tagged, p_stmt_rest, p_query}

list_cases : (xs : List Bytes) → (xs ≡ []) ⊎ ((y : Bytes) × (ys : List Bytes) × (xs ≡ y ∷ ys))
list_cases [] = inl refl
list_cases (x ∷ xs) = inr (x, xs, refl)

module _ (g : Packages) where
  p_end-Ends :
      {A : Type 0} {n : ℕ} (p : Parser) (msg : Bytes) (stmt : A)
      → length p.rest ≤ n
      → Ends n (returns (p_end g p msg stmt))
  unfolding p_end
  p_end-Ends p msg stmt h = elim (list_cases p.err) [
    | inl e ↦
        rw (p_end, e)
          (Ends-returns _ (expect g p (codes ";") msg) (some stmt)
            (omega (arith, expect-le g p (codes ";") msg (omega arith))))
    | inr (x, xs, e) ↦ rw (p_end, e) (Ends-returns _ p none h)
  ]

  p_columns-Ends : (p : Parser) → Ends (length p.rest) (p_columns g p)
  unfolding p_columns p_select_expr_list
  p_columns-Ends p = elim (Option-cases (p_keyword g p (codes "*" ∷ []))) [
    | inl e ↦
        rw (p_columns, e)
          (Ends-bind (length p.rest) (p_list g (p_select_expr g) p) _
            (p_list-Ends g (p_select_expr g) (p_select_expr-Ends g) p)
            (λ p1 xs le. Ends-returns _ p1 _ le))
    | inr (p1, e) ↦
        let less = p_keyword-lt g p (codes "*") (omega arith) e in
        rw (p_columns, e) (Ends-returns _ p1 _ (omega arith))
  ]

  -- A table's name behind a word.
  named-le :
      (p : Parser) (kw msg : Bytes)
      → 0 < length kw
      → length (p_must_sym g (expect g p kw msg)).0.rest ≤ length p.rest
  named-le p kw msg pos =
      omega (arith, p_must_sym-le g (expect g p kw msg), expect-le g p kw msg pos)

  p_select-Ends : (p : Parser) → Ends (length p.rest) (p_select g p)
  unfolding p_select
  p_select-Ends p = Ends-bind (length p.rest) (p_columns g p) _ (p_columns-Ends p) (λ p1 x le.
      let q = p_must_sym g (expect g p1 (codes "from") (codes "expected `from` table")) in
      let le2 = named-le p1 (codes "from") (codes "expected `from` table") (omega arith) in
      Ends-bind (length p.rest) (p_scan g q.0 (record empty_scan { table = q.1 })) _
        (Ends-le _ _ (omega arith) (p_scan-Ends g q.0 (record empty_scan { table = q.1 })))
        (λ p3 scan le3. p_end-Ends p3 _ _ le3))

  p_delete-Ends : (p : Parser) → Ends (length p.rest) (p_delete g p)
  unfolding p_delete
  p_delete-Ends p =
      let q = p_must_sym g (expect g p (codes "from") (codes "expected `from` table")) in
      let le = named-le p (codes "from") (codes "expected `from` table") (omega arith) in
      Ends-bind (length p.rest) (p_scan g q.0 (record empty_scan { table = q.1 })) _
        (Ends-le _ _ le (p_scan-Ends g q.0 (record empty_scan { table = q.1 })))
        (λ p2 scan le2. p_end-Ends p2 _ _ le2)

  p_update-Ends : (p : Parser) → Ends (length p.rest) (p_update g p)
  unfolding p_update p_update_expr_list
  p_update-Ends p =
      let msg = codes "invalid update query syntax expected 'set' " in
      let p1 = (p_must_sym g p).0 in
      let q = expect g p1 (codes "set") msg in
      let le : length q.rest ≤ length p.rest =
        omega (arith, p_must_sym-le g p, expect-le g p1 (codes "set") msg (omega arith)) in
      Ends-bind (length p.rest) (p_list g (p_update_expr g) q) _
        (Ends-le _ _ le (p_list-Ends g (p_update_expr g) (p_update_expr-Ends g) q))
        (λ p2 xs le2.
          let scan = record empty_scan { table = (p_must_sym g p).1 } in
          Ends-bind (length p.rest) (p_scan g p2 scan) _ (Ends-le _ _ le2 (p_scan-Ends g p2 scan))
            (λ p3 s le3. p_end-Ends p3 _ _ le3))

  two-le :
      (p : Parser) (kw word msg : Bytes)
      → 0 < length kw
      → 0 < length word
      → length (expect g (expect g p kw msg) word msg).rest ≤ length p.rest
  two-le p kw word msg h k =
      omega (arith, expect-le g p kw msg h, expect-le g (expect g p kw msg) word msg k)

  p_insert-Ends : (p : Parser) → Ends (length p.rest) (p_insert g p)
  unfolding p_insert
  p_insert-Ends p =
      let msg = codes "invalid insert query syntax" in
      let p1 = (p_must_sym g p).0 in
      let q = expect g p1 (codes "(") msg in
      let le : length q.rest ≤ length p.rest =
        omega (arith, p_must_sym-le g p, expect-le g p1 (codes "(") msg (omega arith)) in
      Ends-bind (length p.rest) (p_tuple g q) _ (Ends-le _ _ le (p_tuple-Ends g q)) (λ p2 cols le2.
        let r = expect g p2 (codes ")") msg in
        let s = expect g (expect g r (codes "values") msg) (codes "(") msg in
        let le3 : length s.rest ≤ length p.rest = omega (
          arith,
          expect-le g p2 (codes ")") msg (omega arith),
          two-le r (codes "values") (codes "(") msg (omega arith) (omega arith),
        ) in
        Ends-bind (length p.rest) (p_tuple g s) _ (Ends-le _ _ le3 (p_tuple-Ends g s))
          (λ p3 vals le4.
            Ends-returns _ (expect g (expect g p3 (codes ")") msg) (codes ";") msg) _
              (omega (arith, two-le p3 (codes ")") (codes ";") msg (omega arith) (omega arith)))))

  p_upsert-Ends : (p : Parser) → Ends (length p.rest) (p_upsert g p)
  unfolding p_upsert
  p_upsert-Ends p =
      Ends-bind (length p.rest) (p_insert g p) _ (p_insert-Ends p)
        (λ p1 stmt le. Ends-returns _ p1 _ le)

  tagged-Ends :
      {A : Type 0} {n : ℕ} (c : A → Stmt) (m : Outcome (Parser × A))
      → Ends n m
      → Ends n (tagged g c m)
  unfolding tagged
  tagged-Ends {n} c m r = Ends-bind n m _ r (λ p a le. Ends-returns _ p _ le)

  p_stmt_rest-Ends : (p : Parser) → Ends (length p.rest) (p_stmt_rest g p)
  unfolding p_stmt_rest
  p_stmt_rest-Ends p = elim (Option-cases (p_keyword g p (codes "upsert" ∷ codes "into" ∷ []))) [
    | inr (p1, e) ↦
        rw (p_stmt_rest, e)
          (Ends-le _ _ (p_keyword-le g p (codes "upsert" ∷ codes "into" ∷ []) (omega arith) e)
            (tagged-Ends Stmt.insert (p_upsert g p1) (p_upsert-Ends p1)))
    | inl e ↦ elim (Option-cases (p_keyword g p (codes "update" ∷ []))) [
      | inr (p1, e1) ↦
          rw (p_stmt_rest, e, e1)
            (Ends-le _ _ (p_keyword-le g p (codes "update" ∷ []) (omega arith) e1)
              (tagged-Ends Stmt.update (p_update g p1) (p_update-Ends p1)))
      | inl e1 ↦ elim (Option-cases (p_keyword g p (codes "delete" ∷ []))) [
        | inr (p1, e2) ↦
            rw (p_stmt_rest, e, e1, e2)
              (Ends-le _ _ (p_keyword-le g p (codes "delete" ∷ []) (omega arith) e2)
                (tagged-Ends Stmt.delete (p_delete g p1) (p_delete-Ends p1)))
        | inl e2 ↦ rw (p_stmt_rest, e, e1, e2) (Ends-returns _ p none (omega arith))
      ]
    ]
  ]

  -- On every input that does not begin with `create table`, parsing the statement returns: no loop of it runs on,
  -- and nothing panics. What it leaves is no longer than the input.
  pub p_query-Ends : (p : Parser) → Ends (length p.rest) (p_query g p)
  unfolding p_query
  p_query-Ends p = elim (Option-cases (p_keyword g p (codes "select" ∷ []))) [
    | inr (p1, e) ↦
        rw (p_query, e)
          (Ends-le _ _ (p_keyword-le g p (codes "select" ∷ []) (omega arith) e)
            (tagged-Ends Stmt.select (p_select g p1) (p_select-Ends p1)))
    | inl e ↦ elim (Option-cases (p_keyword g p (codes "insert" ∷ codes "into" ∷ []))) [
      | inr (p1, e1) ↦
          rw (p_query, e, e1)
            (Ends-le _ _ (p_keyword-le g p (codes "insert" ∷ codes "into" ∷ []) (omega arith) e1)
              (tagged-Ends Stmt.insert (p_insert g p1) (p_insert-Ends p1)))
      | inl e1 ↦ rw (p_query, e, e1) (p_stmt_rest-Ends p)
    ]
  ]
