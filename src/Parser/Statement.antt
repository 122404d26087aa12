-- ===== src/Parser/Statement.antt =====
-- parser/parser.go: the statements. A pointer that is returned as nil is `none`.
pub mod Create
pub mod ScanEnds
pub mod Ends
pub mod Hang
use auroradb.Prelude.{
  ℕ, zero, suc, ◌+◌, ◌-◌, ◌^◌, Bool, true, false, List, [], ◌∷◌, ◌++◌, Option, none, some, Bytes,
  codes, length, map,
}
use auroradb.Types.{Value, zero_value}
use auroradb.Parser.Syntax.{QlNode, Kids, node, nil, cons}
use auroradb.Prelude.Outcome.{Outcome, returns, panics, runs_on, ◌>>=◌}
use auroradb.Parser.Keywords.{
  Packages, Parser, p_err, p_keyword, expect, p_must_sym, read_num, read_sym,
}
use auroradb.Parser.Expr.{p_expr_or, p_expr_cmp, p_tuple}

pub record QlScan : Type 0 where
  pub table : Bytes
  pub key1 : Option QlNode
  pub key2 : Option QlNode
  pub filter : Option QlNode
  pub offset : ℕ
  pub limit : ℕ

abbrev pub empty_scan : QlScan
empty_scan = record { table = []; key1 = none; key2 = none; filter = none; offset = 0; limit = 0 }

pub record QlSelect : Type 0 where
  pub scan : QlScan
  pub name : List Bytes
  pub output : List QlNode

pub record QlUpdate : Type 0 where
  pub scan : QlScan
  pub name : List Bytes
  pub values : List QlNode

pub record QlInsert : Type 0 where
  pub table : Bytes
  pub name : List Bytes
  pub values : List QlNode
  pub is_upsert : Bool

pub record QlDelete : Type 0 where
  pub scan : QlScan

abbrev pub node_str : QlNode → Bytes
node_str (node v ks) = v.str

abbrev pub node_kids : QlNode → Kids
node_kids (node v ks) = ks

unfoldable pub kid_list : Kids → List QlNode
kid_list nil = []
kid_list (cons k ks) = k ∷ kid_list ks

unfoldable pub kid_strs : Kids → List Bytes
kid_strs nil = []
kid_strs (cons k ks) = node_str k ∷ kid_strs ks

module _ (g : Packages) where
  -- `pOffset` and `pLimit`: the number, 0 where there is none.
  unfoldable pub p_count : Parser → Bytes → Parser × ℕ
  p_count p msg =
      let (p1, v, ok) = read_num g p zero_value in
      elim ok [ true ↦ (p1, v.i64) | false ↦ (p_err p1 msg, v.i64) ]

  unfoldable pub p_offset : Parser → QlScan → Parser × QlScan
  p_offset p scan =
      let (p1, n) = p_count p (codes "expected number after offset") in
      (p1, record scan { offset = n })

  unfoldable pub p_limit : Parser → QlScan → Parser × QlScan
  p_limit p scan =
      let (p1, n) = p_count p (codes "expected number after limit") in
      (p1, record scan { limit = n })

  -- The loop over `and`: the conditions behind the first one.
  unfoldable pub conditions_loop : ℕ → Parser → Outcome (Parser × List QlNode)
  conditions_loop zero p = runs_on
  conditions_loop (suc fuel) p = elim (p_keyword g p (codes "and" ∷ [])) [
    | none ↦ returns (p, [])
    | some p1 ↦ (do
      (p2, c) ← p_expr_cmp g p1
      (p3, cs) ← conditions_loop fuel p2
      returns (p3, c ∷ cs))
  ]

  -- The end of `pIndexBy`.
  unfoldable pub set_keys : Parser → QlScan → QlNode → List QlNode → Parser × QlScan
  set_keys p scan first [] = (p, record scan { key1 = some first; key2 = none })
  set_keys p scan first (second ∷ []) = (p, record scan { key1 = some first; key2 = some second })
  set_keys p scan first (second ∷ third ∷ more) = (
    p_err p (codes "more than two conditions"),
    record scan { key1 = some first; key2 = some second },
  )

  unfoldable pub p_index_by : Parser → QlScan → Outcome (Parser × QlScan)
  p_index_by p scan = elim (p_keyword g p (codes "(" ∷ [])) [
    | some p1 ↦ (do
      (p2, n) ← p_tuple g p1
      returns (
        expect g p2 (codes ")") (codes "tuple is not closed"),
        record scan { key1 = some n; key2 = none },
      ))
    | none ↦ (do
      (p1, first) ← p_expr_cmp g p
      (p2, cs) ← conditions_loop (suc (length p1.rest)) p1
      returns (set_keys p2 scan first cs))
  ]

  -- `if pkeyword(p, "filter") { … }`
  unfoldable pub p_filter : Parser → QlScan → Outcome (Parser × QlScan)
  p_filter p scan = elim (p_keyword g p (codes "filter" ∷ [])) [
    | none ↦ returns (p, scan)
    | some p1 ↦ (do (p2, n) ← p_expr_or g p1; returns (p2, record scan { filter = some n }))
  ]

  unfoldable pub p_maybe :
      List Bytes → (Parser → QlScan → Parser × QlScan) → Parser × QlScan → Parser × QlScan
  p_maybe kws f (p, scan) = elim (p_keyword g p kws) [ none ↦ (p, scan) | some p1 ↦ f p1 scan ]

  unfoldable pub p_index : Parser → QlScan → Outcome (Parser × QlScan)
  p_index p scan = elim (p_keyword g p (codes "index" ∷ codes "by" ∷ [])) [
    | none ↦ returns (p, scan)
    | some p1 ↦ p_index_by p1 scan
  ]

  -- Without a limit, math.MaxInt64.
  unfoldable pub p_scan : Parser → QlScan → Outcome (Parser × QlScan)
  p_scan p scan = do
    (p1, scan1) ← p_index p scan
    (p2, scan2) ← p_filter p1 scan1
    returns (
        p_maybe (codes "limit" ∷ []) p_limit (
          p_maybe (codes "offset" ∷ []) p_offset
            (p2, record scan2 { offset = 0; limit = 2 ^ 63 - 1 })))

  -- The end of `pSelect`, `pUpdate` and `pDelete`: nil if there was an error before it.
  unfoldable pub p_end : {A : Type 0} → Parser → Bytes → A → Parser × Option A
  p_end p msg stmt = elim p.err [
    | [] ↦ (expect g p (codes ";") msg, some stmt)
    | e ∷ es ↦ (p, none)
  ]

  -- `if pkeyword(p, "as") { name = pMustSym(p) }`
  unfoldable pub p_name : Parser → Parser × Bytes
  p_name p = elim (p_keyword g p (codes "as" ∷ [])) [ none ↦ (p, []) | some p1 ↦ p_must_sym g p1 ]

  unfoldable pub p_select_expr : Parser → Outcome (Parser × (Bytes × QlNode))
  p_select_expr p = do (p1, n) ← p_expr_or g p; let (p2, name) = p_name p1; returns (p2, (name, n))

  unfoldable pub p_update_expr : Parser → Outcome (Parser × (Bytes × QlNode))
  p_update_expr p =
      let (p1, v, ok) = read_sym g p zero_value in
      do
        (p2, n) ←
            p_expr_or g
              (expect g p1 (codes "=") (codes "invalid update query syntax expected '=' "))
        returns (p2, (v.str, n))

  -- The loops of `pSelectExprList` and `pUpdateExprList` over the commas.
  unfoldable pub list_loop :
      {A : Type 0} → (Parser → Outcome (Parser × A)) → ℕ → Parser → Outcome (Parser × List A)
  list_loop item zero p = runs_on
  list_loop item (suc fuel) p = elim (p_keyword g p (codes "," ∷ [])) [
    | none ↦ returns (p, [])
    | some p1 ↦ (do (p2, x) ← item p1; (p3, xs) ← list_loop item fuel p2; returns (p3, x ∷ xs))
  ]

  unfoldable pub p_list :
      {A : Type 0} → (Parser → Outcome (Parser × A)) → Parser → Outcome (Parser × List A)
  p_list item p = do
    (p1, x) ← item p
    (p2, xs) ← list_loop item (suc (length p1.rest)) p1
    returns (p2, x ∷ xs)

  unfoldable pub p_select_expr_list : Parser → Outcome (Parser × List (Bytes × QlNode))
  p_select_expr_list = p_list p_select_expr

  unfoldable pub p_update_expr_list : Parser → Outcome (Parser × List (Bytes × QlNode))
  p_update_expr_list = p_list p_update_expr

  -- `*`, or the list of expressions with their names.
  unfoldable pub p_columns : Parser → Outcome (Parser × (List Bytes × List QlNode))
  p_columns p = elim (p_keyword g p (codes "*" ∷ [])) [
    | some p1 ↦ returns (p1, (codes "*" ∷ [], []))
    | none ↦ (do
      (p1, xs) ← p_select_expr_list p
      returns (p1, (map (λ x. x.0) xs, map (λ x. x.1) xs)))
  ]

  unfoldable pub p_select : Parser → Outcome (Parser × Option QlSelect)
  p_select p = do
    (p1, (names, output)) ← p_columns p
    let (p2, table) = p_must_sym g (expect g p1 (codes "from") (codes "expected `from` table"))
    (p3, scan) ← p_scan p2 (record empty_scan { table = table })
    returns (
        p_end p3 (codes "invalid select query syntax")
          (record { scan = scan; name = names; output = output }))

  unfoldable pub p_insert : Parser → Outcome (Parser × QlInsert)
  p_insert p =
      let msg = codes "invalid insert query syntax" in
      let (p1, table) = p_must_sym g p in
      do
        (p2, cols) ← p_tuple g (expect g p1 (codes "(") msg)
        (p3, vals) ←
            p_tuple g (
              expect g (expect g (expect g p2 (codes ")") msg) (codes "values") msg) (codes "(")
                msg)
        returns (
          expect g (expect g p3 (codes ")") msg) (codes ";") msg,
          record {
            table = table;
            name = kid_strs (node_kids cols);
            values = kid_list (node_kids vals);
            is_upsert = false;
          },
        )

  unfoldable pub p_upsert : Parser → Outcome (Parser × QlInsert)
  p_upsert p = do (p1, stmt) ← p_insert p; returns (p1, record stmt { is_upsert = true })

  unfoldable pub p_update : Parser → Outcome (Parser × Option QlUpdate)
  p_update p =
      let (p1, table) = p_must_sym g p in
      do
        (p2, xs) ←
            p_update_expr_list
              (expect g p1 (codes "set") (codes "invalid update query syntax expected 'set' "))
        (p3, scan) ← p_scan p2 (record empty_scan { table = table })
        returns (
            p_end p3 (codes "invalid update query syntax")
              (record { scan = scan; name = map (λ x. x.0) xs; values = map (λ x. x.1) xs }))

  unfoldable pub p_delete : Parser → Outcome (Parser × Option QlDelete)
  p_delete p =
      let (p1, table) = p_must_sym g (expect g p (codes "from") (codes "expected `from` table")) in
      do
        (p2, scan) ← p_scan p1 (record empty_scan { table = table })
        returns (p_end p2 (codes "invalid delete query syntax") (record { scan = scan }))
