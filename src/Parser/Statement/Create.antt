-- ===== src/Parser/Statement/Create.antt =====
-- parser/parser.go: `pCreateTable` and `PStmt`. The two loops of `pCreateTable` run on fuel: they need not end.
use auroradb.Prelude.{
  ℕ, zero, suc, true, false, ◌||◌, List, [], ◌∷◌, Option, none, some, Bytes, codes, length, map,
  if◌then◌else◌,
}
use auroradb.Prelude.Tests.{equal}
use auroradb.Types.{TableDef, zero_value, type_bytes, type_int64}
use auroradb.Parser.Syntax.{QlNode, nil, cons}
use auroradb.Prelude.Outcome.{Outcome, returns, runs_on, ◌>>=◌}
use auroradb.Parser.Keywords.{Packages, Parser, p_err, p_keyword, expect, peek_next_token, read_str}
use auroradb.Parser.Expr.{p_tuple}
use auroradb.Parser.Statement.{
  QlSelect, QlUpdate, QlInsert, QlDelete, node_str, node_kids, kid_strs, p_select, p_insert,
  p_upsert, p_update, p_delete,
}

-- The interface that `PStmt` returns; `create none` holds a nil pointer.
pub data Stmt : Type 0 where
  create : Option TableDef → Stmt
  select : Option QlSelect → Stmt
  insert : QlInsert → Stmt
  update : Option QlUpdate → Stmt
  delete : Option QlDelete → Stmt

-- The strings of a tuple, or the one of what is no tuple.
unfoldable pub node_names : QlNode → List Bytes
node_names n = elim (node_kids n) [ nil ↦ node_str n ∷ [] | cons k ks ↦ kid_strs (cons k ks) ]

-- The switch on a column's type, and its error.
unfoldable pub column_type : Bytes → Option ℕ
column_type s =
    if equal s (codes "int")
    then some type_int64
    else if equal s (codes "bytes") || equal s (codes "string")
    then some type_bytes
    else none

unfoldable pub column_types : Parser → List (Bytes × Bytes) → Parser × List ℕ
column_types p [] = (p, [])
column_types p ((name, type) ∷ cols) = elim (column_type type) [
  | some t ↦ (let (p1, ts) = column_types p cols in (p1, t ∷ ts))
  | none ↦ (let (p1, ts) = column_types (p_err p (codes "invalid type")) cols in (p1, 0 ∷ ts))
]

abbrev pub syntax_error : Bytes
syntax_error = codes "invalid create table syntax"

abbrev pub index_error : Bytes
index_error = codes "invalid create table syntax (declaring index)"

module _ (g : Packages) where
  -- One round of the loop over the columns: the name, the type and the comma.
  unfoldable pub column_round : Parser → Parser × (Bytes × Bytes)
  column_round p =
      let (p1, name, named) = read_str g p zero_value in
      let (p2, type, typed) = read_str g p1 zero_value in
      (expect g p2 (codes ",") syntax_error, (name.str, type.str))

  unfoldable pub columns_loop : ℕ → Parser → Bytes → Outcome (Parser × Bytes × List (Bytes × Bytes))
  columns_loop zero p token = runs_on
  columns_loop (suc fuel) p token =
      elim (equal token (codes "index") || equal token (codes "primary")) [
        | true ↦ returns (p, token, [])
        | false ↦ (do
          (p1, next) ← peek_next_token g (column_round p).0
          (p2, last, cols) ← columns_loop fuel p1 next
          returns (p2, last, (column_round p).1 ∷ cols))
      ]

  -- One round of the loop over the indexes.
  unfoldable pub index_round : Parser → Outcome (Parser × List Bytes)
  index_round p =
      let p1 : Parser = elim (p_keyword g p (codes "index" ∷ [])) [ none ↦ p | some p1 ↦ p1 ] in
      do
        (p2, n) ← p_tuple g (expect g p1 (codes "(") index_error)
        returns
            (expect g (expect g p2 (codes ")") index_error) (codes ",") index_error, node_names n)

  unfoldable pub indexes_loop : ℕ → Parser → Bytes → Outcome (Parser × List (List Bytes))
  indexes_loop zero p token = runs_on
  indexes_loop (suc fuel) p token = elim (equal token (codes "primary")) [
    | true ↦ returns (p, [])
    | false ↦ (do
      (p1, idx) ← index_round p
      (p2, next) ← peek_next_token g p1
      (p3, idxs) ← indexes_loop fuel p2 next
      returns (p3, idx ∷ idxs))
  ]

  -- From `primary key` to the semicolon.
  unfoldable pub p_primary_key : Parser → Outcome (Parser × List Bytes)
  p_primary_key p =
      let p1 : Parser = elim (p_keyword g p (codes "primary" ∷ codes "key" ∷ [])) [
        | none ↦ p_err p (codes "invalid syntax, primary keys declaration")
        | some p1 ↦ p1
      ] in
      do
        (p2, n) ← p_tuple g (expect g p1 (codes "(") (codes "no primary key"))
        returns (
          expect g (expect g (expect g p2 (codes ")") syntax_error) (codes ")") syntax_error)
              (codes ";") syntax_error,
          node_names n,
        )

  -- What `pCreateTable` does behind the opening parenthesis.
  unfoldable pub table_body : ℕ → Parser → Bytes → Outcome (Parser × TableDef)
  table_body fuel p name = do
    (p1, token) ← peek_next_token g p
    (p2, next, cols) ← columns_loop fuel p1 token
    (p3, indexes) ← indexes_loop fuel p2 next
    (p4, pks) ← p_primary_key p3
    let (p5, types) = column_types p4 cols
    returns (
      p5,
      record {
        name = name;
        cols = map (λ c. c.0) cols;
        types = types;
        pkeys = length pks;
        prefixes = [];
        indexes = pks ∷ indexes;
      },
    )

  unfoldable pub p_create_table : ℕ → Parser → Outcome (Parser × Option TableDef)
  p_create_table fuel p =
      let (p1, name, named) = read_str g p zero_value in
      elim (p_keyword g p1 (codes "(" ∷ [])) [
        | none ↦ returns (p_err p1 syntax_error, none)
        | some p2 ↦ (do (p3, tdef) ← table_body fuel p2 name.str; returns (p3, some tdef))
      ]

  unfoldable pub tagged :
      {A : Type 0} → (A → Stmt) → Outcome (Parser × A) → Outcome (Parser × Option Stmt)
  tagged c m = do (p, a) ← m; returns (p, some (c a))

  -- The cases of `PStmt` behind those of `create table`, `select` and `insert into`.
  unfoldable pub p_stmt_rest : Parser → Outcome (Parser × Option Stmt)
  p_stmt_rest p = elim (p_keyword g p (codes "upsert" ∷ codes "into" ∷ [])) [
    | some p1 ↦ tagged Stmt.insert (p_upsert g p1)
    | none ↦ elim (p_keyword g p (codes "update" ∷ [])) [
      | some p1 ↦ tagged Stmt.update (p_update g p1)
      | none ↦ elim (p_keyword g p (codes "delete" ∷ [])) [
        | some p1 ↦ tagged Stmt.delete (p_delete g p1)
        | none ↦ returns (p, none)
      ]
    ]
  ]

  unfoldable pub p_query : Parser → Outcome (Parser × Option Stmt)
  p_query p = elim (p_keyword g p (codes "select" ∷ [])) [
    | some p1 ↦ tagged Stmt.select (p_select g p1)
    | none ↦ elim (p_keyword g p (codes "insert" ∷ codes "into" ∷ [])) [
      | some p1 ↦ tagged Stmt.insert (p_insert g p1)
      | none ↦ p_stmt_rest p
    ]
  ]

  unfoldable pub p_stmt : ℕ → Parser → Outcome (Parser × Option Stmt)
  p_stmt fuel p = elim (p_keyword g p (codes "create" ∷ codes "table" ∷ [])) [
    | some p1 ↦ tagged Stmt.create (p_create_table fuel p1)
    | none ↦ p_query p
  ]
