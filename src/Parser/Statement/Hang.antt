-- ===== src/Parser/Statement/Hang.antt =====
-- parser/parser.go: where the loop of `pCreateTable` over the columns does not end.
use auroradb.Prelude.{
  ℕ, zero, suc, false, ◌||◌, ◌≡◌, ◌≢◌, refl, ap, ◌∙◌, [], ◌∷◌, Option, none, some, Bytes, codes,
  arith,
}
use auroradb.Prelude.Tests.{equal}
use auroradb.Types.{zero_value}
use auroradb.Parser.Lexer.{skip_space, span, is_str, p_str, string_at, is_valid_keyword}
use auroradb.Prelude.Outcome.{returns, runs_on}
use auroradb.Parser.Keywords.{
  Packages, Parser, p_keyword, expect, peek_token, peek_next_token, read_str, word_at, words_at,
}
use auroradb.Parser.Statement.Create.{column_round, columns_loop, syntax_error, table_body}

-- The byte at the parser is no space, no letter and no digit, and no comma begins there.
pub record IsStuck (g : Packages) (c : ℕ) (s : Bytes) : Type 0 where
  pub no_i : c ≢ b'i'
  pub no_p : c ≢ b'p'
  pub no_space : g.is_space c ≡ false
  pub no_str : is_str g.is_letter g.is_number c ≡ false
  pub no_comma : word_at g (codes ",") (c ∷ s) ≡ none
  pub no_word : is_valid_keyword g.equal_fold (g.to_lower []) ≡ false

module _ (g : Packages) (c : ℕ) (s : Bytes) (st : IsStuck g c s) where
  skip : skip_space g.is_space (c ∷ s) ≡ c ∷ s
  unfolding skip_space
  skip = rw st.no_space

  empty_run : span (is_str g.is_letter g.is_number) (c ∷ s) ≡ ([], c ∷ s)
  unfolding span
  empty_run = rw st.no_str

  -- The empty string is taken for a name.
  read_str_stuck : (p : Parser) → p.rest ≡ c ∷ s → (read_str g p zero_value).0.rest ≡ c ∷ s
  unfolding read_str p_str string_at
  read_str_stuck p e = rw (e, skip, string_at, empty_run, st.no_word)

  no_word_at : words_at g (codes "," ∷ []) (c ∷ s) ≡ none
  unfolding words_at
  no_word_at =
      ap (λ o. elim o as (λ _. Option Bytes) [ none ↦ none | some rest ↦ some rest ])
        (ap (word_at g (codes ",")) skip ∙ st.no_comma)

  no_keyword : (p : Parser) → p.rest ≡ c ∷ s → p_keyword g p (codes "," ∷ []) ≡ none
  unfolding p_keyword
  no_keyword p e = rw (p_keyword, e, no_word_at)

  expect_stuck : (p : Parser) → p.rest ≡ c ∷ s → (expect g p (codes ",") syntax_error).rest ≡ c ∷ s
  unfolding expect
  expect_stuck p e = rw (expect, no_keyword p e) e

  column_round_stuck : (p : Parser) → p.rest ≡ c ∷ s → (column_round g p).0.rest ≡ c ∷ s
  unfolding column_round
  column_round_stuck p e =
      expect_stuck (read_str g (read_str g p zero_value).0 zero_value).0
        (read_str_stuck (read_str g p zero_value).0 (read_str_stuck p e))

  peek_next_token_returns :
      (p : Parser) {t : Bytes}
      → peek_token g (skip_space g.is_space p.rest) ≡ returns t
      → peek_next_token g p ≡ returns (record p { rest = skip_space g.is_space p.rest }, t)
  unfolding peek_next_token
  peek_next_token_returns p e = rw (peek_next_token, e)

  peek_stuck :
      (p : Parser)
      → p.rest ≡ c ∷ s
      → (q : Parser) × (t : Bytes) × (peek_next_token g p ≡ returns (q, c ∷ t)) × (q.rest ≡ c ∷ s)
  unfolding peek_next_token peek_token
  peek_stuck p e = (
    record p { rest = skip_space g.is_space p.rest },
    (span (λ b. is_str g.is_letter g.is_number b || g.is_number b) s).0,
    peek_next_token_returns p
        (ap (λ r. peek_token g (skip_space g.is_space r)) e ∙ ap (peek_token g) skip),
    ap (skip_space g.is_space) e ∙ skip,
  )

  no_key_word :
      (t : Bytes) → equal (c ∷ t) (codes "index") || equal (c ∷ t) (codes "primary") ≡ false
  unfolding equal
  no_key_word t = ground (arith, st.no_i, st.no_p)

  columns_loop_stuck :
      (fuel : ℕ) (p : Parser) (t : Bytes) → p.rest ≡ c ∷ s → columns_loop g fuel p (c ∷ t) ≡ runs_on
  unfolding columns_loop
  columns_loop_stuck zero p t e = refl
  columns_loop_stuck (suc fuel) p t e =
      let (q, u, eq, rest) = peek_stuck (column_round g p).0 (column_round_stuck p e) in
      rw (columns_loop, no_key_word t, eq, columns_loop_stuck fuel q u rest)

  -- If a byte that is no space, no letter, no digit and no comma follows the opening parenthesis of `create table`,
  -- the loop over the columns has no end: whatever number of rounds is allowed, all are used up.
  pub table_body_stuck :
      (fuel : ℕ) (p : Parser) (name : Bytes) → p.rest ≡ c ∷ s → table_body g fuel p name ≡ runs_on
  unfolding table_body
  table_body_stuck fuel p name e =
      let (q, u, eq, rest) = peek_stuck p e in rw (eq, columns_loop_stuck fuel q u rest)
