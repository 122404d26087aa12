-- ===== src/Parser/Keywords.antt =====
-- parser/lexer.go: the parser's state, keywords, and the functions of Parser.Lexer on that state. What the code
-- calls of the packages unicode, strings and strconv is a parameter. A slice's capacity is taken for its length.
use auroradb.Prelude.{
  ℕ, Bool, ◌&&◌, ◌||◌, List, [], ◌∷◌, ◌++◌, Option, none, some, Bytes, length, take, drop, ltb,
  if◌then◌else◌,
}
use auroradb.Types.{Value}
use auroradb.Parser.Lexer.{
  skip_space, span, is_str, is_sym, p_num, p_str, p_sym, is_valid_keyword, Lexed,
}
use auroradb.Prelude.Outcome.{Outcome, returns, panics, runs_on}

pub record Packages : Type 0 where
  pub is_space : ℕ → Bool
  pub is_letter : ℕ → Bool
  pub is_number : ℕ → Bool
  pub equal_fold : Bytes → Bytes → Bool
  pub to_lower : Bytes → Bytes
  pub atoi : Bytes → Option ℕ

-- `Parser`: what stands from `Idx` on in `Input`, and the messages that make up `Err`.
pub record Parser : Type 0 where
  pub rest : Bytes
  pub err : List Bytes

abbrev pub p_err : Parser → Bytes → Parser
p_err p msg = record p { err = p.err ++ (msg ∷ []) }

module _ (g : Packages) where
  -- One round of `pkeyword`: what stands behind the word.
  unfoldable pub word_at : Bytes → Bytes → Option Bytes
  word_at kw s =
      if ltb (length s) (length kw)
      then none
      else if g.equal_fold (take (length kw) s) kw && is_valid_keyword g.equal_fold (g.to_lower kw)
      then some (drop (length kw) s)
      else none

  unfoldable pub words_at : List Bytes → Bytes → Option Bytes
  words_at [] s = some s
  words_at (kw ∷ kws) s = elim (word_at kw (skip_space g.is_space s)) [
    | none ↦ none
    | some rest ↦ words_at kws rest
  ]

  -- `pkeyword`: `none` is false, and then the parser stays where it is.
  unfoldable pub p_keyword : Parser → List Bytes → Option Parser
  p_keyword p kws = elim (words_at kws p.rest) [
    | none ↦ none
    | some rest ↦ some (record p { rest = rest })
  ]

  -- `if !pkeyword(p, kw) { pErr(p, …, msg) }`
  unfoldable pub expect : Parser → Bytes → Bytes → Parser
  expect p kw msg = elim (p_keyword p (kw ∷ [])) [ none ↦ p_err p msg | some p1 ↦ p1 ]

  -- `peekNextToken`: it moves behind the space. At the end of the input the slice expression panics.
  unfoldable pub peek_token : Bytes → Outcome Bytes
  peek_token [] = panics
  peek_token (c ∷ s) =
      returns (c ∷ (span (λ b. is_str g.is_letter g.is_number b || g.is_number b) s).0)

  unfoldable pub peek_next_token : Parser → Outcome (Parser × Bytes)
  peek_next_token p = elim (peek_token (skip_space g.is_space p.rest)) [
    | returns token ↦ returns (record p { rest = skip_space g.is_space p.rest }, token)
    | panics ↦ panics
    | runs_on ↦ runs_on
  ]

  -- `pMustSym`
  unfoldable pub p_must_sym : Parser → Parser × Bytes
  p_must_sym p =
      let (sym, rest) = span (is_sym g.is_letter g.is_number) (skip_space g.is_space p.rest) in
      (record p { rest = rest }, sym)

  -- `pNum`, `pStr` and `pSym` on a node's value.
  abbrev pub at_parser : Parser → Lexed → Parser × Value × Bool
  at_parser p (rest, v, ok) = (record p { rest = rest }, v, ok)

  unfoldable pub read_num : Parser → Value → Parser × Value × Bool
  read_num p v = at_parser p (p_num g.is_space g.is_number g.atoi p.rest v)

  unfoldable pub read_str : Parser → Value → Parser × Value × Bool
  read_str p v =
      at_parser p (p_str g.is_space g.is_letter g.is_number g.equal_fold g.to_lower p.rest v)

  unfoldable pub read_sym : Parser → Value → Parser × Value × Bool
  read_sym p v =
      at_parser p (p_sym g.is_space g.is_letter g.is_number g.equal_fold g.to_lower p.rest v)
