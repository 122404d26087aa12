-- ===== src/Parser/Lexer.antt =====
-- parser/lexer.go: numbers, strings and symbols. The state of the parser is what stands from `Idx` on in
-- `Input`, since no function here looks back. Package unicode, strings.ToLower,
-- strings.EqualFold and strconv.Atoi are parameters, Atoi with `none` for its error.
pub mod Tokens
use auroradb.Prelude.{
  ℕ, Bool, true, false, not, ◌||◌, List, [], ◌∷◌, Option, none, some, Bytes, codes, ◌==◌,
  if◌then◌else◌,
}
use auroradb.Types.{Value}
use auroradb.Parser.Syntax.{ql_str, ql_i64, ql_sym}

unfoldable pub skip_space : (ℕ → Bool) → Bytes → Bytes
skip_space is_space [] = []
skip_space is_space (c ∷ s) = let rest = skip_space is_space s in if is_space c then rest else c ∷ s

-- `for ptr < len(p.Input) && test(p.Input[ptr]) { ptr++ }`: the bytes passed over, and the rest.
unfoldable pub span : (ℕ → Bool) → Bytes → Bytes × Bytes
span test [] = ([], [])
span test (c ∷ s) = let (run, rest) = span test s in if test c then (c ∷ run, rest) else ([], c ∷ s)

abbrev pub is_sym_start : ℕ → Bool
is_sym_start c = c == 64

module _ (is_letter is_number : ℕ → Bool) where
  unfoldable pub is_str : ℕ → Bool
  is_str c = is_letter c || is_number c

  unfoldable pub is_sym : ℕ → Bool
  is_sym c = is_letter c || is_number c || c == 95

-- The rest, the node's value and the result of the function.
abbrev pub Lexed : Type 0
Lexed = Bytes × Value × Bool

-- `pNum`; the type is set even if the number is refused.
module _ (is_space is_number : ℕ → Bool) (atoi : Bytes → Option ℕ) where
  unfoldable pub number_at : Bytes → Value → Lexed
  number_at [] node = ([], node, false)
  number_at (c ∷ s) node =
      let (digits, rest) = span is_number (c ∷ s) in
      elim (atoi digits) [
        | none ↦ (c ∷ s, record node { type = ql_i64 }, false)
        | some num ↦ (rest, record node { type = ql_i64; i64 = num }, true)
      ]

  unfoldable pub p_num : Bytes → Value → Lexed
  p_num s node = number_at (skip_space is_space s) node

abbrev pub key_words : List Bytes
key_words =
    codes "create"
    ∷ codes "table"
    ∷ codes "select"
    ∷ codes "index"
    ∷ codes "by"
    ∷ codes "upsert"
    ∷ codes "insert"
    ∷ codes "filter"
    ∷ codes "into"
    ∷ codes "delete"
    ∷ codes "from"
    ∷ codes "update"
    ∷ codes ","
    ∷ codes "("
    ∷ codes ")"
    ∷ codes "-"
    ∷ codes "as"
    ∷ codes "or"
    ∷ codes "and"
    ∷ codes "+"
    ∷ codes "*"
    ∷ codes "/"
    ∷ codes "%"
    ∷ codes ";"
    ∷ codes ">="
    ∷ codes "<="
    ∷ codes "=="
    ∷ codes "="
    ∷ codes ">"
    ∷ codes "<"
    ∷ codes "offset"
    ∷ codes "limit"
    ∷ codes "primary"
    ∷ codes "key"
    ∷ codes "values"
    ∷ codes "set"
    ∷ []

unfoldable pub any_fold : (Bytes → Bytes → Bool) → Bytes → List Bytes → Bool
any_fold equal_fold s [] = false
any_fold equal_fold s (token ∷ tokens) = equal_fold s token || any_fold equal_fold s tokens

unfoldable pub is_valid_keyword : (Bytes → Bytes → Bool) → Bytes → Bool
is_valid_keyword equal_fold s = any_fold equal_fold s key_words

module _ (is_space is_letter is_number : ℕ → Bool) (equal_fold : Bytes → Bytes → Bool)
    (to_lower : Bytes → Bytes) where
  unfoldable pub string_at : Bytes → Value → Lexed
  string_at [] node = ([], node, false)
  string_at (c ∷ s) node =
      let (word, rest) = span (is_str is_letter is_number) (c ∷ s) in
      if is_valid_keyword equal_fold (to_lower word)
      then (c ∷ s, node, false)
      else (rest, record node { type = ql_str; str = word }, true)

  unfoldable pub p_str : Bytes → Value → Lexed
  p_str s node = string_at (skip_space is_space s) node

  -- The `@` is passed over even if a keyword behind it is refused.
  unfoldable pub symbol_at : Bytes → Value → Lexed
  symbol_at [] node = ([], node, false)
  symbol_at (c ∷ s) node =
      let (word, rest) = span (is_sym is_letter is_number) s in
      if not (is_sym_start c)
      then (c ∷ s, node, false)
      else if is_valid_keyword equal_fold (to_lower word)
      then (s, node, false)
      else (rest, record node { type = ql_sym; str = word }, true)

  unfoldable pub p_sym : Bytes → Value → Lexed
  p_sym s node = symbol_at (skip_space is_space s) node
