-- ===== src/Parser/Expr/Shrinks.antt =====
-- parser/lexer.go: no function of the lexer gives text back, and a keyword takes some.
use auroradb.Prelude.{
  ℕ, zero, suc, Bool, ◌≤◌, ◌<◌, ◌≡◌, List, [], ◌∷◌, some, Bytes, length, drop, arith, Option-cases,
  inl, inr, All,
}
use auroradb.Types.{Value}
use auroradb.Parser.Lexer.{
  skip_space, span, number_at, p_num, string_at, p_str, symbol_at, p_sym, is_sym, is_str,
}
use auroradb.Parser.Keywords.{
  Packages, Parser, word_at, words_at, p_keyword, expect, p_must_sym, read_num, read_str, read_sym,
}

skip_space-le : (test : ℕ → Bool) (s : Bytes) → length (skip_space test s) ≤ length s
unfolding skip_space
skip_space-le test [] = omega arith
skip_space-le test (c ∷ s) = ground (arith, skip_space-le test s)

span-le : (test : ℕ → Bool) (s : Bytes) → length (span test s).1 ≤ length s
unfolding span
span-le test [] = omega arith
span-le test (c ∷ s) = ground (arith, span-le test s)

drop-le : (n : ℕ) (s : Bytes) → 0 < n → n ≤ length s → length (drop n s) < length s
drop-le zero s h k = absurd (omega arith)
drop-le (suc n) [] h k = absurd (omega arith)
drop-le (suc zero) (c ∷ s) h k = omega arith
drop-le (suc (suc n)) (c ∷ s) h k = omega (arith, drop-le (suc n) s (omega arith) (omega arith))

module _ (g : Packages) where
  word_at-lt :
      (kw s : Bytes) {t : Bytes} → 0 < length kw → word_at g kw s ≡ some t → length t < length s
  unfolding word_at
  word_at-lt kw s pos e = ground (arith, drop-le (length kw) s)

  pub p_keyword-lt :
      (p : Parser) (kw : Bytes) {p1 : Parser}
      → 0 < length kw
      → p_keyword g p (kw ∷ []) ≡ some p1
      → length p1.rest < length p.rest
  unfolding p_keyword words_at
  p_keyword-lt p kw pos e = elim (Option-cases (word_at g kw (skip_space g.is_space p.rest))) [
    | inl h ↦ absurd (ground (arith, h, e))
    | inr (t, h) ↦ ground (
      arith,
      h,
      e,
      word_at-lt kw (skip_space g.is_space p.rest) pos h,
      skip_space-le g.is_space p.rest,
    )
  ]

  pub expect-le :
      (p : Parser) (kw msg : Bytes)
      → 0 < length kw
      → length (expect g p kw msg).rest ≤ length p.rest
  unfolding expect
  expect-le p kw msg pos = elim (Option-cases (p_keyword g p (kw ∷ []))) [
    | inl h ↦ rw (length, h) (omega arith)
    | inr (p1, h) ↦ rw (length, h) (omega (arith, p_keyword-lt p kw pos h))
  ]

  number_at-le :
      (s : Bytes) (v : Value) → length (number_at g.is_space g.is_number g.atoi s v).0 ≤ length s
  unfolding number_at
  number_at-le [] v = omega arith
  number_at-le (c ∷ s) v = ground (arith, span-le g.is_number (c ∷ s))

  pub read_num-le : (p : Parser) (v : Value) → length (read_num g p v).0.rest ≤ length p.rest
  unfolding read_num p_num
  read_num-le p v =
      omega (arith, number_at-le (skip_space g.is_space p.rest) v, skip_space-le g.is_space p.rest)

  string_at-le :
      (s : Bytes) (v : Value)
      → length (string_at g.is_space g.is_letter g.is_number g.equal_fold g.to_lower s v).0
        ≤ length s
  unfolding string_at
  string_at-le [] v = omega arith
  string_at-le (c ∷ s) v = ground (arith, span-le (is_str g.is_letter g.is_number) (c ∷ s))

  pub read_str-le : (p : Parser) (v : Value) → length (read_str g p v).0.rest ≤ length p.rest
  unfolding read_str p_str
  read_str-le p v =
      omega (arith, string_at-le (skip_space g.is_space p.rest) v, skip_space-le g.is_space p.rest)

  symbol_at-le :
      (s : Bytes) (v : Value)
      → length (symbol_at g.is_space g.is_letter g.is_number g.equal_fold g.to_lower s v).0
        ≤ length s
  unfolding symbol_at
  symbol_at-le [] v = omega arith
  symbol_at-le (c ∷ s) v = ground (arith, span-le (is_sym g.is_letter g.is_number) s)

  pub read_sym-le : (p : Parser) (v : Value) → length (read_sym g p v).0.rest ≤ length p.rest
  unfolding read_sym p_sym
  read_sym-le p v =
      omega (arith, symbol_at-le (skip_space g.is_space p.rest) v, skip_space-le g.is_space p.rest)

  pub p_must_sym-le : (p : Parser) → length (p_must_sym g p).0.rest ≤ length p.rest
  unfolding p_must_sym
  p_must_sym-le p = omega (
    arith,
    span-le (is_sym g.is_letter g.is_number) (skip_space g.is_space p.rest),
    skip_space-le g.is_space p.rest,
  )

  words_at-le :
      (kws : List Bytes) (s : Bytes) {t : Bytes}
      → All (λ kw. 0 < length kw) kws
      → words_at g kws s ≡ some t
      → length t ≤ length s
  unfolding words_at
  words_at-le [] s a e = ground (arith, e)
  words_at-le (kw ∷ kws) s (pos, a) e =
      elim (Option-cases (word_at g kw (skip_space g.is_space s))) [
        | inl h ↦ absurd (ground (arith, h, e))
        | inr (t, h) ↦ omega (
          arith,
          words_at-le kws t a (rw (words_at, h) at e),
          word_at-lt kw (skip_space g.is_space s) pos h,
          skip_space-le g.is_space s,
        )
      ]

  -- Several words.
  pub p_keyword-le :
      (p : Parser) (kws : List Bytes) {p1 : Parser}
      → All (λ kw. 0 < length kw) kws
      → p_keyword g p kws ≡ some p1
      → length p1.rest ≤ length p.rest
  unfolding p_keyword
  p_keyword-le p kws a e = elim (Option-cases (words_at g kws p.rest)) [
    | inl h ↦ absurd (ground (arith, h, e))
    | inr (t, h) ↦ ground (arith, h, e, words_at-le kws p.rest a h)
  ]
