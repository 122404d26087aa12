-- ===== src/Parser/Lexer/Tokens.antt =====
-- parser/lexer.go: which bytes a token is.
use auroradb.Prelude.{
  ℕ, Bool, true, false, not, inl, inr, Bool-cases, ◌≡◌, refl, ap, ◌∙◌, [], ◌∷◌, ◌++◌, Option, some,
  Bytes, All, arith,
}
use auroradb.Types.{Value}
use auroradb.Parser.Syntax.{ql_i64}
use auroradb.Parser.Lexer.{skip_space, span, number_at, p_num}

-- Nothing is left, or a byte that fails the test.
unfoldable pub stops : (ℕ → Bool) → Bytes → Bool
stops test [] = true
stops test (c ∷ s) = not (test c)

skip_space-append :
    (is_space : ℕ → Bool) (spaces : Bytes) (c : ℕ) (s : Bytes)
    → All (λ b. is_space b ≡ true) spaces
    → is_space c ≡ false
    → skip_space is_space (spaces ++ c ∷ s) ≡ c ∷ s
unfolding skip_space
skip_space-append is_space [] c s all miss = rw miss
skip_space-append is_space (b ∷ spaces) c s (hit, all) miss =
    rw hit (skip_space-append is_space spaces c s all miss)

span-append :
    (test : ℕ → Bool) (run rest : Bytes)
    → All (λ b. test b ≡ true) run
    → stops test rest ≡ true
    → span test (run ++ rest) ≡ (run, rest)
unfolding span stops
span-append test [] [] all end = refl
span-append test [] (c ∷ rest) all end = elim (Bool-cases (test c)) [
  | inl hit ↦ absurd (ground (arith, hit))
  | inr miss ↦ rw miss
]
span-append test (b ∷ run) rest (hit, all) end = rw (hit, span-append test run rest all end)

-- Behind spaces, `pNum` takes the longest run of digits, if the conversion accepts it, and leaves what stands
-- behind the run.
pub p_num-append :
    (is_space is_number : ℕ → Bool) (atoi : Bytes → Option ℕ) (spaces digits rest : Bytes)
    (d num : ℕ) (node : Value)
    → All (λ b. is_space b ≡ true) spaces
    → is_space d ≡ false
    → All (λ b. is_number b ≡ true) (d ∷ digits)
    → stops is_number rest ≡ true
    → atoi (d ∷ digits) ≡ some num
    → p_num is_space is_number atoi (spaces ++ (d ∷ (digits ++ rest))) node
      ≡ (rest, record node { type = ql_i64; i64 = num }, true)
unfolding p_num number_at
p_num-append is_space is_number atoi spaces digits rest d num node blank first all end num_read =
    let start : skip_space is_space (spaces ++ (d ∷ (digits ++ rest))) ≡ d ∷ (digits ++ rest) =
      skip_space-append is_space spaces d (digits ++ rest) blank first in
    let run : span is_number (d ∷ (digits ++ rest)) ≡ (d ∷ digits, rest) =
      span-append is_number (d ∷ digits) rest all end in
    ap (λ s. number_at is_space is_number atoi s node) start
    ∙ rw (number_at, run, num_read)
        (ap (λ q. (q.1, record node { type = ql_i64; i64 = num }, true)) run)
