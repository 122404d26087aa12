-- ===== src/Types/Key/Order.antt =====
-- types/schema.go: the bytes of `EncodeKey` are ordered as the tuples that they encode.
use auroradb.Prelude.{
  ℕ, ◌<◌, ◌^◌, ◌≡◌, refl, sym, ◌∙◌, List, [], ◌∷◌, ◌++◌, append_assoc, some, Bytes, ◌==◌,
  if◌then◌else◌, compare, Ordering, arith,
}
use auroradb.Prelude.Panic.{some-injective, >>=-eq-some}
use auroradb.Prelude.Words.{big_endian, length-big_endian, compare_int}
use auroradb.Prelude.Compare.{
  ◌then_by◌, compare_bytes, compare_bytes-append, compare_bytes-big_endian,
}
use auroradb.Types.{Value, type_bytes}
use auroradb.Types.Codec.Order.{compare_bytes-serialize_bytes, compare_bytes-serialize_int}
use auroradb.Types.Key.{encode_value, encode_values, encode_key}
use auroradb.Types.Key.RoundTrip.{Typed, bytes, int, HasTypes, length-serialize_int}

-- The order that keys are meant to have: strings by their bytes, integers by their signed values, and
-- tuples by the first column that differs.
unfoldable pub compare_value : Value → Value → Ordering
compare_value v w =
    if v.type == type_bytes then compare_bytes v.str w.str else compare_int v.i64 w.i64

unfoldable pub compare_values : List Value → List Value → Ordering
unfolding compare_value
compare_values [] [] = Ordering.eq
compare_values [] (w ∷ ws) = Ordering.lt
compare_values (v ∷ vs) [] = Ordering.gt
compare_values (v ∷ vs) (w ∷ ws) = compare_value v w then_by compare_values vs ws

compare_bytes-encode_value :
    {k : ℕ} {v w : Value} {a b : Bytes} (s t : Bytes)
    → Typed k v
    → Typed k w
    → encode_value v ≡ some a
    → encode_value w ≡ some b
    → compare_bytes (a ++ s) (b ++ t) ≡ (compare_value v w then_by compare_bytes s t)
unfolding encode_value compare_value
compare_bytes-encode_value s t (bytes x) (bytes y) ea eb =
    rw (← some-injective ea, ← some-injective eb, append_assoc, append_assoc)
      (compare_bytes-serialize_bytes x y s t)
compare_bytes-encode_value {a = a} {b = b} s t (int x hx nx) (int y hy ny) ea eb =
    compare_bytes-append a b s t (length-serialize_int x hx ea ∙ sym (length-serialize_int y hy eb))
    ∙ rw (compare_bytes-serialize_int x y hx hy ea eb)

compare_bytes-encode_values :
    (ts : List ℕ) (vs ws : List Value) {a b : Bytes}
    → HasTypes ts vs
    → HasTypes ts ws
    → encode_values vs ≡ some a
    → encode_values ws ≡ some b
    → compare_bytes a b ≡ compare_values vs ws
unfolding encode_values compare_values
compare_bytes-encode_values [] [] [] hv hw ea eb =
    rw (← some-injective ea, ← some-injective eb) (unfold compare_bytes in refl)
compare_bytes-encode_values [] [] (w ∷ ws) hv hw ea eb = elim hw [ ]
compare_bytes-encode_values [] (v ∷ vs) ws hv hw ea eb = elim hv [ ]
compare_bytes-encode_values (t ∷ ts) [] ws hv hw ea eb = elim hv [ ]
compare_bytes-encode_values (t ∷ ts) (v ∷ vs) [] hv hw ea eb = elim hw [ ]
compare_bytes-encode_values (t ∷ ts) (v ∷ vs) (w ∷ ws) (hv, hvs) (hw, hws) ea eb =
    let (x, ex, ea1) = >>=-eq-some (encode_value v) _ ea in
    let (s, es, ea2) = >>=-eq-some (encode_values vs) _ ea1 in
    let (y, ey, eb1) = >>=-eq-some (encode_value w) _ eb in
    let (r, er, eb2) = >>=-eq-some (encode_values ws) _ eb1 in
    rw (
      ← some-injective ea2,
      ← some-injective eb2,
      compare_bytes-encode_value s r hv hw ex ey,
      compare_bytes-encode_values ts vs ws hvs hws es er,
    )

compare_bytes-prefix :
    (p q : ℕ) (s t : Bytes)
    → p < 2 ^ 32
    → q < 2 ^ 32
    → compare_bytes (big_endian 4 p ++ s) (big_endian 4 q ++ t)
      ≡ (compare p q then_by compare_bytes s t)
compare_bytes-prefix p q s t hp hq =
    compare_bytes-append (big_endian 4 p) (big_endian 4 q) s t
      (length-big_endian 4 p ∙ sym (length-big_endian 4 q))
    ∙ rw (compare_bytes-big_endian 4 p q hp hq)

-- For tuples of the same column types, bytes.Compare of two keys compares the prefixes, and at equal
-- prefixes the tuples: strings by their bytes, integers as signed numbers, the first column first.
pub compare_bytes-encode_key :
    (p q : ℕ) (ts : List ℕ) (vs ws : List Value) {a b : Bytes}
    → p < 2 ^ 32
    → q < 2 ^ 32
    → HasTypes ts vs
    → HasTypes ts ws
    → encode_key p vs ≡ some a
    → encode_key q ws ≡ some b
    → compare_bytes a b ≡ (compare p q then_by compare_values vs ws)
unfolding encode_key
compare_bytes-encode_key p q ts vs ws hp hq hv hw ea eb =
    let (s, es, ea1) = >>=-eq-some (encode_values vs) _ ea in
    let (r, er, eb1) = >>=-eq-some (encode_values ws) _ eb in
    rw (
      ← some-injective ea1,
      ← some-injective eb1,
      compare_bytes-prefix p q s r hp hq,
      compare_bytes-encode_values ts vs ws hv hw es er,
    )

-- Keys under a smaller prefix come before all keys under a larger one, whatever they encode.
pub compare_bytes-encode_key_prefix :
    (p q : ℕ) (vs ws : List Value) {a b : Bytes}
    → q < 2 ^ 32
    → p < q
    → encode_key p vs ≡ some a
    → encode_key q ws ≡ some b
    → compare_bytes a b ≡ Ordering.lt
unfolding encode_key
compare_bytes-encode_key_prefix p q vs ws hq lt ea eb =
    let (s, es, ea1) = >>=-eq-some (encode_values vs) _ ea in
    let (r, er, eb1) = >>=-eq-some (encode_values ws) _ eb in
    rw (← some-injective ea1, ← some-injective eb1, compare_bytes-prefix p q s r (omega arith) hq)
      (ground arith)
