-- ===== src/Types/Codec/Order.antt =====
-- The codecs of types/schema.go keep the order: bytes.Compare of two encodings compares the values.
use auroradb.Prelude.{
  ℕ, ◌+◌, ◌%◌, ◌<◌, ◌≡◌, refl, sym, [], ◌∷◌, ◌++◌, append_assoc, compare, Ordering, some, Bytes,
  arith,
}
use auroradb.Prelude.Compare.{◌then_by◌, then_by_assoc, compare_bytes, compare_bytes-big_endian}
use auroradb.Prelude.Words.{sign_bit, word_mod, compare_int}
use auroradb.Types.Codec.{escape, serialize_bytes, serialize_int}
use auroradb.Types.Codec.RoundTrip.{serialize_int_inv}

compare_bytes-escape :
    (x y : ℕ) (s t : Bytes)
    → compare_bytes (escape x ++ s) (escape y ++ t) ≡ (compare x y then_by compare_bytes s t)
unfolding escape compare_bytes
compare_bytes-escape x y s t = ground arith

-- The delimiter is below every byte that an escaped string begins with.
delimiter-escape : (y : ℕ) (s t : Bytes) → compare_bytes (0 ∷ s) (escape y ++ t) ≡ Ordering.lt
unfolding escape compare_bytes
delimiter-escape y s t = ground arith

escape-delimiter : (x : ℕ) (s t : Bytes) → compare_bytes (escape x ++ s) (0 ∷ t) ≡ Ordering.gt
unfolding escape compare_bytes
escape-delimiter x s t = ground arith

-- With the delimiter behind them, serialized strings are ordered as the strings, then by the rest.
pub compare_bytes-serialize_bytes :
    (a b s t : Bytes)
    → compare_bytes (serialize_bytes a ++ 0 ∷ s) (serialize_bytes b ++ 0 ∷ t)
      ≡ (compare_bytes a b then_by compare_bytes s t)
unfolding serialize_bytes
compare_bytes-serialize_bytes [] [] s t = unfold compare_bytes in refl
compare_bytes-serialize_bytes [] (y ∷ b) s t =
    rw (append_assoc, delimiter-escape) (unfold compare_bytes in refl)
compare_bytes-serialize_bytes (x ∷ a) [] s t =
    rw (append_assoc, escape-delimiter) (unfold compare_bytes in refl)
compare_bytes-serialize_bytes (x ∷ a) (y ∷ b) s t =
    simp (append_assoc, compare_bytes-escape, compare_bytes-serialize_bytes a b s t)
      (unfold compare_bytes in
        sym (then_by_assoc (compare x y) (compare_bytes a b) (compare_bytes s t)))

-- Serialized integers are ordered as signed numbers.
pub compare_bytes-serialize_int :
    (a b : ℕ) {k l : Bytes}
    → a < word_mod
    → b < word_mod
    → serialize_int a ≡ some k
    → serialize_int b ≡ some l
    → compare_bytes k l ≡ compare_int a b
unfolding compare_int
compare_bytes-serialize_int a b ha hb ea eb =
    let (na, ka) = serialize_int_inv a ha ea in
    let (nb, kb) = serialize_int_inv b hb eb in
    rw
      (
        ka,
        kb,
        compare_bytes-big_endian 8 ((a + sign_bit) % word_mod) ((b + sign_bit) % word_mod)
            (omega arith) (omega arith),
      )
      (ground arith)
