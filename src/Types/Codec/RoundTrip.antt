-- ===== src/Types/Codec/RoundTrip.antt =====
-- The codecs of types/schema.go give back what they were given.
use auroradb.Prelude.{
  ℕ, suc, ◌+◌, ◌%◌, ◌<◌, ◌≡◌, ◌≢◌, refl, ap, ◌∙◌, zero, false, List, [], ◌∷◌, ◌++◌, some, Bytes,
  length, All, All-append, arith,
}
use auroradb.Prelude.Panic.{◌>>=◌, slice_to}
use auroradb.Prelude.Words.{
  big_endian, from_big_endian-big_endian, length-big_endian, sign_bit, word_mod,
}
use auroradb.Prelude.Bits.{bit_xor_top}
use auroradb.Types.Codec.{
  escape, serialize_bytes, deserialize_from, deserialize_bytes, unescape, serialize_int,
  deserialize_int,
}

deserialize_from-escape :
    (b : ℕ) (s : Bytes)
    → deserialize_from false (escape b ++ s) ≡ (do rest ← deserialize_from false s; some (b ∷ rest))
unfolding escape deserialize_from unescape
deserialize_from-escape b s = ground arith

deserialize_from-serialize_bytes : (s : Bytes) → deserialize_from false (serialize_bytes s) ≡ some s
unfolding serialize_bytes
deserialize_from-serialize_bytes [] = unfold deserialize_from in refl
deserialize_from-serialize_bytes (b ∷ s) =
    rw (deserialize_from-escape, deserialize_from-serialize_bytes s)

-- Deserializing what was serialized gives the bytes back, whatever they are.
pub deserialize_bytes-serialize_bytes : (s : Bytes) → deserialize_bytes (serialize_bytes s) ≡ some s
unfolding deserialize_bytes
deserialize_bytes-serialize_bytes s = deserialize_from-serialize_bytes s

abbrev pub NonZero : Bytes → Type 0
NonZero = All (λ b. b ≢ 0)

escape-NonZero : (b : ℕ) → NonZero (escape b)
unfolding escape
escape-NonZero b = ground arith

-- No serialized string holds the delimiter.
pub serialize_bytes-NonZero : (s : Bytes) → NonZero (serialize_bytes s)
unfolding serialize_bytes
serialize_bytes-NonZero [] = tt
serialize_bytes-NonZero (b ∷ s) =
    All-append _ (escape b) (serialize_bytes s) (escape-NonZero b) (serialize_bytes-NonZero s)

pub slice_to-append {ℓ} :
    {A : Type ℓ} (n : ℕ) (xs ys : List A) → length xs ≡ n → slice_to n (xs ++ ys) ≡ some xs
unfolding slice_to
slice_to-append zero [] ys h = refl
slice_to-append zero (x ∷ xs) ys h = absurd (omega arith)
slice_to-append (suc n) [] ys h = absurd (omega arith)
slice_to-append (suc n) (x ∷ xs) ys h = rw (slice_to-append n xs ys (omega arith))

-- The smallest int64 is refused; every other one takes eight bytes.
pub serialize_int_lem :
    (w : ℕ)
    → w < word_mod
    → w ≢ sign_bit
    → serialize_int w ≡ some (big_endian 8 ((w + sign_bit) % word_mod))
unfolding serialize_int
serialize_int_lem w h k = ground (arith, bit_xor_top w h)

pub deserialize_int-big_endian :
    (v : ℕ) (rest : Bytes)
    → v < word_mod
    → deserialize_int (big_endian 8 v ++ rest) ≡ some ((v + sign_bit) % word_mod)
unfolding deserialize_int
deserialize_int-big_endian v rest h = rw (
  slice_to-append 8 (big_endian 8 v) rest (length-big_endian 8 v),
  from_big_endian-big_endian 8 v (omega arith),
  bit_xor_top v h,
)

pub serialize_int_inv :
    (w : ℕ) {k : Bytes}
    → w < word_mod
    → serialize_int w ≡ some k
    → (w ≢ sign_bit) × (k ≡ big_endian 8 ((w + sign_bit) % word_mod))
unfolding serialize_int
serialize_int_inv w h e = ground (arith, bit_xor_top w h)

-- Deserializing a serialized integer gives it back, whatever stands behind it.
pub deserialize_int-serialize_int :
    (w : ℕ) {k : Bytes} (rest : Bytes)
    → w < word_mod
    → serialize_int w ≡ some k
    → deserialize_int (k ++ rest) ≡ some w
deserialize_int-serialize_int w {k} rest h e =
    let (ne, same) = serialize_int_inv w h e in
    rw same (
      deserialize_int-big_endian ((w + sign_bit) % word_mod) rest (omega arith)
      ∙ ap some (omega arith))
