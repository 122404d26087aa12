-- ===== src/Types/Key/RoundTrip.antt =====
-- types/schema.go: a key that `EncodeKey` wrote is read back by `DecodeKey`.
use auroradb.Prelude.{
  ℕ, zero, suc, ◌<◌, ◌≡◌, ◌≢◌, refl, List, [], ◌∷◌, ◌++◌, append_assoc, append-nil, some, Bytes,
  length, arith,
}
use mathlib.Core.Path.{subst}
use auroradb.Prelude.Panic.{some-injective, >>=-eq-some, slice_to, slice_from}
use auroradb.Prelude.Words.{big_endian, length-big_endian, word_mod, sign_bit}
use auroradb.Types.{Value, TableDef, type_bytes, type_int64, bytes_value, int_value}
use auroradb.Types.Codec.{serialize_bytes, serialize_int}
use auroradb.Types.Codec.RoundTrip.{
  NonZero, serialize_bytes-NonZero, deserialize_bytes-serialize_bytes, slice_to-append,
  serialize_int_inv, deserialize_int-serialize_int, serialize_int_lem,
}
use auroradb.Types.Key.{
  encode_value, encode_values, encode_key, until_zero, cut_key, cut_keys, decode_column,
  decode_columns, decode_key,
}

-- The value of a column of that type, as the program builds it: a string, or an int64 other than
-- the smallest one.
pub data Typed : ℕ → Value → Type 0 where
  bytes : (s : Bytes) → Typed type_bytes (bytes_value s)
  int : (w : ℕ) → w < word_mod → w ≢ sign_bit → Typed type_int64 (int_value w)

-- One value for each type.
abbrev pub HasTypes : List ℕ → List Value → Type 0
HasTypes [] [] = Unit
HasTypes [] (v ∷ vs) = ⊥
HasTypes (t ∷ ts) [] = ⊥
HasTypes (t ∷ ts) (v ∷ vs) = Typed t v × HasTypes ts vs

pub slice_from-append {ℓ} :
    {A : Type ℓ} (n : ℕ) (xs ys : List A) → length xs ≡ n → slice_from n (xs ++ ys) ≡ some ys
unfolding slice_from
slice_from-append zero [] ys h = refl
slice_from-append zero (x ∷ xs) ys h = absurd (omega arith)
slice_from-append (suc n) [] ys h = absurd (omega arith)
slice_from-append (suc n) (x ∷ xs) ys h = slice_from-append n xs ys (omega arith)

until_zero-append : (s tail : Bytes) → NonZero s → until_zero (s ++ 0 ∷ tail) ≡ some (s, tail)
unfolding until_zero
until_zero-append [] tail h = refl
until_zero-append (b ∷ s) tail (hb, hs) = ground (arith, until_zero-append s tail hs)

pub length-serialize_int :
    (w : ℕ) {k : Bytes} → w < word_mod → serialize_int w ≡ some k → length k ≡ 8
length-serialize_int w lt e = rw (serialize_int_inv w lt e).1 (length-big_endian 8 _)

-- What is written for one value is cut off whole, and decoded to the value.
pub record Readable (t : ℕ) (v : Value) (head : Bytes) : Type 0 where
  pub key : Bytes
  pub cuts : (tail : Bytes) → cut_key t (head ++ tail) ≡ some (key, tail)
  pub decodes : decode_column t key ≡ some v

bytes-Readable : (s : Bytes) → Readable type_bytes (bytes_value s) (serialize_bytes s ++ 0 ∷ [])
bytes-Readable s = record {
  key = serialize_bytes s;
  cuts = λ tail.
      rw (append_assoc)
        (unfold cut_key in until_zero-append (serialize_bytes s) tail (serialize_bytes-NonZero s));
  decodes = unfold decode_column in rw deserialize_bytes-serialize_bytes;
}

int-Readable :
    (w : ℕ) {k : Bytes}
    → w < word_mod
    → serialize_int w ≡ some k
    → Readable type_int64 (int_value w) k
int-Readable w {k} lt e = record {
  key = k;
  cuts = λ tail.
      unfold cut_key in
      rw (
        slice_to-append 8 k tail (length-serialize_int w lt e),
        slice_from-append 8 k tail (length-serialize_int w lt e),
      );
  decodes = unfold decode_column in rw (← append-nil k, deserialize_int-serialize_int w [] lt e);
}

pub Typed-Readable :
    {t : ℕ} {v : Value} {head : Bytes} → Typed t v → encode_value v ≡ some head → Readable t v head
unfolding encode_value
Typed-Readable {head = head} (bytes s) e =
    subst (Readable type_bytes (bytes_value s)) (some-injective e) (bytes-Readable s)
Typed-Readable (int w lt ne) e = int-Readable w lt e

-- The keys of all columns are cut off, whatever stands behind them, and decoded.
pub record AllReadable (ts : List ℕ) (vs : List Value) (body : Bytes) : Type 0 where
  pub keys : List Bytes
  pub cuts : (tail : Bytes) → cut_keys ts (body ++ tail) ≡ some keys
  pub decodes : decode_columns ts keys ≡ some vs

AllReadable-cons :
    {t : ℕ} {v : Value} {head : Bytes} {ts : List ℕ} {vs : List Value} {tail : Bytes}
    → Readable t v head
    → AllReadable ts vs tail
    → AllReadable (t ∷ ts) (v ∷ vs) (head ++ tail)
AllReadable-cons r rs = record {
  keys = r.key ∷ rs.keys;
  cuts = λ rest. unfold cut_keys in rw (append_assoc, r.cuts, rs.cuts rest);
  decodes = unfold decode_columns in rw (r.decodes, rs.decodes);
}

encode_value_total : {t : ℕ} {v : Value} → Typed t v → (head : Bytes) × (encode_value v ≡ some head)
unfolding encode_value
encode_value_total (bytes s) = (serialize_bytes s ++ 0 ∷ [], refl)
encode_value_total (int w lt ne) = (_, serialize_int_lem w lt ne)

-- A typed tuple is encoded without a panic.
pub encode_values_total :
    (ts : List ℕ) (vs : List Value)
    → HasTypes ts vs
    → (body : Bytes) × (encode_values vs ≡ some body)
unfolding encode_values
encode_values_total [] [] h = ([], refl)
encode_values_total [] (v ∷ vs) h = elim h [ ]
encode_values_total (t ∷ ts) [] h = elim h [ ]
encode_values_total (t ∷ ts) (v ∷ vs) (hv, hvs) =
    let (head, eh) = encode_value_total hv in
    let (tail, et) = encode_values_total ts vs hvs in (head ++ tail, rw (eh, et))

pub HasTypes-AllReadable :
    (ts : List ℕ) (vs : List Value) {body : Bytes}
    → HasTypes ts vs
    → encode_values vs ≡ some body
    → AllReadable ts vs body
unfolding encode_values
HasTypes-AllReadable [] [] h e = record {
  keys = [];
  cuts = λ tail. unfold cut_keys in refl;
  decodes = unfold decode_columns in refl;
}
HasTypes-AllReadable [] (v ∷ vs) h e = elim h [ ]
HasTypes-AllReadable (t ∷ ts) [] h e = elim h [ ]
HasTypes-AllReadable (t ∷ ts) (v ∷ vs) (hv, hvs) e =
    let (head, eh, e1) = >>=-eq-some (encode_value v) _ e in
    let (tail, et, e2) = >>=-eq-some (encode_values vs) _ e1 in
    let r = Typed-Readable hv eh in
    let rs = HasTypes-AllReadable ts vs hvs et in
    subst (AllReadable (t ∷ ts) (v ∷ vs)) (some-injective e2) (AllReadable-cons r rs)

-- Every typed tuple has a key, and decoding the key for a table whose primary-key columns have those
-- types gives the tuple back.
pub decode_key-encode_key :
    (prefix : ℕ) (vs : List Value) (tdef : TableDef) (ts : List ℕ)
    → slice_to tdef.pkeys tdef.types ≡ some ts
    → HasTypes ts vs
    → (key : Bytes) × (encode_key prefix vs ≡ some key) × (decode_key key tdef ≡ some vs)
decode_key-encode_key prefix vs tdef ts ht h =
    let (body, eb) = encode_values_total ts vs h in
    let r = HasTypes-AllReadable ts vs h eb in
    (
      big_endian 4 prefix ++ body,
      unfold encode_key in rw eb,
      unfold decode_key in
          rw
            (
              slice_from-append 4 (big_endian 4 prefix) body (length-big_endian 4 prefix),
              ht,
              ← append-nil body,
              r.cuts [],
            )
            r.decodes,
    )
