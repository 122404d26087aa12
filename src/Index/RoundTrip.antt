-- ===== src/Index/RoundTrip.antt =====
-- index/secondary.go: passing over the values of an index, and building the primary key from the rest.
use auroradb.Prelude.{
  ℕ, zero, suc, ◌≡◌, refl, List, [], ◌∷◌, ◌++◌, append_assoc, append-nil, some, Bytes, drop, arith,
  length,
}
use auroradb.Prelude.Panic.{some-injective, >>=-eq-some, slice_to, slice_from}
use auroradb.Types.{Value, Record}
use auroradb.Types.Key.{encode_value, encode_values, cut_key, decode_column, decode_columns}
use auroradb.Types.Key.RoundTrip.{Typed, bytes, int, HasTypes, Typed-Readable}
use auroradb.Index.{skip_key, skip_keys, add_pk, add_pks}

drop-slice_from {ℓ} :
    {A : Type ℓ} (n : ℕ) (s : List A) {r : List A} → slice_from n s ≡ some r → drop n s ≡ r
unfolding slice_from
drop-slice_from zero s e = some-injective e
drop-slice_from (suc n) [] e = cc
drop-slice_from (suc n) (x ∷ s) e = drop-slice_from n s e

skip_key-cut_key :
    (t : ℕ) (s : Bytes) {key after : Bytes}
    → cut_key t s ≡ some (key, after)
    → skip_key t s ≡ some after
unfolding cut_key skip_key
skip_key-cut_key t s {key} {after} e = ground (arith, drop-slice_from 8 s {r = after})

-- Passing over the values of an index leaves what stands behind them.
pub skip_keys-encode_values :
    (ts : List ℕ) (vs : List Value) {body : Bytes} (tail : Bytes)
    → HasTypes ts vs
    → encode_values vs ≡ some body
    → skip_keys ts (body ++ tail) ≡ some tail
unfolding encode_values skip_keys
skip_keys-encode_values [] [] tail h e = rw (← some-injective e)
skip_keys-encode_values [] (v ∷ vs) tail h e = elim h [ ]
skip_keys-encode_values (t ∷ ts) [] tail h e = elim h [ ]
skip_keys-encode_values (t ∷ ts) (v ∷ vs) tail (hv, hvs) e =
    let (head, eh, e1) = >>=-eq-some (encode_value v) _ e in
    let (rest, er, e2) = >>=-eq-some (encode_values vs) _ e1 in
    rw
      (
        ← some-injective e2,
        append_assoc,
        skip_key-cut_key t (head ++ (rest ++ tail)) ((Typed-Readable hv eh).cuts (rest ++ tail)),
      )
      (skip_keys-encode_values ts vs tail hvs er)

pub encode_values-append :
    (vs ws : List Value) {body : Bytes}
    → encode_values (vs ++ ws) ≡ some body
    → (a : Bytes) × (b : Bytes) × (encode_values vs ≡ some a)
      × (encode_values ws ≡ some b)
      × (a ++ b ≡ body)
unfolding encode_values
encode_values-append [] ws {body} e = ([], body, refl, e, refl)
encode_values-append (v ∷ vs) ws e =
    let (head, eh, e1) = >>=-eq-some (encode_value v) _ e in
    let (rest, er, e2) = >>=-eq-some (encode_values (vs ++ ws)) _ e1 in
    let (a, b, ea, eb, same) = encode_values-append vs ws er in
    (head ++ a, b, rw (eh, ea), eb, rw (append_assoc, same) (some-injective e2))

add_pk-decode_column :
    (acc : Record) {t : ℕ} {v : Value} (key col : Bytes)
    → Typed t v
    → decode_column t key ≡ some v
    → add_pk acc t key col
      ≡ some (record { cols = acc.cols ++ col ∷ []; vals = acc.vals ++ v ∷ [] })
unfolding decode_column add_pk
add_pk-decode_column acc key col (bytes s) e = ground arith
add_pk-decode_column acc key col (int w lt ne) e = ground arith

-- Decoding column by column builds the record of the primary key.
pub add_pks-decode_columns :
    (acc : Record) (ts : List ℕ) (vs : List Value) (keys cols names : List Bytes)
    → HasTypes ts vs
    → decode_columns ts keys ≡ some vs
    → slice_to (length ts) cols ≡ some names
    → add_pks acc ts keys cols ≡ some (record { cols = acc.cols ++ names; vals = acc.vals ++ vs })
unfolding decode_columns add_pks slice_to
add_pks-decode_columns acc [] [] keys cols names h e n =
    rw (← some-injective n, append-nil, append-nil)
add_pks-decode_columns acc [] (v ∷ vs) keys cols names h e n = elim h [ ]
add_pks-decode_columns acc (t ∷ ts) [] keys cols names h e n = elim h [ ]
add_pks-decode_columns acc (t ∷ ts) (v ∷ vs) [] cols names h e n = cc
add_pks-decode_columns acc (t ∷ ts) (v ∷ vs) (key ∷ keys) [] names h e n = cc
add_pks-decode_columns acc (t ∷ ts) (v ∷ vs) (key ∷ keys) (col ∷ cols) names (hv, hvs) e n =
    let (v', ev, e1) = >>=-eq-some (decode_column t key) _ e in
    let (vs', evs, e2) = >>=-eq-some (decode_columns ts keys) _ e1 in
    let (rest, er, n1) = >>=-eq-some (slice_to (length ts) cols) _ n in
    let same : v' ∷ vs' ≡ v ∷ vs = some-injective e2 in
    let here : decode_column t key ≡ some v = cc in
    let there : decode_columns ts keys ≡ some vs = cc in
    let next : Record = record { cols = acc.cols ++ col ∷ []; vals = acc.vals ++ v ∷ [] } in
    rw (
      add_pk-decode_column acc key col hv here,
      add_pks-decode_columns next ts vs keys cols rest hvs there er,
      ← some-injective n1,
      append_assoc,
      append_assoc,
    )
