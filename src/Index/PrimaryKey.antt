-- ===== src/Index/PrimaryKey.antt =====
-- index/secondary.go: the primary key that an index key of a row holds is read back from it.
use auroradb.Prelude.{
  ℕ, zero, suc, ◌≡◌, ap, List, [], ◌∷◌, ◌++◌, append-nil, some, Bytes, get_elem?, length,
}
use auroradb.Prelude.Panic.{some-injective, >>=-eq-some, slice_to}
use auroradb.Prelude.Words.{big_endian, length-big_endian}
use auroradb.Types.{Value, Record, TableDef, empty_record}
use auroradb.Types.Key.{encode_values, encode_key}
use auroradb.Types.Key.RoundTrip.{HasTypes, HasTypes-AllReadable, slice_from-append}
use auroradb.Index.{index_types, index_columns, secondary_key, pk_from_sec_key}
use auroradb.Index.Rows.{IsRow, HasTypes-slice_to, index_columns-IsRow}
use auroradb.Index.RoundTrip.{skip_keys-encode_values, encode_values-append, add_pks-decode_columns}

length-slice_to {ℓ} :
    {A : Type ℓ} (n : ℕ) (xs : List A) {ys : List A} → slice_to n xs ≡ some ys → length ys ≡ n
unfolding slice_to
length-slice_to zero xs e = rw (← some-injective e)
length-slice_to (suc n) [] e = cc
length-slice_to (suc n) (x ∷ xs) e =
    let (rest, er, e1) = >>=-eq-some (slice_to n xs) _ e in
    rw (← some-injective e1) (ap suc (length-slice_to n xs er))

read_back :
    (tdef : TableDef) (i : ℕ) (idx names : List Bytes) (its qs : List ℕ) (vals pks : List Value)
    (prefix : ℕ) {key : Bytes}
    → get_elem? tdef.indexes (suc i) ≡ some idx
    → slice_to tdef.pkeys tdef.cols ≡ some names
    → index_types tdef idx ≡ some its
    → slice_to tdef.pkeys tdef.types ≡ some qs
    → HasTypes its vals
    → HasTypes qs pks
    → encode_key prefix (vals ++ pks) ≡ some key
    → pk_from_sec_key tdef key (suc i) ≡ some (record { cols = names; vals = pks })
unfolding encode_key pk_from_sec_key
read_back tdef i idx names its qs vals pks prefix ei en eits eqs hits hqs ek =
    let (body, eb, e1) = >>=-eq-some (encode_values (vals ++ pks)) _ ek in
    let (a, b, ea, eb', same) = encode_values-append vals pks eb in
    let r = HasTypes-AllReadable qs pks hqs eb' in
    rw
      (
        ← some-injective e1,
        slice_from-append 4 (big_endian 4 prefix) body (length-big_endian 4 prefix),
        ei,
        eits,
        ← same,
        skip_keys-encode_values its vals b hits ea,
        eqs,
        ← append-nil b,
        r.cuts [],
      )
      (add_pks-decode_columns empty_record qs pks r.keys tdef.cols names hqs r.decodes
        (rw (length-slice_to tdef.pkeys tdef.types eqs) en))

-- The key that one index gives a row leads back to the row's primary key, as the row stands once the
-- columns of that index are filled.
pub pk_from_sec_key-secondary_key :
    (tdef : TableDef) (r : Record) (i : ℕ) (idx names : List Bytes) {r1 : Record} {key : Bytes}
    → IsRow tdef r
    → get_elem? tdef.indexes (suc i) ≡ some idx
    → slice_to tdef.pkeys tdef.cols ≡ some names
    → secondary_key tdef r i idx ≡ some (r1, key)
    → (pks : List Value) × (slice_to tdef.pkeys r1.vals ≡ some pks)
      × (pk_from_sec_key tdef key (suc i) ≡ some (record { cols = names; vals = pks }))
unfolding secondary_key
pk_from_sec_key-secondary_key tdef r i idx names h ei en e =
    let ((r1, vals), ev, e1) = >>=-eq-some (index_columns r idx) _ e in
    let (pks, ep, e2) = >>=-eq-some (slice_to tdef.pkeys r1.vals) _ e1 in
    let (prefix, ex, e3) = >>=-eq-some (get_elem? tdef.prefixes (suc i)) _ e2 in
    let (key, ek, e4) = >>=-eq-some (encode_key prefix (vals ++ pks)) _ e3 in
    let (row, (its, eits, hits)) = index_columns-IsRow tdef r idx h ev in
    let (qs, eqs, hqs) = HasTypes-slice_to tdef.pkeys tdef.types r1.vals pks row.types ep in
    (
      pks,
      rw (← ap (λ p. p.0) (some-injective e4)) ep,
      rw (← ap (λ p. p.1) (some-injective e4))
          (read_back tdef i idx names its qs vals pks prefix ei en eits eqs hits hqs ek),
    )
