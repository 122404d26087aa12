-- ===== src/Index/Filled.antt =====
-- index/secondary.go: what computing the index keys of a row does to the row.
use native.Mathlib.Nat.{add-zero}
use mathlib.Core.Path.{subst}
use auroradb.Prelude.{
  ℕ, zero, suc, ◌+◌, ◌≡◌, ◌≢◌, refl, sym, ap, ◌∙◌, List, [], ◌∷◌, ◌++◌, some, Bytes, get_elem?, set,
  arith, length, All, All-get_elem?, set-get_elem?,
}
use auroradb.Prelude.Panic.{some-injective, >>=-eq-some, slice_to, slice_from}
use auroradb.Types.{Value, Record, TableDef, type_bytes}
use auroradb.Types.Key.{encode_key}
use auroradb.Index.{
  fill, index_column, index_columns, secondary_key, secondary_keys_from, secondary_indexes_keys,
  pk_from_sec_key,
}
use auroradb.Index.Rows.{IsRow, index_column_inv}
use auroradb.Index.PrimaryKey.{pk_from_sec_key-secondary_key}

-- No value is an empty string.
abbrev pub NoEmpty : List Value → Type 0
NoEmpty = All (λ v. v.type ≡ type_bytes → v.str ≢ [])

length-eq-zero : (s : Bytes) → length s ≡ 0 → s ≡ []
length-eq-zero [] e = refl
length-eq-zero (x ∷ s) e = absurd (omega arith)

fill-nonempty : (v : Value) → (v.type ≡ type_bytes → v.str ≢ []) → fill v ≡ v
unfolding fill
fill-nonempty v h = ground (arith, length-eq-zero v.str, h)

-- A row with no empty string is left as it was.
index_columns-NoEmpty :
    (r : Record) (cols : List Bytes) {r1 : Record} {vs : List Value}
    → NoEmpty r.vals
    → index_columns r cols ≡ some (r1, vs)
    → r1 ≡ r
unfolding index_columns
index_columns-NoEmpty r [] h e = sym (ap (λ p. p.0) (some-injective e))
index_columns-NoEmpty r (col ∷ cols) h e =
    let ((r1, v), ec, e1) = >>=-eq-some (index_column r col) _ e in
    let ((r2, vs), ecs, e2) = >>=-eq-some (index_columns r1 cols) _ e1 in
    let c = index_column_inv r col ec in
    let same : r1 ≡ r =
      sym c.row
      ∙ ap (λ l. record r { vals = l })
          (ap (set r.vals c.place) (fill-nonempty c.old (All-get_elem? _ r.vals c.place h c.read))
            ∙ set-get_elem? r.vals c.place c.read) in
    sym (ap (λ p. p.0) (some-injective e2)) ∙ index_columns-NoEmpty r cols h (rw same at ecs)

secondary_key-NoEmpty :
    (tdef : TableDef) (r : Record) (i : ℕ) (idx : List Bytes) {r1 : Record} {key : Bytes}
    → NoEmpty r.vals
    → secondary_key tdef r i idx ≡ some (r1, key)
    → r1 ≡ r
unfolding secondary_key
secondary_key-NoEmpty tdef r i idx h e =
    let ((r1, vals), ev, e1) = >>=-eq-some (index_columns r idx) _ e in
    let (pks, ep, e2) = >>=-eq-some (slice_to tdef.pkeys r1.vals) _ e1 in
    let (prefix, ex, e3) = >>=-eq-some (get_elem? tdef.prefixes (suc i)) _ e2 in
    let (key, ek, e4) = >>=-eq-some (encode_key prefix (vals ++ pks)) _ e3 in
    sym (ap (λ p. p.0) (some-injective e4)) ∙ index_columns-NoEmpty r idx h ev

tail_at :
    (xs rest : List (List Bytes))
    → slice_from 1 xs ≡ some rest
    → (j : ℕ) → get_elem? rest j ≡ get_elem? xs (suc j)
unfolding slice_from
tail_at [] rest e j = cc
tail_at (x ∷ xs) rest e j = rw (some-injective e)

-- What holds of the first key and of the later ones holds of all.
keys_cons :
    (P : ℕ → Bytes → Type 0) {k : Bytes} (ks : List Bytes)
    → P 0 k
    → ((j : ℕ) (l : Bytes) → get_elem? ks j ≡ some l → P (suc j) l)
    → (j : ℕ) (l : Bytes) → get_elem? (k ∷ ks) j ≡ some l
    → P j l
keys_cons P ks h hs zero l e = subst (P 0) (some-injective e) h
keys_cons P ks h hs (suc j) l e = hs j l e

module _ (tdef : TableDef) (r : Record) (names : List Bytes) (pks : List Value) (row : IsRow tdef r)
    (full : NoEmpty r.vals) (en : slice_to tdef.pkeys tdef.cols ≡ some names)
    (ep : slice_to tdef.pkeys r.vals ≡ some pks) where
  one_key :
      (i : ℕ) (idx : List Bytes) {r1 : Record} {key : Bytes}
      → get_elem? tdef.indexes (suc i) ≡ some idx
      → secondary_key tdef r i idx ≡ some (r1, key)
      → pk_from_sec_key tdef key (suc i) ≡ some (record { cols = names; vals = pks })
  one_key i idx ei e =
      let (ps, es, er) = pk_from_sec_key-secondary_key tdef r i idx names row ei en e in
      let same : ps ≡ pks =
        some-injective (sym es ∙ rw (secondary_key-NoEmpty tdef r i idx full e) ep) in
      rw (← same) er

  keys_from :
      (i : ℕ) (rest : List (List Bytes)) {r' : Record} {keys : List Bytes}
      → ((j : ℕ) → get_elem? rest j ≡ get_elem? tdef.indexes (suc (i + j)))
      → secondary_keys_from tdef r i rest ≡ some (r', keys)
      → (r' ≡ r)
        × ((j : ℕ) (key : Bytes)
            → get_elem? keys j ≡ some key
            → pk_from_sec_key tdef key (suc (i + j)) ≡ some (record { cols = names; vals = pks }))
  unfolding secondary_keys_from
  keys_from i [] {keys = keys} at e =
      (sym (ap (λ p. p.0) (some-injective e)), λ j key ek. cc (ap (λ p. p.1) (some-injective e)))
  keys_from i (idx ∷ rest) at e =
      let ((r1, key1), e1, ea) = >>=-eq-some (secondary_key tdef r i idx) _ e in
      let ((r2, keys2), e2, eb) = >>=-eq-some (secondary_keys_from tdef r1 (suc i) rest) _ ea in
      let same : r1 ≡ r = secondary_key-NoEmpty tdef r i idx full e1 in
      let (still, all) =
        keys_from (suc i) rest
          (λ j. at (suc j) ∙ ap (λ n. get_elem? tdef.indexes (suc n)) (omega arith))
          (rw same at e2) in
      (
        sym (ap (λ p. p.0) (some-injective eb)) ∙ still,
        subst
            (λ l.
              (j : ℕ) (key : Bytes)
              → get_elem? l j ≡ some key
              → pk_from_sec_key tdef key (suc (i + j)) ≡ some (record { cols = names; vals = pks }))
            (ap (λ p. p.1) (some-injective eb))
            (keys_cons
              (λ j l.
                pk_from_sec_key tdef l (suc (i + j)) ≡ some (record { cols = names; vals = pks }))
              keys2 (rw (add-zero) (one_key i idx (rw add-zero at (sym (at 0))) e1))
              (λ j l el. ap (λ n. pk_from_sec_key tdef l (suc n)) (omega arith) ∙ all j l el)),
      )

-- For a row with no empty string, computing the index keys leaves the row as it was, and each key leads
-- back to the columns and the values of the row's primary key.
pub pk_from_sec_key-secondary_indexes_keys :
    (tdef : TableDef) (r : Record) (names : List Bytes) (pks : List Value) {r' : Record}
    {keys : List Bytes}
    → IsRow tdef r
    → NoEmpty r.vals
    → slice_to tdef.pkeys tdef.cols ≡ some names
    → slice_to tdef.pkeys r.vals ≡ some pks
    → secondary_indexes_keys tdef r ≡ some (r', keys)
    → (r' ≡ r)
      × ((j : ℕ) (key : Bytes)
          → get_elem? keys j ≡ some key
          → pk_from_sec_key tdef key (suc j) ≡ some (record { cols = names; vals = pks }))
unfolding secondary_indexes_keys
pk_from_sec_key-secondary_indexes_keys tdef r names pks row full en ep e =
    let (rest, er, e1) = >>=-eq-some (slice_from 1 tdef.indexes) _ e in
    let (still, all) =
      keys_from tdef r names pks row full en ep 0 rest
        (λ j.
          tail_at tdef.indexes rest er j ∙ ap (λ n. get_elem? tdef.indexes (suc n)) (omega arith))
        e1 in
    (still, λ j key ek. ap (λ n. pk_from_sec_key tdef key (suc n)) (omega arith) ∙ all j key ek)
