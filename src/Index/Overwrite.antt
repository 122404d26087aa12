-- ===== src/Index/Overwrite.antt =====
-- index/secondary.go: an empty string in an indexed column is overwritten in the caller's row.
use native.Mathlib.Decide.{ℕ_discrete}
use mathlib.Core.Path.{subst}
use auroradb.Prelude.{
  ℕ, zero, suc, ◌<◌, ◌≡◌, ◌⊎◌, inl, inr, sym, ap, ◌∙◌, List, [], ◌∷◌, ◌++◌, some, Bytes, get_elem?,
  arith, get_elem?-set_self, get_elem?-set_ne,
}
use auroradb.Prelude.Panic.{some-injective, >>=-eq-some, slice_to}
use auroradb.Types.{Value, Record, TableDef, bytes_value, find_col}
use auroradb.Index.{fill, index_column, index_columns, secondary_key, pk_from_sec_key}
use auroradb.Types.Key.{encode_key}
use auroradb.Index.Rows.{IsRow, index_column_inv}
use auroradb.Index.PrimaryKey.{pk_from_sec_key-secondary_key}

-- The column is one of the list.
abbrev pub Has : Bytes → List Bytes → Type 0
Has c [] = ⊥
Has c (x ∷ xs) = (x ≡ c) ⊎ Has c xs

fill-fill : (v : Value) → fill (fill v) ≡ fill v
unfolding fill
fill-fill v = ground arith

-- A round writes the filled value to its own place, and nothing elsewhere.
get_elem?-index_column :
    (r : Record) (col : Bytes) (j : ℕ) (w : Value) {r1 : Record} {v : Value}
    → get_elem? r.vals j ≡ some w
    → index_column r col ≡ some (r1, v)
    → (get_elem? r1.vals j ≡ some w) ⊎ (get_elem? r1.vals j ≡ some (fill w))
get_elem?-index_column r col j w ew e =
    let c = index_column_inv r col e in
    elim (ℕ_discrete c.place j) [
      | yes same ↦ inr (
          rw (← c.row, ← same)
            (get_elem?-set_self r.vals c.place (fill c.old) c.read
              ∙ ap (λ x. some (fill x)) (some-injective (sym c.read ∙ rw same ew))))
      | no other ↦ inl (rw (← c.row) (get_elem?-set_ne r.vals c.place j (fill c.old) other ∙ ew))
    ]

-- What needs no filling stays.
kept :
    (r : Record) (cols : List Bytes) (j : ℕ) (w : Value) {r1 : Record} {vs : List Value}
    → fill w ≡ w
    → get_elem? r.vals j ≡ some w
    → index_columns r cols ≡ some (r1, vs)
    → get_elem? r1.vals j ≡ some w
unfolding index_columns
kept r [] j w f ew e = rw (← ap (λ p. p.0) (some-injective e)) ew
kept r (col ∷ cols) j w f ew e =
    let ((r1, v), ec, e1) = >>=-eq-some (index_column r col) _ e in
    let ((r2, vs), ecs, e2) = >>=-eq-some (index_columns r1 cols) _ e1 in
    let now : get_elem? r1.vals j ≡ some w = elim (get_elem?-index_column r col j w ew ec) [
      | inl same ↦ same
      | inr filled ↦ filled ∙ ap some f
    ] in
    subst (λ x. get_elem? x.vals j ≡ some w) (ap (λ p. p.0) (some-injective e2))
      (kept r1 cols j w f now ecs)

written :
    (r : Record) (col c : Bytes) (j : ℕ) (w : Value) {r1 : Record} {v : Value}
    → col ≡ c
    → find_col 0 r.cols c ≡ some j
    → get_elem? r.vals j ≡ some w
    → index_column r col ≡ some (r1, v)
    → get_elem? r1.vals j ≡ some (fill w)
written r col c j w here ej ew e =
    let d = index_column_inv r col e in
    let same : d.place ≡ j = some-injective (sym d.found ∙ rw here ej) in
    let old : d.old ≡ w = some-injective (sym d.read ∙ rw same ew) in
    rw (← d.row, ← same, ← old) (get_elem?-set_self r.vals d.place (fill d.old) d.read)

-- The place of a column of the index holds the filled value afterwards.
filled :
    (r : Record) (cols : List Bytes) (c : Bytes) (j : ℕ) (w : Value) {r1 : Record} {vs : List Value}
    → Has c cols
    → find_col 0 r.cols c ≡ some j
    → get_elem? r.vals j ≡ some w
    → index_columns r cols ≡ some (r1, vs)
    → get_elem? r1.vals j ≡ some (fill w)
unfolding index_columns
filled r [] c j w h ej ew e = elim h [ ]
filled r (col ∷ cols) c j w h ej ew e =
    let ((r1, v), ec, e1) = >>=-eq-some (index_column r col) _ e in
    let ((r2, vs), ecs, e2) = >>=-eq-some (index_columns r1 cols) _ e1 in
    let d = index_column_inv r col ec in
    let cols_same : r.cols ≡ r1.cols = ap (λ x. x.cols) d.row in
    subst (λ x. get_elem? x.vals j ≡ some (fill w)) (ap (λ p. p.0) (some-injective e2))
      (elim h [
        | inl here ↦ kept r1 cols j (fill w) (fill-fill w) (written r col c j w here ej ew ec) ecs
        | inr later ↦ elim (get_elem?-index_column r col j w ew ec) [
          | inl same ↦ filled r1 cols c j w later (rw (← cols_same) ej) same ecs
          | inr done ↦ kept r1 cols j (fill w) (fill-fill w) done ecs
        ]
      ])

get_elem?-slice_to {ℓ} :
    {A : Type ℓ} (n : ℕ) (xs : List A) (j : ℕ) {ys : List A}
    → slice_to n xs ≡ some ys
    → j < n
    → get_elem? ys j ≡ get_elem? xs j
unfolding slice_to
get_elem?-slice_to zero xs j e h = elim h [ ]
get_elem?-slice_to (suc n) [] j e h = cc
get_elem?-slice_to (suc n) (x ∷ xs) zero e h =
    let (rest, er, e1) = >>=-eq-some (slice_to n xs) _ e in rw (← some-injective e1)
get_elem?-slice_to (suc n) (x ∷ xs) (suc j) e h =
    let (rest, er, e1) = >>=-eq-some (slice_to n xs) _ e in
    rw (← some-injective e1) (get_elem?-slice_to n xs j er (omega arith))

overwritten :
    (tdef : TableDef) (r : Record) (i : ℕ) (idx : List Bytes) (c : Bytes) (j : ℕ) {r1 : Record}
    {key : Bytes}
    → Has c idx
    → find_col 0 r.cols c ≡ some j
    → get_elem? r.vals j ≡ some (bytes_value [])
    → secondary_key tdef r i idx ≡ some (r1, key)
    → get_elem? r1.vals j ≡ some (bytes_value (0xff ∷ []))
unfolding secondary_key fill
overwritten tdef r i idx c j has ej ew e =
    let ((r1, vals), ev, e1) = >>=-eq-some (index_columns r idx) _ e in
    let (pks, ep, e2) = >>=-eq-some (slice_to tdef.pkeys r1.vals) _ e1 in
    let (prefix, ex, e3) = >>=-eq-some (get_elem? tdef.prefixes (suc i)) _ e2 in
    let (key, ek, e4) = >>=-eq-some (encode_key prefix (vals ++ pks)) _ e3 in
    subst (λ x. get_elem? x.vals j ≡ some (bytes_value (0xff ∷ [])))
      (ap (λ p. p.0) (some-injective e4)) (filled r idx c j (bytes_value []) has ej ew ev)

-- If a primary-key column of the index holds the empty string, the index key leads back to a primary
-- key with the byte 0xff in its place: not to the row.
pub pk_from_sec_key_overwritten :
    (tdef : TableDef) (r : Record) (i : ℕ) (idx names : List Bytes) (c : Bytes) (j : ℕ)
    {r1 : Record} {key : Bytes}
    → IsRow tdef r
    → get_elem? tdef.indexes (suc i) ≡ some idx
    → slice_to tdef.pkeys tdef.cols ≡ some names
    → Has c idx
    → find_col 0 tdef.cols c ≡ some j
    → j < tdef.pkeys
    → get_elem? r.vals j ≡ some (bytes_value [])
    → secondary_key tdef r i idx ≡ some (r1, key)
    → (pk : Record) × (pk_from_sec_key tdef key (suc i) ≡ some pk)
      × (get_elem? pk.vals j ≡ some (bytes_value (0xff ∷ [])))
      × (get_elem? r1.vals j ≡ some (bytes_value (0xff ∷ [])))
pk_from_sec_key_overwritten tdef r i idx names c j {r1} row ei en has ej lt ew e =
    let now : get_elem? r1.vals j ≡ some (bytes_value (0xff ∷ [])) =
      overwritten tdef r i idx c j has (rw row.cols ej) ew e in
    let (pks, es, er) = pk_from_sec_key-secondary_key tdef r i idx names row ei en e in
    (
      record { cols = names; vals = pks },
      er,
      get_elem?-slice_to tdef.pkeys r1.vals j es lt ∙ now,
      now,
    )
