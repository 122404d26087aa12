-- ===== src/Index/Rows.antt =====
-- index/secondary.go: a row of a table, and what filling its empty strings keeps.
use auroradb.Prelude.{
  ℕ, zero, suc, ◌≡◌, refl, ap, List, [], ◌∷◌, ◌++◌, some, Bytes, get_elem?, set, arith,
}
use mathlib.Core.Path.{subst, sym}
use auroradb.Prelude.Panic.{some-injective, >>=-eq-some, slice_to}
use auroradb.Types.{Value, Record, TableDef, find_col}
use auroradb.Types.Key.RoundTrip.{Typed, bytes, int, HasTypes}
use auroradb.Index.{fill, index_column, index_columns, index_types}

-- A row has the columns of its table, with values of their types.
pub record IsRow (tdef : TableDef) (r : Record) : Type 0 where
  pub cols : r.cols ≡ tdef.cols
  pub types : HasTypes tdef.types r.vals

-- The value at a place has the type at that place.
HasTypes-get_elem? :
    (ts : List ℕ) (vs : List Value) (i : ℕ) {v : Value}
    → HasTypes ts vs
    → get_elem? vs i ≡ some v
    → (t : ℕ) × (get_elem? ts i ≡ some t) × Typed t v
HasTypes-get_elem? [] [] i h e = cc
HasTypes-get_elem? [] (w ∷ vs) i h e = elim h [ ]
HasTypes-get_elem? (t ∷ ts) [] i h e = elim h [ ]
HasTypes-get_elem? (t ∷ ts) (w ∷ vs) zero (hw, hvs) e =
    (t, refl, subst (Typed t) (some-injective e) hw)
HasTypes-get_elem? (t ∷ ts) (w ∷ vs) (suc i) (hw, hvs) e = HasTypes-get_elem? ts vs i hvs e

HasTypes-set :
    (ts : List ℕ) (vs : List Value) (i : ℕ) {t : ℕ} (v : Value)
    → HasTypes ts vs
    → get_elem? ts i ≡ some t
    → Typed t v
    → HasTypes ts (set vs i v)
HasTypes-set [] [] i v h e k = tt
HasTypes-set [] (w ∷ vs) i v h e k = elim h [ ]
HasTypes-set (t ∷ ts) [] i v h e k = elim h [ ]
HasTypes-set (t ∷ ts) (w ∷ vs) zero v (hw, hvs) e k =
    (subst (λ s. Typed s v) (sym (some-injective e)) k, hvs)
HasTypes-set (t ∷ ts) (w ∷ vs) (suc i) v (hw, hvs) e k = (hw, HasTypes-set ts vs i v hvs e k)

pub HasTypes-append :
    (ts us : List ℕ) (vs ws : List Value)
    → HasTypes ts vs
    → HasTypes us ws
    → HasTypes (ts ++ us) (vs ++ ws)
HasTypes-append [] us [] ws h k = k
HasTypes-append [] us (v ∷ vs) ws h k = elim h [ ]
HasTypes-append (t ∷ ts) us [] ws h k = elim h [ ]
HasTypes-append (t ∷ ts) us (v ∷ vs) ws (hv, hvs) k = (hv, HasTypes-append ts us vs ws hvs k)

-- The leading values have the leading types.
pub HasTypes-slice_to :
    (n : ℕ) (ts : List ℕ) (vs ps : List Value)
    → HasTypes ts vs
    → slice_to n vs ≡ some ps
    → (qs : List ℕ) × (slice_to n ts ≡ some qs) × HasTypes qs ps
unfolding slice_to
HasTypes-slice_to zero ts vs ps h e = ([], refl, subst (HasTypes []) (some-injective e) tt)
HasTypes-slice_to (suc n) [] [] ps h e = cc
HasTypes-slice_to (suc n) [] (v ∷ vs) ps h e = elim h [ ]
HasTypes-slice_to (suc n) (t ∷ ts) [] ps h e = elim h [ ]
HasTypes-slice_to (suc n) (t ∷ ts) (v ∷ vs) ps (hv, hvs) e =
    let (rest, er, e1) = >>=-eq-some (slice_to n vs) _ e in
    let (qs, eq, hq) = HasTypes-slice_to n ts vs rest hvs er in
    (t ∷ qs, rw eq, subst (HasTypes (t ∷ qs)) (some-injective e1) (hv, hq))

fill-Typed : {t : ℕ} {v : Value} → Typed t v → Typed t (fill v)
unfolding fill
fill-Typed (bytes []) = bytes (0xff ∷ [])
fill-Typed (bytes (b ∷ s)) = subst (Typed 1) (ground arith) (bytes (b ∷ s))
fill-Typed (int w lt ne) = int w lt ne

-- What a round for one column does that does not panic.
pub record Column (r : Record) (col : Bytes) (r1 : Record) (v : Value) : Type 0 where
  pub place : ℕ
  pub old : Value
  pub found : find_col 0 r.cols col ≡ some place
  pub read : get_elem? r.vals place ≡ some old
  pub row : record r { vals = set r.vals place (fill old) } ≡ r1
  pub value : fill old ≡ v

pub index_column_inv :
    (r : Record) (col : Bytes) {r1 : Record} {v : Value}
    → index_column r col ≡ some (r1, v)
    → Column r col r1 v
unfolding index_column
index_column_inv r col e =
    let (i, ei, e1) = >>=-eq-some (find_col 0 r.cols col) _ e in
    let (w, ew, e2) = >>=-eq-some (get_elem? r.vals i) _ e1 in
    record {
      place = i;
      old = w;
      found = ei;
      read = ew;
      row = ap (λ p. p.0) (some-injective e2);
      value = ap (λ p. p.1) (some-injective e2);
    }

-- After a round for one column the row is still a row.
pub index_column-IsRow :
    (tdef : TableDef) (r : Record) (col : Bytes) {r1 : Record} {v : Value}
    → IsRow tdef r
    → index_column r col ≡ some (r1, v)
    → IsRow tdef r1
index_column-IsRow tdef r col h e =
    let c = index_column_inv r col e in
    let (t, et, ht) = HasTypes-get_elem? tdef.types r.vals c.place h.types c.read in
    subst (IsRow tdef) c.row (record {
      cols = h.cols;
      types = HasTypes-set tdef.types r.vals c.place (fill c.old) h.types et (fill-Typed ht);
    })

-- The value of a column has the type that `GetPKFromSecKey` looks up.
pub record ColumnType (tdef : TableDef) (col : Bytes) (v : Value) : Type 0 where
  pub place : ℕ
  pub type : ℕ
  pub found : find_col 0 tdef.cols col ≡ some place
  pub read : get_elem? tdef.types place ≡ some type
  pub typed : Typed type v

pub index_column-Typed :
    (tdef : TableDef) (r : Record) (col : Bytes) {r1 : Record} {v : Value}
    → IsRow tdef r
    → index_column r col ≡ some (r1, v)
    → ColumnType tdef col v
index_column-Typed tdef r col h e =
    let c = index_column_inv r col e in
    let (t, et, ht) = HasTypes-get_elem? tdef.types r.vals c.place h.types c.read in
    record {
      place = c.place;
      type = t;
      found = rw (← h.cols) c.found;
      read = et;
      typed = subst (Typed t) c.value (fill-Typed ht);
    }

-- After all columns of an index the row is a row, and the values have the types of the index.
pub index_columns-IsRow :
    (tdef : TableDef) (r : Record) (cols : List Bytes) {r1 : Record} {vs : List Value}
    → IsRow tdef r
    → index_columns r cols ≡ some (r1, vs)
    → IsRow tdef r1 × ((ts : List ℕ) × (index_types tdef cols ≡ some ts) × HasTypes ts vs)
unfolding index_columns index_types
index_columns-IsRow tdef r [] h e = (
  subst (IsRow tdef) (ap (λ p. p.0) (some-injective e)) h,
  ([], refl, subst (HasTypes []) (ap (λ p. p.1) (some-injective e)) tt),
)
index_columns-IsRow tdef r (col ∷ cols) h e =
    let ((r1, v), ec, e1) = >>=-eq-some (index_column r col) _ e in
    let ((r2, vs), ecs, e2) = >>=-eq-some (index_columns r1 cols) _ e1 in
    let c = index_column-Typed tdef r col h ec in
    let (row, (ts, ets, hts)) =
      index_columns-IsRow tdef r1 cols (index_column-IsRow tdef r col h ec) ecs in
    (
      subst (IsRow tdef) (ap (λ p. p.0) (some-injective e2)) row,
      (
        c.type ∷ ts,
        rw (c.found, c.read, ets),
        subst (HasTypes (c.type ∷ ts)) (ap (λ p. p.1) (some-injective e2)) (c.typed, hts),
      ),
    )
