-- ===== src/Engine/Plan/Found.antt =====
-- engine/planner.go: which index getColsIndex finds.
use auroradb.Prelude.{
  ℕ, ◌+◌, ◌≡◌, ◌⊎◌, inl, inr, refl, true, List, [], ◌∷◌, none, some, Bytes, ◌==◌, length, get_elem?,
  equal, equal→eq, sym, ap, ap₂, suc, ◌++◌, ◌≤◌, false, All, arith, Bool-cases, Option-cases,
}
use mathlib.Core.Path.{subst}
use auroradb.Prelude.Panic.{some-injective}
use auroradb.Types.{TableDef}
use auroradb.Engine.Plan.{
  first_index, starts_with, prefix_index, count_col, count_cols, covering_index, get_cols_index,
}

-- The column stands in the index.
unfoldable pub Has : Bytes → List Bytes → Type 0
Has col [] = ⊥
Has col (k ∷ idx) = (col ≡ k) ⊎ Has col idx

-- No column stands in the index twice.
unfoldable pub Distinct : List Bytes → Type 0
Distinct [] = Unit
Distinct (k ∷ idx) = ((Has k idx) → ⊥) × Distinct idx

-- The index begins with the columns, or, if no column stands in it twice, it has all of them.
abbrev pub Serves : List Bytes → List Bytes → Type 0
Serves cols idx =
    ((rest : List Bytes) × (idx ≡ cols ++ rest)) ⊎ (Distinct idx → All (λ col. Has col idx) cols)

starts_with-append :
    (cols idx : List Bytes)
    → starts_with cols idx ≡ true
    → (rest : List Bytes) × (idx ≡ cols ++ rest)
unfolding starts_with
starts_with-append [] idx e = (idx, refl)
starts_with-append (col ∷ cols) [] e = absurd (ground arith)
starts_with-append (col ∷ cols) (k ∷ idx) e = elim (Bool-cases (equal col k)) [
  | inl same ↦
      let (rest, f) = starts_with-append cols idx (ground arith) in
      (rest, ap₂ (λ c r. c ∷ r) (sym (equal→eq col k same)) f)
  | inr other ↦ absurd (ground arith)
]

-- Without repetitions a column is counted once, if it is there.
count_col_none : (col : Bytes) (idx : List Bytes) → (Has col idx → ⊥) → count_col col idx ≡ 0
unfolding count_col Has
count_col_none col [] h = refl
count_col_none col (k ∷ idx) h =
    let other : equal col k ≡ false = elim (Bool-cases (equal col k)) [
      | inl same ↦ absurd (h (inl (equal→eq col k same)))
      | inr e ↦ e
    ] in
    let rest = count_col_none col idx (λ g. h (inr g)) in rw (count_col, other) rest

count_col_once :
    (col : Bytes) (idx : List Bytes)
    → Distinct idx
    → (count_col col idx ≡ 0) ⊎ ((count_col col idx ≡ 1) × Has col idx)
unfolding count_col Has Distinct
count_col_once col [] d = inl refl
count_col_once col (k ∷ idx) (new, d) = elim (Bool-cases (equal col k)) [
  | inl same ↦
      let e = equal→eq col k same in
      let none_behind = count_col_none col idx (subst (λ c. Has c idx → ⊥) (sym e) new) in
      inr (rw (count_col, same) (ap suc none_behind), inl e)
  | inr other ↦ elim (count_col_once col idx d) [
    | inl z ↦ inl (rw (count_col, other) z)
    | inr (one, h) ↦ inr (rw (count_col, other) one, inr h)
  ]
]

count_cols_most : (cols idx : List Bytes) → Distinct idx → count_cols cols idx ≤ length cols
unfolding count_cols
count_cols_most [] idx d = omega arith
count_cols_most (col ∷ cols) idx d =
    let rest = count_cols_most cols idx d in
    elim (count_col_once col idx d) [ inl z ↦ omega arith | inr (one, h) ↦ omega arith ]

count_cols-Has :
    (cols idx : List Bytes)
    → Distinct idx
    → count_cols cols idx ≡ length cols
    → All (λ col. Has col idx) cols
unfolding count_cols
count_cols-Has [] idx d e = tt
count_cols-Has (col ∷ cols) idx d e =
    let most = count_cols_most cols idx d in
    elim (count_col_once col idx d) [
      | inl z ↦ absurd (omega arith)
      | inr (one, h) ↦ (h, count_cols-Has cols idx d (omega arith))
    ]

-- A place of the indexes that are left, counted from `i` on, whose index serves the columns.
record Found (i : ℕ) (idxs : List (List Bytes)) (cols : List Bytes) (j : ℕ) : Type 0 where
  place : ℕ
  here : j ≡ i + place
  idx : List Bytes
  read : get_elem? idxs place ≡ some idx
  serves : Serves cols idx

at_head :
    (i : ℕ) (idx : List Bytes) (idxs : List (List Bytes)) (cols : List Bytes)
    → Serves cols idx
    → Found i (idx ∷ idxs) cols i
at_head i idx idxs cols s = record {
  place = 0;
  here = omega arith;
  idx = idx;
  read = refl;
  serves = s;
}

behind :
    (i j : ℕ) (idx : List Bytes) (idxs : List (List Bytes)) (cols : List Bytes)
    → Found (suc i) idxs cols j
    → Found i (idx ∷ idxs) cols j
behind i j idx idxs cols f = record {
  place = suc f.place;
  here = (let e = f.here in omega arith);
  idx = f.idx;
  read = ground (arith, f.read);
  serves = f.serves;
}

first_index-Found :
    (i j : ℕ) (idxs : List (List Bytes)) (col : Bytes)
    → first_index i idxs col ≡ some (some j)
    → Found i idxs (col ∷ []) j
unfolding first_index starts_with
first_index-Found i j [] col e = absurd (ground arith)
first_index-Found i j ([] ∷ idxs) col e = absurd (ground arith)
first_index-Found i j ((c ∷ idx) ∷ idxs) col e = elim (Bool-cases (equal col c)) [
  | inl same ↦
      let here : i ≡ j = ground arith in
      rw (← here) (
        at_head i (c ∷ idx) idxs (col ∷ [])
          (inl (starts_with-append (col ∷ []) (c ∷ idx) (rw same))))
  | inr other ↦
      behind i j (c ∷ idx) idxs (col ∷ []) (first_index-Found (suc i) j idxs col (ground arith))
]

prefix_index-Found :
    (i j : ℕ) (idxs : List (List Bytes)) (cols : List Bytes)
    → prefix_index i idxs cols ≡ some j
    → Found i idxs cols j
unfolding prefix_index
prefix_index-Found i j [] cols e = absurd (ground arith)
prefix_index-Found i j (idx ∷ idxs) cols e = elim (Bool-cases (starts_with cols idx)) [
  | inl same ↦
      let here : i ≡ j = ground arith in
      rw (← here) (at_head i idx idxs cols (inl (starts_with-append cols idx same)))
  | inr other ↦ behind i j idx idxs cols (prefix_index-Found (suc i) j idxs cols (ground arith))
]

covering_index-Found :
    (i j : ℕ) (idxs : List (List Bytes)) (cols : List Bytes)
    → covering_index i idxs cols ≡ some j
    → Found i idxs cols j
unfolding covering_index
covering_index-Found i j [] cols e = absurd (ground arith)
covering_index-Found i j (idx ∷ idxs) cols e =
    elim (Bool-cases (count_cols cols idx == length cols)) [
      | inl same ↦
          let here : i ≡ j = ground arith in
          rw (← here)
            (at_head i idx idxs cols (inr (λ d. count_cols-Has cols idx d (ground arith))))
      | inr other ↦
          behind i j idx idxs cols (covering_index-Found (suc i) j idxs cols (ground arith))
    ]

-- Both searches for several columns.
several :
    (idxs : List (List Bytes)) (cols : List Bytes) (j : ℕ)
    → elim (prefix_index 0 idxs cols) [
      | some i ↦ some (some i)
      | none ↦ some (covering_index 0 idxs cols)
    ]
      ≡ some (some j)
    → Found 0 idxs cols j
several idxs cols j e = elim (Option-cases (prefix_index 0 idxs cols)) [
  | inl h ↦ covering_index-Found 0 j idxs cols (some-injective (rw h at e))
  | inr (i, h) ↦ prefix_index-Found 0 j idxs cols (ground (arith, h, e))
]

index_at :
    (idxs : List (List Bytes)) (cols : List Bytes) (j : ℕ)
    → Found 0 idxs cols j
    → (idx : List Bytes) × (get_elem? idxs j ≡ some idx) × Serves cols idx
index_at idxs cols j f =
    let e : j ≡ f.place = (let h = f.here in omega arith) in (f.idx, (rw (e, f.read)), f.serves)

-- An index that `getColsIndex` finds is an index of the table that begins with the columns in their order, or that has
-- all of them if no column stands in it twice.
pub get_cols_index-get_elem? :
    (tdef : TableDef) (cols : List Bytes) (j : ℕ)
    → get_cols_index tdef cols ≡ some (some j)
    → (idx : List Bytes) × (get_elem? tdef.indexes j ≡ some idx) × Serves cols idx
unfolding get_cols_index
get_cols_index-get_elem? tdef [] j e = absurd (ground arith)
get_cols_index-get_elem? tdef (col ∷ []) j e =
    index_at tdef.indexes (col ∷ []) j (first_index-Found 0 j tdef.indexes col e)
get_cols_index-get_elem? tdef (col ∷ next ∷ cols) j e =
    index_at tdef.indexes _ j (several tdef.indexes (col ∷ next ∷ cols) j e)
