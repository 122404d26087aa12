-- ===== src/Storage/Node/Entries/Ordered.antt =====
-- storage/btree.go: what a leaf's operations are on the list of its entries, in the order of their keys.
use mathlib.Core.Path.{subst}
use auroradb.Prelude.{
  ◌≡◌, ◌≢◌, refl, sym, ap, ◌∙◌, inl, inr, true, false, Bool-cases, List, [], ◌∷◌, ◌++◌, Option,
  none, some, Bytes, Ordering, All, equal, equal→eq, if◌then◌else◌,
}
use auroradb.Prelude.Compare.{
  Ordering-cases, compare_bytes, compare_bytes_refl, compare_bytes_trans, compare_bytes_swap,
  compare_bytes_swap_eq, compare_bytes_swap_gt, compare_bytes→eq,
}
use auroradb.Storage.Node.Entries.{Entry}

-- An entry of a leaf: its pointer is zero.
abbrev pub pair : Bytes → Bytes → Entry
pair key val = record { ptr = 0; key = key; val = val }

-- The entry is behind the key.
abbrev pub Behind : Bytes → Entry → Type 0
Behind key e = compare_bytes e.key key ≡ Ordering.gt

-- Each key is behind those before it.
unfoldable pub Ascending : List Entry → Type 0
Ascending [] = Unit
Ascending (e ∷ es) = All (Behind e.key) es × Ascending es

unfoldable pub insert_entry : Bytes → Bytes → List Entry → List Entry
insert_entry key val [] = pair key val ∷ []
insert_entry key val (e ∷ es) = elim (compare_bytes key e.key) [
  | Ordering.lt ↦ pair key val ∷ e ∷ es
  | Ordering.eq ↦ pair key val ∷ es
  | Ordering.gt ↦ e ∷ insert_entry key val es
]

unfoldable pub delete_entry : Bytes → List Entry → List Entry
delete_entry key [] = []
delete_entry key (e ∷ es) = elim (equal key e.key) [ true ↦ es | false ↦ e ∷ delete_entry key es ]

unfoldable pub find : Bytes → List Entry → Option Bytes
find key [] = none
find key (e ∷ es) = elim (equal key e.key) [ true ↦ some e.val | false ↦ find key es ]

-- What is behind a key is behind those before it.
pub All-Behind_trans :
    (a b : Bytes) (es : List Entry)
    → compare_bytes b a ≡ Ordering.gt
    → All (Behind b) es
    → All (Behind a) es
All-Behind_trans a b [] h hs = tt
All-Behind_trans a b (e ∷ es) h (he, hs) =
    (compare_bytes_trans e.key b a he h, All-Behind_trans a b es h hs)

pub not_equal : (a b : Bytes) → compare_bytes a b ≢ Ordering.eq → equal a b ≡ false
not_equal a b h = elim (Bool-cases (equal a b)) [
  | inl e ↦ absurd (h (ap (compare_bytes a) (sym (equal→eq a b e)) ∙ compare_bytes_refl a))
  | inr e ↦ e
]

-- The three cases of an insertion.
module _ (key val : Bytes) (e : Entry) (es : List Entry) where
  pub insert_before :
      compare_bytes key e.key ≡ Ordering.lt → insert_entry key val (e ∷ es) ≡ pair key val ∷ e ∷ es
  unfolding insert_entry
  insert_before h = rw (insert_entry, h) refl

  pub insert_at :
      compare_bytes key e.key ≡ Ordering.eq → insert_entry key val (e ∷ es) ≡ pair key val ∷ es
  unfolding insert_entry
  insert_at h = rw (insert_entry, h) refl

  pub insert_behind :
      compare_bytes key e.key ≡ Ordering.gt
      → insert_entry key val (e ∷ es) ≡ e ∷ insert_entry key val es
  unfolding insert_entry
  insert_behind h = rw (insert_entry, h) refl

insert_entry-Behind :
    (a key val : Bytes) (es : List Entry)
    → compare_bytes key a ≡ Ordering.gt
    → All (Behind a) es
    → All (Behind a) (insert_entry key val es)
insert_entry-Behind a key val [] h hs = unfold insert_entry in (h, tt)
insert_entry-Behind a key val (e ∷ es) h (he, hs) =
    elim (Ordering-cases (compare_bytes key e.key)) [
      | inl lt ↦ subst (All (Behind a)) (sym (insert_before key val e es lt)) (h, (he, hs))
      | inr (inl eq) ↦ subst (All (Behind a)) (sym (insert_at key val e es eq)) (h, hs)
      | inr (inr gt) ↦
          subst (All (Behind a)) (sym (insert_behind key val e es gt))
            (he, insert_entry-Behind a key val es h hs)
    ]

-- An insertion keeps the order.
pub insert_entry-Ascending :
    (key val : Bytes) (es : List Entry) → Ascending es → Ascending (insert_entry key val es)
unfolding Ascending
insert_entry-Ascending key val [] h = unfold insert_entry in (tt, tt)
insert_entry-Ascending key val (e ∷ es) (he, h) = elim (Ordering-cases (compare_bytes key e.key)) [
  | inl lt ↦
      let swapped = compare_bytes_swap key e.key lt in
      subst Ascending (sym (insert_before key val e es lt))
        ((swapped, All-Behind_trans key e.key es swapped he), (he, h))
  | inr (inl eq) ↦
      subst Ascending (sym (insert_at key val e es eq))
        (subst (λ k. All (Behind k) es) (sym (compare_bytes→eq key e.key eq)) he, h)
  | inr (inr gt) ↦
      subst Ascending (sym (insert_behind key val e es gt))
        (insert_entry-Behind e.key key val es gt he, insert_entry-Ascending key val es h)
]

pub find_first :
    (k : Bytes) (e : Entry) (es : List Entry)
    → find k (e ∷ es) ≡ (if equal k e.key then some e.val else find k es)
unfolding find
find_first k e es = elim (Bool-cases (equal k e.key)) [
  | inl h ↦ rw (find, h) refl
  | inr h ↦ rw (find, h) refl
]

-- After an insertion the key has its value, and every other key has the value it had.
pub find-insert_entry :
    (k key val : Bytes) (es : List Entry)
    → find k (insert_entry key val es) ≡ (if equal k key then some val else find k es)
find-insert_entry k key val [] = unfold insert_entry in find_first k (pair key val) []
find-insert_entry k key val (e ∷ es) = elim (Ordering-cases (compare_bytes key e.key)) [
  | inl lt ↦ ap (find k) (insert_before key val e es lt) ∙ find_first k (pair key val) (e ∷ es)
  | inr (inl eq) ↦
      ap (find k) (insert_at key val e es eq)
      ∙ find_first k (pair key val) es
      ∙ (let same = compare_bytes→eq key e.key eq in
          let step = find_first k e es in
          elim (Bool-cases (equal k key)) [
            | inl h ↦ rw h refl
            | inr h ↦
                let other : equal k e.key ≡ false = ap (equal k) (sym same) ∙ h in
                rw (h, step, other) refl
          ])
  | inr (inr gt) ↦
      ap (find k) (insert_behind key val e es gt)
      ∙ find_first k e (insert_entry key val es)
      ∙ (let rest = find-insert_entry k key val es in
          let step = find_first k e es in
          elim (Bool-cases (equal k e.key)) [
            | inl same ↦
                let same_key = equal→eq k e.key same in
                let other : equal k key ≡ false =
                  not_equal k key (λ h. (let r = compare_bytes_swap_eq k key h in cc)) in
                rw (same, other, step, same) refl
            | inr other ↦ rw (other, rest, step, other) refl
          ])
]

All-middle : (P : Entry → Type 0) (xs zs : List Entry) (e : Entry) → All P (xs ++ e ∷ zs) → P e
All-middle P [] zs e (h, hs) = h
All-middle P (x ∷ xs) zs e (h, hs) = All-middle P xs zs e hs

-- The entry is before the key.
abbrev pub Before : Bytes → Entry → Type 0
Before key e = compare_bytes key e.key ≡ Ordering.gt

pub Ascending-Before :
    (xs zs : List Entry) (e : Entry) → Ascending (xs ++ e ∷ zs) → All (Before e.key) xs
unfolding Ascending
Ascending-Before [] zs e h = tt
Ascending-Before (x ∷ xs) zs e (hx, h) =
    (All-middle (Behind x.key) xs zs e hx, Ascending-Before xs zs e h)

pub All-Before_trans :
    (a b : Bytes) (es : List Entry)
    → compare_bytes b a ≡ Ordering.gt
    → All (Before a) es
    → All (Before b) es
All-Before_trans a b [] h hs = tt
All-Before_trans a b (e ∷ es) h (he, hs) =
    (compare_bytes_trans b a e.key h he, All-Before_trans a b es h hs)

-- An insertion behind entries before the key.
pub insert_entry-append :
    (key val : Bytes) (xs ys : List Entry)
    → All (Before key) xs
    → insert_entry key val (xs ++ ys) ≡ xs ++ insert_entry key val ys
insert_entry-append key val [] ys h = refl
insert_entry-append key val (x ∷ xs) ys (hx, h) =
    insert_behind key val x (xs ++ ys) hx ∙ ap (λ s. x ∷ s) (insert_entry-append key val xs ys h)

-- An insertion before entries behind the key.
pub insert_entry_first :
    (key val : Bytes) (zs : List Entry)
    → All (Behind key) zs
    → insert_entry key val zs ≡ pair key val ∷ zs
insert_entry_first key val [] h = unfold insert_entry in refl
insert_entry_first key val (z ∷ zs) (hz, h) =
    insert_before key val z zs (compare_bytes_swap_gt z.key key hz)

pub find-append :
    (key : Bytes) (xs ys : List Entry) → All (Before key) xs → find key (xs ++ ys) ≡ find key ys
find-append key [] ys h = refl
find-append key (x ∷ xs) ys (hx, h) =
    let other : equal key x.key ≡ false = not_equal key x.key (λ e. cc) in
    find_first key x (xs ++ ys) ∙ rw other (find-append key xs ys h)
