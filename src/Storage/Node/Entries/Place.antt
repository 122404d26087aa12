-- ===== src/Storage/Node/Entries/Place.antt =====
-- storage/btree.go: the place that nodeLookupLE finds, on the list of a node's entries.
use mathlib.Core.Path.{subst}
use auroradb.Prelude.{
  ℕ, zero, suc, ◌+◌, ◌<◌, ◌≡◌, ◌≢◌, ◌⊎◌, refl, sym, ap, ◌∙◌, inl, inr, List, [], ◌∷◌, ◌++◌, some,
  Bytes, Ordering, All, length, length-append, arith,
}
use auroradb.Prelude.Compare.{compare_bytes}
use auroradb.Storage.Node.{BNode, get_key, node_lookup_le}
use auroradb.Storage.Node.Lookup.{IsSorted, node_lookup_le-IsLastLe}
use auroradb.Storage.Node.Entries.{Entry, Built}
use auroradb.Storage.Node.Entries.Read.{Built-Reads}
use auroradb.Storage.Node.Entries.Ordered.{Behind, Ascending}

-- The key at a place.
unfoldable pub key_at : List Entry → ℕ → Bytes
key_at [] i = []
key_at (e ∷ es) zero = e.key
key_at (e ∷ es) (suc i) = key_at es i

-- The entries before a place, the one at the place and those behind it.
pub record Parts (es : List Entry) (i : ℕ) : Type 0 where
  pub xs : List Entry
  pub e : Entry
  pub zs : List Entry
  pub shape : es ≡ xs ++ e ∷ zs
  pub len : length xs ≡ i

pub parts : (es : List Entry) (i : ℕ) → i < length es → Parts es i
parts [] i h = absurd (omega arith)
parts (e ∷ es) zero h = record { xs = []; e = e; zs = es; shape = refl; len = refl }
parts (e ∷ es) (suc i) h =
    let p = parts es i (omega arith) in
    record {
      xs = e ∷ p.xs;
      e = p.e;
      zs = p.zs;
      shape = ap (λ s. e ∷ s) p.shape;
      len = ap suc p.len;
    }

key_at-append : (xs ys : List Entry) (j : ℕ) → key_at (xs ++ ys) (length xs + j) ≡ key_at ys j
unfolding key_at
key_at-append [] ys j = ap (key_at ys) (omega arith)
key_at-append (x ∷ xs) ys j =
    let e : length (x ∷ xs) + j ≡ suc (length xs + j) = omega arith in
    ap (key_at (x ∷ (xs ++ ys))) e ∙ key_at-append xs ys j

pub key_at_here : (xs zs : List Entry) (e : Entry) → key_at (xs ++ e ∷ zs) (length xs) ≡ e.key
unfolding key_at
key_at_here xs zs e =
    let n : length xs ≡ length xs + 0 = omega arith in
    ap (key_at (xs ++ e ∷ zs)) n ∙ key_at-append xs (e ∷ zs) 0

-- All entries, and the key at every place.
All-key_at :
    (P : Bytes → Type 0) (es : List Entry)
    → ((j : ℕ) → j < length es → P (key_at es j))
    → All (λ e. P e.key) es
unfolding key_at
All-key_at P [] h = tt
All-key_at P (e ∷ es) h = (h 0 (omega arith), All-key_at P es (λ j lt. h (suc j) (omega arith)))

key_at-All :
    (P : Bytes → Type 0) (es : List Entry) (j : ℕ)
    → All (λ e. P e.key) es
    → j < length es
    → P (key_at es j)
unfolding key_at
key_at-All P [] j h lt = absurd (omega arith)
key_at-All P (e ∷ es) zero (he, h) lt = he
key_at-All P (e ∷ es) (suc j) (he, h) lt = key_at-All P es j h (omega arith)

key_at-Ascending :
    (es : List Entry) (i j : ℕ)
    → Ascending es
    → i < j
    → j < length es
    → compare_bytes (key_at es j) (key_at es i) ≡ Ordering.gt
unfolding key_at Ascending
key_at-Ascending [] i j h lt l = absurd (omega arith)
key_at-Ascending (e ∷ es) i zero h lt l = absurd (omega arith)
key_at-Ascending (e ∷ es) zero (suc j) (he, h) lt l =
    key_at-All (λ k. compare_bytes k e.key ≡ Ordering.gt) es j he (omega arith)
key_at-Ascending (e ∷ es) (suc i) (suc j) (he, h) lt l =
    key_at-Ascending es i j h (omega arith) (omega arith)

-- A node whose entries ascend is in order.
pub Built-IsSorted :
    (b : BNode) (es : List Entry)
    → Built b (length es) es
    → Ascending es
    → IsSorted b (length es) (key_at es)
Built-IsSorted b es h asc = record {
  count = h.count;
  small = (let r = h.room in let s = h.small in omega arith);
  read = λ i lt.
      let p = parts es i lt in
      let r = Built-Reads b (length es) p.xs p.zs p.e (subst (Built b (length es)) p.shape h) in
      ap (get_key b) (sym p.len)
      ∙ r.key
      ∙ ap some (
          sym (key_at_here p.xs p.zs p.e)
          ∙ ap (λ s. key_at s (length p.xs)) (sym p.shape)
          ∙ ap (key_at es) p.len);
  ascending = λ i j lt l. key_at-Ascending es i j asc lt l;
}

-- The place found for a key: the entries behind it are behind the key, and the one at it is not, but at the first place.
pub record Place (es : List Entry) (key : Bytes) (idx : ℕ) : Type 0 where
  pub at : Parts es idx
  pub not_after : (idx ≡ 0) ⊎ (compare_bytes at.e.key key ≢ Ordering.gt)
  pub behind : All (Behind key) at.zs

-- In a node whose entries ascend the search ends, without a panic.
pub node_lookup_le-Place :
    (b : BNode) (es : List Entry) (key : Bytes)
    → Built b (length es) es
    → Ascending es
    → 0 < length es
    → (idx : ℕ) × (node_lookup_le b key ≡ some idx) × Place es key idx
node_lookup_le-Place b es key h asc some_entry =
    let (idx, e, l) =
      node_lookup_le-IsLastLe b (length es) (key_at es) key (Built-IsSorted b es h asc) in
    let lt : idx < length es = elim l.below [ inl z ↦ omega arith | inr (lt, n) ↦ lt ] in
    let p = parts es idx lt in
    let here : key_at es idx ≡ p.e.key =
      ap (key_at es) (sym p.len)
      ∙ ap (λ s. key_at s (length p.xs)) p.shape
      ∙ key_at_here p.xs p.zs p.e in
    let count : length es ≡ length p.xs + suc (length p.zs) =
      ap length p.shape ∙ length-append p.xs (p.e ∷ p.zs) in
    (
      idx,
      e,
      record {
        at = p;
        not_after = elim l.below [
          | inl z ↦ inl z
          | inr (lt', n) ↦ inr (λ g. n (ap (λ k. compare_bytes k key) here ∙ g))
        ];
        behind =
            All-key_at (λ k. compare_bytes k key ≡ Ordering.gt) p.zs
              (λ j lj.
                (let len = p.len in
                  let next : length p.xs + suc j ≡ suc idx + j = omega arith in
                  let read : key_at es (suc idx + j) ≡ key_at p.zs j =
                    ap (key_at es) (sym next)
                    ∙ ap (λ s. key_at s (length p.xs + suc j)) p.shape
                    ∙ key_at-append p.xs (p.e ∷ p.zs) (suc j)
                    ∙ (unfold key_at in refl) in
                  ap (λ k. compare_bytes k key) (sym read)
                  ∙ l.above (suc idx + j) (omega arith) (omega arith)));
      },
    )
