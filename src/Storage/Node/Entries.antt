-- ===== src/Storage/Node/Entries.antt =====
-- storage/btree.go: the list of entries that a node holds. This is the view of a node in which nodeAppendRange and what
-- is built on it take parts of lists.
pub mod Frame
pub mod Append
pub mod Copy
pub mod Part
pub mod Range
pub mod Ordered
pub mod Deletion
pub mod Read
pub mod Place
pub mod Leaf
pub mod Write
pub mod Update
use auroradb.Prelude.{
  ℕ, zero, suc, ◌+◌, ◌*◌, ◌^◌, ◌<◌, ◌≤◌, ◌≡◌, refl, sym, ap, ap₂, ◌∙◌, List, [], ◌∷◌, ◌++◌,
  append_assoc, some, Bytes, length, length-append, All, arith,
}
use mathlib.Core.Path.{subst}
use auroradb.Prelude.Words.{little_endian, length-little_endian}
use auroradb.Storage.Node.{BNode, bytes_from, nkeys, getptr, get_offset, u16_mod}

pub record Entry : Type 0 where
  pub ptr : ℕ
  pub key : Bytes
  pub val : Bytes

-- The bytes of an entry, and of entries one after the other.
abbrev pub size : Entry → ℕ
size e = 4 + length e.key + length e.val

unfoldable pub total : List Entry → ℕ
total [] = 0
total (e ∷ es) = size e + total es

unfoldable pub encode : Entry → Bytes
encode e = little_endian 2 (length e.key) ++ (little_endian 2 (length e.val) ++ (e.key ++ e.val))

unfoldable pub encodes : List Entry → Bytes
encodes [] = []
encodes (e ∷ es) = encode e ++ encodes es

-- From the place `i` on, the node has the pointers of these entries.
unfoldable pub Pointers : BNode → ℕ → List Entry → Type 0
Pointers b i [] = Unit
Pointers b i (e ∷ es) = (getptr b i ≡ some e.ptr) × Pointers b (suc i) es

-- From the place `i` on, the node has the offsets of these entries, `off` the first, and of their end.
unfoldable pub Offsets : BNode → ℕ → ℕ → List Entry → Type 0
Offsets b i off [] = get_offset b i ≡ some off
Offsets b i off (e ∷ es) = (get_offset b i ≡ some off) × Offsets b (suc i) (off + size e) es

-- The first places of a node with `n` of them hold these entries.
pub record Built (b : BNode) (n : ℕ) (es : List Entry) : Type 0 where
  pub count : nkeys b ≡ some n
  pub places : length es ≤ n
  pub small : b.size < u16_mod
  pub room : 4 + 10 * n + total es ≤ b.size
  pub words : All (λ e. e.ptr < 2 ^ 64) es
  pub pointers : Pointers b 0 es
  pub offsets : Offsets b 0 0 es
  pub body : bytes_from b.at (4 + 10 * n) (total es) ≡ encodes es

pub total-append : (xs ys : List Entry) → total (xs ++ ys) ≡ total xs + total ys
unfolding total
total-append [] ys = omega arith
total-append (x ∷ xs) ys = omega (arith, total-append xs ys)

pub encodes-append : (xs ys : List Entry) → encodes (xs ++ ys) ≡ encodes xs ++ encodes ys
unfolding encodes
encodes-append [] ys = refl
encodes-append (x ∷ xs) ys =
    ap (λ s. encode x ++ s) (encodes-append xs ys)
    ∙ sym (append_assoc (encode x) (encodes xs) (encodes ys))

pub length-encode : (e : Entry) → length (encode e) ≡ size e
unfolding encode
length-encode e =
    let k = little_endian 2 (length e.key) in
    let v = little_endian 2 (length e.val) in
    omega (
      arith,
      length-append k (v ++ (e.key ++ e.val)),
      length-append v (e.key ++ e.val),
      length-append e.key e.val,
      length-little_endian 2 (length e.key),
      length-little_endian 2 (length e.val),
    )

pub length-encodes : (es : List Entry) → length (encodes es) ≡ total es
unfolding encodes total
length-encodes [] = refl
length-encodes (e ∷ es) =
    omega (arith, length-append (encode e) (encodes es), length-encode e, length-encodes es)

-- Parts of a list of entries.
subst₂ : (P : ℕ → ℕ → Type 0) {a b c d : ℕ} → a ≡ b → c ≡ d → P a c → P b d
subst₂ P {b} {c} e f h = subst (P b) f (subst (λ x. P x c) e h)

pub Pointers-append :
    (b : BNode) (i : ℕ) (xs ys : List Entry)
    → Pointers b i xs
    → Pointers b (i + length xs) ys
    → Pointers b i (xs ++ ys)
unfolding Pointers
Pointers-append b i [] ys p q = subst (λ k. Pointers b k ys) (omega arith) q
Pointers-append b i (x ∷ xs) ys (h, p) q =
    (h, Pointers-append b (suc i) xs ys p (subst (λ k. Pointers b k ys) (omega arith) q))

pub Pointers-behind :
    (b : BNode) (i : ℕ) (xs ys : List Entry)
    → Pointers b i (xs ++ ys)
    → Pointers b (i + length xs) ys
unfolding Pointers
Pointers-behind b i [] ys p = subst (λ k. Pointers b k ys) (omega arith) p
Pointers-behind b i (x ∷ xs) ys (h, p) =
    subst (λ k. Pointers b k ys) (omega arith) (Pointers-behind b (suc i) xs ys p)

pub Pointers-before :
    (b : BNode) (i : ℕ) (xs ys : List Entry) → Pointers b i (xs ++ ys) → Pointers b i xs
unfolding Pointers
Pointers-before b i [] ys p = tt
Pointers-before b i (x ∷ xs) ys (h, p) = (h, Pointers-before b (suc i) xs ys p)

pub Offsets-first :
    (b : BNode) (i off : ℕ) (xs : List Entry) → Offsets b i off xs → get_offset b i ≡ some off
unfolding Offsets
Offsets-first b i off [] h = h
Offsets-first b i off (x ∷ xs) (h, o) = h

pub Offsets-append :
    (b : BNode) (i off : ℕ) (xs ys : List Entry)
    → Offsets b i off xs
    → Offsets b (i + length xs) (off + total xs) ys
    → Offsets b i off (xs ++ ys)
unfolding Offsets total
Offsets-append b i off [] ys o q = subst₂ (λ k f. Offsets b k f ys) (omega arith) (omega arith) q
Offsets-append b i off (x ∷ xs) ys (h, o) q = (
  h,
  Offsets-append b (suc i) (off + size x) xs ys o
      (subst₂ (λ k f. Offsets b k f ys) (omega arith) (omega arith) q),
)

pub Offsets-behind :
    (b : BNode) (i off : ℕ) (xs ys : List Entry)
    → Offsets b i off (xs ++ ys)
    → Offsets b (i + length xs) (off + total xs) ys
unfolding Offsets total
Offsets-behind b i off [] ys o = subst₂ (λ k f. Offsets b k f ys) (omega arith) (omega arith) o
Offsets-behind b i off (x ∷ xs) ys (h, o) =
    subst₂ (λ k f. Offsets b k f ys) (omega arith) (omega arith)
      (Offsets-behind b (suc i) (off + size x) xs ys o)

pub Offsets-before :
    (b : BNode) (i off : ℕ) (xs ys : List Entry) → Offsets b i off (xs ++ ys) → Offsets b i off xs
unfolding Offsets
Offsets-before b i off [] ys o = Offsets-first b i off ys o
Offsets-before b i off (x ∷ xs) ys (h, o) = (h, Offsets-before b (suc i) (off + size x) xs ys o)
