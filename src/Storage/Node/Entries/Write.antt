-- ===== src/Storage/Node/Entries/Write.antt =====
-- storage/btree.go: setHeader and one nodeAppendKV for each entry, as a node is built from nothing, read by getPtr,
-- getKey and getVal.
use mathlib.Core.Path.{subst}
use auroradb.Prelude.{
  ℕ, suc, ◌+◌, ◌*◌, ◌^◌, ◌<◌, ◌≤◌, ◌≡◌, refl, sym, ap, ◌∙◌, List, [], ◌∷◌, ◌++◌, append-nil,
  append_assoc, Option, some, length, length-append, All, arith,
}
use auroradb.Prelude.Panic.{◌>>=◌}
use auroradb.Storage.Node.{BNode, set_header, node_append_kv, u16_mod}
use auroradb.Storage.Node.Entries.{Entry, total, total-append, Built}
use auroradb.Storage.Node.Entries.Append.{node_append_kv-Built}
use auroradb.Storage.Node.Entries.Leaf.{header_lem}
use auroradb.Storage.Node.Entries.Read.{Reads, Built-Reads}

-- The entries are appended one after the other, the first at this place.
unfoldable pub append_all : BNode → ℕ → List Entry → Option BNode
append_all b i [] = some b
append_all b i (e ∷ es) = do b1 ← node_append_kv b i e.ptr e.key e.val; append_all b1 (suc i) es

unfoldable pub write_entries : BNode → ℕ → List Entry → Option BNode
write_entries b type es = do b1 ← set_header b type (length es); append_all b1 0 es

append_all-Built :
    (b : BNode) (n : ℕ) (news es : List Entry)
    → Built b n news
    → length news + length es ≤ n
    → All (λ e. e.ptr < 2 ^ 64) es
    → 4 + 10 * n + total news + total es ≤ b.size
    → (b' : BNode) × (append_all b (length news) es ≡ some b') × Built b' n (news ++ es)
unfolding append_all total
append_all-Built b n news [] h places words room =
    (b, refl, subst (Built b n) (sym (append-nil news)) h)
append_all-Built b n news (e ∷ es) h places (word, words) room =
    let (b1, w1, r1) = node_append_kv-Built b n news e h (omega arith) word (omega arith) in
    let len : length (news ++ e ∷ []) ≡ suc (length news) =
      omega (arith, length-append news (e ∷ [])) in
    let (b2, w2, r2) =
      append_all-Built b1 n (news ++ e ∷ []) es r1.built (omega arith) words
        (omega (arith, total-append news (e ∷ []), r1.size)) in
    (
      b2,
      rw w1 (ap (λ i. append_all b1 i es) (sym len) ∙ w2),
      subst (Built b2 n) (append_assoc news (e ∷ []) es) r2,
    )

-- The entries that are read at this place and the places behind it.
unfoldable pub ReadsAll : BNode → ℕ → List Entry → Type 0
ReadsAll b i [] = Unit
ReadsAll b i (e ∷ es) = Reads b i e × ReadsAll b (suc i) es

Built-ReadsAll :
    (b : BNode) (n : ℕ) (xs es : List Entry) → Built b n (xs ++ es) → ReadsAll b (length xs) es
unfolding ReadsAll
Built-ReadsAll b n xs [] h = tt
Built-ReadsAll b n xs (e ∷ es) h =
    let len : length (xs ++ e ∷ []) ≡ suc (length xs) = omega (arith, length-append xs (e ∷ [])) in
    let behind =
      Built-ReadsAll b n (xs ++ e ∷ []) es
        (subst (Built b n) (sym (append_assoc xs (e ∷ []) es)) h) in
    (Built-Reads b n xs es e h, subst (λ i. ReadsAll b i es) len behind)

-- Entries that fit a buffer of less than 64 KB are written into it without a panic, and at its place the pointer, the key
-- and the value of each of them are read back.
pub write_entries-ReadsAll :
    (b : BNode) (type : ℕ) (es : List Entry)
    → type < u16_mod
    → b.size < u16_mod
    → 4 + 10 * length es + total es ≤ b.size
    → All (λ e. e.ptr < 2 ^ 64) es
    → (b' : BNode) × (write_entries b type es ≡ some b') × ReadsAll b' 0 es
unfolding write_entries total
write_entries-ReadsAll b type es known small room words =
    let n = length es in
    let (b0, w0, s0, t0, h0) = header_lem b type n known (omega arith) small in
    let (b1, w1, r1) = append_all-Built b0 n [] es h0 (omega arith) words (omega (arith, s0)) in
    (b1, rw w0 w1, Built-ReadsAll b1 n [] es r1)
