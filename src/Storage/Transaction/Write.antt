-- ===== src/Storage/Transaction/Write.antt =====
-- storage/disk.go: a transaction reads back what it wrote first.
use auroradb.Prelude.{
  ℕ, ◌+◌, ◌%◌, ◌<◌, ◌≤◌, ◌≡◌, ◌≢◌, ◌⊎◌, inl, inr, refl, sym, ap, ap₂, ◌∙◌, true, false, Bool-cases,
  equal→eq, [], none, some, Bytes, equal_refl, equal, length, if◌then◌else◌, arith,
}
use mathlib.Core.Path.{subst}
use auroradb.Prelude.Words.{word_mod}
use auroradb.Util.{Set, has, set_key, del_key, with_key}
use auroradb.Storage.Node.{BNode}
use auroradb.Storage.Pages.{Kv, update}
use auroradb.Storage.Tree.{insert}
use auroradb.Storage.Tree.Lookup.{Entries, Holds}
use auroradb.Storage.Tree.First.{first_entries, first_leaf-IsLeaf}
use auroradb.Storage.Transaction.{
  Pending, Kvtx, kv_store, pending_store, pending_new, pending_get, undelete, tx_get, tx_set,
}
use auroradb.Storage.Transaction.Overlay.{HoldsRoot, or_else, under, tx_get-Holds}

has-del_key : (s : Set) (key : Bytes) → has (del_key s key).0 key ≡ false
unfolding del_key with_key
has-del_key s key = ground (arith, equal_refl key)

has-undelete : (tx : Kvtx) (key : Bytes) → has (undelete tx key).del_set key ≡ false
unfolding undelete
has-undelete tx key = elim (Bool-cases (has tx.del_set key)) [
  | inl e ↦ rw (undelete, e) (has-del_key tx.del_set key)
  | inr e ↦ rw (undelete, e) e
]

undelete-pending :
    (tx : Kvtx) (key : Bytes)
    → ((undelete tx key).pending ≡ tx.pending)
      × ((undelete tx key).pending_root ≡ tx.pending_root)
      × ((undelete tx key).snapshot_root ≡ tx.snapshot_root)
unfolding undelete
undelete-pending tx key = ground arith

-- The page that was put into the map of the pending pages.
pub pending_get-new :
    (st : Pending) (ptr : ℕ) (b : BNode)
    → pending_get (record { pages = update st.pages ptr b; n_pages = ptr }) ptr ≡ some b
unfolding pending_get update
pending_get-new st ptr b = ground arith

-- The first insertion into the pending tree.
insert-first :
    (fuel : ℕ) (st : Pending) (key val : Bytes)
    → 0 < fuel
    → st.n_pages + 1 < word_mod
    → key ≢ []
    → length key + length val ≤ 4064
    → (st' : Pending) × (root : ℕ) × (insert pending_store fuel st 0 key val ≡ some (st', root))
      × HoldsRoot pending_store st' fuel root (first_entries key val)
unfolding insert pending_new Holds
insert-first fuel st key val pos room full fits =
    let (b, e, f) = first_leaf-IsLeaf key val full fits in
    let ptr = (st.n_pages + 1) % word_mod in
    (
      record { pages = update st.pages ptr b; n_pages = ptr },
      ptr,
      rw (e) refl,
      under 0 b pos (λ z. absurd (omega arith)) (pending_get-new st ptr b) f,
    )

undelete-keeps :
    (tx : Kvtx) (key k : Bytes) → has tx.del_set k ≡ false → has (undelete tx key).del_set k ≡ false
unfolding undelete del_key with_key
undelete-keeps tx key k h = ground arith

overlaid :
    (key val k : Bytes) (base : Entries)
    → k ≢ []
    → or_else (first_entries key val k) (base k) ≡ (if equal key k then some val else base k)
overlaid key val k base ne = elim (Bool-cases (equal key k)) [
  | inl e ↦ rw (e) refl
  | inr e ↦ elim (Bool-cases (equal [] k)) [
    | inl f ↦ absurd (ne (sym (equal→eq [] k f)))
    | inr f ↦ rw (e, f) refl
  ]
]

-- In a transaction that has written nothing, a key is written that is not empty and has with its value at most 4064
-- bytes, which a page with the empty key has room for. Then it reads as its new value, also if it was deleted before,
-- and every other key that is neither empty nor deleted reads as in the tree that the transaction began on.
pub tx_get-tx_set :
    (fuel : ℕ) (db : Kv) (tx : Kvtx) (base : Entries) (key val : Bytes)
    → 0 < fuel
    → tx.pending_root ≡ 0
    → tx.pending.n_pages + 1 < word_mod
    → key ≢ []
    → length key + length val ≤ 4064
    → HoldsRoot kv_store db fuel tx.snapshot_root base
    → (tx1 : Kvtx) × (tx_set fuel tx key val ≡ some tx1)
      × ((k : Bytes)
          → k ≢ []
          → (key ≡ k) ⊎ (has tx.del_set k ≡ false)
          → (tx2 : Kvtx) × (tx_get fuel db tx1 k
              ≡ some (tx2, if equal key k then some val else base k)))
unfolding tx_set
tx_get-tx_set fuel db tx base key val pos z room full fits hb =
    let (st, root, e, own) = insert-first fuel tx.pending key val pos room full fits in
    let tx0 = undelete tx key in
    let (same, same_root, same_snapshot) = undelete-pending tx key in
    let tx1 = record tx0 {
      write_set = (set_key tx0.write_set key).0;
      writes = with_key tx0.writes key true;
      pending = st;
      pending_root = root;
    } in
    (
      tx1,
      rw (ap₂ (λ p r. insert pending_store fuel p r key val) same (same_root ∙ z) ∙ e),
      λ k ne kept.
          let (tx2, g, u) =
            tx_get-Holds fuel db tx1 (first_entries key val) base k own
              (subst (λ r. HoldsRoot kv_store db fuel r base) (sym same_snapshot) hb) in
          let there : has tx1.del_set k ≡ false = elim kept [
            | inl same_key ↦ subst (λ j. has tx0.del_set j ≡ false) same_key (has-undelete tx key)
            | inr h ↦ undelete-keeps tx key k h
          ] in
          (
            tx2,
            g
                ∙ ap (λ v. some (tx2, v))
                    (ap (λ t. if t then none else or_else (first_entries key val k) (base k)) there
                      ∙ overlaid key val k base ne),
          ),
    )
