-- ===== src/Examples/Transactions.antt =====
-- A transaction on a new store.
use auroradb.Prelude.{
  ◌≡◌, ◌≢◌, ◌⊎◌, refl, ap, true, false, [], ◌∷◌, none, some, Bytes, codes, equal, if◌then◌else◌,
  arith,
}
use auroradb.Prelude.Panic.{◌>>=◌}
use auroradb.Util.{has}
use auroradb.Storage.Node.{BNode}
use auroradb.Storage.Pages.{Kv, update}
use auroradb.Storage.Meta.{
  Faults, no_faults, update_file, extend_mmap, total, map_chunk, chunk_length, double_until,
}
use auroradb.Prelude.Int64.{less_int, mul_int, add_int}
use auroradb.Storage.Meta.RoundTrip.{with_meta, abort-save_meta}
use auroradb.Storage.Tree.{tree_get_val}
use auroradb.Storage.Tree.Lookup.{Holds, tree_get_val-Holds}
use auroradb.Storage.Tree.First.{first_entries, first_leaf-IsLeaf}
use auroradb.Storage.Transaction.{
  Pending, Kvtx, pending_store, new_kvtx, no_pages, begin, tx_get, tx_set, tx_del, commit,
  commit_writes, commit_deletes,
}
use auroradb.Storage.Transaction.Overlay.{empty, under, or_else, tx_get-Holds}
use auroradb.Storage.Transaction.Write.{tx_get-tx_set, pending_get-new}
use auroradb.Storage.Transaction.Commit.{commit-begin, commit-tx_del}
use auroradb.Examples.Pages.{store, store-IsWords}

abbrev key : Bytes
key = codes "k"

abbrev val : Bytes
val = codes "v"

-- The leaf with the key, on page 1.
abbrev leaf : BNode
leaf = (first_leaf-IsLeaf key val (λ e. cc) (omega arith)).0

abbrev pages : Pending
pages = record { pages = update no_pages.pages 1 leaf; n_pages = 1 }

pages-Holds : Holds pending_store pages 0 leaf (first_entries key val)
unfolding Holds
pages-Holds = (first_leaf-IsLeaf key val (λ e. cc) (omega arith)).2

tree_get_val-Holds_example :
    tree_get_val pending_store 1 pages 1 (codes "j") ≡ some (first_entries key val (codes "j"))
tree_get_val-Holds_example =
    tree_get_val-Holds pending_store pages 0 1 1 leaf (first_entries key val) (codes "j")
      (omega arith) (omega arith) (pending_get-new no_pages 1 leaf) pages-Holds

abbrev writing : Kvtx
writing = record (begin store new_kvtx) { pending = pages; pending_root = 1 }

tx_get-Holds_example :
    (tx : Kvtx) × (tx_get 1 store writing key
      ≡ some
          (tx, if has writing.del_set key then none else or_else (first_entries key val key) none))
    × (writing ≡ record tx { read_set = writing.read_set })
unfolding begin
tx_get-Holds_example =
    tx_get-Holds 1 store writing (first_entries key val) (λ k. none) key
      (under 0 leaf (omega arith) (omega arith) (pending_get-new no_pages 1 leaf) pages-Holds)
      (empty refl (λ k. refl))

tx_get-tx_set_example :
    (tx1 : Kvtx) × (tx_set 1 new_kvtx key val ≡ some tx1)
    × ((k : Bytes)
        → k ≢ []
        → (key ≡ k) ⊎ (has new_kvtx.del_set k ≡ false)
        → (tx2 : Kvtx) × (tx_get 1 store tx1 k
            ≡ some (tx2, if equal key k then some val else none)))
tx_get-tx_set_example =
    tx_get-tx_set 1 store new_kvtx (λ k. none) key val (omega arith) refl (omega arith) (λ e. cc)
      (omega arith) (empty refl (λ k. refl))

abbrev no_mapping : Faults
no_mapping = record no_faults { map_fails = true }

-- The commit's error, and the store that it leaves.
failed_commit :
    commit 1 store (begin store new_kvtx) [] [] no_mapping
    ≡ some (record (with_meta store store) { nappend = 0; updates = λ ptr. none }, false)
unfolding commit commit_writes commit_deletes begin update_file extend_mmap total less_int mul_int
    map_chunk chunk_length double_until add_int
failed_commit = ap (λ o. o >>= λ db. some (db, false)) (abort-save_meta store store store-IsWords)

commit-begin_example :
    (now : Kv) × (record (with_meta store store) { nappend = 0; updates = λ ptr. none }
      ≡ record (with_meta now store) { nappend = 0; updates = λ ptr. none })
commit-begin_example =
    commit-begin 1 store store new_kvtx (begin store new_kvtx) [] [] no_mapping store-IsWords refl
      failed_commit

commit-tx_del_example :
    (tx : Kvtx) × (tx_del 1 (begin store new_kvtx) key ≡ some (tx, true))
    × (tx.deletes key ≡ true)
    × (commit 1 store tx [] (key ∷ []) no_faults ≡ none)
commit-tx_del_example = commit-tx_del 1 store key no_faults refl
