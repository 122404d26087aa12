-- ===== src/Storage/Transaction.antt =====
-- storage/disk.go: transactions on a KV store. A transaction keeps what it writes in a tree of its own and reads
-- through it into the tree that was there when it began. `none` is a panic, or a lack of fuel for a descent.
pub mod Overlay
pub mod Commit
pub mod Write
use auroradb.Prelude.{
  ℕ, ◌+◌, ◌%◌, Bool, true, false, List, [], ◌∷◌, Option, none, some, Bytes, ◌==◌, if◌then◌else◌,
}
use auroradb.Prelude.Panic.{◌>>=◌}
use auroradb.Prelude.Words.{word_mod}
use auroradb.Storage.Node.{BNode, make}
use auroradb.Storage.Pages.{Kv, update, page_read, page_alloc, free_push_tail}
use auroradb.Storage.Meta.{Faults, save_meta, update_file, abort}
use auroradb.Storage.Tree.{Store, tree_get_val, insert, delete}
use auroradb.Storage.Tree.Iterator.{BIter, seek_le}
use auroradb.Util.{Set, new_set, has, set_key, del_key, with_key}

-- The functions that `Open` gives to the store's tree.
abbrev pub kv_store : Store Kv
kv_store = record { get = page_read; new = page_alloc; del = free_push_tail }

-- The pages that the closures of `Begin` share.
pub record Pending : Type 0 where
  pub pages : ℕ → Option BNode
  pub n_pages : ℕ

-- A page that is not there is nil.
unfoldable pub pending_get : Pending → ℕ → Option BNode
pending_get st ptr = elim (st.pages ptr) [ some b ↦ some b | none ↦ some (make 0) ]

unfoldable pub pending_new : Pending → BNode → Option (Pending × ℕ)
pending_new st b =
    let ptr = (st.n_pages + 1) % word_mod in
    some (record { pages = update st.pages ptr b; n_pages = ptr }, ptr)

abbrev pub pending_store : Store Pending
pending_store = record { get = pending_get; new = pending_new; del = λ st ptr. some st }

pub record Kvtx : Type 0 where
  pub meta' : Bytes
  pub snapshot_root : ℕ
  pub pending : Pending
  pub pending_root : ℕ
  pub del_set : Set
  pub write_set : Set
  pub read_set : Set
  pub writes : Bytes → Bool
  pub deletes : Bytes → Bool

abbrev pub no_pages : Pending
no_pages = record { pages = λ ptr. none; n_pages = 0 }

abbrev pub new_kvtx : Kvtx
new_kvtx = record {
  meta' = [];
  snapshot_root = 0;
  pending = no_pages;
  pending_root = 0;
  del_set = new_set;
  write_set = new_set;
  read_set = new_set;
  writes = λ k. false;
  deletes = λ k. false;
}

-- `Begin` leaves the root of the pending tree as it is.
unfoldable pub begin : Kv → Kvtx → Kvtx
begin db tx = record tx {
  meta' = save_meta db;
  snapshot_root = db.root;
  pending = no_pages;
  del_set = new_set;
  write_set = new_set;
  read_set = new_set;
  writes = λ k. false;
  deletes = λ k. false;
}

-- `KVTX.Get`; the inner `none` is the error.
unfoldable pub tx_get : ℕ → Kv → Kvtx → Bytes → Option (Kvtx × Option Bytes)
tx_get fuel db tx key = if has tx.del_set key then some (tx, none) else (do
  let tx1 = record tx { read_set = (set_key tx.read_set key).0 }
  own ← tree_get_val pending_store fuel tx.pending tx.pending_root key
  elim own [
    | some val ↦ some (tx1, some val)
    | none ↦ (do val ← tree_get_val kv_store fuel db tx.snapshot_root key; some (tx1, val))
  ])

-- `if tx.delSet.Has(key) { … }`
unfoldable pub undelete : Kvtx → Bytes → Kvtx
undelete tx key =
    if has tx.del_set key
    then record tx { del_set = (del_key tx.del_set key).0; deletes = with_key tx.deletes key false }
    else tx

unfoldable pub tx_set : ℕ → Kvtx → Bytes → Bytes → Option Kvtx
tx_set fuel tx key val =
    let tx1 = undelete tx key in
    do
      (pages, root) ← insert pending_store fuel tx1.pending tx1.pending_root key val
      some (record tx1 {
        write_set = (set_key tx1.write_set key).0;
        writes = with_key tx1.writes key true;
        pending = pages;
        pending_root = root;
      })

-- `tx.delSet.Set(key); tx.deletes[string(key)] = true`
abbrev pub mark_deleted : Kvtx → Bytes → Kvtx
mark_deleted tx key = record tx {
  del_set = (set_key tx.del_set key).0;
  deletes = with_key tx.deletes key true;
}

unfoldable pub tx_del : ℕ → Kvtx → Bytes → Option (Kvtx × Bool)
tx_del fuel tx key =
    if has tx.del_set key
    then some (tx, false)
    else if has tx.write_set key
    then (do
      let tx1 = mark_deleted tx key
      (pages, root, there) ← delete pending_store fuel tx1.pending tx1.pending_root key
      some (
        record tx1 {
          write_set = (del_key tx1.write_set key).0;
          pending = pages;
          pending_root = root;
        },
        there,
      ))
    else some (mark_deleted tx key, true)

unfoldable pub tx_seek : ℕ → Kv → Kvtx → Bytes → Option BIter
tx_seek fuel db tx key = seek_le kv_store db fuel tx.snapshot_root key

-- `KV.Get`, `KV.Set` and `KV.Del`.
unfoldable pub kv_get : ℕ → Kv → Bytes → Option (Option Bytes)
kv_get fuel db key = tree_get_val kv_store fuel db db.root key

unfoldable pub kv_set : ℕ → Kv → Bytes → Bytes → Option Kv
kv_set fuel db key val = do
  (db1, root) ← insert kv_store fuel db db.root key val
  some (record db1 { root = root })

unfoldable pub kv_del : ℕ → Kv → Bytes → Option (Kv × Bool)
kv_del fuel db key = do
  (db1, root, there) ← delete kv_store fuel db db.root key
  some (record db1 { root = root }, there)

-- The value that a commit writes: nil where the pending tree does not have the key.
abbrev pub or_nil : Option Bytes → Bytes
or_nil none = []
or_nil (some val) = val

-- The loops of `Commit` over `writes` and `deletes`, in an order of the map's keys.
unfoldable pub commit_writes : ℕ → Kv → Kvtx → List Bytes → Option Kv
commit_writes fuel db tx [] = some db
commit_writes fuel db tx (key ∷ keys) = do
  val ← tree_get_val pending_store fuel tx.pending tx.pending_root key
  db1 ← kv_set fuel db key (or_nil val)
  commit_writes fuel db1 tx keys

unfoldable pub commit_deletes : ℕ → Kv → List Bytes → Option Kv
commit_deletes fuel db [] = some db
commit_deletes fuel db (key ∷ keys) = do
  (db1, there) ← kv_del fuel db key
  commit_deletes fuel db1 keys

-- `Commit`, where `writes` and `deletes` enumerate the transaction's maps; `false` is the error.
unfoldable pub commit : ℕ → Kv → Kvtx → List Bytes → List Bytes → Faults → Option (Kv × Bool)
commit fuel db tx writes deletes faults = do
  db1 ← commit_writes fuel db tx writes
  db2 ← commit_deletes fuel db1 deletes
  (db3, done) ← update_file db2 faults
  (if done then some (db3, true) else (do db4 ← abort db3 tx.meta'; some (db4, false)))
