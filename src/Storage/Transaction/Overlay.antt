-- ===== src/Storage/Transaction/Overlay.antt =====
-- storage/disk.go: what a transaction reads is what it wrote, over what was there when it began.
use auroradb.Prelude.{
  ℕ, ◌<◌, ◌≡◌, ◌≢◌, inl, inr, refl, Bool-cases, Option, Option-cases, none, some, Bytes,
  if◌then◌else◌,
}
use auroradb.Util.{has, set_key}
use auroradb.Storage.Node.{BNode}
use auroradb.Storage.Pages.{Kv}
use auroradb.Storage.Tree.{Store, tree_get_val}
use auroradb.Storage.Tree.Lookup.{Entries, Holds, tree_get_val-Holds}
use auroradb.Storage.Transaction.{Kvtx, kv_store, pending_store, tx_get}

-- The tree under a root holds these entries, at a depth below the fuel; there is none under the root 0.
pub data HoldsRoot {S : Type 0} (tree : Store S) (st : S) (fuel root : ℕ) (m : Entries)
    : Type 0 where
  empty : root ≡ 0 → ((k : Bytes) → m k ≡ none) → HoldsRoot tree st fuel root m
  under :
      (h : ℕ) (b : BNode)
      → h < fuel
      → root ≢ 0
      → tree.get st root ≡ some b
      → Holds tree st h b m
      → HoldsRoot tree st fuel root m

pub tree_get_val-HoldsRoot :
    {S : Type 0} (tree : Store S) (st : S) (fuel root : ℕ) (m : Entries) (key : Bytes)
    → HoldsRoot tree st fuel root m
    → tree_get_val tree fuel st root key ≡ some (m key)
unfolding tree_get_val
tree_get_val-HoldsRoot tree st fuel root m key (empty z n) = rw (z, n key)
tree_get_val-HoldsRoot tree st fuel root m key (under h b lt nz e f) =
    tree_get_val-Holds tree st h fuel root b m key lt nz e f

-- The first of two that is there.
abbrev pub or_else : Option Bytes → Option Bytes → Option Bytes
or_else none w = w
or_else (some v) w = some v

-- Where the transaction's own tree holds `own` and the tree it began on holds `base`, it gets the error for a key
-- that it deleted, and for every other key its own value, or where it has none the value in `base`, if there is
-- one. Nothing but the set of the keys read changes.
pub tx_get-Holds :
    (fuel : ℕ) (db : Kv) (tx : Kvtx) (own base : Entries) (key : Bytes)
    → HoldsRoot pending_store tx.pending fuel tx.pending_root own
    → HoldsRoot kv_store db fuel tx.snapshot_root base
    → (tx' : Kvtx) × (tx_get fuel db tx key
        ≡ some (tx', if has tx.del_set key then none else or_else (own key) (base key)))
      × (tx ≡ record tx' { read_set = tx.read_set })
unfolding tx_get
tx_get-Holds fuel db tx own base key ho hb = elim (Bool-cases (has tx.del_set key)) [
  | inl gone ↦ (tx, (rw gone), refl)
  | inr there ↦ elim (Option-cases (own key)) [
    | inl e ↦ (
      record tx { read_set = (set_key tx.read_set key).0 },
      rw (
        there,
        tx_get,
        tree_get_val-HoldsRoot pending_store tx.pending fuel tx.pending_root own key ho,
        e,
        tree_get_val-HoldsRoot kv_store db fuel tx.snapshot_root base key hb,
      ),
      refl,
    )
    | inr (v, e) ↦ (
      record tx { read_set = (set_key tx.read_set key).0 },
      rw (
        there,
        tx_get,
        tree_get_val-HoldsRoot pending_store tx.pending fuel tx.pending_root own key ho,
        e,
      ),
      refl,
    )
  ]
]
