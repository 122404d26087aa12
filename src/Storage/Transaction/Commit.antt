-- ===== src/Storage/Transaction/Commit.antt =====
-- storage/disk.go: commits that fail, and a commit that panics.
use auroradb.Prelude.{
  ℕ, ◌≡◌, refl, ap, ◌∙◌, true, false, Bool-cases, inl, inr, List, [], ◌∷◌, none, some, Bytes,
  equal_refl, arith,
}
use auroradb.Prelude.Panic.{>>=-eq-some}
use auroradb.Util.{set_key, with_key}
use auroradb.Storage.Pages.{Kv}
use auroradb.Storage.Meta.{Faults, abort, update_file}
use auroradb.Storage.Meta.RoundTrip.{IsWords, with_meta, abort-save_meta}
use auroradb.Storage.Tree.{delete}
use auroradb.Storage.Transaction.{
  Kvtx, begin, new_kvtx, tx_del, kv_del, commit, commit_writes, commit_deletes,
}

-- If a commit returns an error, whatever it wrote to the tree and whichever call of the system failed, the store has the
-- root, the page count and the free list with which the transaction began, and no page waits to be written.
pub commit-begin :
    (fuel : ℕ) (begun db : Kv) (tx tx' : Kvtx) (writes deletes : List Bytes) (faults : Faults)
    {db' : Kv}
    → IsWords begun
    → tx'.meta' ≡ (begin begun tx).meta'
    → commit fuel db tx' writes deletes faults ≡ some (db', false)
    → (now : Kv) × (db' ≡ record (with_meta now begun) { nappend = 0; updates = λ ptr. none })
unfolding commit begin
commit-begin fuel begun db tx tx' writes deletes faults w m e =
    let (db1, e1, r1) = >>=-eq-some (commit_writes fuel db tx' writes) _ e in
    let (db2, e2, r2) = >>=-eq-some (commit_deletes fuel db1 deletes) _ r1 in
    let ((db3, done), e3, r3) = >>=-eq-some (update_file db2 faults) _ r2 in
    elim (Bool-cases done) [
      | inl ended ↦ absurd (ground (arith, ended, r3))
      | inr failed ↦
          let restored = ap (abort db3) m ∙ abort-save_meta begun db3 w in
          (db3, ground (arith, failed, restored, r3))
    ]

-- A transaction on an empty store deletes any key with success, and its commit panics.
pub commit-tx_del :
    (fuel : ℕ) (db : Kv) (key : Bytes) (faults : Faults)
    → db.root ≡ 0
    → (tx : Kvtx) × (tx_del fuel (begin db new_kvtx) key ≡ some (tx, true))
      × (tx.deletes key ≡ true)
      × (commit fuel db tx [] (key ∷ []) faults ≡ none)
unfolding tx_del begin with_key commit commit_writes commit_deletes kv_del delete
commit-tx_del fuel db key faults z =
    let tx0 = begin db new_kvtx in
    (
      record tx0 { del_set = (set_key tx0.del_set key).0; deletes = with_key tx0.deletes key true },
      refl,
      rw (equal_refl key),
      rw z,
    )
