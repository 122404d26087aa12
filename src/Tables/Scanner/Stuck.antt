-- ===== src/Tables/Scanner/Stuck.antt =====
-- db/db.go: the loop of NewScanner past a bound that is left out.
use auroradb.Prelude.{
  ℕ, zero, suc, ◌+◌, ◌%◌, ◌<◌, ◌≡◌, ◌≢◌, refl, inl, inr, Bool, true, false, Bool-cases, not, ◌&&◌,
  [], ◌∷◌, some, Bytes, ltb, ◌==◌, arith,
}
use auroradb.Prelude.Outcome.{runs_on}
use auroradb.Storage.Node.{nkeys, get_key, get_val, u16_mod}
use auroradb.Storage.Pages.{Kv}
use auroradb.Storage.Tree.Iterator.{
  BIter, Level, is_last, last_node, start_node, iter_next, moved, next, deref, deref_at,
}
use auroradb.Storage.Transaction.{Kvtx, kv_store}
use auroradb.Tables.Scanner.{Scanner, not_behind, scanner_next, bound_round, pass_bound}

-- An iterator at the last entry of a tree of one leaf.
pub record AtEnd (it : BIter) (lv : Level) (key val : Bytes) : Type 0 where
  pub n : ℕ
  pub path : it.path ≡ lv ∷ []
  pub count : nkeys lv.page ≡ some n
  pub last : suc lv.pos ≡ n
  pub small : lv.pos < u16_mod
  pub key_read : get_key lv.page lv.pos ≡ some key
  pub val_read : get_val lv.page lv.pos ≡ some val

-- Its next position is the same one; `Next` only changes whether the iterator is valid.
next-AtEnd :
    (db : Kv) (it : BIter) (lv : Level) (key val : Bytes)
    → AtEnd it lv key val
    → (valid : Bool) × (next kv_store db it ≡ some (record { path = lv ∷ []; valid = valid }))
unfolding next last_node is_last start_node iter_next moved
next-AtEnd db it lv key val e =
    let last : lv.pos + 1 == e.n ≡ true = (let h = e.last in ground arith) in
    let more : ltb (lv.pos + 1) e.n ≡ false = (let h = e.last in ground arith) in
    elim (Bool-cases it.valid) [
      | inl v ↦ (false, rw (e.path, v, e.count, last) refl)
      | inr v ↦ elim (Bool-cases (lv.pos == 0)) [
        | inl first ↦ (true, rw (e.path, v, e.count, last, first) refl)
        | inr other ↦ (false, rw (e.path, v, e.count, last, other, more) refl)
      ]
    ]

deref-AtEnd :
    (root : ℕ) (it : BIter) (lv : Level) (key val : Bytes)
    → root ≢ 0
    → AtEnd it lv key val
    → deref root it ≡ some (key, val)
unfolding deref deref_at
deref-AtEnd root it lv key val nz e =
    let there : root == 0 ≡ false = ground arith in
    let at : lv.pos % u16_mod ≡ lv.pos = (let h = e.small in omega arith) in
    rw (there, e.path, at, e.key_read, e.val_read) refl

-- A round at the end goes on, and leaves the scanner at the end.
bound_round-AtEnd :
    (fuel : ℕ) (db : Kv) (tx : Kvtx) (sc : Scanner) (lv : Level) (key val : Bytes)
    → tx.snapshot_root ≢ 0
    → AtEnd sc.iter lv key val
    → not_behind key sc.key1 && not sc.include1 ≡ true
    → (it : BIter) × (bound_round fuel db tx sc ≡ some (true, record sc { iter = it }))
      × AtEnd it lv key val
unfolding bound_round scanner_next
bound_round-AtEnd fuel db tx sc lv key val nz e h =
    let (valid, n) = next-AtEnd db sc.iter lv key val e in
    (
      record { path = lv ∷ []; valid = valid },
      rw (deref-AtEnd tx.snapshot_root sc.iter lv key val nz e, h, n) refl,
      record {
        n = e.n;
        path = refl;
        count = e.count;
        last = e.last;
        small = e.small;
        key_read = e.key_read;
        val_read = e.val_read;
      },
    )

-- Where the scanner stands at the last entry of a tree of one leaf, and the lower bound is left out and not before that
-- entry's key, the loop of `NewScanner` has no end and does not panic: whatever number of rounds is allowed, all are
-- used up.
pub pass_bound_stuck :
    (fuel : ℕ) (db : Kv) (tx : Kvtx) (rounds : ℕ) (sc : Scanner) (lv : Level) (key val : Bytes)
    → tx.snapshot_root ≢ 0
    → AtEnd sc.iter lv key val
    → sc.include1 ≡ false
    → not_behind key sc.key1 ≡ true
    → pass_bound fuel db tx rounds sc ≡ runs_on
unfolding pass_bound
pass_bound_stuck fuel db tx zero sc lv key val nz e out le = refl
pass_bound_stuck fuel db tx (suc rounds) sc lv key val nz e out le =
    let both : not_behind key sc.key1 && not sc.include1 ≡ true = ground arith in
    let (it, round, e1) = bound_round-AtEnd fuel db tx sc lv key val nz e both in
    rw (pass_bound, round)
      (pass_bound_stuck fuel db tx rounds (record sc { iter = it }) lv key val nz e1 out le)
