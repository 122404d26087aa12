-- ===== src/Storage/Tree/Iterator.antt =====
-- storage/btree.go: iterators. Their positions are never negative, since `iterPrev` stops at 0, so that a position
-- is a natural number.
use auroradb.Prelude.{
  ℕ, zero, suc, ◌+◌, ◌-◌, ◌%◌, Bool, true, false, ◌&&◌, not, List, [], ◌∷◌, Option, none, some,
  Bytes, ltb, ◌==◌, if◌then◌else◌,
}
use auroradb.Prelude.Panic.{◌>>=◌}
use auroradb.Storage.Node.{u16_mod, BNode, nkeys, getptr, get_key, get_val, node_lookup_le}
use auroradb.Storage.Tree.{Store}

-- A node of the path and the position in it.
pub record Level : Type 0 where
  pub page : BNode
  pub pos : ℕ

-- The path from the leaf up to the root, and whether the iterator stands at an entry.
pub record BIter : Type 0 where
  pub path : List Level
  pub valid : Bool

unfoldable pub is_last : Level → Option Bool
is_last lv = do n ← nkeys lv.page; some (lv.pos + 1 == n)

-- `LastNode` and `StartNode`
unfoldable pub last_node : List Level → Option Bool
last_node [] = some true
last_node (lv ∷ above) = do here ← is_last lv; (if here then last_node above else some false)

unfoldable pub start_node : List Level → Bool
start_node [] = true
start_node (lv ∷ above) = (lv.pos == 0) && start_node above

module _ {S : Type 0} (tree : Store S) (st : S) where
  -- The loop of `SeekLE`, on fuel: the levels below those that are there.
  unfoldable pub seek_loop : ℕ → ℕ → Bytes → List Level → Option (List Level)
  seek_loop zero ptr key path = none
  seek_loop (suc fuel) ptr key path = elim (ptr == 0) [
    | true ↦ some path
    | false ↦ (do
      b ← tree.get st ptr
      idx ← node_lookup_le b key
      next ← getptr b idx
      seek_loop fuel next key (record { page = b; pos = idx } ∷ path))
  ]

  unfoldable pub seek_le : ℕ → ℕ → Bytes → Option BIter
  seek_le fuel root key = do
    path ← seek_loop fuel root key []
    some (record { path = path; valid = true })

  -- The child at the position of a level.
  unfoldable pub child_of : Level → Option BNode
  child_of lv = do ptr ← getptr lv.page (lv.pos % u16_mod); tree.get st ptr

  -- The level below the first one of the path, at the first or the last entry of its node.
  unfoldable pub first_below : List Level → Option Level
  first_below [] = none
  first_below (lv ∷ above) = do b ← child_of lv; some (record { page = b; pos = 0 })

  unfoldable pub last_below : List Level → Option Level
  last_below [] = none
  last_below (lv ∷ above) = do
    b ← child_of lv
    n ← nkeys b
    some (record { page = b; pos = (n + u16_mod - 1) % u16_mod })

  -- `iterNext` at the first level of the list, with whether it gets to its end, where the level below takes the
  -- child at the new position, and whether the iterator stays valid. Only at the root it returns before.
  unfoldable pub iter_next : List Level → Option (List Level × Bool × Bool)
  iter_next [] = none
  iter_next (lv ∷ []) = do
    n ← nkeys lv.page
    (if ltb (lv.pos + 1) n
        then some (record lv { pos = lv.pos + 1 } ∷ [], true, true)
        else some (lv ∷ [], false, false))
  iter_next (lv ∷ up ∷ above) =
      let carried = iter_next (up ∷ above) in
      do
        n ← nkeys lv.page
        (if ltb (lv.pos + 1) n
            then some (record lv { pos = lv.pos + 1 } ∷ up ∷ above, true, true)
            else (do
              (levels, at_end, valid) ← carried
              below ← (if at_end then first_below levels else some lv)
              some (below ∷ levels, true, valid)))

  unfoldable pub iter_prev : List Level → Option (List Level × Bool × Bool)
  iter_prev [] = none
  iter_prev (lv ∷ []) =
      if ltb 0 lv.pos
      then some (record lv { pos = lv.pos - 1 } ∷ [], true, true)
      else some (lv ∷ [], false, false)
  iter_prev (lv ∷ up ∷ above) =
      let carried = iter_prev (up ∷ above) in
      if ltb 0 lv.pos then some (record lv { pos = lv.pos - 1 } ∷ up ∷ above, true, true) else (do
        (levels, at_end, valid) ← carried
        below ← (if at_end then last_below levels else some lv)
        some (below ∷ levels, true, valid))

  -- The call of `iterNext` or `iterPrev` that `Next` and `Prev` make.
  unfoldable pub moved : BIter → Option (List Level × Bool × Bool) → Option BIter
  moved it m = do
    (levels, at_end, valid) ← m
    some (record { path = levels; valid = it.valid && valid })

  unfoldable pub next : BIter → Option BIter
  next it = do
    last ← last_node it.path
    (if last && it.valid
        then some (record it { valid = false })
        else if start_node it.path && not it.valid
        then some (record it { valid = true })
        else moved it (iter_next it.path))

  -- `Prev` where the iterator is not at the first entry of a valid path.
  unfoldable pub prev_inside : BIter → Option BIter
  prev_inside it = do
    last ← last_node it.path
    (if last && not it.valid
        then some (record it { valid = true })
        else moved it (iter_prev it.path))

  unfoldable pub prev : BIter → Option BIter
  prev it =
      if start_node it.path && it.valid then some (record it { valid = false }) else prev_inside it

-- `Deref`: no key and no value in an empty tree.
unfoldable pub deref_at : List Level → Option (Bytes × Bytes)
deref_at [] = some ([], [])
deref_at (lv ∷ above) = do
  key ← get_key lv.page (lv.pos % u16_mod)
  val ← get_val lv.page (lv.pos % u16_mod)
  some (key, val)

unfoldable pub deref : ℕ → BIter → Option (Bytes × Bytes)
deref root it = if root == 0 then some ([], []) else deref_at it.path

unfoldable pub valid_at : List Level → Option Bool
valid_at [] = none
valid_at (lv ∷ above) = do
  n ← nkeys lv.page
  some (not (ltb ((n + u16_mod - 1) % u16_mod) (lv.pos % u16_mod)))

-- `Valid`
unfoldable pub is_valid : ℕ → BIter → Option Bool
is_valid root it =
    if not it.valid then some false else if root == 0 then some false else valid_at it.path
