-- ===== src/Storage/Pages.antt =====
-- storage/disk.go: the pages of a KV store, and its list of free pages. `none` is a panic.
pub mod Fresh
use auroradb.Prelude.{
  ℕ, zero, suc, ◌+◌, ◌-◌, ◌*◌, ◌/◌, ◌%◌, true, false, List, [], ◌∷◌, Option, none, some, Bytes, ltb,
  ◌==◌, if◌then◌else◌,
}
use auroradb.Prelude.Panic.{◌>>=◌}
use auroradb.Prelude.Words.{word_mod}
use auroradb.Storage.Node.{BNode, make, page_size, read64, write64}

-- `KV`: the root of the tree, `page`, `free`, the lengths of the mapped chunks, and the file: its pages, and
-- apart from them the meta data at its very beginning. A page in `updates` is shared with whoever holds it; a write to it is written here
-- as an update of the map.
pub record Kv : Type 0 where
  pub root : ℕ
  pub flushed : ℕ
  pub nappend : ℕ
  pub updates : ℕ → Option BNode
  pub head_page : ℕ
  pub head_seq : ℕ
  pub tail_page : ℕ
  pub tail_seq : ℕ
  pub max_seq : ℕ
  pub chunks : List ℕ
  pub file : ℕ → BNode
  pub file_meta : Bytes

unfoldable pub update : (ℕ → Option BNode) → ℕ → BNode → ℕ → Option BNode
update m ptr page q = if q == ptr then some page else m q

-- The loop over the chunks: whether the page lies in one, the first of which begins at page `start`.
-- Each chunk maps the file from where the one before it ends.
unfoldable pub mapped : ℕ → List ℕ → ℕ → Option ℕ
mapped start [] ptr = none
mapped start (len ∷ chunks) ptr =
    let end = start + len / page_size in if ltb ptr end then some ptr else mapped end chunks ptr

unfoldable pub page_read : Kv → ℕ → Option BNode
page_read db ptr = elim (db.updates ptr) [
  | some node ↦ some node
  | none ↦ (do q ← mapped 0 db.chunks ptr; some (db.file q))
]

unfoldable pub page_append : Kv → BNode → Kv × ℕ
page_append db node =
    let ptr = (db.flushed + db.nappend) % word_mod in
    (record db { nappend = (db.nappend + 1) % word_mod; updates = update db.updates ptr node }, ptr)

-- `copy(newNode, page)` into a new page.
unfoldable pub copy_page : BNode → BNode
copy_page page = record { size = page_size; at = λ i. if ltb i page.size then page.at i else 0 }

-- The page as it is in `updates` afterwards.
unfoldable pub page_write : Kv → ℕ → Option (Kv × BNode)
page_write db ptr = elim (db.updates ptr) [
  | some node ↦ some (db, node)
  | none ↦ (do
    page ← page_read db ptr
    some (record db { updates = update db.updates ptr (copy_page page) }, copy_page page))
]

-- A write of a number into a page that `updates` holds.
unfoldable pub put_page : Kv → ℕ → BNode → ℕ → ℕ → Option Kv
put_page db ptr node pos v = do
  node' ← write64 node pos v
  some (record db { updates = update db.updates ptr node' })

-- `uint64((PAGE_SIZE - 8) / 8)`
abbrev pub list_cap : ℕ
list_cap = (page_size - 8) / 8

-- The last part of `freePopHead`, behind the read of the pointer.
unfoldable pub pop_advance : Kv → BNode → ℕ → Option (Kv × ℕ × ℕ)
pop_advance db node ptr =
    let seq = (db.head_seq + 1) % word_mod in
    if seq % list_cap == 0
    then (do
      next ← read64 node 0
      some (record db { head_seq = seq; head_page = next }, ptr, db.head_page))
    else some (record db { head_seq = seq }, ptr, 0)

unfoldable pub free_pop_head : Kv → Option (Kv × ℕ × ℕ)
free_pop_head db =
    if ltb db.max_seq db.head_seq
    then some (db, 0, 0)
    else if db.head_seq == db.tail_seq
    then some
        (record db { head_page = 0; tail_page = 0; tail_seq = 0; head_seq = 0 }, db.head_page, 0)
    else (do
      node ← page_read db db.head_page
      ptr ← read64 node (8 + db.head_seq % list_cap * 8)
      pop_advance db node ptr)

-- The first branch of `freePushTail`: the list has no node yet.
unfoldable pub push_first : Kv → ℕ → Option Kv
push_first db ptr =
    let (db1, newptr) = page_append db (make page_size) in
    do
      db2 ← put_page db1 newptr (make page_size) 8 ptr
      some (record db2 { head_page = newptr; tail_page = newptr; tail_seq = 1; head_seq = 0 })

-- `if next == 0 { next = db.pageAppend(make([]byte, PAGE_SIZE)) }`
unfoldable pub or_append : Kv → ℕ → Kv × ℕ
or_append db next = if next == 0 then page_append db (make page_size) else (db, next)

-- `if head != 0 { … }`: the freed head goes into the new tail.
unfoldable pub push_head : Kv → ℕ → Option Kv
push_head db head = if head == 0 then some db else (do
  (db1, node) ← page_write db db.tail_page
  db2 ← put_page db1 db.tail_page node 8 head
  some (record db2 { tail_seq = (db2.tail_seq + 1) % word_mod }))

-- The tail node is full: another one is linked behind it.
unfoldable pub push_link : Kv → Option Kv
push_link db = do
  (db1, next, head) ← free_pop_head db
  let (db2, link) = or_append db1 next
  (db3, node) ← page_write db2 db2.tail_page
  db4 ← put_page db3 db3.tail_page node 0 link
  push_head (record db4 { tail_page = link }) head

unfoldable pub push_behind : Kv → ℕ → Option Kv
push_behind db ptr = do
  (db1, node) ← page_write db db.tail_page
  db2 ← put_page db1 db1.tail_page node (8 + db1.tail_seq % list_cap * 8) ptr
  let db3 = record db2 { tail_seq = (db2.tail_seq + 1) % word_mod }
  (if db3.tail_seq % list_cap == 0 then push_link db3 else some db3)

unfoldable pub free_push_tail : Kv → ℕ → Option Kv
free_push_tail db ptr = if db.tail_page == 0 then push_first db ptr else push_behind db ptr

-- `if head != 0 { db.freePushTail(head) }`
unfoldable pub recycle : Kv → ℕ → Option Kv
recycle db head = if head == 0 then some db else free_push_tail db head

unfoldable pub page_alloc : Kv → BNode → Option (Kv × ℕ)
page_alloc db node = do
  (db1, ptr, head) ← free_pop_head db
  db2 ← recycle db1 head
  (if ptr == 0
      then some (page_append db2 node)
      else some (record db2 { updates = update db2.updates ptr node }, ptr))
