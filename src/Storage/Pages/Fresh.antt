-- ===== src/Storage/Pages/Fresh.antt =====
-- storage/disk.go: reading what was appended, and taking back what was freed.
use auroradb.Prelude.{
  ℕ, ◌+◌, ◌%◌, ◌^◌, ◌<◌, ◌≡◌, refl, false, Option, some, ◌==◌, ltb, if◌then◌else◌, arith,
}
use auroradb.Prelude.Words.{word_mod, little_endian}
use auroradb.Storage.Node.{BNode, make, put, page_size, write64}
use auroradb.Storage.Node.Memory.{read64-put_self}
use auroradb.Storage.Pages.{
  Kv, update, page_read, page_append, put_page, free_pop_head, free_push_tail, push_first,
  pop_advance,
}

-- An appended page is read back under its pointer, and every other pointer reads what it read before.
pub page_read-page_append :
    (db : Kv) (node : BNode) (q : ℕ)
    → page_read (page_append db node).0 q
      ≡ (if q == (page_append db node).1 then some node else page_read db q)
unfolding page_read page_append update
page_read-page_append db node q = ground arith

first_test : (n : ℕ) → ltb n 0 ≡ false
first_test n = ground arith

-- The store after a page is freed into an empty list: a new list page holds its pointer.
abbrev first_page : Kv → ℕ → Kv
first_page db ptr =
    let at = (db.flushed + db.nappend) % word_mod in
    record db {
      nappend = (db.nappend + 1) % word_mod;
      updates =
          update (update db.updates at (make page_size)) at
            (put (make page_size) 8 (little_endian 8 ptr));
      head_page = at;
      tail_page = at;
      tail_seq = 1;
      head_seq = 0;
    }

push_empty :
    (db : Kv) (ptr : ℕ) → db.tail_page ≡ 0 → free_push_tail db ptr ≡ some (first_page db ptr)
unfolding free_push_tail push_first page_append put_page write64
push_empty db ptr h = rw h

update_self : (m : ℕ → Option BNode) (at : ℕ) (page : BNode) → update m at page at ≡ some page
unfolding update
update_self m at page = ground arith

page_read_updates :
    (db : Kv) (ptr : ℕ) {node : BNode} → db.updates ptr ≡ some node → page_read db ptr ≡ some node
unfolding page_read
page_read_updates db ptr e = rw (e, page_read)

pop_first :
    (db : Kv) (ptr : ℕ)
    → ptr < 2 ^ 64
    → free_pop_head (first_page db ptr) ≡ some (record (first_page db ptr) { head_seq = 1 }, ptr, 0)
unfolding free_pop_head pop_advance
pop_first db ptr lt = rw (
  first_test db.max_seq,
  page_read_updates (first_page db ptr) (first_page db ptr).head_page (
      update_self (update db.updates (first_page db ptr).head_page (make page_size))
        (first_page db ptr).head_page (put (make page_size) 8 (little_endian 8 ptr))),
  read64-put_self (make page_size) 8 ptr (omega arith) lt,
)

-- A page that is freed while the free list is empty is what the next pop takes, whatever `maxSeq` is: the
-- transaction that freed it can get it back before it has committed.
pub free_pop_head-free_push_tail :
    (db : Kv) (ptr : ℕ)
    → db.tail_page ≡ 0
    → ptr < 2 ^ 64
    → (db1 : Kv) × (db2 : Kv) × (free_push_tail db ptr ≡ some db1)
      × (free_pop_head db1 ≡ some (db2, ptr, 0))
      × (db1.max_seq ≡ db.max_seq)
free_pop_head-free_push_tail db ptr h lt = (
  first_page db ptr,
  record (first_page db ptr) { head_seq = 1 },
  push_empty db ptr h,
  pop_first db ptr lt,
  refl,
)
