-- ===== src/Examples/Pages.antt =====
-- A new store.
use auroradb.Prelude.{
  ◌≡◌, ◌<◌, ◌+◌, ◌^◌, ◌%◌, refl, [], none, some, true, arith, ◌==◌, if◌then◌else◌,
}
use auroradb.Prelude.Words.{word_mod}
use auroradb.Storage.Node.{make}
use auroradb.Storage.Pages.{Kv, page_append, free_push_tail, free_pop_head, page_read}
use auroradb.Storage.Pages.Fresh.{free_pop_head-free_push_tail, page_read-page_append}
use auroradb.Storage.Meta.{save_meta, read_root, abort, update_file, no_faults, total}
use auroradb.Storage.Meta.RoundTrip.{IsWords, with_meta, abort-save_meta}
use auroradb.Storage.Meta.Reopen.{restart, page_append-reopen}

-- A store on an empty file, whose free list was emptied.
abbrev pub store : Kv
store = record {
  root = 0;
  flushed = 2;
  nappend = 0;
  updates = λ ptr. none;
  head_page = 0;
  head_seq = 0;
  tail_page = 0;
  tail_seq = 0;
  max_seq = 0;
  chunks = [];
  file = λ ptr. make 4096;
  file_meta = [];
}

pub store-IsWords : IsWords store
store-IsWords = omega arith

page_read-page_append_example :
    page_read (page_append store (make 8)).0 2
    ≡ (if 2 == (page_append store (make 8)).1 then some (make 8) else page_read store 2)
page_read-page_append_example = page_read-page_append store (make 8) 2

free_pop_head-free_push_tail_example :
    (db1 : Kv) × (db2 : Kv) × (free_push_tail store 5 ≡ some db1)
    × (free_pop_head db1 ≡ some (db2, 5, 0))
    × (db1.max_seq ≡ 0)
free_pop_head-free_push_tail_example = free_pop_head-free_push_tail store 5 refl (omega arith)

abort-save_meta_example :
    abort (page_append store (make 8)).0 (save_meta store)
    ≡ some (record (with_meta (page_append store (make 8)).0 store) {
      nappend = 0;
      updates = λ ptr. none;
    })
abort-save_meta_example = abort-save_meta store (page_append store (make 8)).0 store-IsWords

no_chunks : total store.chunks < 2 ^ 63
unfolding total
no_chunks = omega arith

page_append-reopen_example :
    (db2 : Kv) × (db3 : Kv) × (update_file (page_append store (make 8)).0 no_faults
      ≡ some (db2, true))
    × (read_root (restart db2) 12288 ≡ some db3)
    × (db2.file (page_append store (make 8)).1 ≡ make 8)
    × ((page_append db3 (make 9)).1 ≡ (page_append store (make 8)).1)
    × (db2.flushed ≡ (2 + 1) % word_mod)
page_append-reopen_example =
    page_append-reopen store (make 8) (make 9) 12288 store-IsWords refl (omega arith) no_chunks
      (omega arith)
