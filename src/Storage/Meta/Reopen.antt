-- ===== src/Storage/Meta/Reopen.antt =====
-- storage/disk.go: what a committed store is when its file is opened again.
use auroradb.Prelude.{
  ℕ, ◌+◌, ◌%◌, ◌^◌, ◌<◌, ◌≤◌, ◌≡◌, ◌≢◌, refl, ◌∙◌, ap, true, List, [], ◌*◌, none, some, arith,
}
use auroradb.Prelude.Words.{word_mod}
use auroradb.Storage.Node.{BNode, page_size}
use auroradb.Storage.Pages.{Kv, page_append, update}
use auroradb.Storage.Meta.{
  save_meta, load_meta, read_root, no_faults, write_pages, write_file, write_meta, settle,
  update_file, total,
}
use auroradb.Prelude.Int64.{mul_int, less_int}
use auroradb.Storage.Meta.Extend.{extend_mmap_chunks}
use auroradb.Storage.Meta.RoundTrip.{IsWords, with_meta, load_meta-save_meta}

-- A store that another process opens on the same file, before it reads the meta data.
abbrev pub restart : Kv → Kv
restart db = record {
  root = 0;
  flushed = 0;
  nappend = 0;
  updates = λ ptr. none;
  head_page = 0;
  head_seq = 0;
  tail_page = 0;
  tail_seq = 0;
  max_seq = 0;
  chunks = [];
  file = db.file;
  file_meta = db.file_meta;
}

reread :
    (db src : Kv) (file_size : ℕ)
    → IsWords src
    → file_size ≢ 0
    → db.file_meta ≡ save_meta src
    → read_root db file_size ≡ some (with_meta db src)
unfolding read_root
reread db src file_size w nz e = ground (arith, ap (load_meta db) e ∙ load_meta-save_meta db src w)

words : (db : Kv) (page : BNode) → IsWords db → IsWords (page_append db page).0
unfolding page_append
words db page w = record {
  root = w.root;
  flushed = w.flushed;
  head_page = w.head_page;
  head_seq = w.head_seq;
  tail_page = w.tail_page;
  tail_seq = w.tail_seq;
  max_seq = w.max_seq;
}

-- What `updateFile` leaves when the system refuses nothing, with the chunks that it maps.
abbrev committed : Kv → List ℕ → Kv
committed db chunks = record db {
  flushed = (db.flushed + db.nappend) % word_mod;
  nappend = 0;
  updates = λ ptr. none;
  max_seq = db.tail_seq;
  chunks = chunks;
  file = write_pages db (λ ptr. true);
  file_meta = save_meta db;
}

pub update_file_lem :
    (db : Kv)
    → total db.chunks < 2 ^ 63
    → (db.flushed + db.nappend) * page_size ≤ 2 ^ 62
    → (chunks : List ℕ) × (update_file db no_faults ≡ some (committed db chunks, true))
unfolding update_file write_file write_meta settle save_meta write_pages mul_int
update_file_lem db whole small =
    let size : (db.flushed + db.nappend) % word_mod * page_size % word_mod
        ≡ (db.flushed + db.nappend) * page_size =
      omega arith in
    let (chunks, e) = extend_mmap_chunks db ((db.flushed + db.nappend) * page_size) whole small in
    (chunks, rw (size, e) refl)

committed_page :
    (db : Kv) (page : BNode)
    → (db.flushed + db.nappend) * page_size ≤ 2 ^ 62
    → write_pages (page_append db page).0 (λ ptr. true) (page_append db page).1 ≡ page
unfolding write_pages page_append update less_int
committed_page db page small = ground arith

next_pointer :
    (src db : Kv) (page other : BNode)
    → db.nappend ≡ 0
    → (page_append (with_meta (restart src) (page_append db page).0) other).1
      ≡ (page_append db page).1
unfolding page_append
next_pointer src db page other h = rw h

appended :
    (db : Kv) (page : BNode)
    → db.nappend ≡ 0
    → ((page_append db page).0.chunks ≡ db.chunks)
      × ((page_append db page).0.flushed + (page_append db page).0.nappend ≡ db.flushed + 1)
unfolding page_append
appended db page h = (refl, omega arith)

next_flushed :
    (db : Kv) (page : BNode)
    → db.nappend ≡ 0
    → ((page_append db page).0.flushed + (page_append db page).0.nappend) % word_mod
      ≡ (db.flushed + 1) % word_mod
unfolding page_append
next_flushed db page h = omega arith

-- A store of at most 2^62 bytes that appends a page, commits it with no fault of the system, and is opened again from
-- its file hands out the pointer of that page once more: the next page appended overwrites the committed one. The
-- running store goes on behind it. What is mapped before is below 2^63 bytes.
pub page_append-reopen :
    (db : Kv) (page other : BNode) (file_size : ℕ)
    → IsWords db
    → db.nappend ≡ 0
    → file_size ≢ 0
    → total db.chunks < 2 ^ 63
    → (db.flushed + 1) * page_size ≤ 2 ^ 62
    → (db2 : Kv) × (db3 : Kv) × (update_file (page_append db page).0 no_faults ≡ some (db2, true))
      × (read_root (restart db2) file_size ≡ some db3)
      × (db2.file (page_append db page).1 ≡ page)
      × ((page_append db3 other).1 ≡ (page_append db page).1)
      × (db2.flushed ≡ (db.flushed + 1) % word_mod)
page_append-reopen db page other file_size w h nz whole small =
    let db1 = (page_append db page).0 in
    let (kept, sum) = appended db page h in
    let (chunks, e) = update_file_lem db1 (rw kept whole) (rw sum small) in
    (
      committed db1 chunks,
      with_meta (restart (committed db1 chunks)) db1,
      e,
      reread (restart (committed db1 chunks)) db1 file_size (words db page w) nz refl,
      committed_page db page (omega arith),
      next_pointer (committed db1 chunks) db page other h,
      next_flushed db page h,
    )
