-- ===== src/Storage/Meta/RoundTrip.antt =====
-- storage/disk.go: the meta page is read back, and an aborted transaction leaves nothing behind.
use auroradb.Prelude.{◌<◌, ◌≡◌, none, some}
use auroradb.Prelude.Tests.{equal}
use auroradb.Prelude.Words.{word_mod, little_endian, from_little_endian-little_endian}
use auroradb.Storage.Pages.{Kv}
use auroradb.Storage.Meta.{field, save_meta, load_meta, abort}

-- The numbers of the meta page are 64-bit words.
pub record IsWords (db : Kv) : Type 0 where
  pub root : db.root < word_mod
  pub flushed : db.flushed < word_mod
  pub head_page : db.head_page < word_mod
  pub head_seq : db.head_seq < word_mod
  pub tail_page : db.tail_page < word_mod
  pub tail_seq : db.tail_seq < word_mod
  pub max_seq : db.max_seq < word_mod

-- `db` with the root, the page count and the free list of `src`.
abbrev pub with_meta : Kv → Kv → Kv
with_meta db src = record db {
  root = src.root;
  flushed = src.flushed;
  head_page = src.head_page;
  head_seq = src.head_seq;
  tail_page = src.tail_page;
  tail_seq = src.tail_seq;
  max_seq = src.max_seq;
}

-- Loading the meta data that a store saved gives its root, its page count and its free list.
pub load_meta-save_meta :
    (db src : Kv) → IsWords src → load_meta db (save_meta src) ≡ some (with_meta db src)
unfolding load_meta save_meta field little_endian equal
load_meta-save_meta db src w = λ i. some (record db {
  root = from_little_endian-little_endian 8 src.root w.root i;
  flushed = from_little_endian-little_endian 8 src.flushed w.flushed i;
  head_page = from_little_endian-little_endian 8 src.head_page w.head_page i;
  head_seq = from_little_endian-little_endian 8 src.head_seq w.head_seq i;
  tail_page = from_little_endian-little_endian 8 src.tail_page w.tail_page i;
  tail_seq = from_little_endian-little_endian 8 src.tail_seq w.tail_seq i;
  max_seq = from_little_endian-little_endian 8 src.max_seq w.max_seq i;
})

-- Whatever a transaction did since the meta data was saved, aborting it restores the root, the page count and
-- the free list, and drops all appended and rewritten pages. The file and its mapping stay.
pub abort-save_meta :
    (begun now : Kv)
    → IsWords begun
    → abort now (save_meta begun)
      ≡ some (record (with_meta now begun) { nappend = 0; updates = λ ptr. none })
unfolding abort
abort-save_meta begun now w = rw (load_meta-save_meta now begun w)
