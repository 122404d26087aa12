-- ===== src/Storage/Meta.antt =====
-- storage/disk.go: the meta page, what a commit writes to the file, and opening the file again. `none` is a
-- panic, or in `extendMmap` and `updateFile` a loop without end. An int is the bit pattern of an int64.
pub mod RoundTrip
pub mod Reopen
pub mod Extend
use auroradb.Prelude.{
  ℕ, zero, suc, ◌+◌, ◌-◌, ◌*◌, ◌/◌, ◌%◌, ◌^◌, Bool, true, false, not, ◌||◌, List, [], ◌∷◌, ◌++◌,
  Option, none, some, Bytes, codes, equal, length, take, drop, ltb, leb, ◌==◌, if◌then◌else◌,
}
use auroradb.Prelude.Panic.{◌>>=◌}
use auroradb.Prelude.Words.{word_mod, little_endian, from_little_endian}
use auroradb.Prelude.Int64.{add_int, mul_int, less_int}
use auroradb.Storage.Node.{BNode, page_size}
use auroradb.Storage.Pages.{Kv}

abbrev pub db_sig : Bytes
db_sig = codes "BuildYourOwnDB06"

-- `binary.LittleEndian.Uint64(data[at:at+8])`
unfoldable pub field : Bytes → ℕ → ℕ
field data' at = from_little_endian (take 8 (drop at data'))

unfoldable pub save_meta : Kv → Bytes
save_meta db =
    db_sig
    ++ (little_endian 8 db.root
        ++ (little_endian 8 db.flushed
            ++ (little_endian 8 db.head_page
                ++ (little_endian 8 db.head_seq
                    ++ (little_endian 8 db.tail_page
                        ++ (little_endian 8 db.tail_seq
                            ++ (little_endian 8 db.max_seq ++ little_endian 24 0)))))))

unfoldable pub load_meta : Kv → Bytes → Option Kv
load_meta db data' =
    if ltb (length data') 96
    then none
    else if not (equal (take 16 data') db_sig)
    then none
    else some (record db {
      root = field data' 16;
      flushed = field data' 24;
      head_page = field data' 32;
      head_seq = field data' 40;
      tail_page = field data' 48;
      tail_seq = field data' 56;
      max_seq = field data' 64;
    })

-- `readRoot`: an empty file, or the meta data at its beginning.
unfoldable pub read_root : Kv → ℕ → Option Kv
read_root db file_size =
    if file_size == 0
    then some (record db {
      flushed = 2;
      head_page = 1;
      tail_page = 1;
      head_seq = 0;
      tail_seq = 0;
      max_seq = 0;
    })
    else load_meta db db.file_meta

-- The lengths of the chunks together: `mmap.total`.
unfoldable pub total : List ℕ → ℕ
total [] = 0
total (len ∷ chunks) = (len + total chunks) % word_mod

-- `for db.mmap.total+alloc < size { alloc *= 2 }`, on a number of rounds; `none` if they are used up.
unfoldable pub double_until : ℕ → ℕ → ℕ → ℕ → Option ℕ
double_until zero mmap_total alloc size = none
double_until (suc fuel) mmap_total alloc size =
    let rest = double_until fuel mmap_total (mul_int alloc 2) size in
    if less_int (add_int mmap_total alloc) size then rest else some alloc

-- After 64 rounds `alloc` is 0 and stays 0, so that a loop that goes on after 65 rounds has no end.
unfoldable pub chunk_length : ℕ → ℕ → Option ℕ
chunk_length mmap_total size =
    double_until 65 mmap_total (if less_int mmap_total (2 ^ 26) then 2 ^ 26 else mmap_total) size

-- The part of `extendMmap` that maps a chunk.
unfoldable pub map_chunk : Kv → ℕ → Bool → Option (Kv × Bool)
map_chunk db size fails = do
  len ← chunk_length (total db.chunks) size
  (if fails then some (db, false) else some (record db { chunks = db.chunks ++ len ∷ [] }, true))

-- `extendMmap`; `fails` is whether the system refuses the mapping. `false` is the error.
unfoldable pub extend_mmap : Kv → ℕ → Bool → Option (Kv × Bool)
extend_mmap db size fails =
    if less_int (total db.chunks) size then map_chunk db size fails else some (db, true)

-- What the system does during `updateFile`: whether each call fails, and, where a write of a page fails,
-- which pages were written before it.
pub record Faults : Type 0 where
  pub map_fails : Bool
  pub write_fails : Bool
  pub written : ℕ → Bool
  pub sync_fails : Bool
  pub meta_fails : Bool
  pub meta_sync_fails : Bool

abbrev pub no_faults : Faults
no_faults = record {
  map_fails = false;
  write_fails = false;
  written = λ ptr. true;
  sync_fails = false;
  meta_fails = false;
  meta_sync_fails = false;
}

-- `int64(ptr * PAGE_SIZE)`, the place of a page in the file.
abbrev pub offset : ℕ → ℕ
offset ptr = ptr * page_size % word_mod

-- The loop over `page.updates`: each page goes to its offset in the file. The system refuses a negative offset. Pages
-- from 2^52 on, whose offsets wrap, are not waited for: no file is as long.
unfoldable pub write_pages : Kv → (ℕ → Bool) → ℕ → BNode
write_pages db written ptr =
    if less_int (offset ptr) 0 || leb (2 ^ 52) ptr then db.file ptr else elim (db.updates ptr) [
      | none ↦ db.file ptr
      | some page ↦ if written ptr then page else db.file ptr
    ]

-- The end of `updateFile`.
unfoldable pub settle : Kv → Kv
settle db = record db {
  flushed = (db.flushed + db.nappend) % word_mod;
  nappend = 0;
  updates = λ ptr. none;
  max_seq = db.tail_seq;
}

-- The calls behind the writes of the pages. The meta data is that of the store before it is settled.
unfoldable pub write_meta : Kv → Faults → Kv × Bool
write_meta db faults =
    if faults.sync_fails
    then (db, false)
    else if faults.meta_fails
    then (db, false)
    else (let db1 = record db { file_meta = save_meta db } in
        if faults.meta_sync_fails then (db1, false) else (settle db1, true))

unfoldable pub write_file : Kv → Faults → Kv × Bool
write_file db faults =
    if faults.write_fails
    then (record db { file = write_pages db faults.written }, false)
    else write_meta (record db { file = write_pages db (λ ptr. true) }) faults

-- `updateFile`; `false` is the error.
unfoldable pub update_file : Kv → Faults → Option (Kv × Bool)
update_file db faults = do
  (db1, mapped) ←
      extend_mmap db (mul_int ((db.flushed + db.nappend) % word_mod) page_size) faults.map_fails
  some (if mapped then write_file db1 faults else (db1, false))

-- `Abort`, given the meta data that `Begin` saved.
unfoldable pub abort : Kv → Bytes → Option Kv
abort db meta' = do
  db1 ← load_meta db meta'
  some (record db1 { nappend = 0; updates = λ ptr. none })
