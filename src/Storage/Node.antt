-- ===== src/Storage/Node.antt =====
-- storage/btree.go: a node is a byte buffer. Positions are computed in uint16 and wrap. `none` is a
-- panic of a slice expression, or the exit of log.Fatalf.
pub mod Lookup
pub mod Memory
pub mod Writes
pub mod Append
pub mod Agree
pub mod Entries
pub mod Ranges
pub mod Split
use auroradb.Prelude.{
  ℕ, zero, suc, ◌+◌, ◌-◌, ◌*◌, ◌/◌, ◌%◌, ◌≤◌, true, false, [], ◌∷◌, Option, none, some, Bytes,
  Ordering, length, take, ltb, leb, ◌==◌, if◌then◌else◌,
}
use auroradb.Prelude.Panic.{◌>>=◌, ◌>>◌}
use auroradb.Prelude.Compare.{compare_bytes}
use auroradb.Prelude.Words.{little_endian, from_little_endian}

abbrev pub page_size : ℕ
page_size = 4096

abbrev pub header : ℕ
header = 4

abbrev pub kv_header : ℕ
kv_header = 4

abbrev pub bnode_node : ℕ
bnode_node = 1

abbrev pub bnode_leaf : ℕ
bnode_leaf = 2

abbrev pub u16_mod : ℕ
u16_mod = 65536

-- A []byte: its length, and the byte at each place.
pub record BNode : Type 0 where
  pub size : ℕ
  pub at : ℕ → ℕ

-- `make([]byte, size)`
abbrev pub make : ℕ → BNode
make size = record { size = size; at = λ i. 0 }

-- `n` bytes from a place on.
unfoldable pub bytes_from : (ℕ → ℕ) → ℕ → ℕ → Bytes
bytes_from at pos zero = []
bytes_from at pos (suc n) = at pos ∷ bytes_from at (suc pos) n

-- binary.LittleEndian.Uint16 and Uint64 of `b[pos:]`.
unfoldable pub read16 : BNode → ℕ → Option ℕ
read16 b pos =
    if leb (pos + 2) b.size then some (from_little_endian (bytes_from b.at pos 2)) else none

unfoldable pub read64 : BNode → ℕ → Option ℕ
read64 b pos =
    if leb (pos + 8) b.size then some (from_little_endian (bytes_from b.at pos 8)) else none

-- The bytes of `s` over those from a place on.
unfoldable pub overlay : (ℕ → ℕ) → ℕ → Bytes → ℕ → ℕ
overlay at pos [] i = at i
overlay at pos (x ∷ s) i = if i == pos then x else overlay at (suc pos) s i

abbrev pub put : BNode → ℕ → Bytes → BNode
put b pos s = record b { at = overlay b.at pos s }

-- binary.LittleEndian.PutUint16 and PutUint64 into `b[pos:]`.
unfoldable pub write16 : BNode → ℕ → ℕ → Option BNode
write16 b pos v = if leb (pos + 2) b.size then some (put b pos (little_endian 2 v)) else none

unfoldable pub write64 : BNode → ℕ → ℕ → Option BNode
write64 b pos v = if leb (pos + 8) b.size then some (put b pos (little_endian 8 v)) else none

-- `copy(b[pos:], s)`: what does not fit is left out.
unfoldable pub copy : BNode → ℕ → Bytes → Option BNode
copy b pos s = if leb pos b.size then some (put b pos (take (b.size - pos) s)) else none

unfoldable pub btype : BNode → Option ℕ
btype b = read16 b 0

unfoldable pub nkeys : BNode → Option ℕ
nkeys b = read16 b 2

-- `HEADER + (idx * 8)`
unfoldable pub getptr : BNode → ℕ → Option ℕ
getptr b idx = do n ← nkeys b; if leb n idx then none else read64 b ((header + idx * 8) % u16_mod)

-- `idx - 1` wraps at 0.
unfoldable pub offset_pos : BNode → ℕ → Option ℕ
offset_pos b idx = do
  n ← nkeys b
  (if ltb n idx
      then none
      else some ((header + n * 8 + (idx + u16_mod - 1) % u16_mod * 2) % u16_mod))

unfoldable pub get_offset : BNode → ℕ → Option ℕ
get_offset b idx = if idx == 0 then some 0 else (do pos ← offset_pos b idx; read16 b pos)

unfoldable pub kv_pos : BNode → ℕ → Option ℕ
kv_pos b idx = do
  n ← nkeys b
  off ← get_offset b idx
  some ((header + 8 * n + 2 * n + off) % u16_mod)

-- `node[pos:][:n]`
unfoldable pub slice : BNode → ℕ → ℕ → Option Bytes
slice b pos n = if leb (pos + n) b.size then some (bytes_from b.at pos n) else none

unfoldable pub get_key : BNode → ℕ → Option Bytes
get_key b idx = do pos ← kv_pos b idx; klen ← read16 b pos; slice b ((pos + 4) % u16_mod) klen

unfoldable pub get_val : BNode → ℕ → Option Bytes
get_val b idx = do
  pos ← kv_pos b idx
  klen ← read16 b pos
  vlen ← read16 b ((pos + 2) % u16_mod)
  slice b ((pos + 4 + klen) % u16_mod) vlen

unfoldable pub nbytes : BNode → Option ℕ
nbytes b = do n ← nkeys b; kv_pos b n

unfoldable pub set_header : BNode → ℕ → ℕ → Option BNode
set_header b type n = do b1 ← write16 b 0 type; write16 b1 2 n

unfoldable pub setptr : BNode → ℕ → ℕ → Option BNode
setptr b idx ptr = do
  n ← nkeys b
  (if leb n idx then none else write64 b ((header + idx * 8) % u16_mod) ptr)

-- `offsetPos` makes the same test once more.
unfoldable pub set_offset : BNode → ℕ → ℕ → Option BNode
set_offset b idx val = do pos ← offset_pos b idx; write16 b pos val

unfoldable pub node_append_kv : BNode → ℕ → ℕ → Bytes → Bytes → Option BNode
node_append_kv b idx ptr key val = do
  b1 ← setptr b idx ptr
  pos ← kv_pos b1 idx
  b2 ← write16 b1 pos (length key % u16_mod)
  b3 ← write16 b2 ((pos + 2) % u16_mod) (length val % u16_mod)
  b4 ← copy b3 ((pos + kv_header) % u16_mod) key
  b5 ← copy b4 ((pos + kv_header + length key) % u16_mod) val
  off ← get_offset b5 idx
  set_offset b5 ((idx + 1) % u16_mod) ((off + kv_header + (length key + length val)) % u16_mod)

-- `low + (high-low)/2`
abbrev pub middle : ℕ → ℕ → ℕ
middle low high = (low + (high + u16_mod - low) % u16_mod / 2) % u16_mod

-- The loop of `nodeLookupLE`, on fuel.
unfoldable pub lookup_loop : ℕ → BNode → Bytes → ℕ → ℕ → ℕ → Option ℕ
lookup_loop zero b key low high found = none
lookup_loop (suc fuel) b key low high found = elim (ltb low high) [
  | false ↦ some found
  | true ↦ (do
    k ← get_key b (middle low high)
    elim (compare_bytes k key) [
      | Ordering.eq ↦ some (middle low high)
      | Ordering.lt ↦
          lookup_loop fuel b key ((middle low high + 1) % u16_mod) high (middle low high)
      | Ordering.gt ↦ lookup_loop fuel b key low (middle low high) found
    ])
]

-- Each round narrows the range, so one round more than there are keys is enough.
unfoldable pub node_lookup_le : BNode → Bytes → Option ℕ
node_lookup_le b key = do n ← nkeys b; lookup_loop (suc n) b key 1 n 0
