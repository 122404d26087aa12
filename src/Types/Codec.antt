-- ===== src/Types/Codec.antt =====
-- types/schema.go: `SerializeBytes`, `DeserializeBytes`, `SerializeInt` and `DeserializeInt`.
pub mod RoundTrip
pub mod Order
use Prim.Native.Nat.{bit_xor}
use auroradb.Prelude.{
  ℕ, suc, Bool, true, false, [], ◌∷◌, ◌++◌, Option, none, some, Bytes, ◌==◌, if◌then◌else◌,
}
use auroradb.Prelude.Panic.{◌>>=◌, slice_to}
use auroradb.Prelude.Words.{big_endian, from_big_endian, sign_bit}

-- What the loop of `SerializeBytes` appends for one byte.
unfoldable pub escape : ℕ → Bytes
escape b = if b == 0x00 then 0x01 ∷ 0x01 ∷ [] else if b == 0x01 then 0x01 ∷ 0x02 ∷ [] else b ∷ []

unfoldable pub serialize_bytes : Bytes → Bytes
unfolding escape
serialize_bytes [] = []
serialize_bytes (b ∷ s) = escape b ++ serialize_bytes s

-- What a byte behind 0x01 stands for.
unescape : ℕ → Option ℕ
unescape b = if b == 0x01 then some 0x00 else if b == 0x02 then some 0x01 else none

-- The loop of `DeserializeBytes`; the first argument is its `escape`.
deserialize_from : Bool → Bytes → Option Bytes
deserialize_from esc [] = some []
deserialize_from true (b ∷ s) = do c ← unescape b; rest ← deserialize_from false s; some (c ∷ rest)
deserialize_from false (b ∷ s) =
    let skip = deserialize_from true s in
    let keep = deserialize_from false s in
    if b == 0x01 then skip else (do rest ← keep; some (b ∷ rest))

unfoldable pub deserialize_bytes : Bytes → Option Bytes
unfolding deserialize_from unescape
deserialize_bytes s = deserialize_from false s

unfoldable pub serialize_int : ℕ → Option Bytes
unfolding big_endian
serialize_int num = if num == sign_bit then none else some (big_endian 8 (bit_xor num sign_bit))

unfoldable pub deserialize_int : Bytes → Option ℕ
unfolding from_big_endian slice_to
deserialize_int s = do b ← slice_to 8 s; some (bit_xor (from_big_endian 0 b) sign_bit)
