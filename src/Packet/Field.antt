-- ===== src/Packet/Field.antt =====
-- net/packet.h PacketStructure::read_scalar, write_byte, write_short, write_int, write_uint64 and
-- net/packet.cpp read_string, write_string: the fields of a packet on the wire. A cursor into a
-- buffer that is read is the list of the bytes from it on, and `none` is a read past their end; a
-- cursor into a buffer that is written is the list of the bytes before it.
pub mod Scalars
pub mod Strings
use mmocraft.Prelude.{
  [], ℕ, zero, suc, ◌+◌, ◌-◌, ◌*◌, ◌/◌, ◌%◌, min, if◌then◌else◌, ◌==◌, List, ◌∷◌, ◌++◌, reverse,
  Option, none, some, length, take, get_or, replicate,
}

abbrev pub Bytes : Type 0
Bytes = List ℕ

-- Readers

abbrev pub Reader : Type 0 → Type 0
Reader A = Bytes → Option (A × Bytes)

infixl 5 ◌>>=◌ ◌>>◌
abbrev pub ◌>>=◌ : {A B : Type 0} → Reader A → (A → Reader B) → Reader B
◌>>=◌ m f bs = elim (m bs) [ none ↦ none | some (a, rest) ↦ f a rest ]

abbrev pub ◌>>◌ : {A B : Type 0} → Reader A → Reader B → Reader B
m >> k = m >>= λ _. k

abbrev pub pure : {A : Type 0} → A → Reader A
pure a bs = some (a, bs)

-- The next `n` bytes, the cursor moved past them.
unfoldable pub read_bytes : ℕ → Reader Bytes
read_bytes zero bs = some ([], bs)
read_bytes (suc n) [] = none
read_bytes (suc n) (b ∷ bs) = elim (read_bytes n bs) [
  | none ↦ none
  | some (xs, rest) ↦ some (b ∷ xs, rest)
]

-- An integer of `n` bytes as it lies in the memory of a little-endian machine.
unfoldable pub to_memory : ℕ → ℕ → Bytes
to_memory zero v = []
to_memory (suc n) v = (v % 256) ∷ to_memory n (v / 256)

unfoldable pub of_memory : Bytes → ℕ
of_memory [] = 0
of_memory (b ∷ bs) = b + 256 * of_memory bs

-- _byteswap_ushort, _byteswap_ulong and _byteswap_uint64 for `n` = 2, 4 and 8.
unfoldable pub byteswap : ℕ → ℕ → ℕ
unfolding to_memory of_memory
byteswap n v = of_memory (reverse (to_memory n v))

-- `buf_start++` past the packet's id.
unfoldable pub skip_id : Reader (Unit {0})
skip_id [] = none
skip_id (b ∷ bs) = some (tt, bs)

unfoldable pub read_byte : Reader ℕ
read_byte [] = none
read_byte (b ∷ bs) = some (b, bs)

-- The overloads of read_scalar for integers of more than one byte.
unfoldable pub read_scalar : ℕ → Reader ℕ
unfolding read_bytes byteswap
read_scalar n = do raw ← read_bytes n; pure (byteswap n (of_memory raw))

abbrev pub max_string_length : ℕ
max_string_length = 64

-- The loop of read_string: `n` is 64 - padding_size, so the byte tested is buf[n - 1].
unfoldable pub unpadded_size : Bytes → ℕ → ℕ
unpadded_size buf zero = 0
unpadded_size buf (suc n) = if get_or buf n 0 == b' ' then unpadded_size buf n else suc n

unfoldable pub read_string : Reader Bytes
unfolding read_bytes unpadded_size
read_string = do
  buf ← read_bytes max_string_length
  pure (take (unpadded_size buf max_string_length) buf)

-- Writers

unfoldable pub write_byte : Bytes → ℕ → Bytes
write_byte buf v = buf ++ ((v % 256) ∷ [])

unfoldable pub write_scalar : ℕ → Bytes → ℕ → Bytes
unfolding byteswap
write_scalar n buf v = buf ++ to_memory n (byteswap n v)

abbrev pub write_short : Bytes → ℕ → Bytes
write_short = write_scalar 2

abbrev pub write_int : Bytes → ℕ → Bytes
write_int = write_scalar 4

abbrev pub write_uint64 : Bytes → ℕ → Bytes
write_uint64 = write_scalar 8

unfoldable pub write_string : Bytes → Bytes → Bytes
write_string buf str =
    let size = min (length str) max_string_length in
    buf ++ (take size str ++ replicate (max_string_length - size) b' ')
