-- ===== src/Packet/Extension.antt =====
-- net/packet_extension.h and net/packet_extension.cpp: the packets of the protocol extension.
use mathlib.Core.Option
use mmocraft.Prelude.{
  ℕ, Bool, true, false, ◌&&◌, Option, none, some, List, [], ◌∷◌, ◌==◌, if◌then◌else◌, length,
}
use mmocraft.Packet.Id
use mmocraft.Packet.Field.{
  Bytes, Reader, ◌>>=◌, ◌>>◌, pure, skip_id, read_scalar, read_string, write_byte, write_short,
  write_int, write_uint64, write_string,
}

pub record PacketExtInfo : Type 0 where
  pub app_name : Bytes
  pub extension_count : ℕ

pub record PacketExtEntry : Type 0 where
  pub extenstion_name : Bytes
  pub version : ℕ

unfoldable pub parse_ext_info : Reader PacketExtInfo
parse_ext_info = do
  skip_id
  app_name ← read_string
  extension_count ← read_scalar 2
  pure (record { app_name = app_name; extension_count = extension_count })

unfoldable pub parse_ext_entry : Reader PacketExtEntry
parse_ext_entry = do
  skip_id
  extenstion_name ← read_string
  version ← read_scalar 4
  pure (record { extenstion_name = extenstion_name; version = version })

-- PacketExtPing::parse gives the request time.
unfoldable pub parse_ext_ping : Reader ℕ
parse_ext_ping = do skip_id; request_time ← read_scalar 8; pure request_time

-- Equality of string views.
unfoldable pub bytes_eq : Bytes → Bytes → Bool
bytes_eq [] [] = true
bytes_eq (a ∷ s) (b ∷ t) = a == b && bytes_eq s t
bytes_eq _ _ = false

pub record CpeInfo : Type 0 where
  pub index : ℕ
  pub version : ℕ

-- "MessageTypes"
abbrev pub message_types : Bytes
message_types =
    b'M' ∷ b'e' ∷ b's' ∷ b's' ∷ b'a' ∷ b'g' ∷ b'e' ∷ b'T' ∷ b'y' ∷ b'p' ∷ b'e' ∷ b's' ∷ []

-- "TwoWayPing"
abbrev pub two_way_ping : Bytes
two_way_ping = b'T' ∷ b'w' ∷ b'o' ∷ b'W' ∷ b'a' ∷ b'y' ∷ b'P' ∷ b'i' ∷ b'n' ∷ b'g' ∷ []

-- "mmocraft-cpe"
abbrev pub cpe_server_name : Bytes
cpe_server_name =
    b'm' ∷ b'm' ∷ b'o' ∷ b'c' ∷ b'r' ∷ b'a' ∷ b'f' ∷ b't' ∷ b'-' ∷ b'c' ∷ b'p' ∷ b'e' ∷ []

-- supported_cpe_map, in one of the orders that the hash table may have.
abbrev pub supported_cpe_map : List (Bytes × CpeInfo)
supported_cpe_map =
    (message_types, record { index = Id.ext_message; version = 1 })
    ∷ (two_way_ping, record { index = Id.two_way_ping; version = 1 })
    ∷ []

unfoldable pub find_cpe : Bytes → List (Bytes × CpeInfo) → Option CpeInfo
unfolding bytes_eq
find_cpe name [] = none
find_cpe name ((n, info) ∷ rest) = if bytes_eq name n then some info else find_cpe name rest

unfoldable pub is_available_cpe : Bytes → ℕ → Bool
unfolding find_cpe
is_available_cpe ext_name version = elim (find_cpe ext_name supported_cpe_map) [
  | none ↦ false
  | some info ↦ info.version == version
]

-- `none` is the exception of `at` on a missing key.
unfoldable pub cpe_index_of : Bytes → Option ℕ
unfolding find_cpe
cpe_index_of ext_name = Option.map (λ (i : CpeInfo). i.index) (find_cpe ext_name supported_cpe_map)

unfoldable pub write_ext_info : Bytes
write_ext_info =
    let buf = write_byte [] Id.ext_info in
    let buf = write_string buf cpe_server_name in write_short buf (length supported_cpe_map)

unfoldable pub write_ext_entry : Bytes → CpeInfo → Bytes
write_ext_entry ext_name ext_info =
    let buf = write_byte [] Id.ext_entry in
    let buf = write_string buf ext_name in write_int buf ext_info.version

-- PacketExtMessage::serialize
unfoldable pub write_ext_message : ℕ → Bytes → Bytes
write_ext_message msg_type message =
    let buf = write_byte [] Id.ext_message in
    let buf = write_byte buf msg_type in write_string buf message

-- PacketExtPing::serialize
unfoldable pub write_ext_ping : ℕ → Bytes
write_ext_ping request_time = let buf = write_byte [] Id.ext_ping in write_uint64 buf request_time
