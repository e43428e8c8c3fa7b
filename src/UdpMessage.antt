-- ===== src/UdpMessage.antt =====
-- net/udp_message.h and net/udp_message.cpp class MessageRequest: a datagram of one byte of header,
-- its message id, and a message of Protocol Buffers. Addresses are handed along by the callers.
pub mod MessageId
pub mod Transfer
use mmocraft.Prelude.{
  ℕ, ◌+◌, ◌-◌, ◌≤◌, min, ◌≡◌, Bool, true, false, Option, none, some, [], ◌∷◌, ◌++◌, leb, ◌==◌,
  if◌then◌else◌, length, get_or, take, drop,
}
use mmocraft.Packet.Field.{Bytes}
use mmocraft.Buffer.Memory.{Memory, write_at}

-- What Protocol Buffers does for a type of messages. `refuse` is what an array holds after
-- SerializeToArray of a message that does not fit it.
pub record Codec (M : Type 0) : Type 0 where
  pub serialize : M → Bytes
  pub parse : Bytes → Option M
  pub refuse : M → Memory → Memory

-- A message is read from its own bytes, and an array keeps its size.
pub record IsLawful {M : Type 0} (c : Codec M) : Type 0 where
  pub parse-serialize : (m : M) → c.parse (c.serialize m) ≡ some m
  pub length-refuse : (m : M) (mem : Memory) → length (c.refuse m mem) ≡ length mem

-- config::memory::udp_buffer_size, the size of `_buf`.
abbrev pub capacity : ℕ
capacity = 2048

abbrev pub size_of_header : ℕ
size_of_header = 1

pub record MessageRequest : Type 0 where
  pub size : ℕ
  pub buf : Memory

abbrev pub message_size : MessageRequest → ℕ
message_size r = r.size - size_of_header

abbrev pub message_capacity : ℕ
message_capacity = capacity - size_of_header

-- The byte at the front of the buffer. The source's `char` is signed: an id from 128 on, which no server
-- gives a handler, is a negative number there.
unfoldable pub message_id : MessageRequest → ℕ
message_id r = get_or r.buf 0 0

unfoldable pub set_size : ℕ → MessageRequest → MessageRequest
set_size data_size r = record r { size = min data_size capacity }

unfoldable pub set_message_size : ℕ → MessageRequest → MessageRequest
set_message_size msg_size r = record r { size = min (msg_size + size_of_header) capacity }

unfoldable pub set_message_id : ℕ → MessageRequest → MessageRequest
set_message_id msg_id r = record r { buf = write_at r.buf 0 (msg_id ∷ []) }

unfoldable pub reset : ℕ → MessageRequest → MessageRequest
unfolding set_message_id
reset msg_id r = record (set_message_id msg_id r) { size = size_of_header }

-- A new request, over the memory that its buffer takes.
unfoldable pub new_request : Memory → ℕ → MessageRequest
unfolding reset
new_request mem msg_id = reset msg_id (record { size = 0; buf = mem })

-- The datagram that flush_send hands to the socket.
abbrev pub datagram : MessageRequest → Bytes
datagram r = take r.size r.buf

-- read_message, with what recvfrom has put into the buffer; `none` is an error.
unfoldable pub read_message : Option Bytes → MessageRequest → MessageRequest × Bool
unfolding set_size
read_message none r = (r, false)
read_message (some bytes) r =
    if length bytes == 0
    then (r, false)
    else (set_size (length bytes) (record r { buf = write_at r.buf 0 bytes }), true)

module _ {M : Type 0} (codec : Codec M) where
  -- SerializeToArray
  unfoldable pub serialize_to_array : M → Memory → Memory
  serialize_to_array msg mem =
      if leb (length (codec.serialize msg)) (length mem)
      then write_at mem 0 (codec.serialize msg)
      else codec.refuse msg mem

  unfoldable pub set_message : M → MessageRequest → MessageRequest
  unfolding serialize_to_array set_message_size
  set_message msg r = set_message_size (length (codec.serialize msg)) (record r {
    buf = take size_of_header r.buf ++ serialize_to_array msg (drop size_of_header r.buf);
  })

  unfoldable pub parse_message : MessageRequest → Option M
  parse_message r = codec.parse (take (message_size r) (drop size_of_header r.buf))

-- The buffer has its size, and its used part holds at least the header.
pub record IsValid (r : MessageRequest) : Type 0 where
  pub whole : length r.buf ≡ capacity
  pub some_bytes : size_of_header ≤ r.size
  pub fits : r.size ≤ capacity
