-- ===== src/Framing.antt =====
-- net/connection.cpp Connection::process_packets: the packets at the front of the receive buffer
-- are handed to the handler one by one.
pub mod Laws
pub mod Segments
pub mod Errors
use mmocraft.Prelude.{ℕ, zero, suc, ◌+◌, not, ltb, ◌==◌, if◌then◌else◌, length, drop}
use mmocraft.Code
use mmocraft.Packet.Field.{Bytes}
use mmocraft.Packet.Id

-- PacketHandler::handle_packet, over the state `S` of the server: the new state and a result code.
abbrev pub Handler : Type 0 → Type 0
Handler S = S → Bytes → S × ℕ

-- What the loop leaves: the handler's state, last_error_code and the number of bytes parsed.
pub record Outcome (S : Type 0) : Type 0 where
  pub state : S
  pub last_error : ℕ
  pub parsed : ℕ

module _ {S : Type 0} (handle_packet : Handler S) where
  -- The loop with `data` the bytes from data_cur on. The fuel bounds the rounds.
  unfoldable pub process : ℕ → S → ℕ → ℕ → Bytes → Outcome S
  process zero s error parsed bytes = record { state = s; last_error = error; parsed = parsed }
  process (suc fuel) s error parsed bytes =
      let packet_id = (Id.parse_packet bytes).0 in
      let packet_size = (Id.parse_packet bytes).1 in
      let handled = handle_packet s bytes in
      let rest = process fuel handled.0 error (parsed + packet_size) (drop packet_size bytes) in
      if length bytes == 0
      then record { state = s; last_error = error; parsed = parsed }
      else if packet_id == Id.invalid
      then record { state = s; last_error = Code.invalid_packet_id; parsed = parsed }
      else if ltb (length bytes) packet_size
      then record { state = s; last_error = Code.insuffient_packet_data; parsed = parsed }
      else if not (Code.is_packet_handle_success handled.1)
      then record { state = handled.0; last_error = handled.1; parsed = parsed }
      else rest

  -- Every round but the last moves data_cur, so one round more than there are bytes is enough.
  unfoldable pub process_packets : S → ℕ → Bytes → Outcome S
  process_packets s error bytes = process (suc (length bytes)) s error 0 bytes
