-- ===== src/Communicator.antt =====
-- net/server_communicator.h and net/server_communicator.cpp class ServerCommunicator and
-- net/udp_server.cpp UdpServer::handle_message: the table of the servers' addresses, and the messages
-- between them. The messages themselves are those of proto/protocol.proto. A result `none` stands
-- for an access outside of the table.
pub mod ServerType
pub mod Table
pub mod Retry
use mmocraft.Prelude.{
  ℕ, Bool, true, false, ◌||◌, Option, none, some, List, [], ◌∷◌, ltb, ◌==◌, if◌then◌else◌, length,
  get_elem?, set, replicate,
}
use mmocraft.Packet.Field.{Bytes}
use mmocraft.Buffer.Memory.{Memory}
use mmocraft.UdpMessage.MessageId
use mmocraft.UdpMessage.{
  Codec, MessageRequest, message_id, new_request, set_message, parse_message, read_message,
  datagram, capacity,
}

-- Steps that may leave the table.
infixl 5 ◌>>=◌
abbrev pub ◌>>=◌ : {A B : Type 0} → Option A → (A → Option B) → Option B
m >>= f = elim m [ none ↦ none | some a ↦ f a ]

abbrev pub pure : {A : Type 0} → A → Option A
pure a = some a

-- `port` is the 32 bits of the int.
pub record IpAddress : Type 0 where
  pub ip : Bytes
  pub port : ℕ

abbrev pub no_address : IpAddress
no_address = record { ip = []; port = 0 }

-- An enum of proto3 is open: `server_type` is any number of its 32 bits.
pub record ServerAnnouncement : Type 0 where
  pub server_type : ℕ
  pub server_info : IpAddress

pub record FetchServerRequest : Type 0 where
  pub server_type : ℕ

pub record FetchServerResponse : Type 0 where
  pub server_type : ℕ
  pub server_info : IpAddress

pub record PacketHandleRequest : Type 0 where
  pub connection_key : ℕ
  pub packet_data : Bytes

-- `_servers`, and the datagrams sent so far with their addresses, the last one first.
pub record ServerCommunicator : Type 0 where
  pub servers : List IpAddress
  pub sent : List (IpAddress × Bytes)

abbrev pub new_communicator : ServerCommunicator
new_communicator = record { servers = replicate ServerType.total_count no_address; sent = [] }

unfoldable pub get_server : ServerCommunicator → ℕ → Option IpAddress
get_server c server_type = get_elem? c.servers server_type

unfoldable pub register_server : ServerCommunicator → ℕ → IpAddress → Option ServerCommunicator
register_server c server_type server_info =
    if ltb server_type (length c.servers)
    then some (record c { servers = set c.servers server_type server_info })
    else none

-- A handler's result, and the state after it.
module _ (announcements : Codec ServerAnnouncement) where
  unfoldable pub handle_server_announcement :
      ServerCommunicator → MessageRequest → Option (Bool × ServerCommunicator)
  unfolding register_server
  handle_server_announcement c request = elim (parse_message announcements request) [
    | none ↦ some (false, c)
    | some msg ↦ do next ← register_server c msg.server_type msg.server_info; pure (true, next)
  ]

  -- common_message_handler_table has one entry; without a handler the result is std::nullopt.
  unfoldable pub handle_common_message :
      ServerCommunicator → MessageRequest → Option (Option Bool × ServerCommunicator)
  unfolding handle_server_announcement
  handle_common_message c request =
      if message_id request == MessageId.server_announcement
      then (do (done, next) ← handle_server_announcement c request; pure (some done, next))
      else some (none, c)

-- `sendto` is whether the socket takes a datagram for an address; `unset` is the memory that a new
-- request takes for its buffer.
module _ (sendto : IpAddress → Bytes → Bool) (unset : Memory) where
  unfoldable pub send_to :
      ServerCommunicator → MessageRequest → ℕ → Option (Bool × ServerCommunicator)
  unfolding get_server
  send_to c request server_type = do
    addr ← get_server c server_type
    pure (
        if sendto addr (datagram request)
        then (true, record c { sent = (addr, datagram request) ∷ c.sent })
        else (false, c))

  unfoldable pub announce_server :
      Codec ServerAnnouncement
      → ServerCommunicator
      → ℕ
      → IpAddress
      → Option (Bool × ServerCommunicator)
  unfolding send_to
  announce_server codec c target_server_type target_server_addr =
      send_to c
        (set_message codec
          (record { server_type = target_server_type; server_info = target_server_addr })
          (new_request unset MessageId.server_announcement))
        ServerType.router

  unfoldable pub fetch_server_address_async :
      Codec FetchServerRequest → ServerCommunicator → ℕ → Option (Bool × ServerCommunicator)
  unfolding send_to
  fetch_server_address_async codec c server_type =
      send_to c
        (set_message codec (record { server_type = server_type })
          (new_request unset MessageId.fetch_server_address))
        ServerType.router

  unfoldable pub forward_packet :
      Codec PacketHandleRequest
      → ServerCommunicator
      → ℕ
      → ℕ
      → ℕ
      → Bytes
      → Option (Bool × ServerCommunicator)
  unfolding send_to
  forward_packet codec c server_type packet_type source packet_data =
      send_to c
        (set_message codec (record { connection_key = source; packet_data = packet_data })
          (new_request unset packet_type))
        server_type

abbrev pub value_or : Option Bool → Bool → Bool
value_or none b = b
value_or (some a) b = a

-- UdpServer, with the state `A` of the application that handles what is not common.
pub record UdpServer (A : Type 0) : Type 0 where
  pub communicator : ServerCommunicator
  pub app_server : A

module _ {A : Type 0} (announcements : Codec ServerAnnouncement)
    (app_handle_message : UdpServer A → MessageRequest → Option (Bool × UdpServer A)) where
  unfoldable pub handle_message : UdpServer A → MessageRequest → Option (Bool × UdpServer A)
  unfolding handle_common_message
  handle_message s request = do
    (common, next) ← handle_common_message announcements s.communicator request
    let after : UdpServer A = record s { communicator = next }
    elim (value_or common true) [
      | false ↦ some (false, after)
      | true ↦ do
        (handled, last) ← app_handle_message after request
        pure (handled || value_or common false, last)
    ]

  -- run_event_loop_forever over what recvfrom gives, one round for each.
  unfoldable pub run_event_loop :
      List (Option Bytes) → MessageRequest → UdpServer A → Option (MessageRequest × UdpServer A)
  unfolding handle_message
  run_event_loop [] request s = some (request, s)
  run_event_loop (received ∷ later) request s =
      let (read, done) = read_message received request in
      elim done [
        | false ↦ run_event_loop later read s
        | true ↦ do (_, next) ← handle_message s read; run_event_loop later read next
      ]
