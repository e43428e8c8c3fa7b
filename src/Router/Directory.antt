-- ===== src/Router/Directory.antt =====
-- The router as a directory: what it answers is what was announced last.
pub mod Steps
pub mod Run
pub mod Outside
use mmocraft.Prelude.{ℕ, ◌≤◌, ◌<◌, ◌≡◌, ◌⊎◌, some, List, [], ◌∷◌, map, ◌==◌, if◌then◌else◌, length}
use mmocraft.Packet.Field.{Bytes}
use mmocraft.Buffer.Memory.{Memory}
use mmocraft.UdpMessage.MessageId
use mmocraft.UdpMessage.{
  Codec, IsLawful, IsValid, MessageRequest, message_id, new_request, set_message, parse_message,
  datagram, capacity, message_capacity, read_message,
}
use mmocraft.UdpMessage.Transfer.{
  Carries, read_message-Carries, new_request-IsValid, set_message-Carries,
}
use mmocraft.Communicator
use mmocraft.Communicator.ServerType
use mmocraft.Communicator.{
  IpAddress, ServerAnnouncement, FetchServerRequest, FetchServerResponse, ServerCommunicator,
  UdpServer, get_server, register_server, run_event_loop, handle_common_message,
  handle_server_announcement,
}
use mmocraft.Communicator.Table.{register_server_lem}
use mmocraft.Router.{
  Protocol, RouteServer, handle_message, handle_fetch_server_address, send_reply, serve,
}

pub data Incoming : Type 0 where
  announced : ℕ → IpAddress → Incoming
  asked : ℕ → Incoming

-- Who is where, and the answers so far, the last one first.
pub record Known : Type 0 where
  pub entries : ℕ → IpAddress
  pub answers : List FetchServerResponse

abbrev pub answer : Known → ℕ → FetchServerResponse
answer d t = record { server_type = t; server_info = d.entries t }

abbrev pub learn : Incoming → Known → Known
learn (announced t a) d = record d { entries = λ u. if u == t then a else d.entries u }
learn (asked t) d =
    if (d.entries t).port == 0 then d else record d { answers = answer d t ∷ d.answers }

abbrev pub learn_all : List Incoming → Known → Known
learn_all [] d = d
learn_all (m ∷ ms) d = learn_all ms (learn m d)

module _ (p : Protocol) (unset : Memory) where
  -- The datagram of a message, as announce_server and fetch_server_address make it.
  abbrev pub datagram_of : Incoming → Bytes
  datagram_of (announced t a) = datagram (
      set_message p.announcements (record { server_type = t; server_info = a })
        (new_request unset MessageId.server_announcement))
  datagram_of (asked t) = datagram (
      set_message p.server_requests (record { server_type = t })
        (new_request unset MessageId.fetch_server_address))

  abbrev pub FitsAnswer : ℕ → IpAddress → Type 0
  FitsAnswer t a =
      length (p.server_responses.serialize (record { server_type = t; server_info = a }))
      ≤ message_capacity

  -- The message names a server of the table, and fits its datagram, as does an answer with it.
  abbrev pub IsProper : Incoming → Type 0
  IsProper (announced t a) =
      (t < ServerType.total_count)
      × (length (p.announcements.serialize (record { server_type = t; server_info = a }))
          ≤ message_capacity)
      × FitsAnswer t a
  IsProper (asked t) =
      (t < ServerType.total_count)
      × (length (p.server_requests.serialize (record { server_type = t })) ≤ message_capacity)

  pub record Implements (s : RouteServer) (d : Known) : Type 0 where
    pub size : length s.communicator.servers ≡ ServerType.total_count
    pub table :
        (t : ℕ) → t < ServerType.total_count → get_server s.communicator t ≡ some (d.entries t)
    pub replies :
        s.app_server
        ≡ map (λ res. MessageId.fetch_server_address ∷ p.server_responses.serialize res) d.answers
    pub small : (t : ℕ) → ((d.entries t).port ≡ 0) ⊎ FitsAnswer t (d.entries t)
