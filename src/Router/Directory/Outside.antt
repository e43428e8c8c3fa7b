-- ===== src/Router/Directory/Outside.antt =====
-- An announcement of a server that the table has no entry for.
use mmocraft.Prelude.{
  ℕ, ◌≤◌, ◌≡◌, refl, ◌∙◌, true, false, Option, none, some, List, ◌∷◌, arith, ltb, length,
}
use mmocraft.Packet.Field.{Bytes}
use mmocraft.Buffer.Memory.{Memory}
use mmocraft.UdpMessage.MessageId
use mmocraft.UdpMessage.{
  IsLawful, IsValid, MessageRequest, message_id, new_request, set_message, parse_message, capacity,
  message_capacity, read_message,
}
use mmocraft.UdpMessage.Transfer.{read_message-Carries, new_request-IsValid, set_message-Carries}
use mmocraft.Communicator.ServerType
use mmocraft.Communicator
use mmocraft.Communicator.{
  IpAddress, ServerAnnouncement, FetchServerRequest, FetchServerResponse, ServerCommunicator,
  UdpServer, get_server, register_server, run_event_loop, handle_common_message,
  handle_server_announcement,
}
use mmocraft.Router.{Protocol, RouteServer, handle_message, serve}
use mmocraft.Router.Directory.{announced, datagram_of}

register_outside :
    (c : ServerCommunicator) (t : ℕ) (a : IpAddress)
    → length c.servers ≤ t
    → register_server c t a ≡ none
unfolding register_server
register_outside c t a h =
    let out : ltb t (length c.servers) ≡ false = ground arith in rw (out) refl

module _ (p : Protocol) (unset : Memory) (file : ℕ → Bytes) where
  outside_lem :
      (s : RouteServer) (r : MessageRequest) (t : ℕ) (a : IpAddress)
      → length s.communicator.servers ≤ t
      → message_id r ≡ MessageId.server_announcement
      → parse_message p.announcements r ≡ some (record { server_type = t; server_info = a })
      → Communicator.handle_message p.announcements (handle_message p file) s r ≡ none
  unfolding Communicator.handle_message handle_common_message
  outside_lem s r t a h id parsed =
      let refused : handle_server_announcement p.announcements s.communicator r ≡ none =
        rw (handle_server_announcement, parsed, register_outside s.communicator t a h) refl in
      rw (id, refused) refl

  round_outside :
      (received : Option Bytes) (later : List (Option Bytes)) (request : MessageRequest)
      (s : RouteServer)
      → (read_message received request).1 ≡ true
      → Communicator.handle_message p.announcements
          (handle_message p file)
          s
          (read_message received request).0
        ≡ none
      → serve p file (received ∷ later) request s ≡ none
  unfolding serve run_event_loop
  round_outside received later request s done at = rw (run_event_loop, done, at) refl

  -- One datagram that announces a server type with no entry, which an enum of proto3 can hold,
  -- takes the router out of its table, whatever its state.
  pub serve-outside :
      (t : ℕ) (a : IpAddress) (later : List (Option Bytes)) (request : MessageRequest)
      (s : RouteServer)
      → IsLawful p.announcements
      → length unset ≡ capacity
      → IsValid request
      → length s.communicator.servers ≡ ServerType.total_count
      → ServerType.total_count ≤ t
      → length (p.announcements.serialize (record { server_type = t; server_info = a }))
        ≤ message_capacity
      → serve p file (some (datagram_of p unset (announced t a)) ∷ later) request s ≡ none
  serve-outside t a later request s la whole v size out fits =
      let msg : ServerAnnouncement = record { server_type = t; server_info = a } in
      let fresh = new_request-IsValid unset MessageId.server_announcement whole in
      let made =
        set_message-Carries p.announcements msg (new_request unset MessageId.server_announcement)
          fresh.0 fits in
      let (done, valid, id, parsed) =
        read_message-Carries p.announcements
          (set_message p.announcements msg (new_request unset MessageId.server_announcement))
          request (message_id (new_request unset MessageId.server_announcement)) msg la made v in
      let received : Option Bytes = some (datagram_of p unset (announced t a)) in
      round_outside received later request s done (
        outside_lem s (read_message received request).0 t a (omega (arith, size)) (id ∙ fresh.1)
          parsed)
