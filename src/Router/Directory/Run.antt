-- ===== src/Router/Directory/Run.antt =====
-- The router's event loop over the messages that it receives.
use mmocraft.Prelude.{ℕ, ◌≡◌, refl, ◌∙◌, Bool, true, Option, some, List, [], ◌∷◌, map, length, All}
use mmocraft.Packet.Field.{Bytes}
use mmocraft.Buffer.Memory.{Memory}
use mmocraft.UdpMessage.MessageId
use mmocraft.UdpMessage.{
  IsLawful, IsValid, MessageRequest, message_id, new_request, set_message, capacity, read_message,
}
use mmocraft.UdpMessage.Transfer.{read_message-Carries, new_request-IsValid, set_message-Carries}
use mmocraft.Communicator
use mmocraft.Communicator.{
  IpAddress, ServerAnnouncement, FetchServerRequest, FetchServerResponse, ServerCommunicator,
  UdpServer, get_server, register_server, run_event_loop, handle_common_message,
  handle_server_announcement,
}
use mmocraft.Router.{Protocol, RouteServer, handle_message, serve}
use mmocraft.Router.Directory.{
  Incoming, announced, asked, Known, learn, learn_all, datagram_of, IsProper, Implements,
}
use mmocraft.Router.Directory.Steps.{announce_step, ask_step}

module _ (p : Protocol) (unset : Memory) (file : ℕ → Bytes) where
  -- One message: the next round of the event loop.
  step_lem :
      (m : Incoming) (request : MessageRequest) (s : RouteServer) (d : Known)
      → IsLawful p.announcements
      → IsLawful p.server_requests
      → length unset ≡ capacity
      → IsValid request
      → Implements p unset s d
      → IsProper p unset m
      → let (read, done) = read_message (some (datagram_of p unset m)) request in
        (done ≡ true)
        × IsValid read
        × ((handled : Bool) × (next : RouteServer) × (Communicator.handle_message p.announcements
                (handle_message p file)
                s
                read
              ≡ some (handled, next))
            × Implements p unset next (learn m d))
  step_lem (announced t a) request s d la lr whole v i proper =
      let msg : ServerAnnouncement = record { server_type = t; server_info = a } in
      let fresh = new_request-IsValid unset MessageId.server_announcement whole in
      let made =
        set_message-Carries p.announcements msg (new_request unset MessageId.server_announcement)
          fresh.0 proper.1 in
      let (done, valid, id, parsed) =
        read_message-Carries p.announcements
          (set_message p.announcements msg (new_request unset MessageId.server_announcement))
          request (message_id (new_request unset MessageId.server_announcement)) msg la made v in
      let (next, handled, implements) =
        announce_step p unset file t a s d
          (read_message (some (datagram_of p unset (announced t a))) request).0 i proper.0 proper.2
          (id ∙ fresh.1) parsed in
      (done, valid, (true, next, handled, implements))
  step_lem (asked t) request s d la lr whole v i proper =
      let msg : FetchServerRequest = record { server_type = t } in
      let fresh = new_request-IsValid unset MessageId.fetch_server_address whole in
      let made =
        set_message-Carries p.server_requests msg (new_request unset MessageId.fetch_server_address)
          fresh.0 proper.1 in
      let (done, valid, id, parsed) =
        read_message-Carries p.server_requests
          (set_message p.server_requests msg (new_request unset MessageId.fetch_server_address))
          request (message_id (new_request unset MessageId.fetch_server_address)) msg lr made v in
      let (handled, next, at, implements) =
        ask_step p unset file t s d (read_message (some (datagram_of p unset (asked t))) request).0
          i proper.0 valid (id ∙ fresh.1) parsed in
      (done, valid, (handled, next, at, implements))

  round_lem :
      (received : Option Bytes) (later : List (Option Bytes)) (request : MessageRequest)
      (s next : RouteServer) (handled : Bool)
      → (read_message received request).1 ≡ true
      → Communicator.handle_message p.announcements
          (handle_message p file)
          s
          (read_message received request).0
        ≡ some (handled, next)
      → serve p file (received ∷ later) request s
        ≡ serve p file later (read_message received request).0 next
  unfolding serve run_event_loop
  round_lem received later request s next handled done at = rw (run_event_loop, done, at) refl

  -- The router's event loop over announcements and requests, each in its datagram, keeps in the
  -- table what was announced last for each server, and answers each request with it, as long as
  -- it has a port; nothing leaves the table. Every message names a server of the table, and fits
  -- a datagram with its answer.
  pub serve-Implements :
      (ms : List Incoming) (request : MessageRequest) (s : RouteServer) (d : Known)
      → IsLawful p.announcements
      → IsLawful p.server_requests
      → length unset ≡ capacity
      → IsValid request
      → Implements p unset s d
      → All (IsProper p unset) ms
      → (last : MessageRequest) × (next : RouteServer) × (serve p file
            (map (λ m. some (datagram_of p unset m)) ms)
            request
            s
          ≡ some (last, next))
        × Implements p unset next (learn_all ms d)
  unfolding serve run_event_loop
  serve-Implements [] request s d la lr whole v i proper = (request, s, refl, i)
  serve-Implements (m ∷ ms) request s d la lr whole v i proper =
      let (done, valid, (handled, next, at, implements)) =
        step_lem m request s d la lr whole v i proper.0 in
      let (last, final, rest, implemented) =
        serve-Implements ms (read_message (some (datagram_of p unset m)) request).0 next (learn m d)
          la lr whole valid implements proper.1 in
      (
        last,
        final,
        round_lem (some (datagram_of p unset m)) (map (λ x. some (datagram_of p unset x)) ms)
              request s next handled done at
            ∙ rest,
        implemented,
      )
