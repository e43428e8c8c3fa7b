-- ===== src/Router/Directory/Steps.antt =====
-- One message at the router.
use mmocraft.Prelude.{
  ℕ, ◌<◌, ◌≡◌, refl, ◌∙◌, ◌≢◌, inl, inr, Bool, true, false, ◌||◌, some, ◌∷◌, map, arith, ◌==◌,
  if◌then◌else◌, Bool-cases,
}
use mmocraft.Packet.Field.{Bytes}
use mmocraft.Buffer.Memory.{Memory}
use mmocraft.UdpMessage.MessageId
use mmocraft.UdpMessage.{IsValid, MessageRequest, message_id, parse_message}
use mmocraft.UdpMessage.Transfer.{set_message-Carries}
use mmocraft.Communicator
use mmocraft.Communicator.ServerType
use mmocraft.Communicator.{
  IpAddress, ServerAnnouncement, FetchServerRequest, FetchServerResponse, ServerCommunicator,
  UdpServer, get_server, register_server, run_event_loop, handle_common_message,
  handle_server_announcement,
}
use mmocraft.Communicator.Table.{register_server_lem}
use mmocraft.Router.{Protocol, RouteServer, handle_message, handle_fetch_server_address, send_reply}
use mmocraft.Router.Directory.{announced, asked, Known, answer, learn, FitsAnswer, Implements}

module _ (p : Protocol) (unset : Memory) (file : ℕ → Bytes) where
  registered_lem :
      (c next : ServerCommunicator) (r : MessageRequest) (t : ℕ) (a : IpAddress)
      → parse_message p.announcements r ≡ some (record { server_type = t; server_info = a })
      → register_server c t a ≡ some next
      → handle_server_announcement p.announcements c r ≡ some (true, next)
  unfolding handle_server_announcement
  registered_lem c next r t a parsed registered =
      rw (handle_server_announcement, parsed, registered) refl

  answered_lem :
      (s : RouteServer) (r : MessageRequest) (t : ℕ) (a : IpAddress)
      → parse_message p.server_requests r ≡ some (record { server_type = t })
      → get_server s.communicator t ≡ some a
      → handle_fetch_server_address p file s r
        ≡ some (
            if a.port == 0 then (false, s) else (
              true,
              send_reply p.server_responses (record { server_type = t; server_info = a }) r s,
            ))
  unfolding handle_fetch_server_address
  answered_lem s r t a parsed got = rw (handle_fetch_server_address, parsed, got) refl

  announcement_lem :
      (s : RouteServer) (next : ServerCommunicator) (r : MessageRequest)
      → message_id r ≡ MessageId.server_announcement
      → handle_server_announcement p.announcements s.communicator r ≡ some (true, next)
      → Communicator.handle_message p.announcements (handle_message p file) s r
        ≡ some (true, record s { communicator = next })
  unfolding Communicator.handle_message handle_common_message handle_message
  announcement_lem s next r id handled = rw (id, handled, id) refl

  request_lem :
      (s next : RouteServer) (done : Bool) (r : MessageRequest)
      → message_id r ≡ MessageId.fetch_server_address
      → handle_fetch_server_address p file s r ≡ some (done, next)
      → Communicator.handle_message p.announcements (handle_message p file) s r
        ≡ some (done || false, next)
  unfolding Communicator.handle_message handle_common_message handle_message
  request_lem s next done r id handled = rw (id, handled, id) refl

  pub announce_step :
      (t : ℕ) (a : IpAddress) (s : RouteServer) (d : Known) (r : MessageRequest)
      → Implements p unset s d
      → t < ServerType.total_count
      → FitsAnswer p unset t a
      → message_id r ≡ MessageId.server_announcement
      → parse_message p.announcements r ≡ some (record { server_type = t; server_info = a })
      → (next : RouteServer) × (Communicator.handle_message p.announcements
            (handle_message p file)
            s
            r
          ≡ some (true, next))
        × Implements p unset next (learn (announced t a) d)
  announce_step t a s d r i inside fits id parsed =
      let (next, registered, got, rest, kept) =
        register_server_lem s.communicator t a (omega (arith, i.size)) in
      let learned : Implements p unset (record s { communicator = next })
          (learn (announced t a) d) =
        record {
          size = kept ∙ i.size;
          table = λ u lt. elim (Bool-cases (u == t)) [
            | inl same ↦ let e : u ≡ t = ground arith in rw (same, e) got
            | inr other ↦ let ne : u ≢ t = ground arith in rw (other) (rest u ne ∙ i.table u lt)
          ];
          replies = i.replies;
          small = λ u. elim (Bool-cases (u == t)) [
            | inl same ↦ let e : u ≡ t = ground arith in rw (same, e) (inr fits)
            | inr other ↦ rw (other) (i.small u)
          ];
        } in
      (
        record s { communicator = next },
        announcement_lem s next r id (registered_lem s.communicator next r t a parsed registered),
        learned,
      )

  answered_replies :
      (t : ℕ) (s : RouteServer) (d : Known) (r : MessageRequest)
      → Implements p unset s d
      → IsValid r
      → message_id r ≡ MessageId.fetch_server_address
      → (d.entries t).port ≢ 0
      → (send_reply p.server_responses (answer d t) r s).app_server
        ≡ map
            (λ res. MessageId.fetch_server_address ∷ p.server_responses.serialize res)
            (answer d t ∷ d.answers)
  unfolding send_reply
  answered_replies t s d r i v id found =
      let fits : FitsAnswer p unset t (d.entries t) = elim (i.small t) [
        | inl unknown ↦ absurd (found unknown)
        | inr fits ↦ fits
      ] in
      let sent = (set_message-Carries p.server_responses (answer d t) r v fits).sent in
      rw (sent, id, i.replies) refl

  pub ask_step :
      (t : ℕ) (s : RouteServer) (d : Known) (r : MessageRequest)
      → Implements p unset s d
      → t < ServerType.total_count
      → IsValid r
      → message_id r ≡ MessageId.fetch_server_address
      → parse_message p.server_requests r ≡ some (record { server_type = t })
      → (done : Bool) × (next : RouteServer) × (Communicator.handle_message p.announcements
            (handle_message p file)
            s
            r
          ≡ some (done, next))
        × Implements p unset next (learn (asked t) d)
  unfolding send_reply
  ask_step t s d r i inside v id parsed =
      let handled = answered_lem s r t (d.entries t) parsed (i.table t inside) in
      elim (Bool-cases ((d.entries t).port == 0)) [
        | inl unknown ↦
            (false, s, request_lem s s false r id (handled ∙ (rw (unknown) refl)), rw (unknown) i)
        | inr found ↦ (
          true,
          send_reply p.server_responses (answer d t) r s,
          request_lem s (send_reply p.server_responses (answer d t) r s) true r id
              (handled ∙ (rw (found) refl)),
          rw (found) (record {
            size = i.size;
            table = i.table;
            replies = answered_replies t s d r i v id (ground arith);
            small = i.small;
          }),
        )
      ]
