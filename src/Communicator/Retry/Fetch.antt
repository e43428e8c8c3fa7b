-- ===== src/Communicator/Retry/Fetch.antt =====
-- What fetch_server_address makes of a reply, and of none.
use mmocraft.Prelude.{
  ℕ, ◌≤◌, ◌<◌, ◌≡◌, refl, ◌≢◌, inl, inr, Bool, true, false, Option, some, [], ◌∷◌, arith, ltb, ◌==◌,
  Bool-cases, length,
}
use mmocraft.Packet.Field.{Bytes}
use mmocraft.Buffer.Memory.{Memory}
use mmocraft.UdpMessage.MessageId
use mmocraft.UdpMessage.{
  Codec, IsLawful, parse_message, MessageRequest, new_request, set_message, datagram, capacity,
  read_message, message_capacity,
}
use mmocraft.UdpMessage.Transfer.{
  Carries, read_message-Carries, new_request-IsValid, set_message-Carries,
}
use mmocraft.Communicator.{FetchServerRequest, FetchServerResponse, ServerCommunicator, get_server}
use mmocraft.Communicator.Table.{register_server_lem}
use mmocraft.Communicator.Retry.{
  rounds, send_message_reliably, fetch_server_address, is_silent, Ended, replied, unanswered,
  rounds-Ended,
}

-- A request with no message holds an empty one.
parse_message-new_request :
    {M : Type 0} (codec : Codec M) (unset : Memory) (id : ℕ)
    → parse_message codec (new_request unset id) ≡ codec.parse []
unfolding parse_message new_request
parse_message-new_request codec unset id = refl

module _ (exchange : ℕ → Option Bytes) where
  first_reply :
      (n i : ℕ) (r : MessageRequest) (o : Bool × MessageRequest × ℕ)
      → Ended exchange n r o
      → i ≤ n
      → is_silent (exchange i) ≡ false
      → ((j : ℕ) → i < j → j ≤ n → is_silent (exchange j) ≡ true)
      → (o.0 ≡ true) × (o.1 ≡ (read_message (exchange i) r).0)
  first_reply n i r _ (replied i2 k at reply before) le mine above = elim (Bool-cases (ltb i i2)) [
    | inl lt ↦ let e = above i2 (ground arith) (omega arith) in absurd (cc)
    | inr ge ↦ elim (Bool-cases (ltb i2 i)) [
      | inl lt ↦ let e = before i (ground arith) le in absurd (cc)
      | inr eq ↦ let same : i2 ≡ i = ground arith in rw (same) (refl, refl)
    ]
  ]
  first_reply n i r _ (unanswered silent) le mine above = let e = silent i le in absurd (cc)

  no_reply :
      (n : ℕ) (r : MessageRequest) (o : Bool × MessageRequest × ℕ)
      → Ended exchange n r o
      → ((j : ℕ) → j ≤ n → is_silent (exchange j) ≡ true)
      → o.0 ≡ false
  no_reply n r _ (replied i k at reply before) silent =
      let e = silent i (omega arith) in absurd (cc)
  no_reply n r _ (unanswered _) silent = refl

  -- The first reply to fetch_server_address, if it carries an address, is what the table holds for
  -- the server that was asked for; the other entries stay.
  pub fetch_server_address-replied :
      (unset : Memory) (requests : Codec FetchServerRequest) (responses : Codec FetchServerResponse)
      (n i server_type id : ℕ) (c : ServerCommunicator) (sent : MessageRequest)
      (res : FetchServerResponse)
      → IsLawful responses
      → length unset ≡ capacity
      → length (requests.serialize (record { server_type = server_type })) ≤ message_capacity
      → server_type < length c.servers
      → i ≤ n
      → ((j : ℕ) → i < j → j ≤ n → is_silent (exchange j) ≡ true)
      → exchange i ≡ some (datagram sent)
      → Carries responses sent id res
      → (next : ServerCommunicator) × (fetch_server_address exchange unset requests responses n c
            server_type
          ≡ some (true, next))
        × (get_server next server_type ≡ some res.server_info)
        × ((u : ℕ) → u ≢ server_type → get_server next u ≡ get_server c u)
  unfolding fetch_server_address send_message_reliably
  fetch_server_address-replied unset requests responses n i server_type id c sent res l u small h le
        above at carries =
      let request : MessageRequest =
        set_message requests (record { server_type = server_type })
          (new_request unset MessageId.fetch_server_address) in
      let made =
        set_message-Carries requests (record { server_type = server_type })
          (new_request unset MessageId.fetch_server_address)
          (new_request-IsValid unset MessageId.fetch_server_address u).0 small in
      let (silent, _, _, parsed) =
        read_message-Carries responses sent request id res l carries made.valid in
      let some_bytes : (length (id ∷ responses.serialize res) == 0) ≡ false = ground arith in
      let heard : is_silent (exchange i) ≡ false = rw (at, carries.sent) some_bytes in
      let (done, read) =
        first_reply n i request (rounds exchange n request) (rounds-Ended exchange n request) le
          heard above in
      let (next, registered, got, rest, _) = register_server_lem c server_type res.server_info h in
      (next, rw (fetch_server_address, done, read, at, parsed, registered) refl, got, rest)

  -- Where no reply comes at all, the empty response is read as a message all the same: the address
  -- in it, if an empty message has one, takes the place of the server's, and the result is true.
  pub fetch_server_address-unanswered :
      (unset : Memory) (requests : Codec FetchServerRequest) (responses : Codec FetchServerResponse)
      (n server_type : ℕ) (c : ServerCommunicator) (res : FetchServerResponse)
      → server_type < length c.servers
      → ((j : ℕ) → j ≤ n → is_silent (exchange j) ≡ true)
      → responses.parse [] ≡ some res
      → (next : ServerCommunicator) × (fetch_server_address exchange unset requests responses n c
            server_type
          ≡ some (true, next))
        × (get_server next server_type ≡ some res.server_info)
  unfolding fetch_server_address send_message_reliably
  fetch_server_address-unanswered unset requests responses n server_type c res h silent empty =
      let request : MessageRequest =
        set_message requests (record { server_type = server_type })
          (new_request unset MessageId.fetch_server_address) in
      let nothing =
        no_reply n request (rounds exchange n request) (rounds-Ended exchange n request) silent in
      let (next, registered, got, rest, _) = register_server_lem c server_type res.server_info h in
      (
        next,
        rw
            (
              fetch_server_address,
              nothing,
              parse_message-new_request responses unset 0,
              empty,
              registered,
            )
            refl,
        got,
      )
