-- ===== src/Tests/Messages.antt =====
-- The messages between servers at concrete values.
use mmocraft.Prelude.{
  ℕ, zero, suc, ◌≤◌, ◌<◌, ◌≡◌, refl, ◌≢◌, inl, true, Option, none, some, List, [], ◌∷◌, map, arith,
  length, replicate, length-replicate,
}
use mmocraft.Packet.Field.{Bytes}
use mmocraft.Buffer.Memory.{Memory}
use mmocraft.UdpMessage.MessageId
use mmocraft.UdpMessage.{
  Codec, IsLawful, MessageRequest, new_request, set_message, message_id, capacity, datagram,
}
use mmocraft.UdpMessage.Transfer.{new_request-IsValid, set_message-Carries}
use mmocraft.Communicator.{
  IpAddress, no_address, new_communicator, ServerAnnouncement, FetchServerRequest,
  FetchServerResponse, ServerCommunicator, get_server,
}
use mmocraft.Communicator.ServerType
use mmocraft.Communicator.Table.{get_server-new_communicator}
use mmocraft.Communicator.Retry.{fetch_server_address, rounds, Ended, rounds-Ended, is_silent}
use mmocraft.Communicator.Retry.Fetch.{
  fetch_server_address-replied, fetch_server_address-unanswered,
}
use mmocraft.Router.{Protocol, RouteServer, serve}
use mmocraft.Router.Directory.{
  Incoming, announced, asked, Known, learn_all, datagram_of, Implements,
}
use mmocraft.Router.Directory.Run.{serve-Implements}
use mmocraft.Router.Directory.Outside.{serve-outside}

-- A plain format for the messages: the numbers, then the text. What does not fit is left out.
address_of : Bytes → IpAddress
address_of [] = no_address
address_of (port ∷ ip) = record { ip = ip; port = port }

typed : {M : Type 0} → (ℕ → Bytes → M) → Bytes → Option M
typed f [] = some (f 0 [])
typed f (t ∷ rest) = some (f t rest)

abbrev codec_of : {M : Type 0} → (M → Bytes) → (ℕ → Bytes → M) → Codec M
codec_of write read = record { serialize = write; parse = typed read; refuse = λ msg mem. mem }

abbrev announcements : Codec ServerAnnouncement
announcements =
    codec_of (λ m. m.server_type ∷ m.server_info.port ∷ m.server_info.ip)
      (λ t rest. record { server_type = t; server_info = address_of rest })

abbrev server_requests : Codec FetchServerRequest
server_requests = codec_of (λ m. m.server_type ∷ []) (λ t rest. record { server_type = t })

abbrev server_responses : Codec FetchServerResponse
server_responses =
    codec_of (λ m. m.server_type ∷ m.server_info.port ∷ m.server_info.ip)
      (λ t rest. record { server_type = t; server_info = address_of rest })

abbrev protocol : Protocol
protocol = record {
  announcements = announcements;
  server_requests = server_requests;
  server_responses = server_responses;
  config_requests = codec_of (λ m. m.server_type ∷ []) (λ t rest. record { server_type = t });
  config_responses = codec_of (λ m. 0 ∷ m.config) (λ t rest. record { config = rest });
}

announcements-IsLawful : IsLawful announcements
unfolding typed address_of
announcements-IsLawful = record { parse-serialize = λ m. refl; length-refuse = λ m mem. refl }

server_requests-IsLawful : IsLawful server_requests
unfolding typed
server_requests-IsLawful = record { parse-serialize = λ m. refl; length-refuse = λ m mem. refl }

server_responses-IsLawful : IsLawful server_responses
unfolding typed address_of
server_responses-IsLawful = record { parse-serialize = λ m. refl; length-refuse = λ m mem. refl }

abbrev unset : Memory
unset = replicate capacity 0

unset-whole : length unset ≡ capacity
unset-whole = length-replicate {A = ℕ} capacity 0

abbrev login : IpAddress
login = record { ip = 127 ∷ 1 ∷ []; port = 12345 }

abbrev messages : List Incoming
messages = announced ServerType.login login ∷ asked ServerType.login ∷ []

abbrev router : RouteServer
router = record { communicator = new_communicator; app_server = [] }

abbrev nothing_known : Known
nothing_known = record { entries = λ t. no_address; answers = [] }

abbrev no_file : ℕ → Bytes
no_file t = []

abbrev request : MessageRequest
request = new_request unset 0

router-Implements : Implements protocol unset router nothing_known
router-Implements = record {
  size = refl;
  table = get_server-new_communicator;
  replies = refl;
  small = λ t. inl refl;
}

serve-Implements_example :
    (last : MessageRequest) × (next : RouteServer) × (serve protocol no_file
        (map (λ m. some (datagram_of protocol unset m)) messages)
        request
        router
      ≡ some (last, next))
    × Implements protocol unset next (learn_all messages nothing_known)
serve-Implements_example =
    serve-Implements protocol unset no_file messages request router nothing_known
      announcements-IsLawful server_requests-IsLawful unset-whole
      (new_request-IsValid unset 0 unset-whole).0 router-Implements
      ((omega arith, omega arith, omega arith), ((omega arith, omega arith), tt))

serve-outside_example :
    serve protocol no_file
      (some (datagram_of protocol unset (announced 1000 login)) ∷ [])
      request
      router
    ≡ none
serve-outside_example =
    serve-outside protocol unset no_file 1000 login [] request router announcements-IsLawful
      unset-whole (new_request-IsValid unset 0 unset-whole).0 refl (omega arith) (omega arith)

abbrev login_response : FetchServerResponse
login_response = record { server_type = ServerType.login; server_info = login }

abbrev reply : MessageRequest
reply =
    set_message server_responses login_response (new_request unset MessageId.fetch_server_address)

-- A reply comes in the second round of three.
exchange : ℕ → Option Bytes
exchange zero = none
exchange (suc zero) = some (datagram reply)
exchange (suc (suc i)) = none

silent_above : (j : ℕ) → 1 < j → j ≤ 2 → is_silent (exchange j) ≡ true
unfolding exchange
silent_above j lt le = let e : j ≡ 2 = omega arith in rw (e) refl

rounds-Ended_example : Ended exchange 2 request (rounds exchange 2 request)
rounds-Ended_example = rounds-Ended exchange 2 request

fetch_server_address-replied_example :
    (next : ServerCommunicator) × (fetch_server_address exchange unset server_requests
        server_responses 2 new_communicator ServerType.login
      ≡ some (true, next))
    × (get_server next ServerType.login ≡ some login)
    × ((u : ℕ) → u ≢ ServerType.login → get_server next u ≡ get_server new_communicator u)
unfolding exchange
fetch_server_address-replied_example =
    let fresh = new_request-IsValid unset MessageId.fetch_server_address unset-whole in
    fetch_server_address-replied exchange unset server_requests server_responses 2 1
      ServerType.login (message_id (new_request unset MessageId.fetch_server_address))
      new_communicator reply login_response server_responses-IsLawful unset-whole (omega arith)
      (omega arith) (omega arith) silent_above refl
      (set_message-Carries server_responses login_response
        (new_request unset MessageId.fetch_server_address) fresh.0 (omega arith))

fetch_server_address-unanswered_example :
    (next : ServerCommunicator) × (fetch_server_address
        (λ i. none)
        unset
        server_requests
        server_responses
        2
        new_communicator
        ServerType.login
      ≡ some (true, next))
    × (get_server next ServerType.login ≡ some no_address)
unfolding typed address_of
fetch_server_address-unanswered_example =
    fetch_server_address-unanswered (λ i. none) unset server_requests server_responses 2
      ServerType.login new_communicator (record { server_type = 0; server_info = no_address })
      (omega arith) (λ j le. refl) refl
