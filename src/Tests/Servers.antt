-- ===== src/Tests/Servers.antt =====
-- The server, its table of connections and the framing of packets at concrete values.
use mmocraft.Prelude.{
  ℕ, ◌+◌, ◌≡◌, refl, true, false, some, List, [], ◌∷◌, ◌++◌, arith, drop, replicate,
}
use mmocraft.Code
use mmocraft.ConnectionKey
use mmocraft.Player.{Player, PlayerType, new_player}
use mmocraft.Player.Session.{State}
use mmocraft.Buffer.LockFree.{LockFreeData}
use mmocraft.Packet.Field.{Bytes}
use mmocraft.Packet.Id
use mmocraft.Framing.{Handler, process_packets, process}
use mmocraft.Framing.Laws.{Processed, process_packets_lem}
use mmocraft.Framing.Segments.{process_packets-append}
use mmocraft.Connection
use mmocraft.Connection.{Connection, new_connection}
use mmocraft.Environment.{ConnectionEnvironment, try_acquire_connection, is_expired}
use mmocraft.Environment.Invariant.{IsValid, occupied}
use mmocraft.Environment.Keys.{try_acquire_connection_lem}
use mmocraft.Server.{Server}
use mmocraft.Server.Run
use mmocraft.Server.Run.{Event, run, start, run-IsValid, disconnect-IsValid, accept-IsValid}
use mmocraft.Server.Logout.{logouts-run}

-- A handler that counts the packets.
abbrev count_packets : Handler ℕ
count_packets s bytes = (s + 1, Code.success)

-- A ping, and a chat message that is not complete.
abbrev bytes : Bytes
bytes = 1 ∷ 13 ∷ 5 ∷ []

process_packets_lem_example :
    Processed count_packets 0 0 bytes 0 (process_packets count_packets 0 0 bytes)
process_packets_lem_example = process_packets_lem count_packets 0 0 bytes

process_packets-append_example :
    let first = process_packets count_packets 0 0 (1 ∷ []) in
    let later =
      process_packets count_packets first.state 0 (drop first.parsed (1 ∷ []) ++ (1 ∷ 1 ∷ [])) in
    process_packets count_packets 0 0 ((1 ∷ []) ++ (1 ∷ 1 ∷ [])) ≡ record {
      state = later.state;
      last_error = later.last_error;
      parsed = first.parsed + later.parsed;
    }
unfolding process_packets process Id.parse_packet Code.is_packet_handle_success
process_packets-append_example =
    process_packets-append count_packets 0 0 (1 ∷ []) (1 ∷ 1 ∷ []) (λ s bs ext h k. refl) refl

abbrev send_data : LockFreeData
send_data = record { mem = 0 ∷ 0 ∷ []; data_head = 0; data_tail = 0 }

abbrev connection : Connection
connection = new_connection (ConnectionKey.make 0 7) send_data 7

abbrev environment : ConnectionEnvironment
environment = record {
  table =
      record { used = true; will_delete = false; connection = some connection; created_at = 7 }
      ∷ [];
  num_of_connections = 1;
}

environment-IsValid : IsValid environment
unfolding new_connection ConnectionKey.index ConnectionKey.make ConnectionKey.created_at
environment-IsValid = record {
  entries = (occupied connection refl refl refl refl refl, tt);
  count = refl;
  small = omega arith;
}

try_acquire_connection_lem_example :
    (connection.key ≡ ConnectionKey.make 0 7) × (connection.is_online ≡ true)
unfolding try_acquire_connection is_expired new_connection ConnectionKey.index ConnectionKey.make
    ConnectionKey.created_at
try_acquire_connection_lem_example =
    try_acquire_connection_lem environment (ConnectionKey.make 0 7) connection environment-IsValid
      (omega arith) (omega arith) refl

abbrev player : Player
player = record (new_player PlayerType.guest (replicate 17 0) 7 (b'a' ∷ [])) {
  state = record { prev = State.initialized; cur = State.handshaking; next = State.handshaked };
}

abbrev events : List Event
events = Run.accepted send_data 7 ∷ Run.joined 0 player ∷ Run.disconnected 0 9 ∷ []

run-IsValid_example : IsValid (run events (start 2)).env
run-IsValid_example = run-IsValid 2 events (omega arith)

abbrev server : Server
server = record { env = environment; logouts = []; last_error = 0; clean_at = 0 }

logouts-run_example : (run events (start 2)).logouts ≡ []
logouts-run_example = logouts-run 2 events

abbrev joined_connection : Connection
joined_connection = Connection.set_player connection player
