-- ===== src/Tests/Games.antt =====
-- The game server's handlers and the receive loop at concrete values.
use mmocraft.Prelude.{
  ℕ, ◌≤◌, ◌<◌, ◌≡◌, refl, ◌⊎◌, true, false, List, [], ◌∷◌, ◌++◌, arith, ◌==◌, if◌then◌else◌, length,
  drop, replicate,
}
use mmocraft.Code
use mmocraft.ConnectionKey
use mmocraft.Task.{new_task}
use mmocraft.Player.{PlayerType}
use mmocraft.Packet.Field.{Bytes}
use mmocraft.Packet.Id
use mmocraft.Packet.SetBlock.{PacketSetBlockClient}
use mmocraft.Buffer.Double
use mmocraft.Buffer.Double.{DoubleBuffering}
use mmocraft.Buffer.LockFree
use mmocraft.Buffer.LockFree.{LockFreeData}
use mmocraft.Buffer.Recv
use mmocraft.Buffer.Recv.{RecvData, contents, unused_size}
use mmocraft.Buffer.Memory.{write_at}
use mmocraft.Framing.{Handler, process_packets, process}
use mmocraft.Framing.Laws.{front_size}
use mmocraft.Framing.Errors.{process_packets-append_error}
use mmocraft.Connection.{new_connection}
use mmocraft.Receiving.{
  Signal, Receiver, Callbacks, on_event_complete, deliver, handle_io_event, on_complete,
}
use mmocraft.Receiving.Stream.{outcome, receive_all, receive_all_lem}
use mmocraft.GameServer.{
  GameServer, handle_packet, handle_as, packet_handler_db, handle_two_way_ping_packet, send,
  set_mode,
}
use mmocraft.GameServer.Local.{handle_packet-IsLocal}
use mmocraft.GameServer.Errors.{process_packets_errors}

abbrev small_buffer : DoubleBuffering
small_buffer = record {
  swapped = false;
  first = record { mem = replicate 8 0; buf_size = 0 };
  second = record { mem = replicate 8 0; buf_size = 0 };
}

abbrev send_data : LockFreeData
send_data = record { mem = replicate 4 0; data_head = 0; data_tail = 0 }

abbrev game : GameServer
game = record {
  conn = new_connection (ConnectionKey.make 0 7) send_data 7;
  sync_block_task = record {
    task = new_task 50;
    block_history = small_buffer;
    level_wait_players = [];
    level_wait_player_queue = [];
  };
  common_chat_transfer_task = record { task = new_task 50; common_chat_history = small_buffer };
  messages = [];
}

-- A handler that counts the packets, up to one.
abbrev count_packets : Handler ℕ
count_packets s bytes = if s == 0 then (1, Code.success) else (s, Code.unimplemented_packet_id)

process_packets-append_error_example :
    process_packets count_packets 0 0 ((1 ∷ 1 ∷ []) ++ (1 ∷ []))
    ≡ process_packets count_packets 0 0 (1 ∷ 1 ∷ [])
unfolding process_packets process Id.parse_packet Code.is_packet_handle_success
process_packets-append_error_example =
    process_packets-append_error count_packets 0 0 (1 ∷ 1 ∷ []) (1 ∷ []) (λ s bs ext h k. refl) refl
      refl

abbrev handler : Handler GameServer
handler = handle_packet PlayerType.guest []

abbrev calls : Callbacks GameServer
calls = record { handle_packet = handler; kick = λ error s. s; disconnect = λ s. s }

abbrev receiver : Receiver GameServer
receiver = record {
  server = game;
  event_data = record { mem = replicate 8 0; size = 0 };
  last_error = 0;
  is_online = true;
  last_interaction_tick = 7;
}

-- A two-way ping in two segments, the second of which holds the first byte of another.
abbrev segments : List Bytes
segments = (Id.two_way_ping ∷ 0 ∷ []) ∷ (0 ∷ 1 ∷ Id.two_way_ping ∷ []) ∷ []

abbrev whole : Bytes
whole = Id.two_way_ping ∷ 0 ∷ 0 ∷ 1 ∷ Id.two_way_ping ∷ []

receive_all_lem_example :
    ((receive_all calls 9 segments receiver).server ≡ (outcome calls game whole).state)
    × (contents (receive_all calls 9 segments receiver).event_data
        ≡ drop (outcome calls game whole).parsed whole)
    × ((receive_all calls 9 segments receiver).last_error ≡ Code.success)
unfolding receive_all on_event_complete deliver handle_io_event on_complete process_packets process
    Id.parse_packet Code.is_packet_handle_success unused_size Recv.receive Recv.push Recv.fill
    write_at handle_packet handle_as packet_handler_db Recv.pop new_connection LockFree.push
    LockFree.reserve LockFree.fill handle_two_way_ping_packet send
receive_all_lem_example =
    let room : unused_size
          (on_event_complete calls (Signal.transferred (Id.two_way_ping ∷ 0 ∷ [])) 9
            receiver).event_data
        ≡ 6 =
      refl in
    receive_all_lem calls 9 segments receiver (handle_packet-IsLocal PlayerType.guest [])
      (record { fits = omega arith; small = omega arith }) refl refl
      (record { no_step = refl; no_parse = refl; good = refl }) (omega arith, (omega arith, tt))
      refl

abbrev place : PacketSetBlockClient
place = record { x = 1; y = 2; z = 3; mode = set_mode; block_id = 4 }

process_packets_errors_example :
    let o = process_packets handler game 0 (Id.ping ∷ 99 ∷ []) in
    let rest = drop o.parsed (Id.ping ∷ 99 ∷ []) in
    (o.parsed ≤ 2)
    × (((o.last_error ≡ 0) × (length rest ≡ 0))
        ⊎ ((o.last_error ≡ Code.insuffient_packet_data) × (length rest < front_size rest))
        ⊎ ((o.last_error ≡ Code.invalid_packet_id) × (front_size rest ≡ 0)))
process_packets_errors_example =
    process_packets_errors PlayerType.guest [] game 0 (Id.ping ∷ 99 ∷ [])
