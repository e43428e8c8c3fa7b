-- ===== src/Lib.antt =====
-- A model of the MMO server mmocraft, whose program is in mmocraft/, and what holds of it.
--
-- The program accepts TCP connections and keeps them in a table, receives bytes into a buffer
-- for each, cuts them into packets of the Minecraft classic protocol, hands each packet to a
-- handler, and runs the tasks of a world, which send what players did to the other players. A
-- connection is named by a 64-bit key, its slot and the tick of its creation, so that an old
-- key does not reach the next holder of the slot. A player that disconnects is marked for the
-- world, which is to save it. Servers of the game, of the log-ins and of the chat find each
-- other through a router, and send each other datagrams: the game server forwards a client's
-- handshake to the login server, whose answer lets the player in or has it kicked.
--
-- Which file models what:
-- - Code: mmocraft/logging/error.h, the result codes.
-- - ConnectionKey: mmocraft/net/connection_key.h.
-- - Player, and below it Session (PlayerState), Position (PlayerPosition) and Name:
--   mmocraft/game/player.h, mmocraft/game/player.cpp and mmocraft/util/string_util.h.
-- - Packet: mmocraft/net/packet.h, mmocraft/net/packet.cpp, mmocraft/net/packet_id.h and
--   mmocraft/net/packet_extension.h, with a module for each kind of packet; Field has the
--   readers and writers of fields, Movement the positions that are sent to clients, with a
--   client that follows the protocol in Movement/Client.
-- - Buffer: mmocraft/io/io_event.h and mmocraft/io/io_event.cpp (Recv, Send, LockFree) and
--   mmocraft/util/double_buffering.h (Double). Memory has the blocks of memory they stand on.
--   Below LockFree, Threads has the steps of the threads that push and of the send event, with
--   what holds of their interleavings in Safety, Bounds and Race.
-- - Framing: Connection::process_packets of mmocraft/net/connection.cpp, over any handler and
--   any state of it.
-- - Receiving: IoRecvEvent::on_event_complete of mmocraft/io/io_event.cpp, with
--   Connection::handle_io_event and on_complete of mmocraft/net/connection.cpp;
--   Receiving/Stream has segments that arrive one after the other.
-- - GameServer: the packet handlers of mmocraft/net/game_server.cpp; Local, Blocks and Errors
--   have what holds of them.
-- - Connection: the other state of mmocraft/net/connection.h and mmocraft/net/connection.cpp.
-- - ConnectionIo: ConnectionIO of mmocraft/net/connection.h and mmocraft/net/connection.cpp,
--   with the events of mmocraft/io/io_event.cpp that it posts; Ownership and Runs follow the
--   multicast events, Counts and Accounts how often they are taken and finished, Order has what
--   a flush asks for, Multicast what becomes of data.
-- - Environment: mmocraft/net/connection_environment.h and
--   mmocraft/net/connection_environment.cpp.
-- - Server: what changes the table: mmocraft/net/tcp_server.cpp, Connection::disconnect and
--   GameServer::on_disconnect. Server/Run has the histories of a server.
-- - Task: mmocraft/io/task.h.
-- - World/ChatTask, World/PlayerTask and World/BlockTask: mmocraft/game/world_task.h.
-- - World/BlockHistory: mmocraft/game/history_buffer.h, mmocraft/game/history_buffer.cpp and
--   World::commit_block_changes of mmocraft/game/world.cpp.
-- - World/FlatWorld: WorldGenerator::generate_flat_world of mmocraft/game/world_generator.cpp.
-- - World/Broadcast: the sends of mmocraft/game/world.cpp and select_players of
--   mmocraft/net/connection_environment.cpp; Delivery has whom a send reaches, Slice the
--   packets that are cut out, Spawn who is told of whom.
-- - World/Session: the states of a session as World::tick of mmocraft/game/world.cpp and the
--   handlers of mmocraft/net/game_server.cpp change them; Session/Moves has their graph,
--   Session/Progress what a session has been through.
-- - ObjectPool: mmocraft/win/object_pool.h; Slots finds free slots, Allocation and Creation
--   have what is handed out. Global has the pools that are found by identifiers: Ownership
--   follows an object, Exhausted more pools than there are indices.
-- - UdpMessage: mmocraft/net/udp_message.h, mmocraft/net/udp_message.cpp and
--   mmocraft/net/message_id.h; Transfer has a message on its way.
-- - Communicator: mmocraft/net/server_communicator.h, mmocraft/net/server_communicator.cpp and
--   UdpServer of mmocraft/net/udp_server.cpp; Retry has the requests that are repeated, and
--   Retry/Fetch the fetch of an address.
-- - Router: mmocraft-router/net/route_server.cpp and load_server_config of
--   mmocraft-router/config/config.cpp; Router/Directory has what it knows as a function, with
--   one message in Steps, the event loop in Run, and what leaves the table in Outside.
-- - Login: mmocraft-login/net/login_server.cpp; Verdict has who is let in, Sessions what a
--   second log-in is told.
-- - Server/Answer: GameServer::handle_handshake_response_message of
--   mmocraft/net/game_server.cpp, in its two parts before and behind the wait for the database,
--   with Connection::kick; Acquire follows a change of a connection through the keys, Duplicate
--   has a player that logs in twice, Validity the table of connections.
-- - Code/Messages: mmocraft/logging/error.cpp.
-- - ChatCommand: mmocraft-chat/net/chat_command.h and mmocraft-chat/net/chat_command.cpp;
--   Tokens has the words of a command.
-- - IntervalTask: mmocraft/util/interval_task.h; Turns has how often a task is invoked.
-- - Prelude: lists over the native numbers, tests into Bool and the library's names.
-- - Tests: the theorems at concrete values.
--
-- Bytes, characters and machine integers are natural numbers; where the source wraps around,
-- the wrap is written out as a remainder. Ticks of the clock are arguments. A pointer into a
-- buffer is what is left of the list of its bytes. A parser returns none where the source would
-- read past the buffer. A Connection that the source reaches by reference is named by its slot
-- in the table.
--
-- The loop of process_packets runs on fuel, one round more than there are bytes; every round
-- but the last takes at least one byte, so the fuel is never used up. Every other loop is
-- recursion on a list or on the number of rounds that are left.
--
-- A step of the send buffer without locks is one access to its tail, one copy, or one step of
-- its send event; its transfer reads the memory at one instant. The compare-exchange of push
-- may fail at any time, as the weak one of C++ may. Left out are the operating system's
-- sockets, completion ports, handles and files, zlib, SQL, logging, and what the chat server
-- does around its commands. The database of the log-ins is a parameter: a session that was
-- stored is found, and storing it changes no log-in. Protocol Buffers are a parameter, a codec
-- for each type of messages: a message is read from its own bytes.
pub mod Prelude
pub mod Code
pub mod ConnectionKey
pub mod Player
pub mod Packet
pub mod Buffer
pub mod Connection
pub mod ConnectionIo
pub mod Environment
pub mod Server
pub mod Task
pub mod Framing
pub mod Receiving
pub mod World
pub mod ObjectPool
pub mod GameServer
pub mod UdpMessage
pub mod Communicator
pub mod Router
pub mod Login
pub mod ChatCommand
pub mod IntervalTask
pub mod Tests
