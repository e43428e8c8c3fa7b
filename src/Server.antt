-- ===== src/Server.antt =====
-- The life of a connection: net/connection.cpp disconnect, kick and set_offline,
-- net/game_server.cpp on_disconnect, net/connection_environment.cpp cleanup_expired_connection and
-- net/tcp_server.cpp new_connection and handle_io_event.
pub mod Answer
pub mod Life
pub mod Run
pub mod Logout
use mmocraft.Prelude.{
  ℕ, zero, suc, ◌+◌, ◌%◌, ◌^◌, Bool, false, not, none, some, List, ◌∷◌, ltb, leb, if◌then◌else◌,
  length, get_elem?,
}
use mmocraft.Code
use mmocraft.ConnectionKey
use mmocraft.Player.{Player, username}
use mmocraft.Player.Session.{State, at_least, prepare_state_transition}
use mmocraft.Buffer.LockFree
use mmocraft.Buffer.LockFree.{LockFreeData}
use mmocraft.Connection
use mmocraft.Connection.{Connection}
use mmocraft.Environment.{
  ConnectionEntry, ConnectionEnvironment, Table, update_entry, connection_at, on_connection_create,
  on_connection_delete, on_connection_offline, get_unused_connection_id,
}

-- `logouts` are the names in the logout requests handed to the communicator, the last one first.
pub record Server : Type 0 where
  pub env : ConnectionEnvironment
  pub logouts : List (List ℕ)
  pub last_error : ℕ
  -- the expired_at of the interval task that cleans up
  pub clean_at : ℕ

-- A change of the connection in a slot.
unfoldable pub update_connection : ℕ → (Connection → Connection) → Table → Table
unfolding update_entry
update_connection i f =
    update_entry i
      λ e. elim e.connection [ none ↦ e | some c ↦ record e { connection = some (f c) } ]

abbrev pub update : Server → ℕ → (Connection → Connection) → Server
update s i f = record s { env = record (s.env) { table = update_connection i f s.env.table } }

-- Connection::set_offline of the connection in slot `i`, whose key is `key`.
unfoldable pub set_offline : Server → ℕ → ℕ → ℕ → Server
set_offline s i key now =
    let s' = update s i (λ c. record c { is_online = false; last_offline_tick = now }) in
    record s' { env = on_connection_offline s'.env key }

-- GameServer::on_disconnect
unfoldable pub on_disconnect : Server → Connection → Server
on_disconnect s c = elim c.player [
  | none ↦ s
  | some p ↦
      if at_least p.state.cur State.handshaked
      then record s { logouts = username p ∷ s.logouts }
      else s
]

-- The player of a connection is to be torn down by the world first.
unfoldable pub needs_teardown : Connection → Bool
needs_teardown c = elim c.player [ none ↦ false | some p ↦ at_least p.state.cur State.handshaking ]

unfoldable pub start_teardown : Connection → Connection
start_teardown c = elim c.player [
  | none ↦ c
  | some p ↦ record c {
    player = some (record p {
      state = prepare_state_transition p.state State.disconnecting State.disconnected;
    });
  }
]

-- Connection::disconnect of `c`, the connection in slot `i`.
unfoldable pub disconnect : Server → ℕ → Connection → ℕ → Server
disconnect s i c now =
    if not c.is_online
    then s
    else if needs_teardown c
    then update s i start_teardown
    else set_offline (on_disconnect s c) i c.key now

-- Resetting the pointer in slot `i` runs the destructor of the connection with the key, which calls
-- on_connection_delete.
unfoldable pub delete_connection : Server → ℕ → ℕ → Server
delete_connection s i key =
    let env = record (s.env) {
      table = update_entry i (λ e. record e { connection = none }) s.env.table;
    } in
    record s { env = on_connection_delete env key }

unfoldable pub cleanup_connection : Server → ℕ → Connection → ℕ → Server
cleanup_connection s i c now =
    if Connection.is_safe_delete c now
    then delete_connection s i c.key
    else if Connection.is_expired c now
    then disconnect s i c now
    else s

-- The body of the loop of cleanup_expired_connection for slot `i`; a slot that is not used holds no
-- connection that the loop reads.
unfoldable pub cleanup_slot : Server → ℕ → ℕ → Server
cleanup_slot s i now = elim (get_elem? s.env.table i) [
  | none ↦ s
  | some e ↦
      if not e.used
      then s
      else (elim e.connection [ none ↦ s | some c ↦ cleanup_connection s i c now ])
]

-- The slots from `i` on, `n` of them.
unfoldable pub cleanup_from : ℕ → ℕ → Server → ℕ → Server
cleanup_from zero i s now = s
cleanup_from (suc n) i s now = cleanup_from n (suc i) (cleanup_slot s i now) now

unfoldable pub cleanup_expired_connection : Server → ℕ → Server
cleanup_expired_connection s now = cleanup_from (length s.env.table) 0 s now

-- TcpServer::new_connection. `send_data` is the buffer that the I/O service assigns to the slot.
unfoldable pub new_connection : Server → LockFreeData → ℕ → Server
new_connection s send_data now =
    let key = ConnectionKey.make (get_unused_connection_id s.env.table) (now % 2 ^ 32) in
    record s { env = on_connection_create s.env key (Connection.new_connection key send_data now) }

-- connection_env_task.process_tasks(clean_connection), whose period is 2 seconds.
unfoldable pub process_clean_task : Server → ℕ → Server
process_clean_task s now =
    if ltb now s.clean_at
    then s
    else record (cleanup_expired_connection s now) { clean_at = now + 2000 }

-- TcpServer::handle_io_event of an accept that succeeded.
unfoldable pub accept : Server → LockFreeData → ℕ → Server
accept s send_data now =
    let s' = process_clean_task s now in
    if leb (length s'.env.table) s'.env.num_of_connections
    then record s' { last_error = Code.client_connection_limit }
    else record (new_connection s' send_data now) { last_error = Code.success }
