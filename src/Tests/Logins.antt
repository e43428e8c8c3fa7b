-- ===== src/Tests/Logins.antt =====
-- Log-ins at concrete values.
use mmocraft.Prelude.{
  ℕ, ◌≡◌, refl, ◌≢◌, true, false, Option, none, some, [], ◌∷◌, arith, if◌then◌else◌, replicate, ◌+◌,
  ◌≤◌, ◌<◌, ◌++◌,
}
use mmocraft.Code
use mmocraft.ConnectionKey
use mmocraft.Player.{Player, PlayerType, new_player}
use mmocraft.Player.Session.{State, prepare_state_transition}
use mmocraft.Packet.Chat
use mmocraft.Packet.Extension.{bytes_eq}
use mmocraft.Buffer.LockFree
use mmocraft.Buffer.LockFree.{LockFreeData}
use mmocraft.Connection.{Connection, new_connection}
use mmocraft.Environment.{try_acquire_connection, is_expired}
use mmocraft.Server.{Server}
use mmocraft.Login.{
  Database, Keeps, PlayerLogin, Reply, found, document_not_found, failed, log_in, update_session,
}
use mmocraft.Login.Verdict.{Verdict, log_in-Verdict}
use mmocraft.Login.Sessions.{log_in-log_in}
use mmocraft.Server.Answer.{HandshakeResponse, answer_login, text_of}
use mmocraft.Server.Answer.Duplicate.{answer_login-duplicate}

abbrev login : PlayerLogin
login = record { password = b'p' ∷ []; identity = b'i' ∷ b'd' ∷ []; player_type = 2 }

-- The session of the one player of a database.
session_of : Option ℕ → Reply ℕ
session_of none = document_not_found
session_of (some key) = found key

abbrev database : Database (Option ℕ)
database = record {
  get_login = λ d name. if bytes_eq name (b'a' ∷ []) then found login else document_not_found;
  get_session = λ d name. session_of d;
  upsert_session = λ d name key. (some key, true);
  remove_session = λ d name. (none, true);
}

database-Keeps : Keeps database
unfolding session_of
database-Keeps = record { session = λ d name key h. refl; logins = λ d name key other. refl }

log_in-Verdict_example :
    Verdict database none (b'a' ∷ []) (b'q' ∷ []) (log_in database none 7 (b'a' ∷ []) (b'q' ∷ []))
log_in-Verdict_example = log_in-Verdict database none 7 (b'a' ∷ []) (b'q' ∷ [])

session_readable : (r : Reply ℕ) → r ≡ document_not_found → r ≢ failed
session_readable r h e = absurd (cc)

log_in-log_in_example :
    let (d1, r1) = log_in database none 7 (b'a' ∷ []) (b'p' ∷ []) in
    let r2 = (log_in database d1 8 (b'a' ∷ []) (b'p' ∷ [])).1 in
    (r2.error_code ≡ Code.success)
    × (r2.prev_connection_key ≡ 7)
    × (r2.connection_key ≡ 8)
    × (r2.player_uuid ≡ r1.player_uuid)
unfolding session_of log_in update_session bytes_eq
log_in-log_in_example =
    log_in-log_in database none 7 8 (b'a' ∷ []) (b'p' ∷ []) database-Keeps refl
      (session_readable document_not_found refl) refl

abbrev send_data : LockFreeData
send_data = record { mem = replicate 70 0; data_head = 0; data_tail = 0 }

abbrev player : Player
player = record (new_player PlayerType.guest (replicate 17 0) 7 (b'a' ∷ [])) {
  state = record { prev = State.initialized; cur = State.spawned; next = State.spawned };
}

abbrev early : Connection
early = record (new_connection (ConnectionKey.make 0 7) send_data 7) { player = some player }

abbrev late : Connection
late = record (new_connection (ConnectionKey.make 1 9) send_data 9) { player = some player }

abbrev server : Server
server = record {
  env = record {
    table =
        record { used = true; will_delete = false; connection = some early; created_at = 7 }
        ∷ record { used = true; will_delete = false; connection = some late; created_at = 9 }
        ∷ [];
    num_of_connections = 2;
  };
  logouts = [];
  last_error = 0;
  clean_at = 0;
}

abbrev answer : HandshakeResponse
answer = record {
  connection_key = ConnectionKey.make 1 9;
  prev_connection_key = ConnectionKey.make 0 7;
  error_code = 0;
  player_type = PlayerType.admin;
  player_uuid = b'i' ∷ b'd' ∷ [];
}

apart : ConnectionKey.index answer.connection_key ≢ ConnectionKey.index answer.prev_connection_key
unfolding ConnectionKey.index ConnectionKey.make
apart = omega arith

answer_login-duplicate_example :
    let after = (answer_login server answer 20).0 in
    let packet = Chat.write_disconnect_player (text_of Code.player_already_login) in
    (try_acquire_connection after.env answer.connection_key
      ≡ some (record late {
        player = some (record player { player_type = PlayerType.admin; uuid = answer.player_uuid });
      }))
    × (try_acquire_connection after.env answer.prev_connection_key
        ≡ some (record early {
          send_data = (LockFree.push early.send_data packet).0;
          player = some (record player {
            state = prepare_state_transition player.state State.disconnecting State.disconnected;
          });
        }))
    × (0 + 65 ≤ LockFree.capacity early.send_data
        → LockFree.contents (LockFree.push early.send_data packet).0
          ≡ LockFree.contents early.send_data ++ packet)
    × (LockFree.capacity early.send_data < 0 + 65
        → LockFree.contents (LockFree.push early.send_data packet).0
          ≡ LockFree.contents early.send_data)
unfolding try_acquire_connection is_expired ConnectionKey.index ConnectionKey.make
    ConnectionKey.created_at new_connection
answer_login-duplicate_example =
    answer_login-duplicate server answer 20 late early player player refl apart refl refl refl refl
      refl refl (record { ordered = omega arith; fits = omega arith })
