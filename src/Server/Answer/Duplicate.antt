-- ===== src/Server/Answer/Duplicate.antt =====
-- A player that logs in from a second connection.
use mmocraft.Prelude.{
  ℕ, ◌≡◌, refl, sym, ap, ◌∙◌, ◌≢◌, true, some, inl, inr, ◌+◌, ◌≤◌, ◌<◌, ◌++◌, length, arith,
}
use mmocraft.Code
use mmocraft.ConnectionKey
use mmocraft.Player.{Player, PlayerType}
use mmocraft.Player.Session.{State, at_least, prepare_state_transition}
use mmocraft.Packet.Field.{Bytes}
use mmocraft.Packet.Chat
use mmocraft.Buffer.LockFree
use mmocraft.Buffer.LockFree.{LockFreeData, push-Pushed}
use mmocraft.Packet.Length.{lengths}
use mmocraft.Connection.{Connection}
use mmocraft.Environment.{try_acquire_connection}
use mmocraft.Server.{Server, update, disconnect, needs_teardown, start_teardown}
use mmocraft.Server.Answer.{
  HandshakeResponse, answer_login, kick, kick_previous, push_packet, on_player, identify, text_of,
}
use mmocraft.Server.Answer.Acquire.{try_acquire-update, try_acquire-update_ne}

-- A kick of an online connection whose player has begun its handshake.
kick_started :
    (s : Server) (i error now : ℕ) (c : Connection)
    → c.is_online ≡ true
    → needs_teardown c ≡ true
    → let packet = Chat.write_disconnect_player (text_of error) in
      kick s i c error now ≡ update (update s i (push_packet packet)) i start_teardown
unfolding kick disconnect push_packet needs_teardown
kick_started s i error now c on started = rw (kick, disconnect, on, started) refl

answered :
    (s : Server) (msg : HandshakeResponse) (now : ℕ) (c : Connection)
    → msg.error_code ≡ Code.success
    → try_acquire_connection s.env msg.connection_key ≡ some c
    → (answer_login s msg now).0
      ≡ kick_previous
          (update s
            (ConnectionKey.index msg.connection_key)
            (on_player (identify msg.player_type msg.player_uuid)))
          msg.prev_connection_key
          now
unfolding answer_login
answered s msg now c good mine = rw (answer_login, mine, good) refl

previous :
    (s : Server) (key now : ℕ) (prev : Connection)
    → try_acquire_connection s.env key ≡ some prev
    → kick_previous s key now ≡ kick s (ConnectionKey.index key) prev Code.player_already_login now
unfolding kick_previous
previous s key now prev theirs = rw (kick_previous, theirs) refl

identified :
    (type : PlayerType) (uuid : Bytes) (c : Connection) (p : Player)
    → c.player ≡ some p
    → on_player (identify type uuid) c
      ≡ record c { player = some (record p { player_type = type; uuid = uuid }) }
unfolding identify
identified type uuid c p h = rw (on_player, h) refl

torn_down :
    (packet : Bytes) (c : Connection) (q : Player)
    → c.player ≡ some q
    → start_teardown (push_packet packet c) ≡ record c {
      send_data = (LockFree.push c.send_data packet).0;
      player = some (record q {
        state = prepare_state_transition q.state State.disconnecting State.disconnected;
      });
    }
unfolding start_teardown push_packet
torn_down packet c q h = rw (start_teardown, h) refl

-- The packet that says why a player is disconnected has a fixed size, and is sent whole or not at all.
delivered :
    (d : LockFreeData) (text : Bytes)
    → LockFree.IsValid d
    → let packet = Chat.write_disconnect_player text in
      (d.data_tail + 65 ≤ LockFree.capacity d
        → LockFree.contents (LockFree.push d packet).0 ≡ LockFree.contents d ++ packet)
      × (LockFree.capacity d < d.data_tail + 65
          → LockFree.contents (LockFree.push d packet).0 ≡ LockFree.contents d)
delivered d text v =
    let packet = Chat.write_disconnect_player text in
    let size : length packet ≡ 65 = unfold Chat.write_disconnect_player in omega lengths in
    let (pushed, fits, same, valid) = push-Pushed d packet v in
    elim pushed [
      | inl (done, appended) ↦
          let room = fits.0 done in (λ h. appended, λ h. absurd (omega (arith, size, room)))
      | inr (refused, kept) ↦ (
        λ h.
            let room : (LockFree.push d packet).1 ≡ true = fits.1 (omega (arith, size)) in
            absurd cc,
        λ h. kept,
      )
    ]

-- Once the login server accepts a player that is connected already, the new connection has the type
-- and the identity of the answer; and the earlier connection, online in another slot with a player
-- that has begun its handshake, is handed to the world to be torn down. The packet that says so is
-- behind the other bytes of its send buffer, if the 65 bytes of the packet fit there; else its send
-- buffer keeps what it has, and the connection is torn down all the same.
pub answer_login-duplicate :
    (s : Server) (msg : HandshakeResponse) (now : ℕ) (c prev : Connection) (p q : Player)
    → msg.error_code ≡ Code.success
    → ConnectionKey.index msg.connection_key ≢ ConnectionKey.index msg.prev_connection_key
    → try_acquire_connection s.env msg.connection_key ≡ some c
    → try_acquire_connection s.env msg.prev_connection_key ≡ some prev
    → c.player ≡ some p
    → prev.player ≡ some q
    → prev.is_online ≡ true
    → at_least q.state.cur State.handshaking ≡ true
    → LockFree.IsValid prev.send_data
    → let after = (answer_login s msg now).0 in
      let packet = Chat.write_disconnect_player (text_of Code.player_already_login) in
      (try_acquire_connection after.env msg.connection_key
        ≡ some (record c {
          player = some (record p { player_type = msg.player_type; uuid = msg.player_uuid });
        }))
      × (try_acquire_connection after.env msg.prev_connection_key
          ≡ some (record prev {
            send_data = (LockFree.push prev.send_data packet).0;
            player = some (record q {
              state = prepare_state_transition q.state State.disconnecting State.disconnected;
            });
          }))
      × (prev.send_data.data_tail + 65 ≤ LockFree.capacity prev.send_data
          → LockFree.contents (LockFree.push prev.send_data packet).0
            ≡ LockFree.contents prev.send_data ++ packet)
      × (LockFree.capacity prev.send_data < prev.send_data.data_tail + 65
          → LockFree.contents (LockFree.push prev.send_data packet).0
            ≡ LockFree.contents prev.send_data)
unfolding needs_teardown
answer_login-duplicate s msg now c prev p q good apart mine theirs at_c at_prev on started v =
    let i : ℕ = ConnectionKey.index msg.connection_key in
    let j : ℕ = ConnectionKey.index msg.prev_connection_key in
    let packet : Bytes = Chat.write_disconnect_player (text_of Code.player_already_login) in
    let s1 : Server = update s i (on_player (identify msg.player_type msg.player_uuid)) in
    let s2 : Server = update s1 j (push_packet packet) in
    let theirs1 : try_acquire_connection s1.env msg.prev_connection_key ≡ some prev =
      try_acquire-update_ne s i msg.prev_connection_key
        (on_player (identify msg.player_type msg.player_uuid)) apart
      ∙ theirs in
    let apart' : j ≢ i = λ e. apart (sym e) in
    let begun : needs_teardown prev ≡ true = rw (needs_teardown, at_prev) started in
    let after =
      answered s msg now c good mine
      ∙ previous s1 msg.prev_connection_key now prev theirs1
      ∙ kick_started s1 j Code.player_already_login now prev on begun in
    let new_one =
      try_acquire-update_ne s2 j msg.connection_key start_teardown apart'
      ∙ try_acquire-update_ne s1 j msg.connection_key (push_packet packet) apart'
      ∙ try_acquire-update s msg.connection_key
          (on_player (identify msg.player_type msg.player_uuid)) c mine
      ∙ ap some (identified msg.player_type msg.player_uuid c p at_c) in
    let old_one =
      try_acquire-update s2 msg.prev_connection_key start_teardown (push_packet packet prev)
        (try_acquire-update s1 msg.prev_connection_key (push_packet packet) prev theirs1)
      ∙ ap some (torn_down packet prev q at_prev) in
    let (sent, unsent) = delivered prev.send_data (text_of Code.player_already_login) v in
    rw after (new_one, old_one, sent, unsent)
