-- ===== src/Connection.antt =====
-- net/connection.h and net/connection.cpp class Connection. Its socket and receive buffer are not
-- part of the record; its send buffer is. Ticks of the clock are arguments.
use mmocraft.Prelude.{
  ℕ, ◌+◌, ◌*◌, Bool, true, false, not, ◌&&◌, Option, none, some, leb, if◌then◌else◌,
}
use mmocraft.Player.{Player}
use mmocraft.Buffer.LockFree.{LockFreeData}

pub record Connection : Type 0 where
  pub key : ℕ
  pub is_online : Bool
  pub last_offline_tick : ℕ
  pub last_interaction_tick : ℕ
  pub last_error : ℕ
  pub player : Option Player
  pub send_data : LockFreeData

abbrev pub required_for_expire : ℕ
required_for_expire = 60 * 1000

abbrev pub required_for_secure_deletion : ℕ
required_for_secure_deletion = 5 * 1000

-- The constructor, with the send buffer that the I/O service assigns.
unfoldable pub new_connection : ℕ → LockFreeData → ℕ → Connection
new_connection key send_data now = record {
  key = key;
  is_online = true;
  last_offline_tick = 0;
  last_interaction_tick = now;
  last_error = 0;
  player = none;
  send_data = send_data;
}

unfoldable pub is_expired : Connection → ℕ → Bool
is_expired c now = leb (c.last_interaction_tick + required_for_expire) now

unfoldable pub is_safe_delete : Connection → ℕ → Bool
is_safe_delete c now =
    not c.is_online && leb (c.last_offline_tick + required_for_secure_deletion) now

unfoldable pub try_interact_with_client : Connection → ℕ → Connection × Bool
try_interact_with_client c now =
    if c.is_online then (record c { last_interaction_tick = now }, true) else (c, false)

unfoldable pub set_player : Connection → Player → Connection
set_player c p = record c { player = some p }
