-- ===== src/Player.antt =====
-- game/player.h and game/player.cpp class Player, and util/string_util.h string_copy.
pub mod Session
pub mod Position
pub mod Name
use mmocraft.Prelude.{
  [], ℕ, ◌+◌, ◌-◌, ◌*◌, ◌%◌, ◌^◌, min, Bool, true, false, ◌||◌, Option, none, some, List, ◌∷◌, ◌++◌,
  ltb, leb, ◌==◌, if◌then◌else◌, length, set, take, drop, replicate,
}
use mmocraft.ConnectionKey
use Session.{PlayerState, State, fresh_state, at_least, rank}
use Position.{raw_coordinate, raw_orientation, set_raw_coordinate, set_raw_orientation}

pub data PlayerType : Type 0 where
  invalid guest authenticated_user admin : PlayerType

abbrev pub type_rank : PlayerType → ℕ
type_rank PlayerType.invalid = 0
type_rank PlayerType.guest = 1
type_rank PlayerType.authenticated_user = 2
type_rank PlayerType.admin = 3

-- database::collection::PlayerGamedata
pub record PlayerGamedata : Type 0 where
  pub latest_pos : ℕ
  pub spawn_pos : ℕ
  pub level : ℕ
  pub exp : ℕ

pub record Player : Type 0 where
  pub connection_key : ℕ
  pub player_type : PlayerType
  -- the 17 characters of `_username`
  pub name_buffer : List ℕ
  pub gamedata : PlayerGamedata
  pub uuid : List ℕ
  pub pending_extension_count : ℕ
  pub supported_extensions : List Bool
  pub last_transferred_pos : ℕ
  pub last_transferred_pos_tmp : ℕ
  pub last_ping_time : ℕ
  pub state : PlayerState

-- util::string_copy into an array of `size` characters.
unfoldable pub string_copy : ℕ → List ℕ → List ℕ → List ℕ
string_copy size dst src =
    let n = min size (length src) in set (take n src ++ drop n dst) (min (length src) (size - 1)) 0

-- The C string that starts at the cursor.
unfoldable pub c_string : List ℕ → List ℕ
c_string [] = []
c_string (c ∷ cs) = if c == 0 then [] else c ∷ c_string cs

-- The constructor. `_player_type` and `_username` are not initialised: what they hold is given.
unfoldable pub new_player : PlayerType → List ℕ → ℕ → List ℕ → Player
unfolding string_copy
new_player player_type name_buffer key username = record {
  connection_key = key;
  player_type = player_type;
  name_buffer = string_copy 17 name_buffer username;
  gamedata = record { latest_pos = 0; spawn_pos = 0; level = 0; exp = 0 };
  uuid = [];
  pending_extension_count = 0;
  supported_extensions = replicate 64 false;
  last_transferred_pos = 0;
  last_transferred_pos_tmp = 0;
  last_ping_time = 0;
  state = fresh_state;
}

unfoldable pub username : Player → List ℕ
unfolding c_string
username p = c_string p.name_buffer

-- PlayerID is 8 bits wide.
unfoldable pub game_id : Player → ℕ
game_id p = ConnectionKey.index p.connection_key % 256

unfoldable pub set_position : Player → ℕ → Player
set_position p pos = record p { gamedata = record (p.gamedata) { latest_pos = pos } }

unfoldable pub set_spawn_position : Player → ℕ → Player
set_spawn_position p pos = record p { gamedata = record (p.gamedata) { spawn_pos = pos } }

-- The numbers are `int`s by their bit patterns; 51 is the height of a player's eyes.
unfoldable pub set_spawn_coordinate : Player → ℕ → ℕ → ℕ → Bool → Player
unfolding set_spawn_position
set_spawn_coordinate p x y z force =
    if force || raw_coordinate p.gamedata.spawn_pos == 0
    then set_spawn_position p
        (set_raw_coordinate p.gamedata.spawn_pos (x * 32) (y * 32 + 51) (z * 32))
    else p

unfoldable pub set_spawn_orientation : Player → ℕ → ℕ → Bool → Player
unfolding set_spawn_position
set_spawn_orientation p yaw pitch force =
    if force || raw_orientation p.gamedata.spawn_pos == 0
    then set_spawn_position p (set_raw_orientation p.gamedata.spawn_pos yaw pitch)
    else p

unfoldable pub update_last_transferred_position : Player → ℕ → Player
update_last_transferred_position p pos = record p { last_transferred_pos_tmp = pos }

unfoldable pub commit_last_transferrd_position : Player → Player
commit_last_transferrd_position p = record p { last_transferred_pos = p.last_transferred_pos_tmp }

-- `unsigned pending_extension_count`
unfoldable pub set_extension_count : Player → ℕ → Player
set_extension_count p count = record p { pending_extension_count = count % 2 ^ 32 }

unfoldable pub decrease_pending_extension_count : Player → Player
decrease_pending_extension_count p = record p {
  pending_extension_count = (p.pending_extension_count + 2 ^ 32 - 1) % 2 ^ 32;
}

-- `none` is the exception of std::bitset::set past its 64 bits.
unfoldable pub register_extension : Player → ℕ → Option Player
register_extension p ext =
    if ltb ext 64
    then some (record p { supported_extensions = set p.supported_extensions ext true })
    else none

unfoldable pub is_support_gamedata_saving : Player → Bool
is_support_gamedata_saving p =
    leb (type_rank PlayerType.authenticated_user) (type_rank p.player_type)
    || (at_least p.state.cur State.handshaked || at_least p.state.prev State.handshaked)
