-- ===== src/Code.antt =====
-- logging/error.h: error codes and the verdict on a packet.
pub mod Messages
use mmocraft.Prelude.{ℕ, Bool, ◌||◌, ◌==◌}

abbrev pub success : ℕ
success = 0

abbrev pub client_connection_limit : ℕ
client_connection_limit = 1000

abbrev pub invalid_packet_id : ℕ
invalid_packet_id = 3001

abbrev pub unimplemented_packet_id : ℕ
unimplemented_packet_id = 3002

abbrev pub insuffient_packet_data : ℕ
insuffient_packet_data = 3003

abbrev pub invalid_protocol_version : ℕ
invalid_protocol_version = 3101

abbrev pub improper_username_length : ℕ
improper_username_length = 3102

abbrev pub improper_username_format : ℕ
improper_username_format = 3103

abbrev pub improper_password_length : ℕ
improper_password_length = 3104

abbrev pub player_login_fail : ℕ
player_login_fail = 3301

abbrev pub player_not_exist : ℕ
player_not_exist = 3302

abbrev pub player_already_login : ℕ
player_already_login = 3303

-- ResultCode::is_packet_handle_success
unfoldable pub is_packet_handle_success : ℕ → Bool
is_packet_handle_success code = code == success || code == insuffient_packet_data
