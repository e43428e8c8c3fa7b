-- ===== src/Communicator/ServerType.antt =====
-- The enum server_type_id of proto/protocol.proto.
use mmocraft.Prelude.{ℕ}

abbrev pub game : ℕ
game = 0

abbrev pub router : ℕ
router = 1

abbrev pub chat : ℕ
chat = 2

abbrev pub login : ℕ
login = 3

abbrev pub total_count : ℕ
total_count = 4
