-- ===== src/Server/Answer/Validity.antt =====
-- The login server's answers keep the table of connections valid.
use mmocraft.Prelude.{ℕ, none, some}
use mmocraft.Code
use mmocraft.ConnectionKey
use mmocraft.Player.{Player, PlayerGamedata}
use mmocraft.Packet.Chat
use mmocraft.Connection.{Connection}
use mmocraft.Server.{Server, update}
use mmocraft.Login.{Reply, found, document_not_found, failed}
use mmocraft.Server.Answer.{kick, on_player, enter_with}

abbrev loaded_as : Server → ℕ → Connection → Reply PlayerGamedata → ℕ → Server
loaded_as s i c failed now = kick s i c Code.player_login_fail now
loaded_as s i c document_not_found now = update s i (on_player (enter_with none))
loaded_as s i c (found gamedata) now = update s i (on_player (enter_with (some gamedata)))
