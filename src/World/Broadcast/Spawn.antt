-- ===== src/World/Broadcast/Spawn.antt =====
-- World::spawn_player of game/world.cpp: who is told of whom.
use mmocraft.Prelude.{ℕ, ◌≡◌, true, false, none, some, List, [], ◌==◌, get_elem?}
use mmocraft.ConnectionKey
use mmocraft.Connection.{Connection}
use mmocraft.Environment.{ConnectionEntry, Table}
use mmocraft.Server.Answer.Acquire.{changed}
use mmocraft.Packet.Size
use mmocraft.Packet.Movement.{serialize_spawn}
use mmocraft.Player.{Player}
use mmocraft.World.Broadcast.{transited}
use mmocraft.World.Broadcast.Delivery.{sent_to, Online}

-- The key of each player that is online leads back to the player's slot.
abbrev pub AreKeyed : Table → Type 0
AreKeyed t =
    (i : ℕ) (e : ConnectionEntry) (c : Connection) (p : Player)
    → get_elem? t i ≡ some e
    → e.will_delete ≡ false
    → e.connection ≡ some c
    → c.player ≡ some p
    → (ConnectionKey.index p.connection_key ≡ i)
      × ((ConnectionKey.created_at p.connection_key == e.created_at) ≡ true)

-- What spawn_player leaves of the table `t`: `olds` and `news` are the players, `is_old` and `is_new`
-- the slots.
pub record Told (olds news : List Player) (is_old is_new : ℕ → Type 0) (t t' : Table) : Type 0 where
  pub newcomers :
      (j : ℕ) (o : Online t j)
      → is_new j
      → get_elem? t' j
        ≡ some (changed (sent_to (serialize_spawn olds news) (some transited) none) o.entry)
  pub residents :
      (j : ℕ) (o : Online t j)
      → is_old j
      → get_elem? t' j ≡ some (changed (sent_to (serialize_spawn [] news) none none) o.entry)
  pub others : (j : ℕ) → (is_old j → ⊥) → (is_new j → ⊥) → get_elem? t' j ≡ get_elem? t j
