-- ===== src/World/Broadcast/Delivery.antt =====
-- Whom World::send_to_players of game/world.cpp reaches.
use mmocraft.Prelude.{
  ℕ, ◌≡◌, refl, sym, ap, ◌∙◌, ◌≢◌, inl, inr, true, false, some, List, [], ◌∷◌, ◌==◌, if◌then◌else◌,
  Bool-cases, get_elem?, Has, AreDistinct,
}
use mmocraft.ConnectionKey
use mathlib.Core.Path.{subst}
use mmocraft.Buffer.LockFree
use mmocraft.Connection.{Connection}
use mmocraft.Environment.{
  ConnectionEntry, Table, ConnectionEnvironment, connection_at, try_acquire_connection,
}
use mmocraft.Server.{update_connection}
use mmocraft.Server.Answer.Acquire.{
  get_elem?-update_entry_ne, reached, reached_lem, changed, changed_lem,
  get_elem?-update_connection,
}
use mmocraft.Player.{Player}
use mmocraft.World.Broadcast.{player_at, Callback, called, send_to_player, send_to_players}

-- What is sent to a connection: its buffer takes all of the data, and a callback is called, or
-- nothing.
unfoldable pub sent_to : List ℕ → Callback → Callback → Connection → Connection
sent_to bytes successed failed c =
    let (sent, done) = LockFree.push c.send_data bytes in
    let c' = record c { send_data = sent } in if done then called successed failed c' else c'

-- A slot that holds the connection of a player whose key leads back to the slot.
pub record Online (table : Table) (i : ℕ) : Type 0 where
  pub entry : ConnectionEntry
  pub conn : Connection
  pub player : Player
  pub here : get_elem? table i ≡ some entry
  pub live : entry.will_delete ≡ false
  pub holds : entry.connection ≡ some conn
  pub plays : conn.player ≡ some player
  pub index : ConnectionKey.index player.connection_key ≡ i
  pub age : (ConnectionKey.created_at player.connection_key == entry.created_at) ≡ true

unfoldable pub Online-same :
    (t t' : Table) (i : ℕ) → get_elem? t' i ≡ get_elem? t i → Online t i → Online t' i
Online-same t t' i e o = record {
  entry = o.entry;
  conn = o.conn;
  player = o.player;
  here = e ∙ o.here;
  live = o.live;
  holds = o.holds;
  plays = o.plays;
  index = o.index;
  age = o.age;
}

pub entry_unique :
    (t : Table) (j i : ℕ) (o : Online t i) (w : Online t j) → j ≡ i → o.entry ≡ w.entry
entry_unique t j i o w e =
    let same : some o.entry ≡ some w.entry = sym o.here ∙ ap (get_elem? t) (sym e) ∙ w.here in cc

pub player_at-Online : {t : Table} {i : ℕ} (o : Online t i) → player_at t i ≡ some o.player
player_at-Online {t} {i} o = rw (player_at, connection_at, o.here, o.holds, o.plays) refl

get_elem?-update_connection_ne :
    (i j : ℕ) (f : Connection → Connection) (t : Table)
    → i ≢ j
    → get_elem? (update_connection i f t) j ≡ get_elem? t j
unfolding update_connection
get_elem?-update_connection_ne i j f t h = get_elem?-update_entry_ne i j (changed f) t h

acquire-Online :
    (env : ConnectionEnvironment) (i : ℕ) (o : Online env.table i)
    → try_acquire_connection env o.player.connection_key ≡ some o.conn
acquire-Online env i o =
    reached_lem env o.player.connection_key (some o.entry) (rw (o.index) o.here)
    ∙ rw (reached, o.live, o.age, o.holds) refl

-- The table of a send to the connection `c` in slot `i`.
abbrev sent_table : List ℕ → Callback → Callback → ℕ → Connection → Table → Table
sent_table bytes successed failed i c t =
    let (sent, done) = LockFree.push c.send_data bytes in
    let pushed = update_connection i (λ c'. record c' { send_data = sent }) t in
    if done then update_connection i (called successed failed) pushed else pushed

module _ (bytes : List ℕ) (successed failed : Callback) where
  send_to_player-Online :
      (env : ConnectionEnvironment) (i : ℕ) (o : Online env.table i)
      → send_to_player bytes successed failed i env
        ≡ record env { table = sent_table bytes successed failed i o.conn env.table }
  unfolding send_to_player
  send_to_player-Online env i o =
      rw (send_to_player, player_at-Online o, acquire-Online env i o, o.index) refl

  sent_table-here :
      (t : Table) (i : ℕ) (o : Online t i)
      → get_elem? (sent_table bytes successed failed i o.conn t) i
        ≡ some (changed (sent_to bytes successed failed) o.entry)
  unfolding sent_to
  sent_table-here t i o =
      let sent = (LockFree.push o.conn.send_data bytes).0 in
      let push : Connection → Connection = λ c. record c { send_data = sent } in
      let after : ConnectionEntry = record (o.entry) { connection = some (push o.conn) } in
      let pushed : get_elem? (update_connection i push t) i ≡ some after =
        get_elem?-update_connection i push t o.entry o.here
        ∙ ap some (changed_lem push o.entry o.conn o.holds) in
      let goal =
        sym (ap some (changed_lem (sent_to bytes successed failed) o.entry o.conn o.holds)) in
      elim (Bool-cases (LockFree.push o.conn.send_data bytes).1) [
        | inl done ↦ simp (done) (
            get_elem?-update_connection i (called successed failed) (update_connection i push t)
              after pushed
            ∙ simp (done) at goal)
        | inr lost ↦ simp (lost) (pushed ∙ simp (lost) at goal)
      ]

  sent_table-ne :
      (t : Table) (i j : ℕ) (c : Connection)
      → i ≢ j
      → get_elem? (sent_table bytes successed failed i c t) j ≡ get_elem? t j
  sent_table-ne t i j c ne =
      let sent = (LockFree.push c.send_data bytes).0 in
      let push : Connection → Connection = λ c'. record c' { send_data = sent } in
      let pushed : get_elem? (update_connection i push t) j ≡ get_elem? t j =
        get_elem?-update_connection_ne i j push t ne in
      elim (Bool-cases (LockFree.push c.send_data bytes).1) [
        | inl done ↦ simp (done) (
            get_elem?-update_connection_ne i j (called successed failed)
              (update_connection i push t) ne
            ∙ pushed)
        | inr lost ↦ simp (lost) pushed
      ]

  -- What send_to_players leaves of the table `t`.
  abbrev pub Delivered : List ℕ → Table → Table → Type 0
  Delivered slots t t' =
      (j : ℕ)
      → ((o : Online t j)
          → Has j slots
          → get_elem? t' j ≡ some (changed (sent_to bytes successed failed) o.entry))
        × ((Has j slots → ⊥) → get_elem? t' j ≡ get_elem? t j)

  -- Data sent to distinct players that are online reaches the connection of each of them, once, and
  -- no other.
  pub send_to_players-Delivered :
      (slots : List ℕ) (env : ConnectionEnvironment)
      → AreDistinct slots
      → ((i : ℕ) → Has i slots → Online env.table i)
      → Delivered slots env.table (send_to_players bytes successed failed slots env).table
  unfolding send_to_players Online-same
  send_to_players-Delivered [] env d h = λ j. (λ o absent. absurd absent, λ out. refl)
  send_to_players-Delivered (slot ∷ slots) env d h =
      let o = h slot (inl refl) in
      let next : Table = sent_table bytes successed failed slot o.conn env.table in
      let env' : ConnectionEnvironment = record env { table = next } in
      let others : (i : ℕ) → slot ≢ i → get_elem? next i ≡ get_elem? env.table i =
        λ i ne. sent_table-ne env.table slot i o.conn ne in
      let apart : (i : ℕ) → Has i slots → slot ≢ i = λ i t e. d.0 (rw e t) in
      let online : (i : ℕ) → Has i slots → Online next i =
        λ i t. Online-same env.table next i (others i (apart i t)) (h i (inr t)) in
      let claim : Delivered (slot ∷ slots) env.table
          (send_to_players bytes successed failed slots env').table =
        λ j.
          let (reached_j, rest_j) = send_to_players-Delivered slots env' d.1 online j in
          (
            λ w m. elim m [
              | inl e ↦
                  rest_j (λ t. d.0 (rw (sym e) t))
                  ∙ rw e (sent_table-here env.table slot o)
                  ∙ ap (λ x. some (changed (sent_to bytes successed failed) x))
                      (entry_unique env.table j slot o w e)
              | inr t ↦
                  reached_j (online j t) t
                  ∙ ap (λ x. some (changed (sent_to bytes successed failed) x))
                      (entry_unique env.table j j (h j (inr t)) w refl)
            ],
            λ out. rest_j (λ t. out (inr t)) ∙ others j (λ e. out (inl (sym e))),
          ) in
      subst
        (λ e.
          Delivered (slot ∷ slots) env.table (send_to_players bytes successed failed slots e).table)
        (sym (send_to_player-Online env slot o)) claim
