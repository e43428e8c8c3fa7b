-- ===== src/World/Session/Moves.antt =====
-- The graph of the states of a session, and the step along it that each event takes.
use mmocraft.Prelude.{
  ℕ, ◌+◌, ◌-◌, ◌%◌, ◌^◌, ◌≡◌, refl, ◌≢◌, ◌⊎◌, inl, inr, Bool, true, false, arith, ltb, ◌==◌,
  Bool-cases,
}
use mmocraft.Player.{
  Player, set_spawn_coordinate, set_spawn_orientation, set_spawn_position,
  decrease_pending_extension_count,
}
use mmocraft.Player.Session.{at_least, State, PlayerState, transit_state, prepare_state_transition}
use mmocraft.World.Session.{
  disconnect, Spawn, Event, began, answered, level_sent, spawned_to, saved, ext_entry, ticked,
  disconnected, transit_from, transit_player_state, begin_handshake, count_ext_entry, step,
}

-- A state that is left for the planned one.
pub data Pending : State → State → Type 0 where
  handshake : Pending State.handshaking State.handshaked
  ex_handshake : Pending State.ex_handshaking State.ex_handshaked
  extensions : Pending State.extension_syncing State.extension_synced
  level : Pending State.level_initializing State.level_initialized
  spawn : Pending State.spawning State.spawned
  teardown : Pending State.disconnecting State.disconnected

-- The events that make the transition that is planned, if the session waits for `entries` more
-- extensions: the entry of an extension does so only if it is the last one.
pub data Completes (entries : ℕ) : Event → Type 0 where
  by_answer : Completes entries answered
  by_level : Completes entries level_sent
  by_spawn : Completes entries spawned_to
  by_save : Completes entries saved
  by_entry : (entries + 2 ^ 32 - 1) % 2 ^ 32 ≡ 0 → Completes entries ext_entry

-- The states that a tick leaves, whatever it sends.
abbrev pub is_left_by_tick : State → Bool
is_left_by_tick State.handshaked = true
is_left_by_tick State.extension_synced = true
is_left_by_tick State.level_initialized = true
is_left_by_tick State.invaild = false
is_left_by_tick State.initialized = false
is_left_by_tick State.handshaking = false
is_left_by_tick State.ex_handshaking = false
is_left_by_tick State.ex_handshaked = false
is_left_by_tick State.extension_syncing = false
is_left_by_tick State.level_initializing = false
is_left_by_tick State.spawning = false
is_left_by_tick State.spawned = false
is_left_by_tick State.disconnecting = false
is_left_by_tick State.disconnected = false

-- The step that a session takes for an event, if it waits for `entries` more extensions and `next` is
-- planned.
pub data Moves (entries : ℕ) (next : State) : Event → State → State → Type 0 where
  planned :
      {e : Event} {a : State} → Completes entries e → Pending a next → Moves entries next e a next
  not_planned : {e : Event} → Completes entries e → Moves entries next e next next
  more_entries :
      {a : State} → (entries + 2 ^ 32 - 1) % 2 ^ 32 ≢ 0 → Moves entries next ext_entry a a
  syncs :
      {w : Spawn} {now : ℕ}
      → Moves entries next (ticked w true now) State.ex_handshaked State.extension_syncing
  not_sent :
      {w : Spawn} {now : ℕ}
      → Moves entries next (ticked w false now) State.ex_handshaked State.ex_handshaked
  loads :
      {w : Spawn} {sent : Bool} {now : ℕ}
      → Moves entries next (ticked w sent now) State.handshaked State.level_initializing
  loads_synced :
      {w : Spawn} {sent : Bool} {now : ℕ}
      → Moves entries next (ticked w sent now) State.extension_synced State.level_initializing
  spawns :
      {w : Spawn} {sent : Bool} {now : ℕ}
      → Moves entries next (ticked w sent now) State.level_initialized State.spawning
  waits :
      {w : Spawn} {sent : Bool} {now : ℕ} {a : State}
      → is_left_by_tick a ≡ false
      → a ≢ State.ex_handshaked
      → Moves entries next (ticked w sent now) a a
  begins : {new : Player} {a : State} → Moves entries next (began false new) a State.handshaking
  ex_begins :
      {new : Player} {a : State} → Moves entries next (began true new) a State.ex_handshaking
  leaves :
      {a : State}
      → at_least a State.handshaking ≡ true
      → Moves entries next disconnected a State.disconnecting
  ignored : {a : State} → at_least a State.handshaking ≡ false → Moves entries next disconnected a a

-- Nothing is planned, or a transition of the graph.
abbrev pub IsPlanned : PlayerState → Type 0
IsPlanned s = (s.next ≡ s.cur) ⊎ Pending s.cur s.next

transit-Moves :
    (entries : ℕ) (e : Event) (s : PlayerState)
    → Completes entries e
    → IsPlanned s
    → Moves entries s.next e s.cur s.next × IsPlanned (transit_state s)
unfolding transit_state
transit-Moves entries e s by (inl same) = (rw same (not_planned by), inl refl)
transit-Moves entries e s by (inr p) = (planned by p, inl refl)

same_spawn :
    (p : Player) (x y z yaw pitch : ℕ)
    → (set_spawn_orientation (set_spawn_coordinate p x y z false) yaw pitch false).state ≡ p.state
unfolding set_spawn_orientation set_spawn_coordinate set_spawn_position
same_spawn p x y z yaw pitch = ground arith

same_count : (p : Player) → (decrease_pending_extension_count p).state ≡ p.state
unfolding decrease_pending_extension_count
same_count p = ground arith

-- A tick takes a session along the graph.
transit_from-Moves :
    (c : State) (w : Spawn) (sent : Bool) (now : ℕ) (p : Player)
    → p.state.cur ≡ c
    → IsPlanned p.state
    → Moves p.pending_extension_count p.state.next
        (ticked w sent now)
        c
        (transit_from c w sent now p).0.state.cur
      × IsPlanned (transit_from c w sent now p).0.state
unfolding transit_from prepare_state_transition
transit_from-Moves State.ex_handshaked w true now p e v = (syncs, inr extensions)
transit_from-Moves State.ex_handshaked w false now p e v = (rw e not_sent, v)
transit_from-Moves State.handshaked w sent now p e v = (loads, inr level)
transit_from-Moves State.extension_synced w sent now p e v = (loads_synced, inr level)
transit_from-Moves State.level_initialized w sent now p e v = (spawns, inr spawn)
transit_from-Moves State.spawned w sent now p e v =
    elim (Bool-cases (ltb (p.last_ping_time + 5000) now)) [
      | inl due ↦ rw due (rw e (waits refl (λ f. absurd cc)), v)
      | inr early ↦ rw early (rw e (waits refl (λ f. absurd cc)), v)
    ]
transit_from-Moves State.disconnecting w sent now p e v = (rw e (waits refl (λ f. absurd cc)), v)
transit_from-Moves State.disconnected w sent now p e v = (rw e (waits refl (λ f. absurd cc)), v)
transit_from-Moves State.invaild w sent now p e v = (rw e (waits refl (λ f. absurd cc)), v)
transit_from-Moves State.initialized w sent now p e v = (rw e (waits refl (λ f. absurd cc)), v)
transit_from-Moves State.handshaking w sent now p e v = (rw e (waits refl (λ f. absurd cc)), v)
transit_from-Moves State.ex_handshaking w sent now p e v = (rw e (waits refl (λ f. absurd cc)), v)
transit_from-Moves State.extension_syncing w sent now p e v =
    (rw e (waits refl (λ f. absurd cc)), v)
transit_from-Moves State.level_initializing w sent now p e v =
    (rw e (waits refl (λ f. absurd cc)), v)
transit_from-Moves State.spawning w sent now p e v = (rw e (waits refl (λ f. absurd cc)), v)

pub step-Moves :
    (e : Event) (p : Player)
    → IsPlanned p.state
    → Moves p.pending_extension_count p.state.next e p.state.cur (step e p).state.cur
      × IsPlanned (step e p).state
unfolding step decrease_pending_extension_count transit_state prepare_state_transition
    begin_handshake count_ext_entry transit_player_state disconnect
step-Moves (began true new) p v = (ex_begins, inr ex_handshake)
step-Moves (began false new) p v = (begins, inr handshake)
step-Moves answered p v = transit-Moves p.pending_extension_count answered p.state by_answer v
step-Moves level_sent p v = transit-Moves p.pending_extension_count level_sent p.state by_level v
step-Moves spawned_to p v = transit-Moves p.pending_extension_count spawned_to p.state by_spawn v
step-Moves saved p v = transit-Moves p.pending_extension_count saved p.state by_save v
step-Moves ext_entry p v =
    let k : ℕ = p.pending_extension_count in
    elim (Bool-cases ((k + 2 ^ 32 - 1) % 2 ^ 32 == 0)) [
      | inl last ↦
          rw last
            (rw (same_count p) (transit-Moves k ext_entry p.state (by_entry (ground arith)) v))
      | inr more ↦ rw more (rw (same_count p) (more_entries (ground arith), v))
    ]
step-Moves (ticked w sent now) p v = transit_from-Moves p.state.cur w sent now p refl v
step-Moves disconnected p v = elim (Bool-cases (at_least p.state.cur State.handshaking)) [
  | inl begun ↦ rw begun (leaves begun, inr teardown)
  | inr fresh ↦ rw fresh (ignored fresh, v)
]
