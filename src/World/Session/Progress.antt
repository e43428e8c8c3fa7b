-- ===== src/World/Session/Progress.antt =====
-- What a session has been through when it comes to a state.
use mmocraft.Prelude.{ℕ, ◌≡◌, refl, ◌⊎◌, inl, inr, Bool, true, List, [], ◌∷◌}
use mmocraft.Player.{Player}
use mmocraft.Player.Session.{at_least, State, transit_state, prepare_state_transition}
use mmocraft.World.Session.{
  disconnect, Spawn, Event, closed, level_sent, disconnected, transit_from, transit_player_state,
  step, run,
}
use mmocraft.World.Session.Moves.{
  handshake, ex_handshake, extensions, level, spawn, teardown, Moves, planned, not_planned,
  more_entries, syncs, not_sent, loads, loads_synced, spawns, waits, begins, ex_begins, leaves,
  ignored, IsPlanned, step-Moves,
}

-- Each event of a sequence moves the session along the graph.
abbrev pub IsWalk : List Event → Player → Type 0
IsWalk [] p = Unit
IsWalk (e ∷ es) p =
    Moves p.pending_extension_count p.state.next e p.state.cur (step e p).state.cur
    × IsWalk es (step e p)

-- The session is in state `c` before some event of a sequence, or behind it.
abbrev pub Passes : State → List Event → Player → Type 0
Passes c [] p = p.state.cur ≡ c
Passes c (e ∷ es) p = (p.state.cur ≡ c) ⊎ Passes c es (step e p)

run-IsPlanned :
    (es : List Event) (p : Player) → IsPlanned p.state → IsWalk es p × IsPlanned (run es p).state
unfolding run
run-IsPlanned [] p v = (tt, v)
run-IsPlanned (e ∷ es) p v =
    let (moved, v') = step-Moves e p v in
    let (walk, w) = run-IsPlanned es (step e p) v' in ((moved, walk), w)

spawning_comes :
    (entries : ℕ) (next : State) (e : Event) (a b : State)
    → Moves entries next e a b
    → b ≡ State.spawning
    → (a ≡ State.spawning) ⊎ (a ≡ State.level_initialized)
spawning_comes entries next e a b (planned by handshake) h = absurd cc
spawning_comes entries next e a b (planned by ex_handshake) h = absurd cc
spawning_comes entries next e a b (planned by extensions) h = absurd cc
spawning_comes entries next e a b (planned by level) h = absurd cc
spawning_comes entries next e a b (planned by spawn) h = absurd cc
spawning_comes entries next e a b (planned by teardown) h = absurd cc
spawning_comes entries next e a b (not_planned by) h = inl h
spawning_comes entries next e a b (more_entries more) h = inl h
spawning_comes entries next e a b (waits left other) h = inl h
spawning_comes entries next e a b (not_sent) h = absurd cc
spawning_comes entries next e a b (ignored fresh) h = inl h
spawning_comes entries next e a b (syncs) h = absurd cc
spawning_comes entries next e a b (loads) h = absurd cc
spawning_comes entries next e a b (loads_synced) h = absurd cc
spawning_comes entries next e a b (begins) h = absurd cc
spawning_comes entries next e a b (ex_begins) h = absurd cc
spawning_comes entries next e a b (leaves begun) h = absurd cc
spawning_comes entries next e a b (spawns) h = inr refl

spawned_comes :
    (entries : ℕ) (next : State) (e : Event) (a b : State)
    → Moves entries next e a b
    → b ≡ State.spawned
    → (a ≡ State.spawned) ⊎ (a ≡ State.spawning)
spawned_comes entries next e a b (planned by handshake) h = absurd cc
spawned_comes entries next e a b (planned by ex_handshake) h = absurd cc
spawned_comes entries next e a b (planned by extensions) h = absurd cc
spawned_comes entries next e a b (planned by level) h = absurd cc
spawned_comes entries next e a b (planned by spawn) h = inr refl
spawned_comes entries next e a b (planned by teardown) h = absurd cc
spawned_comes entries next e a b (not_planned by) h = inl h
spawned_comes entries next e a b (more_entries more) h = inl h
spawned_comes entries next e a b (waits left other) h = inl h
spawned_comes entries next e a b (not_sent) h = absurd cc
spawned_comes entries next e a b (ignored fresh) h = inl h
spawned_comes entries next e a b (syncs) h = absurd cc
spawned_comes entries next e a b (loads) h = absurd cc
spawned_comes entries next e a b (loads_synced) h = absurd cc
spawned_comes entries next e a b (begins) h = absurd cc
spawned_comes entries next e a b (ex_begins) h = absurd cc
spawned_comes entries next e a b (leaves begun) h = absurd cc
spawned_comes entries next e a b (spawns) h = absurd cc

disconnected_comes :
    (entries : ℕ) (next : State) (e : Event) (a b : State)
    → Moves entries next e a b
    → b ≡ State.disconnected
    → (a ≡ State.disconnected) ⊎ (a ≡ State.disconnecting)
disconnected_comes entries next e a b (planned by handshake) h = absurd cc
disconnected_comes entries next e a b (planned by ex_handshake) h = absurd cc
disconnected_comes entries next e a b (planned by extensions) h = absurd cc
disconnected_comes entries next e a b (planned by level) h = absurd cc
disconnected_comes entries next e a b (planned by spawn) h = absurd cc
disconnected_comes entries next e a b (planned by teardown) h = inr refl
disconnected_comes entries next e a b (not_planned by) h = inl h
disconnected_comes entries next e a b (more_entries more) h = inl h
disconnected_comes entries next e a b (waits left other) h = inl h
disconnected_comes entries next e a b (not_sent) h = absurd cc
disconnected_comes entries next e a b (ignored fresh) h = inl h
disconnected_comes entries next e a b (syncs) h = absurd cc
disconnected_comes entries next e a b (loads) h = absurd cc
disconnected_comes entries next e a b (loads_synced) h = absurd cc
disconnected_comes entries next e a b (begins) h = absurd cc
disconnected_comes entries next e a b (ex_begins) h = absurd cc
disconnected_comes entries next e a b (leaves begun) h = absurd cc
disconnected_comes entries next e a b (spawns) h = absurd cc

-- Where a run that ends in a state has been: in a state before, which every way to it passes, or in
-- the state from the start on.
before_spawning :
    (es : List Event) (p : Player)
    → IsWalk es p
    → (run es p).state.cur ≡ State.spawning
    → Passes State.level_initialized es p ⊎ (p.state.cur ≡ State.spawning)
unfolding run
before_spawning [] p walk h = inr h
before_spawning (e ∷ es) p walk h = elim (before_spawning es (step e p) walk.1 h) [
  | inl there ↦ inl (inr there)
  | inr now ↦ elim (spawning_comes _ _ e _ _ walk.0 now) [ inl a ↦ inr a | inr a ↦ inl (inl a) ]
]

before_spawned :
    (es : List Event) (p : Player)
    → IsWalk es p
    → (run es p).state.cur ≡ State.spawned
    → Passes State.level_initialized es p
      ⊎ ((p.state.cur ≡ State.spawning) ⊎ (p.state.cur ≡ State.spawned))
unfolding run
before_spawned [] p walk h = inr (inr h)
before_spawned (e ∷ es) p walk h = elim (before_spawned es (step e p) walk.1 h) [
  | inl there ↦ inl (inr there)
  | inr (inl now) ↦ elim (spawning_comes _ _ e _ _ walk.0 now) [
    | inl a ↦ inr (inl a)
    | inr a ↦ inl (inl a)
  ]
  | inr (inr now) ↦ elim (spawned_comes _ _ e _ _ walk.0 now) [
    | inl a ↦ inr (inr a)
    | inr a ↦ inr (inl a)
  ]
]

before_disconnected :
    (es : List Event) (p : Player)
    → IsWalk es p
    → (run es p).state.cur ≡ State.disconnected
    → Passes State.disconnecting es p ⊎ (p.state.cur ≡ State.disconnected)
unfolding run
before_disconnected [] p walk h = inr h
before_disconnected (e ∷ es) p walk h = elim (before_disconnected es (step e p) walk.1 h) [
  | inl there ↦ inl (inr there)
  | inr now ↦ elim (disconnected_comes _ _ e _ _ walk.0 now) [ inl a ↦ inr a | inr a ↦ inl (inl a) ]
]

-- Over any sequence of events, in any order, each event moves a session along the graph of its states:
-- a completion makes the transition that is planned, if there is one, and the entry of an extension
-- does so only if it is the last; only a tick starts to sync, to load or to spawn; only a disconnect
-- of a begun session leads to disconnecting. So a session that ends spawned has been
-- level_initialized, unless it was spawning or spawned from the start, and one that ends disconnected
-- has been disconnecting, unless it was disconnected from the start. What is planned in the end is
-- nothing or the transition that belongs to the state, as it is in the beginning.
pub run-IsWalk :
    (es : List Event) (p : Player)
    → IsPlanned p.state
    → IsWalk es p
      × IsPlanned (run es p).state
      × ((run es p).state.cur ≡ State.spawned
          → Passes State.level_initialized es p
            ⊎ ((p.state.cur ≡ State.spawning) ⊎ (p.state.cur ≡ State.spawned)))
      × ((run es p).state.cur ≡ State.disconnected
          → Passes State.disconnecting es p ⊎ (p.state.cur ≡ State.disconnected))
run-IsWalk es p v =
    let (walk, w) = run-IsPlanned es p v in
    (walk, w, before_spawned es p walk, before_disconnected es p walk)

-- A disconnect that comes while the level is being sent: the completion of the level then makes the
-- transition that the disconnect planned, and the next tick closes the connection although the
-- world has not saved the player.
pub level_sent_disconnecting :
    (p : Player) (w : Spawn) (sent : Bool) (now : ℕ)
    → p.state.cur ≡ State.level_initializing
    → (transit_player_state w sent now (run (disconnected ∷ level_sent ∷ []) p)).1 ≡ closed
unfolding run step transit_state prepare_state_transition transit_player_state transit_from
    disconnect
level_sent_disconnecting p w sent now h =
    let begun : at_least p.state.cur State.handshaking ≡ true = rw h refl in rw begun refl
