-- ===== src/Player/Session.antt =====
-- game/player.h PlayerState: the state of a session and its planned successor.
use mmocraft.Prelude.{ℕ, Bool, ◌||◌, leb, ◌==◌}

pub data State : Type 0 where
  invaild disconnecting disconnected : State
  initialized handshaking ex_handshaking handshaked ex_handshaked : State
  extension_syncing extension_synced level_initializing level_initialized : State
  spawning spawned : State

-- The value of the enumerator: the source compares states by order.
abbrev pub rank : State → ℕ
rank State.invaild = 0
rank State.disconnecting = 1
rank State.disconnected = 2
rank State.initialized = 3
rank State.handshaking = 4
rank State.ex_handshaking = 5
rank State.handshaked = 6
rank State.ex_handshaked = 7
rank State.extension_syncing = 8
rank State.extension_synced = 9
rank State.level_initializing = 10
rank State.level_initialized = 11
rank State.spawning = 12
rank State.spawned = 13

-- `a >= b`
abbrev pub at_least : State → State → Bool
at_least a b = leb (rank b) (rank a)

pub record PlayerState : Type 0 where
  pub prev : State
  pub cur : State
  pub next : State

abbrev pub fresh_state : PlayerState
fresh_state = record { prev = State.initialized; cur = State.initialized; next = State.initialized }

-- transit_state, whose assertion on the hint is compiled out of a release build.
unfoldable pub transit_state : PlayerState → PlayerState
transit_state s = record s { prev = s.cur; cur = s.next }

-- The assertion of transit_state: a hint other than `invaild` names the planned state.
unfoldable pub hint_holds : PlayerState → State → Bool
hint_holds s hint = rank hint == 0 || rank s.next == rank hint

unfoldable pub prepare_state_transition : PlayerState → State → State → PlayerState
prepare_state_transition s cur next = record { prev = s.cur; cur = cur; next = next }
