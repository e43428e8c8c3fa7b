-- ===== src/Server/Logout.antt =====
-- What Connection::disconnect does to a player, and what it does not do.
use mmocraft.Prelude.{
  ℕ, zero, suc, ◌≡◌, refl, ◌∙◌, inl, inr, true, false, List, [], ◌∷◌, arith, Option-cases, length,
  get_elem?,
}
use mmocraft.Player.Session.{prepare_state_transition}
use mmocraft.Connection.{Connection}
use mmocraft.Buffer.LockFree.{LockFreeData}
use mmocraft.Environment.{connection_at}
use mmocraft.Server.{
  Server, update, set_offline, on_disconnect, needs_teardown, start_teardown, disconnect,
  cleanup_connection, delete_connection, cleanup_slot, cleanup_from, cleanup_expired_connection,
  process_clean_task, new_connection, accept,
}
use mmocraft.Server.Run.{Event, accepted, disconnected, interacted, joined, step, run, start}

logouts-disconnect :
    (s : Server) (i now : ℕ) (c : Connection) → (disconnect s i c now).logouts ≡ s.logouts
unfolding disconnect needs_teardown on_disconnect set_offline
logouts-disconnect s i now c = ground arith

logouts-cleanup_connection :
    (s : Server) (i now : ℕ) (c : Connection) → (cleanup_connection s i c now).logouts ≡ s.logouts
unfolding cleanup_connection delete_connection
logouts-cleanup_connection s i now c = ground (arith, logouts-disconnect s i now c)

logouts-cleanup_slot : (s : Server) (i now : ℕ) → (cleanup_slot s i now).logouts ≡ s.logouts
unfolding cleanup_slot
logouts-cleanup_slot s i now = elim (Option-cases (get_elem? s.env.table i)) [
  | inl gone ↦ rw (gone, cleanup_slot) refl
  | inr (e, m) ↦ elim (Option-cases e.connection) [
    | inl empty ↦ rw (m, cleanup_slot) (ground (arith, empty))
    | inr (c, n) ↦ rw (m, cleanup_slot) (ground (arith, n, logouts-cleanup_connection s i now c))
  ]
]

logouts-cleanup_from :
    (n i : ℕ) (s : Server) (now : ℕ) → (cleanup_from n i s now).logouts ≡ s.logouts
unfolding cleanup_from
logouts-cleanup_from zero i s now = refl
logouts-cleanup_from (suc n) i s now =
    logouts-cleanup_from n (suc i) (cleanup_slot s i now) now ∙ logouts-cleanup_slot s i now

logouts-accept : (s : Server) (d : LockFreeData) (now : ℕ) → (accept s d now).logouts ≡ s.logouts
unfolding accept process_clean_task cleanup_expired_connection new_connection
logouts-accept s d now = ground (arith, logouts-cleanup_from (length s.env.table) 0 s now)

logouts-step : (e : Event) (s : Server) → (step e s).logouts ≡ s.logouts
unfolding step
logouts-step (accepted d now) s = logouts-accept s d now
logouts-step (disconnected i now) s = elim (Option-cases (connection_at s.env.table i)) [
  | inl gone ↦ rw (gone, step) refl
  | inr (c, m) ↦ rw (m, step) (logouts-disconnect s i now c)
]
logouts-step (interacted i now) s = refl
logouts-step (joined i p) s = refl

logouts-run_from : (es : List Event) (s : Server) → (run es s).logouts ≡ s.logouts
unfolding run
logouts-run_from [] s = refl
logouts-run_from (e ∷ es) s = logouts-run_from es (step e s) ∙ logouts-step e s

-- No history of the server hands a logout request to the communicator: disconnect calls
-- on_disconnect only for a connection with no player or a player below `handshaking`, and
-- on_disconnect reports only a player from `handshaked` on.
pub logouts-run : (n : ℕ) (es : List Event) → (run es (start n)).logouts ≡ []
unfolding start
logouts-run n es = logouts-run_from es (start n)

torn_down : (c : Connection) → needs_teardown (start_teardown c) ≡ false
unfolding needs_teardown start_teardown prepare_state_transition
torn_down c = ground arith

still_online : (c : Connection) → c.is_online ≡ true → (start_teardown c).is_online ≡ true
unfolding start_teardown
still_online c on = ground arith

start_teardown_key : (c : Connection) → (start_teardown c).key ≡ c.key
unfolding start_teardown
start_teardown_key c = ground arith

no_logout : (s : Server) (c : Connection) → on_disconnect s (start_teardown c) ≡ s
unfolding on_disconnect start_teardown prepare_state_transition
no_logout s c = ground arith

-- The first disconnect of an online connection whose player has begun to log in leaves the connection
-- online and marks the player for the world, which is to save it. But a second disconnect that comes
-- before the world gets to it takes the connection offline at once.
pub disconnect_twice :
    (s s' : Server) (i now later : ℕ) (c : Connection)
    → c.is_online ≡ true
    → needs_teardown c ≡ true
    → (disconnect s i c now ≡ update s i start_teardown)
      × (disconnect s' i (start_teardown c) later ≡ set_offline s' i c.key later)
unfolding disconnect
disconnect_twice s s' i now later c on t =
    (simp (on, t), simp (still_online c on, torn_down c, no_logout s' c, start_teardown_key c))
