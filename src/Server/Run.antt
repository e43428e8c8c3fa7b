-- ===== src/Server/Run.antt =====
-- The table of connections over any history of the server.
use mmocraft.Prelude.{
  ℕ, zero, suc, ◌+◌, ◌-◌, ◌%◌, ◌^◌, ◌<◌, ◌≡◌, refl, ap, ◌∙◌, inl, inr, true, false, none, some,
  List, [], ◌∷◌, arith, ltb, leb, Bool-cases, Option-cases, length, get_elem?, lt_of_get_elem?,
}
use mmocraft.ConnectionKey
use mmocraft.Buffer.LockFree.{LockFreeData}
use mmocraft.Player.{Player}
use mmocraft.Connection
use mmocraft.Connection.{Connection}
use mmocraft.Environment.{
  ConnectionEntry, Table, update_entry, on_connection_create, on_connection_delete,
  get_unused_connection_id, new_environment, invalid_tick, connection_at,
}
use mmocraft.Environment.Invariant.{
  EntryOk, vacant, occupied, IsValid, used_count, bit, used_count-update_entry, used_count-le,
  get_unused_connection_id_lem, new_environment-IsValid,
}
use mmocraft.Server.{
  Server, update, on_disconnect, needs_teardown, start_teardown, disconnect, delete_connection,
  cleanup_connection, cleanup_slot, cleanup_from, cleanup_expired_connection, new_connection,
  process_clean_task, accept,
}
use mmocraft.Server.Life.{
  change, entry_at, update_entry_twice, update_connection-IsValid, set_offline-IsValid,
}

env-on_disconnect : (s : Server) (c : Connection) → (on_disconnect s c).env ≡ s.env
unfolding on_disconnect
env-on_disconnect s c = ground arith

start_teardown-same :
    (c : Connection)
    → ((start_teardown c).key ≡ c.key) × ((start_teardown c).is_online ≡ c.is_online)
unfolding start_teardown
start_teardown-same c = ground arith

pub holder_index :
    (i : ℕ) (e : ConnectionEntry) (c : Connection)
    → EntryOk i e
    → e.connection ≡ some c
    → (ConnectionKey.index c.key ≡ i) × (e.used ≡ true)
holder_index i e c (vacant u n w) m = absurd (ground arith)
holder_index i e c (occupied d u n x t w) m = let same : d ≡ c = ground arith in (rw (← same) x, u)

-- Disconnecting the connection in a slot keeps the table valid.
pub disconnect-IsValid :
    (s : Server) (i now : ℕ) (c : Connection)
    → ConnectionKey.index c.key ≡ i
    → IsValid s.env
    → IsValid (disconnect s i c now).env
unfolding disconnect
disconnect-IsValid s i now c x v = elim (Bool-cases c.is_online) [
  | inr off ↦ simp (off) v
  | inl on ↦ elim (Bool-cases (needs_teardown c)) [
    | inl t ↦ simp (on, t) (update_connection-IsValid s.env i start_teardown start_teardown-same v)
    | inr t ↦
        simp (on, t)
          (set_offline-IsValid (on_disconnect s c) i c.key now x (rw (env-on_disconnect s c) v))
  ]
]

deleted : ConnectionEntry → ConnectionEntry
deleted e = record e { connection = none; created_at = invalid_tick; used = false }

safe-offline :
    (c : Connection) (now : ℕ) → Connection.is_safe_delete c now ≡ true → c.is_online ≡ false
unfolding Connection.is_safe_delete
safe-offline c now h = ground arith

holder_offline :
    (i : ℕ) (e : ConnectionEntry) (c : Connection)
    → EntryOk i e
    → e.connection ≡ some c
    → c.is_online ≡ false
    → e.will_delete ≡ true
holder_offline i e c (vacant u n w) m off = w
holder_offline i e c (occupied d u n x t w) m off =
    let same : d ≡ c = ground arith in w ∙ (rw (same, off) refl)

pub delete_connection-IsValid :
    (s : Server) (i : ℕ) (e : ConnectionEntry) (c : Connection)
    → IsValid s.env
    → get_elem? s.env.table i ≡ some e
    → e.connection ≡ some c
    → c.is_online ≡ false
    → IsValid (delete_connection s i c.key).env
unfolding delete_connection on_connection_delete deleted
delete_connection-IsValid s i e c v m n off =
    let ok : EntryOk i e = entry_at s.env i e v m in
    let (x, used) = holder_index i e c ok n in
    let t : Table = s.env.table in
    let some_used : used_count (update_entry i deleted t) + 1 ≡ used_count t =
      omega (arith, used_count-update_entry i deleted t e m, ap bit used) in
    let num : (s.env.num_of_connections + 2 ^ 32 - 1) % 2 ^ 32 + bit e.used
        ≡ s.env.num_of_connections + 0 =
      omega (arith, some_used, ap bit used, v.count, used_count-le t, v.small) in
    rw
      (
        x,
        update_entry_twice i (λ e. record e { connection = none })
            (λ e. record e { created_at = invalid_tick; used = false }) t,
      )
      (change s.env i _ deleted e v m (vacant refl refl (holder_offline i e c ok n off)) num)

cleanup_connection-IsValid :
    (s : Server) (i now : ℕ) (e : ConnectionEntry) (c : Connection)
    → IsValid s.env
    → get_elem? s.env.table i ≡ some e
    → e.connection ≡ some c
    → IsValid (cleanup_connection s i c now).env
unfolding cleanup_connection
cleanup_connection-IsValid s i now e c v m n = elim (Bool-cases (Connection.is_safe_delete c now)) [
  | inl safe ↦
      let off : c.is_online ≡ false = safe-offline c now safe in
      simp (safe) (delete_connection-IsValid s i e c v m n off)
  | inr unsafe ↦ elim (Bool-cases (Connection.is_expired c now)) [
    | inl old ↦
        simp (unsafe, old)
          (disconnect-IsValid s i now c (holder_index i e c (entry_at s.env i e v m) n).0 v)
    | inr fresh ↦ simp (unsafe, fresh) v
  ]
]

cleanup_slot-IsValid : (s : Server) (i now : ℕ) → IsValid s.env → IsValid (cleanup_slot s i now).env
unfolding cleanup_slot
cleanup_slot-IsValid s i now v = elim (Option-cases (get_elem? s.env.table i)) [
  | inl gone ↦ rw (gone, cleanup_slot) v
  | inr (e, m) ↦ elim (Bool-cases e.used) [
    | inr unused ↦ rw (m, cleanup_slot) (simp (unused) v)
    | inl used ↦ elim (Option-cases e.connection) [
      | inl none_there ↦ rw (m, cleanup_slot) (simp (used) (rw (none_there, cleanup_slot) v))
      | inr (c, n) ↦
          rw (m, cleanup_slot)
            (simp (used) (rw (n, cleanup_slot) (cleanup_connection-IsValid s i now e c v m n)))
    ]
  ]
]

cleanup_from-IsValid :
    (n i : ℕ) (s : Server) (now : ℕ) → IsValid s.env → IsValid (cleanup_from n i s now).env
unfolding cleanup_from
cleanup_from-IsValid zero i s now v = v
cleanup_from-IsValid (suc n) i s now v =
    cleanup_from-IsValid n (suc i) (cleanup_slot s i now) now (cleanup_slot-IsValid s i now v)

process_clean_task-IsValid :
    (s : Server) (now : ℕ) → IsValid s.env → IsValid (process_clean_task s now).env
unfolding process_clean_task cleanup_expired_connection
process_clean_task-IsValid s now v = elim (Bool-cases (ltb now s.clean_at)) [
  | inl early ↦ simp (early) v
  | inr due ↦ simp (due) (cleanup_from-IsValid (length s.env.table) 0 s now v)
]

created : ℕ → Connection → ConnectionEntry
created key c = record {
  used = true;
  will_delete = false;
  connection = some c;
  created_at = ConnectionKey.created_at key;
}

pub new_connection-IsValid :
    (s : Server) (d : LockFreeData) (now : ℕ)
    → IsValid s.env
    → s.env.num_of_connections < length s.env.table
    → IsValid (new_connection s d now).env
unfolding new_connection on_connection_create created Connection.new_connection
new_connection-IsValid s d now v room =
    let t : Table = s.env.table in
    let j : ℕ = get_unused_connection_id t in
    let (e, m, unused) = get_unused_connection_id_lem t (omega (arith, v.count)) in
    let j_lt : j < 2 ^ 32 = omega (arith, lt_of_get_elem? t j e m, v.small) in
    let (x, _, _, _) = ConnectionKey.make_fields j (now % 2 ^ 32) 0 j_lt in
    let key : ℕ = ConnectionKey.make j (now % 2 ^ 32) in
    let num : (s.env.num_of_connections + 1) % 2 ^ 32 + bit e.used ≡ s.env.num_of_connections + 1 =
      omega (arith, ap bit unused, room, v.small) in
    let ok : EntryOk j (created key (Connection.new_connection key d now)) =
      occupied (Connection.new_connection key d now) refl refl x refl refl in
    rw x (change s.env j _ (λ _. created key (Connection.new_connection key d now)) e v m ok num)

-- An accept keeps the table valid, and with it the number of connections within the table.
pub accept-IsValid :
    (s : Server) (d : LockFreeData) (now : ℕ) → IsValid s.env → IsValid (accept s d now).env
unfolding accept
accept-IsValid s d now v =
    let s' : Server = process_clean_task s now in
    let v' = process_clean_task-IsValid s now v in
    elim (Bool-cases (leb (length s'.env.table) s'.env.num_of_connections)) [
      | inl full ↦ simp (full) v'
      | inr room ↦ simp (room) (new_connection-IsValid s' d now v' (ground arith))
    ]

-- What happens to the server's connections: a client is accepted, a connection is disconnected (by an
-- error, a kick or a timeout), a packet arrives on one, or its handshake gives it a player.
pub data Event : Type 0 where
  accepted : LockFreeData → ℕ → Event
  disconnected : ℕ → ℕ → Event
  interacted : ℕ → ℕ → Event
  joined : ℕ → Player → Event

unfoldable pub step : Event → Server → Server
step (accepted d now) s = accept s d now
step (disconnected i now) s = elim (connection_at s.env.table i) [
  | none ↦ s
  | some c ↦ disconnect s i c now
]
step (interacted i now) s = update s i (λ c. (Connection.try_interact_with_client c now).0)
step (joined i p) s = update s i (λ c. Connection.set_player c p)

unfoldable pub run : List Event → Server → Server
unfolding step
run [] s = s
run (e ∷ es) s = run es (step e s)

-- A server with no connection, for at most `max_connections` clients.
unfoldable pub start : ℕ → Server
start max_connections = record {
  env = new_environment max_connections;
  logouts = [];
  last_error = 0;
  clean_at = 0;
}

interact-same :
    (now : ℕ) (c : Connection)
    → ((Connection.try_interact_with_client c now).0.key ≡ c.key)
      × ((Connection.try_interact_with_client c now).0.is_online ≡ c.is_online)
unfolding Connection.try_interact_with_client
interact-same now c = ground arith

disconnected-IsValid :
    (s : Server) (i now : ℕ) → IsValid s.env → IsValid (step (disconnected i now) s).env
unfolding step
disconnected-IsValid s i now v = elim (Option-cases (get_elem? s.env.table i)) [
  | inl gone ↦ rw (gone, step) v
  | inr (e, m) ↦ elim (Option-cases e.connection) [
    | inl empty ↦ rw (m, step) (rw (empty, step) v)
    | inr (c, n) ↦
        rw (m, step)
          (rw (n, step)
            (disconnect-IsValid s i now c (holder_index i e c (entry_at s.env i e v m) n).0 v))
  ]
]

step-IsValid : (e : Event) (s : Server) → IsValid s.env → IsValid (step e s).env
unfolding step
step-IsValid (accepted d now) s v = accept-IsValid s d now v
step-IsValid (disconnected i now) s v = disconnected-IsValid s i now v
step-IsValid (interacted i now) s v = update_connection-IsValid s.env i _ (interact-same now) v
step-IsValid (joined i p) s v =
    update_connection-IsValid s.env i _ (λ c. unfold Connection.set_player in (refl, refl)) v

run-IsValid_from : (es : List Event) (s : Server) → IsValid s.env → IsValid (run es s).env
unfolding run
run-IsValid_from [] s v = v
run-IsValid_from (e ∷ es) s v = run-IsValid_from es (step e s) (step-IsValid e s v)

-- After any history of a server for fewer than 2^32 clients the table of connections is valid: each
-- slot is vacant, or holds a connection whose key names the slot and the tick of its creation and
-- which is to be deleted exactly if it is offline; and the number of connections is that of the used
-- slots.
pub run-IsValid : (n : ℕ) (es : List Event) → n < 2 ^ 32 → IsValid (run es (start n)).env
unfolding start
run-IsValid n es h = run-IsValid_from es (start n) (new_environment-IsValid n h)
