-- ===== src/Tests/Connections.antt =====
-- What a connection has under way at concrete values.
use mmocraft.Prelude.{
  suc, ◌-◌, ◌/◌, ◌≤◌, ◌<◌, ◌≡◌, refl, ◌↔◌, ◌⊎◌, true, false, List, [], ◌∷◌, ◌++◌, arith, Has,
  AreDistinct,
}
use mmocraft.Buffer.LockFree
use mmocraft.Buffer.Memory
use mmocraft.ObjectPool
use mmocraft.ObjectPool.Start
use mmocraft.ConnectionIo.{
  step, flush_event, enqueue, call, run, transferred, Event, multicast, flushed, multicast_done,
  ConnectionIo, call, post_send_event, post_multicast, send_raw_data, post_multicast_event,
  free_multicast_event, flush_events, flush_multicast_send, flush_send, finish_multicast,
  multicast_completed,
}
use mmocraft.ConnectionIo.Ownership.{IsOwned}
use mmocraft.ConnectionIo.Accounts
use mmocraft.ConnectionIo.Counts.{times_taken, times_finished}
use mmocraft.ObjectPool.{is_free}
use mmocraft.ConnectionIo.Order
use mmocraft.ConnectionIo.Order.{requested, sends, multicasts}
use mmocraft.ConnectionIo.Multicast
use mmocraft.ConnectionIo.Multicast.{Multicast}

-- A connection with a send buffer of four bytes, two of them used, and one multicast event.
abbrev connection : ConnectionIo
connection = record {
  recv_data = record { mem = []; size = 0 };
  is_receive_io_busy = false;
  send_data = record { mem = 1 ∷ 2 ∷ 0 ∷ 0 ∷ []; data_head = 0; data_tail = 2 };
  is_send_io_busy = false;
  multicast_event_pool = ObjectPool.new_pool 1;
  multicast_events = λ i. record { data_bytes = []; is_processing = false };
  ready_multicast_events = [];
  requests = [];
}

connection-IsOwned : IsOwned connection
unfolding ObjectPool.new_pool
connection-IsOwned = record {
  pool = (Start.new_pool-IsValid 1 0 (omega arith) (omega arith)).0;
  distinct = tt;
  waiting = λ i h. absurd h;
  processing = λ i h. absurd cc;
  held = λ i below used.
      let free = (Start.new_pool-IsValid 1 i (omega arith) (omega arith)).1 in absurd cc;
}

-- The event is queued, posted and completed, then queued again.
abbrev history : List Event
history =
    multicast (λ n. true) (7 ∷ 8 ∷ [])
    ∷ flushed (λ calls r. true)
    ∷ multicast_done 0 (transferred 2)
    ∷ multicast (λ n. true) (9 ∷ 9 ∷ [])
    ∷ []

run-IsAccounted_example :
    let after = run history connection in
    let taken = times_taken 0 after.requests in
    let finished = times_finished 0 history in
    let pool = after.multicast_event_pool in
    (((0 < pool.capacity) × (is_free pool 0 ≡ false))
      ↔ (Has 0 after.ready_multicast_events ⊎ (finished < taken)))
    × (Has 0 after.ready_multicast_events → taken ≡ finished)
    × AreDistinct after.ready_multicast_events
    × (finished ≤ taken)
    × (taken ≤ suc finished)
unfolding step post_multicast_event send_raw_data enqueue flush_send post_send_event
    flush_multicast_send flush_events flush_event post_multicast call multicast_completed
    finish_multicast free_multicast_event ObjectPool.new_pool ObjectPool.new_object
    ObjectPool.get_free_object_index ObjectPool.find_free ObjectPool.bit_scan_forward
    ObjectPool.extend_capacity ObjectPool.reserve ObjectPool.transition_to_ready
    ObjectPool.transition_to_free LockFree.push LockFree.reserve LockFree.fill Memory.write_at
    native.Mathlib.Decide.ℕ_discrete
run-IsAccounted_example =
    Accounts.run-IsAccounted history connection 0 connection-IsOwned refl (λ j. refl)
      (tt, (tt, (refl, (tt, tt))))

requested-flush_send_example :
    (requested (flush_send (λ calls r. false) connection)
      ≡ requested connection
        ++ (sends connection
            ++ multicasts connection.multicast_events connection.ready_multicast_events))
    × ((flush_send (λ calls r. false) connection).ready_multicast_events ≡ [])
requested-flush_send_example =
    Order.requested-flush_send (λ calls r. false) connection connection-IsOwned

post_multicast_event-Multicast_example :
    Multicast (7 ∷ 8 ∷ []) connection (post_multicast_event (λ n. true) (7 ∷ 8 ∷ []) connection)
    × (2 < (LockFree.capacity connection.send_data - connection.send_data.data_tail) / 2
        → (post_multicast_event (λ n. true) (7 ∷ 8 ∷ []) connection).1 ≡ true)
post_multicast_event-Multicast_example =
    Multicast.post_multicast_event-Multicast (λ n. true) (7 ∷ 8 ∷ []) connection connection-IsOwned
      (record { ordered = omega arith; fits = omega arith })
