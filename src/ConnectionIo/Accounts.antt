-- ===== src/ConnectionIo/Accounts.antt =====
-- The slots of the multicast events of net/connection.cpp ConnectionIO against what registered I/O took
-- and finished.
use mmocraft.Prelude.{
  ℕ, suc, ◌+◌, ◌-◌, ◌/◌, ◌≤◌, ◌<◌, ◌≡◌, refl, ◌∙◌, ◌↔◌, ◌⊎◌, inl, inr, Bool, true, false, ◌&&◌,
  List, [], ◌∷◌, ◌++◌, arith, ltb, ◌==◌, Bool-cases, length, Has, AreDistinct, update,
}
use mmocraft.Buffer.LockFree
use mmocraft.Buffer.Recv
use mmocraft.ObjectPool.{ObjectPool, invalid_index, new_object, is_free}
use mmocraft.ObjectPool.Slots
use mmocraft.ObjectPool.Creation.{Created, refused, created, new_object-Created}
use mmocraft.ConnectionIo.{
  flush_event, recv, send, eof, event_failed, transferred, Event, sent_raw, multicast, flushed,
  receive_flushed, send_done, multicast_done, step, run, CanHappen, History, Request,
  MulticastEvent, ConnectionIo, Rio, call, post_recv_event, post_send_event, send_raw_data,
  post_multicast_event, free_multicast_event, flush_events, flush_multicast_send, flush_send,
  flush_receive, send_completed, finish_multicast, multicast_completed, enqueue,
}
use mmocraft.ConnectionIo.Ownership.{Owned, IsOwned}
use mmocraft.ConnectionIo.Runs.{flush_event-Owned, step-IsOwned, run-IsOwned}
use mmocraft.ConnectionIo.Counts.{
  bit, times_taken, finishes, times_finished, Counted, times_taken-append, processing-update,
  quiet_slot, Counted-replaced, flush_event-Counted,
}

abbrev IsCounted : ℕ → ℕ → ConnectionIo → Type 0
IsCounted i n io = Counted i n io.multicast_events io.requests

flush_events-IsCounted :
    (i n : ℕ) (takes : Rio) (slots : List ℕ) (io : ConnectionIo)
    → Owned io.multicast_event_pool io.multicast_events slots
    → IsCounted i n io
    → IsCounted i n (flush_events takes slots io)
unfolding flush_events
flush_events-IsCounted i n takes [] io inv h = h
flush_events-IsCounted i n takes (slot ∷ slots) io inv h =
    let (below, used, quiet) = inv.waiting slot (inl refl) in
    flush_events-IsCounted i n takes slots (flush_event takes slot io)
      (flush_event-Owned takes slot slots io inv) (flush_event-Counted i n takes slot io quiet h)

flush_send-IsCounted :
    (i n : ℕ) (takes : Rio) (io : ConnectionIo)
    → IsOwned io
    → IsCounted i n io
    → IsCounted i n (flush_send takes io)
unfolding flush_send flush_multicast_send post_send_event call
flush_send-IsCounted i n takes io inv h =
    let request : Request = send (LockFree.contents io.send_data) in
    let more = times_taken-append i io.requests (request, takes io.requests request) in
    let h' : Counted i n io.multicast_events
        (io.requests ++ (request, takes io.requests request) ∷ []) =
      omega (arith, more, h) in
    elim (Bool-cases io.is_send_io_busy) [
      | inl busy ↦ simp (busy) (flush_events-IsCounted i n takes io.ready_multicast_events _ inv h)
      | inr idle ↦ elim (Bool-cases (LockFree.size io.send_data == 0)) [
        | inl empty ↦
            simp (idle, empty) (flush_events-IsCounted i n takes io.ready_multicast_events _ inv h)
        | inr full ↦
            simp (idle, full) (flush_events-IsCounted i n takes io.ready_multicast_events _ inv h')
      ]
    ]

flush_receive-IsCounted :
    (i n : ℕ) (takes : Rio) (size : ℕ) (io : ConnectionIo)
    → IsCounted i n io
    → IsCounted i n (flush_receive takes size io)
unfolding flush_receive post_recv_event call
flush_receive-IsCounted i n takes size io h =
    let request : Request = recv (Recv.unused_size io.recv_data) in
    let more = times_taken-append i io.requests (request, takes io.requests request) in
    let h' : Counted i n io.multicast_events
        (io.requests ++ (request, takes io.requests request) ∷ []) =
      omega (arith, more, h) in
    elim (Bool-cases io.is_receive_io_busy) [
      | inl busy ↦ simp (busy) h
      | inr idle ↦ elim (Bool-cases (ltb (Recv.unused_size io.recv_data) size)) [
        | inl full ↦ simp (idle, full) h
        | inr room ↦ simp (idle, room) h'
      ]
    ]

enqueue-IsCounted :
    (i n : ℕ) (bytes : List ℕ) (io : ConnectionIo) (r : ObjectPool × ℕ)
    → IsOwned io
    → Created io.multicast_event_pool r
    → Slots.IsValid r.0
    → IsCounted i n io
    → IsCounted i n (enqueue bytes io r).0
unfolding enqueue
enqueue-IsCounted i n bytes io r inv (refused full) v h = h
enqueue-IsCounted i n bytes io r inv (created q slot inside more was now same lowest) v h =
    let there : (slot == invalid_index) ≡ false = ground (arith, v.within, v.small) in
    let event : MulticastEvent = record { data_bytes = bytes; is_processing = false } in
    let quiet : (io.multicast_events slot).is_processing ≡ false =
      elim (Bool-cases (io.multicast_events slot).is_processing) [
        | inl busy ↦ let (below, used) = inv.processing slot busy in absurd cc
        | inr idle ↦ idle
      ] in
    rw there (Counted-replaced i n slot io.multicast_events io.requests event quiet refl h)

post_multicast_event-IsCounted :
    (i n : ℕ) (commit : ℕ → Bool) (bytes : List ℕ) (io : ConnectionIo)
    → IsOwned io
    → IsCounted i n io
    → IsCounted i n (post_multicast_event commit bytes io).0
unfolding post_multicast_event send_raw_data
post_multicast_event-IsCounted i n commit bytes io inv h =
    let (made, v) = new_object-Created commit io.multicast_event_pool inv.pool in
    let queued =
      enqueue-IsCounted i n bytes io (new_object commit io.multicast_event_pool) inv made v h in
    elim (Bool-cases (
      ltb (length bytes) ((LockFree.capacity io.send_data - io.send_data.data_tail) / 2)
      && (LockFree.push io.send_data bytes).1)) [
        | inl room ↦ simp (room) h
        | inr full ↦ simp (full) queued
      ]

finish_multicast-IsCounted :
    (i n slot : ℕ) (io : ConnectionIo)
    → (io.multicast_events slot).is_processing ≡ true
    → IsCounted i n io
    → IsCounted i (n + bit (slot == i)) (finish_multicast slot io)
unfolding finish_multicast free_multicast_event
finish_multicast-IsCounted i n slot io busy h =
    let events = io.multicast_events in
    let event : MulticastEvent = record (events slot) { is_processing = false } in
    let changed = processing-update events slot i event in
    elim (Bool-cases (slot == i)) [
      | inl here ↦
          let was = quiet_slot events slot i true busy here in
          let now : bit (update events slot event i).is_processing ≡ 0 = changed ∙ rw here refl in
          rw here (omega (arith, h, was, now))
      | inr other ↦
          let now : bit (update events slot event i).is_processing ≡ bit (events i).is_processing =
            changed ∙ rw other refl in
          rw other (omega (arith, h, now))
    ]

step-IsCounted :
    (i n : ℕ) (e : Event) (io : ConnectionIo)
    → CanHappen e io
    → IsOwned io
    → IsCounted i n io
    → IsCounted i (n + finishes i e) (step e io)
unfolding step send_raw_data send_completed multicast_completed
step-IsCounted i n (sent_raw bytes) io can inv h = omega (arith, h)
step-IsCounted i n (multicast commit bytes) io can inv h =
    omega (arith, post_multicast_event-IsCounted i n commit bytes io inv h)
step-IsCounted i n (flushed takes) io can inv h =
    omega (arith, flush_send-IsCounted i n takes io inv h)
step-IsCounted i n (receive_flushed takes size) io can inv h =
    omega (arith, flush_receive-IsCounted i n takes size io h)
step-IsCounted i n (send_done eof) io can inv h = omega (arith, h)
step-IsCounted i n (send_done event_failed) io can inv h = omega (arith, h)
step-IsCounted i n (send_done (transferred k)) io can inv h = omega (arith, h)
step-IsCounted i n (multicast_done slot eof) io can inv h = omega (arith, h)
step-IsCounted i n (multicast_done slot event_failed) io can inv h =
    finish_multicast-IsCounted i n slot io can h
step-IsCounted i n (multicast_done slot (transferred k)) io can inv h =
    finish_multicast-IsCounted i n slot io can h

run-IsCounted :
    (i n : ℕ) (es : List Event) (io : ConnectionIo)
    → IsOwned io
    → History es io
    → IsCounted i n io
    → IsCounted i (n + times_finished i es) (run es io)
unfolding run
run-IsCounted i n [] io inv can h = omega (arith, h)
run-IsCounted i n (e ∷ es) io inv can h =
    let later =
      run-IsCounted i (n + finishes i e) es (step e io) (step-IsOwned e io can.0 inv) can.1
        (step-IsCounted i n e io can.0 inv h) in
    omega (arith, later)

-- Through every history of a connection that starts with no request and no event under way, whatever
-- the system commits and registered I/O takes, a slot of the pool of multicast events is in use
-- exactly if its event waits in the queue, or registered I/O took it once more than it finished it:
-- so a slot whose event neither waits nor is still processed is free again. An event that waits has
-- been finished as often as it was taken, each event waits once, and none is taken again before it
-- is finished. A completion that says that the stream has ended does not finish an event: its slot
-- stays in use.
pub run-IsAccounted :
    (es : List Event) (io : ConnectionIo) (i : ℕ)
    → IsOwned io
    → io.requests ≡ []
    → ((j : ℕ) → (io.multicast_events j).is_processing ≡ false)
    → History es io
    → let after = run es io in
      let taken = times_taken i after.requests in
      let finished = times_finished i es in
      let pool = after.multicast_event_pool in
      (((i < pool.capacity) × (is_free pool i ≡ false))
        ↔ (Has i after.ready_multicast_events ⊎ (finished < taken)))
      × (Has i after.ready_multicast_events → taken ≡ finished)
      × AreDistinct after.ready_multicast_events
      × (finished ≤ taken)
      × (taken ≤ suc finished)
run-IsAccounted es io i inv none_yet idle can =
    let start : IsCounted i 0 io = rw (none_yet, idle i) refl in
    let counted = run-IsCounted i 0 es io inv can start in
    let owned = run-IsOwned es io inv can in
    let event = (run es io).multicast_events i in
    elim (Bool-cases event.is_processing) [
      | inl busy ↦
          let more : bit event.is_processing ≡ 1 = rw busy refl in
          (
            (λ h. inr (omega (arith, counted, more)), λ h. owned.processing i busy),
            λ h. let w = owned.waiting i h in absurd cc,
            owned.distinct,
            omega (arith, counted, more),
            omega (arith, counted, more),
          )
      | inr quiet ↦
          let more : bit event.is_processing ≡ 0 = rw quiet refl in
          (
            (
              λ h. elim (owned.held i h.0 h.1) [ inl t ↦ inl t | inr busy ↦ absurd cc ],
              λ h. elim h [
                | inl t ↦ let (below, used, idle) = owned.waiting i t in (below, used)
                | inr l ↦ absurd (omega (arith, counted, more))
              ],
            ),
            λ h. omega (arith, counted, more),
            owned.distinct,
            omega (arith, counted, more),
            omega (arith, counted, more),
          )
    ]
