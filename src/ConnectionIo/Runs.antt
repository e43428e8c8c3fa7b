-- ===== src/ConnectionIo/Runs.antt =====
-- The events of net/connection.cpp ConnectionIO through every history of a connection.
use mmocraft.Prelude.{
  ℕ, ◌-◌, ◌/◌, ◌≡◌, refl, sym, ap, ◌∙◌, ◌≢◌, ◌↔◌, inl, inr, Bool, true, false, ◌&&◌, ◌||◌, List, [],
  ◌∷◌, arith, ltb, ◌==◌, Bool-cases, length, Has, update, update-same, update-ne,
}
use mmocraft.Buffer.LockFree
use mmocraft.Buffer.Recv
use mmocraft.ObjectPool.{
  ObjectPool, invalid_index, new_object, extend_capacity, reserve, transition_to_ready,
}
use mmocraft.ObjectPool.Slots
use mmocraft.ObjectPool.Creation.{Created, refused, created, new_object-Created}
use mmocraft.ConnectionIo.{
  flush_event, multicast_send, eof, event_failed, transferred, Event, sent_raw, multicast, flushed,
  receive_flushed, send_done, multicast_done, step, run, CanHappen, History, Request,
  MulticastEvent, ConnectionIo, Rio, call, post_recv_event, post_send_event, post_multicast,
  send_raw_data, post_multicast_event, free_multicast_event, flush_events, flush_multicast_send,
  flush_send, flush_receive, send_completed, finish_multicast, multicast_completed, enqueue,
}
use mmocraft.ConnectionIo.Ownership.{Owned, IsOwned, Owned-created, Owned-posted, Owned-freed}

max_capacity-new_object :
    (commit : ℕ → Bool) (p : ObjectPool) → (new_object commit p).0.max_capacity ≡ p.max_capacity
unfolding new_object extend_capacity reserve transition_to_ready
max_capacity-new_object commit p = ground arith

queued-IsOwned :
    (io : ConnectionIo) (bytes : List ℕ) (r : ObjectPool × ℕ)
    → IsOwned io
    → Created io.multicast_event_pool r
    → Slots.IsValid r.0
    → r.0.max_capacity ≡ io.multicast_event_pool.max_capacity
    → IsOwned (enqueue bytes io r).0
unfolding enqueue
queued-IsOwned io bytes r inv (refused full) v most = inv
queued-IsOwned io bytes r inv (created q i inside more was now same lowest) v most =
    let there : (i == invalid_index) ≡ false = ground (arith, v.within, v.small) in
    rw there (
      Owned-created inv q i (record { data_bytes = bytes; is_processing = false }) refl v most
        inside more was now same)

post_multicast_event-IsOwned :
    (commit : ℕ → Bool) (bytes : List ℕ) (io : ConnectionIo)
    → IsOwned io
    → IsOwned (post_multicast_event commit bytes io).0
unfolding post_multicast_event send_raw_data
post_multicast_event-IsOwned commit bytes io inv =
    let (made, v) = new_object-Created commit io.multicast_event_pool inv.pool in
    let queued =
      queued-IsOwned io bytes (new_object commit io.multicast_event_pool) inv made v
        (max_capacity-new_object commit io.multicast_event_pool) in
    elim (Bool-cases (
      ltb (length bytes) ((LockFree.capacity io.send_data - io.send_data.data_tail) / 2)
      && (LockFree.push io.send_data bytes).1)) [
        | inl room ↦ simp (room) inv
        | inr full ↦ simp (full) queued
      ]

others : (i j : ℕ) (queue : List ℕ) → i ≢ j → Has j queue ↔ Has j (i ∷ queue)
others i j queue ne = (λ t. inr t, λ h. elim h [ inl e ↦ absurd (ne (sym e)) | inr t ↦ t ])

idle-ne :
    (events : ℕ → MulticastEvent) (event : MulticastEvent) (i j : ℕ)
    → i ≢ j
    → (update events i event j).is_processing ≡ (events j).is_processing
idle-ne events event i j ne = ap (λ x. x.is_processing) (update-ne events i j event ne)

-- The loop takes an event out of the queue: registered I/O processes it, or its slot is free.
pub flush_event-Owned :
    (takes : Rio) (slot : ℕ) (rest : List ℕ) (io : ConnectionIo)
    → Owned io.multicast_event_pool io.multicast_events (slot ∷ rest)
    → Owned
        (flush_event takes slot io).multicast_event_pool
        (flush_event takes slot io).multicast_events
        rest
unfolding flush_event post_multicast call free_multicast_event
flush_event-Owned takes slot rest io inv =
    let p = io.multicast_event_pool in
    let events = io.multicast_events in
    let event = events slot in
    let request : Request = multicast_send slot event.data_bytes in
    let (below, used, quiet) = inv.waiting slot (inl refl) in
    let distinct = inv.distinct in
    elim (Bool-cases (event.is_processing || length event.data_bytes == 0)) [
      | inl none_posted ↦ simp (none_posted) (
          Owned-freed p events events slot (slot ∷ rest) rest inv below distinct.1 distinct.0 quiet
            (λ j ne. others slot j rest ne) (λ j ne. refl))
      | inr posted ↦ elim (Bool-cases (takes io.requests request)) [
        | inl taken ↦
            simp (posted, taken) (Owned-posted (record event { is_processing = true }) refl inv)
        | inr lost ↦
            let event' : MulticastEvent = record event { is_processing = false } in
            simp (posted, lost)
              (Owned-freed p events (update events slot event') slot (slot ∷ rest) rest inv below
                distinct.1 distinct.0 (ap (λ x. x.is_processing) (update-same events slot event'))
                (λ j ne. others slot j rest ne) (λ j ne. idle-ne events event' slot j ne))
      ]
    ]

flush_events-Owned :
    (takes : Rio) (slots : List ℕ) (io : ConnectionIo)
    → Owned io.multicast_event_pool io.multicast_events slots
    → Owned
        (flush_events takes slots io).multicast_event_pool
        (flush_events takes slots io).multicast_events
        []
unfolding flush_events
flush_events-Owned takes [] io inv = inv
flush_events-Owned takes (slot ∷ slots) io inv =
    flush_events-Owned takes slots (flush_event takes slot io)
      (flush_event-Owned takes slot slots io inv)

ready-flush_event :
    (takes : Rio) (slot : ℕ) (io : ConnectionIo)
    → (flush_event takes slot io).ready_multicast_events ≡ io.ready_multicast_events
unfolding flush_event post_multicast call free_multicast_event
ready-flush_event takes slot io = ground arith

ready-flush_events :
    (takes : Rio) (slots : List ℕ) (io : ConnectionIo)
    → (flush_events takes slots io).ready_multicast_events ≡ io.ready_multicast_events
unfolding flush_events
ready-flush_events takes [] io = refl
ready-flush_events takes (slot ∷ slots) io =
    ready-flush_events takes slots (flush_event takes slot io) ∙ ready-flush_event takes slot io

pub ready-flush_multicast_send :
    (takes : Rio) (io : ConnectionIo) → (flush_multicast_send takes io).ready_multicast_events ≡ []
unfolding flush_multicast_send
ready-flush_multicast_send takes io =
    ready-flush_events takes io.ready_multicast_events (record io { ready_multicast_events = [] })

flush_multicast_send-IsOwned :
    (takes : Rio) (io : ConnectionIo) → IsOwned io → IsOwned (flush_multicast_send takes io)
unfolding flush_multicast_send
flush_multicast_send-IsOwned takes io inv =
    let emptied : ConnectionIo = record io { ready_multicast_events = [] } in
    rw (ready-flush_events takes io.ready_multicast_events emptied)
      (flush_events-Owned takes io.ready_multicast_events emptied inv)

flush_send-IsOwned : (takes : Rio) (io : ConnectionIo) → IsOwned io → IsOwned (flush_send takes io)
unfolding flush_send post_send_event call
flush_send-IsOwned takes io inv = elim (Bool-cases io.is_send_io_busy) [
  | inl busy ↦ simp (busy) (flush_multicast_send-IsOwned takes io inv)
  | inr idle ↦ elim (Bool-cases (LockFree.size io.send_data == 0)) [
    | inl empty ↦ simp (idle, empty) (flush_multicast_send-IsOwned takes io inv)
    | inr more ↦ simp (idle, more) (flush_multicast_send-IsOwned takes _ inv)
  ]
]

flush_receive-IsOwned :
    (takes : Rio) (size : ℕ) (io : ConnectionIo)
    → IsOwned io
    → IsOwned (flush_receive takes size io)
unfolding flush_receive post_recv_event call
flush_receive-IsOwned takes size io inv = elim (Bool-cases io.is_receive_io_busy) [
  | inl busy ↦ simp (busy) inv
  | inr idle ↦ elim (Bool-cases (ltb (Recv.unused_size io.recv_data) size)) [
    | inl full ↦ simp (idle, full) inv
    | inr room ↦ simp (idle, room) inv
  ]
]

finish_multicast-IsOwned :
    (slot : ℕ) (io : ConnectionIo)
    → (io.multicast_events slot).is_processing ≡ true
    → IsOwned io
    → IsOwned (finish_multicast slot io)
unfolding finish_multicast free_multicast_event
finish_multicast-IsOwned slot io busy inv =
    let events = io.multicast_events in
    let event' : MulticastEvent = record (events slot) { is_processing = false } in
    let (below, used) = inv.processing slot busy in
    Owned-freed io.multicast_event_pool events (update events slot event') slot
      io.ready_multicast_events io.ready_multicast_events inv below inv.distinct
      (λ h. let w = inv.waiting slot h in absurd cc)
      (ap (λ x. x.is_processing) (update-same events slot event')) (λ j ne. (λ t. t, λ t. t))
      (λ j ne. idle-ne events event' slot j ne)

pub step-IsOwned :
    (e : Event) (io : ConnectionIo) → CanHappen e io → IsOwned io → IsOwned (step e io)
unfolding step send_raw_data send_completed multicast_completed
step-IsOwned (sent_raw bytes) io h inv = inv
step-IsOwned (multicast commit bytes) io h inv = post_multicast_event-IsOwned commit bytes io inv
step-IsOwned (flushed takes) io h inv = flush_send-IsOwned takes io inv
step-IsOwned (receive_flushed takes size) io h inv = flush_receive-IsOwned takes size io inv
step-IsOwned (send_done eof) io h inv = inv
step-IsOwned (send_done event_failed) io h inv = inv
step-IsOwned (send_done (transferred n)) io h inv = inv
step-IsOwned (multicast_done slot eof) io h inv = inv
step-IsOwned (multicast_done slot event_failed) io h inv = finish_multicast-IsOwned slot io h inv
step-IsOwned (multicast_done slot (transferred n)) io h inv = finish_multicast-IsOwned slot io h inv

-- Through every history of a connection, whatever the system commits and registered I/O takes, the
-- slots of the pool of multicast events that are in use are exactly those of the events that wait in
-- the queue, each once, or that registered I/O processes.
pub run-IsOwned :
    (es : List Event) (io : ConnectionIo) → IsOwned io → History es io → IsOwned (run es io)
unfolding run
run-IsOwned [] io inv h = inv
run-IsOwned (e ∷ es) io inv h = run-IsOwned es (step e io) (step-IsOwned e io h.0 inv) h.1
