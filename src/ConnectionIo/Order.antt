-- ===== src/ConnectionIo/Order.antt =====
-- What net/connection.cpp ConnectionIO asks registered I/O for, in which order, and what becomes of
-- data that is multicast.
use mmocraft.Prelude.{
  ℕ, ◌≡◌, refl, sym, ap, ◌∙◌, ◌≢◌, inl, inr, Bool, true, false, ◌||◌, List, [], ◌∷◌, ◌++◌, map,
  append-nil, append_assoc, arith, ◌==◌, if◌then◌else◌, Bool-cases, length, Has,
}
use mmocraft.Buffer.LockFree
use mmocraft.ConnectionIo.{
  flush_event, multicast_send, Request, MulticastEvent, ConnectionIo, Rio, call, post_send_event,
  post_multicast, send, free_multicast_event, flush_events, flush_multicast_send, flush_send,
}
use mmocraft.ConnectionIo.Ownership.{Owned, IsOwned}
use mmocraft.ConnectionIo.Runs.{flush_event-Owned, ready-flush_multicast_send}

-- The requests for the waiting events that hold data.
abbrev pub multicasts : (ℕ → MulticastEvent) → List ℕ → List Request
multicasts events [] = []
multicasts events (slot ∷ slots) =
    let bytes = (events slot).data_bytes in
    let rest = multicasts events slots in
    if length bytes == 0 then rest else multicast_send slot bytes ∷ rest

abbrev pub sends : ConnectionIo → List Request
sends io =
    if io.is_send_io_busy || LockFree.size io.send_data == 0
    then []
    else send (LockFree.contents io.send_data) ∷ []

abbrev pub requested : ConnectionIo → List Request
requested io = map (λ r. r.0) io.requests

multicasts-ext :
    (f g : ℕ → MulticastEvent) (slots : List ℕ)
    → ((i : ℕ) → Has i slots → (f i).data_bytes ≡ (g i).data_bytes)
    → multicasts f slots ≡ multicasts g slots
multicasts-ext f g [] h = refl
multicasts-ext f g (slot ∷ slots) h =
    rw (h slot (inl refl), multicasts-ext f g slots (λ i t. h i (inr t))) refl

map-append :
    (xs ys : List (Request × Bool))
    → map (λ r. r.0) (xs ++ ys) ≡ map (λ r. r.0) xs ++ map (λ r. r.0) ys
map-append [] ys = refl
map-append (x ∷ xs) ys = ap (◌∷◌ x.0) (map-append xs ys)

data_bytes-flush_event :
    (takes : Rio) (slot i : ℕ) (io : ConnectionIo)
    → slot ≢ i
    → (flush_event takes slot io).multicast_events i ≡ io.multicast_events i
unfolding flush_event post_multicast call free_multicast_event
data_bytes-flush_event takes slot i io ne = ground (arith, ne)

requested-flush_event :
    (takes : Rio) (slot : ℕ) (rest : List ℕ) (io : ConnectionIo)
    → (io.multicast_events slot).is_processing ≡ false
    → requested (flush_event takes slot io) ++ multicasts io.multicast_events rest
      ≡ requested io ++ multicasts io.multicast_events (slot ∷ rest)
unfolding flush_event post_multicast call free_multicast_event
requested-flush_event takes slot rest io idle =
    let event = io.multicast_events slot in
    let later = multicasts io.multicast_events rest in
    let request : Request = multicast_send slot event.data_bytes in
    elim (Bool-cases (length event.data_bytes == 0)) [
      | inl empty ↦ simp (idle, empty) refl
      | inr full ↦ elim (Bool-cases (takes io.requests request)) [
        | inl taken ↦
            simp (idle, full, taken)
              (ap (λ xs. xs ++ later) (map-append io.requests ((request, true) ∷ []))
                ∙ append_assoc (requested io) (request ∷ []) later)
        | inr lost ↦
            simp (idle, full, lost)
              (ap (λ xs. xs ++ later) (map-append io.requests ((request, false) ∷ []))
                ∙ append_assoc (requested io) (request ∷ []) later)
      ]
    ]

requested-flush_events :
    (takes : Rio) (slots : List ℕ) (io : ConnectionIo)
    → Owned io.multicast_event_pool io.multicast_events slots
    → requested (flush_events takes slots io) ≡ requested io ++ multicasts io.multicast_events slots
unfolding flush_events
requested-flush_events takes [] io inv = sym (append-nil (requested io))
requested-flush_events takes (slot ∷ slots) io inv =
    let next : ConnectionIo = flush_event takes slot io in
    let (below, used, quiet) = inv.waiting slot (inl refl) in
    let fresh = inv.distinct.0 in
    requested-flush_events takes slots next (flush_event-Owned takes slot slots io inv)
    ∙ ap (◌++◌ (requested next)) (
        multicasts-ext next.multicast_events io.multicast_events slots (λ i t.
          ap (λ x. x.data_bytes) (data_bytes-flush_event takes slot i io (λ e. fresh (rw e t)))))
    ∙ requested-flush_event takes slot slots io quiet

requested-flush_multicast_send :
    (takes : Rio) (io : ConnectionIo)
    → IsOwned io
    → requested (flush_multicast_send takes io)
      ≡ requested io ++ multicasts io.multicast_events io.ready_multicast_events
unfolding flush_multicast_send
requested-flush_multicast_send takes io inv =
    requested-flush_events takes io.ready_multicast_events
      (record io { ready_multicast_events = [] }) inv

-- A flush asks registered I/O first for the bytes of the send buffer, unless they are empty or being
-- sent, then for each multicast event that waits and holds data, in the order in which they were
-- queued, whatever registered I/O takes; afterwards none waits.
pub requested-flush_send :
    (takes : Rio) (io : ConnectionIo)
    → IsOwned io
    → (requested (flush_send takes io)
        ≡ requested io ++ (sends io ++ multicasts io.multicast_events io.ready_multicast_events))
      × ((flush_send takes io).ready_multicast_events ≡ [])
unfolding flush_send post_send_event call
requested-flush_send takes io inv =
    let request : Request = send (LockFree.contents io.send_data) in
    let later = multicasts io.multicast_events io.ready_multicast_events in
    elim (Bool-cases io.is_send_io_busy) [
      | inl busy ↦
          simp (busy)
            (requested-flush_multicast_send takes io inv, ready-flush_multicast_send takes io)
      | inr idle ↦ elim (Bool-cases (LockFree.size io.send_data == 0)) [
        | inl empty ↦
            simp (idle, empty)
              (requested-flush_multicast_send takes io inv, ready-flush_multicast_send takes io)
        | inr more ↦
            simp (idle, more)
              (
                requested-flush_multicast_send takes _ inv
                    ∙ ap (λ xs. xs ++ later)
                        (map-append io.requests ((request, takes io.requests request) ∷ []))
                    ∙ append_assoc (requested io) (request ∷ []) later,
                ready-flush_multicast_send takes _,
              )
      ]
    ]
