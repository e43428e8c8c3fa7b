-- ===== src/ConnectionIo/Multicast.antt =====
-- ConnectionIO::post_multicast_event of net/connection.cpp: what becomes of data that is multicast.
use mmocraft.Prelude.{
  ℕ, ◌-◌, ◌/◌, ◌≤◌, ◌<◌, ◌≡◌, refl, ap, inl, inr, Bool, true, false, List, [], ◌∷◌, ◌++◌, arith,
  ltb, ◌==◌, Bool-cases, length, update-same,
}
use mmocraft.Buffer.LockFree
use mmocraft.Buffer.LockFree.{push-Pushed}
use mmocraft.ObjectPool.{ObjectPool, invalid_index, new_object, is_free}
use mmocraft.ObjectPool.Slots
use mmocraft.ObjectPool.Creation.{Created, refused, created, new_object-Created}
use mmocraft.ConnectionIo.{
  MulticastEvent, ConnectionIo, send_raw_data, post_multicast_event, enqueue,
}
use mmocraft.ConnectionIo.Ownership.{IsOwned}

-- What post_multicast_event leaves of data.
pub data Multicast (bytes : List ℕ) (io : ConnectionIo) : ConnectionIo × Bool → Type 0 where
  buffered :
      (sent : LockFree.LockFreeData)
      → length bytes < (LockFree.capacity io.send_data - io.send_data.data_tail) / 2
      → LockFree.contents sent ≡ LockFree.contents io.send_data ++ bytes
      → Multicast bytes io (record io { send_data = sent }, true)
  queued :
      (LockFree.capacity io.send_data - io.send_data.data_tail) / 2 ≤ length bytes
      → (slot : ℕ) (after : ConnectionIo) → is_free io.multicast_event_pool slot ≡ true
      → is_free after.multicast_event_pool slot ≡ false
      → after.ready_multicast_events ≡ io.ready_multicast_events ++ slot ∷ []
      → (after.multicast_events slot).data_bytes ≡ bytes
      → after.send_data ≡ io.send_data
      → Multicast bytes io (after, true)
  lost :
      (LockFree.capacity io.send_data - io.send_data.data_tail) / 2 ≤ length bytes
      → ((i : ℕ) → i < io.multicast_event_pool.capacity → is_free io.multicast_event_pool i ≡ false)
      → Multicast bytes io (io, false)

enqueue-Multicast :
    (io : ConnectionIo) (bytes : List ℕ) (r : ObjectPool × ℕ)
    → (LockFree.capacity io.send_data - io.send_data.data_tail) / 2 ≤ length bytes
    → Created io.multicast_event_pool r
    → Slots.IsValid r.0
    → Multicast bytes io (enqueue bytes io r)
unfolding enqueue
enqueue-Multicast io bytes r long (refused full) v = lost long full
enqueue-Multicast io bytes r long (created q i inside more was now same lowest) v =
    let there : (i == invalid_index) ≡ false = ground (arith, v.within, v.small) in
    let event : MulticastEvent = record { data_bytes = bytes; is_processing = false } in
    simp (there) (
      queued long i _ was now refl
        (ap (λ e. e.data_bytes) (update-same io.multicast_events i event)) refl)

-- Data that is multicast to a connection is appended to its send buffer if it is shorter than half
-- of the free space, and is then never refused. Data that is not shorter is not appended: if a slot
-- of the pool is free, it waits behind the other events in a slot that was free; else nothing changes
-- and the result is false.
pub post_multicast_event-Multicast :
    (commit : ℕ → Bool) (bytes : List ℕ) (io : ConnectionIo)
    → IsOwned io
    → LockFree.IsValid io.send_data
    → Multicast bytes io (post_multicast_event commit bytes io)
      × (length bytes < (LockFree.capacity io.send_data - io.send_data.data_tail) / 2
          → (post_multicast_event commit bytes io).1 ≡ true)
unfolding post_multicast_event send_raw_data
post_multicast_event-Multicast commit bytes io inv v =
    let (made, w) = new_object-Created commit io.multicast_event_pool inv.pool in
    let unused = LockFree.capacity io.send_data - io.send_data.data_tail in
    let (pushed, fits, size, valid) = push-Pushed io.send_data bytes v in
    elim (Bool-cases (ltb (length bytes) (unused / 2))) [
      | inr long ↦ simp (long) (
        enqueue-Multicast io bytes (new_object commit io.multicast_event_pool) (ground arith) made
            w,
        λ h. absurd (ground arith),
      )
      | inl short ↦
          let room : (LockFree.push io.send_data bytes).1 ≡ true = fits.1 (ground arith) in
          simp (short, room)
            (
              elim pushed [
                | inl (done, appended) ↦
                    buffered (LockFree.push io.send_data bytes).0 (ground arith) appended
                | inr (no_room, kept) ↦ absurd cc
              ],
              λ h. refl,
            )
    ]
