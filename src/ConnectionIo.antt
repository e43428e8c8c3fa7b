-- ===== src/ConnectionIo.antt =====
-- net/connection.h and net/connection.cpp ConnectionIO: what a connection has under way. The
-- events of registered I/O are posted and completed here (io/io_event.cpp); whether registered I/O
-- takes a request, given all requests before, is an argument. No other thread runs during an
-- operation.
pub mod Ownership
pub mod Runs
pub mod Counts
pub mod Accounts
pub mod Order
pub mod Multicast
use mmocraft.Prelude.{
  ℕ, ◌-◌, ◌/◌, ◌≡◌, Bool, true, false, ◌&&◌, ◌||◌, List, [], ◌∷◌, ◌++◌, ltb, ◌==◌, if◌then◌else◌,
  length, update,
}
use mmocraft.Buffer.Recv
use mmocraft.Buffer.Recv.{RecvData}
use mmocraft.Buffer.LockFree
use mmocraft.Buffer.LockFree.{LockFreeData}
use mmocraft.ObjectPool.{ObjectPool, invalid_index, new_object, transition_to_free}

-- A call of RegisteredIO: recv with the free space offered, send, or multicast_send of the event in
-- a slot of the pool.
pub data Request : Type 0 where
  recv : (room : ℕ) → Request
  send : (bytes : List ℕ) → Request
  multicast_send : (slot : ℕ) → (bytes : List ℕ) → Request

-- IoMulticastSendEvent with its IoSendEventReadonlyData.
pub record MulticastEvent : Type 0 where
  pub data_bytes : List ℕ
  pub is_processing : Bool

pub record ConnectionIo : Type 0 where
  pub recv_data : RecvData
  pub is_receive_io_busy : Bool
  pub send_data : LockFreeData
  pub is_send_io_busy : Bool
  pub multicast_event_pool : ObjectPool
  pub multicast_events : ℕ → MulticastEvent  -- the objects in the slots of the pool
  pub ready_multicast_events : List ℕ
  pub requests : List (Request × Bool)  -- the calls of RegisteredIO and their results

abbrev pub Rio : Type 0
Rio = List (Request × Bool) → Request → Bool

unfoldable pub call : Rio → Request → ConnectionIo → ConnectionIo × Bool
call takes request io =
    let taken = takes io.requests request in
    (record io { requests = io.requests ++ (request, taken) ∷ [] }, taken)

-- `max_size_of_packet_struct` is the size that the compiler gives PacketHandshake.
unfoldable pub post_recv_event : Rio → ℕ → ConnectionIo → ConnectionIo × Bool
post_recv_event takes max_size_of_packet_struct io =
    let room = Recv.unused_size io.recv_data in
    let (called, taken) = call takes (recv room) io in
    if io.is_receive_io_busy || ltb room max_size_of_packet_struct
    then (io, false)
    else (record called { is_receive_io_busy = taken }, taken)

unfoldable pub post_send_event : Rio → ConnectionIo → ConnectionIo × Bool
post_send_event takes io =
    let (called, taken) = call takes (send (LockFree.contents io.send_data)) io in
    if io.is_send_io_busy || LockFree.size io.send_data == 0
    then (io, false)
    else (record called { is_send_io_busy = taken }, taken)

-- IoMulticastSendEvent::post_rio_event of the event in a slot.
unfoldable pub post_multicast : Rio → ℕ → ConnectionIo → ConnectionIo × Bool
post_multicast takes slot io =
    let event = io.multicast_events slot in
    let (called, taken) = call takes (multicast_send slot event.data_bytes) io in
    if event.is_processing || length event.data_bytes == 0 then (io, false) else (
      record called {
        multicast_events = update io.multicast_events slot (record event { is_processing = taken });
      },
      taken,
    )

unfoldable pub send_raw_data : List ℕ → ConnectionIo → ConnectionIo × Bool
send_raw_data bytes io =
    let (sent, done) = LockFree.push io.send_data bytes in (record io { send_data = sent }, done)

-- What post_multicast_event does with the slot that new_object_raw gives it.
unfoldable pub enqueue : List ℕ → ConnectionIo → ObjectPool × ℕ → ConnectionIo × Bool
enqueue bytes io (pool, slot) =
    let event : MulticastEvent = record { data_bytes = bytes; is_processing = false } in
    if slot == invalid_index then (record io { multicast_event_pool = pool }, false) else (
      record io {
        multicast_event_pool = pool;
        multicast_events = update io.multicast_events slot event;
        ready_multicast_events = io.ready_multicast_events ++ slot ∷ [];
      },
      true,
    )

unfoldable pub post_multicast_event : (ℕ → Bool) → List ℕ → ConnectionIo → ConnectionIo × Bool
post_multicast_event commit bytes io =
    let unused = LockFree.capacity io.send_data - io.send_data.data_tail in
    let (sent, done) = send_raw_data bytes io in
    if ltb (length bytes) (unused / 2) && done
    then (sent, true)
    else enqueue bytes io (new_object commit io.multicast_event_pool)

unfoldable pub free_multicast_event : ℕ → ConnectionIo → ConnectionIo
free_multicast_event slot io = record io {
  multicast_event_pool = (transition_to_free io.multicast_event_pool slot).0;
}

-- The body of the loop of flush_multicast_send.
unfoldable pub flush_event : Rio → ℕ → ConnectionIo → ConnectionIo
flush_event takes slot io =
    let (posted, taken) = post_multicast takes slot io in
    if taken then posted else free_multicast_event slot posted

unfoldable pub flush_events : Rio → List ℕ → ConnectionIo → ConnectionIo
flush_events takes [] io = io
flush_events takes (slot ∷ slots) io = flush_events takes slots (flush_event takes slot io)

unfoldable pub flush_multicast_send : Rio → ConnectionIo → ConnectionIo
flush_multicast_send takes io =
    flush_events takes io.ready_multicast_events (record io { ready_multicast_events = [] })

-- flush_message of flush_send.
unfoldable pub flush_send : Rio → ConnectionIo → ConnectionIo
flush_send takes io =
    flush_multicast_send takes (if io.is_send_io_busy then io else (post_send_event takes io).0)

-- flush_message of flush_receive.
unfoldable pub flush_receive : Rio → ℕ → ConnectionIo → ConnectionIo
flush_receive takes max_size_of_packet_struct io =
    if io.is_receive_io_busy then io else (post_recv_event takes max_size_of_packet_struct io).0

-- What a completion carries: the number of bytes, 0 for the end of the stream, or a failure.
pub data Completion : Type 0 where
  eof : Completion
  event_failed : Completion
  transferred : (n : ℕ) → Completion

-- IoSendEvent::on_event_complete; the result is true if the connection's on_error is called.
unfoldable pub send_completed : Completion → ConnectionIo → ConnectionIo × Bool
send_completed eof io = (io, true)
send_completed event_failed io = (record io { is_send_io_busy = false }, false)
send_completed (transferred n) io =
    (record io { send_data = LockFree.pop io.send_data n; is_send_io_busy = false }, false)

-- Connection::on_complete of a multicast.
unfoldable pub finish_multicast : ℕ → ConnectionIo → ConnectionIo
finish_multicast slot io =
    let event = record (io.multicast_events slot) { is_processing = false } in
    free_multicast_event slot
      (record io { multicast_events = update io.multicast_events slot event })

-- IoMulticastSendEvent::on_event_complete.
unfoldable pub multicast_completed : ℕ → Completion → ConnectionIo → ConnectionIo × Bool
multicast_completed slot eof io = (io, true)
multicast_completed slot event_failed io = (finish_multicast slot io, false)
multicast_completed slot (transferred n) io = (finish_multicast slot io, false)

-- What happens to a connection. Only an event that is processed completes.
pub data Event : Type 0 where
  sent_raw : (bytes : List ℕ) → Event
  multicast : (commit : ℕ → Bool) → (bytes : List ℕ) → Event
  flushed : (takes : Rio) → Event
  receive_flushed : (takes : Rio) → (max_size_of_packet_struct : ℕ) → Event
  send_done : (signal : Completion) → Event
  multicast_done : (slot : ℕ) → (signal : Completion) → Event

unfoldable pub step : Event → ConnectionIo → ConnectionIo
step (sent_raw bytes) io = (send_raw_data bytes io).0
step (multicast commit bytes) io = (post_multicast_event commit bytes io).0
step (flushed takes) io = flush_send takes io
step (receive_flushed takes size) io = flush_receive takes size io
step (send_done signal) io = (send_completed signal io).0
step (multicast_done slot signal) io = (multicast_completed slot signal io).0

unfoldable pub run : List Event → ConnectionIo → ConnectionIo
run [] io = io
run (e ∷ es) io = run es (step e io)

abbrev pub CanHappen : Event → ConnectionIo → Type 0
CanHappen (multicast_done slot signal) io = (io.multicast_events slot).is_processing ≡ true
CanHappen _ io = Unit

-- Every event of a history can happen when it does.
abbrev pub History : List Event → ConnectionIo → Type 0
History [] io = Unit
History (e ∷ es) io = CanHappen e io × History es (step e io)
