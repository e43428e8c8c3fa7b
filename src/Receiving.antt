-- ===== src/Receiving.antt =====
-- io/io_event.cpp IoRecvEvent::on_event_complete with what net/connection.cpp does for it:
-- Connection::handle_io_event, on_complete and on_error. The server behind the connection is any
-- state `S` with a packet handler, and with what a kick and a disconnect do to it.
pub mod Stream
use mmocraft.Prelude.{ℕ, Bool, not, List, ◌==◌, if◌then◌else◌}
use mmocraft.Code
use mmocraft.Buffer.Recv
use mmocraft.Buffer.Recv.{RecvData, contents}
use mmocraft.Framing.{Handler, Outcome, process_packets}

-- The bytes transferred by the kernel, or a signal in their place.
pub data Signal : Type 0 where
  eof event_failed retry_packet_process : Signal
  transferred : List ℕ → Signal

pub record Receiver (S : Type 0) : Type 0 where
  pub server : S
  pub event_data : RecvData
  pub last_error : ℕ
  pub is_online : Bool
  pub last_interaction_tick : ℕ

-- The other parts of the server that a receive reaches.
pub record Callbacks (S : Type 0) : Type 0 where
  pub handle_packet : Handler S
  pub kick : ℕ → S → S
  pub disconnect : S → S

module _ {S : Type 0} (calls : Callbacks S) where
  -- Connection::on_complete for a receive.
  unfoldable pub on_complete : Receiver S → Receiver S
  on_complete r =
      if not (Code.is_packet_handle_success r.last_error)
      then record r { server = calls.kick r.last_error r.server }
      else record r { last_error = Code.success }

  -- Connection::handle_io_event, with the number of bytes that it returns.
  unfoldable pub handle_io_event : ℕ → Receiver S → Receiver S × ℕ
  handle_io_event now r =
      let o = process_packets calls.handle_packet r.server r.last_error (contents r.event_data) in
      if r.is_online
      then (
        record r { server = o.state; last_error = o.last_error; last_interaction_tick = now },
        o.parsed,
      )
      else (r, 0)

  -- The part of on_event_complete behind its pre-processing.
  unfoldable pub deliver : ℕ → Receiver S → Receiver S
  unfolding handle_io_event on_complete
  deliver now r =
      let (handled, processed_bytes) = handle_io_event now r in
      on_complete (
        if processed_bytes == 0
        then handled
        else record handled { event_data = Recv.pop processed_bytes handled.event_data })

  unfoldable pub on_event_complete : Signal → ℕ → Receiver S → Receiver S
  unfolding deliver
  on_event_complete Signal.eof now r = record r { server = calls.disconnect r.server }
  on_event_complete Signal.event_failed now r = on_complete r
  on_event_complete Signal.retry_packet_process now r = deliver now r
  on_event_complete (Signal.transferred bytes) now r =
      deliver now (record r { event_data = Recv.receive bytes r.event_data })
