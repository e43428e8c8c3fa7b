-- ===== src/Buffer/LockFree/Race.antt =====
-- io/io_event.cpp IoSendEvent::post_rio_event flushes up to the tail of the send buffer, though
-- io/io_event.h IoSendEventLockFreeDataImpl::push moves the tail before it copies.
use mmocraft.Prelude.{ℕ, ◌+◌, ◌≤◌, ◌<◌, ◌≡◌, refl, ap, some, List, arith, length, take}
use mmocraft.Buffer.LockFree.{reserve}
use mmocraft.Buffer.LockFree.Threads.{
  Push.load, Push.exchange, Send.flush, Send.transfer, System, Step.push, Step.send, Reach,
  Reach.start, Reach.later, Anytime,
}

reserve-room :
    (mem : List ℕ) (n : ℕ)
    → n ≤ length mem
    → reserve (record { mem = mem; data_head = 0; data_tail = 0 }) n
      ≡ some (0, record { mem = mem; data_head = 0; data_tail = 0 + n })
unfolding reserve
reserve-room mem n h = ground arith

-- A flush may start at any time, so for every memory and all bytes that fit into it there is an
-- interleaving of one push and one flush after which the push is accepted and the bytes transferred
-- are the old bytes of the memory.
pub wire-old_memory :
    (mem bytes : List ℕ)
    → 0 < length bytes
    → length bytes ≤ length mem
    → (s : System) × Reach Anytime mem s × (s.accepted ≡ bytes) × (s.wire ≡ take (length bytes) mem)
unfolding native.Mathlib.Decide.ℕ_discrete
wire-old_memory mem bytes some_bytes room =
    let e : 0 + length bytes ≡ length bytes = omega arith in
    (
      _,
      later
          (later
            (later (later start (push 0 (load bytes)))
              (push 0 (exchange (reserve-room mem (length bytes) room))))
            (send tt (flush (omega arith))))
          (send tt (transfer (length bytes) some_bytes (omega arith))),
      refl,
      ap (λ n. take n mem) e,
    )
