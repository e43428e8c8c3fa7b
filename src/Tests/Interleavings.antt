-- ===== src/Tests/Interleavings.antt =====
-- The send buffer under two threads and the send event at concrete values.
use mmocraft.Prelude.{ℕ, zero, suc, ◌+◌, ◌≤◌, ◌≡◌, refl, List, [], ◌∷◌, ◌++◌, arith, length, update}
use mmocraft.Buffer.LockFree
use mmocraft.Buffer.Memory
use mmocraft.Buffer.LockFree.{capacity, contents, reserve, IsValid}
use mmocraft.Buffer.LockFree.Threads
use mmocraft.Buffer.LockFree.Threads.{
  Pusher, outside, copying, Push.load, Push.exchange, Push.copy, Sender, quiet, sending, sent,
  popped, Send.flush, Send.transfer, System, Step, Step.push, Step.send, init, Reach, Reach.start,
  Reach.later, Anytime, NobodyCopies,
}
use mmocraft.Buffer.LockFree.Safety
use mmocraft.Buffer.LockFree.Race
use mmocraft.Buffer.LockFree.Bounds

abbrev memory : List ℕ
memory = 50 ∷ 51 ∷ 52 ∷ 53 ∷ []

-- A thread pushes two bytes while another one loads the tail.
abbrev pushed : System
pushed = record {
  buffer = record { mem = 7 ∷ 8 ∷ 52 ∷ 53 ∷ []; data_head = 0; data_tail = 2 };
  pusher =
      update
        (update
          (update (update (λ i. outside) 0 (Threads.testing (7 ∷ 8 ∷ []) 0)) 1
            (Threads.testing (9 ∷ []) 0))
          0 (copying 0 (7 ∷ 8 ∷ [])))
        0 outside;
  sender = quiet;
  accepted = 7 ∷ 8 ∷ [];
  wire = [];
}

reach_pushed : {May : System → Type 0} → Reach May memory pushed
unfolding LockFree.reserve LockFree.fill Memory.write_at native.Mathlib.Decide.ℕ_discrete
reach_pushed =
    later
      (later (later (later start (push 0 (load (7 ∷ 8 ∷ [])))) (push 1 (load (9 ∷ []))))
        (push 0 (exchange refl)))
      (push 0 copy)

nobody_copies : NobodyCopies pushed
unfolding native.Mathlib.Decide.ℕ_discrete
nobody_copies zero old bytes = cc
nobody_copies (suc zero) old bytes = cc
nobody_copies (suc (suc i)) old bytes = ground arith

-- Then the send event flushes both bytes and transfers one.
abbrev half_sent : System
half_sent = record pushed { sender = sent 1; wire = 7 ∷ [] }

reach_half_sent : Reach NobodyCopies memory half_sent
reach_half_sent =
    later (later reach_pushed (send nobody_copies (flush (omega arith))))
      (send tt (transfer 1 (omega arith) (omega arith)))

wire-Reach_example :
    ((rest : List ℕ) × (half_sent.wire ++ rest ≡ half_sent.accepted))
    × (half_sent.sender ≡ quiet
        → NobodyCopies half_sent
        → (half_sent.wire ++ contents half_sent.buffer ≡ half_sent.accepted)
          × IsValid half_sent.buffer)
wire-Reach_example = Safety.wire-Reach reach_half_sent

wire-old_memory_example :
    (s : System) × Reach Anytime memory s × (s.accepted ≡ 7 ∷ 8 ∷ []) × (s.wire ≡ 50 ∷ 51 ∷ [])
wire-old_memory_example = Race.wire-old_memory memory (7 ∷ 8 ∷ []) (omega arith) (omega arith)

Reach-InBounds_example :
    (capacity pushed.buffer ≡ 4)
    × (pushed.buffer.data_tail ≤ 4)
    × ((i off : ℕ) (bytes : List ℕ) → pushed.pusher i ≡ copying off bytes → off + length bytes ≤ 4)
    × ((n : ℕ) → pushed.sender ≡ sending n → pushed.buffer.data_head + n ≤ pushed.buffer.data_tail)
    × ((m : ℕ) → pushed.sender ≡ sent m → pushed.buffer.data_head + m ≤ pushed.buffer.data_tail)
    × (pushed.sender ≡ popped → pushed.buffer.data_head ≤ pushed.buffer.data_tail)
Reach-InBounds_example = Bounds.Reach-InBounds (reach_pushed {May = Anytime})
