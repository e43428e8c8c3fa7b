-- ===== src/Buffer/LockFree/Bounds.antt =====
-- The ranges of memory that io/io_event.h IoSendEventLockFreeDataImpl and its send event touch.
use mmocraft.Prelude.{
  ℕ, ◌+◌, ◌≤◌, ◌≡◌, refl, sym, ap, ◌∙◌, List, arith, length, update, update-same, update-ne,
}
use mmocraft.Buffer.Memory.{write_at, length-write_at}
use mmocraft.Buffer.LockFree.{LockFreeData, capacity, fill}
use mmocraft.Buffer.LockFree.Threads.{
  Pusher, outside, testing, copying, Push, Push.load, Push.refuse, Push.miss, Push.exchange,
  Push.copy, Sender, sending, sent, popped, Send, Send.flush, Send.transfer, Send.fail,
  Send.advance, Send.keep, Send.clear_tail, Send.clear_head, System, Step.push, Step.send, Reach,
  Reach.start, Reach.later,
}
use mmocraft.Buffer.LockFree.Invariant.{settled}
use mmocraft.Buffer.LockFree.Pushing.{reserve-some}
use native.Mathlib.Decide.{ℕ_discrete}

-- The tail, every copy and what is being sent lie within the `n` bytes of memory.
pub record InBounds (n : ℕ) (d : LockFreeData) (pusher : ℕ → Pusher) (q : Sender) : Type 0 where
  pub kept : capacity d ≡ n
  pub tail : d.data_tail ≤ n
  pub copies : (i off : ℕ) (bytes : List ℕ) → pusher i ≡ copying off bytes → off + length bytes ≤ n
  pub sends : settled q d.data_head ≤ d.data_tail

abbrev Fits : ℕ → Pusher → Type 0
Fits n p = (off : ℕ) (bytes : List ℕ) → p ≡ copying off bytes → off + length bytes ≤ n

update-Fits :
    (n : ℕ) (pusher : ℕ → Pusher) (i : ℕ) (p : Pusher)
    → ((j : ℕ) → Fits n (pusher j))
    → Fits n p
    → (j : ℕ) → Fits n (update pusher i p j)
update-Fits n pusher i p h k j off bytes e = elim (ℕ_discrete i j) [
  | yes here ↦ k off bytes (sym (update-same pusher i p) ∙ ap (update pusher i p) here ∙ e)
  | no ne ↦ h j off bytes (sym (update-ne pusher i j p ne) ∙ e)
]

Send-settled :
    {d d' : LockFreeData} {q r : Sender} {bytes : List ℕ}
    → Send d q d' r bytes
    → settled q d.data_head ≤ d.data_tail
    → (capacity d' ≡ capacity d)
      × (d'.data_tail ≤ d.data_tail)
      × (settled r d'.data_head ≤ d'.data_tail)
Send-settled (flush h) k = ground arith
Send-settled (transfer m low high) k = ground arith
Send-settled fail k = ground arith
Send-settled advance k = ground arith
Send-settled (keep h) k = ground arith
Send-settled (clear_tail e) k = ground arith
Send-settled clear_head k = ground arith

module _ {n : ℕ} {d : LockFreeData} {pusher : ℕ → Pusher} {q : Sender}
    (inv : InBounds n d pusher q) where
  aside : (i : ℕ) (p : Pusher) → Fits n p → InBounds n d (update pusher i p) q
  aside i p h = record {
    kept = inv.kept;
    tail = inv.tail;
    copies = update-Fits n pusher i p inv.copies h;
    sends = inv.sends;
  }

  Push-InBounds :
      (i : ℕ) {p p' : Pusher} {d' : LockFreeData} {bytes : List ℕ}
      → pusher i ≡ p
      → Push d p d' p' bytes
      → InBounds n d' (update pusher i p') q
  unfolding fill
  Push-InBounds i e (load bytes) = aside i (testing bytes d.data_tail) (λ off b c. absurd cc)
  Push-InBounds i e (refuse h) = aside i outside (λ off b c. absurd cc)
  Push-InBounds i e (miss {bytes}) = aside i (testing bytes d.data_tail) (λ off b c. absurd cc)
  Push-InBounds i e (exchange {bytes} {old} {d'} h) =
      let (starts, after, room) = reserve-some d d' (length bytes) old h in
      rw (starts, after)
        (record {
          kept = inv.kept;
          tail = omega (arith, inv.kept);
          copies = update-Fits n pusher i (copying d.data_tail bytes) inv.copies (λ off b c.
              let here : d.data_tail ≡ off = cc in
              let same : bytes ≡ b = cc in omega (arith, here, ap length same, inv.kept));
          sends = omega (arith, inv.sends);
        })
  Push-InBounds i e (copy {bytes} {old}) =
      let same : length (write_at d.mem old bytes) ≡ length d.mem =
        length-write_at d.mem old bytes (omega (arith, inv.copies i old bytes e, inv.kept)) in
      record {
        kept = same ∙ inv.kept;
        tail = inv.tail;
        copies = update-Fits n pusher i outside inv.copies (λ off b c. absurd cc);
        sends = inv.sends;
      }

  Send-InBounds :
      {r : Sender} {d' : LockFreeData} {bytes : List ℕ}
      → Send d q d' r bytes
      → InBounds n d' pusher r
  Send-InBounds move =
      let (kept, tail, sends) = Send-settled move inv.sends in
      record {
        kept = kept ∙ inv.kept;
        tail = omega (arith, tail, inv.tail);
        copies = inv.copies;
        sends = sends;
      }

Reach-parts :
    {May : System → Type 0} {mem : List ℕ} {s : System}
    → Reach May mem s
    → InBounds (length mem) s.buffer s.pusher s.sender
Reach-parts start = record {
  kept = refl;
  tail = omega arith;
  copies = λ i off bytes e. absurd cc;
  sends = omega arith;
}
Reach-parts (later r (push i move)) = Push-InBounds (Reach-parts r) i refl move
Reach-parts (later r (send g move)) = Send-InBounds (Reach-parts r) move

-- Whenever flushes start: the capacity never changes and the tail never exceeds it, every range that a
-- thread has still to copy lies within the memory, and the range that the send event has posted
-- never passes the tail, so that the head never does either, which pop asserts.
pub Reach-InBounds :
    {May : System → Type 0} {mem : List ℕ} {s : System}
    → Reach May mem s
    → (capacity s.buffer ≡ length mem)
      × (s.buffer.data_tail ≤ length mem)
      × ((i off : ℕ) (bytes : List ℕ)
          → s.pusher i ≡ copying off bytes
          → off + length bytes ≤ length mem)
      × ((n : ℕ) → s.sender ≡ sending n → s.buffer.data_head + n ≤ s.buffer.data_tail)
      × ((m : ℕ) → s.sender ≡ sent m → s.buffer.data_head + m ≤ s.buffer.data_tail)
      × (s.sender ≡ popped → s.buffer.data_head ≤ s.buffer.data_tail)
Reach-InBounds {s} r =
    let inv = Reach-parts r in
    let at : (q : Sender) → s.sender ≡ q → settled q s.buffer.data_head ≤ s.buffer.data_tail =
      λ q e. rw (sym e) inv.sends in
    (
      inv.kept,
      inv.tail,
      inv.copies,
      λ n e. at (sending n) e,
      λ m e. at (sent m) e,
      λ e. at popped e,
    )
