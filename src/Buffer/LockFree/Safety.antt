-- ===== src/Buffer/LockFree/Safety.antt =====
-- What the send buffer of a connection (io/io_event.h IoSendEventLockFreeDataImpl) promises to the
-- threads that push into it and to its send event, whatever the interleaving.
use mmocraft.Prelude.{
  ℕ, ◌≡◌, refl, sym, ap, ◌∙◌, inl, inr, List, [], ◌++◌, arith, drop, take-length,
}
use mmocraft.Buffer.Memory.{range}
use mmocraft.Buffer.LockFree.{contents, IsValid}
use mmocraft.Buffer.LockFree.Bytes.{range-ext}
use mmocraft.Buffer.LockFree.Threads.{
  quiet, System, Step.push, Step.send, init, Reach, Reach.start, Reach.later, NobodyCopies,
}
use mmocraft.Buffer.LockFree.Invariant.{unread}
use mmocraft.Buffer.LockFree.Pushing.{Inv, Push-Inv}
use mmocraft.Buffer.LockFree.Delivery.{Send-Inv}

init-Inv : (mem : List ℕ) → Inv (init mem)
init-Inv mem = record {
  log = [];
  holds = record {
    tail = refl;
    fits = omega arith;
    copies = λ i off bytes e. absurd cc;
    written = λ p h. absurd (omega arith);
  };
  within = (omega arith, omega arith);
  flow = refl;
}

Reach-Inv : {mem : List ℕ} {s : System} → Reach NobodyCopies mem s → Inv s
Reach-Inv {mem} start = init-Inv mem
Reach-Inv (later {s} r (push i move)) = Push-Inv (Reach-Inv r) i refl move
Reach-Inv (later {s} r (send g move)) =
    Send-Inv s.pusher s.wire s.accepted s.buffer g move (Reach-Inv r)

rest-contents :
    {s : System} (inv : Inv s)
    → s.sender ≡ quiet
    → NobodyCopies s
    → (s.wire ++ contents s.buffer ≡ s.accepted) × IsValid s.buffer
rest-contents {s} inv q nobody =
    let head : unread s.sender s.buffer.data_head ≡ s.buffer.data_head =
      ap (λ x. unread x s.buffer.data_head) q in
    let tail = inv.holds.tail in
    let fits = inv.holds.fits in
    let within = inv.within.0 in
    let same : contents s.buffer ≡ range inv.log s.buffer.data_head s.buffer.data_tail =
      range-ext s.buffer.mem inv.log s.buffer.data_head s.buffer.data_tail fits
        (omega (arith, tail))
        (λ p low high. elim (inv.holds.written p high) [
          | inl e ↦ e
          | inr (i, off, bytes, c, low', high') ↦ absurd (nobody i off bytes c)
        ]) in
    (
      ap (◌++◌ s.wire) (
            same
            ∙ ap (drop s.buffer.data_head)
                (take-length s.buffer.data_tail inv.log (omega (arith, tail)))
            ∙ ap (λ n. drop n inv.log) (sym head))
          ∙ inv.flow,
      record { ordered = omega (arith, head, within); fits = fits },
    )

-- As long as no flush starts while a thread stands between its exchange and its copy, the bytes
-- transferred are a prefix of the bytes of the pushes that were accepted, in the order of their
-- exchanges: nothing is lost, repeated, reordered or torn by any interleaving of pushes with flushes,
-- partial transfers, failed sends and resets of the tail. Whenever in addition the send event is idle
-- and nobody copies, the rest is exactly the contents of the buffer.
pub wire-Reach :
    {mem : List ℕ} {s : System}
    → Reach NobodyCopies mem s
    → ((rest : List ℕ) × (s.wire ++ rest ≡ s.accepted))
      × (s.sender ≡ quiet
          → NobodyCopies s
          → (s.wire ++ contents s.buffer ≡ s.accepted) × IsValid s.buffer)
wire-Reach {mem} {s} r =
    let inv = Reach-Inv r in
    (
      (drop (unread s.sender s.buffer.data_head) inv.log, inv.flow),
      λ q nobody. rest-contents inv q nobody,
    )
