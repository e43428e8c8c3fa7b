-- ===== src/Buffer/LockFree/Delivery.antt =====
-- The bytes that the send event of a connection (io/io_event.cpp IoSendEvent) takes from the buffer
-- of io/io_event.h IoSendEventLockFreeDataImpl while threads push.
use mmocraft.Prelude.{
  ℕ, zero, suc, ◌+◌, ◌≤◌, ◌<◌, ◌≡◌, refl, sym, ap, ◌∙◌, inl, inr, List, [], ◌∷◌, ◌++◌, append-nil,
  append_assoc, arith, length, get_elem?, take, drop, length-take, take-append-drop,
}
use mmocraft.Buffer.Memory.{drop-append_le, range}
use mmocraft.Buffer.LockFree.{LockFreeData}
use mmocraft.Buffer.LockFree.Bytes.{range-ext}
use mmocraft.Buffer.LockFree.Threads.{
  Pusher, Sender, sending, sent, popped, clearing, Send, Send.flush, Send.transfer, Send.fail,
  Send.advance, Send.keep, Send.clear_tail, Send.clear_head, System, Guard, NobodyCopies,
}
use mmocraft.Buffer.LockFree.Invariant.{Holds}
use mmocraft.Buffer.LockFree.Pushing.{Inv}

Holds-loosen :
    (d : LockFreeData) (pusher : ℕ → Pusher) (first first' head : ℕ) (log : List ℕ)
    → first' ≤ first
    → Holds d pusher first log
    → Holds (record d { data_head = head }) pusher first' log
Holds-loosen d pusher first first' head log h inv = record {
  tail = inv.tail;
  fits = inv.fits;
  copies = λ i off bytes e. elim (inv.copies i off bytes e) [
    | inl z ↦ inl z
    | inr (low, room, agree) ↦ inr (omega arith, room, agree)
  ];
  written = inv.written;
}

-- Below the settled bytes the memory is the log.
written_settled :
    (d : LockFreeData) (pusher : ℕ → Pusher) (first p : ℕ) (log : List ℕ)
    → Holds d pusher first log
    → first ≤ d.data_tail
    → p < first
    → get_elem? d.mem p ≡ get_elem? log p
written_settled d pusher first p log inv h k = elim (inv.written p (omega arith)) [
  | inl same ↦ same
  | inr (i, off, bytes, c, low, high) ↦ elim (inv.copies i off bytes c) [
    | inl z ↦ absurd (omega arith)
    | inr (above, room, agree) ↦ absurd (omega arith)
  ]
]

range-drop :
    (xs : List ℕ) (first last : ℕ)
    → first ≤ last
    → last ≤ length xs
    → range xs first last ++ drop last xs ≡ drop first xs
range-drop xs first last h k =
    sym (drop-append_le first (take last xs) (drop last xs) (omega (arith, length-take last xs)))
    ∙ ap (drop first) (take-append-drop last xs)

drop_all : (n : ℕ) (xs : List ℕ) → length xs ≤ n → drop n xs ≡ []
drop_all zero [] h = refl
drop_all zero (x ∷ xs) h = absurd (omega arith)
drop_all (suc n) [] h = refl
drop_all (suc n) (x ∷ xs) h = drop_all n xs (omega arith)

nothing_sent :
    (wire rest accepted : List ℕ) → wire ++ rest ≡ accepted → (wire ++ []) ++ rest ≡ accepted
nothing_sent wire rest accepted e = ap (λ xs. xs ++ rest) (append-nil wire) ∙ e

module _ (pusher : ℕ → Pusher) (wire accepted : List ℕ) where
  abbrev at : LockFreeData → Sender → List ℕ → System
  at d' q sent_bytes = record {
    buffer = d';
    pusher = pusher;
    sender = q;
    accepted = accepted;
    wire = wire ++ sent_bytes;
  }

  abbrev now : LockFreeData → Sender → System
  now d q = record { buffer = d; pusher = pusher; sender = q; accepted = accepted; wire = wire }

  transfer-Inv :
      (d : LockFreeData) (n m : ℕ)
      → m ≤ n
      → Inv (now d (sending n))
      → Inv (at d (sent m) (range d.mem d.data_head (d.data_head + m)))
  transfer-Inv d n m h inv =
      let tail = inv.holds.tail in
      let fits = inv.holds.fits in
      let sendable = inv.within.1 in
      let head = d.data_head in
      let same : range d.mem head (head + m) ≡ range inv.log head (head + m) =
        range-ext d.mem inv.log head (head + m) (omega arith) (omega (arith, tail)) (λ p low high.
          written_settled d pusher (head + n) p inv.log inv.holds sendable (omega arith)) in
      record {
        log = inv.log;
        holds = Holds-loosen d pusher (head + n) (head + m) head inv.log (omega arith) inv.holds;
        within = (omega arith, omega arith);
        flow =
            append_assoc wire (range d.mem head (head + m)) (drop (head + m) inv.log)
            ∙ ap (λ xs. wire ++ (xs ++ drop (head + m) inv.log)) same
            ∙ ap (◌++◌ wire)
                (range-drop inv.log head (head + m) (omega arith) (omega (arith, tail)))
            ∙ inv.flow;
      }

  clear-Inv :
      (d : LockFreeData)
      → d.data_tail ≡ d.data_head
      → Inv (now d popped)
      → Inv (at (record d { data_tail = 0 }) clearing [])
  clear-Inv d e inv =
      let tail = inv.holds.tail in
      record {
        log = [];
        holds = record {
          tail = refl;
          fits = omega arith;
          copies = λ i off bytes c. elim (inv.holds.copies i off bytes c) [
            | inl z ↦ inl z
            | inr (low, room, agree) ↦ inl (omega (arith, tail, e))
          ];
          written = λ p h. absurd (omega arith);
        };
        within = (omega arith, omega arith);
        flow =
            append-nil (wire ++ [])
            ∙ ap (◌++◌ wire) (sym (drop_all d.data_head inv.log (omega (arith, tail, e))))
            ∙ inv.flow;
      }

  pub Send-Inv :
      (d : LockFreeData) {q r : Sender} {d' : LockFreeData} {bytes : List ℕ}
      → Guard NobodyCopies (now d q) q
      → Send d q d' r bytes
      → Inv (now d q)
      → Inv (at d' r bytes)
  Send-Inv d g (flush h) inv = record {
    log = inv.log;
    holds = record {
      tail = inv.holds.tail;
      fits = inv.holds.fits;
      copies = λ i off bytes c. absurd (g i off bytes c);
      written = inv.holds.written;
    };
    within = (inv.within.0, omega (arith, h));
    flow = nothing_sent wire _ accepted inv.flow;
  }
  Send-Inv d g (transfer {n} m h k) inv = transfer-Inv d n m k inv
  Send-Inv d g (fail {n}) inv = record {
    log = inv.log;
    holds = Holds-loosen d pusher (d.data_head + n) 0 d.data_head inv.log (omega arith) inv.holds;
    within = (inv.within.0, omega arith);
    flow = nothing_sent wire _ accepted inv.flow;
  }
  Send-Inv d g (advance {m}) inv = record {
    log = inv.log;
    holds =
        Holds-loosen d pusher (d.data_head + m) (d.data_head + m) (d.data_head + m) inv.log
          (omega arith) inv.holds;
    within = inv.within;
    flow = nothing_sent wire _ accepted inv.flow;
  }
  Send-Inv d g (keep h) inv = record {
    log = inv.log;
    holds = Holds-loosen d pusher d.data_head 0 d.data_head inv.log (omega arith) inv.holds;
    within = (inv.within.0, omega arith);
    flow = nothing_sent wire _ accepted inv.flow;
  }
  Send-Inv d g (clear_tail e) inv = clear-Inv d e inv
  Send-Inv d g clear_head inv = record {
    log = inv.log;
    holds = Holds-loosen d pusher 0 0 0 inv.log (omega arith) inv.holds;
    within = (omega arith, omega arith);
    flow = nothing_sent wire _ accepted inv.flow;
  }
