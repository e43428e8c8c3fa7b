-- ===== src/Buffer/LockFree/Pushing.antt =====
-- The invariant of the send buffer of io/io_event.h IoSendEventLockFreeDataImpl with its send event,
-- and that the steps of push keep it.
use mmocraft.Prelude.{
  ℕ, ◌+◌, ◌≤◌, ◌≡◌, sym, ap, ◌∙◌, ◌≢◌, some, List, [], ◌++◌, append-nil, append_assoc, arith,
  length, drop, update,
}
use mmocraft.Buffer.Memory.{drop-append_le}
use mmocraft.Buffer.LockFree.{LockFreeData, capacity, reserve, fill}
use mmocraft.Buffer.LockFree.Threads.{
  Pusher, copying, Push, Push.load, Push.refuse, Push.miss, Push.exchange, Push.copy, System,
}
use mmocraft.Buffer.LockFree.Invariant.{
  unread, settled, Holds, Holds-aside, Holds-exchange, Holds-copy,
}

pub record Inv (s : System) : Type 0 where
  pub log : List ℕ
  pub holds : Holds s.buffer s.pusher (settled s.sender s.buffer.data_head) log
  pub within :
      (unread s.sender s.buffer.data_head ≤ s.buffer.data_tail)
      × (settled s.sender s.buffer.data_head ≤ s.buffer.data_tail)
  pub flow : s.wire ++ drop (unread s.sender s.buffer.data_head) log ≡ s.accepted

pub reserve-some :
    (d d' : LockFreeData) (n old : ℕ)
    → reserve d n ≡ some (old, d')
    → (old ≡ d.data_tail)
      × (d' ≡ record d { data_tail = d.data_tail + n })
      × (d.data_tail + n ≤ capacity d)
unfolding reserve
reserve-some d d' n old h = ground (arith)

module _ {s : System} (inv : Inv s) (i : ℕ) where
  aside :
      {q p : Pusher}
      → s.pusher i ≡ q
      → ((off : ℕ) (bytes : List ℕ) → q ≢ copying off bytes)
      → ((off : ℕ) (bytes : List ℕ) → p ≢ copying off bytes)
      → Inv (record s { pusher = update s.pusher i p; accepted = s.accepted ++ [] })
  aside e hq hp = record {
    log = inv.log;
    holds = Holds-aside inv.holds i e hq hp;
    within = inv.within;
    flow = inv.flow ∙ sym (append-nil s.accepted);
  }

  pub Push-Inv :
      {q p : Pusher} {d : LockFreeData} {bytes : List ℕ}
      → s.pusher i ≡ q
      → Push s.buffer q d p bytes
      → Inv (record s { buffer = d; pusher = update s.pusher i p; accepted = s.accepted ++ bytes })
  unfolding fill
  Push-Inv e (load bytes) = aside e (λ off b. cc) (λ off b. cc)
  Push-Inv e (refuse h) = aside e (λ off b. cc) (λ off b. cc)
  Push-Inv e miss = aside e (λ off b. cc) (λ off b. cc)
  Push-Inv e (exchange {bytes} {old} {d'} h) =
      let (starts, after, room) = reserve-some s.buffer d' (length bytes) old h in
      rw (starts, after)
        (record {
          log = inv.log ++ bytes;
          holds = Holds-exchange inv.holds i e inv.within.1 room;
          within = (omega (arith, inv.within.0), omega (arith, inv.within.1));
          flow =
              ap (◌++◌ s.wire) (
                drop-append_le (unread s.sender s.buffer.data_head) inv.log bytes
                  (omega (arith, inv.within.0, inv.holds.tail)))
              ∙ sym (append_assoc s.wire (drop (unread s.sender s.buffer.data_head) inv.log) bytes)
              ∙ ap (λ xs. xs ++ bytes) inv.flow;
        })
  Push-Inv e (copy {bytes} {old}) = record {
    log = inv.log;
    holds = Holds-copy inv.holds i e;
    within = inv.within;
    flow = inv.flow ∙ sym (append-nil s.accepted);
  }
