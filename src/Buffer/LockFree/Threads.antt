-- ===== src/Buffer/LockFree/Threads.antt =====
-- io/io_event.h IoSendEventLockFreeDataImpl and io/io_event.cpp IoSendEvent, step by step: any
-- number of threads push while the one send event of the connection flushes, transfers and pops. A
-- step of a system is one access to the shared tail, one copy, or one step of the send event.
use mmocraft.Prelude.{ℕ, ◌+◌, ◌≤◌, ◌<◌, ◌≡◌, ◌≢◌, some, List, [], ◌++◌, length, update}
use mmocraft.Buffer.Memory.{range}
use mmocraft.Buffer.LockFree.{LockFreeData, capacity, size, reserve, fill}

-- Where a thread stands in push, with the local variables that are live there.
pub data Pusher : Type 0 where
  outside : Pusher
  testing : (bytes : List ℕ) → (old_tail : ℕ) → Pusher  -- head of the loop
  copying : (old_tail : ℕ) → (bytes : List ℕ) → Pusher  -- before std::memcpy

-- One step of push: the thread, the buffer and the bytes that the step accepts. The exchange is
-- weak: it may fail though the tail is the expected one.
pub data Push (d : LockFreeData) : Pusher → LockFreeData → Pusher → List ℕ → Type 0 where
  load : (bytes : List ℕ) → Push d outside d (testing bytes d.data_tail) []
  refuse :
      {bytes : List ℕ} {old : ℕ}
      → capacity d < old + length bytes
      → Push d (testing bytes old) d outside []
  miss : {bytes : List ℕ} {old : ℕ} → Push d (testing bytes old) d (testing bytes d.data_tail) []
  exchange :
      {bytes : List ℕ} {old : ℕ} {d' : LockFreeData}
      → reserve d (length bytes) ≡ some (old, d')
      → Push d (testing bytes old) d' (copying old bytes) bytes
  copy : {bytes : List ℕ} {old : ℕ} → Push d (copying old bytes) (fill old bytes d) outside []

-- Where the send event stands; all but `quiet` have is_processing set.
pub data Sender : Type 0 where
  quiet : Sender
  sending : (n : ℕ) → Sender  -- posted with the size `n`
  sent : (m : ℕ) → Sender  -- completed with `m` bytes, start of pop
  popped : Sender  -- before the exchange of pop
  clearing : Sender  -- the tail is 0, the head is not yet

-- One step of the send event: the buffer and the bytes that the step transfers.
pub data Send (d : LockFreeData) : Sender → LockFreeData → Sender → List ℕ → Type 0 where
  flush : 0 < size d → Send d quiet d (sending (size d)) []
  transfer :
      {n : ℕ} (m : ℕ)
      → 0 < m
      → m ≤ n
      → Send d (sending n) d (sent m) (range d.mem d.data_head (d.data_head + m))
  fail : {n : ℕ} → Send d (sending n) d quiet []
  advance : {m : ℕ} → Send d (sent m) (record d { data_head = d.data_head + m }) popped []
  keep : d.data_tail ≢ d.data_head → Send d popped d quiet []
  clear_tail : d.data_tail ≡ d.data_head → Send d popped (record d { data_tail = 0 }) clearing []
  clear_head : Send d clearing (record d { data_head = 0 }) quiet []

pub record System : Type 0 where
  pub buffer : LockFreeData
  pub pusher : ℕ → Pusher
  pub sender : Sender
  pub accepted : List ℕ  -- the bytes of every exchange that succeeded, in their order
  pub wire : List ℕ  -- the bytes transferred

-- A flush starts only where `May` allows it.
abbrev pub Guard : (System → Type 0) → System → Sender → Type 0
Guard May s quiet = May s
Guard May s _ = Unit

pub data Step (May : System → Type 0) (s : System) : System → Type 0 where
  push :
      (i : ℕ) {d : LockFreeData} {p : Pusher} {bytes : List ℕ}
      → Push s.buffer (s.pusher i) d p bytes
      → Step May s
          (record s { buffer = d; pusher = update s.pusher i p; accepted = s.accepted ++ bytes })
  send :
      {d : LockFreeData} {q : Sender} {bytes : List ℕ}
      → Guard May s s.sender
      → Send s.buffer s.sender d q bytes
      → Step May s (record s { buffer = d; sender = q; wire = s.wire ++ bytes })

abbrev pub init : List ℕ → System
init mem = record {
  buffer = record { mem = mem; data_head = 0; data_tail = 0 };
  pusher = λ i. outside;
  sender = quiet;
  accepted = [];
  wire = [];
}

pub data Reach (May : System → Type 0) (mem : List ℕ) : System → Type 0 where
  start : Reach May mem (init mem)
  later : {s t : System} → Reach May mem s → Step May s t → Reach May mem t

-- What the code asks before it flushes.
abbrev pub Anytime : System → Type 0
Anytime s = Unit

-- No thread stands between its exchange and its copy.
abbrev pub NobodyCopies : System → Type 0
NobodyCopies s = (i old : ℕ) (bytes : List ℕ) → s.pusher i ≢ copying old bytes
