-- ===== src/Buffer/LockFree.antt =====
-- io/io_event.h IoSendEventLockFreeDataImpl, the send buffer of a connection. Many threads push, and
-- the thread of a completed send pops. A push is two steps: the exchange that reserves the range and
-- the copy into it; `Pending` is a reserved range that is not copied yet.
pub mod Threads
pub mod Bytes
pub mod Invariant
pub mod Pushing
pub mod Delivery
pub mod Safety
pub mod Bounds
pub mod Race
use mmocraft.Prelude.{
  ℕ, ◌+◌, ◌-◌, ◌≤◌, ◌≡◌, refl, sym, ap, ◌∙◌, ◌≢◌, ◌↔◌, ◌⊎◌, inl, inr, Bool, true, false, Option,
  none, some, List, ◌++◌, arith, ltb, ◌==◌, if◌then◌else◌, Bool-cases, length, take, drop,
  drop-drop,
}
use mmocraft.Buffer.Memory.{Memory, write_at, range, length-write_at, range-write_at, range_self}

pub record LockFreeData : Type 0 where
  pub mem : Memory
  pub data_head : ℕ
  pub data_tail : ℕ

abbrev pub capacity : LockFreeData → ℕ
capacity d = length d.mem

abbrev pub size : LockFreeData → ℕ
size d = d.data_tail - d.data_head

-- Sizes are below 2 ^ 31, so that the source's `int`s hold them.
-- The loop of push up to the exchange that succeeds: the start of the reserved range.
unfoldable pub reserve : LockFreeData → ℕ → Option (ℕ × LockFreeData)
reserve d n =
    if ltb (capacity d) (d.data_tail + n)
    then none
    else some (d.data_tail, record d { data_tail = d.data_tail + n })

-- The copy of push.
unfoldable pub fill : ℕ → List ℕ → LockFreeData → LockFreeData
fill start bytes d = record d { mem = write_at d.mem start bytes }

-- push with no other thread between its two steps.
unfoldable pub push : LockFreeData → List ℕ → LockFreeData × Bool
unfolding reserve fill
push d bytes = elim (reserve d (length bytes)) [
  | none ↦ (d, false)
  | some (start, d') ↦ (fill start bytes d', true)
]

-- pop with no push between its exchange and the reset of the head.
unfoldable pub pop : LockFreeData → ℕ → LockFreeData
pop d n =
    let head = d.data_head + n in
    if d.data_tail == head
    then record d { data_head = 0; data_tail = 0 }
    else record d { data_head = head }

abbrev pub contents : LockFreeData → List ℕ
contents d = range d.mem d.data_head d.data_tail

pub record IsValid (d : LockFreeData) : Type 0 where
  pub ordered : d.data_head ≤ d.data_tail
  pub fits : d.data_tail ≤ capacity d

abbrev pub Pushed : List ℕ → List ℕ → List ℕ → Bool → Type 0
Pushed before bytes after done =
    ((done ≡ true) × (after ≡ before ++ bytes)) ⊎ ((done ≡ false) × (after ≡ before))

-- push appends all of the bytes or nothing and says which, and keeps the capacity and the invariant.
-- It succeeds exactly if the bytes fit behind the tail.
pub push-Pushed :
    (d : LockFreeData) (bytes : List ℕ)
    → IsValid d
    → Pushed (contents d) bytes (contents (push d bytes).0) (push d bytes).1
      × (((push d bytes).1 ≡ true) ↔ (d.data_tail + length bytes ≤ capacity d))
      × (capacity (push d bytes).0 ≡ capacity d)
      × IsValid (push d bytes).0
unfolding push
push-Pushed d bytes v = elim (Bool-cases (ltb (capacity d) (d.data_tail + length bytes))) [
  | inl full ↦ rw (full, push) (inr (refl, refl), (λ h. cc, λ h. absurd (ground arith)), refl, v)
  | inr room ↦
      let room' : d.data_tail + length bytes ≤ length d.mem = ground arith in
      let same : length (write_at d.mem d.data_tail bytes) ≡ length d.mem =
        length-write_at d.mem d.data_tail bytes room' in
      rw (room, push)
        (
          inl (refl, range-write_at d.mem d.data_head d.data_tail bytes v.ordered v.fits),
          (λ h. room', λ h. refl),
          same,
          record { ordered = omega arith; fits = omega (arith, same) },
        )
]

-- pop removes the first bytes and keeps the invariant; when nothing is left the whole capacity is
-- free again.
pub pop-IsValid :
    (d : LockFreeData) (n : ℕ)
    → IsValid d
    → n ≤ size d
    → (contents (pop d n) ≡ drop n (contents d))
      × IsValid (pop d n)
      × ((size (pop d n) ≡ 0) ↔ ((pop d n).data_tail ≡ 0))
unfolding pop
pop-IsValid d n v h = elim (Bool-cases (d.data_tail == d.data_head + n)) [
  | inl all ↦
      let e : d.data_tail ≡ d.data_head + n = ground arith in
      rw (all, pop)
        (
          sym (dropped ∙ ap (range d.mem (d.data_head + n)) e ∙ range_self d.mem (d.data_head + n)),
          record { ordered = omega arith; fits = omega arith },
          (λ z. refl, λ z. omega arith),
        )
  | inr more ↦
      let ne : d.data_tail ≢ d.data_head + n = ground arith in
      rw (more, pop)
        (
          sym dropped,
          record { ordered = omega arith; fits = v.fits },
          (λ z. omega arith, λ z. omega arith),
        )
]
  where
    dropped : drop n (contents d) ≡ range d.mem (d.data_head + n) d.data_tail
    dropped = drop-drop d.data_head n (take d.data_tail d.mem)
