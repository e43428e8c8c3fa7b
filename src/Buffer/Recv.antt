-- ===== src/Buffer/Recv.antt =====
-- io/io_event.h and io/io_event.cpp IoRecvEventDataImpl: the receive buffer, whose used bytes lie at
-- its front. The kernel writes received bytes behind them.
use mmocraft.Prelude.{
  ℕ, ◌+◌, ◌-◌, ◌%◌, ◌^◌, ◌≤◌, ◌<◌, ◌≡◌, refl, sym, ap, ◌∙◌, inl, inr, Option, none, some, List, [],
  ◌∷◌, ◌++◌, arith, ◌==◌, if◌then◌else◌, Bool-cases, length, take, drop, take-length,
}
use mmocraft.Buffer.Memory.{
  Memory, write_at, range, length-write_at, take-write_at, take-move, length-range, range_self,
  take-take,
}

-- `mem` is the buffer of `_capacity` bytes.
pub record RecvData : Type 0 where
  pub mem : Memory
  pub size : ℕ

abbrev pub capacity : RecvData → ℕ
capacity d = length d.mem

unfoldable pub unused_size : RecvData → ℕ
unused_size d = (capacity d + 2 ^ 32 - d.size) % 2 ^ 32

-- push: `none` is the null pointer, with which only the size grows by `n`. Bytes that are given are
-- copied to begin().
unfoldable pub push : Option (List ℕ) → ℕ → RecvData → RecvData
push none n d = record d { size = (d.size + n) % 2 ^ 32 }
push (some bytes) n d = record {
  mem = write_at d.mem 0 (take n bytes);
  size = (d.size + n) % 2 ^ 32;
}

-- `_size -= n` for an unsigned size.
unfoldable pub pop : ℕ → RecvData → RecvData
pop n d =
    let size = (d.size + 2 ^ 32 - n % 2 ^ 32) % 2 ^ 32 in
    if size == 0
    then record d { size = 0 }
    else record { mem = write_at d.mem 0 (range d.mem n (n + size)); size = size }

-- The kernel puts received bytes at end().
unfoldable pub fill : List ℕ → RecvData → RecvData
fill bytes d = record d { mem = write_at d.mem d.size bytes }

-- IoRecvEvent::on_event_complete of a receive: the bytes arrive, and the size grows by their count.
unfoldable pub receive : List ℕ → RecvData → RecvData
unfolding fill push
receive bytes d = push none (length bytes) (fill bytes d)

-- The bytes from begin() to end().
abbrev pub contents : RecvData → List ℕ
contents d = take d.size d.mem

pub record IsValid (d : RecvData) : Type 0 where
  pub fits : d.size ≤ capacity d
  pub small : capacity d < 2 ^ 32

-- A receive of no more bytes than the free space that was offered to the kernel appends them, and
-- keeps the buffer and its invariant.
pub receive_appends :
    (bytes : List ℕ) (d : RecvData)
    → IsValid d
    → length bytes ≤ unused_size d
    → (contents (receive bytes d) ≡ contents d ++ bytes)
      × (capacity (receive bytes d) ≡ capacity d)
      × IsValid (receive bytes d)
unfolding receive unused_size
receive_appends bytes d v h =
    let room : d.size + length bytes ≤ length d.mem = omega arith in
    let e : (d.size + length bytes) % 2 ^ 32 ≡ d.size + length bytes = omega arith in
    let same : length (write_at d.mem d.size bytes) ≡ length d.mem =
      length-write_at d.mem d.size bytes room in
    (
      ap (λ k. take k (write_at d.mem d.size bytes)) e ∙ take-write_at d.mem d.size bytes v.fits,
      same,
      record { fits = omega (arith, same); small = omega (arith, same) },
    )

-- pop removes the first `n` used bytes, keeps the rest in order, and keeps the invariant.
pub pop_drops :
    (n : ℕ) (d : RecvData)
    → IsValid d
    → n ≤ d.size
    → (contents (pop n d) ≡ drop n (contents d))
      × (capacity (pop n d) ≡ capacity d)
      × IsValid (pop n d)
unfolding pop
pop_drops n d v h =
    let left : (d.size + 2 ^ 32 - n % 2 ^ 32) % 2 ^ 32 ≡ d.size - n =
      omega (arith, v.fits, v.small, h) in
    rw left (elim (Bool-cases (d.size - n == 0)) [
      | inl all ↦
          let e : d.size ≡ n = ground arith in
          rw all (sym (ap (λ k. drop n (take k d.mem)) e ∙ range_self d.mem n), refl, ground arith)
      | inr more ↦
          let e : n + (d.size - n) ≡ d.size = omega arith in
          let room : n + (d.size - n) ≤ length d.mem = omega arith in
          let moved : List ℕ = range d.mem n (n + (d.size - n)) in
          let same : length (write_at d.mem 0 moved) ≡ length d.mem =
            length-write_at d.mem 0 moved
              (omega (arith, length-range d.mem n (n + (d.size - n)) room)) in
          rw more (
            take-move d.mem n (d.size - n) room ∙ ap (range d.mem n) e,
            same,
            record { fits = omega (arith, same); small = omega (arith, same) },
          )
    ])

-- What happens to a receive buffer: the kernel delivers bytes, or the server takes some.
pub data Event : Type 0 where
  received : List ℕ → Event
  handled : ℕ → Event

unfoldable pub step : Event → RecvData → RecvData
unfolding receive pop
step (received bytes) d = receive bytes d
step (handled n) d = pop n d

unfoldable pub run : List Event → RecvData → RecvData
unfolding step
run [] d = d
run (e ∷ es) d = run es (step e d)

-- The stream of bytes that a list of events leaves unhandled, of which `s` are there before.
pub stream : List Event → List ℕ → List ℕ
stream [] s = s
stream (received bytes ∷ es) s = stream es (s ++ bytes)
stream (handled n ∷ es) s = stream es (drop n s)

-- Each receive fits the free space that was offered, and no more is handled than is there.
abbrev pub Allowed : List Event → RecvData → Type 0
Allowed [] d = Unit
Allowed (received bytes ∷ es) d =
    (length bytes ≤ unused_size d) × Allowed es (step (received bytes) d)
Allowed (handled n ∷ es) d = (n ≤ d.size) × Allowed es (step (handled n) d)

-- Over any allowed sequence of receives and pops the buffer holds exactly the bytes of the stream
-- that are not handled yet, in order, and keeps its invariant.
pub contents-run :
    (es : List Event) (d : RecvData)
    → IsValid d
    → Allowed es d
    → (contents (run es d) ≡ stream es (contents d)) × IsValid (run es d)
unfolding run stream step
contents-run [] d v h = (refl, v)
contents-run (received bytes ∷ es) d v h =
    let (e, _, v') = receive_appends bytes d v h.0 in
    let (f, w) = contents-run es (receive bytes d) v' h.1 in (f ∙ ap (stream es) e, w)
contents-run (handled n ∷ es) d v h =
    let (e, _, v') = pop_drops n d v h.0 in
    let (f, w) = contents-run es (pop n d) v' h.1 in (f ∙ ap (stream es) e, w)

-- push with a pointer writes over the front of the buffer: whatever was held, the contents begin
-- with the bytes pushed.
pub push_overwrites :
    (bytes : List ℕ) (d : RecvData)
    → IsValid d
    → d.size + length bytes ≤ capacity d
    → take (length bytes) (contents (push (some bytes) (length bytes) d)) ≡ bytes
unfolding push
push_overwrites bytes d v h =
    let n : ℕ = length bytes in
    let e : (d.size + n) % 2 ^ 32 ≡ d.size + n = omega arith in
    let all : take n bytes ≡ bytes = take-length n bytes (omega arith) in
    let z : 0 + n ≡ n = omega arith in
    ap (λ k. take n (take k (write_at d.mem 0 (take n bytes)))) e
    ∙ take-take n (d.size + n) (write_at d.mem 0 (take n bytes)) (omega arith)
    ∙ ap (λ t. take n (write_at d.mem 0 t)) all
    ∙ ap (λ k. take k (write_at d.mem 0 bytes)) (sym z)
    ∙ take-write_at d.mem 0 bytes (omega arith)
