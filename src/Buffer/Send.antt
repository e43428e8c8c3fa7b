-- ===== src/Buffer/Send.antt =====
-- io/io_event.h IoSendEventDataImpl: the used bytes lie between a head and a tail. Lengths and
-- capacity are those of an `int`.
use mmocraft.Prelude.{
  ℕ, ◌+◌, ◌-◌, ◌≤◌, ◌≡◌, refl, sym, ap, ◌∙◌, ◌↔◌, ◌⊎◌, inl, inr, Bool, true, false, List, ◌++◌,
  arith, ltb, ◌==◌, if◌then◌else◌, Bool-cases, length, take, drop, drop-drop,
}
use mmocraft.Buffer.Memory.{Memory, write_at, range, length-write_at, range-write_at, range_self}

pub record SendData : Type 0 where
  pub mem : Memory
  pub data_head : ℕ
  pub data_tail : ℕ

abbrev pub capacity : SendData → ℕ
capacity d = length d.mem

abbrev pub size : SendData → ℕ
size d = d.data_tail - d.data_head

abbrev pub unused_size : SendData → ℕ
unused_size d = capacity d - d.data_tail

-- An empty buffer is rewound.
unfoldable pub rewind : SendData → SendData
rewind d = if d.data_head == d.data_tail then record d { data_head = 0; data_tail = 0 } else d

unfoldable pub push : SendData → List ℕ → SendData × Bool
unfolding rewind
push d bytes =
    let d' = rewind d in
    if ltb (unused_size d') (length bytes) then (d', false) else (
      record d' {
        mem = write_at d'.mem d'.data_tail bytes;
        data_tail = d'.data_tail + length bytes;
      },
      true,
    )

unfoldable pub pop : SendData → ℕ → SendData
pop d n = record d { data_head = d.data_head + n }

abbrev pub contents : SendData → List ℕ
contents d = range d.mem d.data_head d.data_tail

pub record IsValid (d : SendData) : Type 0 where
  pub ordered : d.data_head ≤ d.data_tail
  pub fits : d.data_tail ≤ capacity d

rewind-IsValid : (d : SendData) → IsValid d → IsValid (rewind d)
unfolding rewind
rewind-IsValid d v = ground arith

contents-rewind : (d : SendData) → contents (rewind d) ≡ contents d
unfolding rewind
contents-rewind d = elim (Bool-cases (d.data_head == d.data_tail)) [
  | inl same ↦
      let e : d.data_tail ≡ d.data_head = ground arith in
      rw same (sym (ap (range d.mem d.data_head) e ∙ range_self d.mem d.data_head))
  | inr other ↦ rw other refl
]

capacity-rewind : (d : SendData) → capacity (rewind d) ≡ capacity d
unfolding rewind
capacity-rewind d = ground arith

-- What a push promises: it appends all of the bytes, or leaves the contents.
abbrev pub Pushed : List ℕ → List ℕ → List ℕ → Bool → Type 0
Pushed before bytes after done =
    ((done ≡ true) × (after ≡ before ++ bytes)) ⊎ ((done ≡ false) × (after ≡ before))

push_rewound :
    (d : SendData) (bytes : List ℕ)
    → IsValid d
    → ltb (unused_size d) (length bytes) ≡ false
    → let d' = record d {
      mem = write_at d.mem d.data_tail bytes;
      data_tail = d.data_tail + length bytes;
    } in
      (contents d' ≡ contents d ++ bytes) × (capacity d' ≡ capacity d) × IsValid d'
push_rewound d bytes v h =
    let room : d.data_tail + length bytes ≤ length d.mem = ground arith in
    let same : length (write_at d.mem d.data_tail bytes) ≡ length d.mem =
      length-write_at d.mem d.data_tail bytes room in
    (
      range-write_at d.mem d.data_head d.data_tail bytes v.ordered v.fits,
      same,
      record { ordered = omega arith; fits = omega (arith, same) },
    )

-- push appends all of the bytes or nothing and says which, writes nothing past the buffer, and keeps
-- the invariant.
pub contents-push :
    (d : SendData) (bytes : List ℕ)
    → IsValid d
    → Pushed (contents d) bytes (contents (push d bytes).0) (push d bytes).1
      × (capacity (push d bytes).0 ≡ capacity d)
      × IsValid (push d bytes).0
unfolding push
contents-push d bytes v =
    let w = rewind-IsValid d v in
    elim (Bool-cases (ltb (unused_size (rewind d)) (length bytes))) [
      | inl full ↦ rw full (inr (refl, contents-rewind d), capacity-rewind d, w)
      | inr room ↦
          let (c, k, w') = push_rewound (rewind d) bytes w room in
          rw room
            (inl (refl, c ∙ ap (λ t. t ++ bytes) (contents-rewind d)), k ∙ capacity-rewind d, w')
    ]

-- A push into an empty buffer succeeds exactly if the bytes fit the capacity, wherever the head is.
pub push_empty :
    (d : SendData) (bytes : List ℕ)
    → IsValid d
    → size d ≡ 0
    → ((push d bytes).1 ≡ true) ↔ (length bytes ≤ capacity d)
unfolding push rewind
push_empty d bytes v e = (λ h. ground arith, λ h. ground arith)

-- pop removes the first bytes and keeps the invariant.
pub contents-pop :
    (d : SendData) (n : ℕ)
    → IsValid d
    → n ≤ size d
    → (contents (pop d n) ≡ drop n (contents d)) × IsValid (pop d n)
unfolding pop
contents-pop d n v h = (
  sym (drop-drop d.data_head n (take d.data_tail d.mem)),
  record { ordered = omega arith; fits = omega arith },
)
