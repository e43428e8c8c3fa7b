-- ===== src/Buffer/Double.antt =====
-- util/double_buffering.h: writers push into the input buffer while a task reads the other one.
use mmocraft.Prelude.{
  ℕ, ◌+◌, ◌≤◌, ◌≡◌, refl, ◌↔◌, inl, inr, Bool, true, false, not, List, [], ◌++◌, arith, ltb,
  if◌then◌else◌, Bool-cases, length, take,
}
use mmocraft.Buffer.Memory.{Memory, write_at, length-write_at, take-write_at}

-- DoubleBuffering::Buffer. `mem` has the SIZE bytes of `buf`.
pub record Buffer : Type 0 where
  pub mem : Memory
  pub buf_size : ℕ

-- Buffer::push. A push that does not fit takes its reservation back.
unfoldable pub push_buffer : Buffer → List ℕ → Buffer × Bool
push_buffer b bytes = if ltb (length b.mem) (b.buf_size + length bytes) then (b, false) else (
  record { mem = write_at b.mem b.buf_size bytes; buf_size = b.buf_size + length bytes },
  true,
)

unfoldable pub clear : Buffer → Buffer
clear b = record b { buf_size = 0 }

-- What begin() and size() show.
abbrev pub written : Buffer → List ℕ
written b = take b.buf_size b.mem

-- `swapped` is input_buf_index, which is 0 or 1.
pub record DoubleBuffering : Type 0 where
  pub swapped : Bool
  pub first : Buffer
  pub second : Buffer

abbrev pub input_buffer : DoubleBuffering → Buffer
input_buffer d = if d.swapped then d.second else d.first

abbrev pub output_buffer : DoubleBuffering → Buffer
output_buffer d = if d.swapped then d.first else d.second

-- input_buffer().push(…)
unfoldable pub push : DoubleBuffering → List ℕ → DoubleBuffering × Bool
unfolding push_buffer
push d bytes =
    let (b, done) = push_buffer (input_buffer d) bytes in
    (if d.swapped then record d { second = b } else record d { first = b }, done)

-- switch_buffer
unfoldable pub snapshot : DoubleBuffering → DoubleBuffering
snapshot d = record d { swapped = not d.swapped }

unfoldable pub clear_snapshot : DoubleBuffering → DoubleBuffering
unfolding clear
clear_snapshot d =
    if d.swapped then record d { first = clear d.first } else record d { second = clear d.second }

unfoldable pub get_snapshot_data : DoubleBuffering → List ℕ
get_snapshot_data d = written (output_buffer d)

unfoldable pub has_live_data : DoubleBuffering → Bool
has_live_data d = ltb 0 (input_buffer d).buf_size

-- The bytes pushed and not yet in a snapshot.
unfoldable pub live_data : DoubleBuffering → List ℕ
live_data d = written (input_buffer d)

pub record IsValid (d : DoubleBuffering) : Type 0 where
  pub first_fits : d.first.buf_size ≤ length d.first.mem
  pub second_fits : d.second.buf_size ≤ length d.second.mem

push_buffer_lem :
    (b : Buffer) (bytes : List ℕ)
    → b.buf_size ≤ length b.mem
    → (written (push_buffer b bytes).0
        ≡ (if (push_buffer b bytes).1 then written b ++ bytes else written b))
      × ((push_buffer b bytes).0.buf_size ≤ length (push_buffer b bytes).0.mem)
      × (((push_buffer b bytes).1 ≡ true) ↔ (b.buf_size + length bytes ≤ length b.mem))
unfolding push_buffer
push_buffer_lem b bytes h = elim (Bool-cases (ltb (length b.mem) (b.buf_size + length bytes))) [
  | inl full ↦ rw (full, push_buffer) (refl, h, (λ e. cc, λ k. absurd (ground arith)))
  | inr room ↦
      let room' : b.buf_size + length bytes ≤ length b.mem = ground arith in
      rw (room, push_buffer)
        (
          take-write_at b.mem b.buf_size bytes h,
          omega (arith, length-write_at b.mem b.buf_size bytes room'),
          (λ e. room', λ k. refl),
        )
]

-- push appends all of the bytes to the live data, or says that it did not and leaves them; it
-- succeeds exactly if they fit the input buffer. The snapshot stays as it is.
pub live_data-push :
    (d : DoubleBuffering) (bytes : List ℕ)
    → IsValid d
    → (live_data (push d bytes).0
        ≡ (if (push d bytes).1 then live_data d ++ bytes else live_data d))
      × (get_snapshot_data (push d bytes).0 ≡ get_snapshot_data d)
      × IsValid (push d bytes).0
      × (((push d bytes).1 ≡ true)
          ↔ ((input_buffer d).buf_size + length bytes ≤ length (input_buffer d).mem))
unfolding push live_data get_snapshot_data
live_data-push d bytes v = elim (Bool-cases d.swapped) [
  | inl e ↦
      let (w, f, i) = push_buffer_lem d.second bytes v.second_fits in
      rw (e, push) (w, refl, record { first_fits = v.first_fits; second_fits = f }, i)
  | inr e ↦
      let (w, f, i) = push_buffer_lem d.first bytes v.first_fits in
      rw (e, push) (w, refl, record { first_fits = f; second_fits = v.second_fits }, i)
]

-- snapshot exchanges the live data and the snapshot, and clear_snapshot empties the snapshot alone.
pub snapshot_lem :
    (d : DoubleBuffering)
    → IsValid d
    → (live_data (snapshot d) ≡ get_snapshot_data d)
      × (get_snapshot_data (snapshot d) ≡ live_data d)
      × (live_data (clear_snapshot d) ≡ live_data d)
      × (get_snapshot_data (clear_snapshot d) ≡ [])
      × IsValid (snapshot d)
      × IsValid (clear_snapshot d)
unfolding snapshot clear_snapshot live_data get_snapshot_data
snapshot_lem d v = elim (Bool-cases d.swapped) [
  | inl e ↦
      rw (e, clear_snapshot)
        (
          refl,
          refl,
          refl,
          refl,
          record { first_fits = v.first_fits; second_fits = v.second_fits },
          record { first_fits = omega arith; second_fits = v.second_fits },
        )
  | inr e ↦
      rw (e, clear_snapshot)
        (
          refl,
          refl,
          refl,
          refl,
          record { first_fits = v.first_fits; second_fits = v.second_fits },
          record { first_fits = v.first_fits; second_fits = omega arith },
        )
]
