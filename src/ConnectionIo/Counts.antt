-- ===== src/ConnectionIo/Counts.antt =====
-- How often registered I/O takes the event of a slot and finishes it, in the histories of net/connection.cpp
-- ConnectionIO.
use mmocraft.Prelude.{
  ℕ, ◌+◌, ◌≡◌, refl, sym, ap, ◌∙◌, inl, inr, Bool, true, false, ◌||◌, List, [], ◌∷◌, ◌++◌, arith,
  ◌==◌, if◌then◌else◌, Bool-cases, length, update, update-same, update-ne,
}
use mmocraft.ConnectionIo.{
  flush_event, recv, send, multicast_send, eof, event_failed, transferred, Event, multicast_done,
  Request, MulticastEvent, ConnectionIo, Rio, call, post_multicast, free_multicast_event,
}
use native.Mathlib.Decide.{ℕ_discrete}

abbrev pub bit : Bool → ℕ
bit b = if b then 1 else 0

-- 1 for a call that hands the event of slot `i` to registered I/O and is taken.
abbrev takes_event : ℕ → Request × Bool → ℕ
takes_event i (recv room, taken) = 0
takes_event i (send bytes, taken) = 0
takes_event i (multicast_send slot bytes, taken) = if slot == i then bit taken else 0

-- How often registered I/O took the event of slot `i`.
abbrev pub times_taken : ℕ → List (Request × Bool) → ℕ
times_taken i [] = 0
times_taken i (r ∷ rs) = takes_event i r + times_taken i rs

-- 1 for the completion of the event of slot `i`, unless it says that the stream has ended.
abbrev pub finishes : ℕ → Event → ℕ
finishes i (multicast_done slot eof) = 0
finishes i (multicast_done slot event_failed) = bit (slot == i)
finishes i (multicast_done slot (transferred n)) = bit (slot == i)
finishes i _ = 0

-- How often the event of slot `i` was finished.
abbrev pub times_finished : ℕ → List Event → ℕ
times_finished i [] = 0
times_finished i (e ∷ es) = finishes i e + times_finished i es

-- The event of slot `i` is processed once more than it was finished, or as often.
abbrev pub Counted : ℕ → ℕ → (ℕ → MulticastEvent) → List (Request × Bool) → Type 0
Counted i n events requests = times_taken i requests ≡ n + bit (events i).is_processing

pub times_taken-append :
    (i : ℕ) (rs : List (Request × Bool)) (r : Request × Bool)
    → times_taken i (rs ++ r ∷ []) ≡ times_taken i rs + takes_event i r
times_taken-append i [] r = omega arith
times_taken-append i (x ∷ rs) r = omega (arith, times_taken-append i rs r)

-- The state of the event in a slot after the slot has changed.
pub processing-update :
    (events : ℕ → MulticastEvent) (slot i : ℕ) (event : MulticastEvent)
    → bit (update events slot event i).is_processing
      ≡ (if slot == i then bit event.is_processing else bit (events i).is_processing)
processing-update events slot i event = elim (ℕ_discrete slot i) [
  | yes e ↦
      let here : (slot == i) ≡ true = ground arith in
      rw here (
        ap (λ x. bit x.is_processing)
          (sym (ap (update events slot event) e) ∙ update-same events slot event))
  | no ne ↦
      let other : (slot == i) ≡ false = ground arith in
      rw other (ap (λ x. bit x.is_processing) (update-ne events slot i event ne))
]

pub quiet_slot :
    (events : ℕ → MulticastEvent) (slot i : ℕ) (b : Bool)
    → (events slot).is_processing ≡ b
    → (slot == i) ≡ true
    → bit (events i).is_processing ≡ bit b
quiet_slot events slot i b quiet here =
    let e : slot ≡ i = ground arith in ap (λ k. bit (events k).is_processing) (sym e) ∙ ap bit quiet

-- An idle event that is handed to registered I/O.
Counted-posted :
    (i n slot : ℕ) (events : ℕ → MulticastEvent) (requests : List (Request × Bool)) (bytes : List ℕ)
    (taken : Bool)
    → (events slot).is_processing ≡ false
    → Counted i n events requests
    → Counted i n
        (update events slot (record (events slot) { is_processing = taken }))
        (requests ++ (multicast_send slot bytes, taken) ∷ [])
Counted-posted i n slot events requests bytes taken quiet h =
    let event : MulticastEvent = record (events slot) { is_processing = taken } in
    let more = times_taken-append i requests (multicast_send slot bytes, taken) in
    let changed = processing-update events slot i event in
    elim (Bool-cases (slot == i)) [
      | inl here ↦
          let was = quiet_slot events slot i false quiet here in
          let add : takes_event i (multicast_send slot bytes, taken) ≡ bit taken = rw here refl in
          let now : bit (update events slot event i).is_processing ≡ bit taken =
            changed ∙ rw here refl in
          omega (arith, more, h, was, add, now)
      | inr other ↦
          let add : takes_event i (multicast_send slot bytes, taken) ≡ 0 = rw other refl in
          let now : bit (update events slot event i).is_processing ≡ bit (events i).is_processing =
            changed ∙ rw other refl in
          omega (arith, more, h, add, now)
    ]

-- A slot whose event was idle and gets an idle event.
pub Counted-replaced :
    (i n slot : ℕ) (events : ℕ → MulticastEvent) (requests : List (Request × Bool))
    (event : MulticastEvent)
    → (events slot).is_processing ≡ false
    → event.is_processing ≡ false
    → Counted i n events requests
    → Counted i n (update events slot event) requests
Counted-replaced i n slot events requests event quiet idle h =
    let changed = processing-update events slot i event in
    elim (Bool-cases (slot == i)) [
      | inl here ↦
          let was = quiet_slot events slot i false quiet here in
          let now : bit (update events slot event i).is_processing ≡ 0 =
            changed ∙ rw here (ap bit idle) in
          omega (arith, h, was, now)
      | inr other ↦
          let now : bit (update events slot event i).is_processing ≡ bit (events i).is_processing =
            changed ∙ rw other refl in
          omega (arith, h, now)
    ]

pub flush_event-Counted :
    (i n : ℕ) (takes : Rio) (slot : ℕ) (io : ConnectionIo)
    → (io.multicast_events slot).is_processing ≡ false
    → Counted i n io.multicast_events io.requests
    → Counted i n (flush_event takes slot io).multicast_events (flush_event takes slot io).requests
unfolding flush_event post_multicast call free_multicast_event
flush_event-Counted i n takes slot io quiet h =
    let event = io.multicast_events slot in
    let request : Request = multicast_send slot event.data_bytes in
    let counted =
      Counted-posted i n slot io.multicast_events io.requests event.data_bytes
        (takes io.requests request) quiet h in
    elim (Bool-cases (event.is_processing || length event.data_bytes == 0)) [
      | inl none_posted ↦ simp (none_posted) h
      | inr posted ↦ elim (Bool-cases (takes io.requests request)) [
        | inl taken ↦ simp (posted) (ground (arith, counted))
        | inr lost ↦ simp (posted) (ground (arith, counted))
      ]
    ]
