-- ===== src/ConnectionIo/Ownership.antt =====
-- Who holds the multicast events of net/connection.cpp ConnectionIO: the queue, or registered I/O.
use mmocraft.Prelude.{
  ℕ, suc, ◌≤◌, ◌<◌, ◌≡◌, sym, ap, ◌∙◌, ◌≢◌, ◌↔◌, ◌⊎◌, inl, inr, true, false, List, [], ◌∷◌, ◌++◌,
  arith, Has, AreDistinct, update, update-same, update-ne,
}
use mmocraft.ObjectPool.{ObjectPool, is_free, transition_to_free}
use mmocraft.ObjectPool.Slots
use mmocraft.ObjectPool.Allocation.{transition_to_free_lem}
use mmocraft.ConnectionIo.{MulticastEvent, ConnectionIo}
use native.Mathlib.Decide.{dec_lt, ℕ_discrete}

-- Every slot in use holds an event that waits in `queue`, once, or that registered I/O processes; all
-- of these slots are in use.
pub record Owned (p : ObjectPool) (events : ℕ → MulticastEvent) (queue : List ℕ) : Type 0 where
  pub pool : Slots.IsValid p
  pub distinct : AreDistinct queue
  pub waiting :
      (i : ℕ)
      → Has i queue
      → (i < p.capacity) × (is_free p i ≡ false) × ((events i).is_processing ≡ false)
  pub processing :
      (i : ℕ) → (events i).is_processing ≡ true → (i < p.capacity) × (is_free p i ≡ false)
  pub held :
      (i : ℕ)
      → i < p.capacity
      → is_free p i ≡ false
      → Has i queue ⊎ ((events i).is_processing ≡ true)

abbrev pub IsOwned : ConnectionIo → Type 0
IsOwned io = Owned io.multicast_event_pool io.multicast_events io.ready_multicast_events

Has-append : (x y : ℕ) (xs : List ℕ) → Has x (xs ++ y ∷ []) ↔ (Has x xs ⊎ (x ≡ y))
Has-append x y [] = (
  λ h. elim h [ inl e ↦ inr e | inr n ↦ absurd n ],
  λ h. elim h [ inl n ↦ absurd n | inr e ↦ inl e ],
)
Has-append x y (z ∷ zs) =
    let (there, back) = Has-append x y zs in
    (
      λ h. elim h [
        | inl e ↦ inl (inl e)
        | inr t ↦ elim (there t) [ inl a ↦ inl (inr a) | inr e ↦ inr e ]
      ],
      λ h. elim h [
        | inl a ↦ elim a [ inl e ↦ inl e | inr t ↦ inr (back (inl t)) ]
        | inr e ↦ inr (back (inr e))
      ],
    )

AreDistinct-append :
    (x : ℕ) (xs : List ℕ) → AreDistinct xs → (Has x xs → ⊥) → AreDistinct (xs ++ x ∷ [])
AreDistinct-append x [] d n = (λ h. h, tt)
AreDistinct-append x (y ∷ ys) d n = (
  λ h. elim ((Has-append y x ys).0 h) [ inl t ↦ d.0 t | inr e ↦ n (inl (sym e)) ],
  AreDistinct-append x ys d.1 (λ h. n (inr h)),
)

module _ {p : ObjectPool} {events : ℕ → MulticastEvent} {queue : List ℕ}
    (inv : Owned p events queue) where
  -- A new event in the slot that new_object hands out waits at the end of the queue.
  pub Owned-created :
      (q : ObjectPool) (i : ℕ) (event : MulticastEvent)
      → event.is_processing ≡ false
      → Slots.IsValid q
      → q.max_capacity ≡ p.max_capacity
      → i < q.capacity
      → p.capacity ≤ q.capacity
      → is_free p i ≡ true
      → is_free q i ≡ false
      → ((j : ℕ) → i ≢ j → is_free q j ≡ is_free p j)
      → Owned q (update events i event) (queue ++ i ∷ [])
  Owned-created q i event idle v most inside more was now same = record {
    pool = v;
    distinct = AreDistinct-append i queue inv.distinct (λ h. let w = inv.waiting i h in absurd cc);
    waiting = λ j h. elim (ℕ_discrete i j) [
      | yes e ↦
          let at : update events i event j ≡ event =
            sym (ap (update events i event) e) ∙ update-same events i event in
          (omega (arith, e), ap (is_free q) (sym e) ∙ now, ap (λ x. x.is_processing) at ∙ idle)
      | no ne ↦ elim ((Has-append j i queue).0 h) [
        | inl t ↦
            let (below, used, quiet) = inv.waiting j t in
            (
              omega arith,
              same j ne ∙ used,
              ap (λ x. x.is_processing) (update-ne events i j event ne) ∙ quiet,
            )
        | inr e ↦ absurd (ne (sym e))
      ]
    ];
    processing = λ j h. elim (ℕ_discrete i j) [
      | yes e ↦
          let at : update events i event j ≡ event =
            sym (ap (update events i event) e) ∙ update-same events i event in
          absurd cc
      | no ne ↦
          let old : (events j).is_processing ≡ true =
            sym (ap (λ x. x.is_processing) (update-ne events i j event ne)) ∙ h in
          let (below, used) = inv.processing j old in (omega arith, same j ne ∙ used)
    ];
    held = λ j below used. elim (ℕ_discrete i j) [
      | yes e ↦ inl ((Has-append j i queue).1 (inr (sym e)))
      | no ne ↦
          let before : is_free p j ≡ false = sym (same j ne) ∙ used in
          elim (dec_lt j p.capacity) [
            | yes old ↦ elim (inv.held j old before) [
              | inl t ↦ inl ((Has-append j i queue).1 (inl t))
              | inr e ↦ inr (ap (λ x. x.is_processing) (update-ne events i j event ne) ∙ e)
            ]
            | no new ↦
                let room = v.within in
                let free : is_free p j ≡ true =
                  inv.pool.beyond j (omega arith) (omega (arith, most, room)) in
                absurd cc
          ]
    ];
  }

-- An event of the queue that registered I/O takes is processed from then on.
pub Owned-posted :
    {p : ObjectPool} {events : ℕ → MulticastEvent} {i : ℕ} {queue : List ℕ} (event : MulticastEvent)
    → event.is_processing ≡ true
    → Owned p events (i ∷ queue)
    → Owned p (update events i event) queue
Owned-posted {p} {events} {i} {queue} event busy inv =
    let changed : update events i event i ≡ event = update-same events i event in
    record {
      pool = inv.pool;
      distinct = inv.distinct.1;
      waiting = λ j h. elim (ℕ_discrete i j) [
        | yes e ↦ absurd (inv.distinct.0 (rw e h))
        | no ne ↦
            let (below, used, quiet) = inv.waiting j (inr h) in
            (below, used, ap (λ x. x.is_processing) (update-ne events i j event ne) ∙ quiet)
      ];
      processing = λ j h. elim (ℕ_discrete i j) [
        | yes e ↦ let (below, used, quiet) = inv.waiting j (inl (sym e)) in (below, used)
        | no ne ↦
            inv.processing j (sym (ap (λ x. x.is_processing) (update-ne events i j event ne)) ∙ h)
      ];
      held = λ j below used. elim (ℕ_discrete i j) [
        | yes e ↦
            inr (ap (λ x. x.is_processing) (sym (ap (update events i event) e) ∙ changed) ∙ busy)
        | no ne ↦ elim (inv.held j below used) [
          | inl h ↦ elim h [ inl e ↦ absurd (ne (sym e)) | inr t ↦ inl t ]
          | inr e ↦ inr (ap (λ x. x.is_processing) (update-ne events i j event ne) ∙ e)
        ]
      ];
    }

-- A slot in use that is given back, once its event neither waits nor is processed.
pub Owned-freed :
    (p : ObjectPool) (events events' : ℕ → MulticastEvent) (i : ℕ) (queue queue' : List ℕ)
    → Owned p events queue
    → i < p.capacity
    → AreDistinct queue'
    → (Has i queue' → ⊥)
    → ((events' i).is_processing ≡ false)
    → ((j : ℕ) → i ≢ j → Has j queue' ↔ Has j queue)
    → ((j : ℕ) → i ≢ j → (events' j).is_processing ≡ (events j).is_processing)
    → Owned (transition_to_free p i).0 events' queue'
unfolding transition_to_free
Owned-freed p events events' i queue queue' inv h distinct gone idle queues same =
    let q : ObjectPool = (transition_to_free p i).0 in
    record {
      pool = (transition_to_free_lem p i (suc i) inv.pool h (λ e. omega arith)).3;
      distinct = distinct;
      waiting = λ j t. elim (ℕ_discrete i j) [
        | yes e ↦ absurd (gone (rw e t))
        | no ne ↦
            let (below, used, quiet) = inv.waiting j ((queues j ne).0 t) in
            (below, kept j ne ∙ used, same j ne ∙ quiet)
      ];
      processing = λ j b. elim (ℕ_discrete i j) [
        | yes e ↦ let quiet : (events' j).is_processing ≡ false = rw (sym e) idle in absurd cc
        | no ne ↦
            let (below, used) = inv.processing j (sym (same j ne) ∙ b) in (below, kept j ne ∙ used)
      ];
      held = λ j below used. elim (ℕ_discrete i j) [
        | yes e ↦ let free : is_free q j ≡ true = rw (sym e) freed in absurd cc
        | no ne ↦ elim (inv.held j below (sym (kept j ne) ∙ used)) [
          | inl t ↦ inl ((queues j ne).1 t)
          | inr b ↦ inr (same j ne ∙ b)
        ]
      ];
    }
  where
    kept : (j : ℕ) → i ≢ j → is_free (transition_to_free p i).0 j ≡ is_free p j
    kept j ne = (transition_to_free_lem p i j inv.pool h ne).2

    freed : is_free (transition_to_free p i).0 i ≡ true
    freed = (transition_to_free_lem p i (suc i) inv.pool h (λ e. omega arith)).1
