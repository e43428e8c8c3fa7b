-- ===== src/IntervalTask/Turns.antt =====
-- How often a task is invoked.
use mmocraft.Prelude.{
  ℕ, ◌+◌, ◌*◌, ◌%◌, ◌^◌, ◌≤◌, ◌<◌, ◌≡◌, refl, ◌≢◌, ◌⊎◌, inl, inr, not, ◌&&◌, List, [], ◌∷◌, arith,
  ltb, ◌==◌, if◌then◌else◌, Bool-cases, All,
}
use mmocraft.IntervalTask.{process_tasks, IntervalTask, invalid, invoke_task, process_task}

module _ {S : Type 0} (now : S → ℕ) where
  -- The clock of a state stays far from the end of 64 bits.
  abbrev pub IsClock : Type 0
  IsClock = (s : S) → now s < 2 ^ 63

  -- No function turns the clock back, and the period leaves room for four.
  abbrev pub IsSound : IntervalTask S → Type 0
  IsSound task = ((s : S) → now s ≤ now (task.func s).0) × (task.period < 2 ^ 60)

  -- A task's turn, from state `s` to `s'`: it and the state stay as they are, and that because it is
  -- not meant or not due; or it is meant and due, its function is called once, and only the time at
  -- which it is due again changes: its period from now, or four periods if the function throws.
  pub data Turned (tag : ℕ) (s : S) (t t' : IntervalTask S) (s' : S) : Type 0 where
    kept :
        ((tag ≢ invalid) × (t.tag ≢ tag)) ⊎ (now s < t.expired_at)
        → t' ≡ t
        → s' ≡ s
        → Turned tag s t t' s'
    invoked :
        (tag ≡ invalid) ⊎ (t.tag ≡ tag)
        → t.expired_at ≤ now s
        → s' ≡ (t.func s).0
        → t' ≡ record t { expired_at = now s' + (if (t.func s).1 then t.period else t.period * 4) }
        → Turned tag s t t' s'

  -- Each task of a list in its order, the next one from the state that the one before leaves.
  abbrev pub AllTurned : ℕ → S → List (IntervalTask S) → List (IntervalTask S) → S → Type 0
  AllTurned tag s [] [] s' = s' ≡ s
  AllTurned tag s [] (t' ∷ ts') s' = ⊥
  AllTurned tag s (t ∷ ts) [] s' = ⊥
  AllTurned tag s (t ∷ ts) (t' ∷ ts') s' =
      (mid : S) × Turned tag s t t' mid × AllTurned tag mid ts ts' s'

  process_task-Turned :
      (tag : ℕ) (t : IntervalTask S) (s : S)
      → IsClock
      → IsSound t
      → (now s ≤ now (process_task now tag t s).1)
        × Turned tag s t (process_task now tag t s).0 (process_task now tag t s).1
  unfolding process_task invoke_task
  process_task-Turned tag t s clock sound =
      elim (Bool-cases (not (tag == invalid) && not (t.tag == tag))) [
        | inl other ↦ simp (other) (omega arith, kept (inl (ground arith)) refl refl)
        | inr meant ↦ elim (Bool-cases (ltb (now s) t.expired_at)) [
          | inl early ↦ simp (meant, early) (omega arith, kept (inr (ground arith)) refl refl)
          | inr due ↦
              let later = sound.0 s in
              let top = clock (t.func s).0 in
              let mine : (tag ≡ invalid) ⊎ (t.tag ≡ tag) = ground arith in
              elim (Bool-cases (t.func s).1) [
                | inl done ↦
                    let e : (now (t.func s).0 + t.period) % 2 ^ 64 ≡ now (t.func s).0 + t.period =
                      omega (arith, top, sound.1) in
                    simp (meant, due, done)
                      (later, invoked mine (ground arith) refl (rw (done, e) refl))
                | inr threw ↦
                    let e : (now (t.func s).0 + (t.period * 4) % 2 ^ 64) % 2 ^ 64
                        ≡ now (t.func s).0 + t.period * 4 =
                      omega (arith, top, sound.1) in
                    simp (meant, due, threw)
                      (later, invoked mine (ground arith) refl (rw (threw, e) refl))
              ]
        ]
      ]

  -- process_tasks gives each task one turn, in their order: a task that is not meant or not due stays
  -- as it is and does not change the state; a task that is meant and due is invoked once, on the state
  -- that the tasks before it left, and is due again its period after its function returns, or four
  -- periods after it throws, with nothing else of it changed; and the clock is not turned back.
  -- Provided that no function turns the clock back, the clock stays below 2 ^ 63, and the periods are
  -- below 2 ^ 60.
  pub process_tasks-AllTurned :
      (tag : ℕ) (ts : List (IntervalTask S)) (s : S)
      → IsClock
      → All IsSound ts
      → (now s ≤ now (process_tasks now tag ts s).1)
        × AllTurned tag s ts (process_tasks now tag ts s).0 (process_tasks now tag ts s).1
  unfolding process_tasks
  process_tasks-AllTurned tag [] s clock sound = (omega arith, refl)
  process_tasks-AllTurned tag (t ∷ ts) s clock sound =
      let next : S = (process_task now tag t s).1 in
      let (later, turned) = process_task-Turned tag t s clock sound.0 in
      let (end, rest) = process_tasks-AllTurned tag ts next clock sound.1 in
      (omega (arith, later, end), (next, turned, rest))
