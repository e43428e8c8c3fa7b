-- ===== src/IntervalTask.antt =====
-- util/interval_task.h class IntervalTaskScheduler: tasks that are invoked again and again, over a
-- state `S` that the clock is a part of: `now` reads it.
pub mod Turns
use mmocraft.Prelude.{
  ℕ, ◌+◌, ◌*◌, ◌%◌, ◌^◌, Bool, not, ◌&&◌, List, [], ◌∷◌, ◌++◌, ltb, ◌==◌, if◌then◌else◌,
}

-- `func` changes the state, and says whether it ended without an exception.
pub record IntervalTask (S : Type 0) : Type 0 where
  pub tag : ℕ
  pub period : ℕ
  pub expired_at : ℕ
  pub func : S → S × Bool

-- interval_task_tag_id::invalid, with which every task is meant.
abbrev pub invalid : ℕ
invalid = 0

module _ {S : Type 0} (now : S → ℕ) where
  -- The new task stands behind the others.
  unfoldable pub schedule :
      List (IntervalTask S) → ℕ → (S → S × Bool) → ℕ → S → List (IntervalTask S)
  schedule tasks tag func period s =
      tasks
      ++ (record { tag = tag; period = period; expired_at = (now s + period) % 2 ^ 64; func = func }
          ∷ [])

  unfoldable pub invoke_task : IntervalTask S → S → IntervalTask S × S
  invoke_task task s =
      let (next, done) = task.func s in
      if done
      then (record task { expired_at = (now next + task.period) % 2 ^ 64 }, next)
      else (record task { expired_at = (now next + (task.period * 4) % 2 ^ 64) % 2 ^ 64 }, next)

  -- The body of the loop of process_tasks.
  unfoldable pub process_task : ℕ → IntervalTask S → S → IntervalTask S × S
  unfolding invoke_task
  process_task tag task s =
      if not (tag == invalid) && not (task.tag == tag)
      then (task, s)
      else if ltb (now s) task.expired_at
      then (task, s)
      else invoke_task task s

  unfoldable pub process_tasks : ℕ → List (IntervalTask S) → S → List (IntervalTask S) × S
  unfolding process_task
  process_tasks tag [] s = ([], s)
  process_tasks tag (task ∷ tasks) s =
      let (task', next) = process_task tag task s in
      let (tasks', last) = process_tasks tag tasks next in (task' ∷ tasks', last)
