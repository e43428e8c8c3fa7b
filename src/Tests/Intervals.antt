-- ===== src/Tests/Intervals.antt =====
-- The tasks of a scheduler at concrete values.
use mmocraft.Prelude.{ℕ, ◌%◌, ◌≤◌, false, [], ◌∷◌, arith}
use mmocraft.IntervalTask.{IntervalTask, process_tasks, invalid}
use mmocraft.IntervalTask.Turns.{IsClock, AllTurned, process_tasks-AllTurned}

-- A clock that is reset at 1000, and a task that takes no time.
abbrev read_clock : ℕ → ℕ
read_clock s = s % 1000

abbrev task : IntervalTask ℕ
task = record { tag = 2; period = 10; expired_at = 5; func = λ s. (s, false) }

bounded : IsClock read_clock
bounded s = omega arith

process_tasks-AllTurned_example :
    (7 ≤ read_clock (process_tasks read_clock invalid (task ∷ []) 7).1)
    × AllTurned read_clock invalid 7
        (task ∷ [])
        (process_tasks read_clock invalid (task ∷ []) 7).0
        (process_tasks read_clock invalid (task ∷ []) 7).1
process_tasks-AllTurned_example =
    process_tasks-AllTurned read_clock invalid (task ∷ []) 7 bounded
      ((λ s. omega arith, omega arith), tt)
