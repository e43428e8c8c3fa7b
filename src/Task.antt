-- ===== src/Task.antt =====
-- io/task.h: a task that the main loop schedules and an event thread completes. Ticks of the clock
-- are arguments.
use mmocraft.Prelude.{ℕ, ◌+◌, ◌<◌, ◌≡◌, refl, ◌↔◌, Bool, true, false, ◌&&◌, arith, ltb}

pub data State : Type 0 where
  unused processing failed : State

abbrev pub is_unused : State → Bool
is_unused State.unused = true
is_unused State.processing = false
is_unused State.failed = false

pub record Task : Type 0 where
  pub state : State
  pub interval_ms : ℕ
  pub cooldown_at : ℕ

unfoldable pub new_task : ℕ → Task
new_task interval = record { state = State.unused; interval_ms = interval; cooldown_at = 0 }

unfoldable pub ready : Task → ℕ → Bool
ready t now = is_unused t.state && ltb t.cooldown_at now

-- set_state(State::processing), the default of before_scheduling.
unfoldable pub before_scheduling : Task → ℕ → Task
before_scheduling t now = record t { state = State.processing; cooldown_at = t.interval_ms + now }

-- set_state(State::unused), at the end of every on_event_complete.
unfoldable pub set_unused : Task → Task
set_unused t = record t { state = State.unused }

-- A task that is scheduled is not ready again before it completes, and then only when more than its
-- interval has passed since it was scheduled.
pub ready-before_scheduling :
    (t : Task) (scheduled now : ℕ)
    → (ready (before_scheduling t scheduled) now ≡ false)
      × ((ready (set_unused (before_scheduling t scheduled)) now ≡ true)
          ↔ (scheduled + t.interval_ms < now))
unfolding ready before_scheduling set_unused
ready-before_scheduling t scheduled now = (refl, (λ h. ground arith, λ h. ground arith))
