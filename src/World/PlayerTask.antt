-- ===== src/World/PlayerTask.antt =====
-- game/world_task.h WorldPlayerTask: players pushed at any time are handed to the world in batches.
-- `A` is the type of the pointers to players.
use mmocraft.Prelude.{
  ℕ, ◌≡◌, refl, sym, ap, ◌∙◌, inl, inr, Bool, true, not, ◌&&◌, List, [], ◌∷◌, ◌++◌, append-nil,
  append_assoc, arith, ◌==◌, if◌then◌else◌, Bool-cases, length,
}
use mmocraft.Task
use mmocraft.Task.{Task}

pub record WorldPlayerTask (A : Type 0) : Type 0 where
  pub task : Task
  pub players_target : List A
  pub players_queue : List A

unfoldable pub ready : {A : Type 0} → WorldPlayerTask A → ℕ → Bool
ready t now = Task.ready t.task now && not (length t.players_queue == 0)

-- The processing state, then the swap of the two vectors.
unfoldable pub before_scheduling : {A : Type 0} → WorldPlayerTask A → ℕ → WorldPlayerTask A
before_scheduling t now = record {
  task = Task.before_scheduling t.task now;
  players_queue = t.players_target;
  players_target = t.players_queue;
}

unfoldable pub push : {A : Type 0} → WorldPlayerTask A → A → WorldPlayerTask A
push t player = record t { players_queue = t.players_queue ++ (player ∷ []) }

-- on_event_complete: the players the handler is called with, and the task after it.
unfoldable pub on_event_complete : {A : Type 0} → WorldPlayerTask A → List A × WorldPlayerTask A
on_event_complete t =
    (t.players_target, record t { task = Task.set_unused t.task; players_target = [] })

-- A push, a round of the main loop at a tick, or the completion of the scheduled event.
pub data Event (A : Type 0) : Type 0 where
  pushed : A → Event A
  looped : ℕ → Event A
  completed : Event A

-- The task, the players its handler got so far and the players pushed so far.
pub record History (A : Type 0) : Type 0 where
  pub players : WorldPlayerTask A
  pub delivered : List A
  pub accepted : List A

step : {A : Type 0} → Event A → History A → History A
unfolding push before_scheduling on_event_complete
step (Event.pushed player) h = record h {
  players = push h.players player;
  accepted = h.accepted ++ (player ∷ []);
}
step (Event.looped now) h =
    if ready h.players now then record h { players = before_scheduling h.players now } else h
step Event.completed h =
    if Task.is_unused h.players.task.state
    then h
    else let (batch, t) = on_event_complete h.players in
      record h { players = t; delivered = h.delivered ++ batch }

pub run : {A : Type 0} → List (Event A) → History A → History A
unfolding step
run [] h = h
run (e ∷ es) h = run es (step e h)

pub record IsInOrder {A : Type 0} (h : History A) : Type 0 where
  pub in_order : h.delivered ++ (h.players.players_target ++ h.players.players_queue) ≡ h.accepted
  pub idle : Task.is_unused h.players.task.state ≡ true → h.players.players_target ≡ []

ready-unused :
    {A : Type 0} (t : WorldPlayerTask A) (now : ℕ)
    → ready t now ≡ true
    → Task.is_unused t.task.state ≡ true
unfolding ready Task.ready
ready-unused t now h = ground arith

step-IsInOrder : {A : Type 0} (e : Event A) (h : History A) → IsInOrder h → IsInOrder (step e h)
unfolding step Task.before_scheduling
step-IsInOrder (Event.pushed player) h v =
    let target : List _ = h.players.players_target in
    let queue : List _ = h.players.players_queue in
    record {
      in_order =
          ap (◌++◌ h.delivered) (sym (append_assoc target queue (player ∷ [])))
          ∙ sym (append_assoc h.delivered (target ++ queue) (player ∷ []))
          ∙ ap (λ t. t ++ (player ∷ [])) v.in_order;
      idle = v.idle;
    }
step-IsInOrder (Event.looped now) h v = elim (Bool-cases (ready h.players now)) [
  | inl due ↦
      let nothing : h.players.players_target ≡ [] = v.idle (ready-unused h.players now due) in
      rw due (record {
        in_order =
            ap (◌++◌ h.delivered)
              (ap (◌++◌ h.players.players_queue) nothing ∙ append-nil h.players.players_queue)
            ∙ (rw nothing at v.in_order);
        idle = λ u. cc;
      })
  | inr early ↦ rw early v
]
step-IsInOrder Event.completed h v = elim (Bool-cases (Task.is_unused h.players.task.state)) [
  | inl idle ↦ rw idle v
  | inr busy ↦ rw busy (record {
    in_order =
        append_assoc h.delivered h.players.players_target h.players.players_queue ∙ v.in_order;
    idle = λ u. refl;
  })
]

-- Over any sequence of pushes, rounds of the main loop and completions, the players the handler got,
-- then the batch in flight, then the queue are exactly the players pushed, in the order of the
-- pushes, and no batch is in flight outside of processing.
pub run-IsInOrder_players :
    {A : Type 0} (es : List (Event A)) (h : History A) → IsInOrder h → IsInOrder (run es h)
unfolding run
run-IsInOrder_players [] h v = v
run-IsInOrder_players (e ∷ es) h v = run-IsInOrder_players es (step e h) (step-IsInOrder e h v)
