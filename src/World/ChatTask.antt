-- ===== src/World/ChatTask.antt =====
-- game/world_task.h CommonChatTask: chat packets pushed at any time are handed to the world in
-- batches.
use mmocraft.Prelude.{
  ℕ, ◌≡◌, sym, ap, ◌∙◌, inl, inr, Bool, true, ◌&&◌, List, [], ◌∷◌, ◌++◌, append-nil, append_assoc,
  arith, if◌then◌else◌, Bool-cases,
}
use mmocraft.Task
use mmocraft.Task.{Task}
use mmocraft.Buffer.Double
use mmocraft.Buffer.Double.{DoubleBuffering}

pub record CommonChatTask : Type 0 where
  pub task : Task
  pub common_chat_history : DoubleBuffering

unfoldable pub ready : CommonChatTask → ℕ → Bool
ready t now = Task.ready t.task now && Double.has_live_data t.common_chat_history

unfoldable pub before_scheduling : CommonChatTask → ℕ → CommonChatTask
before_scheduling t now = record {
  common_chat_history = Double.snapshot t.common_chat_history;
  task = Task.before_scheduling t.task now;
}

unfoldable pub push : CommonChatTask → List ℕ → CommonChatTask × Bool
push t bytes =
    let (history, done) = Double.push t.common_chat_history bytes in
    (record t { common_chat_history = history }, done)

-- on_event_complete: what the handler is called with, and the task after it.
unfoldable pub on_event_complete : CommonChatTask → List ℕ × CommonChatTask
on_event_complete t = (
  Double.get_snapshot_data t.common_chat_history,
  record {
    common_chat_history = Double.clear_snapshot t.common_chat_history;
    task = Task.set_unused t.task;
  },
)

-- What happens to the task: a push, a round of the main loop at a tick, or the completion of the
-- scheduled event on an event thread. A completion comes only for a scheduled task.
pub data Event : Type 0 where
  pushed : List ℕ → Event
  looped : ℕ → Event
  completed : Event

-- The task, what its handler got so far and what its pushes accepted so far.
pub record History : Type 0 where
  pub chat : CommonChatTask
  pub delivered : List ℕ
  pub accepted : List ℕ

step : Event → History → History
unfolding push before_scheduling on_event_complete
step (pushed bytes) h =
    let (t, done) = push h.chat bytes in
    record h { chat = t; accepted = if done then h.accepted ++ bytes else h.accepted }
step (looped now) h =
    if ready h.chat now then record h { chat = before_scheduling h.chat now } else h
step completed h =
    if Task.is_unused h.chat.task.state
    then h
    else let (batch, t) = on_event_complete h.chat in
      record h { chat = t; delivered = h.delivered ++ batch }

pub run : List Event → History → History
unfolding step
run [] h = h
run (e ∷ es) h = run es (step e h)

pub record IsInOrder (h : History) : Type 0 where
  pub buffers : Double.IsValid h.chat.common_chat_history
  pub in_order :
      h.delivered
        ++ (Double.get_snapshot_data h.chat.common_chat_history
            ++ Double.live_data h.chat.common_chat_history)
      ≡ h.accepted
  pub idle :
      Task.is_unused h.chat.task.state ≡ true
      → Double.get_snapshot_data h.chat.common_chat_history ≡ []

ready-unused :
    (t : CommonChatTask) (now : ℕ) → ready t now ≡ true → Task.is_unused t.task.state ≡ true
unfolding ready Task.ready
ready-unused t now h = ground arith

step-IsInOrder : (e : Event) (h : History) → IsInOrder h → IsInOrder (step e h)
unfolding step Task.before_scheduling
step-IsInOrder (pushed bytes) h v =
    let d : DoubleBuffering = h.chat.common_chat_history in
    let (live, same, valid, _) = Double.live_data-push d bytes v.buffers in
    elim (Bool-cases (Double.push d bytes).1) [
      | inl done ↦ record {
        buffers = valid;
        in_order =
            rw (same, live, done)
              (ap (◌++◌ h.delivered)
                  (sym (append_assoc (Double.get_snapshot_data d) (Double.live_data d) bytes))
                ∙ sym (
                    append_assoc h.delivered (Double.get_snapshot_data d ++ Double.live_data d)
                      bytes)
                ∙ ap (λ t. t ++ bytes) v.in_order);
        idle = λ u. same ∙ v.idle u;
      }
      | inr full ↦ record {
        buffers = valid;
        in_order = rw (same, live, full) v.in_order;
        idle = λ u. same ∙ v.idle u;
      }
    ]
step-IsInOrder (looped now) h v =
    let d : DoubleBuffering = h.chat.common_chat_history in
    let (new_live, new_batch, _, _, valid, _) = Double.snapshot_lem d v.buffers in
    elim (Bool-cases (ready h.chat now)) [
      | inl due ↦
          let nothing : Double.get_snapshot_data d ≡ [] = v.idle (ready-unused h.chat now due) in
          rw due (record {
            buffers = valid;
            in_order =
                rw (new_batch, new_live, nothing)
                  (ap (◌++◌ h.delivered) (append-nil (Double.live_data d))
                    ∙ (rw nothing at v.in_order));
            idle = λ u. cc;
          })
      | inr early ↦ rw early v
    ]
step-IsInOrder completed h v =
    let d : DoubleBuffering = h.chat.common_chat_history in
    let (_, _, kept, cleared, _, valid) = Double.snapshot_lem d v.buffers in
    elim (Bool-cases (Task.is_unused h.chat.task.state)) [
      | inl idle ↦ rw idle v
      | inr busy ↦ rw busy (record {
        buffers = valid;
        in_order =
            rw (kept, cleared)
              (append_assoc h.delivered (Double.get_snapshot_data d) (Double.live_data d)
                ∙ v.in_order);
        idle = λ u. cleared;
      })
    ]

-- Over any sequence of pushes, rounds of the main loop and completions, what the handler got, then
-- the batch in flight, then the live data are exactly the accepted packets: none is lost, doubled or
-- reordered; and outside of processing no batch is in flight.
pub run-IsInOrder : (es : List Event) (h : History) → IsInOrder h → IsInOrder (run es h)
unfolding run
run-IsInOrder [] h v = v
run-IsInOrder (e ∷ es) h v = run-IsInOrder es (step e h) (step-IsInOrder e h v)
