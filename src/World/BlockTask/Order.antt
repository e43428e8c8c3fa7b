-- ===== src/World/BlockTask/Order.antt =====
-- What a BlockSyncTask hands over, against what was pushed.
use mmocraft.Prelude.{
  ℕ, ◌≡◌, refl, sym, ap, ◌∙◌, inl, inr, true, List, [], ◌∷◌, ◌++◌, append-nil, append_assoc, arith,
  if◌then◌else◌, Bool-cases,
}
use mmocraft.Task
use mmocraft.Buffer.Double
use mmocraft.Buffer.Double.{DoubleBuffering}
use mmocraft.World.BlockHistory.{Change, record_bytes, add_record}
use mmocraft.World.BlockTask
use mmocraft.World.BlockTask.{BlockSyncTask}

-- A push, a round of the main loop at a tick, or the completion of the scheduled event.
pub data Event (A : Type 0) : Type 0 where
  waited : A → Event A
  changed : Change → Event A
  looped : ℕ → Event A
  completed : Event A

-- The task, what its handler got so far, and what its pushes accepted so far.
pub record History (A : Type 0) : Type 0 where
  pub sync : BlockSyncTask A
  pub served : List A
  pub joined : List A
  pub delivered : List ℕ
  pub accepted : List ℕ

pub record IsInOrder {A : Type 0} (h : History A) : Type 0 where
  pub buffers : Double.IsValid h.sync.block_history
  pub blocks :
      h.delivered
        ++ (Double.get_snapshot_data h.sync.block_history ++ Double.live_data h.sync.block_history)
      ≡ h.accepted
  pub players : h.served ++ (h.sync.level_wait_players ++ h.sync.level_wait_player_queue) ≡ h.joined
  pub idle :
      Task.is_unused h.sync.task.state ≡ true
      → (Double.get_snapshot_data h.sync.block_history ≡ []) × (h.sync.level_wait_players ≡ [])

-- A batch in front of the queue, when more is pushed.
append_back :
    {B : Type 0} (xs ys zs out more : List B)
    → xs ++ (ys ++ zs) ≡ out
    → xs ++ (ys ++ (zs ++ more)) ≡ out ++ more
append_back xs ys zs out more h =
    ap (◌++◌ xs) (sym (append_assoc ys zs more))
    ∙ sym (append_assoc xs (ys ++ zs) more)
    ∙ ap (λ t. t ++ more) h

-- The queue becomes the batch, when there was none.
swap_batch :
    {B : Type 0} (xs ys zs out : List B) → ys ≡ [] → xs ++ (ys ++ zs) ≡ out → xs ++ (zs ++ ys) ≡ out
swap_batch xs ys zs out e h =
    ap (λ t. xs ++ (zs ++ t)) e
    ∙ ap (◌++◌ xs) (append-nil zs)
    ∙ sym (ap (λ t. xs ++ (t ++ zs)) e)
    ∙ h

module _ {A : Type 0} where
  step : Event A → History A → History A
  unfolding BlockTask.push_player BlockTask.push_change BlockTask.before_scheduling
      BlockTask.on_event_complete
  step (Event.waited player) h = record h {
    sync = BlockTask.push_player h.sync player;
    joined = h.joined ++ (player ∷ []);
  }
  step (Event.changed c) h =
      let (t, done) = BlockTask.push_change h.sync c in
      record h { sync = t; accepted = if done then h.accepted ++ record_bytes c else h.accepted }
  step (Event.looped now) h =
      if BlockTask.ready h.sync now
      then record h { sync = BlockTask.before_scheduling h.sync now }
      else h
  step Event.completed h =
      if Task.is_unused h.sync.task.state
      then h
      else let ((players, records), t) = BlockTask.on_event_complete h.sync in
        record h { sync = t; served = h.served ++ players; delivered = h.delivered ++ records }

  pub run : List (Event A) → History A → History A
  unfolding step
  run [] h = h
  run (e ∷ es) h = run es (step e h)

  ready-unused :
      (t : BlockSyncTask A) (now : ℕ)
      → BlockTask.ready t now ≡ true
      → Task.is_unused t.task.state ≡ true
  unfolding BlockTask.ready Task.ready
  ready-unused t now h = ground arith

  step-IsInOrder : (e : Event A) (h : History A) → IsInOrder h → IsInOrder (step e h)
  unfolding step Task.before_scheduling add_record
  step-IsInOrder (Event.waited player) h v = record {
    buffers = v.buffers;
    blocks = v.blocks;
    players =
        append_back h.served h.sync.level_wait_players h.sync.level_wait_player_queue h.joined
          (player ∷ []) v.players;
    idle = v.idle;
  }
  step-IsInOrder (Event.changed c) h v =
      let d : DoubleBuffering = h.sync.block_history in
      let (live, same, valid, _) = Double.live_data-push d (record_bytes c) v.buffers in
      elim (Bool-cases (Double.push d (record_bytes c)).1) [
        | inl done ↦ record {
          buffers = valid;
          blocks =
              rw (same, live, done)
                (append_back h.delivered (Double.get_snapshot_data d) (Double.live_data d)
                  h.accepted (record_bytes c) v.blocks);
          players = v.players;
          idle = λ u. (same ∙ (v.idle u).0, (v.idle u).1);
        }
        | inr full ↦ record {
          buffers = valid;
          blocks = rw (same, live, full) v.blocks;
          players = v.players;
          idle = λ u. (same ∙ (v.idle u).0, (v.idle u).1);
        }
      ]
  step-IsInOrder (Event.looped now) h v =
      let d : DoubleBuffering = h.sync.block_history in
      let (new_live, new_batch, _, _, valid, _) = Double.snapshot_lem d v.buffers in
      elim (Bool-cases (BlockTask.ready h.sync now)) [
        | inl due ↦
            let (no_records, no_players) = v.idle (ready-unused h.sync now due) in
            rw due (record {
              buffers = valid;
              blocks =
                  rw (new_batch, new_live)
                    (swap_batch h.delivered (Double.get_snapshot_data d) (Double.live_data d)
                      h.accepted no_records v.blocks);
              players =
                  swap_batch h.served h.sync.level_wait_players h.sync.level_wait_player_queue
                    h.joined no_players v.players;
              idle = λ u. cc;
            })
        | inr early ↦ rw early v
      ]
  step-IsInOrder Event.completed h v =
      let d : DoubleBuffering = h.sync.block_history in
      let (_, _, kept, cleared, _, valid) = Double.snapshot_lem d v.buffers in
      elim (Bool-cases (Task.is_unused h.sync.task.state)) [
        | inl idle ↦ rw idle v
        | inr busy ↦ rw busy (record {
          buffers = valid;
          blocks =
              rw (kept, cleared)
                (append_assoc h.delivered (Double.get_snapshot_data d) (Double.live_data d)
                  ∙ v.blocks);
          players =
              append_assoc h.served h.sync.level_wait_players h.sync.level_wait_player_queue
              ∙ v.players;
          idle = λ u. (cleared, refl);
        })
      ]

  -- Over any sequence of pushes, rounds of the main loop and completions, the records of blocks
  -- that the world got, then the batch in flight, then the live data are exactly the accepted
  -- records, and so are the players that wait for the level; outside of processing nothing is in
  -- flight.
  pub run-IsInOrder_blocks :
      (es : List (Event A)) (h : History A) → IsInOrder h → IsInOrder (run es h)
  unfolding run
  run-IsInOrder_blocks [] h v = v
  run-IsInOrder_blocks (e ∷ es) h v = run-IsInOrder_blocks es (step e h) (step-IsInOrder e h v)
