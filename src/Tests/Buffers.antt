-- ===== src/Tests/Buffers.antt =====
-- The buffers, the tasks of the world and the keys of connections at concrete values.
use mmocraft.Prelude.{ℕ, ◌≡◌, refl, false, List, [], ◌∷◌, arith}
use mmocraft.Task
use mmocraft.Buffer.Memory
use mmocraft.Buffer.Recv
use mmocraft.Buffer.Recv.{RecvData}
use mmocraft.Buffer.Send.{SendData}
use mmocraft.Buffer.LockFree
use mmocraft.Buffer.LockFree.{LockFreeData}
use mmocraft.Buffer.Double
use mmocraft.Buffer.Double.{DoubleBuffering}
use mmocraft.World.ChatTask
use mmocraft.World.PlayerTask

abbrev recv_data : RecvData
recv_data = record { mem = 1 ∷ 2 ∷ 3 ∷ 4 ∷ 5 ∷ []; size = 3 }

abbrev recv_data-IsValid : Recv.IsValid recv_data
recv_data-IsValid = record { fits = omega arith; small = omega arith }

abbrev recv_events : List Recv.Event
recv_events = Recv.handled 2 ∷ Recv.received (7 ∷ 8 ∷ 9 ∷ []) ∷ []

contents-run_example :
    (Recv.contents (Recv.run recv_events recv_data)
      ≡ Recv.stream recv_events (Recv.contents recv_data))
    × Recv.IsValid (Recv.run recv_events recv_data)
unfolding Recv.unused_size Recv.step Recv.pop Memory.write_at
contents-run_example =
    Recv.contents-run recv_events recv_data recv_data-IsValid (omega arith, (omega arith, tt))

abbrev send_data : SendData
send_data = record { mem = 1 ∷ 2 ∷ 3 ∷ 4 ∷ []; data_head = 1; data_tail = 3 }

abbrev lock_free_data : LockFreeData
lock_free_data = record { mem = 1 ∷ 2 ∷ 3 ∷ 4 ∷ []; data_head = 1; data_tail = 2 }

abbrev lock_free_data-IsValid : LockFree.IsValid lock_free_data
lock_free_data-IsValid = record { ordered = omega arith; fits = omega arith }

abbrev chat_history : DoubleBuffering
chat_history = record {
  swapped = false;
  first = record { mem = 0 ∷ 0 ∷ 0 ∷ []; buf_size = 1 };
  second = record { mem = 0 ∷ 0 ∷ 0 ∷ []; buf_size = 0 };
}

abbrev chat_history-IsValid : Double.IsValid chat_history
chat_history-IsValid = record { first_fits = omega arith; second_fits = omega arith }

abbrev chat_events : List ChatTask.Event
chat_events = ChatTask.pushed (1 ∷ []) ∷ ChatTask.looped 9 ∷ ChatTask.completed ∷ []

abbrev chat_start : ChatTask.History
chat_start = record {
  chat = record {
    task = record { state = Task.unused; interval_ms = 50; cooldown_at = 0 };
    common_chat_history = chat_history;
  };
  delivered = [];
  accepted = 0 ∷ [];
}

run-IsInOrder_example : ChatTask.IsInOrder (ChatTask.run chat_events chat_start)
unfolding Double.get_snapshot_data Double.live_data
run-IsInOrder_example =
    ChatTask.run-IsInOrder chat_events chat_start
      (record { buffers = chat_history-IsValid; in_order = refl; idle = λ u. refl })

abbrev player_events : List (PlayerTask.Event ℕ)
player_events =
    PlayerTask.pushed 4 ∷ PlayerTask.looped 9 ∷ PlayerTask.pushed 5 ∷ PlayerTask.completed ∷ []

abbrev player_start : PlayerTask.History ℕ
player_start = record {
  players = record {
    task = record { state = Task.unused; interval_ms = 50; cooldown_at = 0 };
    players_target = [];
    players_queue = [];
  };
  delivered = [];
  accepted = [];
}
