-- ===== src/MessageQueue.antt =====
-- Source/include/MessageQueue.hpp: a queue behind a lock. Each call takes and releases the lock by
-- itself, so the calls are atomic. `front` and `pop` of an empty `std::queue` are undefined.
use process_manager_module.Base.{
  ℕ, Bool, List, [], ◌∷◌, ◌++◌, length, Outcome, returns, throws, empty_queue, ◌==◌,
}

pub record MessageQueue (T : Type 0) : Type 0 where
  pub messages_queue : List T

module _ {T : Type 0} where
  unfoldable pub push : T → MessageQueue T → MessageQueue T × ℕ
  push message q =
      let messages = q.messages_queue ++ message ∷ [] in
      (record { messages_queue = messages }, length messages)

  unfoldable pub front : MessageQueue T → Outcome T
  front q = elim q.messages_queue [ [] ↦ throws empty_queue | message ∷ rest ↦ returns message ]

  unfoldable pub pop : MessageQueue T → Outcome (MessageQueue T)
  pop q = elim q.messages_queue [
    | [] ↦ throws empty_queue
    | message ∷ rest ↦ returns (record { messages_queue = rest })
  ]

  unfoldable pub size : MessageQueue T → ℕ
  size q = length q.messages_queue

  unfoldable pub empty : MessageQueue T → Bool
  empty q = length q.messages_queue == 0
