-- ===== src/Examples/Transactions.antt =====
-- The theorems on transactions, codes and the deadlock of the server, at the server of
-- Examples.Servers.
use process_manager_module.Base.{
  ℕ, ◌≡◌, ◌≢◌, refl, true, [], ◌∷◌, none, some, returns, hangs, arith,
}
use process_manager_module.Base.Int.{pos, ◌+ℤ◌}
use process_manager_module.Containers.Map
use process_manager_module.Containers.Order.{int_order}
use process_manager_module.Timer.{set_timer_id, get_expiration_timestamp}
use process_manager_module.TimersCache.{trigger_expired_timers, is_due, find_timer}
use process_manager_module.TimersCache.Invariant.{IsValid}
use process_manager_module.TimersCache.Firing.{due_timers}
use process_manager_module.TimersCache.Refinement.{registry}
use process_manager_module.MessageQueue
use process_manager_module.Server.State.{Server, Cache, new_server, generate_transaction_code}
use process_manager_module.Server.Requests.{run_callback, find_destination}
use process_manager_module.Server.Receiving.{handle_response}
use process_manager_module.Server.Sending.{resend_timer}
use process_manager_module.Server.Steps.{here}
use process_manager_module.Server.Transactions.{
  ended_transaction, without, timer_without, SameButTransactions, Exchange, handle_response_lem,
  answer-enqueue_collision,
}
use process_manager_module.Server.Codes.{generate_transaction_code_lem}
use process_manager_module.Server.Deadlock.{trigger_expired_timers_deadlock}
use process_manager_module.Examples.Servers.{
  settings, database, from_string, serialize, gps, message, answer, idle_server, running_timer,
  cache, cache-IsValid, user,
}

handle_response_lem_example :
    (s' : Server ℕ ℕ) × (c' : Cache ℕ ℕ) × (handle_response (answer 8) (idle_server, cache)
      ≡ returns (s', c'))
    × IsValid c'
    × SameButTransactions idle_server s'
    × ((k : ℕ)
        → Map.find k s'.transaction_and_timer_id
          ≡ timer_without
              (ended_transaction (answer 8) idle_server)
              8
              k
              (Map.find k idle_server.transaction_and_timer_id))
    × ((j : ℕ)
        → registry c' j ≡ without (ended_transaction (answer 8) idle_server) (registry cache) j)
handle_response_lem_example = handle_response_lem (answer 8) idle_server cache cache-IsValid

answer-enqueue_collision_example :
    (x : Exchange settings serialize (pos 5) gps (message 8) (answer 8) idle_server cache) × (i : ℕ)
    × (i ≢ 1)
    × (Map.find 8 x.server.transaction_and_timer_id ≡ none)
    × (registry x.cache i
        ≡ some (set_timer_id i (resend_timer settings serialize (pos 5) gps (message 8))))
unfolding Map.find MessageQueue.empty find_timer
answer-enqueue_collision_example =
    answer-enqueue_collision settings serialize (pos 5) gps (message 8) (answer 8) idle_server cache
      1 running_timer cache-IsValid (ground arith) refl refl refl refl refl

generate_transaction_code_lem_example :
    generate_transaction_code {Any = ℕ}
      (new_server ((0x34000001, gps.endpoint) ∷ []) (2004 ∷ 17 ∷ []))
    ≡ returns (5, 17 ∷ [])
unfolding new_server
generate_transaction_code_lem_example =
    generate_transaction_code_lem settings database from_string serialize
      ((0x34000001, gps.endpoint) ∷ []) (2004 ∷ 17 ∷ []) cache
      (new_server ((0x34000001, gps.endpoint) ∷ []) (2004 ∷ 17 ∷ []), cache) 2004 (17 ∷ []) here
      refl

trigger_expired_timers_deadlock_example :
    trigger_expired_timers
      (run_callback settings database from_string serialize user
        (pos 11)
        (record cache { timers_lock = true }))
      (pos 11)
      cache
      idle_server
    ≡ hangs
unfolding due_timers is_due get_expiration_timestamp ◌+ℤ◌ Map.find find_destination
trigger_expired_timers_deadlock_example =
    trigger_expired_timers_deadlock settings database from_string serialize user (pos 11) (pos 11)
      idle_server cache (record { transaction_code = 8; destination = gps; message = message 8 })
      running_timer [] gps refl refl refl refl refl
