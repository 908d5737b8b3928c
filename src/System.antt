-- ===== src/System.antt =====
-- The parts that share state, put together: the server (Source/src/ModuleServer.cpp), the cache of
-- timers (Source/src/TimersCache.cpp) and the thread that serves it
-- (Source/src/TimersThreadMain.cpp). What they agree on is which timer repeats the message of which
-- transaction.
pub mod Links
pub mod Sends
pub mod Calls
pub mod Callbacks
pub mod Round
pub mod Answers
pub mod Steps
use process_manager_module.Base.{ℕ, ◌≡◌, false, List, some}
use process_manager_module.Containers.Map
use process_manager_module.Timer.{Timer, waiting}
use process_manager_module.TimersCache.Invariant.{IsValid}
use process_manager_module.TimersCache.Refinement.{Registry, registry}
use process_manager_module.Messages.{transaction_code_of}
use process_manager_module.Server.State.{ParkedMessage, Callback, resend, State}

module _ {Any Address : Type 0} where
  -- The timer waits to send the message of the transaction with this code once more.
  pub record Repeats (code : ℕ) (t : Timer (Callback Any Address)) : Type 0 where
    pub message : ParkedMessage Any Address
    pub callback : t.callback_function ≡ some (resend (some message))
    pub same : message.transaction_code ≡ code
    pub coded : transaction_code_of message.message ≡ code
    pub waits : t.action_status ≡ waiting
    pub once : t.repeatable ≡ false

  -- The transactions of a server and the timers of a cache: each transaction has its timer.
  abbrev pub Linked : List (ℕ × ℕ) → Registry (Callback Any Address) → Type 0
  Linked transactions r =
      (code i : ℕ)
      → Map.find code transactions ≡ some i
      → (t : Timer (Callback Any Address)) × (r i ≡ some t) × Repeats code t

  -- What holds of the server and the cache between two calls.
  pub record IsSound (x : State Any Address) : Type 0 where
    pub valid : IsValid x.1
    pub linked : Linked x.0.transaction_and_timer_id (registry x.1)
