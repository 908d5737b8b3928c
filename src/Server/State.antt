-- ===== src/Server/State.antt =====
-- The state of the server of Source/include/ModuleServer.hpp and Source/src/ModuleServer.cpp,
-- through which the module sends requests to services, sends them again until they are answered,
-- and receives. Not under this repository, and parameters here: the addresses of Boost.Asio with
-- `from_string` (`none` if it throws), protobuf's `Any`, `SerializeToString` and `ParseFromString`,
-- and the database. `rand()` gives the values of a list in turn; a call that finds no more values
-- waits. The socket keeps the datagrams whose `async_send_to` has not completed, oldest first, and
-- a log of all that were handed to it.
use process_manager_module.Base.{
  ℕ, ◌+◌, ◌%◌, Bool, true, false, List, [], ◌∷◌, Option, Outcome, returns, hangs, if◌then◌else◌,
  ◌==◌,
}
use process_manager_module.TimersCache.{TimersCache}
use process_manager_module.MessageQueue.{MessageQueue}
use process_manager_module.Messages.{Message}

pub record Endpoint (Address : Type 0) : Type 0 where
  pub address : Address
  pub port : ℕ

pub record Destination (Address : Type 0) : Type 0 where
  pub service_identifier : ℕ  -- int32_t, as a bit pattern
  pub endpoint : Endpoint Address

pub record ParkedMessage (Any Address : Type 0) : Type 0 where
  pub transaction_code : ℕ
  pub destination : Destination Address
  pub message : Message Any

pub record Datagram (Address : Type 0) : Type 0 where
  pub receiver : Endpoint Address
  pub bytes : List ℕ

-- The parameter of the resend timers' callback is a pointer. The other timers of the cache are the
-- user's.
pub data Callback (Any Address : Type 0) : Type 0 where
  resend : Option (ParkedMessage Any Address) → Callback Any Address
  user_callback : ℕ → Callback Any Address

-- The constants of a run: `Configuration` and `Globals::moduleIdentifier`.
pub record Settings : Type 0 where
  pub module_identifier : ℕ
  pub time_between_message_resends_in_seconds : ℕ

pub record Server (Any Address : Type 0) : Type 0 where
  pub services_endpoints_map : List (ℕ × Endpoint Address)
  pub message_queue : MessageQueue (Destination Address × Message Any)
  pub parked_messages : List (ParkedMessage Any Address)
  pub transaction_and_timer_id : List (ℕ × ℕ)
  pub random_values : List ℕ
  pub in_flight : List (Datagram Address)
  pub handed_over : List (Datagram Address)
  pub reading : Bool  -- an `async_receive_from` is pending
  pub message_buffer_size : ℕ

abbrev pub Cache : Type 0 → Type 0 → Type 0
Cache Any Address = TimersCache (Callback Any Address)

-- A server with the cache that it refers to.
abbrev pub State : Type 0 → Type 0 → Type 0
State Any Address = Server Any Address × Cache Any Address

module _ {Any Address : Type 0} where
  -- The constructor; `random_values` is what `rand()` will give.
  unfoldable pub new_server : List (ℕ × Endpoint Address) → List ℕ → Server Any Address
  new_server services_endpoints_map random_values = record {
    services_endpoints_map = services_endpoints_map;
    message_queue = record { messages_queue = [] };
    parked_messages = [];
    transaction_and_timer_id = [];
    random_values = random_values;
    in_flight = [];
    handed_over = [];
    reading = false;
    message_buffer_size = 0;
  }

  unfoldable pub code_parked : ℕ → List (ParkedMessage Any Address) → Bool
  code_parked code [] = false
  code_parked code (p ∷ ps) = if p.transaction_code == code then true else code_parked code ps

  -- The `while` of `generateTransactionCode`: the code at hand is in use, so draw another.
  unfoldable pub draw_again : List (ParkedMessage Any Address) → ℕ → List ℕ → Outcome (ℕ × List ℕ)
  draw_again parked code [] = if code_parked code parked then hangs else returns (code, [])
  draw_again parked code (r ∷ rs) =
      let rest = draw_again parked (r % 10000000 + 1) rs in
      if code_parked code parked then rest else returns (code, r ∷ rs)

  unfoldable pub generate_transaction_code : Server Any Address → Outcome (ℕ × List ℕ)
  unfolding draw_again
  generate_transaction_code s = elim s.random_values [
    | [] ↦ hangs
    | r ∷ rs ↦ draw_again s.parked_messages (r % 1000 + 1) rs
  ]
