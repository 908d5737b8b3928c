-- ===== src/Server/Requests.antt =====
-- The sending half of Source/src/ModuleServer.cpp.
use Prim.Native.String.{String}
use process_manager_module.Base.{
  ℕ, ◌*◌, Bool, true, false, List, [], ◌∷◌, ◌++◌, Option, none, some, Outcome, returns, throws,
  hangs, invalid_address, ◌>>=◌, if◌then◌else◌, ltb,
}
use process_manager_module.Base.Int.{ℤ, pos}
use process_manager_module.Containers.Map
use process_manager_module.Timer.{
  CallbackEnd, completed, threw, deadlocked, new_timer, set_duration,
}
use process_manager_module.TimersCache.{register_timer}
use process_manager_module.MessageQueue
use process_manager_module.MessageQueue.{MessageQueue}
use process_manager_module.Messages.{
  Message, make_request_message, make_subscription_request_message, transaction_code_of,
}
use process_manager_module.Services.{ServiceRecord, Instance, get_client, get_service}
use process_manager_module.Server.State.{
  Destination, ParkedMessage, Datagram, Callback, resend, user_callback, Settings, Server, Cache,
  State, generate_transaction_code,
}

-- `std::chrono::seconds` in nanoseconds.
abbrev pub resend_duration : Settings → ℤ
resend_duration settings = pos (settings.time_between_message_resends_in_seconds * 1_000_000_000)

module _ {Any Address : Type 0} (settings : Settings)
    (serialize_to_string : Message Any → List ℕ) where
  unfoldable pub start_timer_to_resend :
      ℤ → Destination Address → Message Any → State Any Address → Outcome (State Any Address)
  start_timer_to_resend now destination request (s, c) = do
    let code = transaction_code_of request
    let parked_message : ParkedMessage Any Address = record {
      transaction_code = code;
      destination = destination;
      message = request;
    }
    let resend_timer =
        set_duration (resend_duration settings)
          (new_timer now (pos 0) (some (resend (some parked_message))))
    (c', resend_timer_id) ← register_timer (some resend_timer) c
    returns (
      record s {
        transaction_and_timer_id = Map.emplace code resend_timer_id s.transaction_and_timer_id;
      },
      c',
    )

  -- `async_send_to`, with a message that is there.
  unfoldable pub send_to_destination :
      Destination Address → List ℕ → Server Any Address → Server Any Address
  send_to_destination destination message s =
      let datagram : Datagram Address = record {
        receiver = destination.endpoint;
        bytes = message;
      } in
      record s {
        in_flight = s.in_flight ++ datagram ∷ [];
        handed_over = s.handed_over ++ datagram ∷ [];
      }

  unfoldable pub send : ℤ → State Any Address → Outcome (State Any Address)
  unfolding start_timer_to_resend send_to_destination
  send now (s, c) = do
    (destination, message) ← MessageQueue.front s.message_queue
    (s', c') ← start_timer_to_resend now destination message (s, c)
    returns (send_to_destination destination (serialize_to_string message) s', c')

  -- Pushing a message and, unless others are ahead of it, sending it: the same lines of code in each
  -- of the three calls that send. The result of `push` is never 0.
  unfoldable pub enqueue :
      ℤ → Destination Address → Message Any → State Any Address → Outcome (State Any Address × Bool)
  unfolding send
  enqueue now destination message (s, c) = do
    let (q, pushed) = MessageQueue.push (destination, message) s.message_queue
    let s' = record s { message_queue = q }
    if ltb 0 pushed
        then (if ltb 1 (MessageQueue.size q)
            then returns ((s', c), false)
            else (do r ← send now (s', c); returns (r, true)))
        else returns ((s', c), false)

  -- The completion handler of the oldest `async_send_to`; after an error `processSendError` does
  -- nothing.
  unfoldable pub complete_send : Bool → ℤ → State Any Address → Outcome (State Any Address)
  unfolding send
  complete_send error now (s, c) = elim s.in_flight [
    | [] ↦ returns (s, c)
    | datagram ∷ rest ↦
        let s' = record s { in_flight = rest } in
        if error then returns (s', c) else (do
          q ← MessageQueue.pop s.message_queue
          if MessageQueue.empty q
              then returns (record s' { message_queue = q }, c)
              else send now (record s' { message_queue = q }, c))
  ]

module _ {Address : Type 0} (from_string : String → Option Address) where
  unfoldable pub database_destination :
      ℕ → Option ServiceRecord → Outcome (Option (Destination Address))
  database_destination identifier none = returns none
  database_destination identifier (some service) = elim (from_string service.ip_address) [
    | none ↦ throws invalid_address
    | some address ↦ returns (
        some (record {
          service_identifier = identifier;
          endpoint = record { address = address; port = service.port };
        }))
  ]

module _ {Any Address : Type 0} (database : Instance) (from_string : String → Option Address) where
  -- Where the requests to a service go: the endpoint of the local map, or else that of the database.
  unfoldable pub find_destination : ℕ → Server Any Address → Outcome (Option (Destination Address))
  unfolding database_destination
  find_destination identifier s = elim (Map.find identifier s.services_endpoints_map) [
    | some endpoint ↦
        returns (some (record { service_identifier = identifier; endpoint = endpoint }))
    | none ↦ do
      client ← get_client database
      destination_service ← get_service client identifier
      database_destination from_string identifier destination_service
  ]

module _ {Any Address : Type 0} where
  -- The callback of a resend timer erases the transaction, if it is there, and sends the message.
  unfoldable pub forget_transaction :
      ParkedMessage Any Address → Server Any Address → Server Any Address
  forget_transaction m s = record s {
    transaction_and_timer_id = Map.erase m.transaction_code s.transaction_and_timer_id;
  }

module _ {Any Address : Type 0} (settings : Settings) (database : Instance)
    (from_string : String → Option Address) (serialize_to_string : Message Any → List ℕ) where
  -- `sendRequest(identifier, google::protobuf::Any*)`
  unfoldable pub send_request : ℤ → ℕ → Any → State Any Address → Outcome (State Any Address × Bool)
  unfolding enqueue
  send_request now identifier any (s, c) = do
    destination ← find_destination database from_string identifier s
    elim destination [
      | none ↦ returns ((s, c), false)
      | some d ↦ do
        (code, rest) ← generate_transaction_code s
        enqueue settings serialize_to_string now d
            (make_request_message settings.module_identifier any code)
            (record s { random_values = rest }, c)
    ]

  -- `sendRequest(identifier, ServiceModule::Message&)`
  unfoldable pub send_message :
      ℤ → ℕ → Message Any → State Any Address → Outcome (State Any Address × Bool)
  unfolding enqueue
  send_message now identifier message (s, c) = do
    destination ← find_destination database from_string identifier s
    elim destination [
      | none ↦ returns ((s, c), false)
      | some d ↦ enqueue settings serialize_to_string now d message (s, c)
    ]

  unfoldable pub send_subscribe_request :
      ℤ → ℕ → String → State Any Address → Outcome (State Any Address × Bool)
  unfolding enqueue
  send_subscribe_request now identifier subscribed_type (s, c) = do
    destination ← find_destination database from_string identifier s
    elim destination [
      | none ↦ returns ((s, c), false)
      | some d ↦ do
        (code, rest) ← generate_transaction_code s
        enqueue settings serialize_to_string now d
            (make_subscription_request_message settings.module_identifier subscribed_type code)
            (record s { random_values = rest }, c)
    ]

  unfoldable pub resend_message :
      ℤ → Option (ParkedMessage Any Address) → State Any Address → Outcome (State Any Address)
  unfolding send_message forget_transaction
  resend_message now none (s, c) = returns (s, c)
  resend_message now (some m) (s, c) = do
    (r, sent) ←
        send_message now m.destination.service_identifier m.message (forget_transaction m s, c)
    returns r

  -- A callback as the timers thread runs it, over a cache whose lock is held; `user` is the user's
  -- code.
  unfoldable pub run_callback :
      (ℕ → Server Any Address → CallbackEnd (Server Any Address))
      → ℤ
      → Cache Any Address
      → Callback Any Address
      → Server Any Address
      → CallbackEnd (Server Any Address)
  unfolding resend_message
  run_callback user now c (user_callback i) s = user i s
  run_callback user now c (resend none) s = completed s
  run_callback user now c (resend (some m)) s = elim (resend_message now (some m) (s, c)) [
    | returns (s', c') ↦ completed s'
    | throws e ↦ threw (forget_transaction m s)
    | hangs ↦ deadlocked
  ]
