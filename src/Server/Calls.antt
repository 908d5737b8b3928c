-- ===== src/Server/Calls.antt =====
-- The three calls with which the user sends, as wholes: both versions of Server::sendRequest, and
-- Server::sendSubscribeRequest (Source/src/ModuleServer.cpp).
use Prim.Native.String.{String}
use process_manager_module.Base.{
  ℕ, ◌+◌, ◌%◌, ◌^◌, ◌≤◌, ◌≡◌, Bool, false, List, [], ◌∷◌, Option, none, some, Outcome, returns,
  throws, hangs, length,
}
use process_manager_module.Base.Int.{ℤ}
use process_manager_module.TimersCache.Invariant.{IsValid}
use process_manager_module.MessageQueue
use process_manager_module.Messages.{
  Message, make_request_message, make_subscription_request_message,
}
use process_manager_module.Services.{Instance}
use process_manager_module.Server.State.{
  Destination, Settings, Server, Cache, State, new_server, generate_transaction_code,
}
use process_manager_module.Server.Requests.{
  find_destination, send_request, send_message, send_subscribe_request,
}
use process_manager_module.Server.Sending.{SentIf, enqueue_lem}
use process_manager_module.Server.Steps.{Reach}
use process_manager_module.Server.Codes.{generate_transaction_code_lem}
use process_manager_module.Server.Destinations.{known_destination, find_destination-Reach}

module _ {Any Address : Type 0} (settings : Settings) (database : Instance)
    (from_string : String → Option Address) (serialize_to_string : Message Any → List ℕ)
    (now : ℤ) where
  -- A call that sends `m` does what the destination says: it has the destination's fault; without
  -- one it answers false and changes nothing; otherwise it sends the message in the state `x`, or
  -- queues it if others wait there.
  abbrev pub Sends :
      Outcome (Option (Destination Address))
      → Message Any
      → State Any Address
      → State Any Address
      → Outcome (State Any Address × Bool)
      → Type 0
  Sends (throws f) m x₀ x call = call ≡ throws f
  Sends hangs m x₀ x call = call ≡ hangs
  Sends (returns none) m x₀ x call = call ≡ returns (x₀, false)
  Sends (returns (some d)) m x₀ (s, c) call =
      let idle = MessageQueue.empty s.message_queue in
      (s' : Server Any Address) × (c' : Cache Any Address) × (call ≡ returns ((s', c'), idle))
      × SentIf settings serialize_to_string idle now d m (s, c) (s', c')

  module _ (identifier : ℕ) (s : Server Any Address) (c : Cache Any Address) (v : IsValid c)
      (room : length c.timers + 2 ≤ 2 ^ 32) where
    pub send_message_lem :
        (m : Message Any) (o : Outcome (Option (Destination Address)))
        → find_destination database from_string identifier s ≡ o
        → Sends o m
            (s, c)
            (s, c)
            (send_message settings database from_string serialize_to_string now identifier m (s, c))
    unfolding send_message
    send_message_lem m (throws f) e = rw e
    send_message_lem m hangs e = rw e
    send_message_lem m (returns none) e = rw e
    send_message_lem m (returns (some d)) e =
        rw e (enqueue_lem settings serialize_to_string now s c d m v room)

    module _ (code : ℕ) (rest : List ℕ)
        (drawn : generate_transaction_code s ≡ returns (code, rest)) where
      pub send_request_lem :
          (any : Any) (o : Outcome (Option (Destination Address)))
          → find_destination database from_string identifier s ≡ o
          → Sends o
              (make_request_message settings.module_identifier any code)
              (s, c)
              (record s { random_values = rest }, c)
              (send_request settings database from_string serialize_to_string now identifier any
                (s, c))
      unfolding send_request
      send_request_lem any (throws f) e = rw e
      send_request_lem any hangs e = rw e
      send_request_lem any (returns none) e = rw e
      send_request_lem any (returns (some d)) e =
          rw (e, drawn)
            (enqueue_lem settings serialize_to_string now (record s { random_values = rest }) c d _
              v room)

      send_subscribe_request_lem :
          (subscribed_type : String) (o : Outcome (Option (Destination Address)))
          → find_destination database from_string identifier s ≡ o
          → Sends o
              (make_subscription_request_message settings.module_identifier subscribed_type code)
              (s, c)
              (record s { random_values = rest }, c)
              (send_subscribe_request settings database from_string serialize_to_string now
                identifier subscribed_type
                (s, c))
      unfolding send_subscribe_request
      send_subscribe_request_lem t (throws f) e = rw e
      send_subscribe_request_lem t hangs e = rw e
      send_subscribe_request_lem t (returns none) e = rw e
      send_subscribe_request_lem t (returns (some d)) e =
          rw (e, drawn)
            (enqueue_lem settings serialize_to_string now (record s { random_values = rest }) c d _
              v room)

  -- In every state that a server with an empty map of endpoints reaches, over a valid cache with fewer
  -- than 2 ^ 32 - 1 timers and with a random value at hand, each of the three calls ends as the
  -- database says of the service. If it throws or the address is none, so does the call; if it does
  -- not know the service, the call answers false and changes nothing. Otherwise the message given, or
  -- the request or subscription made of what is given with the code that the random value gives, is
  -- queued; if no other message waits it is sent to the address and port of the record, with a timer
  -- for its repetition, and the call answers true, or else it answers false.
  pub calls-Reach :
      (random : List ℕ) (c₀ : Cache Any Address) (s : Server Any Address) (c : Cache Any Address)
      (identifier v : ℕ) (vs : List ℕ)
      → Reach settings database from_string serialize_to_string (new_server [] random, c₀) (s, c)
      → IsValid c
      → length c.timers + 2 ≤ 2 ^ 32
      → s.random_values ≡ v ∷ vs
      → let o = known_destination settings database from_string serialize_to_string identifier in
        let drawn = record s { random_values = vs } in
        ((m : Message Any)
          → Sends o m
              (s, c)
              (s, c)
              (send_message settings database from_string serialize_to_string now identifier m
                (s, c)))
        × ((any : Any)
            → Sends o
                (make_request_message settings.module_identifier any (v % 1000 + 1))
                (s, c)
                (drawn, c)
                (send_request settings database from_string serialize_to_string now identifier any
                  (s, c)))
        × ((subscribed_type : String)
            → Sends o
                (make_subscription_request_message settings.module_identifier subscribed_type
                  (v % 1000 + 1))
                (s, c)
                (drawn, c)
                (send_subscribe_request settings database from_string serialize_to_string now
                  identifier subscribed_type
                  (s, c)))
  calls-Reach random c₀ s c identifier v vs r valid room e =
      let o =
        find_destination-Reach settings database from_string serialize_to_string random c₀ (s, c)
          identifier r in
      let drawn =
        generate_transaction_code_lem settings database from_string serialize_to_string [] random c₀
          (s, c) v vs r e in
      (
        λ m. send_message_lem identifier s c valid room m _ o,
        λ any. send_request_lem identifier s c valid room _ _ drawn any _ o,
        λ t. send_subscribe_request_lem identifier s c valid room _ _ drawn t _ o,
      )
