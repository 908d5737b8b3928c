-- ===== src/Server/Receiving.antt =====
-- The receiving half of Source/src/ModuleServer.cpp. `parse_from_string` is protobuf's, `none` if
-- it fails, and gets what was stored in the buffer; `validate` and `run` are the user's code behind
-- the events, over the user's world `W`.
use process_manager_module.Base.{
  ℕ, Bool, true, false, List, Option, none, some, Outcome, returns, throws, system_error, ◌>>=◌,
  if◌then◌else◌,
}
use process_manager_module.Base.Int.{signed32}
use process_manager_module.Containers.Map
use process_manager_module.TimersCache.{remove_timer}
use process_manager_module.Messages.{
  Message, success, other_response_code, header_or_default, transaction_code_of,
}
use process_manager_module.EventsCache.{EventsCache, run_requests_handlers}
use process_manager_module.Server.State.{Server, State}

module _ {Any Address : Type 0} where
  -- `bindToListeningSocket`: `bound` tells whether `open` and `bind` succeed. They throw a
  -- `system_error`, which the handler for `error_code` does not catch.
  unfoldable pub bind_to_listening_socket :
      Bool → ℕ → Server Any Address → Outcome (Server Any Address × Bool)
  bind_to_listening_socket bound message_buffer_size s =
      if bound
      then returns (record s { message_buffer_size = message_buffer_size }, true)
      else throws system_error

  unfoldable pub start_reading : Server Any Address → Server Any Address
  start_reading s = record s { reading = true }

  unfoldable pub handle_response : Message Any → State Any Address → Outcome (State Any Address)
  handle_response message (s, c) = elim message.response [
    | none ↦ returns (s, c)
    | some code ↦ elim code [
      | success ↦ elim (Map.find (transaction_code_of message) s.transaction_and_timer_id) [
        | none ↦ returns (s, c)
        | some timer_id ↦ do
          c' ← remove_timer timer_id c
          returns (
            record s {
              transaction_and_timer_id =
                  Map.erase (transaction_code_of message) s.transaction_and_timer_id;
            },
            c',
          )
      ]
      | other_response_code n ↦ returns (s, c)
    ]
  ]

module _ {Cb Any W : Type 0} (validate : Cb → Any → Bool) (run : Cb → Any → W → Outcome W) where
  -- `any` is `message.request().request()`.
  unfoldable pub handle_request : EventsCache Cb → Message Any → Any → W → Outcome W
  handle_request events message any w =
      run_requests_handlers validate run
        (signed32 (header_or_default message.header).sender_identifier) any events w

  module _ {Address : Type 0} (parse_from_string : List ℕ → Option (Message Any)) where
    -- What is done with a message that was parsed.
    unfoldable pub dispatch :
        EventsCache Cb → Message Any → State Any Address × W → Outcome (State Any Address × W)
    unfolding handle_request handle_response
    dispatch events message (sc, w) = elim message.header [
      | none ↦ returns (sc, w)
      | some header ↦ elim message.request [
        | some any ↦ do w' ← handle_request events message any w; returns (sc, w')
        | none ↦ elim message.response [
          | some code ↦ do sc' ← handle_response message sc; returns (sc', w)
          | none ↦ returns (sc, w)
        ]
      ]
    ]

    -- The completion handler of `async_receive_from`: an error ends the reading, for
    -- `processHandleReceiveError` does nothing; otherwise the next read is started first.
    unfoldable pub handle_receive :
        EventsCache Cb → Bool → List ℕ → State Any Address × W → Outcome (State Any Address × W)
    unfolding dispatch start_reading
    handle_receive events error received_message ((s, c), w) =
        let stopped = record s { reading = false } in
        if error then returns ((stopped, c), w) else (elim (parse_from_string received_message) [
          | none ↦ returns ((start_reading stopped, c), w)
          | some message ↦ dispatch events message ((start_reading stopped, c), w)
        ])
