-- ===== src/ModuleTests/Responses.antt =====
-- Tests/ModuleWatchdogMessageHandlersTests: the handlers of the responses to a connect request and
-- to a ping, each given one message by hand. The connection is any one, as the handlers see nothing
-- of it but the state and the sequence code.
use process_manager_module.Base.{ℕ, ◌≡◌, List, [], ◌∷◌, ◌++◌, none, some, arith}
use process_manager_module.Connection.{TcpMessage, set_timer_expiration}
use process_manager_module.Watchdog.{
  Operation, ConnectionState, not_connected, Connection, state_of, ConnectResponseData,
  handle_connect_response, handle_ping_response,
}
use process_manager_module.Watchdog.Laws.{granted, state_granted, handle_connect_response_lem}

module _ (serialize_connect_response : ConnectResponseData → List ℕ)
    (serialize_ping_response : ℕ → List ℕ) (parse_connect_response : List ℕ → ConnectResponseData)
    (parse_ping_response : List ℕ → ℕ) where
  -- The state and the sequence code at the start of a test.
  abbrev begin : ℕ → Connection → Connection
  begin sequence_code c = record c {
    derived = record {
      watchdog_connection_state = record { connection_state = not_connected; sleepers = [] };
      sequence_code = sequence_code;
    };
  }

  -- The header is what the default constructor leaves.
  abbrev message_with : Operation → List ℕ → TcpMessage Operation
  message_with code body = record { operation_code = code; size = 0; body = body }

  -- A section of the test of connect responses: the state and the sequence code that it looks at.
  unfoldable pub connect_section :
      Operation → ConnectResponseData → Connection → ConnectionState × ℕ
  connect_section code d c =
      let c' =
        handle_connect_response parse_connect_response parse_ping_response
          (message_with code (serialize_connect_response d)) (begin 0 c) in
      (state_of c', c'.derived.sequence_code)

  unfoldable pub ping_section : Operation → Connection → Connection
  ping_section code c =
      handle_ping_response parse_connect_response parse_ping_response
        (message_with code (serialize_ping_response 3)) (begin 3 c)

  -- A response that can be read back: the section finds the module connected, with the code, if the
  -- response is one of success that has a code, and otherwise not connected.
  pub connect_section_lem :
      (code : Operation) (d : ConnectResponseData) (c : Connection)
      → parse_connect_response (serialize_connect_response d) ≡ d
      → connect_section code d c
        ≡ (state_granted (granted d), elim (granted d) [ none ↦ 0 | some k ↦ k ])
  unfolding connect_section
  connect_section_lem code d c back =
      let (e, f, _g, _h) =
        handle_connect_response_lem parse_connect_response parse_ping_response
          (message_with code (serialize_connect_response d)) (begin 0 c) in
      ground (arith, e, f)

  pub ping_section_lem :
      (code : Operation) (c : Connection)
      → parse_ping_response (serialize_ping_response 3) ≡ 3
      → (ping_section code c).pending_waits ≡ c.pending_waits ++ 3000 ∷ []
  unfolding ping_section handle_ping_response set_timer_expiration
  ping_section_lem code c back = ground arith
