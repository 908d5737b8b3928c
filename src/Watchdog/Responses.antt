-- ===== src/Watchdog/Responses.antt =====
-- The handling of the watchdog's messages, as the reading half of the connection sees it, and the
-- cycle of pings.
use mathlib.Core.List.{append-nil}
use process_manager_module.Base.{
  ℕ, ◌≡◌, refl, true, false, List, [], ◌∷◌, ◌++◌, returns, arith, ◌==◌, Bool-cases, Option-cases,
  List-cases, length, length-append, ap, inl, inr, if◌then◌else◌,
}
use process_manager_module.Connection.{
  TcpMessage, TcpConnection, header_write, set_timer_expiration, send_message, write_message_header,
}
use process_manager_module.MessageQueue
use process_manager_module.Connection.Wire.{Handles}
use process_manager_module.Watchdog.{
  Operation, connect_request, ping_request, shutdown_request, connect_response, ping_response,
  reconnect_response, other_operation, Connection, ConnectResponseData, handle_connect_response,
  handle_connect_data, on_response_code_success, notify_state, message_of, send_ping, timer_expired,
  handle_ping_response, handle_reconnect_response, handle_received_message,
}

module _ {T D : Type 0} where
  -- The message is queued, whether it can be written now or not, or never.
  send_message_returns :
      (m : TcpMessage T) (c : TcpConnection T D)
      → (c' : TcpConnection T D) × (send_message m c ≡ returns c')
        × (c'.messages_queue.messages_queue ≡ c.messages_queue.messages_queue ++ m ∷ [])
        × (c'.pending_waits ≡ c.pending_waits)
        × (c'.derived ≡ c.derived)
  unfolding send_message write_message_header MessageQueue.push MessageQueue.front
  send_message_returns m c =
      let queued : TcpConnection T D = record c {
        messages_queue = record { messages_queue = c.messages_queue.messages_queue ++ m ∷ [] };
      } in
      elim (Option-cases c.socket) [
        | inl e ↦ (queued, ground arith, refl, refl, refl)
        | inr (false, e) ↦ (queued, ground arith, refl, refl, refl)
        | inr (true, e) ↦ elim (Bool-cases c.sending_in_progress) [
          | inl busy ↦ (queued, ground arith, refl, refl, refl)
          | inr idle ↦ elim (List-cases (c.messages_queue.messages_queue ++ m ∷ [])) [
            | inl q ↦ absurd (
                ground (arith, length-append c.messages_queue.messages_queue (m ∷ []), ap length q))
            | inr (x, xs, q) ↦ (
              record queued {
                sending_in_progress = true;
                pending_writes = c.pending_writes ++ header_write x ∷ [];
              },
              ground arith,
              refl,
              refl,
              refl,
            )
          ]
        ]
      ]

module _ (parse_connect_response : List ℕ → ConnectResponseData)
    (parse_ping_response : List ℕ → ℕ) where
  -- The connection after a message; anything but the three responses changes nothing.
  unfoldable pub respond : TcpMessage Operation → Connection → Connection
  respond m c = elim m.operation_code [
    | connect_response ↦ handle_connect_response parse_connect_response parse_ping_response m c
    | ping_response ↦ handle_ping_response parse_connect_response parse_ping_response m c
    | reconnect_response ↦ c
    | connect_request ↦ c
    | ping_request ↦ c
    | shutdown_request ↦ c
    | other_operation n ↦ c
  ]

  -- The handler returns for every message, and leaves the socket and the reading half alone.
  pub handle_received_message-Handles :
      Handles (handle_received_message parse_connect_response parse_ping_response) respond
  unfolding handle_received_message respond handle_connect_response handle_connect_data
      on_response_code_success notify_state handle_ping_response handle_reconnect_response
      set_timer_expiration
  handle_received_message-Handles = record {
    result = λ m c. ground arith;
    same_socket = λ m c. ground arith;
    same_reads = λ m c. ground arith;
    same_incoming = λ m c. ground arith;
  }

  -- The next ping is due in 3 seconds, if the response has the sequence code of the connection.
  abbrev pub next_ping : TcpMessage Operation → Connection → List ℕ
  next_ping m c = if parse_ping_response m.body == c.derived.sequence_code then 3000 ∷ [] else []

  answered :
      (m : TcpMessage Operation) (c c' : Connection) (rest : List ℕ)
      → c'.pending_waits ≡ rest
      → c'.derived.sequence_code ≡ c.derived.sequence_code
      → handle_ping_response parse_connect_response parse_ping_response m c'
        ≡ record c' { pending_waits = rest ++ next_ping m c }
  unfolding handle_ping_response set_timer_expiration
  answered m c c' rest p k =
      elim (Bool-cases (parse_ping_response m.body == c.derived.sequence_code)) [
        | inl hit ↦ rw (k, hit, p)
        | inr miss ↦ rw (k, miss, append-nil rest, ← p)
      ]

  -- When the timer of the pings expires, the call returns with one more message in the queue, a ping
  -- with the sequence code of the connection. The response sets the timer again if it has that same
  -- code, and otherwise adds no wait to those that are pending; nothing else changes.
  pub handle_ping_response-timer_expired :
      (serialize_code : ℕ → List ℕ) (m : TcpMessage Operation) (c : Connection) (d : ℕ)
      (rest : List ℕ)
      → c.pending_waits ≡ d ∷ rest
      → (c' : Connection) × (timer_expired serialize_code c ≡ returns c')
        × (c'.messages_queue.messages_queue
            ≡ c.messages_queue.messages_queue
              ++ message_of ping_request (serialize_code c.derived.sequence_code) ∷ [])
        × (c'.pending_waits ≡ rest)
        × (c'.derived ≡ c.derived)
        × (handle_ping_response parse_connect_response parse_ping_response m c'
            ≡ record c' { pending_waits = rest ++ next_ping m c })
  unfolding timer_expired send_ping
  handle_ping_response-timer_expired serialize_code m c d rest w =
      let (c', e, q, p, k) =
        send_message_returns (message_of ping_request (serialize_code c.derived.sequence_code))
          (record c { pending_waits = rest }) in
      (c', rw w e, q, p, k, answered m c c' rest p (ap (λ x. x.sequence_code) k))
