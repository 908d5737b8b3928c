-- ===== src/Watchdog/Laws.antt =====
-- The handlers of the watchdog's responses on all branches, and what a lost connection leaves.
use process_manager_module.Base.{
  ℕ, ◌≡◌, refl, Bool, false, List, [], Option, none, some, returns, if◌then◌else◌, arith,
  Option-cases, Bool-cases, inl, inr,
}
use process_manager_module.Connection.{TcpMessage}
use process_manager_module.Connection.Writing.{SameWriting}
use process_manager_module.Watchdog.{
  Operation, ConnectionState, not_connected, connected, is_state_connected, Connection, state_of,
  notify_state, set_connection_state_and_notify_all, set_connection_state, disconnect,
  connect_success, ConnectResponseData, on_response_code_success, handle_connect_data,
  handle_connect_response,
}

-- The sequence code that a response grants: it is one of success and has a code.
abbrev pub granted : ConnectResponseData → Option ℕ
granted d = elim d.response_code [ connect_success ↦ d.response_sequence_code | _ ↦ none ]

abbrev pub state_granted : Option ℕ → ConnectionState
state_granted none = not_connected
state_granted (some code) = connected

-- What a response to the connect request does. A connected module ignores it. Otherwise, shut down
-- or not, the module is connected with the sequence code that the response grants, or not connected
-- if it grants none, and every sleeping thread wakes up. Nothing else of the connection changes.
pub handle_connect_response_lem :
    (parse_connect_response : List ℕ → ConnectResponseData) (parse_ping_response : List ℕ → ℕ)
    (m : TcpMessage Operation) (c : Connection)
    → let c' = handle_connect_response parse_connect_response parse_ping_response m c in
      let w = c.derived.watchdog_connection_state in
      let w' = c'.derived.watchdog_connection_state in
      let code = granted (parse_connect_response m.body) in
      let ignored = is_state_connected (state_of c) in
      (state_of c' ≡ (if ignored then connected else state_granted code))
      × (c'.derived.sequence_code ≡ (
          if ignored
          then c.derived.sequence_code
          else elim code [ none ↦ c.derived.sequence_code | some k ↦ k ]))
      × (w'.sleepers ≡ (if ignored then w.sleepers else []))
      × (c' ≡ record c { derived = c'.derived })
unfolding handle_connect_response handle_connect_data on_response_code_success notify_state
    set_connection_state_and_notify_all set_connection_state
handle_connect_response_lem parse parse_ping m c = ground arith

-- Disconnecting closes the socket. A connected module is then not connected, and wakes every sleeping
-- thread; otherwise the state stays as it was. The writing half stays as it was, and a null socket is
-- the only fault.
pub disconnect_lem :
    (c : Connection) (is_open : Bool)
    → c.socket ≡ some is_open
    → (c' : Connection) × (disconnect c ≡ returns c')
      × (c'.socket ≡ some false)
      × (state_of c' ≡ (if is_state_connected (state_of c) then not_connected else state_of c))
      × (c'.derived.watchdog_connection_state.sleepers ≡ (
          if is_state_connected (state_of c)
          then []
          else c.derived.watchdog_connection_state.sleepers))
      × SameWriting c c'
unfolding disconnect notify_state set_connection_state_and_notify_all set_connection_state
disconnect_lem c b e =
    let closed : Connection = record c { socket = some false } in
    elim (Bool-cases (is_state_connected (state_of c))) [
      | inl on ↦ (
        notify_state not_connected closed,
        ground arith,
        refl,
        rw on,
        rw on,
        record { same_queue = refl; same_writes = refl; same_flag = refl },
      )
      | inr off ↦ (
        closed,
        ground arith,
        refl,
        rw off,
        rw off,
        record { same_queue = refl; same_writes = refl; same_flag = refl },
      )
    ]

-- Disconnecting leaves the writing half alone, whenever it returns.
pub disconnect-SameWriting : (c c' : Connection) → disconnect c ≡ returns c' → SameWriting c c'
unfolding disconnect
disconnect-SameWriting c c' h = elim (Option-cases c.socket) [
  | inl e ↦ absurd (ground arith)
  | inr (b, e) ↦
      let (d, k, s, t, u, w) = disconnect_lem c b e in
      let same : d ≡ c' = ground arith in rw (← same) w
]
