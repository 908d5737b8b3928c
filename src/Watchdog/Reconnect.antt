-- ===== src/Watchdog/Reconnect.antt =====
-- What the watcher thread brings about after the connection was lost.
use process_manager_module.Base.{
  ℕ, ◌≡◌, ◌∙◌, ap, Bool, false, List, [], returns, ◌>>=◌, arith, Option-cases, Outcome-cases,
  Bool-cases, List-cases, inl, inr,
}
use process_manager_module.MessageQueue
use process_manager_module.MessageQueue.{MessageQueue}
use process_manager_module.Connection.{
  TcpMessage, is_connected, close_socket, make_new_socket, connect, set_timer_expiration,
  write_message_header, write_message_body, send_message,
}
use process_manager_module.Connection.Handlers.{post_write_message_header, post_write_message_body}
use process_manager_module.Watchdog.{
  Operation, is_state_connected, Connection, state_of, fall_asleep, disconnect, message_of,
  send_connect_request, send_ping, timer_expired,
}
use process_manager_module.Watchdog.Watcher.{
  WatcherPhase, at_loop, waiting_for_change, at_reconnect, waiting_for_answer, finished,
  watcher_step,
}

-- The module is not connected, and nothing that the watchdog sends is being read.
pub record IsDeaf (c : Connection) : Type 0 where
  pub not_reading : c.pending_reads ≡ []
  pub unconnected : is_state_connected (state_of c) ≡ false

-- Nothing that matters for that differs.
pub record SameReading (c c' : Connection) : Type 0 where
  pub same_reads : c'.pending_reads ≡ c.pending_reads
  pub same_state : state_of c' ≡ state_of c

pub SameReading-IsDeaf : (c c' : Connection) → SameReading c c' → IsDeaf c → IsDeaf c'
SameReading-IsDeaf c c' s d = record {
  not_reading = s.same_reads ∙ d.not_reading;
  unconnected = ap is_state_connected s.same_state ∙ d.unconnected;
}

write_message_header-SameReading :
    (c c' : Connection) → write_message_header c ≡ returns c' → SameReading c c'
unfolding write_message_header MessageQueue.front
write_message_header-SameReading c c' h = record {
  same_reads = ground arith;
  same_state = ground arith;
}

write_message_body-SameReading :
    (c c' : Connection) → write_message_body c ≡ returns c' → SameReading c c'
unfolding write_message_body MessageQueue.front
write_message_body-SameReading c c' h = record {
  same_reads = ground arith;
  same_state = ground arith;
}

pub send_message-SameReading :
    (m : TcpMessage Operation) (c c' : Connection)
    → send_message m c ≡ returns c'
    → SameReading c c'
unfolding send_message write_message_header MessageQueue.push MessageQueue.front
send_message-SameReading m c c' h = record { same_reads = ground arith; same_state = ground arith }

disconnect-IsDeaf : (c c' : Connection) → disconnect c ≡ returns c' → IsDeaf c → IsDeaf c'
unfolding disconnect
disconnect-IsDeaf c c' h d = elim (Option-cases c.socket) [
  | inl e ↦ absurd (ground arith)
  | inr (b, e) ↦ record {
    not_reading = ground (arith, d.unconnected, d.not_reading);
    unconnected = ground (arith, d.unconnected);
  }
]

-- What an error of a write leaves.
failed_write-IsDeaf :
    (c c' : Connection)
    → (disconnect c >>= λ d. returns (record d { sending_in_progress = false })) ≡ returns c'
    → IsDeaf c
    → IsDeaf c'
failed_write-IsDeaf c c' h d = elim (Outcome-cases (disconnect c)) [
  | inl (x, e) ↦
      let deaf = disconnect-IsDeaf c x e d in
      record {
        not_reading = ground (arith, deaf.not_reading);
        unconnected = ground (arith, deaf.unconnected);
      }
  | inr (inl (f, e)) ↦ absurd (ground arith)
  | inr (inr e) ↦ absurd (ground arith)
]

pub post_write_message_header-IsDeaf :
    (header_size n : ℕ) (error : Bool) (c c' : Connection)
    → post_write_message_header header_size disconnect error n c ≡ returns c'
    → IsDeaf c
    → IsDeaf c'
unfolding post_write_message_header write_message_header write_message_body MessageQueue.front
    MessageQueue.pop MessageQueue.empty
post_write_message_header-IsDeaf k n error c c' h d = elim (List-cases c.pending_writes) [
  | inl p ↦
      SameReading-IsDeaf c c' (record { same_reads = ground arith; same_state = ground arith }) d
  | inr (w, rest, p) ↦ elim (Bool-cases error) [
    | inl failed ↦
        failed_write-IsDeaf (record c { pending_writes = rest }) c' (ground arith)
          (record { not_reading = d.not_reading; unconnected = d.unconnected })
    | inr good ↦
        SameReading-IsDeaf c c' (record { same_reads = ground arith; same_state = ground arith }) d
  ]
]

pub post_write_message_body-IsDeaf :
    (header_size : ℕ) (error : Bool) (c c' : Connection)
    → post_write_message_body header_size disconnect error c ≡ returns c'
    → IsDeaf c
    → IsDeaf c'
unfolding post_write_message_body write_message_header MessageQueue.front MessageQueue.pop
    MessageQueue.empty
post_write_message_body-IsDeaf k error c c' h d = elim (List-cases c.pending_writes) [
  | inl p ↦
      SameReading-IsDeaf c c' (record { same_reads = ground arith; same_state = ground arith }) d
  | inr (w, rest, p) ↦ elim (Bool-cases error) [
    | inl failed ↦
        failed_write-IsDeaf (record c { pending_writes = rest }) c' (ground arith)
          (record { not_reading = d.not_reading; unconnected = d.unconnected })
    | inr good ↦
        SameReading-IsDeaf c c' (record { same_reads = ground arith; same_state = ground arith }) d
  ]
]

pub timer_expired-IsDeaf :
    (serialize_code : ℕ → List ℕ) (c c' : Connection)
    → timer_expired serialize_code c ≡ returns c'
    → IsDeaf c
    → IsDeaf c'
unfolding timer_expired send_ping message_of send_message write_message_header MessageQueue.push
    MessageQueue.front
timer_expired-IsDeaf serialize c c' h d =
    SameReading-IsDeaf c c' (record { same_reads = ground arith; same_state = ground arith }) d

module _ (serialize_identifier : ℕ → List ℕ) (module_identifier : ℕ) where
  pub watcher_step-IsDeaf :
      (running accepted woken : Bool) (p p' : WatcherPhase) (c c' : Connection)
      → watcher_step serialize_identifier module_identifier running accepted woken (p, c)
        ≡ returns (p', c')
      → IsDeaf c
      → IsDeaf c'
  unfolding watcher_step is_connected close_socket make_new_socket connect set_timer_expiration
      fall_asleep send_connect_request message_of send_message write_message_header
      MessageQueue.push MessageQueue.front
  watcher_step-IsDeaf r a k at_loop p' c c' h d =
      SameReading-IsDeaf c c' (record { same_reads = ground arith; same_state = ground arith }) d
  watcher_step-IsDeaf r a k waiting_for_change p' c c' h d =
      SameReading-IsDeaf c c' (record { same_reads = ground arith; same_state = ground arith }) d
  watcher_step-IsDeaf r a k at_reconnect p' c c' h d =
      SameReading-IsDeaf c c' (record { same_reads = ground arith; same_state = ground arith }) d
  watcher_step-IsDeaf r a k waiting_for_answer p' c c' h d =
      SameReading-IsDeaf c c' (record { same_reads = ground arith; same_state = ground arith }) d
  watcher_step-IsDeaf r a k finished p' c c' h d =
      SameReading-IsDeaf c c' (record { same_reads = ground arith; same_state = ground arith }) d
