-- ===== src/System/Sends.antt =====
-- The calls of the server that send keep the transactions and the timers linked.
use process_manager_module.Base.{
  ℕ, ◌+◌, ◌^◌, ◌≤◌, ◌≡◌, refl, true, false, Bool, List, returns, arith, length, ap, subst,
  List-cases, inl, inr,
}
use process_manager_module.Base.Int.{ℤ}
use process_manager_module.Timer.{set_timer_id, new_timer, set_duration}
use process_manager_module.TimersCache.Views.{find_timer-free}
use process_manager_module.TimersCache.Refinement.{registry}
use process_manager_module.MessageQueue
use process_manager_module.MessageQueue.{MessageQueue}
use process_manager_module.Messages.{Message, transaction_code_of}
use process_manager_module.Server.State.{Destination, ParkedMessage, Settings, Server, Cache, State}
use process_manager_module.Server.Requests.{send, enqueue, complete_send, forget_transaction}
use process_manager_module.Server.Sending.{
  resend_timer, sent, queued, SentIf, Registered, send_returns, enqueue_lem,
}
use process_manager_module.System.{Repeats, IsSound}
use process_manager_module.System.Links.{Linked-put, Linked-view, Linked-Shrinks, erase-Shrinks}

abbrev pub HasRoom : {Any Address : Type 0} → State Any Address → Type 0
HasRoom x = length x.1.timers + 2 ≤ 2 ^ 32

module _ {Any Address : Type 0} where
  -- The link needs nothing of the server but its transactions.
  pub IsSound-frame :
      (s s' : Server Any Address) (c : Cache Any Address)
      → s'.transaction_and_timer_id ≡ s.transaction_and_timer_id
      → IsSound (s, c)
      → IsSound (s', c)
  IsSound-frame s s' c e h = record { valid = h.valid; linked = rw e h.linked }

  pub IsSound-same :
      (s s' : Server Any Address) (c : Cache Any Address) (y : State Any Address)
      → s'.transaction_and_timer_id ≡ s.transaction_and_timer_id
      → (s', c) ≡ y
      → IsSound (s, c)
      → IsSound y
  IsSound-same s s' c y e f h = subst IsSound f (IsSound-frame s s' c e h)

  pub forget_transaction-IsSound :
      (m : ParkedMessage Any Address) (s : Server Any Address) (c : Cache Any Address)
      → IsSound (s, c)
      → IsSound (forget_transaction m s, c)
  unfolding forget_transaction
  forget_transaction-IsSound m s c h = record {
    valid = h.valid;
    linked =
        Linked-Shrinks s.transaction_and_timer_id _ (registry c)
          (erase-Shrinks m.transaction_code s.transaction_and_timer_id) h.linked;
  }

module _ {Any Address : Type 0} (settings : Settings) (serialize_to_string : Message Any → List ℕ)
    (now : ℤ) where
  resend_timer-Repeats :
      (d : Destination Address) (m : Message Any) (i : ℕ)
      → Repeats
          (transaction_code_of m)
          (set_timer_id i (resend_timer settings serialize_to_string now d m))
  unfolding set_timer_id set_duration new_timer
  resend_timer-Repeats d m i = record {
    message = record { transaction_code = transaction_code_of m; destination = d; message = m };
    callback = refl;
    same = refl;
    coded = refl;
    waits = refl;
    once = refl;
  }

  sent-IsSound :
      (s : Server Any Address) (c c' : Cache Any Address) (d : Destination Address)
      (m : Message Any) (i : ℕ)
      → Registered settings serialize_to_string c c' i
          (resend_timer settings serialize_to_string now d m)
      → IsSound (s, c)
      → IsSound (sent settings serialize_to_string d m i s, c')
  sent-IsSound s c c' d m i g h = record {
    valid = g.valid;
    linked = Linked-view _ _ (registry c') g.view (
        Linked-put s.transaction_and_timer_id (registry c) (transaction_code_of m) i _
          (find_timer-free i c.timers g.fresh.free) (resend_timer-Repeats d m i) h.linked);
  }

  send-IsSound :
      (s : Server Any Address) (c : Cache Any Address) (y : State Any Address)
      → HasRoom (s, c)
      → send settings serialize_to_string now (s, c) ≡ returns y
      → IsSound (s, c)
      → IsSound y
  unfolding send MessageQueue.front
  send-IsSound s c y room e h = elim (List-cases s.message_queue.messages_queue) [
    | inl q ↦ absurd (ground arith)
    | inr ((d, m), rest, q) ↦
        let (i, c', f, g) =
          send_returns settings serialize_to_string now s c d m rest q h.valid room in
        let same : (sent settings serialize_to_string d m i s, c') ≡ y = cc (e, f) in
        subst IsSound same (sent-IsSound s c c' d m i g h)
  ]

  SentIf-IsSound :
      (idle : Bool) (d : Destination Address) (m : Message Any) (s s' : Server Any Address)
      (c c' : Cache Any Address)
      → SentIf settings serialize_to_string idle now d m (s, c) (s', c')
      → IsSound (s, c)
      → IsSound (s', c')
  SentIf-IsSound true d m s s' c c' (i, e, g) h = rw e (
      sent-IsSound (queued settings serialize_to_string d m s) c c' d m i g
        (record { valid = h.valid; linked = h.linked }))
  SentIf-IsSound false d m s s' c c' (e, f) h =
      rw (e, f) (record { valid = h.valid; linked = h.linked })

  pub enqueue-IsSound :
      (d : Destination Address) (m : Message Any) (s : Server Any Address) (c : Cache Any Address)
      (y : State Any Address) (b : Bool)
      → HasRoom (s, c)
      → enqueue settings serialize_to_string now d m (s, c) ≡ returns (y, b)
      → IsSound (s, c)
      → IsSound y
  enqueue-IsSound d m s c y b room e h =
      let (s', c', f, g) = enqueue_lem settings serialize_to_string now s c d m h.valid room in
      let same : (s', c') ≡ y = cc (e, f) in subst IsSound same (SentIf-IsSound _ d m s s' c c' g h)

  pub complete_send-IsSound :
      (error : Bool) (s : Server Any Address) (c : Cache Any Address) (y : State Any Address)
      → HasRoom (s, c)
      → complete_send settings serialize_to_string error now (s, c) ≡ returns y
      → IsSound (s, c)
      → IsSound y
  unfolding complete_send MessageQueue.pop MessageQueue.empty
  complete_send-IsSound true s c y room e h = elim (List-cases s.in_flight) [
    | inl f ↦ IsSound-same s s c y refl (ground arith) h
    | inr (g, rest, f) ↦ IsSound-same s (record s { in_flight = rest }) c y refl (ground arith) h
  ]
  complete_send-IsSound false s c y room e h = elim (List-cases s.in_flight) [
    | inl f ↦ IsSound-same s s c y refl (ground arith) h
    | inr (g, rest, f) ↦ elim (List-cases s.message_queue.messages_queue) [
      | inl q ↦ absurd (ground arith)
      | inr (x, xs, q) ↦
          let popped : Server Any Address = record s {
            in_flight = rest;
            message_queue = record { messages_queue = xs };
          } in
          elim (List-cases xs) [
            | inl last ↦ IsSound-same s popped c y refl (ground arith) h
            | inr (y₁, ys, more) ↦
                send-IsSound popped c y room (ground (arith, ap length more))
                  (IsSound-frame s popped c refl h)
          ]
    ]
  ]
