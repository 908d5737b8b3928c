-- ===== src/Server/Inversion.antt =====
-- What a call that sends has done, if it returned: whatever the state of the timers was.
use process_manager_module.Base.{
  ℕ, ◌≡◌, List, ◌∷◌, some, returns, arith, List-cases, Outcome-cases, inl, inr,
}
use process_manager_module.Base.Int.{ℤ}
use process_manager_module.TimersCache.{register_timer}
use process_manager_module.MessageQueue
use process_manager_module.MessageQueue.{MessageQueue}
use process_manager_module.Messages.{Message}
use process_manager_module.Server.State.{Destination, Settings, Server, Cache}
use process_manager_module.Server.Requests.{start_timer_to_resend, send_to_destination, send}
use process_manager_module.Server.Sending.{sent, resend_timer}

module _ {Any Address : Type 0} (settings : Settings)
    (serialize_to_string : Message Any → List ℕ) where
  -- The head of the queue was handed over.
  pub record HandedOver (s s' : Server Any Address) : Type 0 where
    pub destination : Destination Address
    pub message : Message Any
    pub timer_id : ℕ
    pub rest : List (Destination Address × Message Any)
    pub head : s.message_queue.messages_queue ≡ (destination, message) ∷ rest
    pub result : s' ≡ sent settings serialize_to_string destination message timer_id s

  pub send_inversion :
      (now : ℤ) (s s' : Server Any Address) (c c' : Cache Any Address)
      → send settings serialize_to_string now (s, c) ≡ returns (s', c')
      → HandedOver s s'
  unfolding send start_timer_to_resend send_to_destination MessageQueue.front
  send_inversion now s s' c c' h = elim (List-cases s.message_queue.messages_queue) [
    | inl q ↦ absurd (ground arith)
    | inr ((d, m), rest, q) ↦
        elim (Outcome-cases
          (register_timer (some (resend_timer settings serialize_to_string now d m)) c)) [
            | inl ((c₁, i), e) ↦ record {
              destination = d;
              message = m;
              timer_id = i;
              rest = rest;
              head = q;
              result = ground arith;
            }
            | inr (inl (f, e)) ↦ absurd (ground arith)
            | inr (inr e) ↦ absurd (ground arith)
          ]
  ]
