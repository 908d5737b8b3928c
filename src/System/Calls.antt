-- ===== src/System/Calls.antt =====
-- The calls with which the module sends keep the transactions and the timers linked.
use Prim.Native.String.{String}
use process_manager_module.Base.{
  ℕ, ◌≡◌, refl, Bool, List, Option, none, some, returns, arith, >>=-eq-returns, ◌>>=◌,
  Outcome-cases, inl, inr,
}
use process_manager_module.Base.Int.{ℤ}
use process_manager_module.Messages.{
  Message, make_request_message, make_subscription_request_message,
}
use process_manager_module.Services.{Instance}
use process_manager_module.Server.State.{
  Destination, Settings, Server, Cache, State, generate_transaction_code,
}
use process_manager_module.Server.Requests.{
  enqueue, find_destination, send_request, send_message, send_subscribe_request,
}
use process_manager_module.System.{IsSound}
use process_manager_module.System.Sends.{HasRoom, IsSound-frame, IsSound-same, enqueue-IsSound}

module _ {Any Address : Type 0} (settings : Settings) (database : Instance)
    (from_string : String → Option Address) (serialize_to_string : Message Any → List ℕ)
    (now : ℤ) where
  pub send_message-IsSound :
      (identifier : ℕ) (m : Message Any) (s : Server Any Address) (c : Cache Any Address)
      (y : State Any Address) (b : Bool)
      → HasRoom (s, c)
      → send_message settings database from_string serialize_to_string now identifier m (s, c)
        ≡ returns (y, b)
      → IsSound (s, c)
      → IsSound y
  unfolding send_message
  send_message-IsSound identifier m s c y b room e h =
      elim (Outcome-cases (find_destination database from_string identifier s)) [
        | inr (inl (f, k)) ↦ absurd (ground arith)
        | inr (inr k) ↦ absurd (ground arith)
        | inl (none, k) ↦ IsSound-same s s c y refl (ground arith) h
        | inl (some d, k) ↦
            enqueue-IsSound settings serialize_to_string now d m s c y b room (ground arith) h
      ]

  -- A message made with a transaction code that was drawn.
  drawn-IsSound :
      (make : ℕ → Message Any) (d : Destination Address) (s : Server Any Address)
      (c : Cache Any Address) (y : State Any Address) (b : Bool)
      → HasRoom (s, c)
      → (do
        (code, rest) ← generate_transaction_code s
        enqueue settings serialize_to_string now d
            (make code)
            (record s { random_values = rest }, c))
        ≡ returns (y, b)
      → IsSound (s, c)
      → IsSound y
  drawn-IsSound make d s c y b room e h =
      let ((code, rest), k, f) = >>=-eq-returns (generate_transaction_code s) _ e in
      enqueue-IsSound settings serialize_to_string now d (make code)
        (record s { random_values = rest }) c y b room f
        (IsSound-frame s (record s { random_values = rest }) c refl h)

  pub send_request-IsSound :
      (identifier : ℕ) (any : Any) (s : Server Any Address) (c : Cache Any Address)
      (y : State Any Address) (b : Bool)
      → HasRoom (s, c)
      → send_request settings database from_string serialize_to_string now identifier any (s, c)
        ≡ returns (y, b)
      → IsSound (s, c)
      → IsSound y
  unfolding send_request
  send_request-IsSound identifier any s c y b room e h =
      elim (Outcome-cases (find_destination database from_string identifier s)) [
        | inr (inl (f, k)) ↦ absurd (ground arith)
        | inr (inr k) ↦ absurd (ground arith)
        | inl (none, k) ↦ IsSound-same s s c y refl (ground arith) h
        | inl (some d, k) ↦
            drawn-IsSound (make_request_message settings.module_identifier any) d s c y b room
              (rw k at e) h
      ]

  pub send_subscribe_request-IsSound :
      (identifier : ℕ) (subscribed_type : String) (s : Server Any Address) (c : Cache Any Address)
      (y : State Any Address) (b : Bool)
      → HasRoom (s, c)
      → send_subscribe_request settings database from_string serialize_to_string now identifier
          subscribed_type
          (s, c)
        ≡ returns (y, b)
      → IsSound (s, c)
      → IsSound y
  unfolding send_subscribe_request
  send_subscribe_request-IsSound identifier subscribed_type s c y b room e h =
      elim (Outcome-cases (find_destination database from_string identifier s)) [
        | inr (inl (f, k)) ↦ absurd (ground arith)
        | inr (inr k) ↦ absurd (ground arith)
        | inl (none, k) ↦ IsSound-same s s c y refl (ground arith) h
        | inl (some d, k) ↦
            drawn-IsSound
              (make_subscription_request_message settings.module_identifier subscribed_type) d s c y
              b room (rw k at e) h
      ]
