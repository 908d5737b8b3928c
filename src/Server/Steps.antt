-- ===== src/Server/Steps.antt =====
-- The server under any sequence of calls and completions, and what holds of all of them.
use Prim.Native.String.{String}
use process_manager_module.Base.{
  ℕ, ◌≡◌, refl, ◌∙◌, ap, Bool, List, [], ◌++◌, Option, returns, arith, Outcome-cases, Option-cases,
  inl, inr,
}
use process_manager_module.Base.Int.{ℤ}
use process_manager_module.Containers.Map
use process_manager_module.TimersCache.{remove_timer}
use process_manager_module.Messages.{Message, transaction_code_of}
use process_manager_module.Services.{Instance}
use process_manager_module.Server.State.{
  Destination, Datagram, ParkedMessage, Settings, Server, Cache, State,
}
use process_manager_module.Server.Requests.{
  complete_send, send_request, send_message, send_subscribe_request, resend_message,
}
use process_manager_module.Server.Receiving.{handle_response}
use process_manager_module.Server.Link.{
  stay, HeadInFlight, IsStalled, Move-HeadInFlight, Move-IsStalled,
}
use process_manager_module.Server.Traffic.{
  asked_message, asked_request, asked_subscription, asked_again, link, aside, datagram, Moved,
  complete_send-Move, send_request-Move, send_message-Move, send_subscribe_request-Move,
  resend_message-Move,
}

module _ {Any Address : Type 0} where
  pub handle_response_keeps :
      (m : Message Any) (s s' : Server Any Address) (c c' : Cache Any Address)
      → handle_response m (s, c) ≡ returns (s', c')
      → (link s' ≡ link s) × (aside s' ≡ aside s)
  unfolding handle_response
  handle_response_keeps m s s' c c' h =
      elim (Option-cases (Map.find (transaction_code_of m) s.transaction_and_timer_id)) [
        | inl e ↦ (ground arith, ground arith)
        | inr (i, e) ↦ elim (Outcome-cases (remove_timer i c)) [
          | inl (c₁, k) ↦ (ground arith, ground arith)
          | inr (inl (f, k)) ↦ (ground arith, ground arith)
          | inr (inr k) ↦ (ground arith, ground arith)
        ]
      ]

module _ {Any Address : Type 0} (settings : Settings) (database : Instance)
    (from_string : String → Option Address) (serialize_to_string : Message Any → List ℕ) where
  -- A call, a completion, a timer's callback or a response; and whatever else changes the timers,
  -- such as their thread and the user.
  pub data Step (x y : State Any Address) : Type 0 where
    requests :
        (now : ℤ) (identifier : ℕ) (any : Any) (b : Bool)
        → send_request settings database from_string serialize_to_string now identifier any x
          ≡ returns (y, b)
        → Step x y
    subscribes :
        (now : ℤ) (identifier : ℕ) (type_name : String) (b : Bool)
        → send_subscribe_request settings database from_string serialize_to_string now identifier
            type_name x
          ≡ returns (y, b)
        → Step x y
    sends :
        (now : ℤ) (identifier : ℕ) (m : Message Any) (b : Bool)
        → send_message settings database from_string serialize_to_string now identifier m x
          ≡ returns (y, b)
        → Step x y
    completes :
        (error : Bool) (now : ℤ)
        → complete_send settings serialize_to_string error now x ≡ returns y
        → Step x y
    resends :
        (now : ℤ) (m : Option (ParkedMessage Any Address))
        → resend_message settings database from_string serialize_to_string now m x ≡ returns y
        → Step x y
    responds : (m : Message Any) → handle_response m x ≡ returns y → Step x y
    timers : y.0 ≡ x.0 → Step x y

  pub data Reach (x : State Any Address) : State Any Address → Type 0 where
    here : Reach x x
    next : {y z : State Any Address} → Reach x y → Step y z → Reach x z

  -- The message that a step is to send, with its destination; a completion, a response and the timers
  -- ask for none.
  abbrev pub asked : {x y : State Any Address} → Step x y → List (Destination Address × Message Any)
  asked {x} {y} (requests now i any b h) =
      asked_request settings database from_string serialize_to_string x.0 i any
  asked {x} {y} (subscribes now i t b h) =
      asked_subscription settings database from_string serialize_to_string x.0 i t
  asked {x} {y} (sends now i m b h) =
      asked_message settings database from_string serialize_to_string x.0 i m
  asked {x} {y} (completes error now h) = []
  asked {x} {y} (resends now m h) =
      asked_again settings database from_string serialize_to_string x.0 m
  asked {x} {y} (responds m h) = []
  asked {x} {y} (timers e) = []

  -- All that were asked for, in order.
  abbrev pub asked_all :
      {x y : State Any Address} → Reach x y → List (Destination Address × Message Any)
  asked_all here = []
  asked_all (next r st) = asked_all r ++ asked st

  -- Each step of the server is a move of the abstract link that accepts what the step asks for, and
  -- changes nothing else but transactions, timers and random values.
  pub Step-Move :
      {x y : State Any Address} (st : Step x y)
      → Moved settings serialize_to_string (asked st) x.0 y.0
  Step-Move {x} {y} (requests now i any b h) =
      send_request-Move settings database from_string serialize_to_string now i any x.0 y.0 x.1 y.1
        b h
  Step-Move {x} {y} (subscribes now i t b h) =
      send_subscribe_request-Move settings database from_string serialize_to_string now i t x.0 y.0
        x.1 y.1 b h
  Step-Move {x} {y} (sends now i m b h) =
      send_message-Move settings database from_string serialize_to_string now i m x.0 y.0 x.1 y.1 b
        h
  Step-Move {x} {y} (completes error now h) =
      complete_send-Move settings serialize_to_string error now x.0 y.0 x.1 y.1 h
  Step-Move {x} {y} (resends now m h) =
      resend_message-Move settings database from_string serialize_to_string now m x.0 y.0 x.1 y.1 h
  Step-Move {x} {y} (responds m h) =
      let (e, p) = handle_response_keeps m x.0 y.0 x.1 y.1 h in (stay e, p, refl)
  Step-Move {x} {y} (timers e) = (stay (ap link e), ap aside e, refl)

  -- The datagram of a message: its bytes, for the endpoint of its destination.
  abbrev pub addressed : Destination Address × Message Any → Datagram Address
  addressed (d, m) = record { receiver = d.endpoint; bytes = serialize_to_string m }

  -- In every state that is reached from one where nothing is in flight, or only the datagram of the
  -- message at the head of the queue, that is so again. So no two sends overlap, and none is pending
  -- while the queue is empty.
  pub Reach-HeadInFlight :
      {x y : State Any Address}
      → HeadInFlight addressed (link x.0)
      → Reach x y
      → HeadInFlight addressed (link y.0)
  Reach-HeadInFlight h here = h
  Reach-HeadInFlight h (next r st) =
      Move-HeadInFlight {datagram = datagram settings serialize_to_string} (Step-Move st).0
        (Reach-HeadInFlight h r)

  pub Reach-IsStalled :
      {x y : State Any Address}
      → IsStalled (link x.0)
      → Reach x y
      → IsStalled (link y.0) × (y.0.handed_over ≡ x.0.handed_over)
  Reach-IsStalled h here = (h, refl)
  Reach-IsStalled h (next r st) =
      let (stalled, same) = Reach-IsStalled h r in
      let (stalled', same') = Move-IsStalled (Step-Move st).0 stalled in (stalled', same' ∙ same)

  -- No step parks a message, or touches the endpoints or the receiving half.
  pub Reach-aside : {x y : State Any Address} → Reach x y → aside y.0 ≡ aside x.0
  Reach-aside here = refl
  Reach-aside (next r st) = (Step-Move st).1 ∙ Reach-aside r
