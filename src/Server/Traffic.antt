-- ===== src/Server/Traffic.antt =====
-- Every call of the server that changes its queue or its socket makes a move of the abstract link.
use Prim.Native.String.{String}
use process_manager_module.Base.{
  ℕ, ◌+◌, ◌≡◌, refl, ◌∙◌, ap, Bool, true, false, List, [], ◌∷◌, ◌++◌, Option, none, some, Outcome,
  returns, throws, hangs, length, length-append, arith, List-cases, Outcome-cases, inl, inr,
}
use process_manager_module.Base.Int.{ℤ}
use process_manager_module.MessageQueue
use process_manager_module.MessageQueue.{MessageQueue}
use process_manager_module.Messages.{
  Message, make_request_message, make_subscription_request_message,
}
use process_manager_module.Services.{Instance}
use process_manager_module.Server.State.{
  Destination, Endpoint, ParkedMessage, Datagram, Settings, Server, Cache,
  generate_transaction_code,
}
use process_manager_module.Server.Requests.{
  send, enqueue, complete_send, find_destination, forget_transaction, send_request, send_message,
  send_subscribe_request, resend_message,
}
use process_manager_module.Server.Link.{
  Link, Move, accepted, stay, wait, start, finish, advance, fail,
}
use process_manager_module.Server.Sending.{queued, datagram_of}
use process_manager_module.Server.Inversion.{send_inversion}

-- What sending leaves alone: the parked messages, the endpoints and the receiving half.
pub record Aside (Any Address : Type 0) : Type 0 where
  pub parked : List (ParkedMessage Any Address)
  pub endpoints : List (ℕ × Endpoint Address)
  pub is_reading : Bool
  pub buffer_size : ℕ

module _ {Any Address : Type 0} where
  -- What comes of the destination, if one is found.
  abbrev pub if_found :
      Outcome (Option (Destination Address))
      → (Destination Address → List (Destination Address × Message Any))
      → List (Destination Address × Message Any)
  if_found (returns (some d)) f = f d
  if_found (returns none) f = []
  if_found (throws e) f = []
  if_found hangs f = []

  -- What comes of the code that is drawn, if one is.
  abbrev pub if_drawn :
      Outcome (ℕ × List ℕ)
      → (ℕ → List (Destination Address × Message Any))
      → List (Destination Address × Message Any)
  if_drawn (returns (code, rest)) f = f code
  if_drawn (throws f) g = []
  if_drawn hangs g = []

  abbrev pub link : Server Any Address → Link (Destination Address × Message Any) (Datagram Address)
  link s = record {
    queue = s.message_queue.messages_queue;
    in_flight = s.in_flight;
    handed_over = s.handed_over;
  }

  abbrev pub aside : Server Any Address → Aside Any Address
  aside s = record {
    parked = s.parked_messages;
    endpoints = s.services_endpoints_map;
    is_reading = s.reading;
    buffer_size = s.message_buffer_size;
  }

module _ {Any Address : Type 0} (settings : Settings)
    (serialize_to_string : Message Any → List ℕ) where
  abbrev pub datagram : Destination Address × Message Any → Datagram Address
  datagram (d, m) = datagram_of settings serialize_to_string d m

  -- A move of the link that accepts these messages; and nothing aside from the sending half has
  -- changed.
  abbrev pub Moved :
      List (Destination Address × Message Any) → Server Any Address → Server Any Address → Type 0
  Moved ms s s' =
      (mv : Move datagram (link s) (link s')) × (aside s' ≡ aside s) × (accepted mv ≡ ms)

  pub enqueue-Move :
      (now : ℤ) (d : Destination Address) (m : Message Any) (s s' : Server Any Address)
      (c c' : Cache Any Address) (b : Bool)
      → enqueue settings serialize_to_string now d m (s, c) ≡ returns ((s', c'), b)
      → Moved ((d, m) ∷ []) s s'
  unfolding enqueue MessageQueue.push MessageQueue.size
  enqueue-Move now d m s s' c c' b h =
      let ms = s.message_queue.messages_queue in
      let grown : length (ms ++ (d, m) ∷ []) ≡ length ms + 1 = length-append ms ((d, m) ∷ []) in
      elim (List-cases ms) [
        | inl q ↦
            elim (Outcome-cases (
              send settings serialize_to_string now
                (queued settings serialize_to_string d m s, c))) [
                  | inl ((s₁, c₁), e) ↦
                      let o = send_inversion settings serialize_to_string now _ s₁ c c₁ e in
                      let same : s₁ ≡ s' = ground (arith, ap length q) in
                      (
                        start (d, m) q (rw (← same) (ground (arith, o.result, o.head))),
                        rw (← same) (ground (arith, o.result)),
                        refl,
                      )
                  | inr (inl (f, e)) ↦ absurd (ground (arith, ap length q))
                  | inr (inr e) ↦ absurd (ground (arith, ap length q))
                ]
        | inr (x, xs, q) ↦
            (wait x xs (d, m) q (ground (arith, ap length q)), ground (arith, ap length q), refl)
      ]

  pub complete_send-Move :
      (error : Bool) (now : ℤ) (s s' : Server Any Address) (c c' : Cache Any Address)
      → complete_send settings serialize_to_string error now (s, c) ≡ returns (s', c')
      → Moved [] s s'
  unfolding complete_send MessageQueue.pop MessageQueue.empty
  complete_send-Move true now s s' c c' h = elim (List-cases s.in_flight) [
    | inl f ↦ (stay (ground arith), ground arith, refl)
    | inr (g, rest, f) ↦ (fail g rest f (ground arith), ground arith, refl)
  ]
  complete_send-Move false now s s' c c' h = elim (List-cases s.in_flight) [
    | inl f ↦ (stay (ground arith), ground arith, refl)
    | inr (g, rest, f) ↦ elim (List-cases s.message_queue.messages_queue) [
      | inl q ↦ absurd (ground arith)
      | inr (x, xs, q) ↦ elim (List-cases xs) [
        | inl last ↦
            (finish g rest x f (q ∙ ap (λ l. x ∷ l) last) (ground arith), ground arith, refl)
        | inr (y, ys, more) ↦
            let popped : Server Any Address = record s {
              in_flight = rest;
              message_queue = record { messages_queue = xs };
            } in
            let e : send settings serialize_to_string now (popped, c) ≡ returns (s', c') =
              ground (arith, ap length more) in
            let o = send_inversion settings serialize_to_string now popped s' c c' e in
            (
              advance g rest x y ys f (q ∙ ap (λ l. x ∷ l) more) (ground (arith, o.result, o.head)),
              ground (arith, o.result),
              refl,
            )
      ]
    ]
  ]

module _ {Any Address : Type 0} (settings : Settings) (database : Instance)
    (from_string : String → Option Address) (serialize_to_string : Message Any → List ℕ) where
  -- What a call asks for: the message or the one made of what is given, for the destination that is
  -- found.
  abbrev pub asked_message :
      Server Any Address → ℕ → Message Any → List (Destination Address × Message Any)
  asked_message s identifier m =
      if_found (find_destination database from_string identifier s) (λ d. (d, m) ∷ [])

  abbrev pub asked_request : Server Any Address → ℕ → Any → List (Destination Address × Message Any)
  asked_request s identifier any =
      if_found (find_destination database from_string identifier s) (λ d.
        if_drawn (generate_transaction_code s)
          (λ code. (d, make_request_message settings.module_identifier any code) ∷ []))

  abbrev pub asked_subscription :
      Server Any Address → ℕ → String → List (Destination Address × Message Any)
  asked_subscription s identifier type_name =
      if_found (find_destination database from_string identifier s) (λ d.
        if_drawn (generate_transaction_code s) (λ code.
          (d, make_subscription_request_message settings.module_identifier type_name code) ∷ []))

  abbrev pub asked_again :
      Server Any Address
      → Option (ParkedMessage Any Address)
      → List (Destination Address × Message Any)
  asked_again s none = []
  asked_again s (some m) = asked_message s m.destination.service_identifier m.message

  pub send_message-Move :
      (now : ℤ) (identifier : ℕ) (m : Message Any) (s s' : Server Any Address)
      (c c' : Cache Any Address) (b : Bool)
      → send_message settings database from_string serialize_to_string now identifier m (s, c)
        ≡ returns ((s', c'), b)
      → Moved settings serialize_to_string (asked_message s identifier m) s s'
  unfolding send_message
  send_message-Move now identifier m s s' c c' b h =
      elim (Outcome-cases (find_destination database from_string identifier s)) [
        | inr (inl (f, e)) ↦ absurd (ground arith)
        | inr (inr e) ↦ absurd (ground arith)
        | inl (none, e) ↦ (stay (ground arith), ground arith, rw e)
        | inl (some d, e) ↦
            let (mv, kept, k) =
              enqueue-Move settings serialize_to_string now d m s s' c c' b (ground arith) in
            (mv, kept, k ∙ rw e)
      ]

  pub send_request-Move :
      (now : ℤ) (identifier : ℕ) (any : Any) (s s' : Server Any Address) (c c' : Cache Any Address)
      (b : Bool)
      → send_request settings database from_string serialize_to_string now identifier any (s, c)
        ≡ returns ((s', c'), b)
      → Moved settings serialize_to_string (asked_request s identifier any) s s'
  unfolding send_request
  send_request-Move now identifier any s s' c c' b h =
      elim (Outcome-cases (find_destination database from_string identifier s)) [
        | inr (inl (f, e)) ↦ absurd (ground arith)
        | inr (inr e) ↦ absurd (ground arith)
        | inl (none, e) ↦ (stay (ground arith), ground arith, rw e)
        | inl (some d, e) ↦ elim (Outcome-cases (generate_transaction_code s)) [
          | inr (inl (f, k)) ↦ absurd (ground arith)
          | inr (inr k) ↦ absurd (ground arith)
          | inl ((code, rest), k) ↦
              let (mv, kept, same) =
                enqueue-Move settings serialize_to_string now d
                  (make_request_message settings.module_identifier any code)
                  (record s { random_values = rest }) s' c c' b (ground arith) in
              (mv, kept, same ∙ rw (e, k))
        ]
      ]

  pub send_subscribe_request-Move :
      (now : ℤ) (identifier : ℕ) (type_name : String) (s s' : Server Any Address)
      (c c' : Cache Any Address) (b : Bool)
      → send_subscribe_request settings database from_string serialize_to_string now identifier
          type_name
          (s, c)
        ≡ returns ((s', c'), b)
      → Moved settings serialize_to_string (asked_subscription s identifier type_name) s s'
  unfolding send_subscribe_request
  send_subscribe_request-Move now identifier type_name s s' c c' b h =
      elim (Outcome-cases (find_destination database from_string identifier s)) [
        | inr (inl (f, e)) ↦ absurd (ground arith)
        | inr (inr e) ↦ absurd (ground arith)
        | inl (none, e) ↦ (stay (ground arith), ground arith, rw e)
        | inl (some d, e) ↦ elim (Outcome-cases (generate_transaction_code s)) [
          | inr (inl (f, k)) ↦ absurd (ground arith)
          | inr (inr k) ↦ absurd (ground arith)
          | inl ((code, rest), k) ↦
              let (mv, kept, same) =
                enqueue-Move settings serialize_to_string now d
                  (make_subscription_request_message settings.module_identifier type_name code)
                  (record s { random_values = rest }) s' c c' b (ground arith) in
              (mv, kept, same ∙ rw (e, k))
        ]
      ]

  pub resend_message-Move :
      (now : ℤ) (m : Option (ParkedMessage Any Address)) (s s' : Server Any Address)
      (c c' : Cache Any Address)
      → resend_message settings database from_string serialize_to_string now m (s, c)
        ≡ returns (s', c')
      → Moved settings serialize_to_string (asked_again s m) s s'
  unfolding resend_message forget_transaction find_destination
  resend_message-Move now none s s' c c' h = (stay (ground arith), ground arith, refl)
  resend_message-Move now (some m) s s' c c' h =
      elim (Outcome-cases (
        send_message settings database from_string serialize_to_string now
          m.destination.service_identifier m.message (forget_transaction m s, c))) [
            | inr (inl (f, e)) ↦ absurd (ground arith)
            | inr (inr e) ↦ absurd (ground arith)
            | inl (((s₁, c₁), b), e) ↦
                send_message-Move now m.destination.service_identifier m.message
                  (forget_transaction m s) s' c c' b (ground arith)
          ]
