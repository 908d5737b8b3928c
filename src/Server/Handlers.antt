-- ===== src/Server/Handlers.antt =====
-- From the registration of an event handler (Source/src/EventManager.cpp) to its run for a request
-- that the server receives.
use process_manager_module.Base.{
  ℕ, ◌≡◌, ◌∙◌, Bool, true, false, List, [], ◌∷◌, ◌++◌, Option, some, Outcome, returns, ◌>>=◌,
  >>=_assoc, arith, Outcome-cases, inl, inr,
}
use process_manager_module.Base.Int.{ℤ, signed32, eq_ℤ}
use process_manager_module.Containers.Order.{int_order}
use process_manager_module.Containers.Multimap.{IsSorted}
use process_manager_module.Messages.{Message, Header}
use process_manager_module.EventsCache.{
  Event, EventsCache, EventManager, add_event, run_requests_handlers, register_new_event_handler,
}
use process_manager_module.EventsCache.Dispatch.{
  offer, offers, registered, registered-add_event, run_requests_handlers_lem,
}
use process_manager_module.Server.State.{Server, Cache}
use process_manager_module.Server.Receiving.{
  handle_request, dispatch, handle_receive, start_reading,
}

module _ {Cb Any W : Type 0} (validate : Cb → Any → Bool) (run : Cb → Any → W → Outcome W) where
  offers-append :
      (any : Any) (xs : List (ℤ × Event Cb)) (j : ℤ) (event : Event Cb) (w : W)
      → offers validate run any (xs ++ (j, event) ∷ []) w
        ≡ (do w' ← offers validate run any xs w; offer validate run any event w')
  offers-append any [] j event w = elim (Outcome-cases (offer validate run any event w)) [
    | inl (a, e) ↦ rw e
    | inr (inl (f, e)) ↦ rw e
    | inr (inr e) ↦ rw e
  ]
  offers-append any ((k, x) ∷ xs) j event w = elim (Outcome-cases (offer validate run any x w)) [
    | inl (a, e) ↦ rw e (offers-append any xs j event a)
    | inr (inl (f, e)) ↦ rw e
    | inr (inr e) ↦ rw e
  ]

  eq_ℤ_self : (i : ℤ) → eq_ℤ i i ≡ true
  eq_ℤ_self i = ground arith

  run_requests_handlers-add_event :
      (sender : ℤ) (any : Any) (event : Event Cb) (events : EventsCache Cb) (w : W)
      → IsSorted events
      → run_requests_handlers validate run sender any (add_event sender event events) w ≡ (do
        w' ← offers validate run any (registered sender events) w
        offer validate run any event w')
  run_requests_handlers-add_event sender any event events w sorted =
      let (sorted', there) = registered-add_event sender sender event events sorted in
      run_requests_handlers_lem validate run sender any (add_event sender event events) w sorted'
      ∙ rw (there, eq_ℤ_self sender) (offers-append any (registered sender events) sender event w)

  dispatch_request :
      {Address : Type 0} (parse_from_string : List ℕ → Option (Message Any))
      (events : EventsCache Cb) (message : Message Any) (header : Header) (any : Any)
      (s : Server Any Address) (c : Cache Any Address) (w : W)
      → message.header ≡ some header
      → message.request ≡ some any
      → dispatch validate run parse_from_string events message ((s, c), w) ≡ (do
        w' ← run_requests_handlers validate run (signed32 header.sender_identifier) any events w
        returns ((s, c), w'))
  unfolding dispatch handle_request
  dispatch_request parse events message header any s c w h r =
      elim (Outcome-cases
        (run_requests_handlers validate run (signed32 header.sender_identifier) any events w)) [
          | inl (a, e) ↦ ground arith
          | inr (inl (f, e)) ↦ ground arith
          | inr (inr e) ↦ ground arith
        ]

  -- A request that is received after an event has been registered for its sender, in an event manager
  -- that is initialized and has its events in order: the events that were registered for that sender
  -- before are offered it first, one after the other, then the new one; each runs its callback if it
  -- has one that accepts the request and does nothing otherwise, and what they throw or wait for is
  -- what the call does. The next read is pending, and nothing else of the
  -- server and its timers has changed.
  pub handle_receive-register_new_event_handler :
      {Address : Type 0} (parse_from_string : List ℕ → Option (Message Any)) (m : EventManager Cb)
      (event : Event Cb) (bytes : List ℕ) (message : Message Any) (header : Header) (any : Any)
      (s : Server Any Address) (c : Cache Any Address) (w : W)
      → m.initialized ≡ true
      → IsSorted m.events_cache
      → parse_from_string bytes ≡ some message
      → message.header ≡ some header
      → message.request ≡ some any
      → let sender = signed32 header.sender_identifier in
        handle_receive validate run parse_from_string
          (register_new_event_handler sender event m).events_cache
          false
          bytes
          ((s, c), w)
        ≡ (do
          w₁ ← offers validate run any (registered sender m.events_cache) w
          w₂ ← offer validate run any event w₁
          returns ((record s { reading = true }, c), w₂))
  unfolding handle_receive start_reading register_new_event_handler
  handle_receive-register_new_event_handler parse m event bytes message header any s c w ready
        sorted p h r =
      let sender = signed32 header.sender_identifier in
      let runs = run_requests_handlers-add_event sender any event m.events_cache w sorted in
      rw (p, ready)
        (dispatch_request parse (add_event sender event m.events_cache) message header any
            (record s { reading = true }) c w h r
          ∙ rw runs (
              >>=_assoc (offers validate run any (registered sender m.events_cache) w)
                (offer validate run any event)
                (λ w'. returns ((record s { reading = true }, c), w'))))
