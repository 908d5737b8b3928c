-- ===== src/EventsCache/Dispatch.antt =====
-- Which handlers run for a request.
use process_manager_module.Base.{
  ◌≡◌, refl, ap, Bool, false, List, [], ◌∷◌, ◌++◌, none, some, Outcome, returns, ◌>>=◌, ◌∙◌,
  Outcome-cases, Option-cases, if◌then◌else◌, arith, Bool-cases, inl, inr,
}
use process_manager_module.Base.Int.{ℤ, eq_ℤ}
use process_manager_module.Containers.Order.{int_order}
use process_manager_module.Containers.Multimap.{
  IsSorted, insert-IsSorted, with_key, with_key-insert, equal_range-with_key,
}
use process_manager_module.EventsCache.{
  Event, EventsCache, add_event, has_event, run_handler, run_handlers, validate_message,
  handle_received_message, run_requests_handlers,
}

module _ {Cb : Type 0} where
  -- The events that were registered for an identifier, in the order of their registration.
  unfoldable pub registered : ℤ → EventsCache Cb → List (ℤ × Event Cb)
  registered i c = with_key i c

  has_event-none : (i : ℤ) (c : EventsCache Cb) → has_event i c ≡ false → with_key i c ≡ []
  unfolding has_event with_key
  has_event-none i [] h = refl
  has_event-none i ((j, e) ∷ c) h = ground (arith, has_event-none i c)

  -- Registration keeps the cache sorted, and puts the event behind those for the same identifier;
  -- what is registered for any other is untouched.
  pub registered-add_event :
      (i j : ℤ) (e : Event Cb) (c : EventsCache Cb)
      → IsSorted c
      → IsSorted (add_event j e c)
        × (registered i (add_event j e c)
            ≡ (if eq_ℤ i j then registered i c ++ (j, e) ∷ [] else registered i c))
  unfolding add_event registered
  registered-add_event i j e c s = (insert-IsSorted j e c s, with_key-insert i j e c s)

  module _ {Any W : Type 0} (validate : Cb → Any → Bool) (run : Cb → Any → W → Outcome W) where
    -- An event that has a callback which accepts the request runs it; any other does nothing.
    abbrev pub offer : Any → Event Cb → W → Outcome W
    offer any event w = elim event.callback [
      | none ↦ returns w
      | some callback ↦ if validate callback any then run callback any w else returns w
    ]

    -- The request is offered to events one after the other.
    abbrev pub offers : Any → List (ℤ × Event Cb) → W → Outcome W
    offers any [] w = returns w
    offers any ((j, event) ∷ range) w = do w' ← offer any event w; offers any range w'

    run_handler-offer :
        (any : Any) (event : Event Cb) (w : W)
        → run_handler validate run any event w ≡ offer any event w
    unfolding run_handler validate_message handle_received_message
    run_handler-offer any event w = elim (Option-cases event.callback) [
      | inl e ↦ rw e
      | inr (cb, e) ↦ rw e
    ]

    run_handlers-offers :
        (any : Any) (range : List (ℤ × Event Cb)) (w : W)
        → run_handlers validate run any range w ≡ offers any range w
    unfolding run_handlers
    run_handlers-offers any [] w = refl
    run_handlers-offers any ((j, event) ∷ range) w =
        rw (run_handler-offer any event w) (elim (Outcome-cases (offer any event w)) [
          | inl (w', e) ↦ rw e (run_handlers-offers any range w')
          | inr (inl (f, e)) ↦ rw e
          | inr (inr e) ↦ rw e
        ])

    -- With a sorted cache a request is offered to the events registered for its sender one after the other
    -- in the order of their registration, and no others; if there is none, nothing happens.
    pub run_requests_handlers_lem :
        (i : ℤ) (any : Any) (c : EventsCache Cb) (w : W)
        → IsSorted c
        → run_requests_handlers validate run i any c w ≡ offers any (registered i c) w
    unfolding run_requests_handlers run_handlers registered
    run_requests_handlers_lem i any c w s = elim (Bool-cases (has_event i c)) [
      | inl there ↦ rw there (
          ap (λ r. run_handlers validate run any r w) (equal_range-with_key i c s)
          ∙ run_handlers-offers any (registered i c) w)
      | inr absent ↦ rw (absent, has_event-none i c absent)
    ]
