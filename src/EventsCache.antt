-- ===== src/EventsCache.antt =====
-- Source/include/Event.hpp, Source/src/ModuleEventsCache.cpp and Source/src/EventManager.cpp: the
-- handlers of requests, in a multimap by the service that sends the request (an `int32_t`, here ℤ).
-- An event holds a callback, which may be a null pointer; `validate` and `run` are the user's code,
-- and `run` changes the user's world `W`.
pub mod Dispatch
use process_manager_module.Base.{
  ◌≡◌, Bool, true, false, List, [], ◌∷◌, Option, none, some, Outcome, returns, throws,
  null_dereference, ◌>>=◌, if◌then◌else◌,
}
use process_manager_module.Base.Int.{ℤ, eq_ℤ}
use process_manager_module.Containers.Order.{Order, int_order}
use process_manager_module.Containers.Multimap.{insert, equal_range}

pub record Event (Cb : Type 0) : Type 0 where
  pub callback : Option Cb

abbrev pub EventsCache : Type 0 → Type 0
EventsCache Cb = List (ℤ × Event Cb)

module _ {Cb : Type 0} where
  pub add_event : ℤ → Event Cb → EventsCache Cb → EventsCache Cb
  add_event identifier event c = insert identifier event c

  -- `std::find_if` by the identifier: is there an event?
  pub has_event : ℤ → EventsCache Cb → Bool
  has_event identifier [] = false
  has_event identifier ((j, e) ∷ c) = if eq_ℤ j identifier then true else has_event identifier c

module _ {Cb Any W : Type 0} (validate : Cb → Any → Bool) (run : Cb → Any → W → Outcome W) where
  unfoldable pub validate_message : Event Cb → Any → Bool
  validate_message event any = elim event.callback [
    | none ↦ false
    | some callback ↦ validate callback any
  ]

  unfoldable pub handle_received_message : Event Cb → Any → W → Outcome W
  handle_received_message event any w = elim event.callback [
    | none ↦ throws null_dereference
    | some callback ↦ run callback any w
  ]

  -- The body of the loop over the range.
  unfoldable pub run_handler : Any → Event Cb → W → Outcome W
  unfolding validate_message handle_received_message
  run_handler any event w =
      if validate_message event any then handle_received_message event any w else returns w

  unfoldable pub run_handlers : Any → List (ℤ × Event Cb) → W → Outcome W
  unfolding run_handler
  run_handlers any [] w = returns w
  run_handlers any ((j, event) ∷ range) w = do
    w' ← run_handler any event w
    run_handlers any range w'

  pub run_requests_handlers : ℤ → Any → EventsCache Cb → W → Outcome W
  unfolding has_event run_handlers
  run_requests_handlers identifier any c w =
      if has_event identifier c then run_handlers any (equal_range identifier c) w else returns w

-- `EventManager`: the one instance, `none` before `initialize`, refers to the cache of the module;
-- `allocated` tells whether `new` succeeds.
pub record EventManager (Cb : Type 0) : Type 0 where
  pub initialized : Bool
  pub events_cache : EventsCache Cb

module _ {Cb : Type 0} where
  unfoldable pub initialize : Bool → EventManager Cb → EventManager Cb × Bool
  initialize allocated m =
      if m.initialized then (m, true) else (record m { initialized = allocated }, allocated)

  unfoldable pub register_new_event_handler : ℤ → Event Cb → EventManager Cb → EventManager Cb
  unfolding add_event
  register_new_event_handler identifier event m =
      if m.initialized
      then record m { events_cache = add_event identifier event m.events_cache }
      else m
