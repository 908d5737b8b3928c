-- ===== src/ModuleManager.antt =====
-- Source/src/ModuleManager.cpp, Source/src/ModuleTimersManager.cpp and
-- Source/src/ModuleConnectionManager.cpp: the one instance of each, kept in a static pointer,
-- through which the user's code reaches the server and the timers. A pointer is `none` while it is
-- null.
pub mod Laws
use Prim.Native.String.{String}
use process_manager_module.Base.{
  ℕ, ◌≡◌, Bool, true, false, Option, none, some, Outcome, returns, throws, null_dereference,
  invalid_argument, ◌>>=◌, if◌then◌else◌, List,
}
use process_manager_module.Base.Int.{ℤ}
use process_manager_module.Timer.{Timer, is_callback_function_set}
use process_manager_module.TimersCache.{TimersCache, register_timer, remove_timer}
use process_manager_module.Messages.{Message}
use process_manager_module.Watchdog.{Connection}
use process_manager_module.Services.{Instance}
use process_manager_module.Server.State.{Settings, Server, Cache, State}
use process_manager_module.Server.Requests.{send_request, send_subscribe_request}

-- `Manager::instance`, and the pointer to the server in it.
abbrev pub Manager : Type 0 → Type 0 → Type 0
Manager Any Address = Option (Option (State Any Address))

module _ {Any Address : Type 0} where
  -- `made` tells whether `make_unique` succeeds.
  pub initialize :
      Bool → Option (State Any Address) → Manager Any Address → Manager Any Address × Bool
  initialize made server (some s) = (some s, true)
  initialize true server none = (some server, true)
  initialize false server none = (none, false)

  module _ (settings : Settings) (database : Instance) (from_string : String → Option Address)
      (serialize_to_string : Message Any → List ℕ) where
    unfoldable pub manager_send_request :
        ℤ → ℕ → Any → Manager Any Address → Outcome (Manager Any Address × Bool)
    manager_send_request now identifier any none = returns (none, false)
    manager_send_request now identifier any (some none) = returns (some none, false)
    manager_send_request now identifier any (some (some s)) = do
      (s', sent) ←
          send_request settings database from_string serialize_to_string now identifier any s
      returns (some (some s'), sent)

    unfoldable pub manager_send_subscribe_request :
        ℤ → ℕ → String → Manager Any Address → Outcome (Manager Any Address × Bool)
    manager_send_subscribe_request now identifier message_type none = returns (none, false)
    manager_send_subscribe_request now identifier message_type (some none) =
        returns (some none, false)
    manager_send_subscribe_request now identifier message_type (some (some s)) = do
      (s', sent) ←
          send_subscribe_request settings database from_string serialize_to_string now identifier
            message_type s
      returns (some (some s'), sent)

-- `ModuleTimersManager::instance`.
abbrev pub TimersManager : Type 0 → Type 0
TimersManager C = Option (TimersCache C)

module _ {C : Type 0} where
  pub initialize_timers : TimersCache C → TimersManager C → TimersManager C × Bool
  initialize_timers c (some d) = (some d, false)
  initialize_timers c none = (some c, true)

  -- The timer is a pointer; its callback is looked at first, and then the instance is used.
  pub manager_register_timer : Option (Timer C) → TimersManager C → Outcome (TimersManager C × ℕ)
  manager_register_timer none m = throws null_dereference
  manager_register_timer (some t) m =
      if is_callback_function_set t
      then (elim m [
        | none ↦ throws null_dereference
        | some c ↦ do (c', i) ← register_timer (some t) c; returns (some c', i)
      ])
      else throws invalid_argument

  pub manager_remove_timer : ℕ → TimersManager C → Outcome (TimersManager C)
  manager_remove_timer i none = throws null_dereference
  manager_remove_timer i (some c) = do c' ← remove_timer i c; returns (some c')

-- `ModuleConnectionManager::instance`, with its pointer to the connection; nothing uses it.
abbrev pub ConnectionManager : Type 0
ConnectionManager = Option (Option Connection)

-- Unlike that of the other managers, its second call answers false.
unfoldable pub initialize_connection_manager :
    Bool → Option Connection → ConnectionManager → ConnectionManager × Bool
initialize_connection_manager made connection (some c) = (some c, false)
initialize_connection_manager true connection none = (some connection, true)
initialize_connection_manager false connection none = (none, false)
