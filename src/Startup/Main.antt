-- ===== src/Startup/Main.antt =====
-- The options of the command line (Source/src/ModuleMain.cpp) and the module that is built (the
-- constructors of Source/src/ModuleBase.cpp).
-- `Globals::moduleIdentifier` is 0 until an option sets it.
use process_manager_module.Base.{ℕ, Bool, true, false, List, [], Option, none, some}
use process_manager_module.Base.Int.{ℤ}
use process_manager_module.Connection.{new_connection}
use process_manager_module.Watchdog.{not_connected}
use process_manager_module.TimersCache.{new_cache}
use process_manager_module.EventsCache
use process_manager_module.EventsCache.{EventManager}
use process_manager_module.Services
use process_manager_module.Services.{Collection, Instance}
use process_manager_module.Server.State.{new_server}
use process_manager_module.Configuration.{Configuration}
use process_manager_module.Startup.{ModuleBase}

-- `parsed` is the work of Boost.Program_options: `none` if it throws, and else the value of the
-- option `identifier`, if it is given.
unfoldable pub validate_options : Option (Option ℕ) → ℕ → ℕ
validate_options none module_identifier = module_identifier
validate_options (some none) module_identifier = module_identifier
validate_options (some (some identifier)) module_identifier = identifier

-- The module with the two instances that its constructor initializes.
pub record Process (Cb Any Address : Type 0) : Type 0 where
  pub base : ModuleBase Any Address
  pub database : Instance
  pub events : EventManager Cb

module _ {Cb Any Address : Type 0} where
  -- The map of endpoints is empty. `database_connects` and `allocated` tell of the two instances,
  -- `not_a_date_time` is the time before the first ping, `configuration` the static one, and
  -- `random_values` what `rand()` will give.
  unfoldable pub new_module_base :
      Option Collection → Bool → ℤ → Configuration → List ℕ → Process Cb Any Address
  new_module_base database_connects allocated not_a_date_time configuration random_values = record {
    base = record {
      is_module_running = true;
      configuration = configuration;
      connection = new_connection not_a_date_time (record {
        watchdog_connection_state = record { connection_state = not_connected; sleepers = [] };
        sequence_code = 0;
      });
      server = (new_server [] random_values, new_cache);
      manager_initialized = false;
      io_context_stopped = false;
    };
    database = (Services.initialize database_connects none).0;
    events =
        (EventsCache.initialize allocated (record { initialized = false; events_cache = [] })).0;
  }
