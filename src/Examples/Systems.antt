-- ===== src/Examples/Systems.antt =====
-- A server, its cache and their thread at work together, and the theorems on systems at them.
use Prim.Native.String.{String}
use process_manager_module.Base.{
  ℕ, suc, refl, true, false, Bool, List, [], ◌∷◌, Option, none, some, Outcome, returns, arith,
  same_text, if◌then◌else◌, ◌≡◌, ◌==◌, Bool-cases, inl, inr,
}
use process_manager_module.Base.Int.{pos}
use process_manager_module.Containers.Map
use process_manager_module.MessageQueue
use process_manager_module.TimersCache.{
  find_timer, erase_timer, internal_remove_timer, remove_timer,
}
use process_manager_module.TimersCache.Refinement.{registry}
use process_manager_module.Messages.{Message}
use process_manager_module.Server.State.{Server, Cache}
use process_manager_module.Server.Requests.{send_message, find_destination, enqueue}
use process_manager_module.Server.Receiving.{
  handle_receive, dispatch, handle_response, start_reading,
}
use process_manager_module.Server.Steps
use process_manager_module.Server.Listening.{receive_error_deafens}
use process_manager_module.Services.{View, Collection, k_int32, k_utf8}
use process_manager_module.System.{Linked, IsSound}
use process_manager_module.System.Callbacks.{UserKeeps}
use process_manager_module.System.Steps.{
  SystemStep, SystemReach-IsSound, here, next, sends, receives,
}
use process_manager_module.Examples.Servers.{
  settings, database, from_string, serialize, gps, message, answer, busy_server, running_timer,
  cache, cache-IsValid, third_queued, user,
}

abbrev parse : List ℕ → Option (Message ℕ)
parse [] = none
parse (b ∷ bs) = some (answer b)

abbrev validate : ℕ → ℕ → Bool
validate cb any = true

abbrev run : ℕ → ℕ → ℕ → Outcome ℕ
run cb any w = returns (suc w)

busy-Linked : Linked busy_server.transaction_and_timer_id (registry cache)
unfolding Map.find find_timer
busy-Linked k j h = elim (Bool-cases (8 == k)) [
  | inl hit ↦ (
    running_timer,
    ground arith,
    record {
      message = record { transaction_code = 8; destination = gps; message = message 8 };
      callback = refl;
      same = ground arith;
      coded = ground arith;
      waits = refl;
      once = refl;
    },
  )
  | inr miss ↦ absurd (ground arith)
]

-- The server has no transaction, and the cache no timer.
abbrev answered : Server ℕ ℕ
answered = record (third_queued busy_server) { transaction_and_timer_id = [] }

abbrev answered_cache : Cache ℕ ℕ
answered_cache = record { timers_lock = false; timers_invoked_status = true; timers = [] }

queued :
    SystemStep {Cb = ℕ} {W = ℕ} settings database from_string serialize parse validate run user
      (busy_server, cache)
      (third_queued busy_server, cache)
unfolding send_message find_destination Map.find enqueue MessageQueue.push MessageQueue.size
queued = sends (pos 5) 0x34000001 (message 10) false (ground arith) refl

is_answered :
    SystemStep {Cb = ℕ} {W = ℕ} settings database from_string serialize parse validate run user
      (third_queued busy_server, cache)
      (answered, answered_cache)
unfolding Map.find handle_receive dispatch handle_response start_reading Map.erase remove_timer
    internal_remove_timer erase_timer find_timer
is_answered = receives [] false (8 ∷ []) 0 0 refl

user_keeps : UserKeeps user
user_keeps i s s' (inl h) = ground arith
user_keeps i s s' (inr h) = absurd (ground arith)

SystemReach-IsSound_example : IsSound (answered, answered_cache)
SystemReach-IsSound_example =
    SystemReach-IsSound settings database from_string serialize parse validate run user user_keeps
      (record { valid = cache-IsValid; linked = busy-Linked }) (next (next here queued) is_answered)

-- The server has parked the message 8, the code that the first two values give.
abbrev crowded : Server ℕ ℕ
crowded = record busy_server {
  parked_messages = record { transaction_code = 8; destination = gps; message = message 8 } ∷ [];
  random_values = 7 ∷ 7 ∷ 20000004 ∷ 3 ∷ [];
}

abbrev deaf_server : Server ℕ ℕ
deaf_server = record busy_server { reading = false }

sends_on :
    Steps.Step settings database from_string serialize
      (deaf_server, cache)
      (third_queued deaf_server, cache)
unfolding send_message find_destination Map.find enqueue MessageQueue.push MessageQueue.size
sends_on = Steps.sends (pos 5) 0x34000001 (message 10) false refl

receive_error_deafens_example : (third_queued deaf_server).reading ≡ false
unfolding handle_receive
receive_error_deafens_example =
    receive_error_deafens validate run parse [] settings database from_string serialize []
      busy_server cache (deaf_server, cache) (third_queued deaf_server, cache) 0 0 refl
      (Steps.next Steps.here sends_on)

-- The database knows the service `gps`, whatever is asked for.
abbrev pub gps_view : View
gps_view key =
    if same_text key "ServiceIdentifier"
    then k_int32 0x34000001
    else if same_text key "Port"
    then k_int32 4000
    else if same_text key "IpAddress"
    then k_utf8 "127.0.0.1"
    else k_utf8 "gps"

abbrev pub services : Collection
services query = some gps_view

abbrev pub any_address : String → Option ℕ
any_address text = some 127
