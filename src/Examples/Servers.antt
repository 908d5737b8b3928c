-- ===== src/Examples/Servers.antt =====
-- A server that sends to one service, and the theorems on servers at it.
use Prim.Native.String.{String}
use process_manager_module.Base.{
  ℕ, ◌≡◌, refl, true, false, List, [], ◌∷◌, ◌++◌, Option, none, some, returns, arith, inr,
}
use process_manager_module.Base.Int.{pos, ◌+ℤ◌}
use process_manager_module.Containers.Map
use process_manager_module.Containers.Order.{int_order}
use process_manager_module.Timer.{Timer, CallbackEnd, completed, waiting, get_expiration_timestamp}
use process_manager_module.TimersCache.{id_taken}
use process_manager_module.TimersCache.Invariant.{IsValid}
use process_manager_module.MessageQueue
use process_manager_module.Messages.{Message, module_request, success, transaction_code_of}
use process_manager_module.Services.{Instance}
use process_manager_module.Server.State.{
  Destination, Datagram, Callback, resend, Settings, Server, Cache,
}
use process_manager_module.Server.Requests.{enqueue, complete_send, send_message, find_destination}
use process_manager_module.Server.Link.{HeadInFlight, IsStalled, outgoing}
use process_manager_module.Server.Traffic.{link, datagram}
use process_manager_module.Server.Steps.{Step, sends, here, next, addressed, Reach-HeadInFlight}
use process_manager_module.Server.Delivery.{
  Moves, Reach-Moves, failed_send_stalls, completions, drained, completions_drain,
}

abbrev pub settings : Settings
settings = record { module_identifier = 0x2a000001; time_between_message_resends_in_seconds = 3 }

abbrev pub database : Instance
database = none

abbrev pub from_string : String → Option ℕ
from_string s = none

abbrev pub serialize : Message ℕ → List ℕ
serialize m = transaction_code_of m ∷ []

abbrev pub gps : Destination ℕ
gps = record { service_identifier = 0x34000001; endpoint = record { address = 127; port = 4000 } }

abbrev pub message : ℕ → Message ℕ
message code = record {
  header = some (record {
    sender_identifier = 0x2a000001;
    operation_code = module_request;
    transaction_code = code;
  });
  request = some 1;
  response = none;
  subscription_request = none;
}

abbrev pub answer : ℕ → Message ℕ
answer code = record (message code) { request = none; response = some success }

abbrev pub idle_server : Server ℕ ℕ
idle_server = record {
  services_endpoints_map = (0x34000001, gps.endpoint) ∷ [];
  message_queue = record { messages_queue = [] };
  parked_messages = [];
  transaction_and_timer_id = (8, 1) ∷ [];
  random_values = 2004 ∷ [];
  in_flight = [];
  handed_over = [];
  reading = true;
  message_buffer_size = 512;
}

-- The timer of the transaction 8.
abbrev pub running_timer : Timer (Callback ℕ ℕ)
running_timer = record {
  active = true;
  repeatable = false;
  action_status = waiting;
  timer_id = 1;
  start_timestamp = pos 0;
  duration = pos 10;
  callback_function =
      some
        (resend (some (record { transaction_code = 8; destination = gps; message = message 8 })));
}

abbrev pub cache : Cache ℕ ℕ
cache = record {
  timers_lock = false;
  timers_invoked_status = false;
  timers = (pos 10, running_timer) ∷ [];
}

pub cache-IsValid : IsValid cache
unfolding id_taken get_expiration_timestamp ◌+ℤ◌
cache-IsValid = record {
  unlocked = refl;
  well_formed = record {
    sorted = (tt, tt);
    keyed = (refl, tt);
    distinct = (refl, tt);
    positive = (ground arith, tt);
  };
}

abbrev pub gps_datagram : ℕ → Datagram ℕ
gps_datagram code = record { receiver = gps.endpoint; bytes = code ∷ [] }

-- Two messages wait, the first of which is in flight.
abbrev pub busy_server : Server ℕ ℕ
busy_server = record idle_server {
  message_queue = record { messages_queue = (gps, message 8) ∷ (gps, message 9) ∷ [] };
  in_flight = gps_datagram 8 ∷ [];
  handed_over = gps_datagram 8 ∷ [];
}

abbrev pub third_queued : Server ℕ ℕ → Server ℕ ℕ
third_queued s = record s {
  message_queue = record {
    messages_queue = (gps, message 8) ∷ (gps, message 9) ∷ (gps, message 10) ∷ [];
  };
}

unfoldable third_message :
    Step settings database from_string serialize
      (busy_server, cache)
      (third_queued busy_server, cache)
unfolding send_message find_destination Map.find enqueue MessageQueue.push MessageQueue.size
third_message = sends (pos 5) 0x34000001 (message 10) false refl

abbrev failed_server : Server ℕ ℕ
failed_server = record busy_server { in_flight = [] }

fails :
    complete_send settings serialize true (pos 5) (busy_server, cache)
    ≡ returns (failed_server, cache)
unfolding complete_send
fails = refl

third_message_after :
    Step settings database from_string serialize
      (failed_server, cache)
      (third_queued failed_server, cache)
unfolding send_message find_destination Map.find enqueue MessageQueue.push MessageQueue.size
third_message_after = sends (pos 5) 0x34000001 (message 10) false refl

Reach-HeadInFlight_example :
    HeadInFlight
      (addressed settings database from_string serialize)
      (link (third_queued busy_server))
Reach-HeadInFlight_example =
    Reach-HeadInFlight settings database from_string serialize
      (inr ((gps, message 8), (gps, message 9) ∷ [], refl, refl)) (next here third_message)

-- The third message is accepted.
Reach-Moves_example :
    Moves
      (datagram settings serialize)
      (link busy_server)
      ((gps, message 10) ∷ [])
      (link (third_queued busy_server))
    × (outgoing (datagram settings serialize) (link (third_queued busy_server))
        ≡ outgoing (datagram settings serialize) (link busy_server) ++ gps_datagram 10 ∷ [])
unfolding find_destination Map.find third_message
Reach-Moves_example =
    Reach-Moves settings database from_string serialize (busy_server, cache)
      (third_queued busy_server, cache) (next here third_message)

failed_send_stalls_example :
    IsStalled (link (third_queued failed_server))
    × ((third_queued failed_server).handed_over ≡ busy_server.handed_over)
failed_send_stalls_example =
    failed_send_stalls settings database from_string serialize (pos 5) busy_server cache
      (failed_server, cache) (third_queued failed_server, cache) (gps_datagram 8) [] (ground arith)
      refl fails (next here third_message_after)

completions_drain_example :
    (s' : Server ℕ ℕ) × (c' : Cache ℕ ℕ) × (completions settings database from_string serialize 2
        (pos 5)
        (busy_server, cache)
      ≡ returns (s', c'))
    × (link s'
        ≡ drained settings database from_string serialize (gps_datagram 8 ∷ gps_datagram 9 ∷ []))
    × IsValid c'
completions_drain_example =
    completions_drain settings database from_string serialize ((gps, message 9) ∷ []) (pos 5)
      busy_server cache (gps_datagram 8) (gps, message 8) refl refl cache-IsValid (ground arith)

abbrev pub user : ℕ → Server ℕ ℕ → CallbackEnd (Server ℕ ℕ)
user i s = completed s
