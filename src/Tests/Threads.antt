-- ===== src/Tests/Threads.antt =====
-- The I/O threads and the request ids of a node at concrete inputs.
use spheromone.Prelude.{ℕ, ◌+◌, ◌<◌, ◌≡◌, ◌≢◌, refl, none, some, List, [], ◌∷◌, ◌++◌, arith, All}
use spheromone.Text.{text, text_eq, to_string, empty}
use spheromone.HashMap
use spheromone.Common.Result.{ok}
use spheromone.Messages.{FunctionCall, empty_call, FunctionRequest}
use spheromone.Scheduler.State.{Helper, bytes_to, queue_send_req}
use spheromone.Scheduler.Helper.{data_request, send_data_req, data_access_client_port}
use spheromone.Scheduler.RequestIds.{nth_id, request_ids_are_unique}
use spheromone.Scheduler.IoThread.{IoThread, Input, send_req, get_kvs}
use spheromone.Scheduler.IoThread.Events.{Event, asked, round, taken, Outcome, rounds, run}
use spheromone.Scheduler.IoThread.Requests.{IsDone, data_request_is_sent}
use spheromone.Scheduler.IoThread.Batches.{Includes}
use spheromone.Scheduler.IoThread.Responses.{arrivals, responses_are_handed_over}
use spheromone.Tests.Nodes.{memory, helper}

abbrev peer : Helper
peer = record helper { key_address = (text "b|ks", text "tcp://n:1") ∷ [] }

abbrev waiting : IoThread
waiting = record { requests = get_kvs (text "k") ∷ []; responses = [] }

abbrev nothing : Input
nothing = record { call = none; data_request = none; data_response = none; kvs = [] }

abbrev f_request : FunctionRequest
f_request = record { name = text "f"; arguments = [] }

abbrev call_f : FunctionCall
call_f = record empty_call { app_name = text "a"; session_id = text "s"; requests = f_request ∷ [] }

-- A call, and an object "k" with the value "v".
abbrev arriving : Input
arriving = record nothing { call = some call_f; data_response = some (1 ∷ text "kv") }

abbrev one_round : List Event
one_round = round nothing [] ∷ []

data_request_is_sent_example :
    (id : ℕ) × (h' : Helper) × (0 < id)
    × (id < 2)
    × (send_data_req (text "b|ks") peer ≡ (queue_send_req id (text "b|ks") ∷ [], h'))
    × (o : Outcome) × (run memory id (asked (send_req (text "b|ks")) ∷ one_round) waiting h' ≡ ok o)
    × Includes
        (bytes_to (text "tcp://n:1") (
            data_request
              (text "b|ks")
              (text "tcp://" ++ text "h" ++ text ":" ++ to_string (id + data_access_client_port)))
          ∷ [])
        o.sent
    × All (IsDone id (text "h") peer.key_address o.sent) waiting.requests
data_request_is_sent_example =
    data_request_is_sent memory (text "b|ks") (text "tcp://n:1") peer waiting one_round
      (omega arith) (omega arith) (omega arith) (unfold HashMap.find in refl) (unfold empty in refl)
      ((tt, tt), tt) (unfold rounds in omega arith)

abbrev busy_thread : List Event
busy_thread = round arriving [] ∷ taken ∷ round arriving [] ∷ []

responses_are_handed_over_example :
    (o : Outcome) × (run memory 1 busy_thread waiting peer ≡ ok o)
    × (o.handed ++ o.thread.responses ≡ [] ++ arrivals busy_thread)
responses_are_handed_over_example =
    responses_are_handed_over memory 1 busy_thread waiting peer
      ((tt, omega arith), (tt, ((tt, omega arith), tt)))

request_ids_are_unique_example : nth_id 4999 helper ≢ nth_id 5000 helper
request_ids_are_unique_example =
    request_ids_are_unique helper 4999 5000 refl (omega arith) (omega arith)
