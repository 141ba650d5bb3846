-- ===== src/Scheduler/Helper.antt =====
-- What CommHelper sends (src/scheduler/comm_helper.hpp). The number of I/O threads is at least 1.
-- An address of a thread that was never set is undefined in C++: using it is a `crash`.
use spheromone.Prelude.{
  ℕ, ◌+◌, ◌%◌, ◌^◌, Bool, true, false, Option, none, some, List, [], ◌∷◌, ◌++◌, map, nat_eq, ◌==◌,
  if◌then◌else◌, ltb, length,
}
use spheromone.Prelude.Int.{ℤ, pos, ltb_ℤ, uint32_of_int}
use spheromone.Text.{Text, text, text_eq, to_string, empty}
use spheromone.HashMap
use spheromone.HashMap.{HashMap}
use spheromone.Common.Key.{BucketKey, delimiter, get_addr_from_bucket_key, BucketKeyAddress}
use spheromone.Common.Result.{Result, ok, crash, ◌>>=◌}
use spheromone.Common.Threads.{
  connect_address, notify_handler, key_query_handler, update_handler, forward_func,
}
use spheromone.Messages.{
  Argument, FunctionRequest, empty_call, function_call, function_call_response, UpdateStatusMessage,
  status_update, key_notify, key_query,
}
use spheromone.Scheduler.State.{
  Helper, Output, to_address, bytes_to, kvs_get, kvs_put, queue_send_req, queue_get_kvs,
  queue_put_kvs,
}

abbrev pub data_access_server_port : ℕ
data_access_server_port = 4400

abbrev pub data_access_client_port : ℕ
data_access_client_port = 4450

-- The next I/O thread, in turn. io_thread_id_ is an unsigned number of 32 bits.
unfoldable pub get_io_thread_id : Bool → Helper → ℕ × Helper
get_io_thread_id exclude_main h =
    let next = (h.io_thread_id + 1) % 2 ^ 32 in
    let first : ℕ = if exclude_main then 1 else 0 in
    let id = if next % h.io_thread_count == 0 then first else next in
    (id, record h { io_thread_id = id })

unfoldable pub get_data_server_addr : Bool → Helper → Text × Helper
unfolding get_io_thread_id
get_data_server_addr exclude_main h =
    let (id, h') = get_io_thread_id exclude_main h in
    (text "tcp://" ++ h.ip ++ text ":" ++ to_string (id + data_access_server_port), h')

-- rid_ is incremented before and after its use.
unfoldable pub get_request_id : Helper → Text × Helper
get_request_id h =
    let next = (h.rid + 1) % 2 ^ 32 in
    let rid : ℕ = if next % 10000 == 0 then 0 else next in
    (
      h.ip ++ text ":" ++ to_string 0 ++ text "_" ++ to_string rid,
      record h { rid = (rid + 1) % 2 ^ 32 },
    )

unfoldable pub get_key_address : Text → Helper → Option Text
get_key_address key h = HashMap.find key h.key_address

-- Key length, key, and the address for the answer. The length is one byte.
unfoldable pub data_request : Text → Text → Text
data_request key resp_address = length key % 2 ^ 8 ∷ key ++ resp_address

unfoldable pub send_data_req_base : Text → ℕ → Helper → List Output
unfolding get_key_address data_request
send_data_req_base key tid h =
    let from = text "tcp://" ++ h.ip ++ text ":" ++ to_string (tid + data_access_client_port) in
    elim (get_key_address key h) [
      | none ↦ []
      | some address ↦ if empty address then [] else bytes_to address (data_request key from) ∷ []
    ]

-- With several I/O threads a request goes to the queue of one of them, the main thread excepted.
abbrev pub on_thread : List Output → (ℕ → Output) → Helper → List Output × Helper
on_thread at_once queued h =
    let (id, h') = get_io_thread_id true h in
    if ltb 1 h.io_thread_count
    then (if id == 0 then at_once else queued id ∷ [], h')
    else (at_once, h)

unfoldable pub send_data_req : Text → Helper → List Output × Helper
unfolding send_data_req_base get_io_thread_id
send_data_req key h = on_thread (send_data_req_base key 0 h) (λ (id : ℕ). queue_send_req id key) h

unfoldable pub get_kvs_async : Text → Helper → List Output × Helper
unfolding get_io_thread_id
get_kvs_async key h = on_thread (kvs_get 0 key ∷ []) (λ (id : ℕ). queue_get_kvs id key) h

unfoldable pub put_kvs_async : Text → Text → Helper → List Output × Helper
unfolding get_io_thread_id
put_kvs_async key value h =
    on_thread (kvs_put 0 key value ∷ []) (λ (id : ℕ). queue_put_kvs id key value) h

-- The arguments of a forwarded function. Keys come as bucket, key and size; an incomplete one is
-- an access outside of the vector.
unfoldable pub key_arguments : ℤ → List Text → Helper → Result (List Argument × Helper)
unfolding get_data_server_addr
key_arguments flag [] h = ok ([], h)
key_arguments flag (bucket ∷ key ∷ size ∷ rest) h = do
  let (address, h1) = get_data_server_addr false h
  (args, h2) ← key_arguments flag rest h1
  ok (
    record {
      body = bucket ++ delimiter ∷ key;
      arg_flag = uint32_of_int flag;
      data_address = address;
    }
        ∷ args,
    h2,
  )
key_arguments flag (bucket ∷ key ∷ []) h = ok (
    let (address, h1) = get_data_server_addr false h in
    (
      record {
        body = bucket ++ delimiter ∷ key;
        arg_flag = uint32_of_int flag;
        data_address = address;
      }
          ∷ [],
      h1,
    ))
key_arguments flag (bucket ∷ []) h = crash

abbrev pub plain_argument : ℤ → Text → Argument
plain_argument flag arg = record { body = arg; arg_flag = uint32_of_int flag; data_address = [] }

unfoldable pub forward_requests :
    ℤ → List (Text × List Text) → Helper → Result (List FunctionRequest × Helper)
unfolding key_arguments
forward_requests flag [] h = ok ([], h)
forward_requests flag ((name, args) ∷ rest) h = do
  (arguments, h1) ←
      (if ltb_ℤ (pos 0) flag
        then key_arguments flag args h
        else ok (map (plain_argument flag) args, h))
  (requests, h2) ← forward_requests flag rest h1
  ok (record { name = name; arguments = arguments } ∷ requests, h2)

-- The call goes back to the coordinator of the application.
unfoldable pub forward_func_call :
    Text → Text → List (Text × List Text) → ℤ → Text → Helper → Result (List Output × Helper)
unfolding forward_requests
forward_func_call resp_address app_name calls flag session_id h = do
  (requests, h') ← forward_requests flag calls h
  let call = record empty_call {
    app_name = app_name;
    resp_address = resp_address;
    source = h.ip;
    session_id = session_id;
    sync_data_status = true;
    requests = requests;
  }
  elim (HashMap.find app_name h.app_coord) [
    | none ↦ crash
    | some (ip, tid) ↦
        ok (to_address (connect_address ip forward_func tid) (function_call call) ∷ [], h')
  ]

unfoldable pub client_response : Text → Text → Text → Output
client_response resp_address app_name output = to_address resp_address (
    function_call_response
      (record { app_name = app_name; request_id = []; output = output; error_no = 0 }))

-- The number of free executors, to every coordinator thread.
unfoldable pub update_status : ℕ → Helper → List Output
update_status avail_executors h =
    let msg : UpdateStatusMessage = record {
      ip = h.ip;
      avail_executors = avail_executors;
      functions = [];
    } in
    map
      (λ thread. to_address (connect_address thread.0 update_handler thread.1) (status_update msg))
      h.routing_threads

abbrev no_address : BucketKeyAddress
no_address = record { bucket = []; key = []; session = []; ips = []; payload = [] }

-- Nothing is sent for a bucket without a coordinator.
unfoldable pub notify_put : BucketKey → List Text → Text → Text → Helper → List Output × Helper
unfolding get_request_id get_data_server_addr
notify_put b active_triggers resp_address payload h = elim (HashMap.find b.bucket h.bucket_coord) [
  | none ↦ ([], h)
  | some (ip, tid) ↦
      let (req_id, h1) = get_request_id h in
      let (address, h2) = get_data_server_addr true h1 in
      (
        to_address (connect_address ip notify_handler tid) (
              key_notify (record {
                addresses =
                    record (get_addr_from_bucket_key b no_address) {
                      ips = address ∷ [];
                      payload = payload;
                    }
                    ∷ [];
                active_trigger_names = active_triggers;
                request_id = req_id;
                response_address = resp_address;
              }))
            ∷ [],
        h2,
      )
]

abbrev query_port : ℕ
query_port = 7650

-- Nothing in the program asks for this. The address of a bucket without a coordinator is empty, and
-- no socket connects to it.
unfoldable pub key_query_async : BucketKey → Helper → Result (List Output × Helper)
unfolding get_request_id
key_query_async b h =
    let (req_id, h') = get_request_id h in
    let from = text "tcp://" ++ h.ip ++ text ":" ++ to_string query_port in
    elim (HashMap.find b.bucket h.bucket_coord) [
      | none ↦ crash
      | some (ip, tid) ↦ ok (
        to_address (connect_address ip key_query_handler tid) (
              key_query (record {
                addresses = get_addr_from_bucket_key b no_address ∷ [];
                request_id = req_id;
                response_address = from;
              }))
            ∷ [],
        h',
      )
    ]

abbrev clear_cache : Helper → Helper
clear_cache h = record h { key_address = [] }
