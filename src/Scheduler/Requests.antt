-- ===== src/Scheduler/Requests.antt =====
-- The messages of the executors to the local scheduler: the first part of `run` in
-- src/scheduler/scheduler.cpp. A message is executor + 1, type and further bytes, and the channel
-- puts a 0 behind it.
use spheromone.Prelude.{
  ℕ, ◌+◌, ◌%◌, ◌^◌, none, some, List, [], ◌∷◌, ◌++◌, nat_eq, ◌==◌, ◌&&◌, if◌then◌else◌, ltb, leb,
  length, take, drop, get_elem?,
}
use spheromone.Text.{Text, text_eq, to_string}
use spheromone.HashMap
use spheromone.HashMap.{HashMap}
use spheromone.Common.Key.{delimiter}
use spheromone.Common.Split.{split}
use spheromone.Common.Result.{Result, ok, crash, ◌>>=◌}
use spheromone.Scheduler.State.{Node, Config, ExecutorStatus, available, await, busy, Output}
use spheromone.Scheduler.Helper.{send_data_req, get_kvs_async, client_response}
use spheromone.Scheduler.Forward.{client_of}
use spheromone.Scheduler.Dispatch.{send_to_executer}
use spheromone.Scheduler.Arrival.{and_then}
use spheromone.Scheduler.Objects.{
  byte_at, by_helper, read_object, ephemeral_object, put_object, output_data, kept_put,
}

-- The answer to a request: 3, the request and 1 for success, then the value.
unfoldable pub response : ℕ → Text → Text
response req_id value = 3 ∷ req_id ∷ 1 ∷ value

unfoldable pub executor_of : Text → ℕ
unfolding byte_at
executor_of str = (byte_at 0 str + 255) % 2 ^ 8

unfoldable pub wait_for : Text → ℕ → ℕ → Node → Node
wait_for key_name executor_id req_id n = record n {
  remote_gets =
      HashMap.put key_name (HashMap.get_or key_name n.remote_gets [] ++ (executor_id, req_id) ∷ [])
        n.remote_gets;
}

-- The request for an object. A key that is longer than the message is read outside of it.
unfoldable pub get_request : Text → Node → Result (Node × List Output)
unfolding byte_at executor_of response wait_for
get_request str n =
    let id = executor_of str in
    let req_id = byte_at 3 str in
    let len = byte_at 4 str in
    let rest = drop 5 str in
    let key_name = take len rest in
    if ltb (length rest) len
    then crash
    else if byte_at 2 str == 1
    then elim (HashMap.find key_name n.key_len) [
      | some size ↦ ok (n, send_to_executer id (response req_id (to_string size)) n)
      | none ↦
          let (n', sent) = by_helper (send_data_req key_name n.helper) n in
          ok (wait_for key_name id req_id n', sent)
    ]
    else elim (get_elem? (split delimiter key_name) 1) [
      | none ↦ crash
      | some key ↦
          let (n', sent) = by_helper (get_kvs_async key n.helper) n in
          ok (wait_for key_name id req_id n', sent)
    ]

-- The status after an executor says that it is available. One that was waited for counts as empty.
unfoldable pub released : ExecutorStatus → ExecutorStatus
released ExecutorStatus.empty = ExecutorStatus.empty
released available = available
released await = ExecutorStatus.empty
released busy = available

-- The executor is busy.
unfoldable pub set_busy : ℕ → Node → Node
set_busy id n = record n { executor_status = HashMap.put id busy n.executor_status }

unfoldable pub set_available : ℕ → Node → Node
unfolding released
set_available id n = record n {
  executor_status =
      HashMap.put id (released (HashMap.get_or id n.executor_status ExecutorStatus.empty))
        n.executor_status;
}

module _ (shm_read : Text → ℕ → Text) (rand_r : ℕ → ℕ × ℕ) (config : Config) where
  unfoldable pub send_object_request : Text → ℕ → Node → Result (Node × List Output)
  unfolding read_object byte_at executor_of ephemeral_object put_object output_data kept_put
  send_object_request str now n = elim (read_object str) [
    | none ↦ ok (n, [])
    | some o ↦
        let packing = byte_at 3 str in
        if byte_at 1 str == 2
        then ephemeral_object shm_read rand_r config packing o now n
        else if byte_at 1 str == 3
        then and_then (put_object shm_read packing o n)
            (λ n'. ok (kept_put o.session_key (executor_of str) (byte_at 2 str) n', []))
        else output_data shm_read packing o >>= (λ output. ok (
          n,
          client_response (client_of o.session_id n) (HashMap.get_or o.src_function n.func_app [])
                output
              ∷ [],
        ))
  ]

  unfoldable pub handle_message : Text → ℕ → Node → Result (Node × List Output)
  unfolding byte_at executor_of get_request send_object_request set_busy set_available
  handle_message str now n =
      let type = byte_at 1 str in
      if type == 1
      then get_request str n
      else if leb 2 type && leb type 4
      then send_object_request str now n
      else if type == 6
      then ok (set_busy (executor_of str) n, [])
      else if type == 7
      then ok (set_available (executor_of str) n, [])
      else ok (n, [])
