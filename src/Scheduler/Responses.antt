-- ===== src/Scheduler/Responses.antt =====
-- What the helper has received: the second part of `run` in src/scheduler/scheduler.cpp.
use spheromone.Prelude.{ℕ, ◌+◌, ◌%◌, ◌^◌, List, [], ◌∷◌, ◌++◌, nat_eq, ◌==◌, if◌then◌else◌, length}
use spheromone.Prelude.Int.{ℤ, pos, ltb_ℤ}
use spheromone.Text.{Text, text, text_eq, to_string}
use spheromone.HashMap
use spheromone.HashMap.{HashMap}
use spheromone.HashSet
use spheromone.HashSet.{HashSet}
use spheromone.Common.Key.{delimiter}
use spheromone.Common.Result.{Result, ok}
use spheromone.Scheduler.State.{Node, Config, Output, InflightFuncArgs, InflightRequest}
use spheromone.Scheduler.Helper.{send_data_req}
use spheromone.Scheduler.Receive.{CallMsg, RecvMsg, call, data_resp, kvs_get_resp, kvs_put_resp}
use spheromone.Scheduler.Dispatch.{schedule_func_call, send_to_executer}
use spheromone.Scheduler.Arrival.{and_then}
use spheromone.Scheduler.Objects.{by_helper}
use spheromone.Scheduler.Requests.{response}

abbrev pub kvs_key_prefix : Text
kvs_key_prefix = text "KVS"

-- The arguments that are not here. An argument is asked for unless some call waits for it.
unfoldable pub fetch_args : List Text → HashSet Text → Node → HashSet Text × Node × List Output
fetch_args [] missing n = (missing, n, [])
fetch_args (arg ∷ args) missing n =
    if HashMap.has arg n.key_len
    then fetch_args args missing n
    else (let (n1, sent) : Node × List Output =
          if HashMap.has arg n.key_calls
          then (n, [])
          else by_helper (send_data_req arg n.helper) n in
        let n2 = record n1 {
          key_calls =
              HashMap.put arg (HashSet.insert n.call_id (HashMap.get_or arg n1.key_calls []))
                n1.key_calls;
        } in
        let (left, n3, more) = fetch_args args (HashSet.insert arg missing) n2 in
        (left, n3, sent ++ more))

-- Each key with its size.
unfoldable pub full_args : List Text → HashMap Text ℕ → List Text
full_args [] lens = []
full_args (key ∷ keys) lens = key ∷ to_string (HashMap.get_or key lens 0) ∷ full_args keys lens

abbrev no_args : InflightFuncArgs
no_args = record {
  func_name = [];
  session_id = [];
  key_args = [];
  inflight_args = [];
  arg_flag = pos 0;
}

-- The answer goes to each executor that waits.
unfoldable pub answer_all : List InflightRequest → Text → Node → List Output
unfolding response
answer_all [] value n = []
answer_all ((executor_id, req_id) ∷ rest) value n =
    send_to_executer executor_id (response req_id value) n ++ answer_all rest value n

-- `resp += data_size_` appends the size as one character.
unfoldable pub answer_gets : Text → Text → Node → Node × List Output
unfolding answer_all
answer_gets key value n = (
  record n { remote_gets = HashMap.erase key n.remote_gets },
  answer_all (HashMap.get_or key n.remote_gets []) value n,
)

unfoldable pub answer_puts : Text → Node → Node × List Output
unfolding answer_all
answer_puts key n = (
  record n { kvs_puts = HashMap.erase key n.kvs_puts },
  answer_all (HashMap.get_or key n.kvs_puts []) [] n,
)

module _ (shm_read : Text → ℕ → Text) (rand_r : ℕ → ℕ × ℕ) (config : Config) where
  -- One function of a call: it runs when its arguments are here.
  unfoldable pub call_function :
      CallMsg → Text → List Text → ℤ → ℕ → Node → Result (Node × List Output)
  unfolding fetch_args full_args
  call_function m f args flag now n =
      if ltb_ℤ (pos 0) flag
      then (let (missing, n1, sent) = fetch_args args [] n in
          let waiting : InflightFuncArgs = record {
            func_name = f;
            session_id = m.session_id;
            key_args = args;
            inflight_args = missing;
            arg_flag = flag;
          } in
          elim missing [
            | [] ↦ and_then (ok (n1, sent)) (λ n2.
                schedule_func_call shm_read rand_r config m.session_id m.app_name f
                  (full_args args n2.key_len) flag now n2)
            | _ ↦ ok (record n1 { inflight = HashMap.put n.call_id waiting n1.inflight }, sent)
          ])
      else schedule_func_call shm_read rand_r config m.session_id m.app_name f args (pos 0) now n

  unfoldable pub call_functions :
      CallMsg → List (Text × List Text × ℤ) → ℕ → Node → Result (Node × List Output)
  unfolding call_function
  call_functions m [] now n = ok (n, [])
  call_functions m ((f, args, flag) ∷ rest) now n =
      and_then (call_function m f args flag now n)
        (λ n'. call_functions m rest now (record n' { call_id = (n'.call_id + 1) % 2 ^ 32 }))

  -- The calls that wait for the key. One that has the last of its arguments runs.
  unfoldable pub resume_calls : Text → List ℕ → ℕ → Node → Result (Node × List Output)
  unfolding full_args
  resume_calls key [] now n = ok (n, [])
  resume_calls key (cid ∷ cids) now n =
      let waiting = HashMap.get_or cid n.inflight no_args in
      let left = HashSet.erase key waiting.inflight_args in
      let later = λ (n' : Node). resume_calls key cids now n' in
      if length left == 0
      then and_then
          (schedule_func_call shm_read rand_r config waiting.session_id
            (HashMap.get_or waiting.func_name n.func_app []) waiting.func_name
            (full_args waiting.key_args n.key_len) waiting.arg_flag now n)
          (λ n'. later (record n' { inflight = HashMap.erase cid n'.inflight }))
      else later (record n {
        inflight = HashMap.put cid (record waiting { inflight_args = left }) n.inflight;
      })

  unfoldable pub data_arrived : Text → ℕ → ℕ → Node → Result (Node × List Output)
  unfolding answer_gets resume_calls
  data_arrived key size now n =
      and_then
        (and_then
          (ok (
            answer_gets key (size % 2 ^ 8 ∷ [])
              (record n { key_len = HashMap.put key size n.key_len })))
          (λ n1. resume_calls key (HashMap.get_or key n1.key_calls []) now n1))
        (λ n2. ok (record n2 { key_calls = HashMap.erase key n2.key_calls }, []))

  unfoldable pub handle_response : RecvMsg → ℕ → Node → Result (Node × List Output)
  unfolding call_functions data_arrived answer_gets answer_puts
  handle_response (call m) now n =
      call_functions m m.calls now
        (record n { session_client = HashMap.put m.session_id m.resp_address n.session_client })
  handle_response (data_resp key size) now n = data_arrived key size now n
  handle_response (kvs_get_resp key size) now n =
      let name = kvs_key_prefix ++ delimiter ∷ key in
      ok
        (answer_gets name (to_string size) (record n { key_len = HashMap.put name size n.key_len }))
  handle_response (kvs_put_resp key) now n = ok (answer_puts key n)

  unfoldable pub handle_responses : List RecvMsg → ℕ → Node → Result (Node × List Output)
  unfolding handle_response
  handle_responses [] now n = ok (n, [])
  handle_responses (m ∷ ms) now n =
      and_then (handle_response m now n) (λ n'. handle_responses ms now n')
