-- ===== src/Coordinator/FuncCall.antt =====
-- func_call_handler of src/coordinator/func_call_handler.cpp. rand_r of the C library and the
-- configured io_thread_num, which is at least 1, are parameters. The clock readings and the log
-- line of a refusal are left out.
pub mod Schedule
pub mod Delivery
use spheromone.Prelude.{
  ℕ, ◌+◌, ◌%◌, Option, none, some, List, [], ◌∷◌, if◌then◌else◌, ltb, leb, length, get_elem?,
}
use spheromone.Text.{Text, empty}
use spheromone.HashMap.{HashMap}
use spheromone.Common.Random.{gen_random}
use spheromone.Messages.{
  FunctionCall, FunctionCallResponse, Sent, function_call, function_call_response,
}
use spheromone.Coordinator.State.{NodeStatus, get_func_exec_address}
use spheromone.Common.Result.{Result, ok, crash}
use spheromone.Coordinator.Call.{Survey, survey, no_nodes, split_call}

module _ (rand_r : ℕ → ℕ × ℕ) where
  -- A call without a session gets a random one; the seed moves on.
  unfoldable pub with_session : FunctionCall → ℕ → FunctionCall × ℕ
  with_session call seed =
      let (session, next) = gen_random rand_r seed 16 in
      if empty call.session_id then (record call { session_id = session }, next) else (call, seed)

  -- A node at random, if there is one.
  unfoldable pub any_node :
      HashMap Text NodeStatus → FunctionCall → ℕ → HashMap Text FunctionCall × ℕ
  any_node [] call seed = ([], seed)
  any_node (n ∷ ns) call seed =
      let (r, next) = rand_r seed in
      elim (get_elem? (n ∷ ns) (r % length (n ∷ ns))) [
        | none ↦ ([], next)
        | some node ↦ ((node.0, call) ∷ [], next)
      ]

  -- A split that leaves its vectors, or does not end, has no result.
  abbrev pub of_split :
      ℕ → Option (HashMap Text FunctionCall) → Result (HashMap Text FunctionCall × ℕ)
  of_split seed none = crash
  of_split seed (some m) = ok (m, seed)

  -- scheduled_node_msg.
  unfoldable pub schedule :
      HashMap Text NodeStatus → FunctionCall → ℕ → Result (HashMap Text FunctionCall × ℕ)
  unfolding any_node
  schedule nodes call seed =
      let n = length call.requests in
      let s = survey call.source nodes no_nodes in
      let best = (s.best_node, call) ∷ [] in
      let split = of_split seed (split_call call s.avail_nodes) in
      if ltb 1 n
      then if leb n s.max_executors
        then ok (best, seed)
        else if leb n s.total
        then split
        else ok ([], seed)
      else if ltb 0 s.max_executors
      then ok (best, seed)
      else ok (any_node nodes call seed)

  -- Each scheduled call goes to an I/O thread of its node, drawn at random.
  unfoldable pub send_calls : ℕ → HashMap Text FunctionCall → ℕ → List Sent × ℕ
  send_calls io_thread_num [] seed = ([], seed)
  send_calls io_thread_num ((ip, call) ∷ m) seed =
      let (r, next) = rand_r seed in
      let (rest, last) = send_calls io_thread_num m next in
      (
        record { to = get_func_exec_address ip (r % io_thread_num); body = function_call call }
            ∷ rest,
        last,
      )

  -- The answer of a call that no node can take, if it asks for one.
  unfoldable pub no_worker : FunctionCall → List Sent
  no_worker call =
      if empty call.resp_address
      then []
      else record {
        to = call.resp_address;
        body = function_call_response (record {
          app_name = call.app_name;
          request_id = call.request_id;
          output = [];
          error_no = 1;
        });
      }
        ∷ []

  abbrev pub conclude : ℕ → FunctionCall → HashMap Text FunctionCall × ℕ → List Sent × ℕ
  conclude io_thread_num call ([], seed) = (no_worker call, seed)
  conclude io_thread_num call (m ∷ ms, seed) = send_calls io_thread_num (m ∷ ms) seed

  unfoldable pub func_call_handler :
      ℕ → HashMap Text NodeStatus → FunctionCall → ℕ → Result (List Sent × ℕ)
  unfolding with_session schedule send_calls no_worker
  func_call_handler io_thread_num nodes msg seed =
      let (call, next) = with_session msg seed in
      elim (schedule nodes call next) [
        | crash ↦ crash
        | ok scheduled ↦ ok (conclude io_thread_num call scheduled)
      ]
