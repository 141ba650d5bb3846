-- ===== src/Coordinator/FuncCall/Delivery.antt =====
-- What func_call_handler (src/coordinator/func_call_handler.cpp) sends for a call.
use spheromone.Prelude.{
  All, ℕ, ◌<◌, ◌≤◌, ◌≡◌, refl, ap, ◌∙◌, List, [], ◌∷◌, map, arith, length, if◌then◌else◌,
}
use spheromone.Text.{Text, empty}
use spheromone.HashMap.{HashMap}
use spheromone.Messages.{FunctionCall, Sent, function_call, function_call_response}
use spheromone.Coordinator.State.{NodeStatus}
use spheromone.Common.Result.{ok}
use spheromone.Coordinator.Call.{routed_call, survey, no_nodes}
use spheromone.Coordinator.Call.Dispatch.{Part}
use spheromone.Coordinator.Call.Schedule.{Distinct, route}
use spheromone.Coordinator.FuncCall.Schedule.{
  sent_requests, requests_of-route, with_session-same, send_calls-requests, schedule-split,
  schedule-Scheduled, schedule-Lacks, CanRun, Lacks,
}
use spheromone.Coordinator.Call.Capacity.{capacity}
use spheromone.Coordinator.FuncCall.{
  with_session, schedule, send_calls, no_worker, conclude, func_call_handler,
}

-- The message of a part of a call that has no session.
abbrev pub WithoutSession : Sent → Type 0
WithoutSession s = (call : FunctionCall) × (s.body ≡ function_call call) × (call.session_id ≡ [])

-- The answer to the caller of a call that does not run.
abbrev pub refusal : FunctionCall → Sent
refusal msg = record {
  to = msg.resp_address;
  body =
      function_call_response (record {
        app_name = msg.app_name;
        request_id = msg.request_id;
        output = [];
        error_no = 1;
      });
}

module _ (rand_r : ℕ → ℕ × ℕ) where
  conclude-some :
      (io_thread_num : ℕ) (call : FunctionCall) (m : HashMap Text FunctionCall) (seed : ℕ)
      → 0 < length m
      → conclude rand_r io_thread_num call (m, seed) ≡ send_calls rand_r io_thread_num m seed
  conclude-some io_thread_num call [] seed h = absurd (omega arith)
  conclude-some io_thread_num call (n ∷ ms) seed h = refl

  handler-schedule :
      (io_thread_num : ℕ) (nodes : HashMap Text NodeStatus) (msg : FunctionCall) (seed : ℕ)
      (scheduled : HashMap Text FunctionCall × ℕ)
      → schedule rand_r nodes (with_session rand_r msg seed).0 (with_session rand_r msg seed).1
        ≡ ok scheduled
      → func_call_handler rand_r io_thread_num nodes msg seed
        ≡ ok (conclude rand_r io_thread_num (with_session rand_r msg seed).0 scheduled)
  unfolding func_call_handler
  handler-schedule io_thread_num nodes msg seed scheduled e = rw (e, func_call_handler) refl

  -- A call that the nodes can run is sent: the messages carry every request of the call exactly
  -- once and in order, and there is at least one message. The addresses of the nodes are distinct.
  pub func_call_handler_delivers :
      (io_thread_num : ℕ) (nodes : HashMap Text NodeStatus) (msg : FunctionCall) (seed : ℕ)
      → Distinct nodes
      → CanRun rand_r nodes msg
      → (sent : List Sent) × (next : ℕ) × (func_call_handler rand_r io_thread_num nodes msg seed
          ≡ ok (sent, next))
        × (sent_requests sent ≡ msg.requests)
        × (0 < length sent)
  func_call_handler_delivers io_thread_num nodes msg seed d can =
      let call = (with_session rand_r msg seed).0 in
      let (same, from, answer) = with_session-same rand_r msg seed in
      let (m, next, e, all, some_call) =
        schedule-Scheduled rand_r nodes call (with_session rand_r msg seed).1 d
          (rw (same, from) can) in
      let (carried, count) = send_calls-requests rand_r io_thread_num m next in
      let (sent, last) = send_calls rand_r io_thread_num m next in
      (
        sent,
        last,
        handler-schedule io_thread_num nodes msg seed (m, next) e
            ∙ ap ok (conclude-some io_thread_num call m next some_call),
        carried ∙ all ∙ same,
        omega arith,
      )

  -- A call that the nodes cannot run is refused as a whole. Without an address for the answer nothing
  -- is sent; with one, the only message is the answer to it: the application and request of the call,
  -- no output, and the error 1. The addresses of the nodes are distinct.
  pub func_call_handler_refuses :
      (io_thread_num : ℕ) (nodes : HashMap Text NodeStatus) (msg : FunctionCall) (seed : ℕ)
      → Distinct nodes
      → Lacks rand_r nodes msg
      → (sent : List Sent) × (next : ℕ) × (func_call_handler rand_r io_thread_num nodes msg seed
          ≡ ok (sent, next))
        × (sent ≡ (if empty msg.resp_address then [] else refusal msg ∷ []))
  unfolding no_worker
  func_call_handler_refuses io_thread_num nodes msg seed d lacks =
      let (call, next) = with_session rand_r msg seed in
      let (same, from, answer) = with_session-same rand_r msg seed in
      let e = schedule-Lacks rand_r nodes call next d (rw (same, from) lacks) in
      (
        no_worker rand_r msg,
        next,
        handler-schedule io_thread_num nodes msg seed ([], next) e ∙ ap (λ x. ok (x, next)) answer,
        refl,
      )

  no_session :
      (io_thread_num : ℕ) (call : FunctionCall) (parts : List Part) (seed : ℕ)
      → All WithoutSession (send_calls rand_r io_thread_num (map (route call) parts) seed).0
  unfolding send_calls
  no_session io_thread_num call [] seed = tt
  no_session io_thread_num call (p ∷ ps) seed =
      ((routed_call call p.1, refl, refl), no_session io_thread_num call ps (rand_r seed).1)

  -- When no single node can take a batch, the messages that run it on several nodes have no session:
  -- the session of the call, given or generated, reaches none of them. The addresses of the nodes are
  -- distinct, and together they have an executor for each request.
  pub func_call_handler_splits :
      (io_thread_num : ℕ) (nodes : HashMap Text NodeStatus) (msg : FunctionCall) (seed : ℕ)
      → Distinct nodes
      → 1 < length msg.requests
      → (survey msg.source nodes no_nodes).max_executors < length msg.requests
      → length msg.requests ≤ capacity msg.source nodes
      → (sent : List Sent) × (next : ℕ) × (func_call_handler rand_r io_thread_num nodes msg seed
          ≡ ok (sent, next))
        × (sent_requests sent ≡ msg.requests)
        × All WithoutSession sent
  func_call_handler_splits io_thread_num nodes msg seed d a b c =
      let call = (with_session rand_r msg seed).0 in
      let (same, from, answer) = with_session-same rand_r msg seed in
      let (parts, e, all, some_call) =
        schedule-split rand_r nodes call (with_session rand_r msg seed).1 d (rw same a)
          (rw (same, from) b) (rw (same, from) c) in
      let seed' = (with_session rand_r msg seed).1 in
      let m = map (route call) parts in
      let (carried, count) = send_calls-requests rand_r io_thread_num m seed' in
      let (sent, last) = send_calls rand_r io_thread_num m seed' in
      (
        sent,
        last,
        handler-schedule io_thread_num nodes msg seed (m, seed') e
            ∙ ap ok (conclude-some io_thread_num call m seed' some_call),
        carried ∙ requests_of-route call parts ∙ all ∙ same,
        no_session io_thread_num call parts seed',
      )
