-- ===== src/Tests/Calls.antt =====
-- func_call_handler at concrete inputs.
use spheromone.Prelude.{
  if◌then◌else◌, ℕ, ◌+◌, ◌<◌, ◌≡◌, refl, inl, some, List, [], ◌∷◌, map, arith, length, All,
}
use spheromone.Prelude.Int.{pos}
use spheromone.Text.{Text, text, empty}
use spheromone.HashMap.{HashMap}
use spheromone.Messages.{FunctionCall, FunctionRequest, empty_call, Sent}
use spheromone.Coordinator.State.{NodeStatus}
use spheromone.Common.Result.{ok}
use spheromone.Coordinator.Call.{split_call, survey, no_nodes}
use spheromone.Coordinator.Call.RoundRobin.{total_free}
use spheromone.Coordinator.Call.Dispatch.{Part, all_requests}
use spheromone.Coordinator.Call.Schedule.{Distinct, Within, route, split_call-Within}
use spheromone.Coordinator.Call.Capacity.{capacity}
use spheromone.Coordinator.FuncCall.{func_call_handler}
use spheromone.Coordinator.FuncCall.Schedule.{sent_requests}
use spheromone.Coordinator.FuncCall.Delivery.{
  func_call_handler_delivers, func_call_handler_refuses, func_call_handler_splits, refusal,
  WithoutSession,
}

abbrev counter : ℕ → ℕ × ℕ
counter seed = (seed, seed + 1)

abbrev request : Text → FunctionRequest
request name = record { name = name; arguments = [] }

abbrev batch : FunctionCall
batch = record empty_call {
  app_name = text "app";
  requests = request (text "f") ∷ request (text "g") ∷ request (text "h") ∷ [];
  resp_address = text "client";
  session_id = text "0123456789abcdef";
}

abbrev two : List (Text × ℕ)
two = (text "a", 2) ∷ (text "b", 1) ∷ []

two-Distinct : Distinct two
two-Distinct = ((refl, tt), (tt, tt))

split_call-Within_example :
    (parts : List Part) × (split_call batch two ≡ some (map (route batch) parts))
    × (all_requests parts ≡ batch.requests)
    × Within two parts
split_call-Within_example =
    split_call-Within batch two (omega arith) (unfold total_free in omega arith)
      (omega arith, (omega arith, tt)) two-Distinct

abbrev status : ℕ → NodeStatus
status n = record { tp = 0; avail_executors = pos n; functions = [] }

abbrev nodes : HashMap Text NodeStatus
nodes = (text "a", status 2) ∷ (text "b", status 1) ∷ []

nodes-Distinct : Distinct nodes
nodes-Distinct = ((refl, tt), (tt, tt))

three_free : capacity [] nodes ≡ 3
unfolding capacity empty
three_free = refl

func_call_handler_delivers_example :
    (sent : List Sent) × (next : ℕ) × (func_call_handler counter 4 nodes batch 7 ≡ ok (sent, next))
    × (sent_requests sent ≡ batch.requests)
    × (0 < length sent)
func_call_handler_delivers_example =
    func_call_handler_delivers counter 4 nodes batch 7 nodes-Distinct
      (inl (omega arith, omega (arith, three_free)))

abbrev one_node : HashMap Text NodeStatus
one_node = (text "a", status 2) ∷ []

one_node-Distinct : Distinct one_node
one_node-Distinct = (tt, tt)

two_free : capacity [] one_node ≡ 2
unfolding capacity empty
two_free = refl

func_call_handler_refuses_example :
    (sent : List Sent) × (next : ℕ) × (func_call_handler counter 4 one_node batch 7
      ≡ ok (sent, next))
    × (sent ≡ (if empty batch.resp_address then [] else refusal batch ∷ []))
func_call_handler_refuses_example =
    func_call_handler_refuses counter 4 one_node batch 7 one_node-Distinct
      (inl (omega arith, omega (arith, two_free)))

two_at_most : (survey [] nodes no_nodes).max_executors ≡ 2
unfolding survey empty
two_at_most = refl

func_call_handler_splits_example :
    (sent : List Sent) × (next : ℕ) × (func_call_handler counter 4 nodes batch 7 ≡ ok (sent, next))
    × (sent_requests sent ≡ batch.requests)
    × All WithoutSession sent
func_call_handler_splits_example =
    func_call_handler_splits counter 4 nodes batch 7 nodes-Distinct (omega arith)
      (omega (arith, two_at_most)) (omega (arith, three_free))
