-- ===== src/Coordinator/Call.antt =====
-- src/coordinator/func_call_handler.cpp: the nodes that run the requests of a call. rand_r of the C
-- library is a parameter. The counts are `int` in the source; a sum of free executors beyond
-- 2 ^ 31 - 1 is not modelled.
pub mod RoundRobin
pub mod Loads
pub mod Dispatch
pub mod Schedule
pub mod Capacity
use spheromone.Prelude.{
  ℕ, zero, suc, ◌+◌, ◌-◌, ◌%◌, Bool, true, false, not, Option, none, some, List, [], ◌∷◌, ◌++◌, map,
  nat_eq, ◌==◌, if◌then◌else◌, ltb, leb, length, get_elem?, ◌&&◌,
}
use spheromone.Prelude.Int.{pos_part}
use spheromone.Text.{Text, text_eq, empty}
use spheromone.HashMap
use spheromone.HashMap.{HashMap}
use spheromone.Common.Random.{gen_random}
use spheromone.Messages.{
  FunctionCall, FunctionRequest, empty_call, Sent, function_call, function_call_response,
}
use spheromone.Coordinator.State.{NodeStatus, get_func_exec_address}
use spheromone.Common.Result.{Result, ok, crash}

-- The free executors of a node; a negative count passes no test of the handler, as 0 does not.
abbrev pub slots : NodeStatus → ℕ
slots s = pos_part s.avail_executors

-- What the loop over the nodes collects. The node that sent the call is passed over.
pub record Survey : Type 0 where
  pub total : ℕ
  pub avail_nodes : List (Text × ℕ)
  pub max_executors : ℕ
  pub best_node : Text

abbrev pub is_source : Text → Text → Bool
is_source source ip = not (empty source) && (source == ip)

abbrev visit : Survey → Text → ℕ → Survey
visit s ip free = record {
  total = s.total + free;
  avail_nodes = if ltb 0 free then s.avail_nodes ++ (ip, free) ∷ [] else s.avail_nodes;
  max_executors = if ltb s.max_executors free then free else s.max_executors;
  best_node = if ltb s.max_executors free then ip else s.best_node;
}

unfoldable pub survey : Text → HashMap Text NodeStatus → Survey → Survey
survey source [] s = s
survey source ((ip, status) ∷ rest) s =
    survey source rest (if is_source source ip then s else visit s ip (slots status))

abbrev pub no_nodes : Survey
no_nodes = record { total = 0; avail_nodes = []; max_executors = 0; best_node = [] }

-- A node while requests are dealt out: what it has left, and node_loads of it.
pub record Slot : Type 0 where
  pub address : Text
  pub free : ℕ
  pub load : ℕ

abbrev pub new_slot : Text × ℕ → Slot
new_slot (ip, free) = record { address = ip; free = free; load = 0 }

-- while (avail_nodes[node_idx].second <= 0) node_idx = (node_idx + 1) % avail_nodes.size();
-- `none` means that the fuel ran out, or that the index is outside of the vector.
unfoldable pub next_free : ℕ → List Slot → ℕ → Option ℕ
next_free zero slots i = none
next_free (suc fuel) slots i =
    let next = next_free fuel slots ((i + 1) % length slots) in
    elim (get_elem? slots i) [ none ↦ none | some s ↦ if ltb 0 s.free then some i else next ]

-- node_loads[i]++; avail_nodes[i].second--;
unfoldable pub deal_one : List Slot → ℕ → List Slot
deal_one [] i = []
deal_one (s ∷ ss) zero = record s { free = s.free - 1; load = s.load + 1 } ∷ ss
deal_one (s ∷ ss) (suc i) = s ∷ deal_one ss i

-- One round for each request. A round looks at each node at most once, so the number of nodes is
-- fuel enough.
unfoldable pub deal : ℕ → List Slot → ℕ → Option (List Slot)
unfolding next_free deal_one
deal zero slots i = some slots
deal (suc rounds) slots i = elim (next_free (length slots) slots i) [
  | none ↦ none
  | some j ↦ deal rounds (deal_one slots j) ((j + 1) % length slots)
]

-- The requests in order, cut into parts of the sizes of the loads. `part` holds the requests of
-- routed_call. `none` is an index outside of node_loads; what is left in a part is not sent.
unfoldable pub dispatch :
    List Slot
    → List FunctionRequest
    → List FunctionRequest
    → Option (List (Text × List FunctionRequest))
dispatch slots part [] = some []
dispatch [] part (r ∷ rs) = none
dispatch (s ∷ ss) part (r ∷ rs) =
    let full = part ++ r ∷ [] in
    let next = dispatch ss [] rs in
    let more = dispatch (s ∷ ss) full rs in
    if length full == s.load
    then elim next [ none ↦ none | some parts ↦ some ((s.address, full) ∷ parts) ]
    else more

-- routed_call: the part of a call that goes to one node. Session, source and request id are not
-- copied.
abbrev pub routed_call : FunctionCall → List FunctionRequest → FunctionCall
routed_call call requests = record empty_call {
  app_name = call.app_name;
  resp_address = call.resp_address;
  sync_data_status = true;
  requests = requests;
}

-- scheduled_node_msg[node] = part, for each part.
unfoldable pub put_parts :
    FunctionCall
    → List (Text × List FunctionRequest)
    → HashMap Text FunctionCall
    → HashMap Text FunctionCall
put_parts call [] m = m
put_parts call ((ip, requests) ∷ parts) m =
    put_parts call parts (HashMap.put ip (routed_call call requests) m)

unfoldable pub split_call : FunctionCall → List (Text × ℕ) → Option (HashMap Text FunctionCall)
unfolding deal dispatch put_parts
split_call call nodes = elim (deal (length call.requests) (map new_slot nodes) 0) [
  | none ↦ none
  | some dealt ↦ elim (dispatch dealt [] call.requests) [
    | none ↦ none
    | some parts ↦ some (put_parts call parts [])
  ]
]
