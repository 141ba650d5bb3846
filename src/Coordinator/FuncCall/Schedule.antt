-- ===== src/Coordinator/FuncCall/Schedule.antt =====
-- Which nodes func_call_handler (src/coordinator/func_call_handler.cpp) picks for a call.
use spheromone.Prelude.{
  suc, ℕ, ◌%◌, ◌<◌, ◌≤◌, ◌≡◌, refl, ap, ◌∙◌, ◌⊎◌, inl, inr, List, [], ◌∷◌, ◌++◌, map, arith, length,
  ltb, leb, get_elem?-total, Bool-cases, some,
}
use spheromone.Text.{Text}
use spheromone.HashMap.{HashMap}
use spheromone.Messages.{FunctionCall, FunctionRequest, Body, Sent, function_call}
use spheromone.Coordinator.State.{NodeStatus}
use spheromone.Common.Result.{ok}
use spheromone.Coordinator.Call.{survey, no_nodes, split_call}
use spheromone.Coordinator.Call.Dispatch.{all_requests, Part}
use spheromone.Coordinator.Call.Schedule.{Distinct, route, split_call-Within}
use spheromone.Coordinator.Call.Capacity.{capacity, survey-total}
use spheromone.Coordinator.FuncCall.{with_session, any_node, schedule, send_calls, no_worker}

abbrev pub requests_in : Body → List FunctionRequest
requests_in (function_call call) = call.requests
requests_in other = []

-- The requests that the sent messages carry to the nodes, in order.
unfoldable pub sent_requests : List Sent → List FunctionRequest
sent_requests [] = []
sent_requests (s ∷ ss) = requests_in s.body ++ sent_requests ss

unfoldable pub requests_of : HashMap Text FunctionCall → List FunctionRequest
requests_of [] = []
requests_of (m ∷ ms) = m.1.requests ++ requests_of ms

append_nil : (xs : List FunctionRequest) → xs ++ [] ≡ xs
append_nil [] = refl
append_nil (x ∷ xs) = ap (λ r. x ∷ r) (append_nil xs)

pub requests_of-route :
    (call : FunctionCall) (ps : List Part) → requests_of (map (route call) ps) ≡ all_requests ps
unfolding requests_of all_requests
requests_of-route call [] = refl
requests_of-route call (p ∷ ps) = ap (λ r. p.1 ++ r) (requests_of-route call ps)

some_parts :
    (ps : List Part) (call : FunctionCall)
    → 0 < length (all_requests ps)
    → 0 < length (map (route call) ps)
unfolding all_requests
some_parts [] call h = h
some_parts (p ∷ ps) call h = omega arith

mod_bound : (i n : ℕ) → 0 < n → i % n < n
mod_bound i n h = grind arith

module _ (rand_r : ℕ → ℕ × ℕ) where
  pub with_session-same :
      (msg : FunctionCall) (seed : ℕ)
      → ((with_session rand_r msg seed).0.requests ≡ msg.requests)
        × ((with_session rand_r msg seed).0.source ≡ msg.source)
        × (no_worker rand_r (with_session rand_r msg seed).0 ≡ no_worker rand_r msg)
  unfolding with_session no_worker
  with_session-same msg seed = ground arith

  pub send_calls-requests :
      (io_thread_num : ℕ) (m : HashMap Text FunctionCall) (seed : ℕ)
      → (sent_requests (send_calls rand_r io_thread_num m seed).0 ≡ requests_of m)
        × (length (send_calls rand_r io_thread_num m seed).0 ≡ length m)
  unfolding sent_requests send_calls requests_of
  send_calls-requests io_thread_num [] seed = (refl, refl)
  send_calls-requests io_thread_num ((ip, call) ∷ m) seed =
      let (a, b) = send_calls-requests io_thread_num m (rand_r seed).1 in
      (ap (λ r. call.requests ++ r) a, ap suc b)

  -- What a message may need of the nodes: an executor of another node for each request of a batch,
  -- or any node for a single request.
  abbrev pub CanRun : HashMap Text NodeStatus → FunctionCall → Type 0
  CanRun nodes call =
      ((1 < length call.requests) × (length call.requests ≤ capacity call.source nodes))
      ⊎ ((length call.requests ≤ 1) × (0 < length nodes))

  abbrev pub Scheduled : HashMap Text NodeStatus → FunctionCall → ℕ → Type 0
  Scheduled nodes call seed =
      (m : HashMap Text FunctionCall) × (next : ℕ) × (schedule rand_r nodes call seed
        ≡ ok (m, next))
      × (requests_of m ≡ call.requests)
      × (0 < length m)

  module _ (nodes : HashMap Text NodeStatus) (call : FunctionCall) (seed : ℕ) where
    to_best :
        (length call.requests ≤ (survey call.source nodes no_nodes).max_executors)
        → (0 < (survey call.source nodes no_nodes).max_executors)
        → schedule rand_r nodes call seed
          ≡ ok (((survey call.source nodes no_nodes).best_node, call) ∷ [], seed)
    unfolding schedule
    to_best h k = ground arith

    to_split :
        (m : HashMap Text FunctionCall)
        → 1 < length call.requests
        → (survey call.source nodes no_nodes).max_executors < length call.requests
        → length call.requests ≤ (survey call.source nodes no_nodes).total
        → split_call call (survey call.source nodes no_nodes).avail_nodes ≡ some m
        → schedule rand_r nodes call seed ≡ ok (m, seed)
    unfolding schedule
    to_split m a b c e = ground arith

    to_none :
        1 < length call.requests
        → (survey call.source nodes no_nodes).max_executors < length call.requests
        → (survey call.source nodes no_nodes).total < length call.requests
        → schedule rand_r nodes call seed ≡ ok ([], seed)
    unfolding schedule
    to_none a b c = ground arith

    to_any :
        length call.requests ≤ 1
        → (survey call.source nodes no_nodes).max_executors ≡ 0
        → schedule rand_r nodes call seed ≡ ok (any_node rand_r nodes call seed)
    unfolding schedule
    to_any a b = ground arith

    pub schedule-split :
        Distinct nodes
        → 1 < length call.requests
        → (survey call.source nodes no_nodes).max_executors < length call.requests
        → length call.requests ≤ capacity call.source nodes
        → (parts : List Part) × (schedule rand_r nodes call seed
            ≡ ok (map (route call) parts, seed))
          × (all_requests parts ≡ call.requests)
          × (0 < length (map (route call) parts))
    schedule-split d a b c =
        let s = survey call.source nodes no_nodes in
        let ((t, free, distinct, m), total) = survey-total call.source nodes d in
        let (parts, e, all, within) =
          split_call-Within call s.avail_nodes (omega arith) (omega arith) free distinct in
        let some_request : 0 < length (all_requests parts) = rw all (omega arith) in
        (
          parts,
          to_split (map (route call) parts) a b (omega arith) e,
          all,
          some_parts parts call some_request,
        )

  any_node-some :
      (nodes : HashMap Text NodeStatus) (call : FunctionCall) (seed : ℕ)
      → 0 < length nodes
      → (ip : Text) × (any_node rand_r nodes call seed ≡ ((ip, call) ∷ [], (rand_r seed).1))
  unfolding any_node
  any_node-some [] call seed h = absurd (omega arith)
  any_node-some (n ∷ ns) call seed h =
      let (node, e) =
        get_elem?-total (n ∷ ns) ((rand_r seed).0 % length (n ∷ ns))
          (mod_bound (rand_r seed).0 (length (n ∷ ns)) h) in
      (node.0, ground arith)

  pub schedule-Scheduled :
      (nodes : HashMap Text NodeStatus) (call : FunctionCall) (seed : ℕ)
      → Distinct nodes
      → CanRun nodes call
      → Scheduled nodes call seed
  unfolding requests_of
  schedule-Scheduled nodes call seed d (inl (a, b)) =
      let s = survey call.source nodes no_nodes in
      elim (Bool-cases (leb (length call.requests) s.max_executors)) [
        | inl h ↦ (
          (s.best_node, call) ∷ [],
          seed,
          to_best nodes call seed (ground arith) (ground arith),
          append_nil call.requests,
          omega arith,
        )
        | inr h ↦
            let (parts, e, all, c) = schedule-split nodes call seed d a (ground arith) b in
            (map (route call) parts, seed, e, requests_of-route call parts ∙ all, c)
      ]
  schedule-Scheduled nodes call seed d (inr (a, b)) =
      let s = survey call.source nodes no_nodes in
      elim (Bool-cases (ltb 0 s.max_executors)) [
        | inl h ↦ (
          (s.best_node, call) ∷ [],
          seed,
          to_best nodes call seed (ground arith) (ground arith),
          append_nil call.requests,
          omega arith,
        )
        | inr h ↦
            let (ip, e) = any_node-some nodes call seed b in
            (
              (ip, call) ∷ [],
              (rand_r seed).1,
              to_any nodes call seed a (ground arith) ∙ ap ok e,
              append_nil call.requests,
              omega arith,
            )
      ]

  -- A batch with more requests than the other nodes have free executors, or a single request when
  -- no node is known.
  abbrev pub Lacks : HashMap Text NodeStatus → FunctionCall → Type 0
  Lacks nodes call =
      ((1 < length call.requests) × (capacity call.source nodes < length call.requests))
      ⊎ ((length call.requests ≤ 1) × (length nodes ≡ 0))

  pub schedule-Lacks :
      (nodes : HashMap Text NodeStatus) (call : FunctionCall) (seed : ℕ)
      → Distinct nodes
      → Lacks nodes call
      → schedule rand_r nodes call seed ≡ ok ([], seed)
  unfolding any_node survey
  schedule-Lacks nodes call seed d (inl (a, b)) =
      let ((t, free, distinct, m), total) = survey-total call.source nodes d in
      to_none nodes call seed a (omega arith) (omega arith)
  schedule-Lacks [] call seed d (inr (a, b)) = to_any [] call seed a refl
  schedule-Lacks (n ∷ ns) call seed d (inr (a, b)) = absurd (omega arith)
