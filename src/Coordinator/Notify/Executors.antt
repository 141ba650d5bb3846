-- ===== src/Coordinator/Notify/Executors.antt =====
-- The executors that notify_handler takes for the calls that it sends
-- (src/coordinator/notify_handler.cpp).
use spheromone.Prelude.{
  suc, ℕ, ◌+◌, ◌≡◌, refl, Bool-cases, inl, inr, Option-cases, Option, none, some, List, [], ◌∷◌,
  ◌++◌, arith, map, nat_eq, ◌%◌, ◌^◌, ap, subst, sym, List-cases, suc,
}
use spheromone.Text.{Text, text_eq, empty}
use spheromone.HashMap
use spheromone.HashMap.{HashMap}
use spheromone.HashSet
use spheromone.HashSet.{HashSet}
use spheromone.Prelude.Int.{uint32_of_int}
use spheromone.Common.Key.{BucketKey, BucketKeyAddress, get_bucket_key_from_addr}
use spheromone.Common.Result.{ok, ◌>>=◌, Ensures, Ensures->>=, Ensures-if, Ensures-anything}
use spheromone.Trigger.Arrival.{action_for_new_object}
use spheromone.Trigger.Types.{Trigger, TriggerAction}
use spheromone.Messages.{
  UpdateCoordMsg, KeyNotifyRequest, FunctionCall, Argument, Sent, function_call,
}
use spheromone.Coordinator.State.{Coordinator, trigger_update_address, get_func_exec_address}
use spheromone.Coordinator.Notify.Data.{
  node_ip, locate, all_values, reference_args, store_object, build_args,
}
use spheromone.Coordinator.Notify.Pick.{pick_worker}
use spheromone.Coordinator.Notify.{
  update_coord, Run, send_call, run_action, run_actions, act, run_triggers, notify_object,
  notify_loop, notify_handler, sync_nodes, fired,
}
use spheromone.Coordinator.TriggerOp.{triggers_of}
use spheromone.Coordinator.Notify.Slots.{
  IsValid, total, CanTake, pick_worker-CanTake, take_executor-total,
}

-- The function calls among messages.
unfoldable pub calls : List Sent → ℕ
calls [] = 0
calls (s ∷ sent) = elim s.body [ function_call c ↦ suc (calls sent) | _ ↦ calls sent ]

calls-append : (xs ys : List Sent) → calls (xs ++ ys) ≡ calls xs + calls ys
unfolding calls
calls-append [] ys = omega arith
calls-append (x ∷ xs) ys = ground (arith, calls-append xs ys)

calls-snoc :
    (sent : List Sent) (to : Text) (call : FunctionCall)
    → calls (sent ++ record { to = to; body = function_call call } ∷ []) ≡ calls sent + 1
unfolding calls
calls-snoc sent to call = calls-append sent (record { to = to; body = function_call call } ∷ [])

calls-updates :
    (msg : UpdateCoordMsg) (ips : List Text)
    → calls (map (λ ip. record { to = trigger_update_address ip; body = update_coord msg }) ips) ≡ 0
unfolding calls
calls-updates msg [] = refl
calls-updates msg (ip ∷ ips) = calls-updates msg ips

calls-sync_nodes :
    (b : BucketKey) (names : List Text) (c : Coordinator) → calls (sync_nodes b names c) ≡ 0
unfolding sync_nodes
calls-sync_nodes b [] c = unfold calls in refl
calls-sync_nodes b (name ∷ names) c = calls-updates _ (HashMap.get_or b.bucket c.bucket_node [])

-- The map of nodes is valid, and the free executors and the calls sent make up `k`.
abbrev pub Accounts : ℕ → Run → Type 0
Accounts k run = IsValid run.state.node_status × (total run.state.node_status + calls run.sent ≡ k)

abbrev SameNodes : Coordinator → Coordinator → Type 0
SameNodes c c' = c'.node_status ≡ c.node_status

locate-nodes :
    (b : BucketKey) (address : Text) (c : Coordinator) → Ensures (SameNodes c) (locate b address c)
unfolding locate
locate-nodes b address c =
    Ensures->>= (λ (node : Text). Unit {0}) (SameNodes c) (node_ip address) _
      (Ensures-anything (node_ip address)) (λ node h. refl)

abbrev SameStored : Coordinator → Option Coordinator → Type 0
SameStored c none = Unit
SameStored c (some c') = SameNodes c c'

store_object-nodes :
    (a : BucketKeyAddress) (c : Coordinator) → Ensures (SameStored c) (store_object a c)
unfolding store_object
store_object-nodes a c = elim (List-cases a.ips) [
  | inl e ↦ rw (e, store_object) tt
  | inr (address, rest, e) ↦
      let b = get_bucket_key_from_addr a in
      let placed = locate-nodes b address c in
      rw (e, store_object)
        (Ensures-if (SameStored c) (empty a.payload) _ _
          (Ensures-if (SameStored c) (HashMap.has b.bucket c.bucket_app) _ _
            (Ensures->>= (SameNodes c) (SameStored c) (locate b address c) _ placed (λ c' h. h)) tt)
          (Ensures->>= (SameNodes c) (SameStored c) (locate b address c) _ placed (λ c' h. h)))
]

abbrev SameBuilt : Coordinator → List Argument × HashSet Text × Coordinator → Type 0
SameBuilt c x = SameNodes c x.2

build_args-nodes :
    (arg_flag : ℕ) (bucket : Text) (session_keys : List (Text × Text)) (c : Coordinator)
    → Ensures (SameBuilt c) (build_args arg_flag bucket session_keys c)
unfolding build_args
build_args-nodes arg_flag bucket session_keys c =
    let args = reference_args arg_flag bucket session_keys c.key_address [] in
    elim (Option-cases (all_values bucket session_keys c.key_val)) [
      | inl e ↦
          rw (e, build_args)
            (Ensures->>= (λ a. Unit {0}) (SameBuilt c) args _ (Ensures-anything args) (λ a h. refl))
      | inr (values, e) ↦ rw (e, build_args) refl
    ]

module _ (rand_r : ℕ → ℕ × ℕ) (io_thread_num : ℕ) (r : KeyNotifyRequest) (now k : ℕ) where
  send_call-Accounts :
      (call : FunctionCall) (worker : Text) (run : Run)
      → CanTake run.state.node_status worker
      → Accounts k run
      → Accounts k (send_call rand_r io_thread_num r now call worker run)
  unfolding send_call
  send_call-Accounts call worker run w h = elim (Bool-cases (empty worker)) [
    | inl e ↦ rw e h
    | inr e ↦
        let (v, taken) = take_executor-total worker run.state.node_status h.0 w e in
        rw e (
          v,
          omega (
            arith,
            taken,
            h.1,
            calls-snoc run.sent (get_func_exec_address worker ((rand_r run.seed).0 % io_thread_num))
                call,
          ),
        )
  ]

  run_action-Accounts :
      (arg_flag : ℕ) (b : BucketKey) (action : TriggerAction) (run : Run)
      → Accounts k run
      → Ensures (Accounts k) (run_action rand_r io_thread_num r now arg_flag b action run)
  unfolding run_action
  run_action-Accounts arg_flag b action run h =
      Ensures->>= (SameBuilt run.state) (Accounts k) _ _
        (build_args-nodes arg_flag b.bucket action.session_keys
          (record run.state { bucket_app = HashMap.touch b.bucket run.state.bucket_app [] }))
        (λ (x : List Argument × HashSet Text × Coordinator) same.
          let (v, kept, w) =
            pick_worker-CanTake x.1 x.2.node_status (subst IsValid (sym same) h.0) in
          send_call-Accounts _ (pick_worker x.1 x.2.node_status).0 _ w
            (v, omega (arith, kept, h.1, ap total same)))

  run_actions-Accounts :
      (arg_flag : ℕ) (b : BucketKey) (actions : List TriggerAction) (run : Run)
      → Accounts k run
      → Ensures (Accounts k) (run_actions rand_r io_thread_num r now arg_flag b actions run)
  unfolding run_actions
  run_actions-Accounts arg_flag b [] run h = h
  run_actions-Accounts arg_flag b (action ∷ actions) run h =
      Ensures->>= (Accounts k) (Accounts k) _ _ (run_action-Accounts arg_flag b action run h)
        (λ run' h'. run_actions-Accounts arg_flag b actions run' h')

  abbrev NamedAccounts : List Text × Run → Type 0
  NamedAccounts x = Accounts k x.1

  act-Accounts :
      (b : BucketKey) (t : Trigger) (actions : List TriggerAction) (run : Run)
      → Accounts k run
      → Ensures NamedAccounts (act rand_r io_thread_num r now b t actions run)
  unfolding act
  act-Accounts b t actions run h =
      let flag = (uint32_of_int t.trigger_option + 1) % 2 ^ 32 in
      let active = HashSet.insert_all r.active_trigger_names [] in
      Ensures-if NamedAccounts (HashSet.contains t.trigger_name active) (ok ([], run))
        (run_actions rand_r io_thread_num r now flag b actions run
          >>= (λ run'. ok (fired rand_r io_thread_num r now t actions, run')))
        h
        (Ensures->>= (Accounts k) NamedAccounts _ _ (run_actions-Accounts flag b actions run h)
          (λ run' h'. h'))

  abbrev AllAccounts : List Trigger × List Text × Run → Type 0
  AllAccounts x = Accounts k x.2

  run_triggers-Accounts :
      (b : BucketKey) (ts : List Trigger) (run : Run)
      → Accounts k run
      → Ensures AllAccounts (run_triggers rand_r io_thread_num r now b ts run)
  unfolding run_triggers
  run_triggers-Accounts b [] run h = h
  run_triggers-Accounts b (t ∷ ts) run h =
      let (actions, t') = action_for_new_object t b now in
      Ensures->>= NamedAccounts AllAccounts _ _ (act-Accounts b t actions run h) (λ x h1.
        Ensures->>= AllAccounts AllAccounts _ (λ y. ok (t' ∷ y.0, x.0 ++ y.1, y.2))
          (run_triggers-Accounts b ts x.1 h1) (λ y h2. h2))

  -- The new states of the triggers are stored, and the nodes are told.
  abbrev synced : BucketKey → List Trigger × List Text × Run → Run
  synced b (ts, names, run) =
      let c = record run.state {
        bucket_triggers = HashMap.put b.bucket ts run.state.bucket_triggers;
      } in
      record run { state = c; sent = run.sent ++ sync_nodes b names c }

  pub notify_object-Accounts :
      (b : BucketKey) (run : Run)
      → Accounts k run
      → Ensures (Accounts k) (notify_object rand_r io_thread_num r now b run)
  unfolding notify_object
  notify_object-Accounts b run h =
      Ensures->>= AllAccounts (Accounts k) _ (λ x. ok (synced b x))
        (run_triggers-Accounts b (triggers_of run.state b.bucket) run h)
        (λ x h'. (
          h'.0,
          omega (
            arith,
            h'.1,
            calls-append x.2.sent (sync_nodes b x.1 (synced b x).state),
            calls-sync_nodes b x.1 (synced b x).state,
          ),
        ))

  notify_loop-Accounts :
      (objects : List BucketKeyAddress) (run : Run)
      → Accounts k run
      → Ensures (Accounts k) (notify_loop rand_r io_thread_num r now objects run)
  unfolding notify_loop
  notify_loop-Accounts [] run h = h
  notify_loop-Accounts (a ∷ objects) run h =
      Ensures->>= (SameStored run.state) (Accounts k) _ _ (store_object-nodes a run.state)
        (λ o same. elim (Option-cases o) [
          | inl e ↦ rw e h
          | inr (c, e) ↦
              let kept : SameNodes run.state c = subst (SameStored run.state) e same in
              rw e (
                Ensures->>= (Accounts k) (Accounts k) _ _
                  (notify_object-Accounts (get_bucket_key_from_addr a) (record run { state = c })
                    (subst IsValid (sym kept) h.0, omega (arith, h.1, ap total kept)))
                  (λ run' h'. notify_loop-Accounts objects run' h'))
        ])

-- The nodes' map has no node twice and no negative number of free executors. When the handler
-- succeeds, that is so again, and each function call that it sends has taken one free executor: the
-- free executors after it and the calls together are the free executors before it.
pub notify_handler_takes_executors :
    (rand_r : ℕ → ℕ × ℕ) (io_thread_num : ℕ) (r : KeyNotifyRequest) (now : ℕ) (c : Coordinator)
    (seed : ℕ) (run : Run)
    → IsValid c.node_status
    → notify_handler rand_r io_thread_num r now c seed ≡ ok run
    → IsValid run.state.node_status
      × (total run.state.node_status + calls run.sent ≡ total c.node_status)
unfolding notify_handler
notify_handler_takes_executors rand_r io_thread_num r now c seed run v e =
    subst (Ensures (Accounts (total c.node_status))) e (
      notify_loop-Accounts rand_r io_thread_num r now (total c.node_status) r.addresses
        (record { state = c; seed = seed; sent = [] }) (v, unfold calls in (omega arith)))
