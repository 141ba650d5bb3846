-- ===== src/Coordinator/Notify/Busy.antt =====
-- A notification while no executor is free (src/coordinator/notify_handler.cpp, 64-200).
use spheromone.Prelude.{
  ℕ, ◌+◌, ◌%◌, ◌^◌, ◌≡◌, refl, subst, ap, ◌∙◌, List, [], ◌∷◌, arith, nat_eq, Bool-cases,
  Option-cases, inl, inr,
}
use spheromone.Prelude.Int.{uint32_of_int}
use spheromone.Text.{Text, text_eq, empty}
use spheromone.HashMap
use spheromone.HashSet
use spheromone.HashSet.{HashSet}
use spheromone.Common.Key.{BucketKey}
use spheromone.Common.Result.{ok, Ensures, Ensures-after, Ensures->>=, Ensures-if, Ensures-map}
use spheromone.Trigger.Types.{Trigger, TriggerAction}
use spheromone.Trigger.Arrival.{action_for_new_object}
use spheromone.Messages.{KeyNotifyRequest, FunctionCall, Argument}
use spheromone.Coordinator.State.{Coordinator}
use spheromone.Coordinator.TriggerOp.{triggers_of}
use spheromone.Coordinator.Notify.Data.{build_args, all_values, reference_args}
use spheromone.Coordinator.Notify.Pick.{pick_worker}
use spheromone.Coordinator.Notify.{
  Run, internal_call, send_call, run_action, run_actions, act, run_triggers, notify_object,
}
use spheromone.Coordinator.Notify.Active.{after}
use spheromone.Coordinator.Notify.Slots.{IsValid, total}
use spheromone.Coordinator.Notify.Executors.{Accounts, calls, notify_object-Accounts}

-- The triggers, the values, the nodes of the buckets and the buckets of the applications are as before.
abbrev pub Kept : Coordinator → Coordinator → Type 0
Kept c c' =
    (c'.bucket_triggers ≡ c.bucket_triggers)
    × (c'.key_val ≡ c.key_val)
    × (c'.bucket_node ≡ c.bucket_node)
    × (c'.app_buckets ≡ c.app_buckets)

Kept-trans : (c d e : Coordinator) → Kept c d → Kept d e → Kept c e
Kept-trans c d e (t, v, n, a) (t', v', n', a') = (t' ∙ t, v' ∙ v, n' ∙ n, a' ∙ a)

abbrev KeptBuilt : Coordinator → List Argument × HashSet Text × Coordinator → Type 0
KeptBuilt c x = Kept c x.2

build_args-Kept :
    (arg_flag : ℕ) (bucket : Text) (session_keys : List (Text × Text)) (c : Coordinator)
    → Ensures (KeptBuilt c) (build_args arg_flag bucket session_keys c)
unfolding build_args
build_args-Kept arg_flag bucket session_keys c =
    elim (Option-cases (all_values bucket session_keys c.key_val)) [
      | inl e ↦
          rw (e, build_args)
            (Ensures-after (KeptBuilt c)
              (reference_args arg_flag bucket session_keys c.key_address []) _
              (λ a. (refl, refl, refl, refl)))
      | inr (values, e) ↦ rw (e, build_args) (refl, refl, refl, refl)
    ]

module _ (rand_r : ℕ → ℕ × ℕ) (io_thread_num : ℕ) (r : KeyNotifyRequest) (now : ℕ)
    (b : BucketKey) where
  abbrev KeptRun : Coordinator → Run → Type 0
  KeptRun c run = Kept c run.state

  send_call-Kept :
      (call : FunctionCall) (worker : Text) (run : Run)
      → KeptRun run.state (send_call rand_r io_thread_num r now call worker run)
  unfolding send_call
  send_call-Kept call worker run = elim (Bool-cases (empty worker)) [
    | inl e ↦ rw e (refl, refl, refl, refl)
    | inr e ↦ rw e (refl, refl, refl, refl)
  ]

  run_action-Kept :
      (arg_flag : ℕ) (action : TriggerAction) (run : Run)
      → Ensures (KeptRun run.state) (run_action rand_r io_thread_num r now arg_flag b action run)
  unfolding run_action
  run_action-Kept arg_flag action run =
      Ensures->>= (KeptBuilt run.state) (KeptRun run.state) _ _
        (build_args-Kept arg_flag b.bucket action.session_keys
          (record run.state { bucket_app = HashMap.touch b.bucket run.state.bucket_app [] }))
        (λ (x : List Argument × HashSet Text × Coordinator) same.
          let (worker, nodes) = pick_worker x.1 x.2.node_status in
          let app = HashMap.get_or b.bucket run.state.bucket_app [] in
          let call = internal_call r b app action x.0 in
          let picked = record run { state = record x.2 { node_status = nodes } } in
          Kept-trans run.state picked.state
            (send_call rand_r io_thread_num r now call worker picked).state same
            (send_call-Kept call worker picked))

  run_actions-Kept :
      (arg_flag : ℕ) (actions : List TriggerAction) (run : Run)
      → Ensures (KeptRun run.state) (run_actions rand_r io_thread_num r now arg_flag b actions run)
  unfolding run_actions
  run_actions-Kept arg_flag [] run = (refl, refl, refl, refl)
  run_actions-Kept arg_flag (action ∷ actions) run =
      Ensures->>= (KeptRun run.state) (KeptRun run.state) _ _ (run_action-Kept arg_flag action run)
        (λ (first : Run) h.
          Ensures-map (KeptRun first.state) (KeptRun run.state)
            (run_actions rand_r io_thread_num r now arg_flag b actions first)
            (λ second k. Kept-trans run.state first.state second.state h k)
            (run_actions-Kept arg_flag actions first))

  abbrev KeptNamed : Coordinator → List Text × Run → Type 0
  KeptNamed c x = Kept c x.1.state

  act-Kept :
      (t : Trigger) (actions : List TriggerAction) (run : Run)
      → Ensures (KeptNamed run.state) (act rand_r io_thread_num r now b t actions run)
  unfolding act
  act-Kept t actions run =
      let flag = (uint32_of_int t.trigger_option + 1) % 2 ^ 32 in
      Ensures-if (KeptNamed run.state)
        (HashSet.contains t.trigger_name (HashSet.insert_all r.active_trigger_names []))
        (ok ([], run)) _ (refl, refl, refl, refl)
        (Ensures->>= (KeptRun run.state) (KeptNamed run.state)
          (run_actions rand_r io_thread_num r now flag b actions run) _
          (run_actions-Kept flag actions run) (λ run' h. h))

  -- The triggers move on, and nothing else changes.
  abbrev MovesOn : List Trigger → Coordinator → List Trigger × List Text × Run → Type 0
  MovesOn ts c result = (result.0 ≡ after b now ts) × Kept c result.2.state

  run_triggers-MovesOn :
      (ts : List Trigger) (run : Run)
      → Ensures (MovesOn ts run.state) (run_triggers rand_r io_thread_num r now b ts run)
  unfolding run_triggers
  run_triggers-MovesOn [] run = (refl, (refl, refl, refl, refl))
  run_triggers-MovesOn (t ∷ ts) run =
      let (actions, t') = action_for_new_object t b now in
      Ensures->>= (KeptNamed run.state) (MovesOn (t ∷ ts) run.state)
        (act rand_r io_thread_num r now b t actions run) _ (act-Kept t actions run)
        (λ (x : List Text × Run) h.
          Ensures->>= (MovesOn ts x.1.state) (MovesOn (t ∷ ts) run.state) _ _
            (run_triggers-MovesOn ts x.1)
            (λ y (e, k). (ap (λ us. t' ∷ us) e, Kept-trans run.state x.1.state y.2.state h k)))

  -- The state with the triggers of the bucket moved on.
  abbrev pub TriggersMoveOn : Run → Run → Type 0
  TriggersMoveOn run run' =
      Kept
        (record run.state {
          bucket_triggers =
              HashMap.put b.bucket (after b now (triggers_of run.state b.bucket))
                run.state.bucket_triggers;
        })
        run'.state

  notify_object-TriggersMoveOn :
      (run : Run) → Ensures (TriggersMoveOn run) (notify_object rand_r io_thread_num r now b run)
  unfolding notify_object
  notify_object-TriggersMoveOn run =
      Ensures->>= (MovesOn (triggers_of run.state b.bucket) run.state) (TriggersMoveOn run) _ _
        (run_triggers-MovesOn (triggers_of run.state b.bucket) run)
        (λ x (e, (t, v, n, a)). (cc (e, t), v, n, a))

  -- While no executor is free, and nothing was called before, an object that is handled without
  -- failing calls nothing. Every trigger of its bucket moves on as ever, those that fire included;
  -- the triggers of the other buckets, the values, the nodes of the buckets and the buckets of the
  -- applications stay as they were, so that none of these holds what the triggers asked for. The
  -- nodes' map has no node twice and no negative number of free executors.
  pub busy_notification_loses_calls :
      (run run' : Run)
      → IsValid run.state.node_status
      → total run.state.node_status ≡ 0
      → calls run.sent ≡ 0
      → notify_object rand_r io_thread_num r now b run ≡ ok run'
      → (calls run'.sent ≡ 0)
        × (run'.state.bucket_triggers
            ≡ HashMap.put b.bucket
                (after b now (triggers_of run.state b.bucket))
                run.state.bucket_triggers)
        × (run'.state.key_val ≡ run.state.key_val)
        × (run'.state.bucket_node ≡ run.state.bucket_node)
        × (run'.state.app_buckets ≡ run.state.app_buckets)
  busy_notification_loses_calls run run' v none_free no_calls e =
      let accounts : Accounts 0 run' =
        subst (Ensures (Accounts 0)) e
          (notify_object-Accounts rand_r io_thread_num r now 0 b run (v, omega arith)) in
      let (triggers, values, nodes, buckets) =
        subst (Ensures (TriggersMoveOn run)) e (notify_object-TriggersMoveOn run) in
      (omega (arith, accounts.1), triggers, values, nodes, buckets)
