-- ===== src/Coordinator/Notify.antt =====
-- notify_handler of src/coordinator/notify_handler.cpp: objects that nodes have written, and the
-- functions that they trigger. rand_r of the C library and the configured io_thread_num, which is at
-- least 1, are parameters. The triggers of one request read the clock at one time, `now`. The log
-- and the time stamps in it are left out, and so are notif_resp and kvs_error, which are not sent.
pub mod Data
pub mod Pick
pub mod Objects
pub mod Active
pub mod Slots
pub mod Executors
pub mod Worker
pub mod Busy
use spheromone.Prelude.{
  ℕ, ◌+◌, ◌^◌, ◌%◌, true, Option, none, some, List, [], ◌∷◌, ◌++◌, map, if◌then◌else◌, nat_eq, leb,
  length, take, drop,
}
use spheromone.Prelude.Int.{ℤ, pos, ltb_ℤ, pred_ℤ, uint32_of_int}
use spheromone.Text.{Text, text_eq, empty, find_char}
use spheromone.HashMap
use spheromone.HashMap.{HashMap}
use spheromone.HashSet
use spheromone.HashSet.{HashSet}
use spheromone.Common.Key.{
  BucketKey, BucketKeyAddress, get_bucket_key_from_addr, shm_key_name, get_local_object_name,
}
use spheromone.Common.Split.{terminated}
use spheromone.Trigger.Types.{Trigger, TriggerAction}
use spheromone.Trigger.Arrival.{action_for_new_object}
use spheromone.Trigger.Primitive.{kind_type}
use spheromone.Messages.{
  KeyNotifyRequest, FunctionCall, Argument, Sent, function_call, update_coord, empty_update,
  empty_entity, TriggerEntity,
}
use spheromone.Coordinator.State.{
  Coordinator, NodeStatus, no_status, update_address, get_func_exec_address, trigger_update_address,
}
use spheromone.Common.Result.{Result, ok, crash, ◌>>=◌}
use spheromone.Coordinator.TriggerOp.{triggers_of, is_by_time}
use spheromone.Coordinator.Notify.Data.{build_args, store_object}
use spheromone.Coordinator.Notify.Pick.{pick_worker, take_executor}

-- The state of the handler while it runs.
pub record Run : Type 0 where
  pub state : Coordinator
  pub seed : ℕ
  pub sent : List Sent

-- The call of one action, with its arguments: by value, as one batch, if all values are here.
abbrev pub internal_call :
    KeyNotifyRequest → BucketKey → Text → TriggerAction → List Argument → FunctionCall
internal_call r b app action args = record {
  app_name = app;
  requests = record { name = action.function; arguments = args } ∷ [];
  source = [];
  request_id = [];
  resp_address = r.response_address;
  session_id = b.session;
  sync_data_status = true;
}

abbrev pub fired_entity : BucketKey → Text → TriggerEntity
fired_entity b name = record empty_entity {
  bucket_name = b.bucket;
  trigger_name = name;
  session = b.session;
}

-- What the nodes of a bucket are told of the triggers that have fired.
unfoldable pub sync_nodes : BucketKey → List Text → Coordinator → List Sent
sync_nodes b [] c = []
sync_nodes b (name ∷ names) c =
    let msg = record empty_update {
      triggers = map (fired_entity b) (name ∷ names);
      msg_type = 1;
    } in
    map (λ ip. record { to = trigger_update_address ip; body = update_coord msg })
      (HashMap.get_or b.bucket c.bucket_node [])

module _ (rand_r : ℕ → ℕ × ℕ) (io_thread_num : ℕ) (r : KeyNotifyRequest) (now : ℕ) where
  -- The call goes to the worker, if there is one.
  unfoldable pub send_call : FunctionCall → Text → Run → Run
  unfolding take_executor
  send_call call worker run =
      let (n, next) = rand_r run.seed in
      let address = get_func_exec_address worker (n % io_thread_num) in
      if empty worker then run else record {
        state = record run.state { node_status = take_executor worker run.state.node_status };
        seed = next;
        sent = run.sent ++ record { to = address; body = function_call call } ∷ [];
      }

  unfoldable pub run_action : ℕ → BucketKey → TriggerAction → Run → Result Run
  unfolding build_args pick_worker send_call
  run_action arg_flag b action run = do
    let c = run.state
    let app = HashMap.get_or b.bucket c.bucket_app []
    let c1 = record c { bucket_app = HashMap.touch b.bucket c.bucket_app [] }
    (args, near, c2) ← build_args arg_flag b.bucket action.session_keys c1
    let (worker, nodes) = pick_worker near c2.node_status
    ok (
        send_call (internal_call r b app action args) worker
          (record run { state = record c2 { node_status = nodes } }))

  unfoldable pub run_actions : ℕ → BucketKey → List TriggerAction → Run → Result Run
  unfolding run_action
  run_actions arg_flag b [] run = ok run
  run_actions arg_flag b (action ∷ actions) run = do
    run' ← run_action arg_flag b action run
    run_actions arg_flag b actions run'

  -- The function of a timed trigger is called, but its name is not passed on.
  abbrev pub fired : Trigger → List TriggerAction → List Text
  fired t [] = []
  fired t (action ∷ actions) = if is_by_time (kind_type t.kind) then [] else t.trigger_name ∷ []

  -- An active trigger has had its effect at the node: nothing is called.
  unfoldable pub act : BucketKey → Trigger → List TriggerAction → Run → Result (List Text × Run)
  unfolding run_actions
  act b t actions run =
      let arg_flag = (uint32_of_int t.trigger_option + 1) % 2 ^ 32 in
      if HashSet.contains t.trigger_name (HashSet.insert_all r.active_trigger_names [])
      then ok ([], run)
      else run_actions arg_flag b actions run >>= (λ run'. ok (fired t actions, run'))

  -- Every trigger of the bucket takes the object. The result has the triggers' new states and the
  -- names of those that fired.
  unfoldable pub run_triggers :
      BucketKey → List Trigger → Run → Result (List Trigger × List Text × Run)
  unfolding act
  run_triggers b [] run = ok ([], [], run)
  run_triggers b (t ∷ ts) run = do
    let (actions, t') = action_for_new_object t b now
    (names, run1) ← act b t actions run
    (ts', more, run') ← run_triggers b ts run1
    ok (t' ∷ ts', names ++ more, run')

  unfoldable pub notify_object : BucketKey → Run → Result Run
  unfolding run_triggers sync_nodes
  notify_object b run = do
    (ts, names, run') ← run_triggers b (triggers_of run.state b.bucket) run
    let c = run'.state
    let c' = record c { bucket_triggers = HashMap.put b.bucket ts c.bucket_triggers }
    ok (record run' { state = c'; sent = run'.sent ++ sync_nodes b names c' })

  unfoldable pub notify_loop : List BucketKeyAddress → Run → Result Run
  unfolding notify_object store_object
  notify_loop [] run = ok run
  notify_loop (a ∷ rest) run = do
    stored ← store_object a run.state
    elim stored [
      | none ↦ ok run
      | some c ↦ do
        run' ← notify_object (get_bucket_key_from_addr a) (record run { state = c })
        notify_loop rest run'
    ]

  unfoldable pub notify_handler : Coordinator → ℕ → Result Run
  unfolding notify_loop
  notify_handler c seed = notify_loop r.addresses (record { state = c; seed = seed; sent = [] })
