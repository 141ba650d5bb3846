-- ===== src/Tests/Notify.antt =====
-- Notifications and registrations at a coordinator at concrete inputs.
use spheromone.Prelude.{◌+◌, ◌≡◌, ◌↔◌, refl, some, [], ◌∷◌, if◌then◌else◌}
use spheromone.Prelude.Int.{pos}
use spheromone.Text.{Text, text, text_eq, empty, find_char}
use spheromone.HashMap
use spheromone.HashMap.{HashMap}
use spheromone.HashSet
use spheromone.Common.Key.{
  get_local_object_name, get_bucket_key_from_addr, shm_key_name, BucketKey, BucketKeyAddress,
}
use spheromone.Common.Result.{ok}
use spheromone.Trigger.Types.{Trigger}
use spheromone.Trigger.Arrival.{action_for_new_object, by_batch_arrival}
use spheromone.Trigger.Primitive.{kind_type, new_batch}
use spheromone.Messages.{AppRegistration, DataDependency, KeyNotifyRequest, many_to_one}
use spheromone.Coordinator.State.{Coordinator, NodeStatus, broadcast, initial, no_status}
use spheromone.Coordinator.Bucket.{OwnersAgree}
use spheromone.Coordinator.Notify.Pick.{pick_worker}
use spheromone.Coordinator.Notify.{Run, notify_handler, notify_object, sync_nodes}
use spheromone.Coordinator.Notify.Active.{after}
use spheromone.Coordinator.Notify.Busy.{busy_notification_loses_calls}
use spheromone.Coordinator.Notify.Executors.{calls, notify_handler_takes_executors}
use spheromone.Coordinator.Notify.Slots.{IsValid, total}
use spheromone.Coordinator.Notify.Worker.{Chosen, pick_worker-Chosen}
use spheromone.Coordinator.Register.Owners.{AreFree, takes, app_register_handler-OwnersAgree}
use spheromone.Coordinator.Register.{app_register_handler}
use spheromone.Coordinator.TriggerOp.{triggers_of}
use spheromone.Tests.Nodes.{rand}
use spheromone.Tests.Wire.{wire}

-- A trigger that fires for every object.
abbrev pub each : Trigger
each = record {
  target_function = text "f";
  trigger_name = text "t";
  trigger_option = pos 0;
  kind = new_batch (pos 1);
}

abbrev free_node : HashMap Text NodeStatus
free_node = (text "10.0.0.1", record no_status { avail_executors = pos 2 }) ∷ []

abbrev pub with_each : Coordinator
with_each = record initial {
  bucket_app = (text "b", text "app") ∷ [];
  bucket_triggers = (text "b", each ∷ []) ∷ [];
}

abbrev ready : Coordinator
ready = record with_each { node_status = free_node }

abbrev pub put_k : BucketKeyAddress
put_k = record {
  bucket = text "b";
  key = text "k";
  session = text "s";
  ips = text "tcp://10.0.0.1:4300" ∷ [];
  payload = text "v";
}

abbrev notify_k : KeyNotifyRequest
notify_k = record {
  addresses = put_k ∷ [];
  active_trigger_names = [];
  request_id = [];
  response_address = [];
}

notify_runs :
    (run : Run) × (notify_handler rand 3 notify_k 5 ready 0 ≡ ok run) × (calls run.sent ≡ 1)
unfolding notify_handler HashMap.has calls HashMap.get_or HashMap.find HashMap.put HashMap.touch
    HashSet.contains HashSet.insert HashSet.insert_all action_for_new_object by_batch_arrival empty
    get_local_object_name find_char get_bucket_key_from_addr shm_key_name sync_nodes kind_type
notify_runs = (_, refl, refl)

notify_handler_takes_executors_example :
    let run = notify_runs.0 in
    IsValid run.state.node_status × (total run.state.node_status + calls run.sent ≡ total free_node)
notify_handler_takes_executors_example =
    notify_handler_takes_executors rand 3 notify_k 5 ready 0 notify_runs.0
      (refl, unfold HashMap.find in refl, tt) notify_runs.1

pick_worker-Chosen_example :
    Chosen free_node (text "10.0.0.1" ∷ []) (pick_worker (text "10.0.0.1" ∷ []) free_node).0
pick_worker-Chosen_example =
    pick_worker-Chosen (text "10.0.0.1" ∷ []) free_node (refl, unfold HashMap.find in refl, tt)
      (unfold HashSet.contains in refl)

abbrev key_b : BucketKey
key_b = record { bucket = text "b"; key = text "k"; session = text "s" }

-- The object is here, and no node is.
abbrev stored : Coordinator
stored = record with_each { key_val = (text "b|ks", text "v") ∷ [] }

abbrev idle : Run
idle = record { state = stored; seed = 0; sent = [] }

busy_runs : (run : Run) × (notify_object rand 3 notify_k 5 key_b idle ≡ ok run)
unfolding notify_object HashMap.get_or HashMap.find HashMap.put HashMap.touch HashSet.contains
    HashSet.insert HashSet.insert_all action_for_new_object by_batch_arrival empty
    get_local_object_name find_char get_bucket_key_from_addr shm_key_name sync_nodes kind_type
busy_runs = (_, refl)

busy_notification_loses_calls_example :
    let run = busy_runs.0 in
    (calls run.sent ≡ 0)
    × (run.state.bucket_triggers
        ≡ HashMap.put
            (text "b")
            (after key_b 5 (triggers_of stored (text "b")))
            stored.bucket_triggers)
    × (run.state.key_val ≡ stored.key_val)
    × (run.state.bucket_node ≡ stored.bucket_node)
    × (run.state.app_buckets ≡ stored.app_buckets)
busy_notification_loses_calls_example =
    busy_notification_loses_calls rand 3 notify_k 5 key_b idle busy_runs.0 tt (unfold total in refl)
      (unfold calls in refl) busy_runs.1

-- g waits for the results of f and e.
abbrev pub join : DataDependency
join = record {
  type = many_to_one;
  src_functions = text "f" ∷ text "e" ∷ [];
  tgt_functions = text "g" ∷ [];
  description = [];
}

abbrev pub app : AppRegistration
app = record {
  app_name = text "app";
  functions = text "f" ∷ text "e" ∷ text "g" ∷ [];
  dependencies = join ∷ [];
}

initial-OwnersAgree : OwnersAgree initial
unfolding HashSet.contains HashMap.get_or HashMap.find
initial-OwnersAgree b a = ((λ p. cc), λ p. cc)

app_registers :
    (c : Coordinator) × (app_register_handler wire app (text "ip") 0 9 initial ≡ ok (c, []))
unfolding app_register_handler broadcast
app_registers = (_, refl)

app_register_handler-OwnersAgree_example :
    let c = app_registers.0 in
    ((b : Text)
      → HashMap.find b c.bucket_app ≡ (
          if HashSet.contains b (takes (join ∷ []))
          then some (text "app")
          else HashMap.find b initial.bucket_app))
    × (OwnersAgree c ↔ AreFree (text "app") (takes (join ∷ [])) initial)
app_register_handler-OwnersAgree_example =
    app_register_handler-OwnersAgree wire app (text "ip") 0 9 initial app_registers.0 []
      initial-OwnersAgree app_registers.1
