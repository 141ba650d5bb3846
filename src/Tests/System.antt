-- ===== src/Tests/System.antt =====
-- A coordinator and a node together at concrete inputs.
use spheromone.Prelude.{◌≡◌, refl, true, [], ◌∷◌, arith, inl}
use spheromone.Text.{Text, text, text_eq, to_string}
use spheromone.HashMap
use spheromone.HashMap.{HashMap}
use spheromone.HashSet
use spheromone.Common.Key.{BucketKeyAddress, get_bucket_key_from_addr}
use spheromone.Common.Result.{ok}
use spheromone.Messages.{KeyNotifyRequest, Sent, UpdateCoordMsg, update_coord}
use spheromone.Coordinator.State.{Coordinator, broadcast, initial, no_status}
use spheromone.Trigger.Types.{Trigger}
use spheromone.Trigger.Primitive.{kind_type, new_set_trigger}
use spheromone.Coordinator.Register.{own, app_register_handler}
use spheromone.Coordinator.TriggerOp.{triggers_of}
use spheromone.Coordinator.Notify.{Run, notify_handler}
use spheromone.Scheduler.Agreement.{asked_for, func_names}
use spheromone.Scheduler.Arrival.{check_object_arrival}
use spheromone.Scheduler.State.{Node}
use spheromone.Scheduler.Update.{handle_update}
use spheromone.System.Entities.{NodeAgrees}
use spheromone.System.Registration.{registration_agrees}
use spheromone.System.Notification.{object_handled_once}
use spheromone.System.Steps.{here, next, registers, triggers_stay_the_same}
use spheromone.Tests.Nodes.{node, rand}
use spheromone.Tests.Notify.{app, put_k}
use spheromone.Tests.Wire.{wire}

abbrev join_trigger : Trigger
join_trigger =
    new_set_trigger (text "g") (text "t_1_g") (HashSet.insert_all (text "k_f" ∷ text "k_e" ∷ []) [])

abbrev one_node : Coordinator
one_node = record initial { node_status = (text "10.0.0.1", no_status) ∷ [] }

at_first : NodeAgrees one_node node
unfolding HashMap.get_or HashMap.find HashSet.contains
at_first = record { same = λ b. tt; distinct = λ b. tt; apart = λ b other q e h. refl }

-- The application is registered, and the node reads the message.
registered :
    (c : Coordinator) × (to : Text) × (msg : UpdateCoordMsg) × (n : Node) × (app_register_handler
        wire app
        (text "ip")
        0
        9
        one_node
      ≡ ok (c, record { to = to; body = update_coord msg } ∷ []))
    × (handle_update wire msg 12 node ≡ ok n)
    × (triggers_of c (text "b_g") ≡ join_trigger ∷ [])
    × (HashMap.has (text "b_g") c.bucket_app ≡ true)
unfolding app_register_handler broadcast handle_update HashSet.insert_all HashMap.has HashMap.get_or
    HashMap.put HashMap.find own to_string
registered = (_, _, _, _, refl, refl, refl, refl)

abbrev with_app : Coordinator
with_app = registered.0

abbrev message : Sent
message = record { to = registered.1; body = update_coord registered.2 }

registration_agrees_example :
    (c : Coordinator) × (msg : UpdateCoordMsg) × (n : Node) × (app_register_handler wire app
        (text "ip")
        0
        9
        one_node
      ≡ ok (c, broadcast msg c.node_status))
    × (handle_update wire msg 12 node ≡ ok n)
    × NodeAgrees c n
registration_agrees_example =
    registration_agrees wire app (text "ip") 0 9 12 one_node node at_first (inl refl, tt)
      (((text "g", [], refl), tt), tt)

abbrev with_triggers : Node
with_triggers = registered.3

triggers_stay_the_same_example : NodeAgrees with_app with_triggers
triggers_stay_the_same_example = triggers_stay_the_same wire rand 3 at_first (
    next here (
      registers app (text "ip") 0 9 12 message [] registered.2 (inl refl, tt) registered.4 refl
        registered.5))

-- The result of f, an object of the bucket of g.
abbrev k_f : BucketKeyAddress
k_f = record put_k { bucket = text "b_g"; key = text "k_f" }

abbrev notify_f : KeyNotifyRequest
notify_f = record {
  addresses = k_f ∷ [];
  active_trigger_names = (check_object_arrival (get_bucket_key_from_addr k_f) 20 with_triggers).0;
  request_id = [];
  response_address = [];
}

object_handled_once_example :
    let key = get_bucket_key_from_addr k_f in
    let arrived = check_object_arrival key 20 with_triggers in
    (func_names arrived.1 ≡ asked_for key 20 (triggers_of with_app (text "b_g")))
    × (run : Run) × (notify_handler rand 3 notify_f 30 with_app 0 ≡ ok run)
    × (run.sent ≡ [])
    × (run.state.node_status ≡ with_app.node_status)
    × NodeAgrees run.state arrived.2
object_handled_once_example =
    object_handled_once rand 3 notify_f 30 0 k_f 20 with_app with_triggers
      (text "tcp://10.0.0.1:4300") [] triggers_stay_the_same_example
      (rw registered.6 (unfold kind_type in (refl, tt))) registered.7 refl refl (omega arith) refl
