-- ===== src/System/Notification.antt =====
-- The notification of one object, from its arrival at a node to the end of the handler of the
-- coordinator (src/coordinator/notify_handler.cpp).
use spheromone.Prelude.{ℕ, ◌≤◌, ◌≡◌, refl, sym, subst, ap, true, List, [], ◌∷◌, All, length, nat_eq}
use spheromone.Text.{Text, text_eq}
use spheromone.HashMap
use spheromone.HashMap.{HashMap}
use spheromone.Common.Key.{BucketKey, BucketKeyAddress, get_bucket_key_from_addr}
use spheromone.Common.Result.{ok, ◌>>=◌}
use spheromone.Messages.{KeyNotifyRequest}
use spheromone.Trigger.Types.{Trigger}
use spheromone.Coordinator.State.{Coordinator}
use spheromone.Coordinator.TriggerOp.{triggers_of}
use spheromone.Coordinator.Notify.{Run, notify_loop, notify_handler}
use spheromone.Coordinator.Notify.Objects.{store_object_total}
use spheromone.Coordinator.Notify.Active.{after, firing, Untimed, IsActive, notify_object-quiet}
use spheromone.Scheduler.State.{Node}
use spheromone.Scheduler.Arrival.{check_object_arrival}
use spheromone.Scheduler.Agreement.{asked_for, func_names}
use spheromone.System.Replicas.{Agree}
use spheromone.System.Entities.{NodeAgrees}
use spheromone.System.Objects.{arrives, quiet_names, object_agrees}

module _ (rand_r : ℕ → ℕ × ℕ) (io_thread_num : ℕ) (r : KeyNotifyRequest) (later seed : ℕ)
    (a : BucketKeyAddress) where
  abbrev key_of : BucketKey
  key_of = get_bucket_key_from_addr a

  abbrev ready : Coordinator → Run
  ready c = record { state = c; seed = seed; sent = [] }

  abbrev triggers_after : Coordinator → HashMap Text (List Trigger)
  triggers_after c =
      HashMap.put a.bucket (after key_of later (triggers_of c a.bucket)) c.bucket_triggers

  handler_quiet :
      (c : Coordinator) (address : Text) (others : List Text)
      → r.addresses ≡ a ∷ []
      → a.ips ≡ address ∷ others
      → 6 ≤ length address
      → HashMap.has a.bucket c.bucket_app ≡ true
      → All (IsActive r) (firing key_of later (triggers_of c a.bucket))
      → (run : Run) × (notify_handler rand_r io_thread_num r later c seed ≡ ok run)
        × (run.sent ≡ [])
        × (run.state.node_status ≡ c.node_status)
        × (run.state.bucket_triggers ≡ triggers_after c)
  unfolding notify_handler get_bucket_key_from_addr
  handler_quiet c address others single ips long there active =
      let (stored, e, same, nodes) = store_object_total a c address others ips long there in
      let quiet = notify_object-quiet rand_r io_thread_num r later key_of (ready stored) (
        subst (λ m. All (IsActive r) (firing key_of later (HashMap.get_or a.bucket m [])))
          (sym same) active) in
      (
        ready (record stored { bucket_triggers = triggers_after stored }),
        rw (single, notify_loop) (rw (e, ◌>>=◌) (rw quiet refl)),
        refl,
        nodes,
        ap (λ m. HashMap.put a.bucket (after key_of later (HashMap.get_or a.bucket m [])) m) same,
      )

  -- A coordinator and a node hold the same triggers, none of those of the object's bucket is timed,
  -- and the bucket has an owner. The object arrives at the node, and at any later time the
  -- coordinator handles the notification, which has the object with an address of at least six
  -- bytes and, as active, the names of the triggers that fired at the node. The calls
  -- that the node makes of the object, before it schedules them, are of exactly the functions that
  -- the triggers of the coordinator ask for, in order. The coordinator does not fail, calls nothing,
  -- tells no node anything and takes no executor, and both hold the same triggers again.
  pub object_handled_once :
      (now : ℕ) (c : Coordinator) (n : Node) (address : Text) (others : List Text)
      → NodeAgrees c n
      → Untimed (triggers_of c a.bucket)
      → HashMap.has a.bucket c.bucket_app ≡ true
      → r.addresses ≡ a ∷ []
      → a.ips ≡ address ∷ others
      → 6 ≤ length address
      → r.active_trigger_names ≡ (check_object_arrival key_of now n).0
      → (func_names (check_object_arrival key_of now n).1
          ≡ asked_for key_of now (triggers_of c a.bucket))
        × (run : Run) × (notify_handler rand_r io_thread_num r later c seed ≡ ok run)
        × (run.sent ≡ [])
        × (run.state.node_status ≡ c.node_status)
        × NodeAgrees run.state (check_object_arrival key_of now n).2
  unfolding get_bucket_key_from_addr
  object_handled_once now c n address others agree untimed owned single ips long active =
      let here = arrives key_of now later c n agree untimed in
      let names = quiet_names key_of now later c n agree untimed r active in
      let (run, done, quiet, nodes, triggers) =
        handler_quiet c address others single ips long owned names in
      (
        here.calls_all,
        run,
        done,
        quiet,
        nodes,
        subst
            (λ m.
              Agree m (check_object_arrival key_of now n).2.triggers
                (check_object_arrival key_of now n).2.bucket_triggers)
            (sym triggers) (object_agrees key_of now later c n agree untimed),
      )
