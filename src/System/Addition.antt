-- ===== src/System/Addition.antt =====
-- A trigger is added to a bucket at a coordinator (src/coordinator/trigger_op_handler.cpp), and a
-- node reads the message (type 0 in src/scheduler/comm_helper.hpp, 281-330).
use spheromone.Prelude.{
  ℕ, ◌<◌, ◌^◌, ◌≡◌, refl, sym, subst₂, ◌∙◌, ap, true, false, none, some, [], ◌∷◌, ◌++◌, arith, map,
  length, inl, inr, Bool-cases, Option-cases, nat_eq, eq_of_some,
}
use spheromone.Prelude.Int.{int_of_uint32}
use spheromone.Text.{Text, text_eq, empty}
use spheromone.HashMap
use spheromone.HashMap.{HashMap}
use spheromone.Common.Result.{ok}
use spheromone.Trigger.Types.{Trigger, Kind, immediately}
use spheromone.Trigger.Primitive.{Codecs, kind_type, gen_trigger_pointer}
use spheromone.Trigger.Rerun.{set_rerun_metadata, kind_set_rerun}
use spheromone.Messages.{
  TriggerOperationRequest, add_trigger, TriggerEntity, UpdateCoordMsg, success,
}
use spheromone.Coordinator.State.{Coordinator, broadcast}
use spheromone.Coordinator.TriggerOp
use spheromone.Coordinator.TriggerOp.{
  trigger_op_handler, triggers_of, set_triggers, is_by_time, update,
}
use spheromone.Coordinator.TriggerOp.Replicas.{
  node_trigger, rerun_of_hint, entity, add_trigger_replicates,
}
use spheromone.Scheduler.State.{Node, HandlerThread}
use spheromone.Scheduler.Update
use spheromone.Scheduler.Update.{
  add_entities, add_functions, add_dependencies, store_trigger, handle_update,
}
use spheromone.System.Replicas.{Agree, is_untimed, pointers_at, Agree-timed, Agree-push}
use spheromone.System.Entities.{NodeAgrees}

kind_no_reruns : (k : Kind) → kind_set_rerun k [] ≡ k
unfolding kind_set_rerun
kind_no_reruns (immediately c) = refl
kind_no_reruns other = refl

no_reruns : (t : Trigger) → set_rerun_metadata t [] ≡ t
unfolding set_rerun_metadata
no_reruns t = ap (λ k. record t { kind = k }) (kind_no_reruns t.kind)

module _ (codecs : Codecs) (app : Text) (coord : HandlerThread) (later : ℕ) where
  -- The node stores the trigger that it makes.
  node_stores :
      (e : TriggerEntity) (t : Trigger) (n : Node)
      → empty e.trigger_name ≡ false
      → node_trigger codecs e later ≡ some t
      → let n' = Update.add_entity codecs app coord e later n in
        (n'.triggers ≡ n.triggers ++ t ∷ [])
        × (n'.bucket_triggers
            ≡ HashMap.put e.bucket_name
                (pointers_at e.bucket_name n.bucket_triggers ++ length n.triggers ∷ [])
                n.bucket_triggers)
  unfolding node_trigger Update.add_entity store_trigger
  node_stores e t n full made =
      elim (Option-cases
        (gen_trigger_pointer codecs e.primitive_type e.trigger_name e.primitive later)) [
          | inl no_type ↦
              let impossible : none ≡ some t = rw (full, no_type, node_trigger) at made in
              cc impossible
          | inr (x, gen) ↦
              let same : set_rerun_metadata
                    (record x { trigger_option = int_of_uint32 e.trigger_option })
                    (map rerun_of_hint e.hints)
                  ≡ t =
                eq_of_some (rw (full, gen, node_trigger) at made) in
              (rw (full, gen) (rw same refl), rw (full, gen) refl)
        ]

module _ (codecs : Codecs) (r : TriggerOperationRequest) (ip : Text) (thread_id now later : ℕ)
    (c : Coordinator) (n : Node) (made : Trigger) where
  -- The trigger that the coordinator stores.
  abbrev new : Trigger
  new = record made { trigger_option = int_of_uint32 r.trigger_option }

  abbrev with_new : Coordinator
  with_new = set_triggers c r.bucket_name (triggers_of c r.bucket_name ++ new ∷ [])

  -- The coordinator keeps a timed trigger to itself.
  add_timed :
      r.operation_type ≡ add_trigger
      → HashMap.has r.bucket_name c.bucket_app ≡ true
      → gen_trigger_pointer codecs r.primitive_type r.trigger_name r.primitive now ≡ some made
      → is_by_time (kind_type made.kind) ≡ true
      → trigger_op_handler codecs r ip thread_id now c
        ≡ ok (
          with_new,
          TriggerOp.answer codecs r success
              ∷ broadcast (update codecs ip thread_id r [] 0) c.node_status,
        )
  unfolding trigger_op_handler
  add_timed e h g t = ground arith

  read_empty :
      (n' : Node) × (handle_update codecs (update codecs ip thread_id r [] 0) later n ≡ ok n')
      × (n'.triggers ≡ n.triggers)
      × (n'.bucket_triggers ≡ n.bucket_triggers)
  unfolding handle_update add_functions add_dependencies add_entities
  read_empty = (_, refl, refl, refl)

  read_one :
      (x : TriggerEntity) (t : Trigger)
      → empty x.trigger_name ≡ false
      → node_trigger codecs x later ≡ some t
      → (n' : Node) × (handle_update codecs (update codecs ip thread_id r (x ∷ []) 0) later n
          ≡ ok n')
        × (n'.triggers ≡ n.triggers ++ t ∷ [])
        × (n'.bucket_triggers
            ≡ HashMap.put x.bucket_name
                (pointers_at x.bucket_name n.bucket_triggers ++ length n.triggers ∷ [])
                n.bucket_triggers)
  unfolding handle_update add_functions add_dependencies add_entities
  read_one x t full node =
      let coord : HandlerThread = (ip, thread_id) in
      let n1 = record n {
        helper = record n.helper { app_coord = HashMap.put r.app_name coord n.helper.app_coord };
      } in
      let (store, pointers) = node_stores codecs r.app_name coord later x t n1 full node in
      (_, refl, store, pointers)

  -- A coordinator and a node hold the same triggers, timed ones excepted. A trigger with a name,
  -- without rerun hints and of a known type is added to a bucket that is there. Then the handler
  -- answers with a success and sends every node one message; a node that reads it does not fail, and
  -- holds the same triggers as the coordinator again, whether the new one is timed or not.
  pub addition_agrees :
      NodeAgrees c n
      → r.operation_type ≡ add_trigger
      → HashMap.has r.bucket_name c.bucket_app ≡ true
      → r.hints ≡ []
      → empty r.trigger_name ≡ false
      → gen_trigger_pointer codecs r.primitive_type r.trigger_name r.primitive now ≡ some made
      → (codecs.by_batch_size.parse r.primitive).count < 2 ^ 32
      → (c' : Coordinator) × (msg : UpdateCoordMsg) × (n' : Node) × (trigger_op_handler codecs r ip
            thread_id now c
          ≡ ok (c', TriggerOp.answer codecs r success ∷ broadcast msg c.node_status))
        × (handle_update codecs msg later n ≡ ok n')
        × NodeAgrees c' n'
  addition_agrees agree e h no_hints full g small =
      elim (Bool-cases (is_by_time (kind_type made.kind))) [
        | inl t ↦
            let (n', read, store, pointers) = read_empty in
            let untimed : is_untimed new ≡ false = ground (arith, t) in
            (
              with_new,
              update codecs ip thread_id r [] 0,
              n',
              add_timed e h g t,
              read,
              subst₂ (Agree with_new.bucket_triggers) (sym store) (sym pointers) (
                  Agree-timed c.bucket_triggers n.triggers n.bucket_triggers agree r.bucket_name new
                    untimed),
            )
        | inr t ↦
            let (done, node) =
              add_trigger_replicates codecs r ip thread_id now c made later e h full g t small in
            let sent = entity codecs r ip thread_id now c made in
            let plain : set_rerun_metadata new (map rerun_of_hint r.hints) ≡ new =
              ap (λ hs. set_rerun_metadata new (map rerun_of_hint hs)) no_hints ∙ no_reruns new in
            let (n', read, store, pointers) = read_one sent new full (node ∙ ap some plain) in
            let untimed : is_untimed new ≡ true = ground (arith, t) in
            (
              with_new,
              update codecs ip thread_id r (sent ∷ []) 0,
              n',
              done,
              read,
              subst₂ (Agree with_new.bucket_triggers) (sym store) (sym pointers) (
                  Agree-push c.bucket_triggers n.triggers n.bucket_triggers agree r.bucket_name new
                    untimed),
            )
      ]
