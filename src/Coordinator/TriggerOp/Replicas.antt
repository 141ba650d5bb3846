-- ===== src/Coordinator/TriggerOp/Replicas.antt =====
-- The trigger that a node makes from the message of an added trigger, against the one that the
-- coordinator keeps (src/coordinator/trigger_op_handler.cpp 33-52 and
-- src/scheduler/comm_helper.hpp 309-328).
use spheromone.Prelude.{
  ℕ, ◌<◌, ◌^◌, ◌≡◌, refl, ap, subst, eq_of_some, true, false, Option, none, some, List, [], ◌∷◌,
  ◌++◌, map, arith, if◌then◌else◌,
}
use spheromone.Prelude.Int.{ℤ, int_of_uint32, uint32_of_int}
use spheromone.Text.{Text, text_eq, empty}
use spheromone.HashMap
use spheromone.HashSet
use spheromone.HashSet.{HashSet, IsDistinct, insert_all-distinct, insert_all-IsDistinct}
use spheromone.Trigger.Types.{Trigger, PrimitiveType, RerunMetadata}
use spheromone.Trigger.Rerun.{set_rerun_metadata}
use spheromone.Trigger.Primitive.{Codecs, kind_type, gen_trigger_pointer, dump_primitive}
use spheromone.Messages.{TriggerOperationRequest, add_trigger, TriggerEntity, RerunHint, success}
use spheromone.Coordinator.State.{Coordinator, broadcast}
use spheromone.Common.Result.{ok}
use spheromone.Coordinator.TriggerOp.{
  trigger_op_handler, triggers_of, is_by_time, set_triggers, answer, update,
}

abbrev pub rerun_of_hint : RerunHint → RerunMetadata
rerun_of_hint h = record {
  source_func = h.source_function;
  source_key = h.source_key;
  timeout = h.timeout;
}

-- A node with an entity of the message: the trigger that it adds to the bucket, if the entity names
-- one.
unfoldable pub node_trigger : Codecs → TriggerEntity → ℕ → Option Trigger
node_trigger codecs e now =
    if empty e.trigger_name
    then none
    else elim (gen_trigger_pointer codecs e.primitive_type e.trigger_name e.primitive now) [
      | none ↦ none
      | some made ↦ some (
          set_rerun_metadata (record made { trigger_option = int_of_uint32 e.trigger_option })
            (map rerun_of_hint e.hints))
    ]

set_again :
    (ks : List Text) → HashSet.insert_all (HashSet.insert_all ks []) [] ≡ HashSet.insert_all ks []
set_again ks =
    insert_all-distinct (HashSet.insert_all ks []) [] (insert_all-IsDistinct ks [] tt)
      (λ k h. unfold HashSet.contains in refl)

uint_again : (n : ℕ) → n < 2 ^ 32 → uint32_of_int (int_of_uint32 n) ≡ n
uint_again n h = ground arith

module _ (codecs : Codecs) where
  -- Written with any option and made again, a trigger is what it was.
  abbrev Again : PrimitiveType → Text → ℤ → ℕ → Trigger → Type 0
  Again p name option later t =
      gen_trigger_pointer codecs p name
        (dump_primitive codecs (record t { trigger_option = option })) later
      ≡ some t

  -- So is one that was made from a text, but for the clock of a timed one.
  gen-Again :
      (p : PrimitiveType) (name s : Text) (t : Trigger) (option : ℤ) (now later : ℕ)
      → (codecs.by_batch_size.parse s).count < 2 ^ 32
      → gen_trigger_pointer codecs p name s now ≡ some t
      → is_by_time (kind_type t.kind) ≡ false
      → Again p name option later t
  unfolding gen_trigger_pointer dump_primitive kind_type
  gen-Again PrimitiveType.immediate name s t o now later b h n =
      subst (Again PrimitiveType.immediate name o later) (eq_of_some h)
        (rw (codecs.immediate.parse-serialize) refl)
  gen-Again PrimitiveType.by_name name s t o now later b h n =
      subst (Again PrimitiveType.by_name name o later) (eq_of_some h)
        (rw (codecs.by_name.parse-serialize) refl)
  gen-Again PrimitiveType.by_batch_size name s t o now later b h n =
      subst (Again PrimitiveType.by_batch_size name o later) (eq_of_some h)
        (rw (codecs.by_batch_size.parse-serialize, uint_again _ b) refl)
  gen-Again PrimitiveType.by_set name s t o now later b h n =
      subst (Again PrimitiveType.by_set name o later) (eq_of_some h)
        (rw (codecs.by_set.parse-serialize, set_again) refl)
  gen-Again PrimitiveType.dynamic_group name s t o now later b h n =
      subst (Again PrimitiveType.dynamic_group name o later) (eq_of_some h)
        (rw (codecs.dynamic_group.parse-serialize, set_again) refl)
  gen-Again PrimitiveType.redundant name s t o now later b h n =
      subst (Again PrimitiveType.redundant name o later) (eq_of_some h)
        (rw (codecs.redundant.parse-serialize) refl)
  gen-Again PrimitiveType.by_time name s t o now later b h n =
      cc (ap (λ (u : Trigger). is_by_time (kind_type u.kind)) (eq_of_some h))
  gen-Again (PrimitiveType.unknown k) name s t o now later b h n = cc

  module _ (r : TriggerOperationRequest) (ip : Text) (thread_id now : ℕ) (c : Coordinator)
      (made : Trigger) where
    abbrev pub kept : Trigger
    kept = record made { trigger_option = int_of_uint32 r.trigger_option }

    abbrev pub entity : TriggerEntity
    entity = record {
      bucket_name = r.bucket_name;
      trigger_name = r.trigger_name;
      trigger_option = r.trigger_option;
      primitive_type = r.primitive_type;
      primitive = dump_primitive codecs kept;
      session = [];
      hints = r.hints;
    }

    -- A trigger with a name that is added to a bucket that is there, and is not a timed one, stands behind the
    -- triggers that the coordinator had for the bucket. Every node gets one entity, from which it
    -- makes the same trigger, with its option, and gives it the rerun hints of the request.
    pub add_trigger_replicates :
        (later : ℕ)
        → r.operation_type ≡ add_trigger
        → HashMap.has r.bucket_name c.bucket_app ≡ true
        → empty r.trigger_name ≡ false
        → gen_trigger_pointer codecs r.primitive_type r.trigger_name r.primitive now ≡ some made
        → is_by_time (kind_type made.kind) ≡ false
        → (codecs.by_batch_size.parse r.primitive).count < 2 ^ 32
        → (trigger_op_handler codecs r ip thread_id now c
            ≡ ok (
              set_triggers c r.bucket_name (triggers_of c r.bucket_name ++ kept ∷ []),
              answer codecs r success
                  ∷ broadcast (update codecs ip thread_id r (entity ∷ []) 0) c.node_status,
            ))
          × (node_trigger codecs entity later
              ≡ some (set_rerun_metadata kept (map rerun_of_hint r.hints)))
    unfolding trigger_op_handler node_trigger
    add_trigger_replicates later e h full g n b = (
      ground arith,
      rw
          (
            full,
            gen-Again r.primitive_type r.trigger_name r.primitive made
                (int_of_uint32 r.trigger_option) now later b g n,
            node_trigger,
          )
          refl,
    )
