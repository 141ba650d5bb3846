-- ===== src/Tests/Buckets.antt =====
-- The coordinator's operations on buckets, objects and triggers, and the manager, at concrete
-- inputs.
use spheromone.Prelude.{ℕ, ◌+◌, ◌≡◌, ◌↔◌, refl, true, none, some, [], ◌∷◌, ◌++◌, arith}
use spheromone.Prelude.Int.{pos}
use spheromone.Text.{Text, text, text_eq, empty}
use spheromone.HashMap
use spheromone.HashSet
use spheromone.Trigger.Types.{Trigger, PrimitiveType}
use spheromone.Trigger.Primitive.{gen_trigger_pointer, kind_type, new_batch}
use spheromone.Trigger.Rerun.{set_rerun_metadata}
use spheromone.Messages.{
  BucketOperationRequest, create_bucket, delete_bucket, success, TriggerOperationRequest,
  add_trigger,
}
use spheromone.Coordinator.State.{Coordinator, initial, broadcast}
use spheromone.Common.Result.{ok, crash}
use spheromone.Coordinator.Bucket.{
  bucket_op_handler, OwnersAgree, bucket_op_handler-OwnersAgree, create_bucket_answers,
  delete_of_other_app,
}
use spheromone.Coordinator.TriggerOp
use spheromone.Coordinator.TriggerOp.{
  trigger_op_handler, triggers_of, set_triggers, has_name, update,
}
use spheromone.Coordinator.TriggerOp.Effects.{IsUnknown, trigger_op_handler_crashes}
use spheromone.Coordinator.TriggerOp.Replicas.{kept, entity, node_trigger, add_trigger_replicates}
use spheromone.Manager.{CoordIp, CoordQuery, Manager, respond, coord_query}
use spheromone.Manager.Assignment.{sync, ask, after, coord_query_sticks}
use spheromone.Tests.Wire.{wire}

abbrev create_b : BucketOperationRequest
create_b = record {
  operation_type = create_bucket;
  app_name = text "app";
  bucket_name = text "b";
  request_id = text "1";
  response_address = text "client";
}

abbrev delete_b : BucketOperationRequest
delete_b = record create_b { operation_type = delete_bucket; app_name = text "other" }

initial-OwnersAgree : OwnersAgree initial
unfolding HashSet.contains HashMap.get_or HashMap.find
initial-OwnersAgree b a = ((λ p. cc), λ p. cc)

bucket_op_handler-OwnersAgree_example : OwnersAgree (bucket_op_handler create_b initial).0
bucket_op_handler-OwnersAgree_example =
    bucket_op_handler-OwnersAgree create_b initial initial-OwnersAgree (λ e. cc)

abbrev owned : Coordinator
owned = (bucket_op_handler create_b initial).0

b_is_owned : HashMap.find (text "b") owned.bucket_app ≡ some (text "app")
unfolding HashMap.has
b_is_owned = (create_bucket_answers create_b initial refl).1 (text "b")

delete_of_other_app_example :
    (HashMap.find (text "b") (bucket_op_handler delete_b owned).0.bucket_app ≡ none)
    × (HashSet.contains
          (text "b")
          (HashMap.get_or (text "app") (bucket_op_handler delete_b owned).0.app_buckets [])
        ≡ true)
delete_of_other_app_example =
    delete_of_other_app delete_b owned (text "app")
      (bucket_op_handler-OwnersAgree create_b initial initial-OwnersAgree (λ e. cc)) refl b_is_owned
      (λ p. cc)

abbrev add_t : TriggerOperationRequest
add_t = record {
  operation_type = add_trigger;
  app_name = text "app";
  bucket_name = text "b";
  trigger_name = text "t";
  trigger_option = 1;
  primitive_type = PrimitiveType.by_batch_size;
  primitive = 3 ∷ text "f";
  request_id = text "2";
  response_address = text "client";
  hints = [];
}

abbrev with_b : Coordinator
with_b = record initial { bucket_app = (text "b", text "app") ∷ [] }

abbrev made : Trigger
made = record {
  target_function = text "f";
  trigger_name = text "t";
  trigger_option = pos 0;
  kind = new_batch (pos 3);
}

add_trigger_replicates_example :
    (trigger_op_handler wire add_t (text "ip") 0 9 with_b
      ≡ ok (
        set_triggers with_b
            (text "b")
            (triggers_of with_b (text "b") ++ kept wire add_t (text "ip") 0 9 with_b made ∷ []),
        TriggerOp.answer wire add_t success
            ∷ broadcast
                (update wire
                  (text "ip")
                  0
                  add_t
                  (entity wire add_t (text "ip") 0 9 with_b made ∷ [])
                  0)
                [],
      ))
    × (node_trigger wire (entity wire add_t (text "ip") 0 9 with_b made) 11
        ≡ some (set_rerun_metadata (kept wire add_t (text "ip") 0 9 with_b made) []))
add_trigger_replicates_example =
    add_trigger_replicates wire add_t (text "ip") 0 9 with_b made 11 refl
      (unfold HashMap.has in refl) (unfold empty in refl) (unfold gen_trigger_pointer in refl)
      (unfold kind_type in refl) (omega arith)

abbrev bad_t : TriggerOperationRequest
bad_t = record add_t { primitive_type = PrimitiveType.unknown 9 }

trigger_op_handler_crashes_example :
    (trigger_op_handler wire bad_t (text "ip") 0 9 with_b ≡ crash) ↔ (
      (add_trigger ≡ add_trigger)
      × (HashMap.has (text "b") with_b.bucket_app ≡ true)
      × IsUnknown (PrimitiveType.unknown 9))
trigger_op_handler_crashes_example = trigger_op_handler_crashes wire bad_t (text "ip") 0 9 with_b

abbrev counter : ℕ → ℕ × ℕ
counter seed = (seed, seed + 1)

abbrev coord : ℕ → CoordIp
coord i = record { public_ip = text "p"; private_ip = text "q"; thread_id = i }

abbrev manager : Manager
manager = record { app_coord = []; coord_ips = coord 0 ∷ coord 1 ∷ []; seed = 5 }

abbrev asks : ℕ → CoordQuery
asks i = record { request_id = i ∷ []; application = text "app" }

coord_query_sticks_example :
    (x : Text × ℕ) × (m' : Manager) × (coord_query counter true (asks 1) manager
      ≡ ok (respond (asks 1) x, m'))
    × (coord_query counter true
          (asks 2)
          (after counter true (sync (coord 2) ∷ ask (asks 3) ∷ []) m')
        ≡ ok (respond (asks 2) x, after counter true (sync (coord 2) ∷ ask (asks 3) ∷ []) m'))
coord_query_sticks_example =
    coord_query_sticks counter true (asks 1) manager (sync (coord 2) ∷ ask (asks 3) ∷ []) (asks 2)
      (omega arith) refl
