-- ===== src/Coordinator/TriggerOp.antt =====
-- src/coordinator/trigger_op_handler.cpp: triggers of a bucket are added and deleted, and the nodes
-- are told. The handler may fail: `crash` is a dereferenced null pointer.

pub mod Effects
pub mod Replicas
use spheromone.Prelude.{
  ℕ, Bool, true, false, not, none, some, List, [], ◌∷◌, ◌++◌, ◌==◌, if◌then◌else◌, keep,
}
use spheromone.Prelude.Int.{int_of_uint32}
use spheromone.Text.{Text, text_eq}
use spheromone.HashMap
use spheromone.HashMap.{HashMap, find-put, get_or-put, has-find}
use spheromone.Trigger.Types.{Trigger, PrimitiveType, by_time}
use spheromone.Trigger.Primitive.{Codecs, kind_type, gen_trigger_pointer, dump_primitive}
use spheromone.Messages.{
  TriggerOperationRequest, TriggerOperationType, add_trigger, delete_trigger, success, bucket_ne,
  KvsError, Sent, trigger_response, UpdateCoordMsg, TriggerEntity, empty_update, empty_entity,
}
use spheromone.Coordinator.State.{Coordinator, broadcast}
use spheromone.Common.Result.{Result, ok, crash, ◌>>=◌}

abbrev pub is_by_time : PrimitiveType → Bool
is_by_time by_time = true
is_by_time _ = false

-- What the nodes are told of a new trigger; a timed trigger stays with the coordinator.
abbrev added_entities : TriggerOperationRequest → Trigger → Text → List TriggerEntity
added_entities r t dumped =
    if is_by_time (kind_type t.kind)
    then []
    else record {
      bucket_name = r.bucket_name;
      trigger_name = r.trigger_name;
      trigger_option = r.trigger_option;
      primitive_type = r.primitive_type;
      primitive = dumped;
      session = [];
      hints = r.hints;
    }
      ∷ []

abbrev pub has_name : Text → Trigger → Bool
has_name name t = t.trigger_name == name

unfoldable pub any_named : Text → List Trigger → Bool
any_named name [] = false
any_named name (t ∷ ts) = if has_name name t then true else any_named name ts

abbrev pub triggers_of : Coordinator → Text → List Trigger
triggers_of c bucket = HashMap.get_or bucket c.bucket_triggers []

abbrev pub set_triggers : Coordinator → Text → List Trigger → Coordinator
set_triggers c bucket ts = record c { bucket_triggers = HashMap.put bucket ts c.bucket_triggers }

module _ (codecs : Codecs) where
  -- The new state, the answer's error, and the entities and type of the message to the nodes.
  added :
      TriggerOperationRequest
      → Coordinator
      → ℕ
      → Result (Coordinator × KvsError × List TriggerEntity × ℕ)
  added r c now =
      elim (gen_trigger_pointer codecs r.primitive_type r.trigger_name r.primitive now) [
        | none ↦ crash
        | some made ↦
            let t : Trigger = record made { trigger_option = int_of_uint32 r.trigger_option } in
            ok (
              set_triggers c r.bucket_name (triggers_of c r.bucket_name ++ t ∷ []),
              success,
              added_entities r t (dump_primitive codecs t),
              0,
            )
      ]

  deleted : TriggerOperationRequest → Coordinator → Coordinator × KvsError × List TriggerEntity × ℕ
  deleted r c =
      let ts = triggers_of c r.bucket_name in
      let c' = set_triggers c r.bucket_name (keep (λ t. not (has_name r.trigger_name t)) ts) in
      if any_named r.trigger_name ts
      then (
        c',
        success,
        record empty_entity { bucket_name = r.bucket_name; trigger_name = r.trigger_name } ∷ [],
        2,
      )
      else (c', success, [], 0)

  perform :
      TriggerOperationType
      → TriggerOperationRequest
      → Coordinator
      → ℕ
      → Result (Coordinator × KvsError × List TriggerEntity × ℕ)
  unfolding added deleted any_named
  perform add_trigger r c now =
      if HashMap.has r.bucket_name c.bucket_app then added r c now else ok (c, bucket_ne, [], 0)
  perform delete_trigger r c now =
      if HashMap.has r.bucket_name c.bucket_app then ok (deleted r c) else ok (c, bucket_ne, [], 0)
  perform (TriggerOperationType.unknown n) r c now = ok (c, success, [], 0)

  abbrev pub answer : TriggerOperationRequest → KvsError → Sent
  answer r error = record {
    to = r.response_address;
    body = trigger_response (record {
      operation_type = add_trigger;
      bucket_name = r.bucket_name;
      trigger_name = r.trigger_name;
      response_id = r.request_id;
      error = error;
    });
  }

  abbrev pub update : Text → ℕ → TriggerOperationRequest → List TriggerEntity → ℕ → UpdateCoordMsg
  update ip thread_id r entities msg_type = record empty_update {
    ip = ip;
    thread_id = thread_id;
    app_name = r.app_name;
    triggers = entities;
    msg_type = msg_type;
  }

  -- `now` is the clock reading that a new timed trigger takes.
  unfoldable pub trigger_op_handler :
      TriggerOperationRequest → Text → ℕ → ℕ → Coordinator → Result (Coordinator × List Sent)
  unfolding perform
  trigger_op_handler r private_ip thread_id now c = do
    (c', error, entities, msg_type) ← perform r.operation_type r c now
    ok (
      c',
      answer r error ∷ broadcast (update private_ip thread_id r entities msg_type) c'.node_status,
    )
