-- ===== src/Coordinator/Register.antt =====
-- app_register_handler of src/coordinator/app_register_handler.cpp: the buckets and triggers of an
-- application's dependencies. `crash` is an exception that nothing catches, from std::stoi, or an
-- access outside of a vector.
pub mod Owners
pub mod Success
use spheromone.Prelude.{ℕ, none, some, List, [], ◌∷◌, ◌++◌, map, nat_eq, get_elem?}
use spheromone.Prelude.Int.{uint32_of_int}
use spheromone.Text.{Text, text, text_eq, to_string}
use spheromone.HashMap
use spheromone.HashSet
use spheromone.HashSet.{HashSet}
use spheromone.Common.Split.{split}
use spheromone.Trigger.Types.{Trigger}
use spheromone.Trigger.Primitive.{
  Codecs, dump_primitive, kind_type, new_set_trigger, new_redundant_trigger, new_time_trigger,
}
use spheromone.Messages.{
  AppRegistration, DataDependency, DependencyType, direct, many_to_one, k_out_of_n, periodic,
  TriggerEntity, empty_entity, UpdateCoordMsg, empty_update, Sent,
}
use spheromone.Coordinator.State.{Coordinator, broadcast}
use spheromone.Common.Result.{Result, ok, crash, ◌>>=◌}
use spheromone.Common.Stoi.{stoi}
use spheromone.Coordinator.TriggerOp.{triggers_of, set_triggers}

-- The element of a vector; outside of it the access is undefined.
abbrev pub at : List Text → ℕ → Result Text
at xs i = elim (get_elem? xs i) [ none ↦ crash | some x ↦ ok x ]

abbrev pub bucket_name_of : Text → Text
bucket_name_of function = text "b_" ++ function

abbrev pub trigger_name_of : ℕ → Text → Text
trigger_name_of type function = text "t_" ++ to_string type ++ text "_" ++ function

-- app_buckets_map[app].insert(bucket); bucket_app_map[bucket] = app;
unfoldable pub own : Text → Text → Coordinator → Coordinator
own app bucket c = record c {
  app_buckets =
      HashMap.put app (HashSet.insert bucket (HashMap.get_or app c.app_buckets [])) c.app_buckets;
  bucket_app = HashMap.put bucket app c.bucket_app;
}

abbrev pub push_trigger : Text → Trigger → Coordinator → Coordinator
push_trigger bucket t c = set_triggers c bucket (triggers_of c bucket ++ t ∷ [])

-- The message under way and the state.
abbrev pub Registering : Type 0
Registering = UpdateCoordMsg × Coordinator

abbrev pub add_entity : TriggerEntity → UpdateCoordMsg → UpdateCoordMsg
add_entity e msg = record msg { triggers = msg.triggers ++ e ∷ [] }

module _ (codecs : Codecs) where
  abbrev pub entity_of : Text → Trigger → TriggerEntity
  entity_of bucket t = record empty_entity {
    bucket_name = bucket;
    trigger_name = t.trigger_name;
    trigger_option = uint32_of_int t.trigger_option;
    primitive_type = kind_type t.kind;
    primitive = dump_primitive codecs t;
  }

  -- The trigger of a dependency that is not direct. A timed trigger stays with the coordinator: the
  -- entity in the message has the bucket's name only.
  unfoldable pub trigger_dependency :
      DependencyType → DataDependency → Text → ℕ → Registering → Result Registering
  unfolding stoi own
  trigger_dependency many_to_one d function now (msg, c) =
      let bucket = bucket_name_of function in
      let keys = HashSet.insert_all (map (λ f. text "k_" ++ f) d.src_functions) [] in
      let t = new_set_trigger function (trigger_name_of 1 function) keys in
      ok (add_entity (entity_of bucket t) msg, push_trigger bucket t c)
  trigger_dependency k_out_of_n d function now (msg, c) = do
    let metadata = split b',' d.description
    first ← at metadata 0
    k ← stoi first
    second ← at metadata 1
    n ← stoi second
    let bucket = bucket_name_of function
    let t =
        new_redundant_trigger function (trigger_name_of 2 function) (uint32_of_int k)
          (uint32_of_int n)
    ok (add_entity (entity_of bucket t) msg, push_trigger bucket t c)
  trigger_dependency periodic d function now (msg, c) = do
    window ← stoi d.description
    let bucket = bucket_name_of function
    let t = new_time_trigger function (trigger_name_of 3 function) (uint32_of_int window) now
    ok (add_entity (record empty_entity { bucket_name = bucket }) msg, push_trigger bucket t c)
  trigger_dependency other d function now (msg, c) =
      ok (add_entity (record empty_entity { bucket_name = bucket_name_of function }) msg, c)

  unfoldable pub register_dependency : Text → DataDependency → ℕ → Registering → Result Registering
  unfolding trigger_dependency
  register_dependency app d now (msg, c) = elim d.type [
    | direct ↦ ok (record msg { dependencies = msg.dependencies ++ d ∷ [] }, c)
    | other ↦ do
      function ← at d.tgt_functions 0
      trigger_dependency other d function now (msg, own app (bucket_name_of function) c)
  ]

  unfoldable pub register_all : Text → List DataDependency → ℕ → Registering → Result Registering
  unfolding register_dependency
  register_all app [] now reg = ok reg
  register_all app (d ∷ ds) now reg = do
    reg' ← register_dependency app d now reg
    register_all app ds now reg'

  unfoldable pub app_register_handler :
      AppRegistration → Text → ℕ → ℕ → Coordinator → Result (Coordinator × List Sent)
  unfolding register_all
  app_register_handler r private_ip thread_id now c = do
    let msg = record empty_update {
      ip = private_ip;
      thread_id = thread_id;
      app_name = r.app_name;
      functions = r.functions;
    }
    (msg', c') ← register_all r.app_name r.dependencies now (msg, c)
    ok (c', broadcast msg' c'.node_status)
