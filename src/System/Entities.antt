-- ===== src/System/Entities.antt =====
-- The entities of triggers in the message of a registration: what the coordinator writes
-- (src/coordinator/app_register_handler.cpp, 32-74), and what a node makes of it
-- (src/scheduler/comm_helper.hpp, 307-330).
use spheromone.Prelude.{
  ℕ, ◌≡◌, refl, sym, subst₂, true, false, some, List, [], ◌∷◌, ◌++◌, All, length, ◌⊎◌,
}
use spheromone.Prelude.Int.{int_of_uint32, uint32_of_int}
use spheromone.Text.{Text, text_eq, empty}
use spheromone.HashMap
use spheromone.HashMap.{HashMap}
use spheromone.Trigger.Types.{Trigger}
use spheromone.Trigger.Primitive.{Codecs, kind_type, gen_trigger_pointer, dump_primitive}
use spheromone.Trigger.Rerun.{set_rerun_metadata}
use spheromone.Messages.{DataDependency, TriggerEntity, empty_entity, UpdateCoordMsg}
use spheromone.Coordinator.State.{Coordinator}
use spheromone.Coordinator.Register
use spheromone.Coordinator.Register.{
  at, bucket_name_of, trigger_name_of, own, push_trigger, Registering, entity_of,
  trigger_dependency, register_dependency, register_all, app_register_handler,
}
use spheromone.Scheduler.State.{Node, HandlerThread}
use spheromone.Scheduler.Update
use spheromone.Scheduler.Update.{
  add_functions, is_direct, add_dependencies, add_entities, store_trigger, handle_update,
}
use spheromone.System.Replicas.{Agree, is_untimed, pointers_at, Agree-timed, Agree-push}

abbrev pub NodeAgrees : Coordinator → Node → Type 0
NodeAgrees c n = Agree c.bucket_triggers n.triggers n.bucket_triggers

-- A direct dependency names a source.
abbrev pub HasSource : DataDependency → Type 0
HasSource d =
    (is_direct d.type ≡ false)
    ⊎ ((src : Text) × (others : List Text) × (d.src_functions ≡ src ∷ others))

module _ (codecs : Codecs) (app : Text) (coord : HandlerThread) (later : ℕ) where
  -- The node makes the trigger of an entity that the coordinator wrote.
  node_makes :
      (bucket : Text) (t : Trigger) (n : Node)
      → empty t.trigger_name ≡ false
      → gen_trigger_pointer codecs (kind_type t.kind) t.trigger_name (dump_primitive codecs t) later
        ≡ some t
      → set_rerun_metadata
          (record t { trigger_option = int_of_uint32 (uint32_of_int t.trigger_option) })
          []
        ≡ t
      → let n' = Update.add_entity codecs app coord (entity_of codecs bucket t) later n in
        (n'.triggers ≡ n.triggers ++ t ∷ [])
        × (n'.bucket_triggers
            ≡ HashMap.put bucket
                (pointers_at bucket n.bucket_triggers ++ length n.triggers ∷ [])
                n.bucket_triggers)
  unfolding Update.add_entity store_trigger
  node_makes bucket t n named made whole = (rw (named, made, whole) refl, rw (named, made) refl)

  -- What the coordinator adds, a node that reads the new entities of the message adds too.
  pub record Registered (msg : UpdateCoordMsg) (c : Coordinator) (result : Registering)
      : Type 0 where
    pub entities : List TriggerEntity
    pub added : result.0.triggers ≡ msg.triggers ++ entities
    pub same_type : result.0.msg_type ≡ msg.msg_type
    pub sourced : All HasSource msg.dependencies → All HasSource result.0.dependencies
    pub followed :
        (n : Node)
        → NodeAgrees c n
        → NodeAgrees result.1 (add_entities codecs app coord entities later n)

  pub pushed-Registered :
      (msg : UpdateCoordMsg) (c : Coordinator) (bucket : Text) (t : Trigger)
      → empty t.trigger_name ≡ false
      → gen_trigger_pointer codecs (kind_type t.kind) t.trigger_name (dump_primitive codecs t) later
        ≡ some t
      → set_rerun_metadata
          (record t { trigger_option = int_of_uint32 (uint32_of_int t.trigger_option) })
          []
        ≡ t
      → is_untimed t ≡ true
      → Registered msg c
          (Register.add_entity (entity_of codecs bucket t) msg, push_trigger bucket t c)
  unfolding add_entities
  pushed-Registered msg c bucket t named made whole untimed = record {
    entities = entity_of codecs bucket t ∷ [];
    added = refl;
    same_type = refl;
    sourced = λ s. s;
    followed = λ n agree.
        let (store, pointers) = node_makes bucket t n named made whole in
        subst₂ (λ st ps. Agree (push_trigger bucket t c).bucket_triggers st ps) (sym store)
          (sym pointers)
          (Agree-push c.bucket_triggers n.triggers n.bucket_triggers agree bucket t untimed);
  }

  pub timed-Registered :
      (msg : UpdateCoordMsg) (c : Coordinator) (bucket : Text) (t : Trigger)
      → is_untimed t ≡ false
      → Registered msg c (
        Register.add_entity (record empty_entity { bucket_name = bucket }) msg,
        push_trigger bucket t c,
      )
  unfolding add_entities Update.add_entity empty
  timed-Registered msg c bucket t timed = record {
    entities = record empty_entity { bucket_name = bucket } ∷ [];
    added = refl;
    same_type = refl;
    sourced = λ s. s;
    followed =
        λ n agree. Agree-timed c.bucket_triggers n.triggers n.bucket_triggers agree bucket t timed;
  }

  pub bare-Registered :
      (msg : UpdateCoordMsg) (c : Coordinator) (bucket : Text)
      → Registered msg c (Register.add_entity (record empty_entity { bucket_name = bucket }) msg, c)
  unfolding add_entities Update.add_entity empty
  bare-Registered msg c bucket = record {
    entities = record empty_entity { bucket_name = bucket } ∷ [];
    added = refl;
    same_type = refl;
    sourced = λ s. s;
    followed = λ n agree. agree;
  }
