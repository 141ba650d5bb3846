-- ===== src/System/Dependencies.antt =====
-- What a coordinator makes of the dependencies of an application
-- (src/coordinator/app_register_handler.cpp, 20-74), and a node of its message.
use spheromone.Prelude.{
  ℕ, ◌≡◌, refl, sym, subst, ◌∙◌, ap, false, List, [], ◌∷◌, ◌++◌, map, All, All-snoc, append-nil,
  append_assoc, ◌⊎◌, inl, inr,
}
use spheromone.Prelude.Int.{uint32_of_int}
use spheromone.Text.{Text, text, text_eq, empty}
use spheromone.HashSet
use spheromone.HashSet.{insert_all-IsDistinct}
use spheromone.Common.Result.{Ensures, Ensures->>=, Ensures-after, Ensures-map}
use spheromone.Common.Split.{split}
use spheromone.Common.Stoi.{stoi}
use spheromone.Trigger.Primitive.{
  Codecs, kind_type, new_set_trigger, new_redundant_trigger, new_time_trigger,
}
use spheromone.Trigger.Restore.{unused, gen_trigger_pointer-dump_primitive}
use spheromone.Trigger.Rerun.{set_rerun_metadata}
use spheromone.Messages.{
  DataDependency, DependencyType, direct, many_to_one, k_out_of_n, periodic, TriggerEntity,
  UpdateCoordMsg,
}
use spheromone.Coordinator.State.{Coordinator}
use spheromone.Coordinator.Register
use spheromone.Coordinator.Register.{
  at, bucket_name_of, trigger_name_of, own, push_trigger, Registering, entity_of,
  trigger_dependency, register_dependency, register_all, app_register_handler,
}
use spheromone.Scheduler.State.{Node, HandlerThread}
use spheromone.Scheduler.Update
use spheromone.Scheduler.Update.{
  add_functions, is_direct, add_dependencies, add_entities, store_trigger, handle_update,
}
use spheromone.System.Entities.{
  NodeAgrees, HasSource, Registered, pushed-Registered, timed-Registered, bare-Registered,
}

direct_or_not : (type : DependencyType) → (type ≡ direct) ⊎ (is_direct type ≡ false)
direct_or_not direct = inl refl
direct_or_not other = inr refl

module _ (codecs : Codecs) (app : Text) (coord : HandlerThread) (later : ℕ) where
  set-Registered :
      (msg : UpdateCoordMsg) (c : Coordinator) (bucket f name : Text) (keys : List Text)
      → empty name ≡ false
      → let t = new_set_trigger f name (HashSet.insert_all keys []) in
        Registered codecs app coord later msg c
          (Register.add_entity (entity_of codecs bucket t) msg, push_trigger bucket t c)
  unfolding unused set_rerun_metadata kind_type
  set-Registered msg c bucket f name keys named =
      let t = new_set_trigger f name (HashSet.insert_all keys []) in
      pushed-Registered codecs app coord later msg c bucket t named
        (gen_trigger_pointer-dump_primitive codecs t later (insert_all-IsDistinct keys [] tt)) refl
        refl

  redundant-Registered :
      (msg : UpdateCoordMsg) (c : Coordinator) (bucket f name : Text) (k n : ℕ)
      → empty name ≡ false
      → let t = new_redundant_trigger f name k n in
        Registered codecs app coord later msg c
          (Register.add_entity (entity_of codecs bucket t) msg, push_trigger bucket t c)
  unfolding unused set_rerun_metadata kind_type
  redundant-Registered msg c bucket f name k n named =
      let t = new_redundant_trigger f name k n in
      pushed-Registered codecs app coord later msg c bucket t named
        (gen_trigger_pointer-dump_primitive codecs t later tt) refl refl

  trigger_dependency-Registered :
      (type : DependencyType) (d : DataDependency) (f : Text) (now : ℕ) (msg : UpdateCoordMsg)
      (c : Coordinator)
      → Ensures
          (Registered codecs app coord later msg c)
          (trigger_dependency codecs type d f now (msg, c))
  unfolding trigger_dependency
  trigger_dependency-Registered many_to_one d f now msg c =
      set-Registered msg c (bucket_name_of f) f (trigger_name_of 1 f)
        (map (λ g. text "k_" ++ g) d.src_functions) (unfold empty in refl)
  trigger_dependency-Registered k_out_of_n d f now msg c =
      let metadata = split b',' d.description in
      Ensures-after (Registered codecs app coord later msg c) (at metadata 0) _ (λ first.
        Ensures-after (Registered codecs app coord later msg c) (stoi first) _ (λ k.
          Ensures-after (Registered codecs app coord later msg c) (at metadata 1) _ (λ second.
            Ensures-after (Registered codecs app coord later msg c) (stoi second) _ (λ n.
              redundant-Registered msg c (bucket_name_of f) f (trigger_name_of 2 f)
                (uint32_of_int k) (uint32_of_int n) (unfold empty in refl)))))
  trigger_dependency-Registered periodic d f now msg c =
      Ensures-after (Registered codecs app coord later msg c) (stoi d.description) _ (λ window.
        timed-Registered codecs app coord later msg c (bucket_name_of f)
          (new_time_trigger f (trigger_name_of 3 f) (uint32_of_int window) now)
          (unfold kind_type in refl))
  trigger_dependency-Registered other d f now msg c =
      bare-Registered codecs app coord later msg c (bucket_name_of f)

  -- A new owner changes no trigger.
  owned-Registered :
      (owner bucket : Text) (msg : UpdateCoordMsg) (c : Coordinator) (r : Registering)
      → Registered codecs app coord later msg (own owner bucket c) r
      → Registered codecs app coord later msg c r
  unfolding own
  owned-Registered owner bucket msg c r h = record {
    entities = h.entities;
    added = h.added;
    same_type = h.same_type;
    sourced = h.sourced;
    followed = h.followed;
  }

  direct-Registered :
      (msg : UpdateCoordMsg) (c : Coordinator) (d : DataDependency)
      → HasSource d
      → Registered codecs app coord later msg c
          (record msg { dependencies = msg.dependencies ++ d ∷ [] }, c)
  unfolding add_entities
  direct-Registered msg c d s = record {
    entities = [];
    added = sym (append-nil msg.triggers);
    same_type = refl;
    sourced = λ all. All-snoc HasSource msg.dependencies d all s;
    followed = λ n agree. agree;
  }

  by_type :
      (owner : Text) (d : DataDependency) (now : ℕ) (msg : UpdateCoordMsg) (c : Coordinator)
      (type : DependencyType)
      → d.type ≡ type
      → HasSource d
      → Ensures
          (Registered codecs app coord later msg c)
          (register_dependency codecs owner d now (msg, c))
  unfolding register_dependency
  by_type owner d now msg c direct e s = rw (e, register_dependency) (direct-Registered msg c d s)
  by_type owner d now msg c other e s =
      rw (e, register_dependency)
        (Ensures-after (Registered codecs app coord later msg c) (at d.tgt_functions 0) _ (λ f.
          Ensures-map (Registered codecs app coord later msg (own owner (bucket_name_of f) c))
            (Registered codecs app coord later msg c)
            (trigger_dependency codecs other d f now (msg, own owner (bucket_name_of f) c))
            (owned-Registered owner (bucket_name_of f) msg c)
            (trigger_dependency-Registered other d f now msg (own owner (bucket_name_of f) c))))

  add_entities-append :
      (es fs : List TriggerEntity) (n : Node)
      → add_entities codecs app coord (es ++ fs) later n
        ≡ add_entities codecs app coord fs later (add_entities codecs app coord es later n)
  unfolding add_entities
  add_entities-append [] fs n = refl
  add_entities-append (e ∷ es) fs n =
      add_entities-append es fs (Update.add_entity codecs app coord e later n)

  Registered-then :
      (msg : UpdateCoordMsg) (c : Coordinator) (first second : Registering)
      → Registered codecs app coord later msg c first
      → Registered codecs app coord later first.0 first.1 second
      → Registered codecs app coord later msg c second
  Registered-then msg c first second h k = record {
    entities = h.entities ++ k.entities;
    added =
        k.added
        ∙ ap (λ xs. xs ++ k.entities) h.added
        ∙ append_assoc msg.triggers h.entities k.entities;
    same_type = k.same_type ∙ h.same_type;
    sourced = λ s. k.sourced (h.sourced s);
    followed = λ n agree.
        subst (NodeAgrees second.1) (sym (add_entities-append h.entities k.entities n))
          (k.followed (add_entities codecs app coord h.entities later n) (h.followed n agree));
  }

  none-Registered :
      (msg : UpdateCoordMsg) (c : Coordinator) → Registered codecs app coord later msg c (msg, c)
  unfolding add_entities
  none-Registered msg c = record {
    entities = [];
    added = sym (append-nil msg.triggers);
    same_type = refl;
    sourced = λ all. all;
    followed = λ n agree. agree;
  }

  pub register_all-Registered :
      (owner : Text) (ds : List DataDependency) (now : ℕ) (msg : UpdateCoordMsg) (c : Coordinator)
      → All HasSource ds
      → Ensures
          (Registered codecs app coord later msg c)
          (register_all codecs owner ds now (msg, c))
  unfolding register_all
  register_all-Registered owner [] now msg c s = none-Registered msg c
  register_all-Registered owner (d ∷ ds) now msg c s =
      Ensures->>= (Registered codecs app coord later msg c)
        (Registered codecs app coord later msg c) _ _ (by_type owner d now msg c d.type refl s.0)
        (λ (first : Registering) h.
          Ensures-map (Registered codecs app coord later first.0 first.1)
            (Registered codecs app coord later msg c) (register_all codecs owner ds now first)
            (λ second k. Registered-then msg c first second h k)
            (register_all-Registered owner ds now first.0 first.1 s.1))
