-- ===== src/System/Registration.antt =====
-- An application is registered at a coordinator (src/coordinator/app_register_handler.cpp), and a
-- node reads the message (type 0 in src/scheduler/comm_helper.hpp, 281-330).
use spheromone.Prelude.{
  ℕ, ◌≡◌, refl, sym, subst, subst₂, ◌∙◌, ap, List, [], ◌∷◌, ◌++◌, All, inl, inr, Bool-cases,
  false≢true,
}
use spheromone.Text.{Text, text_eq}
use spheromone.HashMap
use spheromone.HashMap.{HashMap}
use spheromone.Common.Result.{ok, Ensures, Ensures->>=, Ensures-all}
use spheromone.Trigger.Primitive.{Codecs}
use spheromone.Messages.{AppRegistration, DataDependency, UpdateCoordMsg, empty_update, Sent}
use spheromone.Coordinator.State.{Coordinator, broadcast}
use spheromone.Coordinator.Register.{Registering, register_all, app_register_handler}
use spheromone.Coordinator.Register.Success.{IsComplete, app_register_handler_total}
use spheromone.Scheduler.State.{Node, HandlerThread}
use spheromone.Scheduler.Update
use spheromone.Scheduler.Update.{
  add_functions, is_direct, add_dependencies, add_entities, store_trigger, handle_update,
}
use spheromone.System.Entities.{NodeAgrees, HasSource, Registered}
use spheromone.System.Dependencies.{register_all-Registered}
use spheromone.System.Replicas.{Agree}

-- Functions and direct dependencies change no trigger.
abbrev SameTriggers : Node → Node → Type 0
SameTriggers n n' = (n'.triggers ≡ n.triggers) × (n'.bucket_triggers ≡ n.bucket_triggers)

add_functions-SameTriggers :
    (app : Text) (fs : List Text) (n : Node) → SameTriggers n (add_functions app fs n)
unfolding add_functions
add_functions-SameTriggers app [] n = (refl, refl)
add_functions-SameTriggers app (f ∷ fs) n = add_functions-SameTriggers app fs _

add_dependencies-total :
    (app : Text) (ds : List DataDependency) (n : Node)
    → All HasSource ds
    → (n' : Node) × (add_dependencies app ds n ≡ ok n') × SameTriggers n n'
unfolding add_dependencies
add_dependencies-total app [] n s = (n, refl, (refl, refl))
add_dependencies-total app (d ∷ ds) n s = elim (Bool-cases (is_direct d.type)) [
  | inr e ↦ rw e (add_dependencies-total app ds n s.1)
  | inl e ↦ elim s.0 [
    | inl f ↦ absurd (false≢true (sym f ∙ e))
    | inr (src, others, p) ↦
        let info = Update.app_of app n in
        let next =
          Update.set_app app
            (record info { direct_deps = Update.add_targets src d.tgt_functions info.direct_deps })
            n in
        let (n', q, same) = add_dependencies-total app ds next s.1 in
        (n', rw (e, p, add_dependencies) q, same)
  ]
]

-- What a node makes of the message of a registration, if it agreed with the coordinator before.
abbrev Follows : Codecs → ℕ → Node → Coordinator × List Sent → Type 0
Follows codecs later n (c, sent) =
    (msg : UpdateCoordMsg) × (n' : Node) × (sent ≡ broadcast msg c.node_status)
    × (handle_update codecs msg later n ≡ ok n')
    × NodeAgrees c n'

module _ (codecs : Codecs) (later : ℕ) (n : Node) where
  update_lem :
      (msg : UpdateCoordMsg) (c : Coordinator)
      → msg.msg_type ≡ 0
      → All HasSource msg.dependencies
      → ((n1 : Node)
          → SameTriggers n n1
          → NodeAgrees c
              (add_entities codecs msg.app_name (msg.ip, msg.thread_id) msg.triggers later n1))
      → (n' : Node) × (handle_update codecs msg later n ≡ ok n') × NodeAgrees c n'
  unfolding handle_update
  update_lem msg c e s follow =
      let coord : HandlerThread = (msg.ip, msg.thread_id) in
      let n1 = record n {
        helper = record n.helper { app_coord = HashMap.put msg.app_name coord n.helper.app_coord };
      } in
      let n2 = add_functions msg.app_name msg.functions n1 in
      let (t2, p2) = add_functions-SameTriggers msg.app_name msg.functions n1 in
      let (n3, made, (t3, p3)) = add_dependencies-total msg.app_name msg.dependencies n2 s in
      (
        add_entities codecs msg.app_name coord msg.triggers later n3,
        rw (e, made) refl,
        follow n3 (t3 ∙ t2, p3 ∙ p2),
      )

  Registered-Follows :
      (start : UpdateCoordMsg) (c : Coordinator) (result : Registering)
      → start.triggers ≡ []
      → start.dependencies ≡ []
      → start.msg_type ≡ 0
      → NodeAgrees c n
      → ((x : Text × HandlerThread) → Registered codecs x.0 x.1 later start c result)
      → Follows codecs later n (result.1, broadcast result.0 result.1.node_status)
  Registered-Follows start c (msg, c') no_triggers no_deps type agree h =
      let r = h (msg.app_name, (msg.ip, msg.thread_id)) in
      let entities : msg.triggers ≡ r.entities =
        r.added ∙ ap (λ xs. xs ++ r.entities) no_triggers in
      let (n', read, agrees) =
        update_lem msg c' (r.same_type ∙ type) (r.sourced (rw no_deps tt)) (λ n1 same. rw entities (
          r.followed n1
            (subst₂ (λ st ps. Agree c.bucket_triggers st ps) (sym same.0) (sym same.1) agree))) in
      (msg, n', refl, read, agrees)

-- What the nodes make of a registration that does not fail.
pub registration_read :
    (codecs : Codecs) (r : AppRegistration) (ip : Text) (thread_id now later : ℕ)
    (c c' : Coordinator) (n : Node) (sent : List Sent)
    → NodeAgrees c n
    → All HasSource r.dependencies
    → app_register_handler codecs r ip thread_id now c ≡ ok (c', sent)
    → (msg : UpdateCoordMsg) × (n' : Node) × (sent ≡ broadcast msg c'.node_status)
      × (handle_update codecs msg later n ≡ ok n')
      × NodeAgrees c' n'
unfolding app_register_handler
registration_read codecs r ip thread_id now later c c' n sent agree s e =
    let start = record empty_update {
      ip = ip;
      thread_id = thread_id;
      app_name = r.app_name;
      functions = r.functions;
    } in
    let run = register_all codecs r.app_name r.dependencies now (start, c) in
    subst (Ensures (Follows codecs later n)) e (
      Ensures->>=
        (λ result. (x : Text × HandlerThread) → Registered codecs x.0 x.1 later start c result)
        (Follows codecs later n) run _
        (Ensures-all
          (λ (x : Text × HandlerThread) result. Registered codecs x.0 x.1 later start c result) run
          (λ x.
            register_all-Registered codecs x.0 x.1 later r.app_name r.dependencies now start c s))
        (λ result h. Registered-Follows codecs later n start c result refl refl refl agree h))

-- A coordinator and a node hold the same triggers, timed ones excepted, and the coordinator
-- registers an application. Each direct dependency has a source, each other one has a function to
-- call, and its description holds the numbers that its type needs. Then the handler does not fail;
-- whatever the dependencies are, every node is sent the same message, the node that reads it does
-- not fail, and it then holds the same triggers as the coordinator again.
pub registration_agrees :
    (codecs : Codecs) (r : AppRegistration) (ip : Text) (thread_id now later : ℕ) (c : Coordinator)
    (n : Node)
    → NodeAgrees c n
    → All HasSource r.dependencies
    → All (λ (d : DataDependency). IsComplete d.type d) r.dependencies
    → (c' : Coordinator) × (msg : UpdateCoordMsg) × (n' : Node) × (app_register_handler codecs r ip
          thread_id now c
        ≡ ok (c', broadcast msg c'.node_status))
      × (handle_update codecs msg later n ≡ ok n')
      × NodeAgrees c' n'
registration_agrees codecs r ip thread_id now later c n agree s complete =
    let (c', sent, done) = app_register_handler_total codecs r ip thread_id now c complete in
    let (msg, n', all, read, agrees) =
      registration_read codecs r ip thread_id now later c c' n sent agree s done in
    (c', msg, n', done ∙ ap (λ xs. ok (c', xs)) all, read, agrees)
