-- ===== src/Scheduler/Update.antt =====
-- What CommHelper does with the updates of a coordinator (src/scheduler/comm_helper.hpp, 266-354).
use spheromone.Prelude.{
  ℕ, zero, suc, Bool, true, false, none, some, List, [], ◌∷◌, ◌++◌, map, nat_eq, ◌==◌,
  if◌then◌else◌, length, get_elem?,
}
use spheromone.Prelude.Int.{int_of_uint32}
use spheromone.Text.{Text, text_eq, empty}
use spheromone.HashMap
use spheromone.HashMap.{HashMap}
use spheromone.HashSet
use spheromone.HashSet.{HashSet}
use spheromone.Common.Result.{Result, ok, crash, ◌>>=◌}
use spheromone.Trigger.Types.{Trigger, RerunMetadata}
use spheromone.Trigger.Primitive.{Codecs, gen_trigger_pointer}
use spheromone.Trigger.Rerun
use spheromone.Trigger.Rerun.{set_rerun_metadata}
use spheromone.Messages.{
  UpdateCoordMsg, TriggerEntity, DataDependency, direct, RerunHint, DependencyType,
}
use spheromone.Scheduler.State.{HandlerThread, Node, AppInfo, no_app}

abbrev pub app_of : Text → Node → AppInfo
app_of app n = HashMap.get_or app n.app_info no_app

abbrev pub set_app : Text → AppInfo → Node → Node
set_app app info n = record n { app_info = HashMap.put app info n.app_info }

unfoldable pub add_functions : Text → List Text → Node → Node
add_functions app [] n = n
add_functions app (f ∷ fs) n =
    let info = app_of app n in
    add_functions app fs
      (record (set_app app (record info { functions = HashSet.insert f info.functions }) n) {
        func_app = HashMap.put f app n.func_app;
      })

abbrev pub is_direct : DependencyType → Bool
is_direct direct = true
is_direct other = false

unfoldable pub add_targets :
    Text → List Text → HashMap Text (HashSet Text) → HashMap Text (HashSet Text)
add_targets src [] deps = deps
add_targets src (t ∷ ts) deps =
    add_targets src ts (HashMap.put src (HashSet.insert t (HashMap.get_or src deps [])) deps)

-- dep.src_functions(0) of a dependency without a source is undefined.
unfoldable pub add_dependencies : Text → List DataDependency → Node → Result Node
unfolding add_targets
add_dependencies app [] n = ok n
add_dependencies app (d ∷ ds) n =
    let info = app_of app n in
    if is_direct d.type
    then elim d.src_functions [
      | [] ↦ crash
      | src ∷ others ↦ add_dependencies app ds (
          set_app app
            (record info { direct_deps = add_targets src d.tgt_functions info.direct_deps }) n)
    ]
    else add_dependencies app ds n

unfoldable pub add_timeouts :
    ℕ → List RerunHint → HashMap Text (List (ℕ × ℕ)) → HashMap Text (List (ℕ × ℕ))
add_timeouts ptr [] m = m
add_timeouts ptr (hint ∷ hints) m = add_timeouts ptr hints (
    HashMap.put hint.source_function
      (HashMap.get_or hint.source_function m [] ++ (ptr, hint.timeout) ∷ []) m)

abbrev pub rerun_of : RerunHint → RerunMetadata
rerun_of hint = record {
  source_func = hint.source_function;
  source_key = hint.source_key;
  timeout = hint.timeout;
}

-- The new trigger gets the next pointer.
unfoldable pub store_trigger : Text → Trigger → List RerunHint → Node → Node
unfolding add_timeouts
store_trigger bucket t hints n =
    let ptr = length n.triggers in
    record n {
      triggers = n.triggers ++ set_rerun_metadata t (map rerun_of hints) ∷ [];
      bucket_triggers =
          HashMap.put bucket (HashMap.get_or bucket n.bucket_triggers [] ++ ptr ∷ [])
            n.bucket_triggers;
      func_trigger_timeout = add_timeouts ptr hints n.func_trigger_timeout;
    }

module _ (codecs : Codecs) where
  unfoldable pub add_entity : Text → HandlerThread → TriggerEntity → ℕ → Node → Node
  unfolding store_trigger
  add_entity app coord e now n =
      let info = app_of app n in
      let n1 =
        record (set_app app (record info { buckets = info.buckets ++ e.bucket_name ∷ [] }) n) {
          helper = record n.helper {
            bucket_coord = HashMap.put e.bucket_name coord n.helper.bucket_coord;
          };
          bucket_app = HashMap.put e.bucket_name app n.bucket_app;
        } in
      if empty e.trigger_name
      then n1
      else elim (gen_trigger_pointer codecs e.primitive_type e.trigger_name e.primitive now) [
        | none ↦ n1
        | some t ↦
            store_trigger e.bucket_name
              (record t { trigger_option = int_of_uint32 e.trigger_option }) e.hints n1
      ]

  unfoldable pub add_entities : Text → HandlerThread → List TriggerEntity → ℕ → Node → Node
  unfolding add_entity
  add_entities app coord [] now n = n
  add_entities app coord (e ∷ es) now n =
      add_entities app coord es now (add_entity app coord e now n)

  -- Message type 0.
  unfoldable pub add_all : UpdateCoordMsg → ℕ → Node → Result Node
  unfolding add_functions add_dependencies add_entities
  add_all msg now n = do
    let coord : HandlerThread = (msg.ip, msg.thread_id)
    let n1 = record n {
      helper = record n.helper { app_coord = HashMap.put msg.app_name coord n.helper.app_coord };
    }
    n2 ←
        add_dependencies msg.app_name msg.dependencies (add_functions msg.app_name msg.functions n1)
    ok (add_entities msg.app_name coord msg.triggers now n2)

-- The trigger of a pointer changes for all that hold the pointer.
unfoldable pub update_trigger : ℕ → (Trigger → Trigger) → List Trigger → List Trigger
update_trigger ptr f [] = []
update_trigger zero f (t ∷ ts) = f t ∷ ts
update_trigger (suc ptr) f (t ∷ ts) = t ∷ update_trigger ptr f ts

abbrev pub is_named : Text → Trigger → Bool
is_named name t = t.trigger_name == name

abbrev pub clear_named : Text → Text → Trigger → Trigger
clear_named name session t = if is_named name t then Rerun.clear t session else t

unfoldable pub clear_pointers : Text → Text → List ℕ → List Trigger → List Trigger
unfolding update_trigger
clear_pointers name session [] ts = ts
clear_pointers name session (ptr ∷ ptrs) ts =
    clear_pointers name session ptrs (update_trigger ptr (clear_named name session) ts)

-- Message type 1.
unfoldable pub clear_all : List TriggerEntity → Node → Node
unfolding clear_pointers
clear_all [] n = n
clear_all (e ∷ es) n = clear_all es (record n {
  triggers =
      clear_pointers e.trigger_name e.session (HashMap.get_or e.bucket_name n.bucket_triggers [])
        n.triggers;
})

-- The search stops at the trigger of the name; at the end of the vector it reads on.
unfoldable pub erase_named : Text → List Trigger → List ℕ → Result (List ℕ)
erase_named name ts [] = crash
erase_named name ts (ptr ∷ ptrs) =
    let rest = erase_named name ts ptrs in
    elim (get_elem? ts ptr) [
      | none ↦ crash
      | some t ↦ if is_named name t then ok ptrs else rest >>= (λ left. ok (ptr ∷ left))
    ]

-- Message type 2.
unfoldable pub delete_all : List TriggerEntity → Node → Result Node
unfolding erase_named
delete_all [] n = ok n
delete_all (e ∷ es) n = do
  left ← erase_named e.trigger_name n.triggers (HashMap.get_or e.bucket_name n.bucket_triggers [])
  delete_all es (record n { bucket_triggers = HashMap.put e.bucket_name left n.bucket_triggers })

unfoldable pub handle_update : Codecs → UpdateCoordMsg → ℕ → Node → Result Node
unfolding add_all clear_all delete_all
handle_update codecs msg now n =
    if msg.msg_type == 0
    then add_all codecs msg now n
    else if msg.msg_type == 1
    then ok (clear_all msg.triggers n)
    else if msg.msg_type == 2
    then delete_all msg.triggers n
    else ok n
