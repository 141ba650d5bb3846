-- ===== src/Scheduler/Arrival.antt =====
-- An object arrives at a node: check_object_arrival and the shared-memory functions of
-- src/scheduler/object_handlers.cpp, and check_trigger of src/scheduler/scheduler.cpp.
use spheromone.Prelude.{ℕ, Option, none, some, List, [], ◌∷◌, ◌++◌, get_elem?}
use spheromone.Prelude.Int.{ℤ, pos, suc_ℤ}
use spheromone.Text.{Text, text_eq, to_string}
use spheromone.HashMap
use spheromone.HashMap.{HashMap}
use spheromone.Common.Key.{BucketKey, get_local_object_name}
use spheromone.Common.Result.{Result, ok, crash}
use spheromone.Trigger.Types.{Trigger, TriggerAction, TriggerFunctionMetadata}
use spheromone.Trigger.Arrival.{action_for_new_object}
use spheromone.Scheduler.State.{Node, Config, Output}
use spheromone.Scheduler.Update.{update_trigger}
use spheromone.Scheduler.Dispatch.{schedule_func_call}

-- One step after another, with the messages of both.
abbrev pub and_then :
    Result (Node × List Output) → (Node → Result (Node × List Output)) → Result (Node × List Output)
and_then crash f = crash
and_then (ok (n, out)) f = elim (f n) [ crash ↦ crash | ok (n', more) ↦ ok (n', out ++ more) ]

-- The values of the objects, if the node has all of them.
unfoldable pub cached_args : Text → List (Text × Text) → HashMap Text Text → Option (List Text)
cached_args bucket [] vals = some []
cached_args bucket ((session, key) ∷ rest) vals =
    let more = cached_args bucket rest vals in
    elim (HashMap.find (get_local_object_name bucket key session) vals) [
      | none ↦ none
      | some v ↦ elim more [ none ↦ none | some vs ↦ some (v ∷ vs) ]
    ]

-- The name and the size of each object. key_len_map[key_name] adds a key that is not there.
unfoldable pub sized_args : Text → List (Text × Text) → HashMap Text ℕ → List Text × HashMap Text ℕ
sized_args bucket [] lens = ([], lens)
sized_args bucket ((session, key) ∷ rest) lens =
    let name = get_local_object_name bucket key session in
    let (more, lens') = sized_args bucket rest (HashMap.touch name lens 0) in
    (name ∷ to_string (HashMap.get_or name lens 0) ∷ more, lens')

-- The calls of a trigger's actions. Once the values of an action are at hand, arg_flag stays 0 for
-- the actions that follow.
unfoldable pub action_calls :
    Text
    → List TriggerAction
    → ℤ
    → HashMap Text Text
    → HashMap Text ℕ
    → List TriggerFunctionMetadata × HashMap Text ℕ
unfolding cached_args sized_args
action_calls bucket [] flag vals lens = ([], lens)
action_calls bucket (a ∷ actions) flag vals lens = elim (cached_args bucket a.session_keys vals) [
  | some args ↦
      let (more, lens') = action_calls bucket actions (pos 0) vals lens in
      let c : TriggerFunctionMetadata = record {
        func_name = a.function;
        func_args = args;
        arg_flag = pos 0;
      } in
      (c ∷ more, lens')
  | none ↦
      let (args, lens1) = sized_args bucket a.session_keys lens in
      let (more, lens2) = action_calls bucket actions flag vals lens1 in
      let c : TriggerFunctionMetadata = record {
        func_name = a.function;
        func_args = args;
        arg_flag = flag;
      } in
      (c ∷ more, lens2)
]

-- The names of the triggers that fire, the calls, and the node.
abbrev pub Arrived : Type 0
Arrived = List Text × List TriggerFunctionMetadata × Node

abbrev pub trigger_arrival : BucketKey → ℕ → ℕ → Trigger → Node → Arrived
trigger_arrival b now ptr t n =
    let (actions, t') = action_for_new_object t b now in
    let n' = record n { triggers = update_trigger ptr (λ old. t') n.triggers } in
    elim actions [
      | [] ↦ ([], [], n')
      | a ∷ more ↦
          let (calls, lens) =
            action_calls b.bucket (a ∷ more) (suc_ℤ t.trigger_option) n.key_val n.key_len in
          (t.trigger_name ∷ [], calls, record n' { key_len = lens })
    ]

-- A pointer always points to a trigger.
unfoldable pub arrive_at : BucketKey → ℕ → List ℕ → Node → Arrived
unfolding action_calls update_trigger
arrive_at b now [] n = ([], [], n)
arrive_at b now (ptr ∷ ptrs) n = elim (get_elem? n.triggers ptr) [
  | none ↦ arrive_at b now ptrs n
  | some t ↦
      let (names, calls, n1) = trigger_arrival b now ptr t n in
      let (names2, calls2, n2) = arrive_at b now ptrs n1 in (names ++ names2, calls ++ calls2, n2)
]

unfoldable pub check_object_arrival : BucketKey → ℕ → Node → Arrived
unfolding arrive_at
check_object_arrival b now n = arrive_at b now (HashMap.get_or b.bucket n.bucket_triggers []) n

module _ (shm_read : Text → ℕ → Text) where
  -- get_shm_obj: an object that is not here has size 0.
  unfoldable pub get_shm_obj : Text → HashMap Text ℕ → Text × ℕ
  get_shm_obj key_name lens = elim (HashMap.find key_name lens) [
    | none ↦ ([], 0)
    | some size ↦ (shm_read key_name size, size)
  ]

  module _ (rand_r : ℕ → ℕ × ℕ) (config : Config) where
    -- Each call in turn, for the application that `app_of` gives its function.
    unfoldable pub schedule_all :
        Text → (Text → Text) → List TriggerFunctionMetadata → ℕ → Node → Result (Node × List Output)
    unfolding schedule_func_call
    schedule_all session app_of [] now n = ok (n, [])
    schedule_all session app_of (c ∷ calls) now n =
        and_then
          (schedule_func_call shm_read rand_r config session (app_of c.func_name) c.func_name
            c.func_args c.arg_flag now n)
          (λ n'. schedule_all session app_of calls now n')

    -- The names of the triggers that fired are returned.
    unfoldable pub check_trigger :
        BucketKey → Text → ℕ → Node → List Text × Result (Node × List Output)
    unfolding check_object_arrival schedule_all
    check_trigger b session now n =
        let (names, calls, n') = check_object_arrival b now n in
        (names, schedule_all session (λ f. HashMap.get_or b.bucket n.bucket_app []) calls now n')
