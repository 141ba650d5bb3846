-- ===== src/Scheduler/Dispatch.antt =====
-- schedule_func_call of src/scheduler/scheduler.cpp, with
-- get_avail_executor_num: where a function call runs. rand_r of the C library, the content of shared
-- memory and the configuration are parameters. `now` is the clock reading in nanoseconds.
use spheromone.Prelude.{
  ℕ, ◌+◌, ◌*◌, ◌%◌, Bool, true, false, Option, none, some, List, [], ◌∷◌, ◌++◌, nat_eq, ◌&&◌,
  if◌then◌else◌, ltb, length, get_elem?,
}
use spheromone.Prelude.Int.{ℤ, suc_ℤ, uint8_of_int}
use spheromone.Text.{Text, text, text_eq, find_char}
use spheromone.Text
use spheromone.HashMap
use spheromone.HashMap.{HashMap}
use spheromone.HashSet
use spheromone.HashSet.{HashSet}
use spheromone.Common.Key.{delimiter}
use spheromone.Common.Result.{Result, ok, ◌>>=◌}
use spheromone.Trigger.Types.{Trigger}
use spheromone.Trigger.Rerun.{notify_source_func}
use spheromone.Scheduler.State.{
  Node, Config, ExecutorStatus, available, await, busy, DelayFunctionCall, RerunCheckQueueItem,
  Output, to_executor,
}
use spheromone.Scheduler.Update.{update_trigger}
use spheromone.Scheduler.Forward.{client_of, forward_call_via_helper, flat_args}

abbrev pub is_free : ExecutorStatus → Bool
is_free ExecutorStatus.empty = true
is_free available = true
is_free await = false
is_free busy = false

-- An executor that has no function loaded, or any free one if executors are shared.
abbrev pub is_cold : Bool → ExecutorStatus → Bool
is_cold shared ExecutorStatus.empty = true
is_cold shared available = shared
is_cold shared await = false
is_cold shared busy = false

abbrev pub is_available : ExecutorStatus → Bool
is_available available = true
is_available _ = false

unfoldable pub get_avail_executor_num : HashMap ℕ ExecutorStatus → ℕ
get_avail_executor_num [] = 0
get_avail_executor_num ((id, status) ∷ rest) =
    (if is_free status then 1 else 0) + get_avail_executor_num rest

-- The first warm executor, and the cold ones in front of it.
unfoldable pub candidates : Bool → HashSet ℕ → HashMap ℕ ExecutorStatus → Option ℕ × List ℕ
candidates shared warm [] = (none, [])
candidates shared warm ((id, status) ∷ rest) =
    let more = candidates shared warm rest in
    if is_available status && HashSet.contains id warm
    then (some id, [])
    else (more.0, if is_cold shared status then id ∷ more.1 else more.1)

-- The executor, whether it was warm, and the random seed that is left. The drawn index is in range.
unfoldable pub pick_executor : (ℕ → ℕ × ℕ) → Option ℕ × List ℕ → ℕ → Option (ℕ × Bool × ℕ)
pick_executor rand_r (some id, cold) seed = some (id, true, (rand_r seed).1)
pick_executor rand_r (none, []) seed = none
pick_executor rand_r (none, c ∷ cold) seed =
    let (r, next) = rand_r seed in
    elim (get_elem? (c ∷ cold) (r % length (c ∷ cold))) [
      | none ↦ none
      | some id ↦ some (id, false, next)
    ]

-- Each argument behind the separator.
unfoldable pub with_args : List Text → Text
with_args [] = []
with_args (a ∷ args) = delimiter ∷ a ++ with_args args

-- The message of a call: its type, the argument flag and the persist flag, one byte each, then the
-- session, the function and the arguments.
unfoldable pub call_message : ℤ → Bool → Text → Text → List Text → Text
unfolding with_args
call_message arg_flag persist session func_name args =
    let flag : ℕ = if persist then 1 else 2 in
    1 ∷ uint8_of_int (suc_ℤ arg_flag) ∷ flag ∷ session ++ delimiter ∷ func_name ++ with_args args

-- rerun_check_queue.push: the queue is ordered by the checking time.
unfoldable pub push_rerun :
    RerunCheckQueueItem → List RerunCheckQueueItem → List RerunCheckQueueItem
push_rerun x [] = x ∷ []
push_rerun x (y ∷ ys) = if ltb x.check_time y.check_time then x ∷ y ∷ ys else y ∷ push_rerun x ys

-- The call becomes a pending one of each trigger that waits for the function.
unfoldable pub note_reruns : List (ℕ × ℕ) → Text → Text → List Text → ℤ → ℕ → Node → Node
unfolding push_rerun
note_reruns [] func_name session args flag now n = n
note_reruns ((ptr, timeout) ∷ rest) func_name session args flag now n =
    note_reruns rest func_name session args flag now (record n {
      triggers =
          update_trigger ptr (λ (t : Trigger). notify_source_func t func_name session args flag)
            n.triggers;
      rerun_queue =
          push_rerun
            (record { check_time = now + timeout * 1000000; session = session; trigger_ptr = ptr })
            n.rerun_queue;
    })

-- A channel that is not there is reported.
abbrev pub send_to_executer : ℕ → Text → Node → List Output
send_to_executer id msg n =
    if HashSet.contains id n.executor_chans then to_executor id msg ∷ [] else []

module _ (shm_read : Text → ℕ → Text) (rand_r : ℕ → ℕ × ℕ) (config : Config) where
  -- The call goes to an executor.
  unfoldable pub assign : ℕ → Bool → Text → Text → List Text → ℤ → ℕ → Node → Node × List Output
  unfolding call_message note_reruns client_of
  assign id warm session func_name args flag now n =
      let execs = HashMap.get_or func_name n.function_executor [] in
      let msg = call_message flag (Text.empty (client_of session n)) session func_name args in
      let n1 = record n {
        function_executor =
            if warm
            then n.function_executor
            else HashMap.put func_name (HashSet.insert id execs) n.function_executor;
        executor_status = HashMap.put id await n.executor_status;
      } in
      (
        note_reruns (HashMap.get_or func_name n.func_trigger_timeout []) func_name session args flag
            now n1,
        send_to_executer id msg n,
      )

  -- No executor can take the call: it waits, is forwarded, or is dropped.
  unfoldable pub postpone :
      Text → Text → Text → List Text → ℤ → ℕ → Node → Result (Node × List Output)
  unfolding flat_args forward_call_via_helper
  postpone session app func_name args flag now n =
      let waiting : DelayFunctionCall = record {
        session_id = session;
        app_name = app;
        func_name = func_name;
        func_args = args;
        arg_flag = flag;
        trigger_time = now;
      } in
      if ltb 0 config.sched_delay_time
      then ok (record n { delay_queue = n.delay_queue ++ waiting ∷ [] }, [])
      else if config.reject_extra_req
      then ok (n, [])
      else (do
        flat ← flat_args flag args
        forward_call_via_helper shm_read session app ((func_name, flat) ∷ []) flag n)

  unfoldable pub schedule_func_call :
      Text → Text → Text → List Text → ℤ → ℕ → Node → Result (Node × List Output)
  unfolding candidates pick_executor assign postpone
  schedule_func_call session app func_name args flag now n =
      let warm = HashMap.get_or func_name n.function_executor [] in
      let found = candidates config.shared_executor warm n.executor_status in
      elim (pick_executor rand_r found n.ram_seed) [
        | none ↦ postpone session app func_name args flag now n
        | some (id, is_warm, seed) ↦
            ok (assign id is_warm session func_name args flag now (record n { ram_seed = seed }))
      ]
