-- ===== src/Scheduler/Loop.antt =====
-- The calls that wait for an executor, the timer, and one round of `run` in
-- src/scheduler/scheduler.cpp.
use spheromone.Prelude.{
  ℕ, zero, suc, ◌-◌, ◌/◌, Bool, Option, none, some, List, [], ◌∷◌, nat_eq, if◌then◌else◌, ltb, leb,
  length, get_elem?,
}
use spheromone.Text.{Text, text_eq}
use spheromone.HashMap
use spheromone.HashMap.{HashMap}
use spheromone.Common.Result.{Result, ok, crash}
use spheromone.Trigger.Types.{TriggerFunctionMetadata}
use spheromone.Trigger.Rerun.{action_for_rerun}
use spheromone.Scheduler.State.{Node, Config, Output, DelayFunctionCall, RerunCheckQueueItem}
use spheromone.Scheduler.Helper.{update_status}
use spheromone.Scheduler.Receive.{RecvMsg}
use spheromone.Scheduler.Forward.{forward_call_via_helper}
use spheromone.Scheduler.Dispatch.{get_avail_executor_num, schedule_func_call}
use spheromone.Scheduler.Arrival.{and_then, schedule_all}
use spheromone.Scheduler.Requests.{handle_message}
use spheromone.Scheduler.Responses.{handle_responses}

module _ (shm_read : Text → ℕ → Text) (rand_r : ℕ → ℕ × ℕ) (config : Config) where
  abbrev pub pop_delayed : Node → Node
  pop_delayed n = record n { delay_queue = elim n.delay_queue [ [] ↦ [] | d ∷ rest ↦ rest ] }

  abbrev pub schedule_delayed : DelayFunctionCall → ℕ → Node → Result (Node × List Output)
  schedule_delayed d now n =
      schedule_func_call shm_read rand_r config d.session_id d.app_name d.func_name d.func_args
        d.arg_flag now n

  -- As many of the calls that wait as there are free executors. The first one leaves the queue after
  -- it was scheduled.
  unfoldable pub retry_delayed : ℕ → ℕ → Node → Result (Node × List Output)
  retry_delayed zero now n = ok (n, [])
  retry_delayed (suc avail) now n = elim n.delay_queue [
    | [] ↦ ok (n, [])
    | d ∷ rest ↦
        and_then (schedule_delayed d now n) (λ n'. retry_delayed avail now (pop_delayed n'))
  ]

  -- Longer than the configured number of microseconds.
  unfoldable pub is_overdue : ℕ → DelayFunctionCall → Bool
  is_overdue now d = ltb config.sched_delay_time ((now - d.trigger_time) / 1000)

  abbrev pub forward_delayed : DelayFunctionCall → Node → Result (Node × List Output)
  forward_delayed d n =
      if config.reject_extra_req
      then ok (n, [])
      else forward_call_via_helper shm_read d.session_id d.app_name
          ((d.func_name, d.func_args) ∷ []) d.arg_flag n

  -- The calls at the front that wait for too long are forwarded, or dropped.
  unfoldable pub expire_delayed : List DelayFunctionCall → ℕ → Node → Result (Node × List Output)
  unfolding is_overdue
  expire_delayed [] now n = ok (record n { delay_queue = [] }, [])
  expire_delayed (d ∷ rest) now n =
      let next = λ (n' : Node). expire_delayed rest now n' in
      if is_overdue now d
      then and_then (forward_delayed d n) next
      else ok (record n { delay_queue = d ∷ rest }, [])

  -- The clock is read once for the calls that are tried again, and once more behind them.
  unfoldable pub delay_forwarding : ℕ → ℕ → Node → Result (Node × List Output)
  unfolding retry_delayed expire_delayed
  delay_forwarding now later n =
      and_then (retry_delayed (get_avail_executor_num n.executor_status) now n)
        (λ n'. expire_delayed n'.delay_queue later n')

  abbrev pub pop_rerun : Node → Node
  pop_rerun n = record n { rerun_queue = elim n.rerun_queue [ [] ↦ [] | item ∷ rest ↦ rest ] }

  -- The functions that the trigger calls again.
  unfoldable pub rerun_item : RerunCheckQueueItem → ℕ → Node → Result (Node × List Output)
  rerun_item item now n =
      let calls : List TriggerFunctionMetadata = elim (get_elem? n.triggers item.trigger_ptr) [
        | none ↦ []
        | some t ↦ action_for_rerun t item.session
      ] in
      schedule_all shm_read rand_r config item.session (λ f. HashMap.get_or f n.func_app []) calls
        now n

  -- The items whose time has come, at most `fuel` of them: `none` is out of fuel. An item leaves the
  -- queue after its calls are scheduled.
  unfoldable pub rerun_check : ℕ → ℕ → ℕ → Node → Option (Result (Node × List Output))
  unfolding rerun_item
  rerun_check zero report_end now n = none
  rerun_check (suc fuel) report_end now n = elim n.rerun_queue [
    | [] ↦ some (ok (n, []))
    | item ∷ rest ↦
        if leb item.check_time report_end
        then elim (rerun_item item now n) [
          | crash ↦ some crash
          | ok (n1, sent) ↦ elim (rerun_check fuel report_end now (pop_rerun n1)) [
            | none ↦ none
            | some r ↦ some (and_then (ok (n1, sent)) (λ n'. r))
          ]
        ]
        else some (ok (n, []))
  ]

  -- Each item of the queue needs one round, and the end one more.
  abbrev pub check_reruns : ℕ → ℕ → Node → Option (Result (Node × List Output))
  check_reruns report_end now n = rerun_check (suc (length n.rerun_queue)) report_end now n

  -- The timer: reruns, and the status for the coordinators.
  unfoldable pub report : ℕ → ℕ → Node → Option (Result (Node × List Output))
  unfolding rerun_check
  report report_end now n = elim (check_reruns report_end now n) [
    | none ↦ none
    | some r ↦ some (
        and_then r
          (λ n'. ok (n', update_status (get_avail_executor_num n'.executor_status) n'.helper)))
  ]

  unfoldable pub delayed_calls : ℕ → ℕ → Node → Result (Node × List Output)
  unfolding delay_forwarding
  delayed_calls now later n = elim n.delay_queue [
    | [] ↦ ok (n, [])
    | _ ↦ delay_forwarding now later n
  ]

  -- One round of `run` up to the timer: a message, if there is one, what the helper received, and
  -- the calls that wait. The helper's answers are read after the message was handled.
  unfoldable pub round :
      Option Text → (Node → List RecvMsg) → ℕ → ℕ → Node → Result (Node × List Output)
  unfolding handle_responses delayed_calls
  round message received now later n =
      let first : Result (Node × List Output) = elim message [
        | none ↦ ok (n, [])
        | some str ↦ handle_message shm_read rand_r config str now n
      ] in
      and_then (and_then first (λ n1. handle_responses shm_read rand_r config (received n1) now n1))
        (delayed_calls now later)
