-- ===== src/Scheduler/Starvation.antt =====
-- A delayed call while executors are free that it does not fit: the delay queue of `run` in
-- src/scheduler/scheduler.cpp.
use spheromone.Prelude.{
  ℕ, zero, suc, ◌-◌, ◌/◌, ◌<◌, ◌≤◌, ◌≡◌, refl, ap, ◌∙◌, true, false, none, List, [], ◌∷◌, ◌++◌,
  arith, nat_eq, ltb, lt→ltb,
}
use spheromone.Text.{Text, text_eq}
use spheromone.HashMap
use spheromone.Common.Result.{Result, ok, crash}
use spheromone.Scheduler.State.{Node, Config, Output, DelayFunctionCall}
use spheromone.Scheduler.Dispatch.{
  schedule_func_call, candidates, pick_executor, postpone, get_avail_executor_num,
}
use spheromone.Scheduler.Arrival.{and_then}
use spheromone.Scheduler.Loop.{
  delayed_calls, delay_forwarding, retry_delayed, expire_delayed, is_overdue, schedule_delayed,
  pop_delayed,
}

module _ (shm_read : Text → ℕ → Text) (rand_r : ℕ → ℕ × ℕ) (config : Config) (now : ℕ)
    (n : Node) where
  abbrev queued : List DelayFunctionCall → Node
  queued q = record n { delay_queue = q }

  abbrev renewed : DelayFunctionCall → DelayFunctionCall
  renewed d = record d { trigger_time = now }

  -- No executor fits the call.
  abbrev pub FitsNone : DelayFunctionCall → Type 0
  FitsNone d =
      candidates config.shared_executor (HashMap.get_or d.func_name n.function_executor [])
        n.executor_status
      ≡ (none, [])

  again :
      (d : DelayFunctionCall) (q : List DelayFunctionCall)
      → 0 < config.sched_delay_time
      → FitsNone d
      → schedule_delayed shm_read rand_r config d now (queued q)
        ≡ ok (queued (q ++ renewed d ∷ []), [])
  unfolding schedule_func_call pick_executor postpone
  again d q delays h =
      let on : ltb 0 config.sched_delay_time ≡ true = lt→ltb 0 config.sched_delay_time delays in
      rw (h, schedule_func_call) (rw (on, postpone) refl)

  abbrev unsent : Result (Node × List Output) → Result (Node × List Output)
  unsent r = elim r [ crash ↦ crash | ok (m, more) ↦ ok (m, more) ]

  retried :
      (avail : ℕ) (d : DelayFunctionCall)
      → 0 < config.sched_delay_time
      → FitsNone d
      → retry_delayed shm_read rand_r config (suc avail) now (queued (d ∷ []))
        ≡ ok (queued (renewed d ∷ []), [])
  unfolding retry_delayed
  retried zero d delays h =
      ap (λ r. and_then r (λ m. ok (pop_delayed shm_read rand_r config m, [])))
        (again d (d ∷ []) delays h)
  retried (suc avail) d delays h =
      ap
        (λ r. and_then r (λ m.
          retry_delayed shm_read rand_r config (suc avail) now
            (pop_delayed shm_read rand_r config m)))
        (again d (d ∷ []) delays h)
      ∙ ap unsent (retried avail (renewed d) delays h)

  fresh :
      (later : ℕ) (d : DelayFunctionCall)
      → (later - now) / 1000 ≤ config.sched_delay_time
      → is_overdue shm_read rand_r config later (renewed d) ≡ false
  unfolding is_overdue
  fresh later d soon = ground arith

  kept :
      (later : ℕ) (d : DelayFunctionCall)
      → (later - now) / 1000 ≤ config.sched_delay_time
      → expire_delayed shm_read rand_r config (renewed d ∷ []) later (queued (renewed d ∷ []))
        ≡ ok (queued (renewed d ∷ []), [])
  unfolding expire_delayed
  kept later d soon = rw (fresh later d soon) refl

  -- While some executor is free, but none fits the only delayed call, the round sends nothing: the
  -- call waits on with a new time, however long it has waited. Between the two clock readings of the
  -- round there is no more than the configured delay.
  pub delayed_call_renewed :
      (avail later : ℕ) (d : DelayFunctionCall)
      → 0 < config.sched_delay_time
      → (later - now) / 1000 ≤ config.sched_delay_time
      → get_avail_executor_num n.executor_status ≡ suc avail
      → FitsNone d
      → delayed_calls shm_read rand_r config now later (queued (d ∷ []))
        ≡ ok (queued (renewed d ∷ []), [])
  unfolding delayed_calls delay_forwarding
  delayed_call_renewed avail later d delays soon free h =
      let tried : retry_delayed shm_read rand_r config (get_avail_executor_num n.executor_status)
            now (queued (d ∷ []))
          ≡ ok (queued (renewed d ∷ []), []) =
        rw free (retried avail d delays h) in
      ap (λ r. and_then r (λ m. expire_delayed shm_read rand_r config m.delay_queue later m)) tried
      ∙ ap unsent (kept later d soon)
