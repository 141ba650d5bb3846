-- ===== src/Scheduler/Reruns.antt =====
-- The loop over the rerun queue in `run` of src/scheduler/scheduler.cpp ends: what a rerun adds to
-- the queue is checked later.
use spheromone.Prelude.{
  ℕ, zero, suc, ◌<◌, ◌≡◌, refl, true, some, List, [], ◌∷◌, ◌++◌, inl, inr, Bool-cases, Option-cases,
  arith, nat_eq, if◌then◌else◌, leb, ltb, length,
}
use spheromone.Prelude.Int.{ℤ, pos, ltb_ℤ}
use spheromone.Text.{Text, text_eq}
use spheromone.HashMap
use spheromone.Common.Result.{Result, ok, crash, ◌>>=◌}
use spheromone.Trigger.Types.{TriggerFunctionMetadata}
use spheromone.Scheduler.State.{Node, Helper, Config, Output, RerunCheckQueueItem}
use spheromone.Scheduler.Helper.{forward_func_call}
use spheromone.HashMap.{HashMap}
use spheromone.Scheduler.Forward.{
  client_of, real_calls, forward, forward_packed, forward_call_via_helper, flat_args, total_size,
  forward_data_packing_threshold,
}
use spheromone.Scheduler.Dispatch.{
  note_reruns, assign, postpone, schedule_func_call, candidates, pick_executor,
}
use spheromone.Scheduler.Arrival.{and_then, schedule_all}
use spheromone.Scheduler.Loop.{rerun_check, rerun_item, check_reruns, pop_rerun}
use spheromone.Scheduler.RerunQueue.{
  Queue, due, due_le_length, Later, same, pushed, Later-trans, pop, first_due, Later-first, due-pop,
}

-- If the code does not crash, its queue is a later one.
data Keeps (e : ℕ) (q : Queue) : Result (Node × List Output) → Type 0 where
  crashed : Keeps e q crash
  kept : (n : Node) (out : List Output) → Later e q n.rerun_queue → Keeps e q (ok (n, out))

keeps_more :
    {e : ℕ} {p q : Queue} {r : Result (Node × List Output)}
    → Later e p q
    → Keeps e q r
    → Keeps e p r
keeps_more l crashed = crashed
keeps_more l (kept n out k) = kept n out (Later-trans l k)

added :
    {e : ℕ} {q : Queue} (out : List Output) (r : Result (Node × List Output))
    → Keeps e q r
    → Keeps e q (elim r [ crash ↦ crash | ok (n', more) ↦ ok (n', out ++ more) ])
added out _ crashed = crashed
added out _ (kept n more k) = kept n (out ++ more) k

Keeps-and_then :
    (e : ℕ) (q : Queue) (r : Result (Node × List Output)) (f : Node → Result (Node × List Output))
    → Keeps e q r
    → ((n : Node) → Keeps e n.rerun_queue (f n))
    → Keeps e q (and_then r f)
Keeps-and_then e q _ f crashed h = crashed
Keeps-and_then e q _ f (kept n out k) h = added out (f n) (keeps_more k (h n))

module _ (shm_read : Text → ℕ → Text) (rand_r : ℕ → ℕ × ℕ) (config : Config) (e now : ℕ) where
  note_reruns-Later :
      (timeouts : List (ℕ × ℕ)) (f session : Text) (args : List Text) (flag : ℤ) (n : Node)
      → e < now
      → Later e n.rerun_queue (note_reruns timeouts f session args flag now n).rerun_queue
  unfolding note_reruns
  note_reruns-Later [] f session args flag n h = same
  note_reruns-Later ((ptr, timeout) ∷ rest) f session args flag n h =
      Later-trans (pushed _ (omega arith) same) (note_reruns-Later rest f session args flag _ h)

  sent_Keeps :
      (n : Node) (r : Result (List Output × Helper))
      → Keeps e n.rerun_queue (r >>= (λ (sent, h). ok (record n { helper = h }, sent)))
  sent_Keeps n (ok (sent, h)) = kept (record n { helper = h }) sent same
  sent_Keeps n crash = crashed

  forward-Keeps :
      (session app : Text) (calls : List (Text × List Text)) (flag : ℤ) (n : Node)
      → Keeps e n.rerun_queue (forward shm_read session app calls flag n)
  forward-Keeps session app calls flag n =
      sent_Keeps n (forward_func_call (client_of session n) app calls flag session n.helper)

  packed_Keeps :
      (session app : Text) (n : Node) (r : Result (List (Text × List Text) × HashMap Text ℕ))
      → Keeps e n.rerun_queue (
          r >>= (λ (real, lens).
            forward shm_read session app real (pos 0) (record n { key_len = lens })))
  packed_Keeps session app n (ok (real, lens)) =
      forward-Keeps session app real (pos 0) (record n { key_len = lens })
  packed_Keeps session app n crash = crashed

  sized_Keeps :
      (session app : Text) (calls : List (Text × List Text)) (flag : ℤ) (n : Node) (r : Result ℕ)
      → Keeps e n.rerun_queue (
          r >>= (λ total.
            (if ltb total forward_data_packing_threshold
              then forward_packed shm_read session app calls flag n
              else forward shm_read session app calls flag n)))
  unfolding forward_packed
  sized_Keeps session app calls flag n crash = crashed
  sized_Keeps session app calls flag n (ok total) =
      elim (Bool-cases (ltb total forward_data_packing_threshold)) [
        | inl h ↦ rw h (packed_Keeps session app n (real_calls shm_read flag calls n.key_len))
        | inr h ↦ rw h (forward-Keeps session app calls flag n)
      ]

  forward_call-Keeps :
      (session app : Text) (calls : List (Text × List Text)) (flag : ℤ) (n : Node)
      → Keeps e n.rerun_queue (forward_call_via_helper shm_read session app calls flag n)
  unfolding forward_call_via_helper
  forward_call-Keeps session app calls flag n = elim (Bool-cases (ltb_ℤ (pos 0) flag)) [
    | inl h ↦ rw h (sized_Keeps session app calls flag n (total_size calls))
    | inr h ↦ rw h (forward-Keeps session app calls flag n)
  ]

  flat_Keeps :
      (session app f : Text) (flag : ℤ) (n : Node) (r : Result (List Text))
      → Keeps e n.rerun_queue
          (r >>= (λ flat. forward_call_via_helper shm_read session app ((f, flat) ∷ []) flag n))
  flat_Keeps session app f flag n crash = crashed
  flat_Keeps session app f flag n (ok flat) = forward_call-Keeps session app ((f, flat) ∷ []) flag n

  postpone-Keeps :
      (session app f : Text) (args : List Text) (flag : ℤ) (n : Node)
      → Keeps e n.rerun_queue (postpone shm_read rand_r config session app f args flag now n)
  unfolding postpone
  postpone-Keeps session app f args flag n = elim (Bool-cases (ltb 0 config.sched_delay_time)) [
    | inl h ↦ rw h (kept _ _ same)
    | inr h ↦ rw h (elim (Bool-cases config.reject_extra_req) [
      | inl g ↦ rw g (kept n [] same)
      | inr g ↦ rw g (flat_Keeps session app f flag n (flat_args flag args))
    ])
  ]

  schedule-Keeps :
      (session app f : Text) (args : List Text) (flag : ℤ) (n : Node)
      → e < now
      → Keeps e n.rerun_queue
          (schedule_func_call shm_read rand_r config session app f args flag now n)
  unfolding schedule_func_call assign
  schedule-Keeps session app f args flag n h =
      let found =
        candidates config.shared_executor (HashMap.get_or f n.function_executor [])
          n.executor_status in
      elim (Option-cases (pick_executor rand_r found n.ram_seed)) [
        | inl g ↦ rw (g, schedule_func_call) (postpone-Keeps session app f args flag n)
        | inr (pick, g) ↦
            rw (g, schedule_func_call)
              (kept _ _ (
                note_reruns-Later (HashMap.get_or f n.func_trigger_timeout []) f session args flag _
                  h))
      ]

  schedule_all-Keeps :
      (session : Text) (app_of : Text → Text) (calls : List TriggerFunctionMetadata) (n : Node)
      → e < now
      → Keeps e n.rerun_queue (schedule_all shm_read rand_r config session app_of calls now n)
  unfolding schedule_all
  schedule_all-Keeps session app_of [] n h = kept n [] same
  schedule_all-Keeps session app_of (c ∷ calls) n h =
      Keeps-and_then _ _ _ _
        (schedule-Keeps session (app_of c.func_name) c.func_name c.func_args c.arg_flag n h)
        (λ n'. schedule_all-Keeps session app_of calls n' h)

  rerun_item-Keeps :
      (item : RerunCheckQueueItem) (n : Node)
      → e < now
      → Keeps e n.rerun_queue (rerun_item shm_read rand_r config item now n)
  unfolding rerun_item
  rerun_item-Keeps item n h = schedule_all-Keeps item.session _ _ n h

  abbrev Ends : ℕ → Node → Type 0
  Ends fuel n =
      (r : Result (Node × List Output)) × (rerun_check shm_read rand_r config fuel e now n ≡ some r)

  Ends-later :
      (fuel : ℕ) (n : Node) (item : RerunCheckQueueItem) (rest : Queue)
      (r : Result (Node × List Output))
      → n.rerun_queue ≡ item ∷ rest
      → leb item.check_time e ≡ true
      → rerun_item shm_read rand_r config item now n ≡ r
      → Keeps e n.rerun_queue r
      → due e n.rerun_queue < suc fuel
      → ((m : Node) → due e m.rerun_queue < fuel → Ends fuel m)
      → Ends (suc fuel) n
  unfolding rerun_check first_due
  Ends-later fuel n item rest _ eq first g crashed d next =
      (crash, rw (eq, rerun_check) (rw (first, g) refl))
  Ends-later fuel n item rest _ eq first g (kept n1 out l) d next =
      let head : first_due e n.rerun_queue ≡ true = rw eq first in
      let (head1, count) = Later-first l head in
      let fewer : due e (pop n1.rerun_queue) < fuel =
        omega (arith, due-pop e n1.rerun_queue head1, count) in
      let (r, ends) = next (pop_rerun shm_read rand_r config n1) fewer in
      (and_then (ok (n1, out)) (λ n'. r), rw (eq, rerun_check) (rw (first, g, ends) refl))

  round-Ends :
      (fuel : ℕ) (n : Node) (q : Queue)
      → n.rerun_queue ≡ q
      → e < now
      → due e n.rerun_queue < suc fuel
      → ((m : Node) → due e m.rerun_queue < fuel → Ends fuel m)
      → Ends (suc fuel) n
  unfolding rerun_check
  round-Ends fuel n [] eq h d next = (ok (n, []), simp (eq, rerun_check))
  round-Ends fuel n (item ∷ rest) eq h d next = elim (Bool-cases (leb item.check_time e)) [
    | inl first ↦ Ends-later fuel n item rest _ eq first refl (rerun_item-Keeps item n h) d next
    | inr later ↦ (ok (n, []), simp (eq, rerun_check, later))
  ]

  rounds_enough : (fuel : ℕ) (n : Node) → e < now → due e n.rerun_queue < fuel → Ends fuel n
  rounds_enough zero n h d = absurd (omega arith)
  rounds_enough (suc fuel) n h d =
      round-Ends fuel n n.rerun_queue refl h d (λ m f. rounds_enough fuel m h f)

  -- The loop ends, whatever the triggers call again, if the clock has moved on when it schedules.
  pub check_reruns_ends :
      (n : Node)
      → e < now
      → (r : Result (Node × List Output)) × (check_reruns shm_read rand_r config e now n ≡ some r)
  check_reruns_ends n h =
      rounds_enough (suc (length n.rerun_queue)) n h (omega (arith, due_le_length e n.rerun_queue))
