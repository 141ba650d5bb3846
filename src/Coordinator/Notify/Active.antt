-- ===== src/Coordinator/Notify/Active.antt =====
-- The active triggers of a notification (src/coordinator/notify_handler.cpp, 64-73): the node has
-- already called what they call.
use spheromone.Prelude.{
  false, append-nil, ℕ, ◌≡◌, refl, Bool-cases, inl, inr, true, List, [], ◌∷◌, ◌++◌, map, All,
  All-append_parts,
}
use spheromone.Text.{Text, text_eq}
use spheromone.HashSet
use spheromone.HashMap
use spheromone.Coordinator.TriggerOp.{triggers_of, is_by_time}
use spheromone.Common.Key.{BucketKey}
use spheromone.Common.Result.{ok}
use spheromone.Trigger.Types.{
  Trigger, TriggerAction, Kind, immediately, named, batched, gathered, grouped, k_of_n, timed,
}
use spheromone.Trigger.Arrival.{action_for_new_object, kind_arrival}
use spheromone.Trigger.Primitive.{kind_type}
use spheromone.Messages.{KeyNotifyRequest}
use spheromone.Coordinator.Notify.{Run, act, run_actions, run_triggers, notify_object, sync_nodes}

-- The triggers after an object.
abbrev pub after : BucketKey → ℕ → List Trigger → List Trigger
after b now ts = map (λ (t : Trigger). (action_for_new_object t b now).1) ts

abbrev pub name_if_any : Text → List TriggerAction → List Text
name_if_any name [] = []
name_if_any name (a ∷ actions) = name ∷ []

-- The names of the triggers for which an object asks for calls.
unfoldable pub firing : BucketKey → ℕ → List Trigger → List Text
firing b now [] = []
firing b now (t ∷ ts) =
    name_if_any t.trigger_name (action_for_new_object t b now).0 ++ firing b now ts

-- No timed trigger: the clock plays no part.
abbrev pub Untimed : List Trigger → Type 0
Untimed ts = All (λ (t : Trigger). is_by_time (kind_type t.kind) ≡ false) ts

kind_clock_free :
    (f : Text) (k : Kind) (b : BucketKey) (now later : ℕ)
    → is_by_time (kind_type k) ≡ false
    → kind_arrival f k b now ≡ kind_arrival f k b later
unfolding kind_arrival kind_type
kind_clock_free f (immediately c) b now later h = refl
kind_clock_free f (named s) b now later h = refl
kind_clock_free f (batched s) b now later h = refl
kind_clock_free f (gathered s) b now later h = refl
kind_clock_free f (grouped s) b now later h = refl
kind_clock_free f (k_of_n s) b now later h = refl
kind_clock_free f (timed s) b now later h = cc

clock_free :
    (t : Trigger) (b : BucketKey) (now later : ℕ)
    → is_by_time (kind_type t.kind) ≡ false
    → action_for_new_object t b now ≡ action_for_new_object t b later
unfolding action_for_new_object
clock_free t b now later h = rw (kind_clock_free t.target_function t.kind b now later h) refl

pub after-clock :
    (b : BucketKey) (now later : ℕ) (ts : List Trigger)
    → Untimed ts
    → after b now ts ≡ after b later ts
after-clock b now later [] u = refl
after-clock b now later (t ∷ ts) u =
    rw (clock_free t b now later u.0, after-clock b now later ts u.1) refl

pub firing-clock :
    (b : BucketKey) (now later : ℕ) (ts : List Trigger)
    → Untimed ts
    → firing b now ts ≡ firing b later ts
unfolding firing
firing-clock b now later [] u = refl
firing-clock b now later (t ∷ ts) u =
    rw (clock_free t b now later u.0, firing-clock b now later ts u.1) refl

abbrev pub IsActive : KeyNotifyRequest → Text → Type 0
IsActive r name = HashSet.contains name (HashSet.insert_all r.active_trigger_names []) ≡ true

module _ (rand_r : ℕ → ℕ × ℕ) (io_thread_num : ℕ) (r : KeyNotifyRequest) (now : ℕ)
    (b : BucketKey) where
  act-quiet :
      (t : Trigger) (actions : List TriggerAction) (run : Run)
      → All (IsActive r) (name_if_any t.trigger_name actions)
      → act rand_r io_thread_num r now b t actions run ≡ ok ([], run)
  unfolding act run_actions
  act-quiet t [] run h =
      elim (Bool-cases
        (HashSet.contains t.trigger_name (HashSet.insert_all r.active_trigger_names []))) [
          | inl e ↦ rw e refl
          | inr e ↦ rw e refl
        ]
  act-quiet t (a ∷ actions) run h = rw (h.0) refl

  -- Every trigger that fires is active: they take the object, and nothing is called.
  pub run_triggers-quiet :
      (ts : List Trigger) (run : Run)
      → All (IsActive r) (firing b now ts)
      → run_triggers rand_r io_thread_num r now b ts run ≡ ok (after b now ts, [], run)
  unfolding run_triggers firing
  run_triggers-quiet [] run h = refl
  run_triggers-quiet (t ∷ ts) run h =
      let (actions, t') = action_for_new_object t b now in
      let (here, rest) =
        All-append_parts (IsActive r) (name_if_any t.trigger_name actions) (firing b now ts) h in
      rw (act-quiet t actions run here, run_triggers-quiet ts run rest) refl

  -- So nothing is sent, and only the bucket's triggers change.
  pub notify_object-quiet :
      (run : Run)
      → All (IsActive r) (firing b now (triggers_of run.state b.bucket))
      → notify_object rand_r io_thread_num r now b run
        ≡ ok (record run {
          state = record run.state {
            bucket_triggers =
                HashMap.put b.bucket
                  (after b now (triggers_of run.state b.bucket))
                  run.state.bucket_triggers;
          };
        })
  unfolding notify_object sync_nodes
  notify_object-quiet run h =
      rw (run_triggers-quiet (triggers_of run.state b.bucket) run h) (rw (append-nil run.sent) refl)
