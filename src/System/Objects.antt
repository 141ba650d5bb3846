-- ===== src/System/Objects.antt =====
-- An object arrives at a node (check_object_arrival of src/scheduler/object_handlers.cpp) and is
-- notified to the coordinator (src/coordinator/notify_handler.cpp), with the names of the triggers
-- that have fired.
use spheromone.Prelude.{
  ℕ, ◌≡◌, refl, subst, ◌∙◌, ap, true, false, List, [], ◌∷◌, arith, All, nat_eq, ◌==◌, ==_cases,
  if◌then◌else◌, get_elem?, keep, inl, inr,
}
use spheromone.Text.{Text, text_eq}
use spheromone.HashMap
use spheromone.HashMap.{HashMap, get_or-put}
use spheromone.HashSet
use spheromone.HashSet.{contains-head, contains-tail, contains-insert_all}
use spheromone.Common.Key.{BucketKey}
use spheromone.Messages.{KeyNotifyRequest}
use spheromone.Trigger.Types.{
  Trigger, Kind, immediately, named, batched, gathered, grouped, k_of_n, timed,
}
use spheromone.Trigger.Arrival.{action_for_new_object, kind_arrival}
use spheromone.Trigger.Primitive.{kind_type}
use spheromone.Coordinator.State.{Coordinator}
use spheromone.Coordinator.TriggerOp.{triggers_of, is_by_time}
use spheromone.Coordinator.Notify.Active.{
  after, firing, Untimed, IsActive, after-clock, firing-clock,
}
use spheromone.Scheduler.State.{Node}
use spheromone.Scheduler.Arrival.{check_object_arrival}
use spheromone.Scheduler.Agreement.{Holds, Arrives, arrive_at-Arrives, arrive_at-pointers}
use spheromone.System.Replicas.{Agree, is_untimed, pointers_at, untimed_at}
use spheromone.System.Entities.{NodeAgrees}

All-contains :
    (xs zs : List Text)
    → ((x : Text) → HashSet.contains x xs ≡ true → HashSet.contains x zs ≡ true)
    → All (λ x. HashSet.contains x zs ≡ true) xs
All-contains [] zs h = tt
All-contains (x ∷ xs) zs h =
    (h x (contains-head x xs), All-contains xs zs (λ y c. h y (contains-tail y x xs c)))

All-IsActive :
    (r : KeyNotifyRequest) (names : List Text)
    → r.active_trigger_names ≡ names
    → All (IsActive r) names
All-IsActive r names e = rw e (
    All-contains names (HashSet.insert_all names [])
      (λ x c. contains-insert_all names x [] ∙ (ground (arith, c))))

Holds-kept :
    (store store' : List Trigger) (ps : List ℕ) (ts : List Trigger)
    → ((q : ℕ) → HashSet.contains q ps ≡ true → get_elem? store' q ≡ get_elem? store q)
    → Holds store ps ts
    → Holds store' ps ts
Holds-kept store store' [] [] k h = tt
Holds-kept store store' [] (t ∷ ts) k h = h
Holds-kept store store' (p ∷ ps) [] k h = h
Holds-kept store store' (p ∷ ps) (t ∷ ts) k h = (
  k p (contains-head p ps) ∙ h.0,
  Holds-kept store store' ps ts (λ q c. k q (contains-tail q p ps c)) h.1,
)

-- Where no trigger is timed, all of them are at the node; and they stay so.
keep-Untimed : (ts : List Trigger) → Untimed ts → keep is_untimed ts ≡ ts
keep-Untimed [] u = refl
keep-Untimed (t ∷ ts) u = rw u.0 (ap (λ xs. t ∷ xs) (keep-Untimed ts u.1))

kind_type-arrival :
    (f : Text) (k : Kind) (b : BucketKey) (now : ℕ)
    → kind_type (kind_arrival f k b now).1 ≡ kind_type k
unfolding kind_arrival kind_type
kind_type-arrival f (immediately c) b now = refl
kind_type-arrival f (named s) b now = refl
kind_type-arrival f (batched s) b now = refl
kind_type-arrival f (gathered s) b now = refl
kind_type-arrival f (grouped s) b now = refl
kind_type-arrival f (k_of_n s) b now = refl
kind_type-arrival f (timed s) b now = refl

type_kept :
    (t : Trigger) (b : BucketKey) (now : ℕ)
    → kind_type (action_for_new_object t b now).1.kind ≡ kind_type t.kind
unfolding action_for_new_object
type_kept t b now = kind_type-arrival t.target_function t.kind b now

after-Untimed :
    (b : BucketKey) (now : ℕ) (ts : List Trigger) → Untimed ts → Untimed (after b now ts)
after-Untimed b now [] u = tt
after-Untimed b now (t ∷ ts) u =
    (ap is_by_time (type_kept t b now) ∙ u.0, after-Untimed b now ts u.1)

module _ (b : BucketKey) (now later : ℕ) (c : Coordinator) (n : Node) (agree : NodeAgrees c n)
    (untimed : Untimed (triggers_of c b.bucket)) where
  abbrev pub ts : List Trigger
  ts = triggers_of c b.bucket

  abbrev pub ptrs : List ℕ
  ptrs = pointers_at b.bucket n.bucket_triggers

  abbrev pub arrived_node : Node
  arrived_node = (check_object_arrival b now n).2

  pub arrives : Arrives b now n ptrs ts (check_object_arrival b now n)
  unfolding check_object_arrival
  arrives =
      arrive_at-Arrives b now ptrs ts n
        (subst (Holds n.triggers ptrs) (keep-Untimed ts untimed) (agree.same b.bucket))
        (agree.distinct b.bucket)

  same_pointers : arrived_node.bucket_triggers ≡ n.bucket_triggers
  unfolding check_object_arrival
  same_pointers = arrive_at-pointers b now ptrs n

  here_same : Holds arrived_node.triggers ptrs (keep is_untimed (after b later ts))
  here_same = rw (keep-Untimed (after b later ts) (after-Untimed b later ts untimed)) (
      subst (Holds arrived_node.triggers ptrs) (after-clock b now later ts untimed)
        arrives.moved_on)

  there_same :
      (j : Text)
      → (j == b.bucket) ≡ false
      → Holds arrived_node.triggers
          (pointers_at j n.bucket_triggers)
          (untimed_at j c.bucket_triggers)
  there_same j e =
      Holds-kept n.triggers arrived_node.triggers (pointers_at j n.bucket_triggers)
        (untimed_at j c.bucket_triggers)
        (λ q at. arrives.others_kept q (agree.apart j b.bucket q e at)) (agree.same j)

  untimed_after :
      (j : Text)
      → untimed_at j (HashMap.put b.bucket (after b later ts) c.bucket_triggers) ≡ (
          if b.bucket == j
          then keep is_untimed (after b later ts)
          else untimed_at j c.bucket_triggers)
  untimed_after j =
      rw (get_or-put b.bucket j (after b later ts) [] c.bucket_triggers) (ground arith)

  pub object_agrees :
      Agree
        (HashMap.put b.bucket (after b later ts) c.bucket_triggers)
        arrived_node.triggers
        arrived_node.bucket_triggers
  object_agrees = rw same_pointers (record {
    same = λ j. elim (==_cases b.bucket j) [
      | inl (q, p) ↦
          rw (untimed_after j, q)
            (subst
              (λ k.
                Holds arrived_node.triggers (pointers_at k n.bucket_triggers)
                  (keep is_untimed (after b later ts)))
              p here_same)
      | inr (q, p) ↦
          rw (untimed_after j, q)
            (there_same j
              (ground (arith, q, text_eq.beq_iff j b.bucket, text_eq.beq_iff b.bucket j)))
    ];
    distinct = agree.distinct;
    apart = agree.apart;
  })

  pub quiet_names :
      (r : KeyNotifyRequest)
      → r.active_trigger_names ≡ (check_object_arrival b now n).0
      → All (IsActive r) (firing b later ts)
  quiet_names r e =
      All-IsActive r (firing b later ts)
        (e ∙ arrives.reported ∙ firing-clock b now later ts untimed)
