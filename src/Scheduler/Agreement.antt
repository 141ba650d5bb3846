-- ===== src/Scheduler/Agreement.antt =====
-- An object arrives at the triggers of a node (check_object_arrival of
-- src/scheduler/object_handlers.cpp), against what the triggers do in a list.
use spheromone.Prelude.{
  ℕ, zero, suc, ◌≡◌, refl, ◌∙◌, sym, inl, inr, false, some, List, [], ◌∷◌, ◌++◌, map, arith,
  if◌then◌else◌, get_elem?, nat_eq, ◌==◌, List-cases, Option-cases, subst,
}
use spheromone.Prelude.Int.{ℤ, pos, suc_ℤ}
use spheromone.Text.{Text, text_eq}
use spheromone.HashMap.{HashMap}
use spheromone.HashSet
use mathlib.Core.Option
use mathlib.Core.List.{map-append}
use spheromone.HashSet.{IsDistinct, contains-head, contains-tail, contains-insert_all}
use spheromone.Common.Key.{BucketKey}
use spheromone.Trigger.Types.{Trigger, TriggerAction, TriggerFunctionMetadata}
use spheromone.Trigger.Arrival.{action_for_new_object}
use spheromone.Coordinator.Notify.Active.{after, firing, name_if_any}
use spheromone.Scheduler.State.{Node}
use spheromone.Scheduler.Update.{update_trigger}
use spheromone.Scheduler.Arrival.{arrive_at, action_calls, trigger_arrival, Arrived, sized_args}

-- The pointers of a node lead to these triggers.
abbrev pub Holds : List Trigger → List ℕ → List Trigger → Type 0
Holds store [] [] = Unit
Holds store (p ∷ ps) (t ∷ ts) = (get_elem? store p ≡ some t) × Holds store ps ts
Holds store _ _ = ⊥

-- The functions that the triggers of a bucket ask to call for an object.
unfoldable pub asked_for : BucketKey → ℕ → List Trigger → List Text
asked_for b now [] = []
asked_for b now (t ∷ ts) =
    map (λ (a : TriggerAction). a.function) (action_for_new_object t b now).0 ++ asked_for b now ts

abbrev pub func_names : List TriggerFunctionMetadata → List Text
func_names cs = map (λ (c : TriggerFunctionMetadata). c.func_name) cs

get_elem?-update_trigger :
    (p q : ℕ) (f : Trigger → Trigger) (ts : List Trigger)
    → get_elem? (update_trigger p f ts) q
      ≡ (if p == q then Option.map f (get_elem? ts q) else get_elem? ts q)
unfolding update_trigger
get_elem?-update_trigger p q f [] = ground arith
get_elem?-update_trigger zero zero f (t ∷ ts) = refl
get_elem?-update_trigger zero (suc q) f (t ∷ ts) = ground arith
get_elem?-update_trigger (suc p) zero f (t ∷ ts) = ground arith
get_elem?-update_trigger (suc p) (suc q) f (t ∷ ts) =
    ground (arith, get_elem?-update_trigger p q f ts)

action_calls-functions :
    (bucket : Text) (actions : List TriggerAction) (flag : ℤ) (vals : HashMap Text Text)
    (lens : HashMap Text ℕ)
    → func_names (action_calls bucket actions flag vals lens).0
      ≡ map (λ (a : TriggerAction). a.function) actions
unfolding action_calls
action_calls-functions bucket [] flag vals lens = refl
action_calls-functions bucket (a ∷ actions) flag vals lens = ground (
  arith,
  action_calls-functions bucket actions (pos 0) vals lens,
  action_calls-functions bucket actions flag vals (sized_args bucket a.session_keys lens).1,
)

-- What one trigger does with the object.
trigger_arrival-asked_for :
    (b : BucketKey) (now ptr : ℕ) (t : Trigger) (n : Node)
    → ((trigger_arrival b now ptr t n).0
        ≡ name_if_any t.trigger_name (action_for_new_object t b now).0)
      × (func_names (trigger_arrival b now ptr t n).1
          ≡ map (λ (a : TriggerAction). a.function) (action_for_new_object t b now).0)
      × ((trigger_arrival b now ptr t n).2.triggers
          ≡ update_trigger ptr (λ old. (action_for_new_object t b now).1) n.triggers)
trigger_arrival-asked_for b now ptr t n = elim (List-cases (action_for_new_object t b now).0) [
  | inl e ↦
      (rw (e, trigger_arrival) refl, rw (e, trigger_arrival) refl, rw (e, trigger_arrival) refl)
  | inr (a, more, e) ↦ (
    rw (e, trigger_arrival) refl,
    rw (e, trigger_arrival)
        (action_calls-functions b.bucket (a ∷ more) (suc_ℤ t.trigger_option) n.key_val n.key_len),
    rw (e, trigger_arrival) refl,
  )
]

trigger_arrival-pointers :
    (b : BucketKey) (now ptr : ℕ) (t : Trigger) (n : Node)
    → (trigger_arrival b now ptr t n).2.bucket_triggers ≡ n.bucket_triggers
trigger_arrival-pointers b now ptr t n = elim (List-cases (action_for_new_object t b now).0) [
  | inl e ↦ rw (e, trigger_arrival) refl
  | inr (a, more, e) ↦ rw (e, trigger_arrival) refl
]

Holds-update :
    (ptr : ℕ) (f : Trigger → Trigger) (store : List Trigger) (ps : List ℕ) (ts : List Trigger)
    → HashSet.contains ptr ps ≡ false
    → Holds store ps ts
    → Holds (update_trigger ptr f store) ps ts
unfolding HashSet.contains
Holds-update ptr f store [] [] c h = tt
Holds-update ptr f store [] (t ∷ ts) c h = h
Holds-update ptr f store (p ∷ ps) [] c h = h
Holds-update ptr f store (p ∷ ps) (t ∷ ts) c h = (
  ground (arith, get_elem?-update_trigger ptr p f store),
  Holds-update ptr f store ps ts (ground arith) h.1,
)

module _ (b : BucketKey) (now : ℕ) where
  -- The object reaches the triggers of some distinct pointers, in order: the triggers that fire are
  -- reported, all that they ask for is called, and no other trigger changes.
  pub record Arrives (n : Node) (ptrs : List ℕ) (ts : List Trigger) (result : Arrived)
      : Type 0 where
    pub reported : result.0 ≡ firing b now ts
    pub calls_all : func_names result.1 ≡ asked_for b now ts
    pub moved_on : Holds result.2.triggers ptrs (after b now ts)
    pub others_kept :
        (q : ℕ)
        → HashSet.contains q ptrs ≡ false
        → get_elem? result.2.triggers q ≡ get_elem? n.triggers q

  abbrev and_rest : Arrived → Arrived → Arrived
  and_rest (names, calls, n1) (more, calls2, n2) = (names ++ more, calls ++ calls2, n2)

  Arrives-cons :
      (p : ℕ) (ps : List ℕ) (t : Trigger) (ts : List Trigger) (n : Node) (first rest : Arrived)
      → IsDistinct (p ∷ ps)
      → get_elem? n.triggers p ≡ some t
      → first.0 ≡ name_if_any t.trigger_name (action_for_new_object t b now).0
      → func_names first.1
        ≡ map (λ (a : TriggerAction). a.function) (action_for_new_object t b now).0
      → first.2.triggers ≡ update_trigger p (λ old. (action_for_new_object t b now).1) n.triggers
      → Arrives first.2 ps ts rest
      → Arrives n (p ∷ ps) (t ∷ ts) (and_rest first rest)
  unfolding firing asked_for HashSet.contains
  Arrives-cons p ps t ts n first rest d h e0 e1 e2 a =
      let f : Trigger → Trigger = λ old. (action_for_new_object t b now).1 in
      record {
        reported = cc (e0, a.reported);
        calls_all = map-append _ first.1 rest.1 ∙ (cc (e1, a.calls_all));
        moved_on = (
          a.others_kept p d.0
              ∙ (rw e2 (ground (arith, get_elem?-update_trigger p p f n.triggers, h))),
          a.moved_on,
        );
        others_kept = λ q c.
            a.others_kept q (ground arith)
            ∙ (rw e2 (ground (arith, get_elem?-update_trigger p q f n.triggers)));
      }

  arrive_at-cons :
      (p : ℕ) (ps : List ℕ) (t : Trigger) (n : Node)
      → get_elem? n.triggers p ≡ some t
      → arrive_at b now (p ∷ ps) n
        ≡ and_rest
            (trigger_arrival b now p t n)
            (arrive_at b now ps (trigger_arrival b now p t n).2)
  unfolding arrive_at
  arrive_at-cons p ps t n e = rw (e, arrive_at) refl

  pub arrive_at-Arrives :
      (ptrs : List ℕ) (ts : List Trigger) (n : Node)
      → Holds n.triggers ptrs ts
      → IsDistinct ptrs
      → Arrives n ptrs ts (arrive_at b now ptrs n)
  arrive_at-Arrives [] [] n h d =
      unfold arrive_at firing asked_for in
      record { reported = refl; calls_all = refl; moved_on = tt; others_kept = λ q c. refl }
  arrive_at-Arrives [] (t ∷ ts) n h d = absurd h
  arrive_at-Arrives (p ∷ ps) [] n h d = absurd h
  arrive_at-Arrives (p ∷ ps) (t ∷ ts) n h d =
      let n1 = (trigger_arrival b now p t n).2 in
      let (e0, e1, e2) = trigger_arrival-asked_for b now p t n in
      let f : Trigger → Trigger = λ old. (action_for_new_object t b now).1 in
      let here : Holds n1.triggers ps ts =
        subst (λ store. Holds store ps ts) (sym e2) (Holds-update p f n.triggers ps ts d.0 h.1) in
      subst (Arrives n (p ∷ ps) (t ∷ ts)) (sym (arrive_at-cons p ps t n h.0)) (
        Arrives-cons p ps t ts n (trigger_arrival b now p t n) (arrive_at b now ps n1) d h.0 e0 e1
          e2 (arrive_at-Arrives ps ts n1 here d.1))

  pub arrive_at-pointers :
      (ptrs : List ℕ) (n : Node) → ((arrive_at b now ptrs n).2.bucket_triggers ≡ n.bucket_triggers)
  unfolding arrive_at
  arrive_at-pointers [] n = refl
  arrive_at-pointers (p ∷ ps) n = elim (Option-cases (get_elem? n.triggers p)) [
    | inl e ↦ rw (e, arrive_at) (arrive_at-pointers ps n)
    | inr (t, e) ↦
        rw (e, arrive_at)
          (arrive_at-pointers ps (trigger_arrival b now p t n).2
            ∙ trigger_arrival-pointers b now p t n)
  ]
