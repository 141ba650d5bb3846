-- ===== src/Coordinator/TriggerOp/Effects.antt =====
-- When trigger_op_handler fails, and what a deletion leaves
-- (src/coordinator/trigger_op_handler.cpp).
use spheromone.Prelude.{
  ℕ, ◌≡◌, refl, ◌∙◌, ◌↔◌, Bool, true, not, none, List, [], ◌∷◌, arith, ◌==◌, if◌then◌else◌, keep,
  All, ==_refl, inl, inr, Bool-cases,
}
use spheromone.Text.{text_beq_iff, Text, text_eq}
use spheromone.HashMap
use spheromone.HashMap.{find-put, get_or-put}
use spheromone.Trigger.Types.{Trigger, PrimitiveType}
use spheromone.Trigger.Primitive.{Codecs, gen_trigger_pointer}
use spheromone.Messages.{
  TriggerOperationRequest, TriggerOperationType, add_trigger, delete_trigger, Sent,
}
use spheromone.Coordinator.State.{Coordinator, broadcast}
use spheromone.Common.Result.{ok, crash}
use spheromone.Coordinator.TriggerOp.{
  some, empty_entity, update, success, set_triggers, any_named, answer, trigger_op_handler,
  triggers_of, has_name,
}

abbrev pub IsUnknown : PrimitiveType → Type 0
IsUnknown (PrimitiveType.unknown n) = Unit
IsUnknown _ = ⊥

module _ (codecs : Codecs) where
  gen_unknown :
      (p : PrimitiveType) (name s : Text) (now : ℕ)
      → (gen_trigger_pointer codecs p name s now ≡ none) ↔ IsUnknown p
  unfolding gen_trigger_pointer
  gen_unknown PrimitiveType.immediate name s now = ((λ e. cc), λ h. absurd h)
  gen_unknown PrimitiveType.by_name name s now = ((λ e. cc), λ h. absurd h)
  gen_unknown PrimitiveType.by_batch_size name s now = ((λ e. cc), λ h. absurd h)
  gen_unknown PrimitiveType.by_set name s now = ((λ e. cc), λ h. absurd h)
  gen_unknown PrimitiveType.dynamic_group name s now = ((λ e. cc), λ h. absurd h)
  gen_unknown PrimitiveType.redundant name s now = ((λ e. cc), λ h. absurd h)
  gen_unknown PrimitiveType.by_time name s now = ((λ e. cc), λ h. absurd h)
  gen_unknown (PrimitiveType.unknown n) name s now = ((λ e. tt), λ h. refl)

  module _ (r : TriggerOperationRequest) (ip : Text) (thread_id now : ℕ) (c : Coordinator) where
    crash_add :
        r.operation_type ≡ add_trigger
        → HashMap.has r.bucket_name c.bucket_app ≡ true
        → gen_trigger_pointer codecs r.primitive_type r.trigger_name r.primitive now ≡ none
        → trigger_op_handler codecs r ip thread_id now c ≡ crash
    unfolding trigger_op_handler
    crash_add e h g = ground arith

    crash_only :
        (op : TriggerOperationType)
        → r.operation_type ≡ op
        → trigger_op_handler codecs r ip thread_id now c ≡ crash
        → (r.operation_type ≡ add_trigger)
          × (HashMap.has r.bucket_name c.bucket_app ≡ true)
          × (gen_trigger_pointer codecs r.primitive_type r.trigger_name r.primitive now ≡ none)
    unfolding trigger_op_handler
    crash_only add_trigger e h = ground arith
    crash_only delete_trigger e h = ground arith
    crash_only (TriggerOperationType.unknown n) e h = ground arith

    -- The handler fails exactly if a trigger of an unknown primitive type is added to a bucket that
    -- is there: it looks at the type of the trigger that was not made.
    pub trigger_op_handler_crashes : (trigger_op_handler codecs r ip thread_id now c ≡ crash) ↔ (
        (r.operation_type ≡ add_trigger)
        × (HashMap.has r.bucket_name c.bucket_app ≡ true)
        × IsUnknown r.primitive_type)
    trigger_op_handler_crashes = (
      (λ h.
          let (a, b, g) = crash_only r.operation_type refl h in
          (a, b, (gen_unknown r.primitive_type r.trigger_name r.primitive now).0 g)),
      λ h. crash_add h.0 h.1 ((gen_unknown r.primitive_type r.trigger_name r.primitive now).1 h.2),
    )

keep-All {ℓ} : {A : Type ℓ} (p : A → Bool) (xs : List A) → All (λ x. p x ≡ true) (keep p xs)
keep-All p [] = tt
keep-All p (x ∷ xs) = elim (Bool-cases (p x)) [
  | inl h ↦ rw h (h, keep-All p xs)
  | inr h ↦ rw h (keep-All p xs)
]

module _ (codecs : Codecs) (r : TriggerOperationRequest) (ip : Text) (thread_id now : ℕ)
    (c : Coordinator) where
  abbrev others : List Trigger
  others = keep (λ t. not (has_name r.trigger_name t)) (triggers_of c r.bucket_name)

  abbrev without_trigger : Coordinator
  without_trigger = set_triggers c r.bucket_name others

  sent_with : Bool → List Sent
  sent_with found =
      answer codecs r success
      ∷ broadcast
          (update codecs ip thread_id r
            (if found
              then record empty_entity {
                bucket_name = r.bucket_name;
                trigger_name = r.trigger_name;
              }
                ∷ []
              else [])
            (if found then 2 else 0))
          c.node_status

  delete_form :
      r.operation_type ≡ delete_trigger
      → HashMap.has r.bucket_name c.bucket_app ≡ true
      → trigger_op_handler codecs r ip thread_id now c
        ≡ ok (without_trigger, sent_with (any_named r.trigger_name (triggers_of c r.bucket_name)))
  unfolding trigger_op_handler sent_with
  delete_form e h = ground arith

  others_left : triggers_of without_trigger r.bucket_name ≡ others
  others_left =
      get_or-put r.bucket_name r.bucket_name others [] c.bucket_triggers
      ∙ rw (==_refl r.bucket_name) refl

  found_after :
      (b : Text)
      → HashMap.find b without_trigger.bucket_triggers ≡ (
          if r.bucket_name == b
          then some (keep (λ t. not (has_name r.trigger_name t)) (triggers_of c b))
          else HashMap.find b c.bucket_triggers)
  found_after b =
      ground
        (arith, find-put r.bucket_name b others c.bucket_triggers, text_beq_iff r.bucket_name b)

  -- Deleting a trigger from a bucket that is there always succeeds. No trigger of that name is
  -- left in the bucket, the others keep their order, and no other bucket changes.
  pub delete_trigger_removes :
      r.operation_type ≡ delete_trigger
      → HashMap.has r.bucket_name c.bucket_app ≡ true
      → (c' : Coordinator) × (sent : List Sent) × (trigger_op_handler codecs r ip thread_id now c
          ≡ ok (c', sent))
        × All (λ t. not (has_name r.trigger_name t) ≡ true) (triggers_of c' r.bucket_name)
        × ((b : Text)
            → HashMap.find b c'.bucket_triggers ≡ (
                if r.bucket_name == b
                then some (keep (λ t. not (has_name r.trigger_name t)) (triggers_of c b))
                else HashMap.find b c.bucket_triggers))
  delete_trigger_removes e h = (
    without_trigger,
    sent_with (any_named r.trigger_name (triggers_of c r.bucket_name)),
    delete_form e h,
    rw others_left (keep-All (λ t. not (has_name r.trigger_name t)) (triggers_of c r.bucket_name)),
    λ b. found_after b,
  )
