-- ===== src/Tests/Triggers.antt =====
-- Triggers at concrete inputs.
use spheromone.Prelude.{
  ◌<◌, ◌≡◌, refl, List, [], ◌∷◌, ◌++◌, map, arith, length, All, ◌==◌, ◌⊎◌, inl, inr, Bool-cases,
  subst,
}
use spheromone.Prelude.Int.{pos}
use spheromone.Text.{Text, text, text_eq}
use spheromone.HashMap
use spheromone.HashSet
use spheromone.HashSet.{HashSet, IsDistinct, IsSubset}
use spheromone.Common.Key.{BucketKey}
use spheromone.Trigger.Types.{
  Trigger, BySetState, ByBatchState, DynamicGroupState, batched, gathered,
}
use spheromone.Trigger.Arrival.{session_key, single, by_set_arrival}
use spheromone.Trigger.Rerun.{action_for_rerun, clear}
use spheromone.Trigger.BySet.{SetInv, SetStep, by_set_arrival-SetStep, prepared_keys}
use spheromone.Trigger.Batch.{IsBatch, handed_out, batch_run, batch_run_complete}
use spheromone.Trigger.Redundant.{redundant_run, counting, redundant_round}
use spheromone.Trigger.Pending.{clear_keeps_reruns}

abbrev object : Text → BucketKey
object key = record { bucket = text "b"; key = key; session = text "0123456789abcdef" }

abbrev session : Text
session = text "0123456789abcdef"

abbrev two_keys : BySetState
two_keys = record {
  key_set = text "x" ∷ text "y" ∷ [];
  prepared = (text "0123456789abcdef", text "x" ∷ []) ∷ [];
  func_key_map = [];
  set_cache = [];
}

prepared_two :
    (s : Text) → (text "x" ∷ [] ≡ prepared_keys two_keys s) ⊎ ([] ≡ prepared_keys two_keys s)
unfolding prepared_keys HashMap.get_or HashMap.find
prepared_two s = elim (Bool-cases (session == s)) [
  | inl h ↦ inl (rw h refl)
  | inr h ↦ inr (rw h refl)
]

two_keys-SetInv : SetInv two_keys
unfolding HashSet.contains
two_keys-SetInv = record {
  distinct = (refl, (refl, tt));
  sessions_distinct = λ s. elim (prepared_two s) [
    | inl h ↦ subst IsDistinct h (refl, tt)
    | inr h ↦ subst IsDistinct h tt
  ];
  sessions_subset = λ s. elim (prepared_two s) [
    | inl h ↦ subst (λ (t : HashSet Text). IsSubset t two_keys.key_set) h (λ k c. ground arith)
    | inr h ↦ subst (λ (t : HashSet Text). IsSubset t two_keys.key_set) h (λ k c. cc)
  ];
}

by_set_arrival-SetStep_example :
    SetStep
      (text "f")
      two_keys
      (object (text "y"))
      (by_set_arrival (text "f") two_keys (object (text "y")))
    × SetInv (by_set_arrival (text "f") two_keys (object (text "y"))).1
by_set_arrival-SetStep_example =
    by_set_arrival-SetStep (text "f") two_keys (object (text "y")) two_keys-SetInv
      (unfold HashSet.contains in refl)

abbrev pairs : ByBatchState
pairs = record { count = pos 2; batch_buffer = []; batch_cache = [] }

abbrev three : List BucketKey
three = object (text "x") ∷ object (text "y") ∷ object (text "z") ∷ []

batch_run_complete_example :
    All (IsBatch 2 (text "f")) (batch_run (text "f") pairs three).0
    × (length (batch_run (text "f") pairs three).1.batch_buffer < 2)
    × (handed_out (batch_run (text "f") pairs three).0
          ++ (batch_run (text "f") pairs three).1.batch_buffer
        ≡ [] ++ map session_key three)
batch_run_complete_example = batch_run_complete 2 (text "f") pairs three refl (omega arith)

abbrev one_control : DynamicGroupState
one_control = record { data_groups = []; control_group = text "ctrl_a" ∷ []; cur_control = [] }

redundant_round_example :
    redundant_run
      (text "f")
      (counting 2 3 0 [])
      (object (text "x") ∷ (object (text "y") ∷ []) ++ object (text "z") ∷ [])
    ≡ (
      single (text "f") (map session_key (object (text "x") ∷ object (text "y") ∷ [])),
      counting 2 3 0 [],
    )
redundant_round_example =
    redundant_round (text "f") 2 3 (object (text "x")) (object (text "y") ∷ []) (object (text "z"))
      [] refl refl (omega arith)

abbrev batcher : Trigger
batcher = record {
  target_function = text "f";
  trigger_name = text "t";
  trigger_option = pos 1;
  kind = batched pairs;
}

abbrev waiting : BySetState
waiting = record two_keys {
  set_cache =
      (text "x" ++ session, record { func_name = text "g"; func_args = []; arg_flag = pos 0 }) ∷ [];
}

abbrev gatherer : Trigger
gatherer = record batcher { kind = gathered waiting }

clear_keeps_reruns_example :
    action_for_rerun (clear gatherer session) session ≡ action_for_rerun gatherer session
clear_keeps_reruns_example =
    clear_keeps_reruns gatherer waiting session refl ((λ p. cc), ((λ p. cc), tt))
