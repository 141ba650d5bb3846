-- ===== src/Scheduler/Deletion.antt =====
-- How a node deletes a trigger: the update of type 2 in src/scheduler/comm_helper.hpp.
use spheromone.Prelude.{ℕ, ◌≡◌, refl, true, false, some, List, [], ◌∷◌, ◌++◌, All, get_elem?}
use spheromone.Text.{Text, text_eq}
use spheromone.HashMap
use spheromone.Common.Result.{ok, crash}
use spheromone.Trigger.Types.{Trigger}
use spheromone.Messages.{TriggerEntity}
use spheromone.Scheduler.State.{Node}
use spheromone.Scheduler.Update.{is_named, erase_named, delete_all}

-- The pointer is one of a trigger with another name.
abbrev pub IsOther : Text → List Trigger → ℕ → Type 0
IsOther name ts ptr = (t : Trigger) × (get_elem? ts ptr ≡ some t) × (is_named name t ≡ false)

erase_missing :
    (name : Text) (ts : List Trigger) (ptrs : List ℕ)
    → All (IsOther name ts) ptrs
    → erase_named name ts ptrs ≡ crash
unfolding erase_named
erase_missing name ts [] h = refl
erase_missing name ts (ptr ∷ ptrs) h =
    let (t, found, other) = h.0 in
    rw (found, erase_named) (rw (other, erase_missing name ts ptrs h.1) refl)

erase_found :
    (name : Text) (ts : List Trigger) (before after : List ℕ) (ptr : ℕ) (t : Trigger)
    → All (IsOther name ts) before
    → get_elem? ts ptr ≡ some t
    → is_named name t ≡ true
    → erase_named name ts (before ++ ptr ∷ after) ≡ ok (before ++ after)
unfolding erase_named
erase_found name ts [] after ptr t h found named = rw (found, erase_named) (rw named refl)
erase_found name ts (p ∷ before) after ptr t h found named =
    let (u, there, other) = h.0 in
    rw (there, erase_named)
      (rw (other, erase_found name ts before after ptr t h.1 found named) refl)

-- The first trigger of the name goes out of its bucket, and nothing else changes.
pub delete_all_removes :
    (e : TriggerEntity) (n : Node) (before after : List ℕ) (ptr : ℕ) (t : Trigger)
    → HashMap.get_or e.bucket_name n.bucket_triggers [] ≡ before ++ ptr ∷ after
    → All (IsOther e.trigger_name n.triggers) before
    → get_elem? n.triggers ptr ≡ some t
    → is_named e.trigger_name t ≡ true
    → delete_all (e ∷ []) n
      ≡ ok (record n {
        bucket_triggers = HashMap.put e.bucket_name (before ++ after) n.bucket_triggers;
      })
unfolding delete_all
delete_all_removes e n before after ptr t bucket others found named =
    rw (bucket, erase_found e.trigger_name n.triggers before after ptr t others found named) refl

-- An update whose first deletion names a trigger that its bucket does not have makes the node crash,
-- whatever else it deletes.
pub delete_missing_crashes :
    (e : TriggerEntity) (es : List TriggerEntity) (n : Node)
    → All (IsOther e.trigger_name n.triggers) (HashMap.get_or e.bucket_name n.bucket_triggers [])
    → delete_all (e ∷ es) n ≡ crash
unfolding delete_all
delete_missing_crashes e es n others =
    rw
      (erase_missing e.trigger_name n.triggers (HashMap.get_or e.bucket_name n.bucket_triggers [])
        others)
      refl
