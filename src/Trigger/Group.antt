-- ===== src/Trigger/Group.antt =====
-- DynamicGroupTrigger (common/include/trigger.hpp): data objects are held by group until every
-- control object has come.
use spheromone.Prelude.{◌≡◌, true, false, List, [], ◌==◌, if◌then◌else◌, nat_eq}
use spheromone.Text.{Text, text, text_eq}
use spheromone.HashMap
use spheromone.HashSet
use spheromone.HashSet.{HashSet, IsDistinct, IsSubset}
use spheromone.Common.Key.{BucketKey}
use spheromone.Trigger.Types.{TriggerAction, DynamicGroupState}
use spheromone.Trigger.Arrival.{group_of, group_actions}

pub record GroupInv (s : DynamicGroupState) : Type 0 where
  pub control_distinct : IsDistinct s.control_group
  pub cur_distinct : IsDistinct s.cur_control
  pub cur_subset : IsSubset s.cur_control s.control_group

-- The control keys that have come, the object's included.
abbrev pub controls_after : DynamicGroupState → BucketKey → HashSet Text
controls_after s b =
    if HashSet.contains b.key s.control_group
    then HashSet.insert b.key s.cur_control
    else s.cur_control

-- The data keys of a group.
abbrev pub group_keys : DynamicGroupState → Text → HashSet Text
group_keys s g = HashMap.get_or g s.data_groups []

-- What an object does. One that is not of the control group is added to the data of its group and
-- fires nothing. One of the control group either completes the control keys, then every group goes
-- out in one action and the trigger starts over, or it does not, then only its key is noted.
pub data GroupStep (f : Text) (s : DynamicGroupState) (b : BucketKey)
    (r : List TriggerAction × DynamicGroupState) : Type 0 where
  collects :
      (group_of b.key == text "ctrl") ≡ false
      → r.0 ≡ []
      → r.1.cur_control ≡ s.cur_control
      → ((g : Text)
          → group_keys r.1 g ≡ (
              if group_of b.key == g
              then HashSet.insert b.key (group_keys s (group_of b.key))
              else group_keys s g))
      → GroupStep f s b r
  releases :
      (group_of b.key == text "ctrl") ≡ true
      → IsSubset s.control_group (controls_after s b)
      → r
        ≡ (group_actions f b.session s.data_groups, record s { data_groups = []; cur_control = [] })
      → GroupStep f s b r
  notes :
      (group_of b.key == text "ctrl") ≡ true
      → ¬ IsSubset s.control_group (controls_after s b)
      → r ≡ ([], record s { cur_control = controls_after s b })
      → GroupStep f s b r
