-- ===== src/Trigger/Arrival.antt =====
-- action_for_new_object of each trigger class (common/include/trigger.hpp): the object that
-- arrived goes in, the actions and the trigger's new state come out.
use spheromone.Prelude.{
  ℕ, ◌+◌, ◌-◌, ◌/◌, ◌%◌, ◌^◌, Bool, none, some, List, [], ◌∷◌, ◌++◌, map, nat_eq, ◌==◌,
  if◌then◌else◌, leb, length, take,
}
use spheromone.Prelude.Int.{size_of_int}
use spheromone.Text.{Text, text, text_eq, find_char}
use spheromone.HashMap
use spheromone.HashMap.{HashMap}
use spheromone.HashSet
use spheromone.HashSet.{HashSet}
use spheromone.Common.Key.{BucketKey}
use spheromone.Trigger.Types.{
  Trigger, TriggerAction, Kind, ByNameState, ByBatchState, BySetState, DynamicGroupState,
  RedundantState, ByTimeState, StatusCache, immediately, named, batched, gathered, grouped, k_of_n,
  timed,
}

abbrev Outcome : Type 0 → Type 0
Outcome S = List TriggerAction × S

-- The (session, key) pair of an object.
abbrev pub session_key : BucketKey → Text × Text
session_key b = (b.session, b.key)

abbrev pub single : Text → List (Text × Text) → List TriggerAction
single f ks = record { function = f; session_keys = ks } ∷ []

unfoldable pub immediate_arrival : Text → StatusCache → BucketKey → Outcome StatusCache
immediate_arrival f cache b = (single f (session_key b ∷ []), HashMap.erase b.session cache)

unfoldable pub by_name_arrival : Text → ByNameState → BucketKey → Outcome ByNameState
by_name_arrival f s b = (
  (if b.key == s.key_name then single f (session_key b ∷ []) else []),
  record s { name_cache = HashMap.erase b.session s.name_cache },
)

-- buffer_.size() >= count_ compares as unsigned 64-bit numbers.
unfoldable pub by_batch_arrival : Text → ByBatchState → BucketKey → Outcome ByBatchState
by_batch_arrival f s b =
    let buffer = s.batch_buffer ++ session_key b ∷ [] in
    let cache = HashMap.erase b.session s.batch_cache in
    if leb (size_of_int s.count) (length buffer)
    then (single f buffer, record s { batch_buffer = []; batch_cache = cache })
    else ([], record s { batch_buffer = buffer; batch_cache = cache })

unfoldable pub by_set_arrival : Text → BySetState → BucketKey → Outcome BySetState
by_set_arrival f s b =
    if HashSet.contains b.key s.key_set
    then (let keys = HashSet.insert b.key (HashMap.get_or b.session s.prepared []) in
        let cache = HashMap.erase (b.key ++ b.session) s.set_cache in
        if length keys == length s.key_set
        then (
          single f (map (λ key. (b.session, key)) s.key_set),
          record s { prepared = HashMap.erase b.session s.prepared; set_cache = cache },
        )
        else ([], record s { prepared = HashMap.put b.session keys s.prepared; set_cache = cache }))
    else ([], s)

-- The part of a key before the group delimiter, or the whole key.
unfoldable pub group_of : Text → Text
group_of key = elim (find_char b':' key) [ none ↦ key | some i ↦ take i key ]

-- One action for each data group, with the session of the object that came last.
abbrev pub group_actions : Text → Text → HashMap Text (HashSet Text) → List TriggerAction
group_actions f session =
    map λ group. record { function = f; session_keys = map (λ key. (session, key)) group.1 }

unfoldable pub dynamic_group_arrival :
    Text → DynamicGroupState → BucketKey → Outcome DynamicGroupState
unfolding group_of
dynamic_group_arrival f s b =
    if group_of b.key == text "ctrl"
    then (let cur =
          if HashSet.contains b.key s.control_group
          then HashSet.insert b.key s.cur_control
          else s.cur_control in
        if length cur == length s.control_group
        then (
          group_actions f b.session s.data_groups,
          record s { data_groups = []; cur_control = [] },
        )
        else ([], record s { cur_control = cur }))
    else (let group = HashMap.get_or (group_of b.key) s.data_groups [] in
        (
          [],
          record s {
            data_groups = HashMap.put (group_of b.key) (HashSet.insert b.key group) s.data_groups;
          },
        ))

-- count_ is an unsigned number of 32 bits.
unfoldable pub redundant_arrival : Text → RedundantState → BucketKey → Outcome RedundantState
redundant_arrival f s b =
    let seen = (s.seen + 1) % 2 ^ 32 in
    let buffer = s.first_k ++ session_key b ∷ [] in
    if leb seen s.k
    then (if seen == s.k
        then (single f buffer, record s { seen = seen; first_k = [] })
        else ([], record s { seen = seen; first_k = buffer }))
    else if leb s.n seen
    then ([], record s { seen = 0 })
    else ([], record s { seen = seen })

-- The milliseconds since the last firing, truncated towards zero, reach the window. A clock that
-- went back gives a negative number.
unfoldable pub window_over : ℕ → ℕ → ℕ → Bool
window_over last now window = leb (window + (last - now) / 1000000) ((now - last) / 1000000)

unfoldable pub by_time_arrival : Text → ByTimeState → BucketKey → ℕ → Outcome ByTimeState
unfolding window_over
by_time_arrival f s b now =
    let buffer = s.window_buffer ++ session_key b ∷ [] in
    if window_over s.last_stamp now s.time_window
    then (single f buffer, record s { window_buffer = []; last_stamp = now })
    else ([], record s { window_buffer = buffer })

abbrev lift_kind : {S : Type 0} → (S → Kind) → Outcome S → Outcome Kind
lift_kind c (actions, s) = (actions, c s)

-- The virtual call: `now` is the clock reading that a ByTimeTrigger takes.
unfoldable pub kind_arrival : Text → Kind → BucketKey → ℕ → Outcome Kind
kind_arrival f (immediately c) b now = lift_kind immediately (immediate_arrival f c b)
kind_arrival f (named s) b now = lift_kind named (by_name_arrival f s b)
kind_arrival f (batched s) b now = lift_kind batched (by_batch_arrival f s b)
kind_arrival f (gathered s) b now = lift_kind gathered (by_set_arrival f s b)
kind_arrival f (grouped s) b now = lift_kind grouped (dynamic_group_arrival f s b)
kind_arrival f (k_of_n s) b now = lift_kind k_of_n (redundant_arrival f s b)
kind_arrival f (timed s) b now = lift_kind timed (by_time_arrival f s b now)

unfoldable pub action_for_new_object : Trigger → BucketKey → ℕ → List TriggerAction × Trigger
unfolding kind_arrival
action_for_new_object t b now =
    let (actions, kind) = kind_arrival t.target_function t.kind b now in
    (actions, record t { kind = kind })
