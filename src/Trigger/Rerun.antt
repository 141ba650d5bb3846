-- ===== src/Trigger/Rerun.antt =====
-- The other virtual methods of a trigger (common/include/trigger.hpp): clear, and the three that
-- serve the re-execution of functions which did not produce their object in time.
use spheromone.Prelude.{
  ◌+◌, ◌%◌, ◌^◌, Bool, true, false, Option, none, some, List, [], ◌∷◌, ◌++◌, if◌then◌else◌,
}
use spheromone.Prelude.Int.{ℤ}
use spheromone.Text.{Text, text_eq}
use spheromone.HashMap
use spheromone.HashMap.{HashMap}
use spheromone.HashSet.{HashSet}
use spheromone.Trigger.Types.{
  Trigger, Kind, ByNameState, ByBatchState, DynamicGroupState, RedundantState, ByTimeState,
  BySetState, StatusCache, TriggerFunctionMetadata, RerunMetadata, immediately, named, batched,
  gathered, grouped, k_of_n, timed,
}

-- clear(session) of each class with something to clear, called when another node has fired the
-- trigger.
abbrev pub by_batch_clear : ByBatchState → ByBatchState
by_batch_clear s = record s { batch_buffer = []; batch_cache = [] }

abbrev pub by_set_clear : BySetState → Text → BySetState
by_set_clear s session = record s {
  prepared = HashMap.erase session s.prepared;
  set_cache = HashMap.erase session s.set_cache;
}

abbrev pub dynamic_group_clear : DynamicGroupState → DynamicGroupState
dynamic_group_clear s = record s { data_groups = []; cur_control = [] }

abbrev pub redundant_clear : RedundantState → RedundantState
redundant_clear s = record s { seen = (s.seen + s.k) % 2 ^ 32; first_k = [] }

abbrev pub by_time_clear : ByTimeState → ByTimeState
by_time_clear s = record s { window_buffer = [] }

unfoldable pub kind_clear : Kind → Text → Kind
kind_clear (immediately c) session = immediately c
kind_clear (named s) session = named s
kind_clear (batched s) session = batched (by_batch_clear s)
kind_clear (gathered s) session = gathered (by_set_clear s session)
kind_clear (grouped s) session = grouped (dynamic_group_clear s)
kind_clear (k_of_n s) session = k_of_n (redundant_clear s)
kind_clear (timed s) session = timed (by_time_clear s)

unfoldable pub clear : Trigger → Text → Trigger
unfolding kind_clear
clear t session = record t { kind = kind_clear t.kind session }

-- m.empty()
unfoldable pub is_empty : HashMap Text Text → Bool
is_empty [] = true
is_empty (x ∷ m) = false

-- func_key_map_[func_name] inserts an empty key for a function that has none.
unfoldable pub set_notify_source : BySetState → Text → Text → TriggerFunctionMetadata → BySetState
unfolding is_empty
set_notify_source s func_name session call = if is_empty s.func_key_map then s else record s {
  func_key_map = HashMap.touch func_name s.func_key_map [];
  set_cache = HashMap.put (HashMap.get_or func_name s.func_key_map [] ++ session) call s.set_cache;
}

abbrev pub immediate_notify : StatusCache → Text → TriggerFunctionMetadata → StatusCache
immediate_notify c session call = HashMap.put session call c

abbrev pub by_name_notify : ByNameState → Text → TriggerFunctionMetadata → ByNameState
by_name_notify s session call = record s { name_cache = HashMap.put session call s.name_cache }

abbrev pub by_batch_notify : ByBatchState → Text → TriggerFunctionMetadata → ByBatchState
by_batch_notify s session call = record s { batch_cache = HashMap.put session call s.batch_cache }

unfoldable pub kind_notify_source : Kind → Text → Text → TriggerFunctionMetadata → Kind
unfolding set_notify_source
kind_notify_source (immediately c) f session call = immediately (immediate_notify c session call)
kind_notify_source (named s) f session call = named (by_name_notify s session call)
kind_notify_source (batched s) f session call = batched (by_batch_notify s session call)
kind_notify_source (gathered s) f session call = gathered (set_notify_source s f session call)
kind_notify_source (grouped s) f session call = grouped s
kind_notify_source (k_of_n s) f session call = k_of_n s
kind_notify_source (timed s) f session call = timed s

unfoldable pub notify_source_func : Trigger → Text → Text → List Text → ℤ → Trigger
unfolding kind_notify_source
notify_source_func t func_name session func_args arg_flag = record t {
  kind =
      kind_notify_source t.kind func_name session
        (record { func_name = func_name; func_args = func_args; arg_flag = arg_flag });
}

abbrev pub one_call : Option TriggerFunctionMetadata → List TriggerFunctionMetadata
one_call none = []
one_call (some c) = c ∷ []

-- The pending calls of the keys of the set, for one session.
unfoldable pub set_reruns : StatusCache → HashSet Text → Text → List TriggerFunctionMetadata
set_reruns cache [] session = []
set_reruns cache (key ∷ keys) session =
    one_call (HashMap.find (key ++ session) cache) ++ set_reruns cache keys session

abbrev pub immediate_rerun : StatusCache → Text → List TriggerFunctionMetadata
immediate_rerun c session = one_call (HashMap.find session c)

abbrev pub by_name_rerun : ByNameState → Text → List TriggerFunctionMetadata
by_name_rerun s session = one_call (HashMap.find session s.name_cache)

abbrev pub by_batch_rerun : ByBatchState → Text → List TriggerFunctionMetadata
by_batch_rerun s session = one_call (HashMap.find session s.batch_cache)

unfoldable pub by_set_rerun : BySetState → Text → List TriggerFunctionMetadata
unfolding set_reruns is_empty
by_set_rerun s session =
    if is_empty s.func_key_map then [] else set_reruns s.set_cache s.key_set session

unfoldable pub kind_rerun : Kind → Text → List TriggerFunctionMetadata
unfolding by_set_rerun
kind_rerun (immediately c) session = immediate_rerun c session
kind_rerun (named s) session = by_name_rerun s session
kind_rerun (batched s) session = by_batch_rerun s session
kind_rerun (gathered s) session = by_set_rerun s session
kind_rerun (grouped s) session = []
kind_rerun (k_of_n s) session = []
kind_rerun (timed s) session = []

unfoldable pub action_for_rerun : Trigger → Text → List TriggerFunctionMetadata
unfolding kind_rerun
action_for_rerun t session = kind_rerun t.kind session

unfoldable pub put_sources : List RerunMetadata → HashMap Text Text → HashMap Text Text
put_sources [] m = m
put_sources (r ∷ rs) m = put_sources rs (HashMap.put r.source_func r.source_key m)

unfoldable pub kind_set_rerun : Kind → List RerunMetadata → Kind
unfolding put_sources
kind_set_rerun (gathered s) rs =
    gathered (record s { func_key_map = put_sources rs s.func_key_map })
kind_set_rerun k rs = k

unfoldable pub set_rerun_metadata : Trigger → List RerunMetadata → Trigger
unfolding kind_set_rerun
set_rerun_metadata t rs = record t { kind = kind_set_rerun t.kind rs }
