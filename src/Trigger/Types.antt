-- ===== src/Trigger/Types.antt =====
-- The data of triggers: common/include/trigger.hpp and the enumeration PrimitiveType of
-- common/proto/operation.proto.
use spheromone.Prelude.{ℕ, List}
use spheromone.Prelude.Int.{ℤ}
use spheromone.Text.{Text}
use spheromone.HashMap.{HashMap}
use spheromone.HashSet.{HashSet}

-- An open enumeration in proto3: any other number is kept as it is.
pub data PrimitiveType : Type 0 where
  immediate by_name by_batch_size by_set dynamic_group redundant by_time : PrimitiveType
  unknown : ℕ → PrimitiveType

-- What a trigger asks for: a function, and the (session, key) pairs of its arguments.
pub record TriggerAction : Type 0 where
  pub function : Text
  pub session_keys : List (Text × Text)

pub record TriggerFunctionMetadata : Type 0 where
  pub func_name : Text
  pub func_args : List Text
  pub arg_flag : ℤ

pub record RerunMetadata : Type 0 where
  pub source_func : Text
  pub source_key : Text
  pub timeout : ℕ

-- session_status_cache_: the last call of the function that is to produce an object.
abbrev pub StatusCache : Type 0
StatusCache = HashMap Text TriggerFunctionMetadata

pub record ByNameState : Type 0 where
  pub key_name : Text
  pub name_cache : StatusCache

pub record ByBatchState : Type 0 where
  pub count : ℤ
  pub batch_buffer : List (Text × Text)
  pub batch_cache : StatusCache

pub record BySetState : Type 0 where
  pub key_set : HashSet Text
  pub prepared : HashMap Text (HashSet Text)
  pub func_key_map : HashMap Text Text
  pub set_cache : StatusCache

pub record DynamicGroupState : Type 0 where
  pub data_groups : HashMap Text (HashSet Text)
  pub control_group : HashSet Text
  pub cur_control : HashSet Text

pub record RedundantState : Type 0 where
  pub k : ℕ
  pub n : ℕ
  pub seen : ℕ
  pub first_k : List (Text × Text)

-- Clock readings are in ticks of the system clock, which are nanoseconds.
pub record ByTimeState : Type 0 where
  pub time_window : ℕ
  pub window_buffer : List (Text × Text)
  pub last_stamp : ℕ

-- The fields of the class Trigger that all triggers share, and the fields of each subclass.
pub data Kind : Type 0 where
  immediately : StatusCache → Kind
  named : ByNameState → Kind
  batched : ByBatchState → Kind
  gathered : BySetState → Kind
  grouped : DynamicGroupState → Kind
  k_of_n : RedundantState → Kind
  timed : ByTimeState → Kind

pub record Trigger : Type 0 where
  pub target_function : Text
  pub trigger_name : Text
  pub trigger_option : ℤ
  pub kind : Kind
