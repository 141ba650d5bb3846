-- ===== src/Trigger/Primitive.antt =====
-- dump_pritimive and gen_trigger_pointer (common/include/trigger.hpp): a trigger's configuration as
-- a message of common/proto/operation.proto. The protobuf library is a parameter: for each message
-- a way to write it and to read it, where reading what was written gives the message back.
use spheromone.Prelude.{ℕ, ◌≡◌, Option, none, some, List, []}
use spheromone.Prelude.Int.{ℤ, pos, int_of_uint32, uint32_of_int}
use spheromone.Text.{Text, text_eq}
use spheromone.HashSet
use spheromone.HashSet.{HashSet}
use spheromone.Trigger.Types.{
  Trigger, Kind, PrimitiveType, ByNameState, ByBatchState, BySetState, DynamicGroupState,
  RedundantState, ByTimeState, immediately, named, batched, gathered, grouped, k_of_n, timed,
}

pub record ImmediatePrimitive : Type 0 where
  pub function : Text

pub record ByNamePrimitive : Type 0 where
  pub function : Text
  pub key_name : Text

pub record ByBatchSizePrimitive : Type 0 where
  pub function : Text
  pub count : ℕ

pub record BySetPrimitive : Type 0 where
  pub function : Text
  pub key_set : List Text

pub record DynamicGroupPrimitive : Type 0 where
  pub function : Text
  pub control_group : List Text

pub record RedundantPrimitive : Type 0 where
  pub function : Text
  pub k : ℕ
  pub n : ℕ

pub record ByTimePrimitive : Type 0 where
  pub function : Text
  pub time_window : ℕ

-- SerializeToString and ParseFromString of one message type. Reading a text that is no such
-- message leaves some message in the object, and the program does not look at the failure.
pub record Codec (M : Type 0) : Type 0 where
  pub serialize : M → Text
  pub parse : Text → M
  pub parse-serialize : (m : M) → parse (serialize m) ≡ m

pub record Codecs : Type 0 where
  pub immediate : Codec ImmediatePrimitive
  pub by_name : Codec ByNamePrimitive
  pub by_batch_size : Codec ByBatchSizePrimitive
  pub by_set : Codec BySetPrimitive
  pub dynamic_group : Codec DynamicGroupPrimitive
  pub redundant : Codec RedundantPrimitive
  pub by_time : Codec ByTimePrimitive

-- get_type()
unfoldable pub kind_type : Kind → PrimitiveType
kind_type (immediately c) = PrimitiveType.immediate
kind_type (named s) = PrimitiveType.by_name
kind_type (batched s) = PrimitiveType.by_batch_size
kind_type (gathered s) = PrimitiveType.by_set
kind_type (grouped s) = PrimitiveType.dynamic_group
kind_type (k_of_n s) = PrimitiveType.redundant
kind_type (timed s) = PrimitiveType.by_time

-- The constructors of the classes. The option is 0 until set_trigger_option changes it.
abbrev new_trigger : Text → Text → Kind → Trigger
new_trigger function name kind = record {
  target_function = function;
  trigger_name = name;
  trigger_option = pos 0;
  kind = kind;
}

abbrev pub new_batch : ℤ → Kind
new_batch count = batched (record { count = count; batch_buffer = []; batch_cache = [] })

abbrev pub new_set : HashSet Text → Kind
new_set keys =
    gathered (record { key_set = keys; prepared = []; func_key_map = []; set_cache = [] })

abbrev pub new_group : HashSet Text → Kind
new_group keys = grouped (record { data_groups = []; control_group = keys; cur_control = [] })

abbrev pub new_redundant : ℕ → ℕ → Kind
new_redundant k n = k_of_n (record { k = k; n = n; seen = 0; first_k = [] })

abbrev pub new_timed : ℕ → ℕ → Kind
new_timed window now = timed (record { time_window = window; window_buffer = []; last_stamp = now })

abbrev pub new_set_trigger : Text → Text → HashSet Text → Trigger
new_set_trigger function name keys = new_trigger function name (new_set keys)

abbrev pub new_redundant_trigger : Text → Text → ℕ → ℕ → Trigger
new_redundant_trigger function name k n = new_trigger function name (new_redundant k n)

abbrev pub new_time_trigger : Text → Text → ℕ → ℕ → Trigger
new_time_trigger function name window now = new_trigger function name (new_timed window now)

module _ (codecs : Codecs) where
  open codecs use {immediate, by_name, by_batch_size, by_set, dynamic_group, redundant, by_time}

  abbrev pub immediate_dump : Text → Text
  immediate_dump f = immediate.serialize (record { function = f })

  abbrev pub by_name_dump : Text → ByNameState → Text
  by_name_dump f s = by_name.serialize (record { function = f; key_name = s.key_name })

  abbrev pub by_batch_dump : Text → ByBatchState → Text
  by_batch_dump f s =
      by_batch_size.serialize (record { function = f; count = uint32_of_int s.count })

  abbrev pub by_set_dump : Text → BySetState → Text
  by_set_dump f s = by_set.serialize (record { function = f; key_set = s.key_set })

  abbrev pub dynamic_group_dump : Text → DynamicGroupState → Text
  dynamic_group_dump f s =
      dynamic_group.serialize (record { function = f; control_group = s.control_group })

  abbrev pub redundant_dump : Text → RedundantState → Text
  redundant_dump f s = redundant.serialize (record { function = f; k = s.k; n = s.n })

  abbrev pub by_time_dump : Text → ByTimeState → Text
  by_time_dump f s = by_time.serialize (record { function = f; time_window = s.time_window })

  -- The virtual call.
  unfoldable pub kind_dump : Text → Kind → Text
  kind_dump f (immediately c) = immediate_dump f
  kind_dump f (named s) = by_name_dump f s
  kind_dump f (batched s) = by_batch_dump f s
  kind_dump f (gathered s) = by_set_dump f s
  kind_dump f (grouped s) = dynamic_group_dump f s
  kind_dump f (k_of_n s) = redundant_dump f s
  kind_dump f (timed s) = by_time_dump f s

  -- dump_pritimive()
  unfoldable pub dump_primitive : Trigger → Text
  unfolding kind_dump
  dump_primitive t = kind_dump t.target_function t.kind

  -- `none` is nullptr. `now` is the clock reading that the constructor of ByTimeTrigger takes.
  unfoldable pub gen_trigger_pointer : PrimitiveType → Text → Text → ℕ → Option Trigger
  gen_trigger_pointer PrimitiveType.immediate name s now =
      some (new_trigger (immediate.parse s).function name (immediately []))
  gen_trigger_pointer PrimitiveType.by_name name s now =
      let p = by_name.parse s in
      some (new_trigger p.function name (named (record { key_name = p.key_name; name_cache = [] })))
  gen_trigger_pointer PrimitiveType.by_batch_size name s now =
      let p = by_batch_size.parse s in
      some (new_trigger p.function name (new_batch (int_of_uint32 p.count)))
  gen_trigger_pointer PrimitiveType.by_set name s now =
      let p = by_set.parse s in
      some (new_set_trigger p.function name (HashSet.insert_all p.key_set []))
  gen_trigger_pointer PrimitiveType.dynamic_group name s now =
      let p = dynamic_group.parse s in
      some (new_trigger p.function name (new_group (HashSet.insert_all p.control_group [])))
  gen_trigger_pointer PrimitiveType.redundant name s now =
      let p = redundant.parse s in some (new_redundant_trigger p.function name p.k p.n)
  gen_trigger_pointer PrimitiveType.by_time name s now =
      let p = by_time.parse s in some (new_time_trigger p.function name p.time_window now)
  gen_trigger_pointer (PrimitiveType.unknown n) name s now = none
