-- ===== src/Trigger/Restore.antt =====
-- A trigger's configuration travels to other nodes as a message: gen_trigger_pointer after
-- dump_pritimive (common/include/trigger.hpp).
use spheromone.Prelude.{ℕ, ◌<◌, ◌^◌, ◌≡◌, refl, some, [], false, arith}
use spheromone.Prelude.Int.{ℤ, pos, negsuc, int_of_uint32, uint32_of_int}
use spheromone.Text.{Text, text_eq}
use spheromone.HashSet
use spheromone.HashSet.{HashSet, IsDistinct, insert_all-distinct}
use spheromone.Trigger.Types.{
  Trigger, Kind, immediately, named, batched, gathered, grouped, k_of_n, timed,
}
use spheromone.Trigger.Primitive.{
  Codecs, kind_type, new_batch, new_set, new_group, new_redundant, new_timed, gen_trigger_pointer,
  dump_primitive,
}

-- An `int` of 32 bits.
abbrev IsInt : ℤ → Type 0
IsInt (pos n) = n < 2 ^ 31
IsInt (negsuc n) = n < 2 ^ 31

-- What the C++ types of the fields give: an int count, and sets without repetitions.
abbrev pub IsTyped : Kind → Type 0
IsTyped (batched s) = IsInt s.count
IsTyped (gathered s) = IsDistinct s.key_set
IsTyped (grouped s) = IsDistinct s.control_group
IsTyped _ = Unit

-- The same configuration, and nothing seen yet.
unfoldable pub unused : Kind → ℕ → Kind
unused (immediately c) now = immediately []
unused (named s) now = named (record { key_name = s.key_name; name_cache = [] })
unused (batched s) now = new_batch s.count
unused (gathered s) now = new_set s.key_set
unused (grouped s) now = new_group s.control_group
unused (k_of_n s) now = new_redundant s.k s.n
unused (timed s) now = new_timed s.time_window now

int_round : (c : ℤ) → IsInt c → int_of_uint32 (uint32_of_int c) ≡ c
int_round (pos n) h = ground arith
int_round (negsuc n) h = ground arith

set_round : (ks : HashSet Text) → IsDistinct ks → HashSet.insert_all ks [] ≡ ks
set_round ks d = insert_all-distinct ks [] d (λ k h. none_in k)
  where
    none_in : (k : Text) → HashSet.contains k [] ≡ false
    none_in k = unfold HashSet.contains in refl

module _ (codecs : Codecs) where
  kind_restore :
      (f name : Text) (option : ℤ) (k : Kind) (now : ℕ)
      → IsTyped k
      → let t : Trigger = record {
        target_function = f;
        trigger_name = name;
        trigger_option = option;
        kind = k;
      } in
        gen_trigger_pointer codecs (kind_type k) name (dump_primitive codecs t) now
        ≡ some (record {
          target_function = f;
          trigger_name = name;
          trigger_option = pos 0;
          kind = unused k now;
        })
  unfolding gen_trigger_pointer dump_primitive kind_type unused
  kind_restore f name o (immediately c) now h = rw (codecs.immediate.parse-serialize) refl
  kind_restore f name o (named s) now h = rw (codecs.by_name.parse-serialize) refl
  kind_restore f name o (batched s) now h =
      rw (codecs.by_batch_size.parse-serialize, int_round s.count h) refl
  kind_restore f name o (gathered s) now h =
      rw (codecs.by_set.parse-serialize, set_round s.key_set h) refl
  kind_restore f name o (grouped s) now h =
      rw (codecs.dynamic_group.parse-serialize, set_round s.control_group h) refl
  kind_restore f name o (k_of_n s) now h = rw (codecs.redundant.parse-serialize) refl
  kind_restore f name o (timed s) now h = rw (codecs.by_time.parse-serialize) refl

  pub gen_trigger_pointer-dump_primitive :
      (t : Trigger) (now : ℕ)
      → IsTyped t.kind
      → gen_trigger_pointer codecs (kind_type t.kind) t.trigger_name (dump_primitive codecs t) now
        ≡ some (record t { trigger_option = pos 0; kind = unused t.kind now })
  gen_trigger_pointer-dump_primitive t now h =
      kind_restore t.target_function t.trigger_name t.trigger_option t.kind now h
