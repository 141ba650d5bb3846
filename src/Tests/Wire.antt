-- ===== src/Tests/Wire.antt =====
-- A way to write the messages that configure triggers, in place of protobuf.
use spheromone.Prelude.{
  ℕ, zero, suc, ◌≤◌, ◌≡◌, refl, ap, List, [], ◌∷◌, ◌++◌, length, length-append, take, drop,
  take-append, drop-append, arith,
}
use spheromone.Text.{Text}
use spheromone.Trigger.Primitive.{
  Codec, Codecs, ImmediatePrimitive, ByNamePrimitive, ByBatchSizePrimitive, BySetPrimitive,
  DynamicGroupPrimitive, RedundantPrimitive, ByTimePrimitive,
}

-- Each text behind its length.
unfoldable pub encode : List Text → Text
encode [] = []
encode (w ∷ ws) = length w ∷ w ++ encode ws

unfoldable pub decode : ℕ → Text → List Text
decode zero s = []
decode (suc fuel) [] = []
decode (suc fuel) (n ∷ s) = take n s ∷ decode fuel (drop n s)

decode-encode :
    (fuel : ℕ) (ws : List Text) → length (encode ws) ≤ fuel → decode fuel (encode ws) ≡ ws
unfolding decode encode
decode-encode zero [] h = refl
decode-encode zero (w ∷ ws) h = absurd (omega arith)
decode-encode (suc fuel) [] h = refl
decode-encode (suc fuel) (w ∷ ws) h =
    rw (take-append w (encode ws), drop-append w (encode ws))
      (ap (λ r. w ∷ r) (decode-encode fuel ws (omega (arith, length-append w (encode ws)))))

abbrev pub immediate_codec : Codec ImmediatePrimitive
immediate_codec = record {
  serialize = λ m. m.function;
  parse = λ s. record { function = s };
  parse-serialize = λ m. refl;
}

abbrev pub parse_name : Text → ByNamePrimitive
parse_name [] = record { function = []; key_name = [] }
parse_name (n ∷ s) = record { function = take n s; key_name = drop n s }

pub parse_name_lem :
    (m : ByNamePrimitive) → parse_name (length m.function ∷ m.function ++ m.key_name) ≡ m
parse_name_lem m = rw (take-append m.function m.key_name, drop-append m.function m.key_name) refl

abbrev pub by_name_codec : Codec ByNamePrimitive
by_name_codec = record {
  serialize = λ m. length m.function ∷ m.function ++ m.key_name;
  parse = parse_name;
  parse-serialize = parse_name_lem;
}

abbrev pub parse_batch : Text → ByBatchSizePrimitive
parse_batch [] = record { function = []; count = 0 }
parse_batch (n ∷ s) = record { function = s; count = n }

abbrev pub by_batch_size_codec : Codec ByBatchSizePrimitive
by_batch_size_codec = record {
  serialize = λ m. m.count ∷ m.function;
  parse = parse_batch;
  parse-serialize = λ m. refl;
}

abbrev pub parse_set : Text → BySetPrimitive
parse_set [] = record { function = []; key_set = [] }
parse_set (n ∷ s) = record { function = take n s; key_set = decode (length s) (drop n s) }

pub parse_set_lem :
    (m : BySetPrimitive) → parse_set (length m.function ∷ m.function ++ encode m.key_set) ≡ m
parse_set_lem m =
    let n = length (m.function ++ encode m.key_set) in
    rw
      (
        take-append m.function (encode m.key_set),
        drop-append m.function (encode m.key_set),
        decode-encode n m.key_set (omega (arith, length-append m.function (encode m.key_set))),
      )
      refl

abbrev pub by_set_codec : Codec BySetPrimitive
by_set_codec = record {
  serialize = λ m. length m.function ∷ m.function ++ encode m.key_set;
  parse = parse_set;
  parse-serialize = parse_set_lem;
}

abbrev pub to_set : DynamicGroupPrimitive → BySetPrimitive
to_set m = record { function = m.function; key_set = m.control_group }

abbrev pub of_set : BySetPrimitive → DynamicGroupPrimitive
of_set m = record { function = m.function; control_group = m.key_set }

abbrev pub dynamic_group_codec : Codec DynamicGroupPrimitive
dynamic_group_codec = record {
  serialize = λ m. by_set_codec.serialize (to_set m);
  parse = λ s. of_set (by_set_codec.parse s);
  parse-serialize = λ m. ap of_set (by_set_codec.parse-serialize (to_set m));
}

abbrev pub parse_redundant : Text → RedundantPrimitive
parse_redundant (k ∷ n ∷ s) = record { function = s; k = k; n = n }
parse_redundant s = record { function = []; k = 0; n = 0 }

abbrev pub redundant_codec : Codec RedundantPrimitive
redundant_codec = record {
  serialize = λ m. m.k ∷ m.n ∷ m.function;
  parse = parse_redundant;
  parse-serialize = λ m. refl;
}

abbrev pub parse_time : Text → ByTimePrimitive
parse_time [] = record { function = []; time_window = 0 }
parse_time (n ∷ s) = record { function = s; time_window = n }

abbrev pub by_time_codec : Codec ByTimePrimitive
by_time_codec = record {
  serialize = λ m. m.time_window ∷ m.function;
  parse = parse_time;
  parse-serialize = λ m. refl;
}

abbrev pub wire : Codecs
wire = record {
  immediate = immediate_codec;
  by_name = by_name_codec;
  by_batch_size = by_batch_size_codec;
  by_set = by_set_codec;
  dynamic_group = dynamic_group_codec;
  redundant = redundant_codec;
  by_time = by_time_codec;
}
