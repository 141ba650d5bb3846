-- ===== src/Scheduler/Forward.antt =====
-- forward_call_via_helper of src/scheduler/scheduler.cpp, and the arguments that schedule_func_call
-- cuts for it.
use spheromone.Prelude.{
  ℕ, ◌+◌, ◌%◌, ◌^◌, none, some, List, [], ◌∷◌, ◌++◌, nat_eq, ◌==◌, if◌then◌else◌, ltb,
}
use spheromone.Prelude.Int.{ℤ, pos, ltb_ℤ, uint32_of_int}
use spheromone.Text.{Text, text_eq, find_char}
use spheromone.HashMap
use spheromone.HashMap.{HashMap}
use spheromone.Common.Key.{delimiter}
use spheromone.Common.Split.{split}
use spheromone.Common.Stoi.{stoi}
use spheromone.Common.Result.{Result, ok, crash, ◌>>=◌}
use spheromone.Scheduler.State.{Node, Output}
use spheromone.Scheduler.Helper.{forward_func_call}
use spheromone.Scheduler.Helper.{forward_func_call}

unfoldable pub client_of : Text → Node → Text
client_of session n = HashMap.get_or session n.session_client []

-- forward_call_via_helper.
abbrev pub forward_data_packing_threshold : ℕ
forward_data_packing_threshold = 10240

-- The sum of the sizes, of bucket, key and size for each argument, as an unsigned number. An
-- incomplete argument is an access outside of the vector.
unfoldable pub data_size : List Text → Result ℕ
data_size [] = ok 0
data_size (bucket ∷ key ∷ size ∷ rest) = do
  n ← stoi size
  more ← data_size rest
  ok ((uint32_of_int n + more) % 2 ^ 32)
data_size (bucket ∷ key ∷ []) = crash
data_size (bucket ∷ []) = crash

unfoldable pub total_size : List (Text × List Text) → Result ℕ
unfolding data_size
total_size [] = ok 0
total_size ((name, args) ∷ rest) = do
  n ← data_size args
  more ← total_size rest
  ok ((n + more) % 2 ^ 32)

module _ (shm_read : Text → ℕ → Text) where
  -- key_len_map[key_name] adds a key that is not there. With flag 1 the values, with flag 2 keys
  -- and values.
  unfoldable pub real_args : ℤ → List Text → HashMap Text ℕ → Result (List Text × HashMap Text ℕ)
  real_args flag [] lens = ok ([], lens)
  real_args flag (bucket ∷ key ∷ size ∷ rest) lens = do
    let name = bucket ++ delimiter ∷ key
    let value = shm_read name (HashMap.get_or name lens 0)
    (more, lens') ← real_args flag rest (HashMap.touch name lens 0)
    ok (
      (if uint32_of_int flag == 1
          then value ∷ more
          else if uint32_of_int flag == 2
          then key ∷ value ∷ more
          else more),
      lens',
    )
  real_args flag (bucket ∷ key ∷ []) lens = crash
  real_args flag (bucket ∷ []) lens = crash

  unfoldable pub real_calls :
      ℤ
      → List (Text × List Text)
      → HashMap Text ℕ
      → Result (List (Text × List Text) × HashMap Text ℕ)
  unfolding real_args
  real_calls flag [] lens = ok ([], lens)
  real_calls flag ((name, args) ∷ rest) lens = do
    (real, lens1) ← real_args flag args lens
    (more, lens2) ← real_calls flag rest lens1
    ok ((name, real) ∷ more, lens2)

  -- Hand the calls to the coordinator.
  abbrev pub forward :
      Text → Text → List (Text × List Text) → ℤ → Node → Result (Node × List Output)
  forward session app calls flag n = do
    (sent, h) ← forward_func_call (client_of session n) app calls flag session n.helper
    ok (record n { helper = h }, sent)

  unfoldable pub forward_packed :
      Text → Text → List (Text × List Text) → ℤ → Node → Result (Node × List Output)
  unfolding real_calls client_of
  forward_packed session app calls flag n = do
    (real, lens) ← real_calls flag calls n.key_len
    forward session app real (pos 0) (record n { key_len = lens })

  unfoldable pub forward_call_via_helper :
      Text → Text → List (Text × List Text) → ℤ → Node → Result (Node × List Output)
  unfolding total_size forward_packed client_of
  forward_call_via_helper session app calls flag n =
      if ltb_ℤ (pos 0) flag
      then total_size calls >>= (λ total.
        (if ltb total forward_data_packing_threshold
          then forward_packed session app calls flag n
          else forward session app calls flag n))
      else forward session app calls flag n

-- Names of the form bucket|key are cut in two, if the first argument has that form.
unfoldable pub flatten : List Text → List Text
flatten [] = []
flatten (a ∷ args) = elim (find_char delimiter a) [
  | none ↦ a ∷ flatten args
  | some i ↦ split delimiter a ++ flatten args
]

unfoldable pub flat_args : ℤ → List Text → Result (List Text)
unfolding flatten
flat_args flag [] = if ltb_ℤ (pos 0) flag then crash else ok []
flat_args flag (a ∷ args) =
    if ltb_ℤ (pos 0) flag
    then elim (find_char delimiter a) [ none ↦ ok (a ∷ args) | some i ↦ ok (flatten (a ∷ args)) ]
    else ok (a ∷ args)
