-- ===== src/Executor/Run.antt =====
-- An executor (src/executor/executor.cpp): it reads a call, gets its arguments ready, runs the
-- function and reports its status. The functions are shared libraries: whether one can be loaded,
-- and what it does with the library, are parameters. Exceptions of a function are caught, so it
-- always returns. The log is left out.
use spheromone.Prelude.{
  ◌/◌, ◌-◌, ◌&&◌, leb, ℕ, ◌+◌, ◌%◌, ◌^◌, Bool, true, false, not, Option, none, some, List, [], ◌∷◌,
  ◌++◌, map, nat_eq, ◌==◌, if◌then◌else◌, length, drop,
}
use spheromone.Prelude.Int.{size_of_int}
use spheromone.Text.{Text, text_eq}
use spheromone.HashSet
use spheromone.HashSet.{HashSet}
use spheromone.Common.Key.{delimiter}
use spheromone.Common.Split.{split}
use spheromone.Common.Stoi.{stoi}
use spheromone.Common.Result.{Result, ok, crash, ◌>>=◌}
use spheromone.Scheduler.Objects.{byte_at, c_string}
use spheromone.Executor.UserLibrary.{UserLibrary, add_arg_size, clear_session}

-- What a call message says.
pub record Call : Type 0 where
  pub arg_flag : ℕ
  pub persist_flag : ℕ
  pub session_id : Text
  pub func_name : Text
  pub items : List Text

-- A message without a session or a function is an access outside of the vector.
unfoldable pub read_call : Text → Result Call
unfolding byte_at c_string
read_call str = elim (split delimiter (c_string (drop 3 str))) [
  | [] ↦ crash
  | session ∷ [] ↦ crash
  | session ∷ func ∷ items ↦ ok (record {
    arg_flag = (byte_at 1 str + 255) % 2 ^ 8;
    persist_flag = byte_at 2 str;
    session_id = session;
    func_name = func;
    items = items;
  })
]

-- An argument: bytes with a 0 behind them, or an object in shared memory and its size.
pub data Value : Type 0 where
  chars : Text → Value
  shared : Text → ℕ → Value

unfoldable pub size_of : Value → ℕ
size_of (chars s) = length s
size_of (shared name size) = size

-- The values of one object.
unfoldable pub object_values : ℕ → Text → Text → ℕ → List Value
object_values flag bucket key size =
    let value = shared (bucket ++ delimiter ∷ key) size in
    if flag == 1 then value ∷ [] else if flag == 2 then chars key ∷ value ∷ [] else []

unfoldable pub key_values : ℕ → List Text → Result (List Value)
unfolding object_values
key_values flag (bucket ∷ key ∷ size ∷ rest) = do
  n ← stoi size
  more ← key_values flag rest
  ok (object_values flag bucket key (size_of_int n) ++ more)
key_values flag items = ok []

-- The arguments of a call: plain ones, or three items for each object, with another number of items
-- reported as `none`. A flag above 2 leaves the number of arguments undefined.
unfoldable pub arguments : Call → Result (Option (List Value))
unfolding key_values
arguments c =
    if c.arg_flag == 0
    then ok (some (map chars c.items))
    else if not (length c.items % 3 == 0)
    then ok none
    else if c.arg_flag == 1
    then key_values 1 c.items >>= (λ vs. ok (some vs))
    else if c.arg_flag == 2
    then key_values 2 c.items >>= (λ vs. ok (some vs))
    else crash

pub record Executor : Type 0 where
  pub thread_id : ℕ
  pub user_lib : UserLibrary
  pub name_func : HashSet Text

-- update_status: executor + 1, and 6 for busy or 7 for available.
unfoldable pub status_message : ℕ → Bool → Text
status_message thread_id busy =
    let flag : ℕ = if busy then 6 else 7 in (thread_id + 1) % 2 ^ 8 ∷ flag ∷ []

unfoldable pub add_sizes : List Value → UserLibrary → UserLibrary
unfolding size_of
add_sizes [] u = u
add_sizes (v ∷ vs) u = add_sizes vs (add_arg_size (size_of v) u)

abbrev pub enter : Call → UserLibrary → UserLibrary
enter c u = record u {
  function = c.func_name;
  session_id = c.session_id;
  persist_flag = c.persist_flag;
}

module _ (load_function : Text → Bool)
    (handle : Text → List Value → UserLibrary → UserLibrary × List Text) where
  -- The messages are those of the function between the two reports. A function that cannot be
  -- loaded, or arguments that cannot be read, leave the library with the call's session.
  unfoldable pub run_call : Call → Executor → Result (Executor × List Text)
  unfolding arguments status_message add_sizes
  run_call c e =
      let busy = status_message e.thread_id true in
      let free = status_message e.thread_id false in
      let u = enter c e.user_lib in
      let known = HashSet.contains c.func_name e.name_func in
      let e1 = record e {
        user_lib = u;
        name_func = if known then e.name_func else HashSet.insert c.func_name e.name_func;
      } in
      if not known && not (load_function c.func_name)
      then ok (record e { user_lib = u }, busy ∷ free ∷ [])
      else elim (arguments c) [
        | crash ↦ crash
        | ok none ↦ ok (e1, busy ∷ free ∷ [])
        | ok (some values) ↦
            let (u', sent) = handle c.func_name values (add_sizes values u) in
            ok (record e1 { user_lib = clear_session u' }, busy ∷ sent ++ free ∷ [])
      ]

  -- A message that is not a call is ignored.
  unfoldable pub receive : Text → Executor → Result (Executor × List Text)
  unfolding read_call byte_at run_call
  receive str e = if byte_at 0 str == 1 then read_call str >>= (λ c. run_call c e) else ok (e, [])

-- The timer of `run`.
unfoldable pub report : ℕ → ℕ → ℕ → Executor → List Text
unfolding status_message
report threshold start end e =
    if leb threshold ((end - start) / 1000000) then status_message e.thread_id false ∷ [] else []
