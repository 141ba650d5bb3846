-- ===== src/Executor/UserLibrary.antt =====
-- UserLibrary (src/executor/function_lib.hpp): what a function of an application calls. `now` and
-- shared memory do not matter for the messages: an object is its name, size and target, and the
-- value is what shared memory holds. The channels are left out: a send is the message, and the
-- answer is an argument, `none` for a timeout.
use spheromone.Prelude.{
  ◌-◌, ℕ, ◌+◌, ◌%◌, ◌^◌, Bool, not, Option, none, some, List, [], ◌∷◌, ◌++◌, nat_eq, ◌==◌,
  if◌then◌else◌, leb, length, get_elem?, drop,
}
use spheromone.Prelude.Int.{size_of_int}
use spheromone.Text.{Text, text, to_string}
use spheromone.Common.Key.{delimiter, get_local_object_name}
use spheromone.Common.Stoi.{stoi}
use spheromone.Common.Result.{Result, ok, ◌>>=◌}
use spheromone.Scheduler.Objects.{byte_at, c_string, bucket_name_direct_invoc}
use spheromone.Scheduler.Responses.{kvs_key_prefix}

pub record UserLibrary : Type 0 where
  pub ip_number : Text
  pub chan_id : ℕ
  pub rid : ℕ
  pub object_id : ℕ
  pub function : Text
  pub session_id : Text
  pub persist_flag : ℕ
  pub size_of_args : List ℕ

-- EpheObjectImpl, less its shared memory.
pub record EpheObject : Type 0 where
  pub obj_name : Text
  pub size : ℕ
  pub target_func : Text

unfoldable pub without_dots : Text → Text
without_dots [] = []
without_dots (c ∷ s) = let rest = without_dots s in if c == b'.' then rest else c ∷ rest

-- The members that the constructor does not set hold any value; a call sets them before they are
-- read.
unfoldable pub new_library : Text → ℕ → UserLibrary
unfolding without_dots
new_library ip thread_id = record {
  ip_number = without_dots ip;
  chan_id = (thread_id + 1) % 2 ^ 8;
  rid = 0;
  object_id = 0;
  function = [];
  session_id = [];
  persist_flag = 0;
  size_of_args = [];
}

unfoldable pub clear_session : UserLibrary → UserLibrary
clear_session u = record u { function = []; session_id = []; persist_flag = 0; size_of_args = [] }

unfoldable pub add_arg_size : ℕ → UserLibrary → UserLibrary
add_arg_size size u = record u { size_of_args = u.size_of_args ++ size ∷ [] }

-- A size_t: -1 is the greatest number.
unfoldable pub get_size_of_arg : ℕ → UserLibrary → ℕ
get_size_of_arg i u = elim (get_elem? u.size_of_args i) [ none ↦ 2 ^ 64 - 1 | some size ↦ size ]

-- The ids go from 1 to 99, then from 0. rid_ is one byte.
unfoldable pub next_request_id : UserLibrary → ℕ × UserLibrary
next_request_id u =
    let next = (u.rid + 1) % 2 ^ 8 in
    let rid : ℕ = if next % 100 == 0 then 0 else next in (rid, record u { rid = rid })

unfoldable pub get_object_id : UserLibrary → ℕ × UserLibrary
get_object_id u = (u.object_id, record u { object_id = (u.object_id + 1) % 2 ^ 32 })

unfoldable pub gen_unique_key : UserLibrary → Text × UserLibrary
unfolding get_object_id
gen_unique_key u =
    let (id, u') = get_object_id u in
    (u.ip_number ++ b'_' ∷ to_string u.chan_id ++ b'_' ∷ to_string id, u')

-- The three ways to create an object: by bucket and key, for a direct invocation, and for a
-- function, whose bucket is named after it.
unfoldable pub create_object : Text → Text → ℕ → UserLibrary → EpheObject
create_object bucket key size u = record {
  obj_name = get_local_object_name bucket key u.session_id;
  size = size;
  target_func = [];
}

unfoldable pub create_anonymous : ℕ → UserLibrary → EpheObject × UserLibrary
unfolding get_object_id create_object
create_anonymous size u =
    let (id, u') = get_object_id u in
    (
      create_object bucket_name_direct_invoc (to_string u.chan_id ++ b'_' ∷ to_string id) size u',
      u',
    )

unfoldable pub create_for : Text → Bool → ℕ → UserLibrary → EpheObject × UserLibrary
unfolding gen_unique_key create_object
create_for target_function many_to_one size u =
    if many_to_one
    then (
      record {
        obj_name =
            get_local_object_name (text "b_" ++ target_function) (text "k_" ++ u.function)
              u.session_id;
        size = size;
        target_func = target_function;
      },
      u,
    )
    else (let (key, u') = gen_unique_key u in
        (create_object (text "b_" ++ target_function) key size u', u'))

abbrev pub msg_data_packing_threshold : ℕ
msg_data_packing_threshold = 1024

-- The message of send_object: executor + 1, type, request, packing, then session, function, target,
-- object and value or size. An output is written to the store or sent to the client.
unfoldable pub send_object_message :
    (Text → ℕ → Text) → EpheObject → Bool → UserLibrary → Text × UserLibrary
unfolding next_request_id
send_object_message shm_read o output u =
    let (req_id, u') = next_request_id u in
    let type : ℕ = if output then if u.persist_flag == 1 then 3 else 4 else 2 in
    let packing = leb o.size msg_data_packing_threshold in
    let flag : ℕ = if packing then 1 else 2 in
    (
      u.chan_id ∷ type ∷ req_id ∷ flag ∷ u.session_id
          ++ delimiter ∷ u.function
          ++ delimiter ∷ o.target_func
          ++ delimiter ∷ o.obj_name
          ++ delimiter ∷ (if packing then shm_read o.obj_name o.size else to_string o.size),
      u',
    )

-- The name of an object in the store is its key alone, without the session.
unfoldable pub requested_name : Text → Text → Bool → UserLibrary → Text
requested_name bucket key from_ephe_store u =
    if from_ephe_store
    then get_local_object_name bucket key u.session_id
    else kvs_key_prefix ++ delimiter ∷ key

-- The message of get_object: executor + 1, 1, where from, request, the name's length and the name.
-- The length is one byte.
unfoldable pub get_object_message : Text → Text → Bool → UserLibrary → Text × UserLibrary
unfolding next_request_id requested_name
get_object_message bucket key from_ephe_store u =
    let name = requested_name bucket key from_ephe_store u in
    let (req_id, u') = next_request_id u in
    let source : ℕ = if from_ephe_store then 1 else 2 in
    (u.chan_id ∷ 1 ∷ source ∷ req_id ∷ length name % 2 ^ 8 ∷ name, u')

-- The answer to get_object. `none` is nullptr.
unfoldable pub get_object_answer : Text → ℕ → Option Text → Result (Option EpheObject)
unfolding byte_at c_string
get_object_answer name req_id none = ok none
get_object_answer name req_id (some answer) =
    if not (byte_at 0 answer == 3)
    then ok none
    else if not (byte_at 1 answer == req_id)
    then ok none
    else if not (byte_at 2 answer == 1)
    then ok none
    else stoi (c_string (drop 3 answer)) >>= (λ size.
      ok (some (record { obj_name = name; size = size_of_int size; target_func = [] })))
