-- ===== src/Scheduler/Objects.antt =====
-- An object that an executor sends (message types 2 to 4): the send object handler of `run` in
-- src/scheduler/scheduler.cpp.
use spheromone.Prelude.{
  ℕ, ◌+◌, ◌%◌, ◌^◌, Option, none, some, List, [], ◌∷◌, ◌++◌, map, nat_eq, ◌==◌, if◌then◌else◌, ltb,
  length, take, drop, get_elem?,
}
use spheromone.Prelude.Int.{ℤ, pos, negsuc, uint32_of_int}
use spheromone.Text.{Text, text, text_eq, empty}
use spheromone.HashMap
use spheromone.HashMap.{HashMap}
use spheromone.HashSet
use spheromone.HashSet.{HashSet}
use spheromone.Common.Key.{BucketKey, delimiter, of_session_key}
use spheromone.Common.Split.{split}
use spheromone.Common.Stoi.{stoi}
use spheromone.Common.Result.{Result, ok, crash, ◌>>=◌}
use spheromone.Trigger.Types.{TriggerFunctionMetadata}
use spheromone.Scheduler.State.{Helper, Node, Config, Output}
use spheromone.Scheduler.Update.{app_of}
use spheromone.Scheduler.Helper.{put_kvs_async, notify_put}
use spheromone.Scheduler.Forward.{client_of, forward_call_via_helper}
use spheromone.Scheduler.Dispatch.{get_avail_executor_num, schedule_func_call}
use spheromone.Scheduler.Arrival.{and_then, check_trigger, schedule_all}

unfoldable pub byte_at : ℕ → Text → ℕ
byte_at i s = elim (get_elem? s i) [ none ↦ 0 | some b ↦ b ]

-- The text up to the first 0.
unfoldable pub c_string : Text → Text
c_string [] = []
c_string (c ∷ s) = let rest = c_string s in if c == 0 then [] else c ∷ rest

abbrev pub bucket_name_direct_invoc : Text
bucket_name_direct_invoc = text "direct_invoc"

-- What the messages of a helper's operation leave.
abbrev pub by_helper : List Output × Helper → Node → Node × List Output
by_helper (sent, h) n = (record n { helper = h }, sent)

-- What a message of types 2 to 4 says.
pub record SentObject : Type 0 where
  pub session_id : Text
  pub src_function : Text
  pub tgt_function : Text
  pub bucket : Text
  pub session_key : Text
  pub content : Text

-- Less than six items are reported, and further ones are ignored.
unfoldable pub read_object : Text → Option SentObject
unfolding c_string
read_object str = elim (split delimiter (c_string (drop 4 str))) [
  | session ∷ src ∷ tgt ∷ bucket ∷ key ∷ content ∷ more ↦ some (record {
    session_id = session;
    src_function = src;
    tgt_function = tgt;
    bucket = bucket;
    session_key = key;
    content = content;
  })
  | _ ↦ none
]

abbrev pub obj_name : SentObject → Text
obj_name o = o.bucket ++ delimiter ∷ o.session_key

-- A packed value is kept with its size; otherwise the content is the size.
unfoldable pub keep_object : ℕ → SentObject → Node → Result Node
keep_object packing o n =
    if packing == 1
    then ok (record n {
      key_val = HashMap.put (obj_name o) o.content n.key_val;
      key_len = HashMap.put (obj_name o) (length o.content) n.key_len;
    })
    else if packing == 2
    then stoi o.content >>= (λ size.
      ok (record n { key_len = HashMap.put (obj_name o) (uint32_of_int size) n.key_len }))
    else ok n

-- The arguments and the flag of a direct invocation.
unfoldable pub direct_args : ℕ → SentObject → List Text × ℤ
direct_args packing o =
    if packing == 1
    then (o.content ∷ [], pos 0)
    else if packing == 2
    then (obj_name o ∷ o.content ∷ [], pos 1)
    else ([], pos 1)

abbrev pub call_of : List Text → ℤ → Text → TriggerFunctionMetadata
call_of args flag f = record { func_name = f; func_args = args; arg_flag = flag }

-- What the coordinator is told of an object, if its content is known.
unfoldable pub notify_object : ℕ → SentObject → BucketKey → List Text → Node → Node × List Output
notify_object packing o b names n =
    let client = client_of o.session_id n in
    if packing == 1
    then by_helper (notify_put b names client (HashMap.get_or (obj_name o) n.key_val []) n.helper) n
    else if packing == 2
    then by_helper (notify_put b names client [] n.helper) n
    else (n, [])

abbrev pub count_calls : List Text → Node → Node
count_calls names n = record n { call_id = (n.call_id + length names) % 2 ^ 32 }

unfoldable pub kept_put : Text → ℕ → ℕ → Node → Node
kept_put key executor_id req_id n = record n {
  kvs_puts =
      HashMap.put key (HashMap.get_or key n.kvs_puts [] ++ (executor_id, req_id) ∷ []) n.kvs_puts;
}

module _ (shm_read : Text → ℕ → Text) where
  -- An object for the key-value store. The zero that strcpy writes behind the copy of a packed
  -- value is left out.
  unfoldable pub put_object : ℕ → SentObject → Node → Result (Node × List Output)
  put_object packing o n =
      if packing == 1
      then ok (by_helper (put_kvs_async o.session_key o.content n.helper) n)
      else if packing == 2
      then stoi o.content >>= (λ size. ok (
          by_helper
            (put_kvs_async o.session_key (shm_read (obj_name o) (uint32_of_int size)) n.helper) n))
      else ok (n, [])

  -- The value for the client. A text of negative size throws.
  unfoldable pub output_data : ℕ → SentObject → Result Text
  output_data packing o =
      if packing == 1
      then ok o.content
      else if packing == 2
      then stoi o.content
        >>= (λ size. elim size [ pos k ↦ ok (shm_read (obj_name o) k) | negsuc k ↦ crash ])
      else ok []

  module _ (rand_r : ℕ → ℕ × ℕ) (config : Config) where
    -- Batch forwarding: as many functions as there are free executors stay here.
    unfoldable pub invoke_targets :
        Text → Text → List Text → List Text → ℤ → ℕ → Node → Result (Node × List Output)
    invoke_targets session app targets args flag now n =
        let avail = get_avail_executor_num n.executor_status in
        let here = map (call_of args flag) (take avail targets) in
        let there = map (λ (f : Text). (f, args)) (drop avail targets) in
        let local = schedule_all shm_read rand_r config session (λ f. app) here now n in
        if ltb avail (length targets)
        then (if config.reject_extra_req
            then local
            else and_then local (λ n'. forward_call_via_helper shm_read session app there flag n'))
        else schedule_all shm_read rand_r config session (λ f. app)
            (map (call_of args flag) targets) now n

    unfoldable pub invoke_direct :
        HashSet Text → ℕ → SentObject → ℕ → Node → Result (Node × List Output)
    unfolding direct_args invoke_targets
    invoke_direct targets packing o now n =
        let app = HashMap.get_or o.src_function n.func_app [] in
        let (args, flag) = direct_args packing o in
        if empty o.tgt_function
        then invoke_targets o.session_id app targets args flag now n
        else if HashSet.contains o.tgt_function targets
        then schedule_func_call shm_read rand_r config o.session_id app o.tgt_function args flag now
            n
        else ok (n, [])

    -- The triggers of the object's bucket.
    unfoldable pub put_in_bucket : ℕ → SentObject → ℕ → Node → Result (Node × List Output)
    unfolding notify_object
    put_in_bucket packing o now n =
        let b = of_session_key o.bucket o.session_key in
        let (names, scheduled) = check_trigger shm_read rand_r config b o.session_id now n in
        and_then scheduled (λ n1.
          let (n2, sent) = notify_object packing o b names n1 in ok (count_calls names n2, sent))

    unfoldable pub ephemeral_object : ℕ → SentObject → ℕ → Node → Result (Node × List Output)
    unfolding keep_object invoke_direct put_in_bucket
    ephemeral_object packing o now n = keep_object packing o n >>= (λ n1.
        let info = app_of (HashMap.get_or o.src_function n1.func_app []) n1 in
        elim (HashMap.find o.src_function info.direct_deps) [
          | some targets ↦ invoke_direct targets packing o now n1
          | none ↦
              if o.bucket == bucket_name_direct_invoc
              then ok (n1, [])
              else put_in_bucket packing o now n1
        ])
