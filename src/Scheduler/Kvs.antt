-- ===== src/Scheduler/Kvs.antt =====
-- The answers of the key-value store: get_kvs_responses of src/scheduler/comm_helper.hpp. The client
-- of Anna is code of another project: its answers are arguments.
use spheromone.Prelude.{ℕ, Bool, List, [], ◌∷◌, ◌++◌, nat_eq, ◌==◌, if◌then◌else◌, length}
use spheromone.Text.{Text}
use spheromone.Common.Key.{delimiter}
use spheromone.Scheduler.State.{Output, kvs_get, copy_to_shm_obj}
use spheromone.Scheduler.Receive.{RecvMsg, kvs_get_resp, kvs_put_resp}
use spheromone.Scheduler.Responses.{kvs_key_prefix}

pub data KvsRequestType : Type 0 where
  get put other : KvsRequestType

-- What the program reads of a KeyResponse, with its value without the time stamp of the lattice.
pub record KvsResponse : Type 0 where
  pub key : Text
  pub type : KvsRequestType
  pub timed_out : Bool
  pub tuple_error : ℕ
  pub value : Text

-- A read that timed out is repeated, a write is not. A read of a missing key (error 1) is dropped.
unfoldable pub kvs_response : ℕ → KvsResponse → List RecvMsg × List Output
kvs_response tid r = elim r.type [
  | get ↦
      if r.timed_out
      then ([], kvs_get tid r.key ∷ [])
      else if r.tuple_error == 1
      then ([], [])
      else (
        kvs_get_resp r.key (length r.value) ∷ [],
        copy_to_shm_obj (kvs_key_prefix ++ delimiter ∷ r.key) r.value ∷ [],
      )
  | put ↦ if r.timed_out then ([], []) else (kvs_put_resp r.key ∷ [], [])
  | other ↦ ([], [])
]

unfoldable pub get_kvs_responses : ℕ → List KvsResponse → List RecvMsg × List Output
unfolding kvs_response
get_kvs_responses tid [] = ([], [])
get_kvs_responses tid (r ∷ rs) =
    let (messages, sent) = kvs_response tid r in
    let (more, rest) = get_kvs_responses tid rs in (messages ++ more, sent ++ rest)
