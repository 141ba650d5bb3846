-- ===== src/Scheduler/Receive.antt =====
-- What CommHelper does with the messages that a node receives
-- (src/scheduler/comm_helper.hpp, 595-662).
use spheromone.Prelude.{
  ℕ, List, [], ◌∷◌, ◌++◌, nat_eq, ◌==◌, if◌then◌else◌, ltb, leb, length, take, drop,
}
use spheromone.Prelude.Int.{ℤ, pos, int_of_uint32}
use spheromone.Text.{Text, text_eq}
use spheromone.HashMap
use spheromone.HashMap.{HashMap}
use spheromone.Common.Result.{Result, ok, crash, ◌>>=◌}
use spheromone.Messages.{FunctionCall, FunctionRequest, Argument}
use spheromone.Scheduler.State.{Helper, Output, bytes_to, copy_to_shm_obj}

-- What the scheduler gets of the helper.
pub record CallMsg : Type 0 where
  pub app_name : Text
  pub resp_address : Text
  pub session_id : Text
  pub calls : List (Text × List Text × ℤ)

pub data RecvMsg : Type 0 where
  call : CallMsg → RecvMsg
  data_resp : Text → ℕ → RecvMsg
  kvs_get_resp : Text → ℕ → RecvMsg
  kvs_put_resp : Text → RecvMsg

-- The bodies of the arguments, the flag of the last one that has one, and the addresses of keys. An
-- address that is already there is kept.
unfoldable pub read_arguments :
    List Argument → ℤ → HashMap Text Text → List Text × ℤ × HashMap Text Text
read_arguments [] flag m = ([], flag, m)
read_arguments (a ∷ rest) flag m =
    let has_flag = ltb 0 a.arg_flag in
    let (args, last, m') =
      read_arguments rest (if has_flag then int_of_uint32 a.arg_flag else flag)
        (if has_flag then HashMap.touch a.body m a.data_address else m) in
    (a.body ∷ args, last, m')

unfoldable pub read_requests :
    List FunctionRequest → HashMap Text Text → List (Text × List Text × ℤ) × HashMap Text Text
unfolding read_arguments
read_requests [] m = ([], m)
read_requests (r ∷ rest) m =
    let (args, flag, m1) = read_arguments r.arguments (pos 0) m in
    let (calls, m2) = read_requests rest m1 in ((r.name, args, flag) ∷ calls, m2)

unfoldable pub handle_function_call : FunctionCall → Helper → RecvMsg × Helper
unfolding read_requests
handle_function_call c h =
    let (calls, m) = read_requests c.requests h.key_address in
    (
      call (record {
        app_name = c.app_name;
        resp_address = c.resp_address;
        session_id = c.session_id;
        calls = calls;
      }),
      record h { key_address = m },
    )

-- Key length, key, and what follows. A message that ends before the key does is read outside.
unfoldable pub split_message : Text → Result (Text × Text)
split_message [] = crash
split_message (n ∷ s) = if leb n (length s) then ok (take n s, drop n s) else crash

module _ (shm_read : Text → ℕ → Text) where
  -- An object that is here and not empty is sent to the address in the request.
  unfoldable pub handle_data_request : Text → HashMap Text ℕ → Result (List Output)
  unfolding split_message
  handle_data_request message lens = do
    (key, resp_address) ← split_message message
    let size = HashMap.get_or key lens 0
    ok (
        if size == 0
        then []
        else bytes_to resp_address (length key ∷ key ++ shm_read key size) ∷ [])

unfoldable pub handle_data_response : Text → Result (RecvMsg × Output)
unfolding split_message
handle_data_response message = do
  (key, value) ← split_message message
  ok (data_resp key (length value), copy_to_shm_obj key value)
