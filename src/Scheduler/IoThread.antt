-- ===== src/Scheduler/IoThread.antt =====
-- The I/O threads of a node: run_io_thread_loop and the hand-over to the main thread in
-- try_recv_msg (src/scheduler/comm_helper.hpp). A thread has a queue of requests, which the main
-- thread fills, and one of responses, which the main thread empties. They share the map of addresses
-- in the helper and the lengths of the objects. What the sockets and the Anna client have is an
-- argument of a round.
pub mod Events
pub mod Batches
pub mod Requests
pub mod Responses
use spheromone.Prelude.{ℕ, zero, suc, Option, none, some, List, [], ◌∷◌, ◌++◌, nat_eq}
use spheromone.Text.{Text}
use spheromone.HashMap.{HashMap}
use spheromone.Common.Result.{Result, ok, ◌>>=◌}
use spheromone.Messages.{FunctionCall, UpdateCoordMsg}
use spheromone.Trigger.Primitive.{Codecs}
use spheromone.Scheduler.State.{Helper, Node, Output, kvs_get, kvs_put}
use spheromone.Scheduler.Helper.{send_data_req_base}
use spheromone.Scheduler.Update.{handle_update}
use spheromone.Scheduler.Receive.{
  RecvMsg, handle_function_call, handle_data_request, handle_data_response,
}
use spheromone.Scheduler.Kvs.{KvsResponse, get_kvs_responses}

-- SecondaryThreadMsg: a pointer to a value is the value.
pub data ThreadMsg : Type 0 where
  send_req : Text → ThreadMsg
  get_kvs : Text → ThreadMsg
  put_kvs : Text → Text → ThreadMsg

-- The thread's entries of secondary_thread_msg_queues and resp_queues.
pub record IoThread : Type 0 where
  pub requests : List ThreadMsg
  pub responses : List RecvMsg

-- What there is to receive in a round.
pub record Input : Type 0 where
  pub call : Option FunctionCall
  pub data_request : Option Text
  pub data_response : Option Text
  pub kvs : List KvsResponse

abbrev pub msg_process_batch : ℕ
msg_process_batch = 10

unfoldable pub process : ℕ → Helper → ThreadMsg → List Output
process tid h (send_req key) = send_data_req_base key tid h
process tid h (get_kvs key) = kvs_get tid key ∷ []
process tid h (put_kvs key value) = kvs_put tid key value ∷ []

-- At most so many requests of the queue: what is left, and what was sent.
unfoldable pub process_batch : ℕ → ℕ → Helper → List ThreadMsg → List ThreadMsg × List Output
unfolding process
process_batch zero tid h queue = (queue, [])
process_batch (suc n) tid h [] = ([], [])
process_batch (suc n) tid h (m ∷ queue) =
    let (left, sent) = process_batch n tid h queue in (left, process tid h m ++ sent)

abbrev pub Received : Type 0
Received = List RecvMsg × List Output

unfoldable pub receive_call : Option FunctionCall → Helper → List RecvMsg × Helper
receive_call none h = ([], h)
receive_call (some c) h = let (m, h') = handle_function_call c h in (m ∷ [], h')

unfoldable pub receive_response : Option Text → Result Received
receive_response none = ok ([], [])
receive_response (some message) =
    handle_data_response message >>= (λ (m, copy). ok (m ∷ [], copy ∷ []))

module _ (shm_read : Text → ℕ → Text) where
  unfoldable pub receive_request : Option Text → HashMap Text ℕ → Result Received
  receive_request none lens = ok ([], [])
  receive_request (some message) lens =
      handle_data_request shm_read message lens >>= (λ sent. ok ([], sent))

  -- One round of run_io_thread_loop.
  unfoldable pub io_round :
      ℕ → Input → HashMap Text ℕ → Helper → IoThread → Result (IoThread × Helper × List Output)
  unfolding receive_call receive_request receive_response process_batch
  io_round tid i lens h t = do
    let (calls, h') = receive_call i.call h
    (_, answers) ← receive_request i.data_request lens
    (objects, copies) ← receive_response i.data_response
    let (left, sent) = process_batch msg_process_batch tid h' t.requests
    let (stored, kvs) = get_kvs_responses tid i.kvs
    ok (
      record { requests = left; responses = t.responses ++ calls ++ objects ++ stored },
      h',
      answers ++ copies ++ sent ++ kvs,
    )

-- All responses of a thread are taken.
unfoldable pub take_thread : IoThread → List RecvMsg × IoThread
take_thread t = (t.responses, record t { responses = [] })

unfoldable pub take_responses : List IoThread → List RecvMsg × List IoThread
unfolding take_thread
take_responses [] = ([], [])
take_responses (t ∷ ts) =
    let (first, t') = take_thread t in
    let (more, ts') = take_responses ts in (first ++ more, t' ∷ ts')

abbrev pub receive_update : Codecs → Option UpdateCoordMsg → ℕ → Node → Result Node
receive_update codecs none now n = ok n
receive_update codecs (some msg) now n = handle_update codecs msg now n

-- The main thread: an update of a coordinator, what its own sockets and its client of Anna have, and
-- the responses of the I/O threads.
unfoldable pub try_recv_msg :
    Codecs
    → (Text → ℕ → Text)
    → Option UpdateCoordMsg
    → Input
    → ℕ
    → Node
    → List IoThread
    → Result (List RecvMsg × Node × List IoThread × List Output)
unfolding receive_call receive_request receive_response take_responses
try_recv_msg codecs shm_read update i now n ts = do
  n1 ← receive_update codecs update now n
  let (calls, h) = receive_call i.call n1.helper
  (_, answers) ← receive_request shm_read i.data_request n1.key_len
  (objects, copies) ← receive_response i.data_response
  let (stored, kvs) = get_kvs_responses 0 i.kvs
  let (handed, ts') = take_responses ts
  ok (calls ++ objects ++ stored ++ handed, record n1 { helper = h }, ts', answers ++ copies ++ kvs)
