-- ===== src/Coordinator/Loop.antt =====
-- The messages of a coordinator thread: the loop of `run` in src/coordinator/coordinator.cpp, which
-- hands each message to its handler, and the status messages of the nodes. The sockets, the poll and
-- the report are left out: a round of the loop is a sequence of messages.
use spheromone.Prelude.{ℕ, List, [], ◌∷◌, ◌++◌}
use spheromone.Prelude.Int.{int_of_uint32}
use spheromone.Text.{Text, text_eq}
use spheromone.HashMap
use spheromone.HashMap.{HashMap}
use spheromone.HashSet
use spheromone.Trigger.Primitive.{Codecs}
use spheromone.Messages.{
  UpdateStatusMessage, KeyNotifyRequest, KeyQueryRequest, BucketOperationRequest,
  TriggerOperationRequest, AppRegistration, FunctionCall, Sent,
}
use spheromone.Coordinator.State.{Coordinator}
use spheromone.Common.Result.{Result, ok, ◌>>=◌}
use spheromone.Coordinator.Bucket.{bucket_op_handler}
use spheromone.Coordinator.Query.{query_handler}
use spheromone.Coordinator.TriggerOp.{trigger_op_handler}
use spheromone.Coordinator.FuncCall.{func_call_handler}
use spheromone.Coordinator.Notify.{notify_handler}
use spheromone.Coordinator.Register.{app_register_handler}

-- What a node reports replaces what was known of it. avail_executors is a uint32 in the message and
-- an int in the coordinator.
unfoldable pub update_status : UpdateStatusMessage → ℕ → Coordinator → Coordinator
update_status msg now c = record c {
  node_status =
      HashMap.put msg.ip
        (record {
          tp = now;
          avail_executors = int_of_uint32 msg.avail_executors;
          functions = HashSet.insert_all msg.functions [];
        })
        c.node_status;
}

-- The sockets that the loop polls. A message to create a function is read and ignored.
pub data Event : Type 0 where
  notify : KeyNotifyRequest → Event
  query : KeyQueryRequest → Event
  bucket_op : BucketOperationRequest → Event
  trigger_op : TriggerOperationRequest → Event
  status : UpdateStatusMessage → Event
  func_create : Event
  app_regist : AppRegistration → Event
  func_call : FunctionCall → Event

-- A coordinator thread with its random seed.
pub record Thread : Type 0 where
  pub state : Coordinator
  pub seed : ℕ

abbrev Step : Type 0
Step = Result (Thread × List Sent)

module _ (codecs : Codecs) (rand_r : ℕ → ℕ × ℕ) (io_thread_num : ℕ) (private_ip : Text)
    (thread_id : ℕ) where
  unfoldable pub handle : Event → ℕ → Thread → Step
  unfolding update_status
  handle (notify r) now t = do
    run ← notify_handler rand_r io_thread_num r now t.state t.seed
    ok (record { state = run.state; seed = run.seed }, run.sent)
  handle (query r) now t = ok (t, query_handler r t.state)
  handle (bucket_op r) now t =
      let (c, sent) = bucket_op_handler r t.state in ok (record t { state = c }, sent)
  handle (trigger_op r) now t = do
    (c, sent) ← trigger_op_handler codecs r private_ip thread_id now t.state
    ok (record t { state = c }, sent)
  handle (status r) now t = ok (record t { state = update_status r now t.state }, [])
  handle func_create now t = ok (t, [])
  handle (app_regist r) now t = do
    (c, sent) ← app_register_handler codecs r private_ip thread_id now t.state
    ok (record t { state = c }, sent)
  handle (func_call r) now t = do
    (sent, seed) ← func_call_handler rand_r io_thread_num t.state.node_status r t.seed
    ok (record t { seed = seed }, sent)

  -- Messages in the order in which the loop takes them, each with the clock reading.
  unfoldable pub handle_all : List (Event × ℕ) → Thread → Step
  unfolding handle
  handle_all [] t = ok (t, [])
  handle_all ((e, now) ∷ rest) t = do
    (t1, sent) ← handle e now t
    (t2, more) ← handle_all rest t1
    ok (t2, sent ++ more)
