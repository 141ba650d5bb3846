-- ===== src/Tests/Nodes.antt =====
-- Nodes at concrete inputs.
use spheromone.Prelude.{ℕ, zero, suc, ◌≡◌, refl, false, some, List, [], ◌∷◌, arith, nat_eq}
use spheromone.Scheduler.Starvation.{delayed_call_renewed}
use spheromone.Scheduler.Loop.{delayed_calls}
use spheromone.Scheduler.State.{DelayFunctionCall}
use spheromone.Scheduler.Dispatch.{candidates, get_avail_executor_num}
use spheromone.Prelude.Int.{pos}
use spheromone.Text.{Text, text, text_eq}
use spheromone.HashMap
use spheromone.HashSet
use spheromone.Common.Result.{Result, ok}
use spheromone.Scheduler.State.{
  Node, Helper, Config, ExecutorStatus, available, Output, bytes_to, copy_to_shm_obj,
}
use spheromone.Scheduler.Helper.{data_request}
use spheromone.Scheduler.Receive.{handle_data_request, handle_data_response, data_resp}
use spheromone.Scheduler.Loop.{check_reruns}
use spheromone.Scheduler.Reruns.{check_reruns_ends}
use spheromone.Scheduler.Transfer.{handle_data_response-handle_data_request}

abbrev pub filled : ℕ → Text
filled zero = []
filled (suc n) = b'x' ∷ filled n

abbrev pub memory : Text → ℕ → Text
memory name size = filled size

abbrev pub rand : ℕ → ℕ × ℕ
rand s = (s, suc s)

abbrev pub settings : Config
settings = record { sched_delay_time = 0; shared_executor = false; reject_extra_req = false }

abbrev pub helper : Helper
helper = record {
  ip = text "h";
  routing_threads = [];
  app_coord = [];
  bucket_coord = [];
  rid = 0;
  io_thread_count = 2;
  io_thread_id = 1;
  key_address = [];
}

-- Two executors, one that has run a function and one that has not.
abbrev pub node : Node
node = record {
  helper = helper;
  ram_seed = 0;
  executor_chans = 0 ∷ 1 ∷ [];
  executor_status = (0, available) ∷ (1, ExecutorStatus.empty) ∷ [];
  function_executor = [];
  key_len = (text "b|ks", 3) ∷ [];
  key_val = [];
  session_client = [];
  delay_queue = [];
  rerun_queue = record { check_time = 4; session = text "s"; trigger_ptr = 0 } ∷ [];
  func_trigger_timeout = [];
  triggers = [];
  bucket_triggers = [];
  app_info = [];
  func_app = [];
  bucket_app = [];
  call_id = 0;
  inflight = [];
  key_calls = [];
  remote_gets = [];
  kvs_puts = [];
}

check_reruns_ends_example :
    (r : Result (Node × List Output)) × (check_reruns memory rand settings 5 7 node ≡ some r)
check_reruns_ends_example = check_reruns_ends memory rand settings 5 7 node (omega arith)

handle_data_response-handle_data_request_example :
    (answer : Text) × (handle_data_request memory
        (data_request (text "b|ks") (text "tcp://h:1"))
        node.key_len
      ≡ ok (bytes_to (text "tcp://h:1") answer ∷ []))
    × (handle_data_response answer
        ≡ ok (data_resp (text "b|ks") 3, copy_to_shm_obj (text "b|ks") (memory (text "b|ks") 3)))
handle_data_response-handle_data_request_example =
    handle_data_response-handle_data_request memory (text "b|ks") (text "tcp://h:1") node.key_len 2
      (omega arith) (unfold HashMap.get_or HashMap.find in refl) refl

abbrev delaying : Config
delaying = record { sched_delay_time = 5; shared_executor = false; reject_extra_req = false }

-- The one executor has run a function, but not this one.
abbrev occupied : Node
occupied = record node { executor_status = (0, available) ∷ [] }

abbrev delayed : DelayFunctionCall
delayed = record {
  session_id = text "s";
  app_name = text "a";
  func_name = text "f";
  func_args = [];
  arg_flag = pos 0;
  trigger_time = 1;
}

delayed_call_renewed_example :
    delayed_calls memory rand delaying 90000 91000 (record occupied { delay_queue = delayed ∷ [] })
    ≡ ok (record occupied { delay_queue = record delayed { trigger_time = 90000 } ∷ [] }, [])
delayed_call_renewed_example =
    delayed_call_renewed memory rand delaying 90000 occupied 0 91000 delayed (omega arith)
      (omega arith) (unfold get_avail_executor_num in refl)
      (unfold candidates HashMap.get_or HashMap.find HashSet.contains in refl)
