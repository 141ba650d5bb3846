-- ===== src/Scheduler/State.antt =====
-- The state of a node: the maps of `run` and the globals of src/scheduler/scheduler.cpp, and the
-- members of CommHelper (src/scheduler/comm_helper.hpp). Trigger pointers are shared between the
-- bucket's triggers, the functions' timeouts and the rerun queue: a pointer is an index into the
-- list `triggers`.
use spheromone.Prelude.{ℕ, Bool, List, []}
use spheromone.Prelude.Int.{ℤ}
use spheromone.Text.{Text}
use spheromone.HashMap.{HashMap}
use spheromone.HashSet.{HashSet}
use spheromone.Trigger.Types.{Trigger}
use spheromone.Messages.{Body}

-- A HandlerThread: its address and thread number.
abbrev pub HandlerThread : Type 0
HandlerThread = Text × ℕ

pub record Helper : Type 0 where
  pub ip : Text
  pub routing_threads : List HandlerThread
  pub app_coord : HashMap Text HandlerThread
  pub bucket_coord : HashMap Text HandlerThread
  pub rid : ℕ
  pub io_thread_count : ℕ
  pub io_thread_id : ℕ
  pub key_address : HashMap Text Text

-- 0: empty, 1: available, 2: await, 3: busy
pub data ExecutorStatus : Type 0 where
  empty available await busy : ExecutorStatus

pub record AppInfo : Type 0 where
  pub functions : HashSet Text
  pub direct_deps : HashMap Text (HashSet Text)
  pub buckets : List Text

abbrev pub no_app : AppInfo
no_app = record { functions = []; direct_deps = []; buckets = [] }

pub record InflightFuncArgs : Type 0 where
  pub func_name : Text
  pub session_id : Text
  pub key_args : List Text
  pub inflight_args : HashSet Text
  pub arg_flag : ℤ

pub record DelayFunctionCall : Type 0 where
  pub session_id : Text
  pub app_name : Text
  pub func_name : Text
  pub func_args : List Text
  pub arg_flag : ℤ
  pub trigger_time : ℕ

pub record RerunCheckQueueItem : Type 0 where
  pub check_time : ℕ
  pub session : Text
  pub trigger_ptr : ℕ

-- An executor that waits, and the number of its request. The time of the request is only logged.
abbrev pub InflightRequest : Type 0
InflightRequest = ℕ × ℕ

-- The settings of the configuration file.
pub record Config : Type 0 where
  pub sched_delay_time : ℕ
  pub shared_executor : Bool
  pub reject_extra_req : Bool

-- function_cache of `run` stays empty, and function_len_map is not used: both are left out.
pub record Node : Type 0 where
  pub helper : Helper
  pub ram_seed : ℕ
  pub executor_chans : HashSet ℕ
  pub executor_status : HashMap ℕ ExecutorStatus
  pub function_executor : HashMap Text (HashSet ℕ)
  pub key_len : HashMap Text ℕ
  pub key_val : HashMap Text Text
  pub session_client : HashMap Text Text
  pub delay_queue : List DelayFunctionCall
  pub rerun_queue : List RerunCheckQueueItem
  pub func_trigger_timeout : HashMap Text (List (ℕ × ℕ))
  pub triggers : List Trigger
  pub bucket_triggers : HashMap Text (List ℕ)
  pub app_info : HashMap Text AppInfo
  pub func_app : HashMap Text Text
  pub bucket_app : HashMap Text Text
  pub call_id : ℕ
  pub inflight : HashMap ℕ InflightFuncArgs
  pub key_calls : HashMap Text (HashSet ℕ)
  pub remote_gets : HashMap Text (List InflightRequest)
  pub kvs_puts : HashMap Text (List InflightRequest)

-- What the node does: a message to an executor's channel, a message or bytes to an address, a
-- request of the Anna client of an I/O thread, a message to the queue of an I/O thread, and a write
-- to shared memory.
pub data Output : Type 0 where
  to_executor : ℕ → Text → Output
  to_address : Text → Body → Output
  bytes_to : Text → Text → Output
  kvs_get : ℕ → Text → Output
  kvs_put : ℕ → Text → Text → Output
  queue_send_req : ℕ → Text → Output
  queue_get_kvs : ℕ → Text → Output
  queue_put_kvs : ℕ → Text → Text → Output
  copy_to_shm_obj : Text → Text → Output
