-- ===== src/Tests/Executors.antt =====
-- Executors and what they exchange with the scheduler, at concrete inputs.
use spheromone.Prelude.{
  ◌⊎◌, ◌+◌, ◌≢◌, ℕ, ◌≤◌, ◌≡◌, refl, true, false, some, List, [], ◌∷◌, arith, if◌then◌else◌, leb,
  nat_eq, ◌==◌, All,
}
use spheromone.Executor.Run.{chars}
use spheromone.Scheduler.Dispatch.{send_to_executer}
use spheromone.Executor.Invocation.{direct_invocation}
use spheromone.Text
use spheromone.Executor.Remote.{remote_get_fails}
use spheromone.Scheduler.Responses.{handle_response}
use spheromone.Prelude.Int.{pos}
use spheromone.Text.{Text, text, text_eq, to_string}
use spheromone.HashMap
use spheromone.HashSet
use spheromone.Common.Key.{delimiter, get_local_object_name}
use spheromone.Common.Result.{ok, ◌>>=◌}
use spheromone.Scheduler.State.{busy, Node, ExecutorStatus, available, await, to_executor}
use spheromone.Scheduler.Receive.{data_resp}
use spheromone.Scheduler.Dispatch.{is_free, call_message}
use spheromone.Scheduler.Objects.{read_object, byte_at}
use spheromone.Scheduler.Requests.{handle_message, response}
use spheromone.Executor.UserLibrary.{
  UserLibrary, EpheObject, send_object_message, get_object_message, get_object_answer,
  requested_name, next_request_id, msg_data_packing_threshold,
}
use spheromone.Executor.Run.{Call, read_call, arguments, status_message}
use spheromone.Executor.Messages.{IsItem, Object, named, values_of, arguments-call_message}
use spheromone.Executor.Replies.{content_of, read_object-send_object_message, get_object_served}
use spheromone.Executor.Lifecycle.{
  Link, Progress, begin, none_made, one_more, steps_left, Steps, idle_link, runs_end_free,
  report_overtaken, handle_message-status_message, after_report,
}
use spheromone.Executor.Orderly.{start, then_step, schedule, outstanding, at_most_one_call}
use spheromone.Tests.Nodes.{filled, memory, rand, settings, node}

s-IsItem : IsItem (text "s")
s-IsItem = ((refl, tt), (refl, tt))

f-IsItem : IsItem (text "f")
f-IsItem = ((refl, tt), (refl, tt))

b-IsItem : IsItem (text "b")
b-IsItem = ((refl, tt), (refl, tt))

k-IsItem : IsItem (text "k")
k-IsItem = ((refl, tt), (refl, tt))

abbrev objects : List Object
objects = (text "b", text "k", 3) ∷ []

arguments-call_message_example :
    (read_call
        (call_message (pos (if false then 2 else 1)) true (text "s") (text "f") (named objects))
      >>= arguments)
    ≡ ok (some (values_of false objects))
arguments-call_message_example =
    arguments-call_message false true (text "s") (text "f") objects s-IsItem f-IsItem (λ p. cc)
      ((b-IsItem, k-IsItem, omega arith), tt)

abbrev library : UserLibrary
library = record {
  ip_number = text "1";
  chan_id = 1;
  rid = 6;
  object_id = 0;
  function = text "f";
  session_id = text "s";
  persist_flag = 2;
  size_of_args = [];
}

abbrev small_object : EpheObject
small_object = record { obj_name = text "b|k"; size = 1; target_func = [] }

sent_items : All IsItem (text "s" ∷ text "f" ∷ [] ∷ text "b" ∷ text "k" ∷ filled 1 ∷ [])
sent_items =
    let value : All IsItem (filled 1 ∷ []) = (((refl, tt), (refl, tt)), tt) in
    let key : All IsItem (text "k" ∷ filled 1 ∷ []) = (k-IsItem, value) in
    let bucket : All IsItem (text "b" ∷ text "k" ∷ filled 1 ∷ []) = (b-IsItem, key) in
    let target : All IsItem ([] ∷ text "b" ∷ text "k" ∷ filled 1 ∷ []) = ((tt, tt), bucket) in
    let source : All IsItem (text "f" ∷ [] ∷ text "b" ∷ text "k" ∷ filled 1 ∷ []) =
      (f-IsItem, target) in
    (s-IsItem, source)

read_object-send_object_message_example :
    (read_object (send_object_message memory small_object true library).0
      ≡ some (record {
        session_id = text "s";
        src_function = text "f";
        tgt_function = [];
        bucket = text "b";
        session_key = text "k";
        content = content_of memory small_object;
      }))
    × (byte_at 1 (send_object_message memory small_object true library).0
        ≡ (if true then if library.persist_flag == 1 then 3 else 4 else 2))
    × (byte_at 3 (send_object_message memory small_object true library).0
        ≡ (if leb small_object.size msg_data_packing_threshold then 1 else 2))
read_object-send_object_message_example =
    read_object-send_object_message memory small_object true library (text "b") (text "k") refl
      sent_items (λ p. cc)

get_object_served_example :
    (handle_message memory rand settings
        (get_object_message (text "b") (text "k") true library).0
        7
        node
      ≡ ok (node, to_executor 0 (response (next_request_id library).0 (to_string 3)) ∷ []))
    × (get_object_answer
          (requested_name (text "b") (text "k") true library)
          (next_request_id library).0
          (some (response (next_request_id library).0 (to_string 3)))
        ≡ ok (
            some (record {
              obj_name = requested_name (text "b") (text "k") true library;
              size = 3;
              target_func = [];
            })))
get_object_served_example =
    get_object_served memory rand settings library 0 3 7 (text "b") (text "k") node refl
      (omega arith)
      (unfold requested_name get_local_object_name spheromone.Common.Key.get_key_session_name in
        omega arith)
      (unfold requested_name get_local_object_name spheromone.Common.Key.get_key_session_name
          HashMap.find in
        refl)
      (omega arith) (unfold HashSet.contains in refl)

runs_end_free_example :
    let l : Link = record { status = busy; calls = 1; running = false; reports = [] } in
    let m : Link = record { status = busy; calls = 0; running = true; reports = true ∷ [] } in
    (1 + steps_left m ≡ steps_left l)
    × (((k : Link) × Progress m k) ⊎ ((m ≡ idle_link busy []) × (is_free busy ≡ true)))
runs_end_free_example =
    runs_end_free (record { status = busy; calls = 1; running = false; reports = [] })
      (record { status = busy; calls = 0; running = true; reports = true ∷ [] }) 1 (omega arith)
      (one_more none_made (begin busy 0 []))

handle_message-status_message_example :
    handle_message memory rand settings (status_message 1 true) 7 node
    ≡ ok (record node { executor_status = HashMap.put 1 busy node.executor_status }, [])
unfolding after_report
handle_message-status_message_example =
    handle_message-status_message memory rand settings 1 7 true node (omega arith)

at_most_one_call_example :
    outstanding (record { status = await; calls = 1; running = false; reports = [] }) ≤ 1
at_most_one_call_example =
    at_most_one_call available []
      (record { status = await; calls = 1; running = false; reports = [] })
      (then_step start (schedule available 0 false refl))

report_overtaken_example :
    Steps
      (record { status = available; calls = 0; running = false; reports = false ∷ [] })
      (record { status = await; calls = 2; running = false; reports = [] })
report_overtaken_example = report_overtaken available 0 false [] refl

abbrev chained : Node
chained = record node {
  executor_status = (0, busy) ∷ (1, ExecutorStatus.empty) ∷ [];
  func_app = (text "f", text "a") ∷ [];
  app_info =
      (
        text "a",
        record {
          functions = text "f" ∷ text "g" ∷ [];
          direct_deps = (text "f", text "g" ∷ []) ∷ [];
          buckets = [];
        },
      )
      ∷ [];
}

abbrev for_g : EpheObject
for_g = record { obj_name = text "b|k"; size = 1; target_func = text "g" }

g-IsItem : IsItem (text "g")
g-IsItem = ((refl, tt), (refl, tt))

chained_items : All IsItem (text "s" ∷ text "f" ∷ text "g" ∷ text "b" ∷ text "k" ∷ filled 1 ∷ [])
chained_items =
    let value : All IsItem (filled 1 ∷ []) = (((refl, tt), (refl, tt)), tt) in
    let key : All IsItem (text "k" ∷ filled 1 ∷ []) = (k-IsItem, value) in
    let bucket : All IsItem (text "b" ∷ text "k" ∷ filled 1 ∷ []) = (b-IsItem, key) in
    let target : All IsItem (text "g" ∷ text "b" ∷ text "k" ∷ filled 1 ∷ []) = (g-IsItem, bucket) in
    let source : All IsItem (text "f" ∷ text "g" ∷ text "b" ∷ text "k" ∷ filled 1 ∷ []) =
      (f-IsItem, target) in
    (s-IsItem, source)

direct_invocation_example :
    (id : ℕ) × (n' : Node) × (message : Text) × (call : Call) × (handle_message memory rand settings
        (send_object_message memory for_g false library).0
        7
        chained
      ≡ ok (n', send_to_executer id message chained))
    × (n'.executor_status ≡ HashMap.put id await chained.executor_status)
    × (read_call message ≡ ok call)
    × (call.func_name ≡ text "g")
    × (call.session_id ≡ text "s")
    × (arguments call ≡ ok (some (chars (content_of memory for_g) ∷ [])))
direct_invocation_example =
    direct_invocation memory rand settings for_g library (text "b") (text "k") (text "g" ∷ []) 1 7
      chained refl refl chained_items (λ p. cc) (unfold Text.empty in refl)
      (unfold HashMap.get_or HashMap.find in refl) (unfold HashSet.contains in refl)
      (unfold HashMap.find in (refl, (refl, tt))) (unfold HashMap.find in refl)

abbrev waiting : Node
waiting = record node { remote_gets = (text "b|x", (0, 7) ∷ []) ∷ [] }

remote_get_fails_example :
    (n' : Node) × (answer : Text) × (handle_response memory rand settings
        (data_resp (text "b|x") 300)
        7
        waiting
      ≡ ok (n', to_executor 0 answer ∷ []))
    × (get_object_answer (text "b|x") 7 (some answer)
        ≢ ok (some (record { obj_name = text "b|x"; size = 300; target_func = [] })))
remote_get_fails_example =
    remote_get_fails memory rand settings (text "b|x") 300 0 7 7 waiting
      (unfold HashMap.get_or HashMap.find in refl) (unfold HashMap.get_or HashMap.find in refl)
      (unfold HashSet.contains in refl)
