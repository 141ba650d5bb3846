-- ===== src/Executor/Invocation.antt =====
-- A function that sends an object to another: from send_object of src/executor/function_lib.hpp
-- through the local scheduler (src/scheduler/scheduler.cpp) to the arguments in
-- src/executor/executor.cpp.
use spheromone.Prelude.{
  ℕ, ◌≡◌, ◌≢◌, refl, ap, ◌∙◌, Bool, true, false, some, List, [], ◌∷◌, ◌++◌, arith, nat_eq, leb,
  length, All,
}
use spheromone.Prelude.Int.{pos}
use spheromone.Text.{Text, text_eq}
use spheromone.Text
use spheromone.HashMap
use spheromone.HashMap.{HashMap}
use spheromone.HashSet
use spheromone.HashSet.{HashSet}
use spheromone.Common.Key.{delimiter}
use spheromone.Common.Result.{Result, ok, ◌>>=◌}
use spheromone.Scheduler.State.{Node, Config, ExecutorStatus, await, Output}
use spheromone.Scheduler.Update.{app_of}
use spheromone.Scheduler.Forward.{client_of}
use spheromone.Scheduler.Dispatch.{schedule_func_call, call_message, send_to_executer}
use spheromone.Scheduler.Objects.{
  byte_at, read_object, SentObject, obj_name, keep_object, direct_args, invoke_direct,
  ephemeral_object,
}
use spheromone.Scheduler.Requests.{handle_message, send_object_request}
use spheromone.Scheduler.Placement.{
  IsMap, fits, Placed, placed, unplaced, schedule_func_call-Placed,
}
use spheromone.Executor.UserLibrary.{
  UserLibrary, EpheObject, send_object_message, msg_data_packing_threshold,
}
use spheromone.Executor.Run.{Call, chars, read_call, arguments}
use spheromone.Executor.Messages.{IsItem, read_call-call_message}
use spheromone.Executor.Replies.{content_of, read_object-send_object_message}

-- An empty executor fits every call.
empty-fits :
    (shared : Bool) (warm : HashSet ℕ) (id : ℕ) (m : HashMap ℕ ExecutorStatus)
    → All (λ e. fits shared warm e ≡ false) m
    → HashMap.find id m ≢ some ExecutorStatus.empty
unfolding HashMap.find
empty-fits shared warm id [] h e = cc
empty-fits shared warm id ((k, ExecutorStatus.empty) ∷ m) h e = absurd (ground arith)
empty-fits shared warm id ((k, status) ∷ m) h e = empty-fits shared warm id m h.1 (ground arith)

plain_value :
    (persist : Bool) (session func value : Text)
    → IsItem session
    → IsItem func
    → IsItem value
    → value ≢ []
    → (call : Call) × (read_call (call_message (pos 0) persist session func (value ∷ [])) ≡ ok call)
      × (call.func_name ≡ func)
      × (call.session_id ≡ session)
      × (arguments call ≡ ok (some (chars value ∷ [])))
unfolding arguments
plain_value persist session func value s f v full =
    let last_item : All IsItem (value ∷ []) = (v, tt) in
    let items : All IsItem (func ∷ value ∷ []) = (f, last_item) in
    (
      _,
      read_call-call_message 0 persist session func (value ∷ []) (omega arith) (s, items) full,
      refl,
      refl,
      refl,
    )

module _ (shm_read : Text → ℕ → Text) (rand_r : ℕ → ℕ × ℕ) (config : Config) where
  -- Where a call goes if some executor is empty.
  abbrev Goes : Text → Text → List Text → Node → Result (Node × List Output) → Type 0
  Goes session func args n r =
      (id : ℕ) × (n' : Node) × (r
        ≡ ok (
          n',
          send_to_executer id
              (call_message (pos 0) (Text.empty (client_of session n)) session func args) n,
        ))
      × (n'.executor_status ≡ HashMap.put id await n.executor_status)

  Placed-at :
      (session app func : Text) (args : List Text) (now : ℕ) (n : Node) (free : ℕ)
      (r : Result (Node × List Output))
      → Placed shm_read rand_r config session app func args (pos 0) now n r
      → HashMap.find free n.executor_status ≡ some ExecutorStatus.empty
      → Goes session func args n r
  Placed-at session app func args now n free _ (placed id n' is_free status less queue) e =
      (id, n', refl, status)
  Placed-at session app func args now n free _ (unplaced none_fit) e = absurd (
      empty-fits config.shared_executor (HashMap.get_or func n.function_executor []) free
        n.executor_status none_fit e)

  abbrev kept_object : SentObject → Node → Node
  kept_object o n = record n {
    key_val = HashMap.put (obj_name o) o.content n.key_val;
    key_len = HashMap.put (obj_name o) (length o.content) n.key_len;
  }

  keep_packed : (o : SentObject) (n : Node) → keep_object 1 o n ≡ ok (kept_object o n)
  unfolding keep_object
  keep_packed o n = refl

  direct_object :
      (o : SentObject) (targets : HashSet Text) (now : ℕ) (n : Node)
      → HashMap.find o.src_function
          (app_of (HashMap.get_or o.src_function n.func_app []) n).direct_deps
        ≡ some targets
      → Text.empty o.tgt_function ≡ false
      → HashSet.contains o.tgt_function targets ≡ true
      → ephemeral_object shm_read rand_r config 1 o now n
        ≡ schedule_func_call shm_read rand_r config o.session_id
            (HashMap.get_or o.src_function n.func_app [])
            o.tgt_function
            (o.content ∷ [])
            (pos 0)
            now
            (kept_object o n)
  unfolding ephemeral_object invoke_direct direct_args
  direct_object o targets now n deps named there =
      let kept : HashMap.find o.src_function
            (app_of (HashMap.get_or o.src_function (kept_object o n).func_app [])
              (kept_object o n)).direct_deps
          ≡ some targets =
        deps in
      rw (keep_packed o n, ephemeral_object) (rw (kept, ◌>>=◌) (rw (named, there) refl))

  sent_object :
      (str : Text) (o : SentObject) (now : ℕ) (n : Node)
      → read_object str ≡ some o
      → byte_at 1 str ≡ 2
      → byte_at 3 str ≡ 1
      → handle_message shm_read rand_r config str now n
        ≡ ephemeral_object shm_read rand_r config 1 o now n
  unfolding handle_message send_object_request
  sent_object str o now n e type packing =
      let requested : send_object_request shm_read rand_r config str now n
          ≡ ephemeral_object shm_read rand_r config 1 o now n =
        rw (e, send_object_request)
          (rw type (ap (λ k. ephemeral_object shm_read rand_r config k o now n) packing)) in
      rw type requested

  -- A function sends an object of at most 1024 bytes to a function that its application declares as a
  -- target, and some executor is empty: the scheduler gives one executor a message and awaits that
  -- executor alone. From the message the executor reads a call of the target in the session of the
  -- caller, with the bytes of the object as its only argument. The bytes are not empty, neither they
  -- nor the names hold a zero or a delimiter, the target is named, and no executor stands twice in
  -- the map.
  pub direct_invocation :
      (o : EpheObject) (u : UserLibrary) (bucket key : Text) (targets : HashSet Text) (free now : ℕ)
      (n : Node)
      → o.obj_name ≡ bucket ++ delimiter ∷ key
      → leb o.size msg_data_packing_threshold ≡ true
      → All IsItem
          (u.session_id ∷ u.function ∷ o.target_func ∷ bucket ∷ key ∷ content_of shm_read o ∷ [])
      → content_of shm_read o ≢ []
      → Text.empty o.target_func ≡ false
      → HashMap.find u.function (app_of (HashMap.get_or u.function n.func_app []) n).direct_deps
        ≡ some targets
      → HashSet.contains o.target_func targets ≡ true
      → IsMap n.executor_status
      → HashMap.find free n.executor_status ≡ some ExecutorStatus.empty
      → (id : ℕ) × (n' : Node) × (message : Text) × (call : Call) × (handle_message shm_read rand_r
            config
            (send_object_message shm_read o false u).0
            now
            n
          ≡ ok (n', send_to_executer id message n))
        × (n'.executor_status ≡ HashMap.put id await n.executor_status)
        × (read_call message ≡ ok call)
        × (call.func_name ≡ o.target_func)
        × (call.session_id ≡ u.session_id)
        × (arguments call ≡ ok (some (chars (content_of shm_read o) ∷ [])))
  unfolding client_of
  direct_invocation o u bucket key targets free now n e small items full named deps there statuses
        is_free =
      let content = content_of shm_read o in
      let sent : SentObject = record {
        session_id = u.session_id;
        src_function = u.function;
        tgt_function = o.target_func;
        bucket = bucket;
        session_key = key;
        content = content;
      } in
      let (read, type, flag) =
        read_object-send_object_message shm_read o false u bucket key e items full in
      let app = HashMap.get_or u.function n.func_app [] in
      let handled =
        sent_object (send_object_message shm_read o false u).0 sent now n read type
          (flag ∙ rw small refl)
        ∙ direct_object sent targets now n deps named there in
      let (id, n', goes, status) =
        Placed-at u.session_id app o.target_func (content ∷ []) now (kept_object sent n) free _
          (schedule_func_call-Placed shm_read rand_r config u.session_id app o.target_func
            (content ∷ []) (pos 0) now (kept_object sent n) statuses)
          is_free in
      let message =
        call_message (pos 0) (Text.empty (client_of u.session_id n)) u.session_id o.target_func
          (content ∷ []) in
      let (call, reads, func, session, value) =
        plain_value (Text.empty (client_of u.session_id n)) u.session_id o.target_func content
          items.0 items.1.1.0 items.1.1.1.1.1.0 full in
      (id, n', message, call, handled ∙ goes, status, reads, func, session, value)
