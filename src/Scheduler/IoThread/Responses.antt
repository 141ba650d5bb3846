-- ===== src/Scheduler/IoThread/Responses.antt =====
-- What an I/O thread receives reaches the main thread (run_io_thread_loop, handle_function_call and
-- try_recv_msg of src/scheduler/comm_helper.hpp).
use spheromone.Prelude.{
  ℕ, ◌≡◌, refl, sym, ◌∙◌, ap, Option, none, some, List, [], ◌∷◌, ◌++◌, All, map, ltb, length,
  nat_eq, ◌==◌, Bool, true, false, arith, append-nil, append_assoc, if◌then◌else◌,
}
use spheromone.Prelude.Int.{ℤ, pos, int_of_uint32}
use spheromone.Text.{Text, text_eq}
use spheromone.HashMap
use spheromone.HashMap.{HashMap}
use spheromone.Common.Result.{ok}
use spheromone.Messages.{FunctionCall, FunctionRequest, Argument}
use spheromone.Scheduler.State.{Helper}
use spheromone.Scheduler.Receive.{
  RecvMsg, call, kvs_get_resp, kvs_put_resp, read_arguments, read_requests, handle_function_call,
}
use spheromone.Scheduler.Kvs.{
  KvsRequestType, get, put, other, KvsResponse, kvs_response, get_kvs_responses,
}
use spheromone.Scheduler.IoThread.{IoThread, Input, take_thread, receive_call}
use spheromone.Scheduler.IoThread.Events.{
  Event, asked, other_call, round, taken, Outcome, IsSound, step, run, after_round, round_lem,
  run-cons, followed, objects,
}

-- The flag of the last argument that has one.
unfoldable pub last_flag : ℤ → List Argument → ℤ
last_flag flag [] = flag
last_flag flag (a ∷ args) =
    last_flag (if ltb 0 a.arg_flag then int_of_uint32 a.arg_flag else flag) args

abbrev pub call_of : FunctionRequest → Text × List Text × ℤ
call_of r = (r.name, map (λ (a : Argument). a.body) r.arguments, last_flag (pos 0) r.arguments)

-- What the main thread is to get of a call.
abbrev pub message_of : FunctionCall → RecvMsg
message_of c = call (record {
  app_name = c.app_name;
  resp_address = c.resp_address;
  session_id = c.session_id;
  calls = map call_of c.requests;
})

unfoldable pub call_messages : Option FunctionCall → List RecvMsg
call_messages none = []
call_messages (some c) = message_of c ∷ []

-- What an answer of the store is to the main thread: the end of a write, or a value that was read
-- with its length; nothing if the request timed out or the store has no such key.
abbrev pub answer_of : KvsRequestType → Bool → KvsResponse → List RecvMsg
answer_of put false r = kvs_put_resp r.key ∷ []
answer_of get false r = if r.tuple_error == 1 then [] else kvs_get_resp r.key (length r.value) ∷ []
answer_of type timed_out r = []

unfoldable pub answers : List KvsResponse → List RecvMsg
answers [] = []
answers (r ∷ rs) = answer_of r.type r.timed_out r ++ answers rs

abbrev pub arrives_in : Input → List RecvMsg
arrives_in i = call_messages i.call ++ objects i.data_response ++ answers i.kvs

-- What arrives at a thread in the rounds of some events, in order.
unfoldable pub arrivals : List Event → List RecvMsg
arrivals [] = []
arrivals (round i lens ∷ events) = arrives_in i ++ arrivals events
arrivals (e ∷ events) = arrivals events

kvs_response-answer_of :
    (tid : ℕ) (type : KvsRequestType) (timed_out : Bool) (r : KvsResponse)
    → (kvs_response tid (record r { type = type; timed_out = timed_out })).0
      ≡ answer_of type timed_out r
unfolding kvs_response
kvs_response-answer_of tid get true r = refl
kvs_response-answer_of tid get false r = ground arith
kvs_response-answer_of tid put true r = refl
kvs_response-answer_of tid put false r = refl
kvs_response-answer_of tid other true r = refl
kvs_response-answer_of tid other false r = refl

get_kvs_responses-answers :
    (tid : ℕ) (rs : List KvsResponse) → (get_kvs_responses tid rs).0 ≡ answers rs
unfolding get_kvs_responses answers
get_kvs_responses-answers tid [] = refl
get_kvs_responses-answers tid (r ∷ rs) =
    cc (kvs_response-answer_of tid r.type r.timed_out r, get_kvs_responses-answers tid rs)

read_arguments-parts :
    (args : List Argument) (flag : ℤ) (m : HashMap Text Text)
    → ((read_arguments args flag m).0 ≡ map (λ (a : Argument). a.body) args)
      × ((read_arguments args flag m).1 ≡ last_flag flag args)
unfolding read_arguments last_flag
read_arguments-parts [] flag m = (refl, refl)
read_arguments-parts (a ∷ args) flag m =
    let has_flag = ltb 0 a.arg_flag in
    let (bodies, last) =
      read_arguments-parts args (if has_flag then int_of_uint32 a.arg_flag else flag)
        (if has_flag then HashMap.touch a.body m a.data_address else m) in
    (ap (λ (xs : List Text). a.body ∷ xs) bodies, last)

read_requests-calls :
    (rs : List FunctionRequest) (m : HashMap Text Text) → (read_requests rs m).0 ≡ map call_of rs
unfolding read_requests
read_requests-calls [] m = refl
read_requests-calls (r ∷ rs) m =
    let (bodies, last) = read_arguments-parts r.arguments (pos 0) m in
    let rest = read_requests-calls rs (read_arguments r.arguments (pos 0) m).2 in
    cc (bodies, last, rest)

receive_call-messages :
    (c : Option FunctionCall) (h : Helper) → (receive_call c h).0 ≡ call_messages c
unfolding receive_call call_messages handle_function_call
receive_call-messages none h = refl
receive_call-messages (some c) h = rw (read_requests-calls c.requests h.key_address) refl

module _ (shm_read : Text → ℕ → Text) (tid : ℕ) where
  -- What was taken and what is left are what was there and what has arrived.
  abbrev Delivers : List RecvMsg → IoThread → Outcome → Type 0
  Delivers arrived t o = o.handed ++ o.thread.responses ≡ t.responses ++ arrived

  abbrev Delivered : List Event → IoThread → Helper → Type 0
  Delivered events t h =
      (o : Outcome) × (run shm_read tid events t h ≡ ok o) × Delivers (arrivals events) t o

  Delivered-cons :
      (e : Event) (events : List Event) (t : IoThread) (h : Helper) (first : Outcome)
      (arrived : List RecvMsg)
      → step shm_read tid e t h ≡ ok first
      → Delivers arrived t first
      → arrivals (e ∷ events) ≡ arrived ++ arrivals events
      → Delivered events first.thread first.helper
      → Delivered (e ∷ events) t h
  Delivered-cons e events t h first arrived p d a (rest, q, d') = (
    followed shm_read tid first rest,
    run-cons shm_read tid e events t h first rest p q,
    append_assoc first.handed rest.handed rest.thread.responses
        ∙ ap (λ xs. first.handed ++ xs) d'
        ∙ sym (append_assoc first.handed first.thread.responses (arrivals events))
        ∙ ap (λ xs. xs ++ arrivals events) d
        ∙ append_assoc t.responses arrived (arrivals events)
        ∙ ap (λ xs. t.responses ++ xs) (sym a),
  )

  round-Delivers :
      (i : Input) (lens : HashMap Text ℕ) (h : Helper) (t : IoThread)
      → Delivers (arrives_in i) t (after_round shm_read tid i lens h t)
  round-Delivers i lens h t =
      rw (receive_call-messages i.call h, get_kvs_responses-answers tid i.kvs) (simp append_assoc)

  run-Delivered :
      (events : List Event) (t : IoThread) (h : Helper) → All IsSound events → Delivered events t h
  unfolding step take_thread arrivals run
  run-Delivered [] t h s = (_, refl, sym (append-nil t.responses))
  run-Delivered (round i lens ∷ events) t h s =
      let first = after_round shm_read tid i lens h t in
      Delivered-cons (round i lens) events t h first (arrives_in i)
        (round_lem shm_read tid i lens h t s.0) (round-Delivers i lens h t) refl
        (run-Delivered events first.thread first.helper s.1)
  run-Delivered (asked m ∷ events) t h s =
      Delivered-cons (asked m) events t h _ [] refl (sym (append-nil t.responses)) refl
        (run-Delivered events (record t { requests = t.requests ++ m ∷ [] }) h s.1)
  run-Delivered (other_call c ∷ events) t h s =
      Delivered-cons (other_call c) events t h _ [] refl (sym (append-nil t.responses)) refl
        (run-Delivered events t (handle_function_call c h).1 s.1)
  run-Delivered (taken ∷ events) t h s =
      Delivered-cons taken events t h _ [] refl refl refl
        (run-Delivered events (record t { responses = [] }) h s.1)

  -- No sequence of events of an I/O thread with sound messages fails, and what the main thread has
  -- taken in it, followed by what it has not taken yet, is what there was at first followed by what
  -- has arrived at the thread for it, in the order of the rounds: the calls, the objects of other
  -- nodes, the ends of writes to the store, and the values read from it. A request to the store that
  -- timed out, and a read of a key that the store lacks, give nothing.
  pub responses_are_handed_over :
      (events : List Event) (t : IoThread) (h : Helper)
      → All IsSound events
      → (o : Outcome) × (run shm_read tid events t h ≡ ok o)
        × (o.handed ++ o.thread.responses ≡ t.responses ++ arrivals events)
  responses_are_handed_over events t h s = run-Delivered events t h s
