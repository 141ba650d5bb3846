-- ===== src/Scheduler/IoThread/Requests.antt =====
-- What becomes of a request that the main thread puts into the queue of an I/O thread
-- (run_io_thread_loop of src/scheduler/comm_helper.hpp).
use spheromone.Prelude.{
  ℕ, suc, ◌+◌, ◌-◌, ◌*◌, ◌^◌, ◌<◌, ◌≡◌, refl, sym, subst, true, false, some, none, List, [], ◌∷◌,
  ◌++◌, arith, All, Bool-cases, inl, inr, ltb, length, get_elem?, Option, Option-cases,
  if◌then◌else◌, ltb→lt,
}
use spheromone.Text.{Text, text, text_eq, to_string, empty}
use spheromone.HashMap
use spheromone.HashMap.{HashMap, find-put}
use spheromone.Common.Result.{ok}
use spheromone.Messages.{FunctionCall}
use spheromone.Scheduler.State.{Helper, Output, bytes_to, queue_send_req, kvs_get, kvs_put}
use spheromone.Scheduler.Helper.{
  data_request, send_data_req, get_io_thread_id, data_access_client_port,
}
use spheromone.Scheduler.Transfer.{get_io_thread_id_bounds}
use spheromone.Scheduler.Receive.{handle_function_call}
use spheromone.Scheduler.IoThread.{
  IoThread, ThreadMsg, Input, send_req, get_kvs, put_kvs, process, take_thread, receive_call,
}
use spheromone.Scheduler.IoThread.Events.{
  Event, asked, other_call, round, taken, Outcome, IsSound, rounds, step, run, after_round,
  round_lem, run-cons, run_total, followed, batch,
}
use spheromone.Scheduler.IoThread.Batches.{
  Includes, Includes-front, Includes-back, Has, IsReady, process-sends, Later, Later-refl,
  Later-handle_function_call, process_batch-rest, process_batch-Includes, get_elem?-snoc,
  get_elem?-last,
}

abbrev batch_size : ℕ
batch_size = 10

module _ (shm_read : Text → ℕ → Text) (tid : ℕ) (m : ThreadMsg) where
  -- The request at place `d` of the queue is met in the rounds of some events.
  abbrev Met : List Event → IoThread → Helper → Type 0
  Met events t h =
      (o : Outcome) × (run shm_read tid events t h ≡ ok o) × Includes (process tid h m) o.sent

  Met-cons :
      (e : Event) (events : List Event) (t : IoThread) (h : Helper) (first : Outcome)
      → step shm_read tid e t h ≡ ok first
      → Later m h first.helper
      → Met events first.thread first.helper
      → Met (e ∷ events) t h
  Met-cons e events t h first p later (rest, q, i) = (
    followed shm_read tid first rest,
    run-cons shm_read tid e events t h first rest p q,
    Includes-front (process tid h m) rest.sent first.sent
        (subst (λ (xs : List Output). Includes xs rest.sent) (later.same_effect tid) i),
  )

  Met-now :
      (i : Input) (lens : HashMap Text ℕ) (events : List Event) (d : ℕ) (t : IoThread) (h : Helper)
      → All IsSound (round i lens ∷ events)
      → Later m h (receive_call i.call h).1
      → get_elem? t.requests d ≡ some m
      → d < batch_size
      → Met (round i lens ∷ events) t h
  Met-now i lens events d t h s later e l =
      let first = after_round shm_read tid i lens h t in
      let (rest, q) = run_total shm_read tid events first.thread first.helper s.1 in
      let here = process_batch-Includes batch_size d tid first.helper t.requests m e l in
      let same =
        subst (λ (xs : List Output). Includes xs (batch shm_read tid i lens h t).1)
          (later.same_effect tid) here in
      (
        followed shm_read tid first rest,
        run-cons shm_read tid (round i lens) events t h first rest
            (round_lem shm_read tid i lens h t s.0) q,
        Includes-back (process tid h m) first.sent rest.sent
            (Includes-back (process tid h m) _ _ (Includes-front (process tid h m) _ _ same)),
      )

  Later-receive_call :
      (c : Option FunctionCall) (h : Helper) → IsReady m h → Later m h (receive_call c h).1
  unfolding receive_call
  Later-receive_call none h r = Later-refl m h r
  Later-receive_call (some c) h r = Later-handle_function_call m c h r

  -- What waits at place `d` of the queue is done after more than d / 10 rounds.
  waiting-Met :
      (events : List Event) (d : ℕ) (t : IoThread) (h : Helper)
      → All IsSound events
      → IsReady m h
      → get_elem? t.requests d ≡ some m
      → d < batch_size * rounds events
      → Met events t h
  unfolding rounds step take_thread
  waiting-Met [] d t h s r e l = absurd (omega arith)
  waiting-Met (asked x ∷ events) d t h s r e l =
      Met-cons (asked x) events t h _ refl (Later-refl m h r) (
        waiting-Met events d (record t { requests = t.requests ++ x ∷ [] }) h s.1 r
          (get_elem?-snoc t.requests d m x e) l)
  waiting-Met (taken ∷ events) d t h s r e l =
      Met-cons taken events t h _ refl (Later-refl m h r)
        (waiting-Met events d (record t { responses = [] }) h s.1 r e l)
  waiting-Met (other_call c ∷ events) d t h s r e l =
      let later = Later-handle_function_call m c h r in
      Met-cons (other_call c) events t h _ refl later
        (waiting-Met events d t (handle_function_call c h).1 s.1 later.still_ready e l)
  waiting-Met (round i lens ∷ events) d t h s r e l =
      let later = Later-receive_call i.call h r in
      let first = after_round shm_read tid i lens h t in
      elim (Bool-cases (ltb d batch_size)) [
        | inl now ↦ Met-now i lens events d t h s later e (ltb→lt d batch_size now)
        | inr not_yet ↦
            let far : batch_size + (d - batch_size) ≡ d = ground arith in
            Met-cons (round i lens) events t h first (round_lem shm_read tid i lens h t s.0) later (
              waiting-Met events (d - batch_size) first.thread first.helper s.1 later.still_ready
                (process_batch-rest batch_size (d - batch_size) tid first.helper t.requests m
                  (subst (λ k. get_elem? t.requests k ≡ some m) (sym far) e))
                (omega arith))
      ]

  -- So is what waits when a new request comes.
  earlier-Met :
      (new : ThreadMsg) (events : List Event) (d : ℕ) (t : IoThread) (h : Helper)
      → All IsSound events
      → IsReady m h
      → get_elem? t.requests d ≡ some m
      → d < batch_size * rounds events
      → Met (asked new ∷ events) t h
  unfolding step
  earlier-Met new events d t h s r e l = Met-cons (asked new) events t h _ refl (Later-refl m h r) (
      waiting-Met events d (record t { requests = t.requests ++ new ∷ [] }) h s r
        (get_elem?-snoc t.requests d m new e) l)

  -- The new request is met too.
  new-Met :
      (events : List Event) (t : IoThread) (h : Helper)
      → All IsSound events
      → IsReady m h
      → length t.requests < batch_size * rounds events
      → Met (asked m ∷ events) t h
  unfolding step
  new-Met events t h s r enough = Met-cons (asked m) events t h _ refl (Later-refl m h r) (
      waiting-Met events (length t.requests) (record t { requests = t.requests ++ m ∷ [] }) h s r
        (get_elem?-last t.requests m) enough)

-- What a thread has sent for a request of its queue: an object is asked for at its address, if that is
-- known.
abbrev pub IsDone : ℕ → Text → HashMap Text Text → List Output → ThreadMsg → Type 0
IsDone tid ip addresses sent (get_kvs key) = Includes (kvs_get tid key ∷ []) sent
IsDone tid ip addresses sent (put_kvs key value) = Includes (kvs_put tid key value ∷ []) sent
IsDone tid ip addresses sent (send_req key) = elim (HashMap.find key addresses) [
  | none ↦ Unit
  | some address ↦
      if empty address
      then Unit
      else Includes
          (bytes_to address (
              data_request key
                (text "tcp://" ++ ip ++ text ":" ++ to_string (tid + data_access_client_port)))
            ∷ [])
          sent
]

module _ (shm_read : Text → ℕ → Text) (tid : ℕ) (new : ThreadMsg) (events : List Event)
    (t : IoThread) (h : Helper) (o : Outcome) (sound : All IsSound events)
    (ran : run shm_read tid (asked new ∷ events) t h ≡ ok o) where
  -- All runs of the events have the same outcome.
  place-Includes :
      (m : ThreadMsg) (d : ℕ)
      → IsReady m h
      → get_elem? t.requests d ≡ some m
      → d < batch_size * rounds events
      → Includes (process tid h m) o.sent
  place-Includes m d r e l =
      let (o', ran', there) = earlier-Met shm_read tid m new events d t h sound r e l in
      let same : o' ≡ o = cc (ran, ran') in
      subst (λ (x : Outcome). Includes (process tid h m) x.sent) same there

  place-IsDone :
      (m : ThreadMsg) (d : ℕ)
      → get_elem? t.requests d ≡ some m
      → d < batch_size * rounds events
      → IsDone tid h.ip h.key_address o.sent m
  unfolding process
  place-IsDone (get_kvs key) d e l = place-Includes (get_kvs key) d tt e l
  place-IsDone (put_kvs key value) d e l = place-Includes (put_kvs key value) d tt e l
  place-IsDone (send_req key) d e l = elim (Option-cases (HashMap.find key h.key_address)) [
    | inl unknown ↦ rw (IsDone, unknown) tt
    | inr (address, known) ↦ elim (Bool-cases (empty address)) [
      | inl no_text ↦ rw (IsDone, known, no_text) tt
      | inr full ↦
          rw (IsDone, known, full)
            (subst (λ (xs : List Output). Includes xs o.sent)
              (process-sends key address h.ip tid h known full refl)
              (place-Includes (send_req key) d (address, known) e l))
    ]
  ]

All-places :
    {P : ThreadMsg → Type 0} (ms : List ThreadMsg)
    → ((m : ThreadMsg) (d : ℕ) → get_elem? ms d ≡ some m → d < length ms → P m)
    → All P ms
All-places [] f = tt
All-places (m ∷ ms) f =
    (f m 0 refl (omega arith), All-places ms (λ x d e l. f x (suc d) e (omega arith)))

send_data_req-queues :
    (key : Text) (h : Helper)
    → 1 < h.io_thread_count
    → 0 < (get_io_thread_id true h).0
    → send_data_req key h
      ≡ (queue_send_req (get_io_thread_id true h).0 key ∷ [], (get_io_thread_id true h).1)
unfolding send_data_req
send_data_req-queues key h two above = ground arith

-- With several I/O threads, the request for an object whose address is known goes to the queue of
-- one of them, other than the main one. In any sequence of events of that thread with sound
-- messages, once it has made more than a tenth as many rounds as there were requests before this
-- one, it has sent the request to the address, with its own address for the answer, and has done all
-- requests before it: reads and writes of the store, and requests for objects whose addresses are
-- known.
pub data_request_is_sent :
    (shm_read : Text → ℕ → Text) (key address : Text) (h : Helper) (t : IoThread)
    (events : List Event)
    → 1 < h.io_thread_count
    → h.io_thread_count < 2 ^ 32
    → h.io_thread_id < h.io_thread_count
    → HashMap.find key h.key_address ≡ some address
    → empty address ≡ false
    → All IsSound events
    → length t.requests < 10 * rounds events
    → (id : ℕ) × (h' : Helper) × (0 < id)
      × (id < h.io_thread_count)
      × (send_data_req key h ≡ (queue_send_req id key ∷ [], h'))
      × (o : Outcome) × (run shm_read id (asked (send_req key) ∷ events) t h' ≡ ok o)
      × Includes
          (bytes_to address (
              data_request key
                (text "tcp://" ++ h.ip ++ text ":" ++ to_string (id + data_access_client_port)))
            ∷ [])
          o.sent
      × All (IsDone id h.ip h.key_address o.sent) t.requests
data_request_is_sent shm_read key address h t events two word here known full s enough =
    let (id, h') = get_io_thread_id true h in
    let (below, above, _) = get_io_thread_id_bounds true h two word here in
    let known' : Has key address h'.key_address = unfold get_io_thread_id in known in
    let (o, ran, there) =
      new-Met shm_read id (send_req key) events t h' s (address, known') enough in
    (
      id,
      h',
      above,
      below,
      send_data_req-queues key h two above,
      o,
      ran,
      subst (λ (xs : List Output). Includes xs o.sent)
          (process-sends key address h.ip id h' known' full (unfold get_io_thread_id in refl))
          there,
      unfold get_io_thread_id in
          (All-places t.requests (λ m d e l.
            place-IsDone shm_read id (send_req key) events t h' o s ran m d e (omega arith))),
    )
