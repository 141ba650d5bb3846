-- ===== src/Scheduler/IoThread/Events.antt =====
-- An I/O thread among the others: any sequence of its rounds, of what the main thread does with its
-- queues, and of calls that other threads receive (src/scheduler/comm_helper.hpp). An event is taken
-- as a whole, though safe_ptr guards each access to a queue or to the map of addresses by itself.
use spheromone.Prelude.{
  ℕ, ◌+◌, ◌≤◌, ◌≡◌, refl, none, some, List, [], ◌∷◌, ◌++◌, All, le→leb, length, Option, take, drop,
}
use spheromone.Text.{Text}
use spheromone.HashMap.{HashMap}
use spheromone.Common.Result.{Result, ok, ◌>>=◌}
use spheromone.Messages.{FunctionCall}
use spheromone.Scheduler.State.{Helper, Output}
use spheromone.Scheduler.Receive.{
  RecvMsg, split_message, handle_function_call, handle_data_request, handle_data_response,
}
use spheromone.Scheduler.Kvs.{get_kvs_responses}
use spheromone.Scheduler.IoThread.{
  IoThread, ThreadMsg, Input, io_round, take_thread, process_batch, msg_process_batch, receive_call,
  receive_request, receive_response,
}

pub data Event : Type 0 where
  asked : ThreadMsg → Event
  other_call : FunctionCall → Event
  round : Input → HashMap Text ℕ → Event
  taken : Event

-- The thread and the helper after some events, what the main thread took, and what the thread sent.
pub record Outcome : Type 0 where
  pub thread : IoThread
  pub helper : Helper
  pub handed : List RecvMsg
  pub sent : List Output

-- A message between nodes holds the key that its first byte announces.
abbrev pub IsFramed : Option Text → Type 0
IsFramed none = Unit
IsFramed (some []) = ⊥
IsFramed (some (n ∷ s)) = n ≤ length s

abbrev pub IsSound : Event → Type 0
IsSound (round i lens) = IsFramed i.data_request × IsFramed i.data_response
IsSound e = Unit

unfoldable pub rounds : List Event → ℕ
rounds [] = 0
rounds (round i lens ∷ events) = 1 + rounds events
rounds (e ∷ events) = rounds events

module _ (shm_read : Text → ℕ → Text) (tid : ℕ) where
  unfoldable pub step : Event → IoThread → Helper → Result Outcome
  step (asked m) t h = ok (record {
    thread = record t { requests = t.requests ++ m ∷ [] };
    helper = h;
    handed = [];
    sent = [];
  })
  step (other_call c) t h =
      ok (record { thread = t; helper = (handle_function_call c h).1; handed = []; sent = [] })
  step (round i lens) t h = do
    (t', h', sent) ← io_round shm_read tid i lens h t
    ok (record { thread = t'; helper = h'; handed = []; sent = sent })
  step taken t h =
      ok (record { thread = (take_thread t).1; helper = h; handed = (take_thread t).0; sent = [] })

  abbrev pub followed : Outcome → Outcome → Outcome
  followed first o = record o { handed = first.handed ++ o.handed; sent = first.sent ++ o.sent }

  unfoldable pub run : List Event → IoThread → Helper → Result Outcome
  unfolding step
  run [] t h = ok (record { thread = t; helper = h; handed = []; sent = [] })
  run (e ∷ events) t h = do
    first ← step e t h
    rest ← run events first.thread first.helper
    ok (followed first rest)

-- What a round makes of sound messages.
unfoldable pub framed_answers : (Text → ℕ → Text) → Option Text → HashMap Text ℕ → List Output
framed_answers shm_read none lens = []
framed_answers shm_read (some message) lens = elim (handle_data_request shm_read message lens) [
  | ok sent ↦ sent
  | _ ↦ []
]

unfoldable pub objects : Option Text → List RecvMsg
objects none = []
objects (some []) = []
objects (some (n ∷ s)) = RecvMsg.data_resp (take n s) (length (drop n s)) ∷ []

unfoldable pub copies : Option Text → List Output
copies none = []
copies (some []) = []
copies (some (n ∷ s)) = Output.copy_to_shm_obj (take n s) (drop n s) ∷ []

split_framed : (n : ℕ) (s : Text) → n ≤ length s → split_message (n ∷ s) ≡ ok (take n s, drop n s)
unfolding split_message
split_framed n s h = rw (le→leb n (length s) h) refl

receive_request-framed :
    (shm_read : Text → ℕ → Text) (message : Option Text) (lens : HashMap Text ℕ)
    → IsFramed message
    → receive_request shm_read message lens ≡ ok ([], framed_answers shm_read message lens)
unfolding receive_request framed_answers handle_data_request
receive_request-framed shm_read none lens f = refl
receive_request-framed shm_read (some []) lens f = absurd f
receive_request-framed shm_read (some (n ∷ s)) lens f = rw (split_framed n s f, framed_answers) refl

receive_response-framed :
    (message : Option Text)
    → IsFramed message
    → receive_response message ≡ ok (objects message, copies message)
unfolding receive_response objects copies handle_data_response
receive_response-framed none f = refl
receive_response-framed (some []) f = absurd f
receive_response-framed (some (n ∷ s)) f = rw (split_framed n s f) refl

module _ (shm_read : Text → ℕ → Text) (tid : ℕ) (i : Input) (lens : HashMap Text ℕ) (h : Helper)
    (t : IoThread) where
  abbrev pub batch : List ThreadMsg × List Output
  batch = process_batch msg_process_batch tid (receive_call i.call h).1 t.requests

  abbrev pub after_round : Outcome
  after_round = record {
    thread = record {
      requests = batch.0;
      responses =
          t.responses
          ++ (receive_call i.call h).0
          ++ objects i.data_response
          ++ (get_kvs_responses tid i.kvs).0;
    };
    helper = (receive_call i.call h).1;
    handed = [];
    sent =
        framed_answers shm_read i.data_request lens
        ++ copies i.data_response
        ++ batch.1
        ++ (get_kvs_responses tid i.kvs).1;
  }

  -- A round with sound messages does not fail.
  pub round_lem : IsSound (round i lens) → step shm_read tid (round i lens) t h ≡ ok after_round
  unfolding step io_round
  round_lem s =
      rw
        (
          receive_request-framed shm_read i.data_request lens s.0,
          receive_response-framed i.data_response s.1,
        )
        refl

module _ (shm_read : Text → ℕ → Text) (tid : ℕ) where
  pub step_total :
      (e : Event) (t : IoThread) (h : Helper)
      → IsSound e
      → (o : Outcome) × (step shm_read tid e t h ≡ ok o)
  unfolding step
  step_total (asked m) t h s = (_, refl)
  step_total (other_call c) t h s = (_, refl)
  step_total (round i lens) t h s =
      (after_round shm_read tid i lens h t, round_lem shm_read tid i lens h t s)
  step_total taken t h s = (_, refl)

  pub run-cons :
      (e : Event) (events : List Event) (t : IoThread) (h : Helper) (first rest : Outcome)
      → step shm_read tid e t h ≡ ok first
      → run shm_read tid events first.thread first.helper ≡ ok rest
      → run shm_read tid (e ∷ events) t h ≡ ok (followed shm_read tid first rest)
  unfolding run
  run-cons e events t h first rest p q = rw p (rw q refl)

  -- With sound messages the thread does not fail.
  pub run_total :
      (events : List Event) (t : IoThread) (h : Helper)
      → All IsSound events
      → (o : Outcome) × (run shm_read tid events t h ≡ ok o)
  unfolding run
  run_total [] t h s = (_, refl)
  run_total (e ∷ events) t h s =
      let (first, p) = step_total e t h s.0 in
      let (rest, q) = run_total events first.thread first.helper s.1 in
      (followed shm_read tid first rest, run-cons e events t h first rest p q)
