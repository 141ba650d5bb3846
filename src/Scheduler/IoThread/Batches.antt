-- ===== src/Scheduler/IoThread/Batches.antt =====
-- What an I/O thread does with a request of its queue, and when: a batch takes the first requests of
-- the queue in order, and what a request sends does not depend on the calls that arrive before it
-- (run_io_thread_loop and handle_function_call of src/scheduler/comm_helper.hpp).
use spheromone.Prelude.{
  ℕ, zero, suc, ◌+◌, ◌<◌, ◌≡◌, refl, sym, ◌∙◌, subst, false, some, List, [], ◌∷◌, ◌++◌, arith,
  Bool-cases, inl, inr, ltb, length, get_elem?, append_assoc, if◌then◌else◌, eq_of_some,
}
use spheromone.Prelude.Int.{ℤ, pos, int_of_uint32}
use spheromone.Text.{Text, text, text_eq, to_string, empty}
use spheromone.HashMap
use spheromone.HashMap.{HashMap, find-put}
use spheromone.Messages.{FunctionCall, FunctionRequest, Argument}
use spheromone.Scheduler.State.{Helper, Output, bytes_to}
use spheromone.Scheduler.Helper.{
  send_data_req_base, get_key_address, data_request, data_access_client_port,
}
use spheromone.Scheduler.Receive.{read_arguments, read_requests, handle_function_call}
use spheromone.Scheduler.IoThread.{ThreadMsg, send_req, get_kvs, put_kvs, process, process_batch}

-- Where `xs` stands in `ys`.
abbrev pub Includes : List Output → List Output → Type 0
Includes xs ys = (before : List Output) × (after : List Output) × (ys ≡ before ++ (xs ++ after))

Includes-self : (xs after : List Output) → Includes xs (xs ++ after)
Includes-self xs after = ([], after, refl)

pub Includes-front : (xs ys zs : List Output) → Includes xs ys → Includes xs (zs ++ ys)
Includes-front xs ys zs (before, after, e) =
    (zs ++ before, after, rw e (sym (append_assoc zs before (xs ++ after))))

pub Includes-back : (xs ys zs : List Output) → Includes xs ys → Includes xs (ys ++ zs)
Includes-back xs ys zs (before, after, e) = (before, after ++ zs, rw e (simp append_assoc))

-- An address that is known stays known, and is not replaced.
abbrev pub Has : Text → Text → HashMap Text Text → Type 0
Has key address m = HashMap.find key m ≡ some address

Has-touch :
    (key address j a : Text) (m : HashMap Text Text)
    → Has key address m
    → Has key address (HashMap.touch j m a)
unfolding HashMap.touch
Has-touch key address j a m h = ground (arith, find-put j key a m, text_eq.beq_iff j key)

Has-read_arguments :
    (key address : Text) (args : List Argument) (flag : ℤ) (m : HashMap Text Text)
    → Has key address m
    → Has key address (read_arguments args flag m).2
unfolding read_arguments
Has-read_arguments key address [] flag m h = h
Has-read_arguments key address (a ∷ args) flag m h = elim (Bool-cases (ltb 0 a.arg_flag)) [
  | inl e ↦ rw e (
      Has-read_arguments key address args (int_of_uint32 a.arg_flag)
        (HashMap.touch a.body m a.data_address) (Has-touch key address a.body a.data_address m h))
  | inr e ↦ rw e (Has-read_arguments key address args flag m h)
]

Has-read_requests :
    (key address : Text) (rs : List FunctionRequest) (m : HashMap Text Text)
    → Has key address m
    → Has key address (read_requests rs m).1
unfolding read_requests
Has-read_requests key address [] m h = h
Has-read_requests key address (r ∷ rs) m h =
    Has-read_requests key address rs (read_arguments r.arguments (pos 0) m).2
      (Has-read_arguments key address r.arguments (pos 0) m h)

Has-handle_function_call :
    (key address : Text) (c : FunctionCall) (h : Helper)
    → Has key address h.key_address
    → Has key address (handle_function_call c h).1.key_address
unfolding handle_function_call
Has-handle_function_call key address c h k =
    Has-read_requests key address c.requests h.key_address k

-- What a request needs of the helper: the address of an object that is asked for.
abbrev pub IsReady : ThreadMsg → Helper → Type 0
IsReady (send_req key) h = (address : Text) × (HashMap.find key h.key_address ≡ some address)
IsReady (get_kvs key) h = Unit
IsReady (put_kvs key value) h = Unit

process-known :
    (key address : Text) (tid : ℕ) (h : Helper)
    → Has key address h.key_address
    → process tid h (send_req key) ≡ (
        if empty address
        then []
        else bytes_to address (
            data_request key
              (text "tcp://" ++ h.ip ++ text ":" ++ to_string (tid + data_access_client_port)))
          ∷ [])
unfolding process send_data_req_base get_key_address
process-known key address tid h e = rw (e, send_data_req_base) refl

pub process-sends :
    (key address ip : Text) (tid : ℕ) (h : Helper)
    → Has key address h.key_address
    → empty address ≡ false
    → h.ip ≡ ip
    → process tid h (send_req key)
      ≡ bytes_to address (
          data_request key
            (text "tcp://" ++ ip ++ text ":" ++ to_string (tid + data_access_client_port)))
        ∷ []
process-sends key address ip tid h e full p =
    process-known key address tid h e ∙ (rw (full, p) refl)

-- A later helper treats the request as the first one does.
pub record Later (m : ThreadMsg) (old new : Helper) : Type 0 where
  pub still_ready : IsReady m new
  pub same_effect : (tid : ℕ) → process tid new m ≡ process tid old m

pub Later-refl : (m : ThreadMsg) (h : Helper) → IsReady m h → Later m h h
Later-refl m h r = record { still_ready = r; same_effect = λ tid. refl }

pub Later-handle_function_call :
    (m : ThreadMsg) (c : FunctionCall) (h : Helper)
    → IsReady m h
    → Later m h (handle_function_call c h).1
Later-handle_function_call (send_req key) c h (address, e) =
    let e' = Has-handle_function_call key address c h e in
    record {
      still_ready = (address, e');
      same_effect = λ tid.
          process-known key address tid (handle_function_call c h).1 e'
          ∙ (unfold handle_function_call in sym (process-known key address tid h e));
    }
Later-handle_function_call (get_kvs key) c h r = record {
  still_ready = tt;
  same_effect = λ tid. unfold process in refl;
}
Later-handle_function_call (put_kvs key value) c h r = record {
  still_ready = tt;
  same_effect = λ tid. unfold process in refl;
}

-- A batch takes the first requests of the queue, in order.
pub process_batch-rest :
    (n d tid : ℕ) (h : Helper) (queue : List ThreadMsg) (m : ThreadMsg)
    → get_elem? queue (n + d) ≡ some m
    → get_elem? (process_batch n tid h queue).0 d ≡ some m
unfolding process_batch
process_batch-rest zero d tid h queue m e =
    subst (λ i. get_elem? queue i ≡ some m) (let p : 0 + d ≡ d = omega arith in p) e
process_batch-rest (suc n) d tid h [] m e = cc
process_batch-rest (suc n) d tid h (x ∷ queue) m e = process_batch-rest n d tid h queue m (
    subst (λ i. get_elem? (x ∷ queue) i ≡ some m)
      (let p : suc n + d ≡ suc (n + d) = omega arith in p) e)

pub process_batch-Includes :
    (n d tid : ℕ) (h : Helper) (queue : List ThreadMsg) (m : ThreadMsg)
    → get_elem? queue d ≡ some m
    → d < n
    → Includes (process tid h m) (process_batch n tid h queue).1
unfolding process_batch
process_batch-Includes zero d tid h queue m e l = absurd (omega arith)
process_batch-Includes (suc n) d tid h [] m e l = cc
process_batch-Includes (suc n) zero tid h (x ∷ queue) m e l =
    subst
      (λ (y : ThreadMsg).
        Includes (process tid h y) (process tid h x ++ (process_batch n tid h queue).1))
      (eq_of_some e) (Includes-self (process tid h x) (process_batch n tid h queue).1)
process_batch-Includes (suc n) (suc d) tid h (x ∷ queue) m e l =
    Includes-front (process tid h m) (process_batch n tid h queue).1 (process tid h x)
      (process_batch-Includes n d tid h queue m e (omega arith))

pub get_elem?-snoc :
    (queue : List ThreadMsg) (d : ℕ) (m x : ThreadMsg)
    → get_elem? queue d ≡ some m
    → get_elem? (queue ++ x ∷ []) d ≡ some m
get_elem?-snoc [] d m x e = cc
get_elem?-snoc (y ∷ queue) zero m x e = e
get_elem?-snoc (y ∷ queue) (suc d) m x e = get_elem?-snoc queue d m x e

pub get_elem?-last :
    (queue : List ThreadMsg) (m : ThreadMsg) → get_elem? (queue ++ m ∷ []) (length queue) ≡ some m
get_elem?-last [] m = refl
get_elem?-last (y ∷ queue) m = get_elem?-last queue m
