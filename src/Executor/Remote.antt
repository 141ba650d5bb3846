-- ===== src/Executor/Remote.antt =====
-- get_object for an object of another node: the answer of src/scheduler/scheduler.cpp to a remote
-- get, as get_object of src/executor/function_lib.hpp reads it.
use spheromone.Prelude.{
  ℕ, ◌-◌, ◌%◌, ◌^◌, ◌≤◌, ◌≡◌, ◌≢◌, ◌⊎◌, inl, inr, refl, sym, ap, ◌∙◌, Bool-cases, Option, none,
  some, [], ◌∷◌, arith, ==_refl, leb, ◌&&◌, true, nat_eq,
}
use spheromone.Prelude.Int.{pos}
use spheromone.Text.{Text, text_eq}
use spheromone.Common.Result.{Result, ok, crash}
use spheromone.Common.Stoi.{stoi, leading, skip_space}
use spheromone.HashMap
use spheromone.HashSet
use spheromone.Scheduler.State.{Node, Config, to_executor}
use spheromone.Scheduler.Receive.{data_resp}
use spheromone.Scheduler.Arrival.{and_then}
use spheromone.Scheduler.Responses.{
  handle_response, data_arrived, answer_gets, answer_all, resume_calls,
}
use spheromone.Scheduler.Objects.{byte_at, c_string}
use spheromone.Scheduler.Requests.{response}
use spheromone.Executor.UserLibrary.{get_object_answer, EpheObject}

-- The number in a text of one byte.
stoi_byte :
    (c : ℕ)
    → (stoi (c_string (c ∷ [])) ≡ crash)
      ⊎ ((b'0' ≤ c) × (stoi (c_string (c ∷ [])) ≡ ok (pos (c - b'0'))))
unfolding stoi c_string leading skip_space
stoi_byte c = elim (Bool-cases (leb b'0' c && leb c b'9')) [
  | inl h ↦ inr (ground arith, ground arith)
  | inr h ↦ inl (ground arith)
]

size_read : Result (Option EpheObject) → ℕ
size_read (ok (some o)) = o.size
size_read (ok none) = 0
size_read crash = 0

size_lost :
    (name : Text) (req_id size : ℕ)
    → get_object_answer name req_id (some (response req_id (size % 2 ^ 8 ∷ [])))
      ≢ ok (some (record { obj_name = name; size = size; target_func = [] }))
unfolding get_object_answer response byte_at size_read
size_lost name req_id size h = elim (stoi_byte (size % 2 ^ 8)) [
  | inl e ↦
      let lost : get_object_answer name req_id (some (response req_id (size % 2 ^ 8 ∷ [])))
          ≡ crash =
        rw (==_refl req_id, e) refl in
      cc (h, lost)
  | inr (digit, e) ↦
      let read : get_object_answer name req_id (some (response req_id (size % 2 ^ 8 ∷ [])))
          ≡ ok (some (record { obj_name = name; size = size % 2 ^ 8 - b'0'; target_func = [] })) =
        rw (==_refl req_id, e) refl in
      omega (arith, ap size_read (sym read ∙ h))
]

-- An object arrives that one executor with a channel waits for, and no call does: the scheduler answers this
-- executor alone, but whatever the size of the object is, get_object does not read it from the
-- answer: it throws, or takes another size.
pub remote_get_fails :
    (shm_read : Text → ℕ → Text) (rand_r : ℕ → ℕ × ℕ) (config : Config) (key : Text)
    (size id req_id now : ℕ) (n : Node)
    → HashMap.get_or key n.remote_gets [] ≡ (id, req_id) ∷ []
    → HashMap.get_or key n.key_calls [] ≡ []
    → HashSet.contains id n.executor_chans ≡ true
    → (n' : Node) × (answer : Text) × (handle_response shm_read rand_r config
          (data_resp key size)
          now
          n
        ≡ ok (n', to_executor id answer ∷ []))
      × (get_object_answer key req_id (some answer)
          ≢ ok (some (record { obj_name = key; size = size; target_func = [] })))
unfolding handle_response data_arrived answer_gets answer_all resume_calls
remote_get_fails shm_read rand_r config key size id req_id now n gets calls there =
    let n' : Node = record n {
      key_len = HashMap.put key size n.key_len;
      remote_gets = HashMap.erase key n.remote_gets;
      key_calls = HashMap.erase key n.key_calls;
    } in
    let answer = response req_id (size % 2 ^ 8 ∷ []) in
    let answered : data_arrived shm_read rand_r config key size now n
        ≡ ok (n', to_executor id answer ∷ []) =
      rw (gets, data_arrived) (rw (calls, and_then) (rw there refl)) in
    (n', answer, answered, size_lost key req_id size)
