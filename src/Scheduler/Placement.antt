-- ===== src/Scheduler/Placement.antt =====
-- Where schedule_func_call of src/scheduler/scheduler.cpp runs a function.
use spheromone.Prelude.{
  subst, zero, eq_of_some, ℕ, suc, ◌%◌, ◌≡◌, refl, ap, ◌∙◌, Bool, true, false, Option, none, some,
  List, [], ◌∷◌, inl, inr, Bool-cases, Option-cases, arith, nat_eq, ◌&&◌, ◌||◌, length, get_elem?,
  All, get_elem?-total,
}
use spheromone.Prelude.Int.{ℤ}
use spheromone.Text.{Text, text_eq}
use spheromone.Text
use spheromone.HashMap
use spheromone.HashMap.{HashMap}
use spheromone.HashSet
use spheromone.HashSet.{HashSet}
use spheromone.Common.Result.{Result, ok}
use spheromone.Scheduler.State.{Node, Config, ExecutorStatus, available, await, busy, Output}
use spheromone.Scheduler.Forward.{client_of}
use spheromone.Scheduler.Dispatch.{
  note_reruns, schedule_func_call, candidates, pick_executor, is_free, is_cold, is_available,
  get_avail_executor_num, postpone, send_to_executer, assign, call_message,
}

-- No key stands twice.
abbrev pub IsMap {κ} : {V : Type κ} → HashMap ℕ V → Type κ
IsMap [] = Unit
IsMap ((k, v) ∷ m) = (HashMap.find k m ≡ none) × IsMap m

-- Whether an executor can take a call whose warm executors are `warm`.
abbrev pub fits : Bool → HashSet ℕ → ℕ × ExecutorStatus → Bool
fits shared warm (id, status) =
    (is_available status && HashSet.contains id warm) || is_cold shared status

-- An executor of the map with a free status.
abbrev pub IsFreeIn : HashMap ℕ ExecutorStatus → ℕ → Type 0
IsFreeIn m id =
    (status : ExecutorStatus) × (HashMap.find id m ≡ some status) × (is_free status ≡ true)

find_tail :
    (k id : ℕ) (v w : ExecutorStatus) (m : HashMap ℕ ExecutorStatus)
    → HashMap.find k m ≡ none
    → HashMap.find id m ≡ some w
    → HashMap.find id ((k, v) ∷ m) ≡ some w
unfolding HashMap.find
find_tail k id v w m h e = ground arith

free_tail :
    (k : ℕ) (v : ExecutorStatus) (m : HashMap ℕ ExecutorStatus) (ids : List ℕ)
    → HashMap.find k m ≡ none
    → All (IsFreeIn m) ids
    → All (IsFreeIn ((k, v) ∷ m)) ids
free_tail k v m [] h a = tt
free_tail k v m (id ∷ ids) h a =
    let (w, found, free) = a.0 in
    ((w, find_tail k id v w m h found, free), free_tail k v m ids h a.1)

cold_free :
    (shared : Bool) (status : ExecutorStatus) → is_cold shared status ≡ true → is_free status ≡ true
cold_free shared ExecutorStatus.empty h = refl
cold_free shared available h = refl
cold_free shared await h = h
cold_free shared busy h = h

available_free : (status : ExecutorStatus) → is_available status ≡ true → is_free status ≡ true
available_free ExecutorStatus.empty h = refl
available_free available h = refl
available_free await h = h
available_free busy h = h

warm_free :
    (shared : Bool) (warm : HashSet ℕ) (id : ℕ) (m : HashMap ℕ ExecutorStatus)
    → IsMap m
    → (candidates shared warm m).0 ≡ some id
    → IsFreeIn m id
unfolding candidates HashMap.find
warm_free shared warm id [] h e = cc
warm_free shared warm id ((k, status) ∷ m) h e =
    elim (Bool-cases (is_available status && HashSet.contains k warm)) [
      | inl b ↦
          let same : k ≡ id = ground arith in
          let ready : is_available status ≡ true = ground arith in
          (status, ground arith, available_free status ready)
      | inr b ↦
          let later : (candidates shared warm m).0 ≡ some id = ground arith in
          let (w, found, free) = warm_free shared warm id m h.1 later in
          (w, find_tail k id status w m h.0 found, free)
    ]

cold-IsFreeIn :
    (shared : Bool) (warm : HashSet ℕ) (m : HashMap ℕ ExecutorStatus)
    → IsMap m
    → All (IsFreeIn m) (candidates shared warm m).1
unfolding candidates HashMap.find
cold-IsFreeIn shared warm [] h = tt
cold-IsFreeIn shared warm ((k, status) ∷ m) h =
    let rest =
      free_tail k status m (candidates shared warm m).1 h.0 (cold-IsFreeIn shared warm m h.1) in
    elim (Bool-cases (is_available status && HashSet.contains k warm)) [
      | inl b ↦ rw b tt
      | inr b ↦ rw b (elim (Bool-cases (is_cold shared status)) [
        | inl c ↦ rw c ((status, ground arith, cold_free shared status c), rest)
        | inr c ↦ rw c rest
      ])
    ]

none-fits :
    (shared : Bool) (warm : HashSet ℕ) (m : HashMap ℕ ExecutorStatus)
    → (candidates shared warm m).0 ≡ none
    → (candidates shared warm m).1 ≡ []
    → All (λ e. fits shared warm e ≡ false) m
unfolding candidates
none-fits shared warm [] h g = tt
none-fits shared warm ((k, status) ∷ m) h g =
    elim (Bool-cases (is_available status && HashSet.contains k warm)) [
      | inl b ↦ absurd (ground arith)
      | inr b ↦ elim (Bool-cases (is_cold shared status)) [
        | inl c ↦ absurd (ground arith)
        | inr c ↦ (ground arith, none-fits shared warm m (ground arith) (ground arith))
      ]
    ]

take_free :
    (id : ℕ) (status : ExecutorStatus) (m : HashMap ℕ ExecutorStatus)
    → HashMap.find id m ≡ some status
    → is_free status ≡ true
    → suc (get_avail_executor_num (HashMap.put id await m)) ≡ get_avail_executor_num m
unfolding get_avail_executor_num HashMap.put HashMap.find
take_free id status [] h f = cc
take_free id status ((k, s) ∷ m) h f = ground (arith, take_free id status m)

All_get : (P : ℕ → Type 0) (xs : List ℕ) (i x : ℕ) → All P xs → get_elem? xs i ≡ some x → P x
All_get P [] i x h e = cc
All_get P (y ∷ ys) zero x h e = subst P (eq_of_some e) h.0
All_get P (y ∷ ys) (suc i) x h e = All_get P ys i x h.1 e

pick_free :
    (rand_r : ℕ → ℕ × ℕ) (m : HashMap ℕ ExecutorStatus) (warm : Option ℕ) (cold : List ℕ)
    (seed id next : ℕ) (is_warm : Bool)
    → ((j : ℕ) → warm ≡ some j → IsFreeIn m j)
    → All (IsFreeIn m) cold
    → pick_executor rand_r (warm, cold) seed ≡ some (id, is_warm, next)
    → IsFreeIn m id
unfolding pick_executor
pick_free rand_r m (some j) cold seed id next w hw hc e =
    subst (IsFreeIn m) (ap (λ t. t.0) (eq_of_some e)) (hw j refl)
pick_free rand_r m none [] seed id next w hw hc e = cc
pick_free rand_r m none (c ∷ cold) seed id next w hw hc e =
    let i = (rand_r seed).0 % length (c ∷ cold) in
    let (x, found) = get_elem?-total (c ∷ cold) i (omega arith) in
    let same : x ≡ id = ground arith in
    subst (IsFreeIn m) same (All_get (IsFreeIn m) (c ∷ cold) i x hc found)

pick_none :
    (rand_r : ℕ → ℕ × ℕ) (warm : Option ℕ) (cold : List ℕ) (seed : ℕ)
    → pick_executor rand_r (warm, cold) seed ≡ none
    → (warm ≡ none) × (cold ≡ [])
unfolding pick_executor
pick_none rand_r (some j) cold seed e = cc
pick_none rand_r none [] seed e = (refl, refl)
pick_none rand_r none (c ∷ cold) seed e =
    let i = (rand_r seed).0 % length (c ∷ cold) in
    let (id, found) = get_elem?-total (c ∷ cold) i (omega arith) in absurd (ground arith)

-- How a call is placed: on a free executor, which then waits for it, or nowhere.
module _ (shm_read : Text → ℕ → Text) (rand_r : ℕ → ℕ × ℕ) (config : Config)
    (session app func : Text) (args : List Text) (flag : ℤ) (now : ℕ) (n : Node) where
  pub data Placed : Result (Node × List Output) → Type 0 where
    placed :
        (id : ℕ) (n' : Node)
        → IsFreeIn n.executor_status id
        → n'.executor_status ≡ HashMap.put id await n.executor_status
        → suc (get_avail_executor_num n'.executor_status) ≡ get_avail_executor_num n.executor_status
        → n'.delay_queue ≡ n.delay_queue
        → Placed (
            ok (
              n',
              send_to_executer id
                  (call_message flag (Text.empty (client_of session n)) session func args)
                  n,
            ))
    unplaced :
        All
          (λ e. fits config.shared_executor (HashMap.get_or func n.function_executor []) e ≡ false)
          n.executor_status
        → Placed (postpone shm_read rand_r config session app func args flag now n)

  note_reruns-keeps :
      (timeouts : List (ℕ × ℕ)) (m : Node)
      → ((note_reruns timeouts func session args flag now m).executor_status ≡ m.executor_status)
        × ((note_reruns timeouts func session args flag now m).delay_queue ≡ m.delay_queue)
  unfolding note_reruns
  note_reruns-keeps [] m = (refl, refl)
  note_reruns-keeps (t ∷ ts) m = note_reruns-keeps ts _

  assign-Placed :
      (id seed : ℕ) (warm : Bool)
      → IsFreeIn n.executor_status id
      → Placed (
          ok (
            assign shm_read rand_r config id warm session func args flag now
              (record n { ram_seed = seed })))
  unfolding assign
  assign-Placed id seed warm h =
      let timeouts = HashMap.get_or func n.func_trigger_timeout [] in
      let (statuses, queue) = note_reruns-keeps timeouts _ in
      let (status, found, free) = h in
      placed id _ h statuses
        (ap (λ m. suc (get_avail_executor_num m)) statuses
          ∙ take_free id status n.executor_status found free)
        queue

  pub schedule_func_call-Placed :
      IsMap n.executor_status
      → Placed (schedule_func_call shm_read rand_r config session app func args flag now n)
  unfolding schedule_func_call
  schedule_func_call-Placed h =
      let warm = HashMap.get_or func n.function_executor [] in
      let found = candidates config.shared_executor warm n.executor_status in
      elim (Option-cases (pick_executor rand_r found n.ram_seed)) [
        | inl e ↦
            let (no_warm, no_cold) = pick_none rand_r found.0 found.1 n.ram_seed e in
            rw (e, schedule_func_call)
              (unplaced (none-fits config.shared_executor warm n.executor_status no_warm no_cold))
        | inr (pick, e) ↦
            rw (e, schedule_func_call)
              (assign-Placed pick.0 pick.2 pick.1 (
                pick_free rand_r n.executor_status found.0 found.1 n.ram_seed pick.0 pick.2 pick.1
                  (λ j w. warm_free config.shared_executor warm j n.executor_status h w)
                  (cold-IsFreeIn config.shared_executor warm n.executor_status h) e))
      ]
