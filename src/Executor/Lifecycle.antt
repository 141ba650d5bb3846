-- ===== src/Executor/Lifecycle.antt =====
-- What the local scheduler believes of an executor, and what the executor does: the status in
-- src/scheduler/scheduler.cpp against the loop of src/executor/executor.cpp. Each step is one of the
-- two programs': the channels between them hold what was sent and not yet read.
use spheromone.Prelude.{
  ℕ, zero, suc, ◌+◌, ◌*◌, ◌%◌, ◌^◌, ◌⊎◌, inl, inr, length, length-append, ◌<◌, ◌≡◌, refl, Bool,
  true, false, List, [], ◌∷◌, ◌++◌, arith, nat_eq, if◌then◌else◌,
}
use spheromone.Text.{Text}
use spheromone.HashMap
use spheromone.Common.Result.{ok}
use spheromone.Scheduler.State.{Node, Config, ExecutorStatus, available, await, busy}
use spheromone.Scheduler.Dispatch.{is_free}
use spheromone.Scheduler.Objects.{byte_at}
use spheromone.Scheduler.Requests.{handle_message, released, set_busy, set_available, executor_of}
use spheromone.Executor.Run.{status_message}

-- The status after a report: that a call begins, or that the executor is available.
unfoldable pub after_report : Bool → ExecutorStatus → ExecutorStatus
after_report begins status = if begins then busy else released status

-- The scheduler reads the report of an executor below 255 as that: the status of this executor
-- changes, and nothing else.
pub handle_message-status_message :
    (shm_read : Text → ℕ → Text) (rand_r : ℕ → ℕ × ℕ) (config : Config) (id now : ℕ) (begins : Bool)
    (n : Node)
    → id < 255
    → handle_message shm_read rand_r config (status_message id begins) now n
      ≡ ok (
        record n {
          executor_status =
              HashMap.put id
                (after_report begins (HashMap.get_or id n.executor_status ExecutorStatus.empty))
                n.executor_status;
        },
        [],
      )
unfolding handle_message status_message byte_at after_report set_busy set_available executor_of
handle_message-status_message shm_read rand_r config id now true n h =
    let back : ((id + 1) % 2 ^ 8 + 255) % 2 ^ 8 ≡ id = omega arith in rw back refl
handle_message-status_message shm_read rand_r config id now false n h =
    let back : ((id + 1) % 2 ^ 8 + 255) % 2 ^ 8 ≡ id = omega arith in rw back refl

-- The status at the scheduler, the calls in the executor's channel, whether it runs a function, and
-- the reports that are under way, oldest first.
pub record Link : Type 0 where
  pub status : ExecutorStatus
  pub calls : ℕ
  pub running : Bool
  pub reports : List Bool

-- What the executor does with its calls, and the scheduler's reading of its reports.
pub data Progress : Link → Link → Type 0 where
  begin :
      (status : ExecutorStatus) (c : ℕ) (reports : List Bool)
      → Progress
          (record { status = status; calls = suc c; running = false; reports = reports })
          (record { status = status; calls = c; running = true; reports = reports ++ true ∷ [] })
  finish :
      (status : ExecutorStatus) (c : ℕ) (reports : List Bool)
      → Progress
          (record { status = status; calls = c; running = true; reports = reports })
          (record { status = status; calls = c; running = false; reports = reports ++ false ∷ [] })
  deliver :
      (status : ExecutorStatus) (c : ℕ) (r begins : Bool) (reports : List Bool)
      → Progress
          (record { status = status; calls = c; running = r; reports = begins ∷ reports })
          (record {
            status = after_report begins status;
            calls = c;
            running = r;
            reports = reports;
          })

-- The timer may go off whenever no function runs.
pub data Work : Link → Link → Type 0 where
  progress : {k m : Link} → Progress k m → Work k m
  timer :
      (status : ExecutorStatus) (c : ℕ) (reports : List Bool)
      → Work
          (record { status = status; calls = c; running = false; reports = reports })
          (record { status = status; calls = c; running = false; reports = reports ++ false ∷ [] })

abbrev pub idle_link : ExecutorStatus → List Bool → Link
idle_link status reports = record { status = status; calls = 0; running = false; reports = reports }

-- Some number of such steps, in any order.
pub data Progresses (l : Link) : ℕ → Link → Type 0 where
  none_made : Progresses l 0 l
  one_more : {n : ℕ} {k m : Link} → Progresses l n k → Progress k m → Progresses l (suc n) m

-- The steps that a state has left.
abbrev pub steps_left : Link → ℕ
steps_left l = 4 * l.calls + (if l.running then 2 else 0) + length l.reports

Progress-steps_left : {k m : Link} → Progress k m → suc (steps_left m) ≡ steps_left k
Progress-steps_left (begin status c reports) = omega (arith, length-append reports (true ∷ []))
Progress-steps_left (finish status c reports) = omega (arith, length-append reports (false ∷ []))
Progress-steps_left (deliver status c r begins reports) = omega arith

delivered : ExecutorStatus → List Bool → ExecutorStatus
delivered status [] = status
delivered status (b ∷ bs) = delivered (after_report b status) bs

delivered_free :
    (status : ExecutorStatus) (reports : List Bool)
    → is_free (delivered status (reports ++ false ∷ [])) ≡ true
unfolding delivered after_report released
delivered_free ExecutorStatus.empty [] = refl
delivered_free available [] = refl
delivered_free await [] = refl
delivered_free busy [] = refl
delivered_free status (b ∷ bs) = delivered_free (after_report b status) bs

-- Once no call is left, the reports that are under way free the executor.
settles : ExecutorStatus → ℕ → Bool → List Bool → Bool
settles status zero false reports = is_free (delivered status reports)
settles status c r reports = true

abbrev Settles : Link → Type 0
Settles l = settles l.status l.calls l.running l.reports ≡ true

finished_settles :
    (status : ExecutorStatus) (c : ℕ) (reports : List Bool)
    → settles status c false (reports ++ false ∷ []) ≡ true
unfolding settles
finished_settles status zero reports = delivered_free status reports
finished_settles status (suc c) reports = refl

running_settles :
    (status : ExecutorStatus) (c : ℕ) (reports : List Bool) → settles status c true reports ≡ true
unfolding settles
running_settles status zero reports = refl
running_settles status (suc c) reports = refl

delivered_settles :
    (status : ExecutorStatus) (c : ℕ) (r begins : Bool) (reports : List Bool)
    → settles status c r (begins ∷ reports) ≡ true
    → settles (after_report begins status) c r reports ≡ true
unfolding settles delivered
delivered_settles status zero false begins reports h = h
delivered_settles status zero true begins reports h = refl
delivered_settles status (suc c) r begins reports h = refl

Progress-Settles : {k m : Link} → Progress k m → Settles k → Settles m
Progress-Settles (begin status c reports) h = running_settles status c (reports ++ true ∷ [])
Progress-Settles (finish status c reports) h = finished_settles status c reports
Progress-Settles (deliver status c r begins reports) h =
    delivered_settles status c r begins reports h

-- A state goes on, or is at its end.
next_or_free :
    (status : ExecutorStatus) (c : ℕ) (r : Bool) (reports : List Bool)
    → settles status c r reports ≡ true
    → let l : Link = record { status = status; calls = c; running = r; reports = reports } in
      ((m : Link) × Progress l m) ⊎ ((l ≡ idle_link status []) × (is_free status ≡ true))
unfolding settles delivered
next_or_free status c r (b ∷ reports) h = inl (_, deliver status c r b reports)
next_or_free status c true [] h = inl (_, finish status c [])
next_or_free status (suc c) false [] h = inl (_, begin status c [])
next_or_free status zero false [] h = inr (refl, h)

called_settles :
    (status : ExecutorStatus) (c : ℕ) (r : Bool) (reports : List Bool)
    → 0 < c + (if r then 1 else 0)
    → settles status c r reports ≡ true
unfolding settles
called_settles status zero false reports h = absurd (omega arith)
called_settles status zero true reports h = refl
called_settles status (suc c) r reports h = refl

runs-Settle :
    {l m : Link} {n : ℕ}
    → Progresses l n m
    → Settles l
    → (n + steps_left m ≡ steps_left l) × Settles m
runs-Settle none_made h = (omega arith, h)
runs-Settle (one_more run step) h =
    let (count, kept) = runs-Settle run h in
    (omega (arith, count, Progress-steps_left step), Progress-Settles step kept)

-- An executor has a call in its channel or runs one. Whatever the order in which it begins and
-- finishes its calls and the scheduler reads its reports, each step uses up one of the steps that the
-- state had at first, even if the timer never goes off and no call is added; and as long as the
-- executor is not idle with every report read, and free for the scheduler, there is a next step. The
-- functions end.
pub runs_end_free :
    (l m : Link) (n : ℕ)
    → 0 < l.calls + (if l.running then 1 else 0)
    → Progresses l n m
    → (n + steps_left m ≡ steps_left l)
      × (((k : Link) × Progress m k) ⊎ ((m ≡ idle_link m.status []) × (is_free m.status ≡ true)))
runs_end_free l m n some_call run =
    let (count, kept) =
      runs-Settle run (called_settles l.status l.calls l.running l.reports some_call) in
    (count, next_or_free m.status m.calls m.running m.reports kept)

-- schedule_func_call gives a free executor a call.
abbrev pub called : Link → Link
called l = record l { status = await; calls = suc l.calls }

-- All steps: work, and a call for an executor that the scheduler takes for free.
pub data Steps (l : Link) : Link → Type 0 where
  begun : Steps l l
  worked : {k m : Link} → Steps l k → Work k m → Steps l m
  assigned : {k : Link} → Steps l k → is_free k.status ≡ true → Steps l (called k)

-- The timer's report of a free executor, if it is under way while the executor is given a call, makes
-- the scheduler give it a second call.
pub report_overtaken :
    (status : ExecutorStatus) (c : ℕ) (r : Bool) (reports : List Bool)
    → is_free status ≡ true
    → Steps
        (record { status = status; calls = c; running = r; reports = false ∷ reports })
        (record { status = await; calls = suc (suc c); running = r; reports = reports })
unfolding after_report released
report_overtaken status c r reports free =
    assigned (worked (assigned begun free) (progress (deliver await (suc c) r false reports))) refl
