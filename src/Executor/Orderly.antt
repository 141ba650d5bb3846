-- ===== src/Executor/Orderly.antt =====
-- Steps of an executor and the local scheduler that do not overtake each other:
-- src/executor/executor.cpp and src/scheduler/scheduler.cpp.
use spheromone.Prelude.{
  ℕ, zero, suc, ◌+◌, ◌≤◌, ◌≡◌, refl, Bool, true, false, List, [], ◌∷◌, ◌++◌, arith, nat_eq,
  if◌then◌else◌,
}
use spheromone.Scheduler.State.{ExecutorStatus, available, await, busy}
use spheromone.Scheduler.Dispatch.{is_free}
use spheromone.Executor.Lifecycle.{Link, idle_link, after_report}

-- A timer that goes off while a call is in the channel, or a call that is scheduled while a report is
-- under way, is what these steps leave out.
pub data Orderly : Link → Link → Type 0 where
  schedule :
      (status : ExecutorStatus) (c : ℕ) (r : Bool)
      → is_free status ≡ true
      → Orderly
          (record { status = status; calls = c; running = r; reports = [] })
          (record { status = await; calls = suc c; running = r; reports = [] })
  orderly_begin :
      (status : ExecutorStatus) (c : ℕ) (reports : List Bool)
      → Orderly
          (record { status = status; calls = suc c; running = false; reports = reports })
          (record { status = status; calls = c; running = true; reports = reports ++ true ∷ [] })
  orderly_finish :
      (status : ExecutorStatus) (c : ℕ) (reports : List Bool)
      → Orderly
          (record { status = status; calls = c; running = true; reports = reports })
          (record { status = status; calls = c; running = false; reports = reports ++ false ∷ [] })
  orderly_deliver :
      (status : ExecutorStatus) (c : ℕ) (r begins : Bool) (reports : List Bool)
      → Orderly
          (record { status = status; calls = c; running = r; reports = begins ∷ reports })
          (record {
            status = after_report begins status;
            calls = c;
            running = r;
            reports = reports;
          })
  orderly_timer :
      (status : ExecutorStatus) (reports : List Bool)
      → Orderly (idle_link status reports) (idle_link status (reports ++ false ∷ []))

pub data OrderlyRun (l : Link) : Link → Type 0 where
  start : OrderlyRun l l
  then_step : {k m : Link} → OrderlyRun l k → Orderly k m → OrderlyRun l m

-- Idle; called; a report that the call begins; running.
in_phase : ExecutorStatus → ℕ → Bool → List Bool → Bool
in_phase status zero false reports = true
in_phase await (suc zero) false [] = true
in_phase await zero true (true ∷ []) = true
in_phase busy zero true [] = true
in_phase _ _ _ _ = false

abbrev InPhase : Link → Type 0
InPhase l = in_phase l.status l.calls l.running l.reports ≡ true

unfoldable pub outstanding : Link → ℕ
outstanding l = l.calls + (if l.running then 1 else 0)

call_phase :
    (status : ExecutorStatus) (c : ℕ) (r : Bool)
    → is_free status ≡ true
    → in_phase status c r [] ≡ true
    → in_phase await (suc c) r [] ≡ true
unfolding in_phase
call_phase status zero false f h = refl
call_phase await zero true f h = f
call_phase busy zero true f h = f
call_phase ExecutorStatus.empty zero true f h = h
call_phase available zero true f h = h
call_phase await (suc c) r f h = absurd (ground arith)
call_phase busy (suc c) r f h = absurd (ground arith)
call_phase ExecutorStatus.empty (suc c) r f h = absurd (ground arith)
call_phase available (suc c) r f h = absurd (ground arith)

begin_phase :
    (status : ExecutorStatus) (c : ℕ) (reports : List Bool)
    → in_phase status (suc c) false reports ≡ true
    → in_phase status c true (reports ++ true ∷ []) ≡ true
unfolding in_phase
begin_phase await zero [] h = refl
begin_phase await zero (b ∷ bs) h = absurd (ground arith)
begin_phase await (suc c) reports h = absurd (ground arith)
begin_phase busy c reports h = absurd (ground arith)
begin_phase ExecutorStatus.empty c reports h = absurd (ground arith)
begin_phase available c reports h = absurd (ground arith)

finish_phase :
    (status : ExecutorStatus) (c : ℕ) (reports : List Bool)
    → in_phase status c true reports ≡ true
    → in_phase status c false (reports ++ false ∷ []) ≡ true
unfolding in_phase
finish_phase status zero reports h = refl
finish_phase await (suc c) reports h = absurd (ground arith)
finish_phase busy (suc c) reports h = absurd (ground arith)
finish_phase ExecutorStatus.empty (suc c) reports h = absurd (ground arith)
finish_phase available (suc c) reports h = absurd (ground arith)

deliver_phase :
    (status : ExecutorStatus) (c : ℕ) (r begins : Bool) (reports : List Bool)
    → in_phase status c r (begins ∷ reports) ≡ true
    → in_phase (after_report begins status) c r reports ≡ true
unfolding in_phase after_report
deliver_phase status zero false begins reports h = refl
deliver_phase await zero true true [] h = refl
deliver_phase status c r begins reports h = absurd (ground arith)

Orderly-InPhase : {l m : Link} → Orderly l m → InPhase l → InPhase m
unfolding in_phase
Orderly-InPhase (schedule status c r f) h = call_phase status c r f h
Orderly-InPhase (orderly_begin status c reports) h = begin_phase status c reports h
Orderly-InPhase (orderly_finish status c reports) h = finish_phase status c reports h
Orderly-InPhase (orderly_deliver status c r begins reports) h =
    deliver_phase status c r begins reports h
Orderly-InPhase (orderly_timer status reports) h = refl

run-InPhase : {l m : Link} → OrderlyRun l m → InPhase l → InPhase m
run-InPhase start h = h
run-InPhase (then_step r s) h = Orderly-InPhase s (run-InPhase r h)

phase_one :
    (status : ExecutorStatus) (c : ℕ) (r : Bool) (reports : List Bool)
    → in_phase status c r reports ≡ true
    → c + (if r then 1 else 0) ≤ 1
unfolding in_phase
phase_one status zero r reports h = ground arith
phase_one status (suc zero) false reports h = omega arith
phase_one status (suc zero) true reports h = absurd (ground arith)
phase_one status (suc (suc c)) r reports h = absurd (ground arith)

-- From an idle executor, whatever reports are under way, orderly steps lead to at most one call that
-- is sent or runs.
pub at_most_one_call :
    (status : ExecutorStatus) (reports : List Bool) (l : Link)
    → OrderlyRun (idle_link status reports) l
    → outstanding l ≤ 1
unfolding outstanding in_phase
at_most_one_call status reports l run =
    phase_one l.status l.calls l.running l.reports (run-InPhase run refl)
