-- ===== src/Scheduler/RerunQueue.antt =====
-- The rerun queue of src/scheduler/scheduler.cpp: which of its items are due.
use spheromone.Prelude.{
  ℕ, suc, ◌+◌, ◌<◌, ◌≤◌, ◌≡◌, refl, ◌∙◌, Bool, true, false, List, [], ◌∷◌, arith, nat_eq,
  if◌then◌else◌, leb, length,
}
use spheromone.Text.{text_eq}
use spheromone.Scheduler.State.{RerunCheckQueueItem}
use spheromone.Scheduler.Dispatch.{push_rerun}

abbrev pub Queue : Type 0
Queue = List RerunCheckQueueItem

-- The items whose time has come.
unfoldable pub due : ℕ → Queue → ℕ
due report_end [] = 0
due report_end (x ∷ q) = (if leb x.check_time report_end then 1 else 0) + due report_end q

pub due_le_length : (report_end : ℕ) (q : Queue) → due report_end q ≤ length q
unfolding due
due_le_length report_end [] = omega arith
due_le_length report_end (x ∷ q) = ground (arith, due_le_length report_end q)

-- The second queue has more items than the first, which are not due.
pub data Later (report_end : ℕ) (q : Queue) : Queue → Type 0 where
  same : Later report_end q q
  pushed :
      {q' : Queue} (x : RerunCheckQueueItem)
      → report_end < x.check_time
      → Later report_end q q'
      → Later report_end q (push_rerun x q')

pub Later-trans : {e : ℕ} {p q r : Queue} → Later e p q → Later e q r → Later e p r
Later-trans a same = a
Later-trans a (pushed x h b) = pushed x h (Later-trans a b)

due-push :
    (e : ℕ) (x : RerunCheckQueueItem) (q : Queue)
    → e < x.check_time
    → due e (push_rerun x q) ≡ due e q
unfolding due push_rerun
due-push e x [] h = ground arith
due-push e x (y ∷ q) h = ground (arith, due-push e x q)

-- The first item stays where it is if it is due.
abbrev pub pop : Queue → Queue
pop q = elim q [ [] ↦ [] | x ∷ rest ↦ rest ]

unfoldable pub first_due : ℕ → Queue → Bool
first_due e [] = false
first_due e (x ∷ q) = leb x.check_time e

first-push :
    (e : ℕ) (x : RerunCheckQueueItem) (q : Queue)
    → e < x.check_time
    → first_due e q ≡ true
    → first_due e (push_rerun x q) ≡ true
unfolding first_due push_rerun
first-push e x [] h f = absurd (ground arith)
first-push e x (y ∷ q) h f = ground arith

pub Later-first :
    {e : ℕ} {p q : Queue}
    → Later e p q
    → first_due e p ≡ true
    → (first_due e q ≡ true) × (due e q ≡ due e p)
Later-first same f = (f, refl)
Later-first {e} {p} (pushed {q'} x h l) f =
    let (g, d) = Later-first l f in (first-push e x q' h g, due-push e x q' h ∙ d)

pub due-pop : (e : ℕ) (q : Queue) → first_due e q ≡ true → suc (due e (pop q)) ≡ due e q
unfolding due first_due
due-pop e [] f = cc
due-pop e (x ∷ q) f = ground arith
