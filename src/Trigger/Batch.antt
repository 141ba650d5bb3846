-- ===== src/Trigger/Batch.antt =====
-- ByBatchSizeTrigger and ByTimeTrigger (common/include/trigger.hpp): what a sequence of objects
-- makes them do.
use spheromone.Prelude.{
  leb, if◌then◌else◌, ◌-◌, ◌*◌, ℕ, ◌≤◌, ◌<◌, ◌≡◌, refl, sym, ap, ◌∙◌, List, [], ◌∷◌, ◌++◌, map,
  append-nil, append_assoc, arith, length, length-append, All, All-append,
}
use spheromone.Prelude.Int.{pos}
use spheromone.Text.{Text}
use spheromone.Common.Key.{BucketKey}
use spheromone.Trigger.Types.{TriggerAction, ByBatchState, ByTimeState}
use spheromone.Trigger.Arrival.{session_key, single, by_batch_arrival, by_time_arrival}

-- All (session, key) pairs of a list of actions, in order.
unfoldable pub handed_out : List TriggerAction → List (Text × Text)
handed_out [] = []
handed_out (a ∷ rest) = a.session_keys ++ handed_out rest

pub handed_out-append :
    (xs bs : List TriggerAction) → handed_out (xs ++ bs) ≡ handed_out xs ++ handed_out bs
unfolding handed_out
handed_out-append [] bs = refl
handed_out-append (a ∷ rest) bs = rw (handed_out-append rest bs, append_assoc) refl

-- The objects one after the other: all actions, and the state at the end.
unfoldable pub batch_run : Text → ByBatchState → List BucketKey → List TriggerAction × ByBatchState
batch_run f s [] = ([], s)
batch_run f s (b ∷ bs) =
    let (actions, s') = by_batch_arrival f s b in
    let (rest, last) = batch_run f s' bs in (actions ++ rest, last)

unfoldable pub time_run :
    Text → ByTimeState → List (BucketKey × ℕ) → List TriggerAction × ByTimeState
time_run f s [] = ([], s)
time_run f s ((b, now) ∷ bs) =
    let (actions, s') = by_time_arrival f s b now in
    let (rest, last) = time_run f s' bs in (actions ++ rest, last)

-- One object: what goes out and what stays is what was there and the object.
batch_arrival_keeps :
    (f : Text) (s : ByBatchState) (b : BucketKey)
    → handed_out (by_batch_arrival f s b).0 ++ (by_batch_arrival f s b).1.batch_buffer
      ≡ s.batch_buffer ++ session_key b ∷ []
unfolding by_batch_arrival handed_out
batch_arrival_keeps f s b = ground (arith, append-nil (s.batch_buffer ++ session_key b ∷ []))

abbrev pub IsBatch : ℕ → Text → TriggerAction → Type 0
IsBatch n f a = (a.function ≡ f) × (length a.session_keys ≡ n)

regroup :
    (out rest held held' held'' more : List (Text × Text)) (x : Text × Text)
    → out ++ held' ≡ held ++ x ∷ []
    → rest ++ held'' ≡ held' ++ more
    → (out ++ rest) ++ held'' ≡ held ++ x ∷ more
regroup out rest held held' held'' more x p q =
    append_assoc out rest held''
    ∙ ap (λ t. out ++ t) q
    ∙ sym (append_assoc out held' more)
    ∙ ap (λ t. t ++ more) p
    ∙ append_assoc held (x ∷ []) more

by_batch_arrival-IsBatch :
    (n : ℕ) (f : Text) (s : ByBatchState) (b : BucketKey)
    → s.count ≡ pos n
    → length s.batch_buffer < n
    → All (IsBatch n f) (by_batch_arrival f s b).0
      × (length (by_batch_arrival f s b).1.batch_buffer < n)
      × ((by_batch_arrival f s b).1.count ≡ pos n)
unfolding by_batch_arrival
by_batch_arrival-IsBatch n f s b e l =
    ground (arith, length-append s.batch_buffer (session_key b ∷ []))

-- A trigger of batch size n that holds fewer than n objects, fed any sequence of objects: every
-- action calls the target with exactly n objects, fewer than n are held at the end, and the objects
-- in the actions followed by those held are all objects in the order in which they came.
pub batch_run_complete :
    (n : ℕ) (f : Text) (s : ByBatchState) (bs : List BucketKey)
    → s.count ≡ pos n
    → length s.batch_buffer < n
    → All (IsBatch n f) (batch_run f s bs).0
      × (length (batch_run f s bs).1.batch_buffer < n)
      × (handed_out (batch_run f s bs).0 ++ (batch_run f s bs).1.batch_buffer
          ≡ s.batch_buffer ++ map session_key bs)
unfolding batch_run handed_out
batch_run_complete n f s [] e l = (tt, l, sym (append-nil s.batch_buffer))
batch_run_complete n f s (b ∷ bs) e l =
    let (actions, s') = by_batch_arrival f s b in
    let here = by_batch_arrival-IsBatch n f s b e l in
    let rest = batch_run_complete n f s' bs here.2 here.1 in
    (
      All-append (IsBatch n f) actions (batch_run f s' bs).0 here.0 rest.0,
      rest.1,
      rw (handed_out-append actions (batch_run f s' bs).0) (
          regroup (handed_out actions) (handed_out (batch_run f s' bs).0) s.batch_buffer
            s'.batch_buffer (batch_run f s' bs).1.batch_buffer (map session_key bs) (session_key b)
            (batch_arrival_keeps f s b) rest.2),
    )

time_arrival_keeps :
    (f : Text) (s : ByTimeState) (b : BucketKey) (now : ℕ)
    → handed_out (by_time_arrival f s b now).0 ++ (by_time_arrival f s b now).1.window_buffer
      ≡ s.window_buffer ++ session_key b ∷ []
unfolding by_time_arrival handed_out
time_arrival_keeps f s b now = ground (arith, append-nil (s.window_buffer ++ session_key b ∷ []))

-- A timed trigger, fed any sequence of objects at any clock readings: the objects in its actions
-- followed by those that it still holds are all objects in the order in which they came, so none
-- is lost and none is handed out twice.
pub time_run_complete :
    (f : Text) (s : ByTimeState) (bs : List (BucketKey × ℕ))
    → handed_out (time_run f s bs).0 ++ (time_run f s bs).1.window_buffer
      ≡ s.window_buffer ++ map (λ x. session_key x.0) bs
unfolding time_run handed_out
time_run_complete f s [] = sym (append-nil s.window_buffer)
time_run_complete f s ((b, now) ∷ bs) =
    let (actions, s') = by_time_arrival f s b now in
    rw (handed_out-append actions (time_run f s' bs).0) (
      regroup (handed_out actions) (handed_out (time_run f s' bs).0) s.window_buffer
        s'.window_buffer (time_run f s' bs).1.window_buffer (map (λ x. session_key x.0) bs)
        (session_key b) (time_arrival_keeps f s b now) (time_run_complete f s' bs))

-- With a clock that does not go back, an object makes the trigger fire exactly if whole
-- milliseconds of the window's length have passed since the last firing; then the action has
-- everything held and the window starts at the clock reading. Otherwise it stays as it is but for
-- the object.
pub time_arrival_fires :
    (f : Text) (s : ByTimeState) (b : BucketKey) (now : ℕ)
    → s.last_stamp ≤ now
    → by_time_arrival f s b now ≡ (
        if leb (s.time_window * 1000000) (now - s.last_stamp)
        then (
          single f (s.window_buffer ++ session_key b ∷ []),
          record s { window_buffer = []; last_stamp = now },
        )
        else ([], record s { window_buffer = s.window_buffer ++ session_key b ∷ [] }))
unfolding by_time_arrival
time_arrival_fires f s b now h = ground arith
