-- ===== src/Trigger/Redundant.antt =====
-- RedundantTrigger (common/include/trigger.hpp), the k-out-of-n trigger: its rounds.
use spheromone.Prelude.{
  ℕ, ◌+◌, ◌≤◌, ◌<◌, ◌^◌, ◌≡◌, refl, ◌∙◌, List, [], ◌∷◌, ◌++◌, map, append_assoc, arith, length,
}
use spheromone.Text.{Text}
use spheromone.Common.Key.{BucketKey}
use spheromone.Trigger.Types.{TriggerAction, RedundantState}
use spheromone.Trigger.Arrival.{session_key, single, redundant_arrival}

-- The objects one after the other: all actions, and the state at the end.
unfoldable pub redundant_run :
    Text → RedundantState → List BucketKey → List TriggerAction × RedundantState
redundant_run f s [] = ([], s)
redundant_run f s (b ∷ bs) =
    let (actions, s') = redundant_arrival f s b in
    let (rest, last) = redundant_run f s' bs in (actions ++ rest, last)

-- A trigger that has counted `seen` objects.
abbrev pub counting : ℕ → ℕ → ℕ → List (Text × Text) → RedundantState
counting k n seen held = record { k = k; n = n; seen = seen; first_k = held }

run-append :
    (f : Text) (s : RedundantState) (xs ys : List BucketKey)
    → redundant_run f s (xs ++ ys) ≡ (
      (redundant_run f s xs).0 ++ (redundant_run f (redundant_run f s xs).1 ys).0,
      (redundant_run f (redundant_run f s xs).1 ys).1,
    )
unfolding redundant_run
run-append f s [] ys = refl
run-append f s (x ∷ xs) ys =
    let (actions, s') = redundant_arrival f s x in
    rw (run-append f s' xs ys) (rw (append_assoc actions (redundant_run f s' xs).0) refl)

module _ (f : Text) (k n : ℕ) where
  arrival_held :
      (i : ℕ) (held : List (Text × Text)) (b : BucketKey)
      → i + 1 < k
      → k < 2 ^ 32
      → redundant_arrival f (counting k n i held) b
        ≡ ([], counting k n (i + 1) (held ++ session_key b ∷ []))
  unfolding redundant_arrival
  arrival_held i held b h l = ground arith

  arrival_fires :
      (i : ℕ) (held : List (Text × Text)) (b : BucketKey)
      → i + 1 ≡ k
      → k < 2 ^ 32
      → redundant_arrival f (counting k n i held) b
        ≡ (single f (held ++ session_key b ∷ []), counting k n k [])
  unfolding redundant_arrival
  arrival_fires i held b h l = ground arith

  arrival_dropped :
      (i : ℕ) (b : BucketKey)
      → k ≤ i
      → i + 1 < n
      → n < 2 ^ 32
      → redundant_arrival f (counting k n i []) b ≡ ([], counting k n (i + 1) [])
  unfolding redundant_arrival
  arrival_dropped i b h e l = ground arith

  arrival_refreshes :
      (i : ℕ) (b : BucketKey)
      → k ≤ i
      → n ≤ i + 1
      → i + 1 < 2 ^ 32
      → redundant_arrival f (counting k n i []) b ≡ ([], counting k n 0 [])
  unfolding redundant_arrival
  arrival_refreshes i b h e l = ground arith

  -- The first k objects are held until the k-th fires.
  collect :
      (i : ℕ) (held : List (Text × Text)) (x : BucketKey) (xs : List BucketKey)
      → i + length (x ∷ xs) ≡ k
      → k < 2 ^ 32
      → redundant_run f (counting k n i held) (x ∷ xs)
        ≡ (single f (held ++ map session_key (x ∷ xs)), counting k n k [])
  unfolding redundant_run
  collect i held x [] h l = rw (arrival_fires i held x (omega arith) l) refl
  collect i held x (y ∷ xs) h l = rw (arrival_held i held x (omega arith) l) (
      collect (i + 1) (held ++ session_key x ∷ []) y xs (omega arith) l
      ∙ rw (append_assoc held (session_key x ∷ []) (map session_key (y ∷ xs))) refl)

  -- The objects up to the n-th are dropped, and the n-th starts over.
  skip :
      (i : ℕ) (z : BucketKey) (zs : List BucketKey)
      → k ≤ i
      → i + length (z ∷ zs) ≡ n
      → n < 2 ^ 32
      → redundant_run f (counting k n i []) (z ∷ zs) ≡ ([], counting k n 0 [])
  unfolding redundant_run
  skip i z [] h e l = rw (arrival_refreshes i z h (omega arith) (omega arith)) refl
  skip i z (y ∷ zs) h e l =
      rw (arrival_dropped i z h (omega arith) l) (skip (i + 1) y zs (omega arith) (omega arith) l)

  -- For 0 < k < n: n objects from the start of a round make the trigger fire exactly once, with
  -- the first k of them in order, and bring it back to the start of a round.
  pub redundant_round :
      (x : BucketKey) (xs : List BucketKey) (z : BucketKey) (zs : List BucketKey)
      → length (x ∷ xs) ≡ k
      → k + length (z ∷ zs) ≡ n
      → n < 2 ^ 32
      → redundant_run f (counting k n 0 []) (x ∷ xs ++ z ∷ zs)
        ≡ (single f (map session_key (x ∷ xs)), counting k n 0 [])
  redundant_round x xs z zs h e l =
      run-append f (counting k n 0 []) (x ∷ xs) (z ∷ zs)
      ∙ rw (collect 0 [] x xs (omega arith) (omega arith), skip k z zs (omega arith) e l) refl

  drop_one :
      (z : BucketKey)
      → n ≤ k
      → k + 1 < 2 ^ 32
      → redundant_run f (counting k n k []) (z ∷ []) ≡ ([], counting k n 0 [])
  unfolding redundant_run
  drop_one z e l = rw (arrival_refreshes k z (omega arith) (omega arith) l) refl

  -- For 0 < k and n ≤ k, k out of k objects among them, a round takes k + 1 objects: the first k
  -- fire, and the one after them is dropped and starts no new round.
  pub redundant_round_full :
      (x : BucketKey) (xs : List BucketKey) (z : BucketKey)
      → length (x ∷ xs) ≡ k
      → n ≤ k
      → k + 1 < 2 ^ 32
      → redundant_run f (counting k n 0 []) (x ∷ xs ++ z ∷ [])
        ≡ (single f (map session_key (x ∷ xs)), counting k n 0 [])
  redundant_round_full x xs z h e l =
      run-append f (counting k n 0 []) (x ∷ xs) (z ∷ [])
      ∙ rw (collect 0 [] x xs (omega arith) (omega arith), drop_one z e l) refl
