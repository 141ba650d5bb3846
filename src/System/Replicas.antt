-- ===== src/System/Replicas.antt =====
-- The triggers of a bucket stand twice: in bucket_triggers_map of the coordinator
-- (src/coordinator/coordinator.cpp) and in that of a node (src/scheduler/scheduler.cpp). Timed
-- triggers stay with the coordinator.
use spheromone.Prelude.{
  ℕ, suc, zero, ◌<◌, ◌≡◌, refl, subst, Bool, true, false, not, some, List, [], ◌∷◌, ◌++◌, arith,
  nat_eq, ◌==◌, ==_cases, ==_refl, if◌then◌else◌, length, get_elem?, keep, Bool-cases, inl, inr,
}
use spheromone.Text.{Text, text_eq}
use spheromone.HashMap
use spheromone.HashMap.{HashMap, get_or-put}
use spheromone.HashSet
use spheromone.HashSet.{IsDistinct, contains-head, contains-tail}
use spheromone.Trigger.Types.{Trigger}
use spheromone.Trigger.Primitive.{kind_type}
use spheromone.Coordinator.TriggerOp.{is_by_time}
use spheromone.Scheduler.Agreement.{Holds}

abbrev pub is_untimed : Trigger → Bool
is_untimed t = not (is_by_time (kind_type t.kind))

abbrev pub pointers_at : Text → HashMap Text (List ℕ) → List ℕ
pointers_at b m = HashMap.get_or b m []

abbrev pub untimed_at : Text → HashMap Text (List Trigger) → List Trigger
untimed_at b m = keep is_untimed (HashMap.get_or b m [])

-- The pointers of each bucket lead to the coordinator's triggers of the bucket, the timed ones
-- excepted, and no pointer stands twice.
pub record Agree (kept : HashMap Text (List Trigger)) (store : List Trigger)
    (pointers : HashMap Text (List ℕ)) : Type 0 where
  pub same : (b : Text) → Holds store (pointers_at b pointers) (untimed_at b kept)
  pub distinct : (b : Text) → IsDistinct (pointers_at b pointers)
  pub apart :
      (b other : Text) (q : ℕ)
      → (b == other) ≡ false
      → HashSet.contains q (pointers_at b pointers) ≡ true
      → HashSet.contains q (pointers_at other pointers) ≡ false

get_elem?-bound :
    (store : List Trigger) (p : ℕ) (t : Trigger) → get_elem? store p ≡ some t → p < length store
get_elem?-bound [] p t e = cc
get_elem?-bound (x ∷ store) zero t e = omega arith
get_elem?-bound (x ∷ store) (suc p) t e = omega (arith, get_elem?-bound store p t e)

get_elem?-grown :
    (store : List Trigger) (p : ℕ) (t x : Trigger)
    → get_elem? store p ≡ some t
    → get_elem? (store ++ x ∷ []) p ≡ some t
get_elem?-grown [] p t x e = cc
get_elem?-grown (y ∷ store) zero t x e = e
get_elem?-grown (y ∷ store) (suc p) t x e = get_elem?-grown store p t x e

get_elem?-new :
    (store : List Trigger) (x : Trigger) → get_elem? (store ++ x ∷ []) (length store) ≡ some x
get_elem?-new [] x = refl
get_elem?-new (y ∷ store) x = get_elem?-new store x

Holds-bound :
    (store : List Trigger) (ps : List ℕ) (ts : List Trigger) (q : ℕ)
    → Holds store ps ts
    → HashSet.contains q ps ≡ true
    → q < length store
unfolding HashSet.contains
Holds-bound store [] ts q h c = cc
Holds-bound store (p ∷ ps) [] q h c = absurd h
Holds-bound store (p ∷ ps) (t ∷ ts) q h c = elim (==_cases p q) [
  | inl (_, e) ↦ subst (λ k. k < length store) e (get_elem?-bound store p t h.0)
  | inr (e, _) ↦ Holds-bound store ps ts q h.1 (ground arith)
]

-- The pointer of a new trigger is new.
fresh :
    (store : List Trigger) (ps : List ℕ) (ts : List Trigger)
    → Holds store ps ts
    → HashSet.contains (length store) ps ≡ false
fresh store ps ts h = elim (Bool-cases (HashSet.contains (length store) ps)) [
  | inl c ↦ absurd (omega (arith, Holds-bound store ps ts (length store) h c))
  | inr c ↦ c
]

Holds-grown :
    (store : List Trigger) (x : Trigger) (ps : List ℕ) (ts : List Trigger)
    → Holds store ps ts
    → Holds (store ++ x ∷ []) ps ts
Holds-grown store x [] [] h = tt
Holds-grown store x [] (t ∷ ts) h = h
Holds-grown store x (p ∷ ps) [] h = h
Holds-grown store x (p ∷ ps) (t ∷ ts) h =
    (get_elem?-grown store p t x h.0, Holds-grown store x ps ts h.1)

Holds-new :
    (store : List Trigger) (x : Trigger) (ps : List ℕ) (ts : List Trigger)
    → Holds store ps ts
    → Holds (store ++ x ∷ []) (ps ++ length store ∷ []) (ts ++ x ∷ [])
Holds-new store x [] [] h = (get_elem?-new store x, tt)
Holds-new store x [] (t ∷ ts) h = absurd h
Holds-new store x (p ∷ ps) [] h = absurd h
Holds-new store x (p ∷ ps) (t ∷ ts) h =
    (get_elem?-grown store p t x h.0, Holds-new store x ps ts h.1)

contains-snoc :
    (ps : List ℕ) (x q : ℕ)
    → HashSet.contains q (ps ++ x ∷ []) ≡ (if x == q then true else HashSet.contains q ps)
unfolding HashSet.contains
contains-snoc [] x q = refl
contains-snoc (p ∷ ps) x q = ground (arith, contains-snoc ps x q)

IsDistinct-snoc :
    (ps : List ℕ) (x : ℕ)
    → HashSet.contains x ps ≡ false
    → IsDistinct ps
    → IsDistinct (ps ++ x ∷ [])
unfolding HashSet.contains
IsDistinct-snoc [] x c d = (refl, tt)
IsDistinct-snoc (p ∷ ps) x c d =
    (ground (arith, contains-snoc ps x p), IsDistinct-snoc ps x (ground arith) d.1)

keep-snoc :
    (ts : List Trigger) (x : Trigger)
    → keep is_untimed (ts ++ x ∷ [])
      ≡ (if is_untimed x then keep is_untimed ts ++ x ∷ [] else keep is_untimed ts)
keep-snoc [] x = ground arith
keep-snoc (t ∷ ts) x = ground (arith, keep-snoc ts x)

module _ (kept : HashMap Text (List Trigger)) (store : List Trigger)
    (pointers : HashMap Text (List ℕ)) (agree : Agree kept store pointers) (b : Text)
    (x : Trigger) where
  abbrev pub more_kept : HashMap Text (List Trigger)
  more_kept = HashMap.put b (HashMap.get_or b kept [] ++ x ∷ []) kept

  abbrev pub more_pointers : HashMap Text (List ℕ)
  more_pointers = HashMap.put b (pointers_at b pointers ++ length store ∷ []) pointers

  untimed-more :
      (j : Text)
      → untimed_at j more_kept ≡ (
          if b == j
          then keep is_untimed (HashMap.get_or b kept [] ++ x ∷ [])
          else untimed_at j kept)
  untimed-more j = rw (get_or-put b j (HashMap.get_or b kept [] ++ x ∷ []) [] kept) (ground arith)

  pointers-more :
      (j : Text)
      → pointers_at j more_pointers
        ≡ (if b == j then pointers_at b pointers ++ length store ∷ [] else pointers_at j pointers)
  pointers-more j = get_or-put b j (pointers_at b pointers ++ length store ∷ []) [] pointers

  is_fresh : (j : Text) → HashSet.contains (length store) (pointers_at j pointers) ≡ false
  is_fresh j = fresh store (pointers_at j pointers) (untimed_at j kept) (agree.same j)

  -- A timed trigger is the coordinator's alone.
  pub Agree-timed : is_untimed x ≡ false → Agree more_kept store pointers
  Agree-timed e = record {
    same = λ j. elim (==_cases b j) [
      | inl (q, p) ↦
          subst (λ k. Holds store (pointers_at k pointers) (untimed_at k more_kept)) p
            (rw (untimed-more b, ==_refl b, keep-snoc (HashMap.get_or b kept []) x, e)
              (agree.same b))
      | inr (q, p) ↦ rw (untimed-more j, q) (agree.same j)
    ];
    distinct = agree.distinct;
    apart = agree.apart;
  }

  more-apart :
      (j k : Text) (q : ℕ)
      → (j == k) ≡ false
      → HashSet.contains q (pointers_at j more_pointers) ≡ true
      → HashSet.contains q (pointers_at k more_pointers) ≡ false
  more-apart j k q ne c = ground (
    arith,
    c,
    pointers-more j,
    pointers-more k,
    contains-snoc (pointers_at b pointers) (length store) q,
    is_fresh j,
    is_fresh k,
    agree.apart j k q,
    agree.apart b k q,
    agree.apart j b q,
    text_eq.beq_iff b j,
    text_eq.beq_iff j b,
    text_eq.beq_iff b k,
    text_eq.beq_iff j k,
  )

  -- Any other trigger gets the next pointer of the node.
  pub Agree-push : is_untimed x ≡ true → Agree more_kept (store ++ x ∷ []) more_pointers
  Agree-push e = record {
    same = λ j. elim (==_cases b j) [
      | inl (q, p) ↦
          rw (untimed-more j, pointers-more j, q, keep-snoc (HashMap.get_or b kept []) x, e)
            (Holds-new store x (pointers_at b pointers) (untimed_at b kept) (agree.same b))
      | inr (q, p) ↦
          rw (untimed-more j, pointers-more j, q)
            (Holds-grown store x (pointers_at j pointers) (untimed_at j kept) (agree.same j))
    ];
    distinct = λ j. elim (==_cases b j) [
      | inl (q, p) ↦
          rw (pointers-more j, q)
            (IsDistinct-snoc (pointers_at b pointers) (length store) (is_fresh b)
              (agree.distinct b))
      | inr (q, p) ↦ rw (pointers-more j, q) (agree.distinct j)
    ];
    apart = more-apart;
  }
