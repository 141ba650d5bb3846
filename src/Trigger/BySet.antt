-- ===== src/Trigger/BySet.antt =====
-- BySetTrigger (common/include/trigger.hpp): when a session's set of keys is complete.
use spheromone.Prelude.{
  ◌≡◌, refl, ◌∙◌, sym, Bool, true, false, inl, inr, List, [], ◌++◌, map, arith, ◌==◌, if◌then◌else◌,
  length, Bool-cases, ==_cases, subst, nat_eq, nat_beq_iff,
}
use spheromone.Text.{Text, text_eq}
use spheromone.HashMap
use spheromone.HashMap.{get_or-put}
use spheromone.HashSet
use spheromone.HashSet.{
  HashSet, IsDistinct, IsSubset, contains-insert, insert-IsDistinct, subset_full, length-subset,
}
use spheromone.Common.Key.{BucketKey}
use spheromone.Trigger.Types.{TriggerAction, BySetState, StatusCache}
use spheromone.Trigger.Arrival.{single, by_set_arrival}

-- The keys of a session that have come since the trigger last fired for it.
unfoldable pub prepared_keys : BySetState → Text → HashSet Text
prepared_keys s session = HashMap.get_or session s.prepared []

pub record SetInv (s : BySetState) : Type 0 where
  pub distinct : IsDistinct s.key_set
  pub sessions_distinct : (session : Text) → IsDistinct (prepared_keys s session)
  pub sessions_subset : (session : Text) → IsSubset (prepared_keys s session) s.key_set

-- With the object, every key of the set has come.
abbrev pub Completes : BySetState → BucketKey → Type 0
Completes s b =
    (k : Text)
    → HashSet.contains k s.key_set ≡ true
    → (if b.key == k then true else HashSet.contains k (prepared_keys s b.session)) ≡ true

-- The keys of a session after an object that completes nothing.
abbrev grown : BySetState → BucketKey → HashSet Text
grown s b = HashSet.insert b.key (prepared_keys s b.session)

get_or-erase :
    (k j : Text) (m : HashMap.HashMap Text (HashSet Text))
    → HashMap.get_or j (HashMap.erase k m) [] ≡ (if k == j then [] else HashMap.get_or j m [])
unfolding HashMap.get_or
get_or-erase k j m = ground (arith, HashMap.find-erase k j m)

module _ (s : BySetState) (b : BucketKey) (v : SetInv s)
    (member : HashSet.contains b.key s.key_set ≡ true) where
  grown-IsDistinct : IsDistinct (grown s b)
  grown-IsDistinct =
      insert-IsDistinct b.key (prepared_keys s b.session) (v.sessions_distinct b.session)

  grown-IsSubset : IsSubset (grown s b) s.key_set
  grown-IsSubset k h = elim (==_cases b.key k) [
    | inl p ↦ subst (λ (x : Text). HashSet.contains x s.key_set ≡ true) p.1 member
    | inr p ↦
        v.sessions_subset b.session k
          (rw p.0 at (sym (contains-insert b.key k (prepared_keys s b.session)) ∙ h))
  ]

  -- Equal sizes mean that the session is complete, and the other way round.
  size_complete : (length (grown s b) == length s.key_set) ≡ true → Completes s b
  size_complete h k c =
      sym (contains-insert b.key k (prepared_keys s b.session))
      ∙ subset_full (grown s b) s.key_set grown-IsDistinct grown-IsSubset
          ((nat_beq_iff (length (grown s b)) (length s.key_set)).0 h) k c

  complete_size : Completes s b → (length (grown s b) == length s.key_set) ≡ true
  complete_size h =
      let up = length-subset (grown s b) s.key_set grown-IsDistinct grown-IsSubset in
      let down =
        length-subset s.key_set (grown s b) v.distinct
          (λ k c. contains-insert b.key k (prepared_keys s b.session) ∙ h k c) in
      (nat_beq_iff (length (grown s b)) (length s.key_set)).1 (omega arith)

prepared_put :
    (s : BySetState) (b : BucketKey) (cache : StatusCache) (keys : HashSet Text) (j : Text)
    → prepared_keys
        (record s { prepared = HashMap.put b.session keys s.prepared; set_cache = cache })
        j
      ≡ (if b.session == j then keys else prepared_keys s j)
unfolding prepared_keys
prepared_put s b cache keys j = get_or-put b.session j keys [] s.prepared

prepared_erase :
    (s : BySetState) (b : BucketKey) (cache : StatusCache) (j : Text)
    → prepared_keys
        (record s { prepared = HashMap.erase b.session s.prepared; set_cache = cache })
        j
      ≡ (if b.session == j then [] else prepared_keys s j)
unfolding prepared_keys
prepared_erase s b cache j = get_or-erase b.session j s.prepared

-- The sessions of `t` are those of `s` but for one, whose keys are now `keys`.
abbrev pub Updates : BySetState → Text → HashSet Text → BySetState → Type 0
Updates s session keys t =
    (t.key_set ≡ s.key_set)
    × ((j : Text) → prepared_keys t j ≡ (if session == j then keys else prepared_keys s j))

no_key : (k : Text) (t : HashSet Text) → HashSet.contains k [] ≡ true → HashSet.contains k t ≡ true
unfolding HashSet.contains
no_key k t h = cc

if-elim :
    (P : HashSet Text → Type 0) (c : Bool) (x y : HashSet Text) → P x → P y → P (if c then x else y)
if-elim P true x y p q = p
if-elim P false x y p q = q

Updates-SetInv :
    (s t : BySetState) (session : Text) (keys : HashSet Text)
    → SetInv s
    → IsDistinct keys
    → IsSubset keys s.key_set
    → Updates s session keys t
    → SetInv t
Updates-SetInv s t session keys v d u (e, g) = record {
  distinct = rw e v.distinct;
  sessions_distinct =
      λ j. rw (g j) (if-elim IsDistinct (session == j) keys _ d (v.sessions_distinct j));
  sessions_subset = λ j.
      rw (g j, e)
        (if-elim (λ x. IsSubset x s.key_set) (session == j) keys _ u (v.sessions_subset j));
}

-- What an object whose key is in the set does, on sets of keys: either it completes its session,
-- then the target is called with every key of the set and the session starts over; or it does not,
-- then nothing is called and the session gains the key.
pub data SetStep (f : Text) (s : BySetState) (b : BucketKey) (r : List TriggerAction × BySetState)
    : Type 0 where
  fires :
      Completes s b
      → r.0 ≡ single f (map (λ key. (b.session, key)) s.key_set)
      → Updates s b.session [] r.1
      → SetStep f s b r
  waits : ¬ Completes s b → r.0 ≡ [] → Updates s b.session (grown s b) r.1 → SetStep f s b r

abbrev fired : BySetState → BucketKey → BySetState
fired s b = record s {
  prepared = HashMap.erase b.session s.prepared;
  set_cache = HashMap.erase (b.key ++ b.session) s.set_cache;
}

abbrev waiting : BySetState → BucketKey → BySetState
waiting s b = record s {
  prepared = HashMap.put b.session (grown s b) s.prepared;
  set_cache = HashMap.erase (b.key ++ b.session) s.set_cache;
}

module _ (f : Text) (s : BySetState) (b : BucketKey)
    (member : HashSet.contains b.key s.key_set ≡ true) where
  arrival_full :
      (length (grown s b) == length s.key_set) ≡ true
      → by_set_arrival f s b ≡ (single f (map (λ key. (b.session, key)) s.key_set), fired s b)
  unfolding by_set_arrival prepared_keys
  arrival_full h = rw (member, h) refl

  arrival_part :
      (length (grown s b) == length s.key_set) ≡ false → by_set_arrival f s b ≡ ([], waiting s b)
  unfolding by_set_arrival prepared_keys
  arrival_part h = rw (member, h) refl

-- In a state that is well formed, an object whose key is in the set makes the trigger fire exactly
-- if with it every key of the set has come for its session. No other session is touched, and the
-- state stays well formed.
pub by_set_arrival-SetStep :
    (f : Text) (s : BySetState) (b : BucketKey)
    → SetInv s
    → HashSet.contains b.key s.key_set ≡ true
    → SetStep f s b (by_set_arrival f s b) × SetInv (by_set_arrival f s b).1
by_set_arrival-SetStep f s b v member = elim (Bool-cases (length (grown s b) == length s.key_set)) [
  | inl full ↦
      let u : Updates s b.session [] (fired s b) =
        (refl, prepared_erase s b (HashMap.erase (b.key ++ b.session) s.set_cache)) in
      rw (arrival_full f s b member full) (
        fires (size_complete s b v member full) refl u,
        Updates-SetInv s (fired s b) b.session [] v tt (λ k h. no_key k s.key_set h) u,
      )
  | inr part ↦
      let u : Updates s b.session (grown s b) (waiting s b) =
        (refl, prepared_put s b (HashMap.erase (b.key ++ b.session) s.set_cache) (grown s b)) in
      rw (arrival_part f s b member part) (
        waits (λ c. cc (complete_size s b v member c)) refl u,
        Updates-SetInv s (waiting s b) b.session (grown s b) v (grown-IsDistinct s b v member)
            (grown-IsSubset s b v member) u,
      )
]

-- An object whose key is not in the set changes nothing.
pub by_set_arrival_other :
    (f : Text) (s : BySetState) (b : BucketKey)
    → HashSet.contains b.key s.key_set ≡ false
    → by_set_arrival f s b ≡ ([], s)
unfolding by_set_arrival
by_set_arrival_other f s b h = rw h refl
