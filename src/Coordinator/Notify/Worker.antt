-- ===== src/Coordinator/Notify/Worker.antt =====
-- The node that a data-driven call goes to (src/coordinator/notify_handler.cpp, 150-180).
use spheromone.Prelude.{
  ℕ, ◌<◌, ◌≤◌, ◌≡◌, refl, Bool-cases, inl, inr, ◌⊎◌, true, false, List, [], ◌∷◌, arith, nat_eq, ◌∙◌,
  ap, sym, ==_cases, subst, map, false≢true,
}
use spheromone.Prelude.Int.{pos, pos_part, neg_part, ltb_ℤ}
use spheromone.Text.{Text, text_eq, empty}
use spheromone.HashMap
use spheromone.HashMap.{HashMap, get_or-touch}
use spheromone.HashSet
use spheromone.HashSet.{HashSet, contains-head, contains-tail}
use spheromone.Coordinator.State.{NodeStatus, no_status}
use spheromone.Coordinator.Notify.Pick.{Pick, better, pick_near, pick_any, pick_worker}
use spheromone.Coordinator.Notify.Slots.{
  IsValid, Entries, Entries-self, get_or-some, pick_near-IsPick,
}

-- The free executors of a node; a node that is not known has none.
abbrev pub free : HashMap Text NodeStatus → Text → ℕ
free nodes ip = pos_part (HashMap.get_or ip nodes no_status).avail_executors

-- The pick after some candidates: none of them has more free executors, and it is one of them if it
-- is not the pick before.
record Improves (nodes : HashMap Text NodeStatus) (ips : List Text) (old new : Pick) : Type 0 where
  not_negative : neg_part new.1 ≡ 0
  not_less : pos_part old.1 ≤ pos_part new.1
  none_more : (ip : Text) → HashSet.contains ip ips ≡ true → free nodes ip ≤ pos_part new.1
  origin :
      (new ≡ old)
      ⊎ ((HashSet.contains new.0 ips ≡ true)
          × (free nodes new.0 ≡ pos_part new.1)
          × (pos_part old.1 < pos_part new.1))

module _ (nodes : HashMap Text NodeStatus) (ip : Text) (s : NodeStatus) (ips : List Text)
    (pick new : Pick) (z : neg_part pick.1 ≡ 0) (e : HashMap.get_or ip nodes no_status ≡ s) where
  free-here : free nodes ip ≡ pos_part s.avail_executors
  free-here = rw e refl

  none_more-cons :
      (j : Text)
      → pos_part s.avail_executors ≤ pos_part new.1
      → (HashSet.contains j ips ≡ true → free nodes j ≤ pos_part new.1)
      → HashSet.contains j (ip ∷ ips) ≡ true
      → free nodes j ≤ pos_part new.1
  unfolding HashSet.contains
  none_more-cons j here there c = elim (==_cases ip j) [
    | inl (b, p) ↦ rw (← p) (rw free-here here)
    | inr (b, p) ↦ there (ground (arith, b, c))
  ]

  better-yes : ltb_ℤ pick.1 s.avail_executors ≡ true → better ip s pick ≡ (ip, s.avail_executors)
  better-yes b = rw b refl

  better-no : ltb_ℤ pick.1 s.avail_executors ≡ false → better ip s pick ≡ pick
  better-no b = rw b refl

  -- The node of the front is better.
  Improves-better :
      ltb_ℤ pick.1 s.avail_executors ≡ true
      → Improves nodes ips (ip, s.avail_executors) new
      → Improves nodes (ip ∷ ips) pick new
  Improves-better b h = record {
    not_negative = h.not_negative;
    not_less = ground (arith, b, z, h.not_less);
    none_more = λ j. none_more-cons j h.not_less (h.none_more j);
    origin = elim h.origin [
      | inl same ↦
          inr (rw same (contains-head ip ips), rw same free-here, rw same (ground (arith, b, z)))
      | inr (c, f, l) ↦ inr (contains-tail new.0 ip ips c, f, ground (arith, b, z, l))
    ];
  }

  -- It is not.
  Improves-worse :
      ltb_ℤ pick.1 s.avail_executors ≡ false
      → Improves nodes ips pick new
      → Improves nodes (ip ∷ ips) pick new
  Improves-worse b h = record {
    not_negative = h.not_negative;
    not_less = h.not_less;
    none_more = λ j. none_more-cons j (ground (arith, b, z, h.not_less)) (h.none_more j);
    origin = elim h.origin [
      | inl same ↦ inl same
      | inr (c, f, l) ↦ inr (contains-tail new.0 ip ips c, f, l)
    ];
  }

  Improves-cons : Improves nodes ips (better ip s pick) new → Improves nodes (ip ∷ ips) pick new
  Improves-cons h = elim (Bool-cases (ltb_ℤ pick.1 s.avail_executors)) [
    | inl b ↦ Improves-better b (subst (λ p. Improves nodes ips p new) (better-yes b) h)
    | inr b ↦ Improves-worse b (subst (λ p. Improves nodes ips p new) (better-no b) h)
  ]

Improves-refl :
    (nodes : HashMap Text NodeStatus) (pick : Pick)
    → neg_part pick.1 ≡ 0
    → Improves nodes [] pick pick
unfolding HashSet.contains
Improves-refl nodes pick z = record {
  not_negative = z;
  not_less = omega arith;
  none_more = λ j c. cc;
  origin = inl refl;
}

better-not_negative :
    (ip : Text) (s : NodeStatus) (pick : Pick)
    → neg_part pick.1 ≡ 0
    → neg_part (better ip s pick).1 ≡ 0
better-not_negative ip s pick z = elim (Bool-cases (ltb_ℤ pick.1 s.avail_executors)) [
  | inl b ↦ rw b (ground (arith, z))
  | inr b ↦ rw b z
]

free-touch :
    (nodes : HashMap Text NodeStatus) (ip j : Text)
    → free (HashMap.touch ip nodes no_status) j ≡ free nodes j
free-touch nodes ip j = rw (get_or-touch ip j no_status nodes) refl

Improves-touch :
    (nodes : HashMap Text NodeStatus) (ip : Text) (ips : List Text) (pick new : Pick)
    → Improves (HashMap.touch ip nodes no_status) ips pick new
    → Improves nodes ips pick new
Improves-touch nodes ip ips pick new h = record {
  not_negative = h.not_negative;
  not_less = h.not_less;
  none_more = λ j c. omega (arith, h.none_more j c, free-touch nodes ip j);
  origin = elim h.origin [
    | inl same ↦ inl same
    | inr (c, f, l) ↦ inr (c, sym (free-touch nodes ip new.0) ∙ f, l)
  ];
}

pick_near-Improves :
    (ips : HashSet Text) (nodes : HashMap Text NodeStatus) (pick : Pick)
    → neg_part pick.1 ≡ 0
    → Improves nodes ips pick (pick_near ips nodes pick).0
      × ((j : Text) → free (pick_near ips nodes pick).1 j ≡ free nodes j)
unfolding pick_near
pick_near-Improves [] nodes pick z = (Improves-refl nodes pick z, λ j. refl)
pick_near-Improves (ip ∷ ips) nodes pick z =
    let s = HashMap.get_or ip nodes no_status in
    let (rest, kept) =
      pick_near-Improves ips (HashMap.touch ip nodes no_status) (better ip s pick)
        (better-not_negative ip s pick z) in
    (
      Improves-cons nodes ip s ips pick _ z refl
          (Improves-touch nodes ip ips (better ip s pick) _ rest),
      λ j. kept j ∙ free-touch nodes ip j,
    )

abbrev names : HashMap Text NodeStatus → List Text
names m = map (λ (e : Text × NodeStatus). e.0) m

pick_any-Improves :
    (m nodes : HashMap Text NodeStatus) (pick : Pick)
    → Entries nodes m
    → neg_part pick.1 ≡ 0
    → Improves nodes (names m) pick (pick_any m pick)
unfolding pick_any
pick_any-Improves [] nodes pick e z = Improves-refl nodes pick z
pick_any-Improves ((ip, s) ∷ m) nodes pick e z =
    Improves-cons nodes ip s (names m) pick _ z (get_or-some ip nodes s e.0)
      (pick_any-Improves m nodes (better ip s pick) e.1 (better-not_negative ip s pick z))

-- A name that a map does not have stands for no executor.
free-missing :
    (nodes : HashMap Text NodeStatus) (j : Text)
    → HashSet.contains j (names nodes) ≡ false
    → free nodes j ≡ 0
unfolding HashMap.get_or HashMap.find HashSet.contains
free-missing [] j c = refl
free-missing ((ip, s) ∷ m) j c = ground (arith, free-missing m j)

-- The node of a call: a node near the data with a free executor, and no near one has more; or, if
-- no near node has one, a node with a free executor, and no node has more; or no node has one.
pub data Chosen (nodes : HashMap Text NodeStatus) (near : HashSet Text) (ip : Text) : Type 0 where
  by_data :
      HashSet.contains ip near ≡ true
      → 0 < free nodes ip
      → ((j : Text) → HashSet.contains j near ≡ true → free nodes j ≤ free nodes ip)
      → Chosen nodes near ip
  by_load :
      ((j : Text) → HashSet.contains j near ≡ true → free nodes j ≡ 0)
      → 0 < free nodes ip
      → ((j : Text) → free nodes j ≤ free nodes ip)
      → Chosen nodes near ip
  nowhere : ip ≡ [] → ((j : Text) → free nodes j ≡ 0) → Chosen nodes near ip

empty-eq : (s : Text) → empty s ≡ true → s ≡ []
unfolding empty
empty-eq [] h = refl
empty-eq (c ∷ s) h = cc

abbrev nobody : Pick
nobody = ([], pos 0)

-- The nodes of a map bound all that it has free.
all_bounded :
    (m : HashMap Text NodeStatus) (pick : Pick) (old : Pick)
    → Improves m (names m) old pick
    → (j : Text) → free m j ≤ pos_part pick.1
all_bounded m pick old h j = elim (Bool-cases (HashSet.contains j (names m))) [
  | inl c ↦ h.none_more j c
  | inr c ↦ omega (arith, free-missing m j c)
]

module _ (near : HashSet Text) (nodes m : HashMap Text NodeStatus) (pick : Pick)
    (first : Improves nodes near nobody pick) (kept : (j : Text) → free m j ≡ free nodes j) where
  Chosen-near : empty pick.0 ≡ false → Chosen nodes near pick.0
  Chosen-near e = elim first.origin [
    | inl same ↦
        absurd (false≢true (sym e ∙ ap (λ (p : Pick). empty p.0) same ∙ (unfold empty in refl)))
    | inr (c, f, l) ↦ by_data c (omega arith) (λ j d. omega (arith, first.none_more j d))
  ]

  Chosen-any :
      HashSet.contains [] near ≡ false
      → pick.0 ≡ []
      → IsValid m
      → Chosen nodes near (pick_any m pick).0
  Chosen-any e0 e v =
      let more = pick_any-Improves m m pick (Entries-self m v) first.not_negative in
      let bound = all_bounded m (pick_any m pick) pick more in
      elim first.origin [
        | inr (c, f, l) ↦
            absurd (false≢true (sym e0 ∙ ap (λ (ip : Text). HashSet.contains ip near) (sym e) ∙ c))
        | inl same ↦ elim more.origin [
          | inl stays ↦
              nowhere (ap (λ (p : Pick). p.0) (stays ∙ same)) (λ j.
                omega (arith, bound j, kept j, ap (λ (p : Pick). pos_part p.1) (stays ∙ same)))
          | inr (c, f, l) ↦
              by_load
                (λ j d. omega (arith, first.none_more j d, ap (λ (p : Pick). pos_part p.1) same))
                (omega (arith, kept (pick_any m pick).0))
                (λ j. omega (arith, bound j, kept j, kept (pick_any m pick).0))
        ]
      ]

-- The node that is picked for a call whose data are on the nodes `near` has a free executor. If a
-- node of `near` has one, it is one of these, and none of these has more; if not, no node at all
-- has more. No node is picked only if none has a free executor. The nodes' map has no node twice and
-- no negative number of free executors, and none of `near` has the empty name.
pub pick_worker-Chosen :
    (near : HashSet Text) (nodes : HashMap Text NodeStatus)
    → IsValid nodes
    → HashSet.contains [] near ≡ false
    → Chosen nodes near (pick_worker near nodes).0
unfolding pick_worker
pick_worker-Chosen near nodes v e0 =
    let first = pick_near near nodes nobody in
    let (improves, kept) = pick_near-Improves near nodes nobody refl in
    let (v', _, _) = pick_near-IsPick near nodes nobody v (inl (unfold empty in refl), refl) in
    elim (Bool-cases (empty first.0.0)) [
      | inl e ↦
          let found =
            Chosen-any near nodes first.1 first.0 improves kept e0 (empty-eq first.0.0 e) v' in
          rw e found
      | inr e ↦ rw e (Chosen-near near nodes first.1 first.0 improves kept e)
    ]
