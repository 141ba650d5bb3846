-- ===== src/Coordinator/Notify/Slots.antt =====
-- The free executors in node_status_map, under what notify_handler does with the map
-- (src/coordinator/notify_handler.cpp, 150-199): it picks a node and takes one executor of it.
use spheromone.Prelude.{
  ℕ, ◌+◌, ◌<◌, ◌≡◌, refl, Bool-cases, inl, inr, ◌⊎◌, true, false, none, some, [], ◌∷◌, arith,
  nat_eq, suc, zero, All, ◌∙◌,
}
use spheromone.Prelude.Int.{ℤ, pos, negsuc, pos_part, neg_part, pred_ℤ, ltb_ℤ}
use spheromone.Text.{Text, text_eq, empty}
use spheromone.HashMap
use spheromone.HashMap.{HashMap, find-put}
use spheromone.HashSet.{HashSet}
use spheromone.Coordinator.State.{NodeStatus, no_status}
use spheromone.Coordinator.Notify.Pick.{
  Pick, better, pick_near, pick_any, pick_worker, take_executor,
}

-- No node stands twice, and none has less than no executor.
abbrev pub IsValid : HashMap Text NodeStatus → Type 0
IsValid [] = Unit
IsValid ((ip, s) ∷ m) = (neg_part s.avail_executors ≡ 0) × (HashMap.find ip m ≡ none) × IsValid m

-- All free executors.
unfoldable pub total : HashMap Text NodeStatus → ℕ
total [] = 0
total ((ip, s) ∷ m) = pos_part s.avail_executors + total m

put-IsValid :
    (ip : Text) (s : NodeStatus) (m : HashMap Text NodeStatus)
    → IsValid m
    → neg_part s.avail_executors ≡ 0
    → IsValid (HashMap.put ip s m)
unfolding HashMap.put HashMap.find
put-IsValid ip s [] h p = (p, refl, tt)
put-IsValid ip s ((j, t) ∷ m) h p =
    ground (
      arith,
      put-IsValid ip s m h.2 p,
      find-put ip j s m,
      text_eq.beq_iff j ip,
      text_eq.beq_iff ip j,
    )

total-put :
    (ip : Text) (s old : NodeStatus) (m : HashMap Text NodeStatus)
    → HashMap.find ip m ≡ some old
    → total (HashMap.put ip s m) + pos_part old.avail_executors
      ≡ total m + pos_part s.avail_executors
unfolding total HashMap.put HashMap.find
total-put ip s old [] e = cc
total-put ip s old ((j, t) ∷ m) e = ground (arith, total-put ip s old m)

total-put_new :
    (ip : Text) (s : NodeStatus) (m : HashMap Text NodeStatus)
    → HashMap.find ip m ≡ none
    → total (HashMap.put ip s m) ≡ total m + pos_part s.avail_executors
unfolding total HashMap.put HashMap.find
total-put_new ip s [] e = omega arith
total-put_new ip s ((j, t) ∷ m) e = ground (arith, total-put_new ip s m)

find_valid :
    (ip : Text) (s : NodeStatus) (m : HashMap Text NodeStatus)
    → IsValid m
    → HashMap.find ip m ≡ some s
    → neg_part s.avail_executors ≡ 0
unfolding HashMap.find
find_valid ip s [] h e = cc
find_valid ip s ((j, t) ∷ m) h e = ground (arith, find_valid ip s m h.2)

touch-IsValid :
    (ip : Text) (m : HashMap Text NodeStatus) → IsValid m → IsValid (HashMap.touch ip m no_status)
unfolding HashMap.touch
touch-IsValid ip m h = ground (arith, put-IsValid ip no_status m h refl)

total-touch :
    (ip : Text) (m : HashMap Text NodeStatus) → total (HashMap.touch ip m no_status) ≡ total m
unfolding HashMap.touch
total-touch ip m = ground (arith, total-put_new ip no_status m)

-- A pick is empty or names a node with a free executor.
abbrev pub CanTake : HashMap Text NodeStatus → Text → Type 0
CanTake nodes ip =
    (empty ip ≡ true)
    ⊎ ((s : NodeStatus) × (HashMap.find ip nodes ≡ some s) × (0 < pos_part s.avail_executors))

abbrev pub IsPick : HashMap Text NodeStatus → Pick → Type 0
IsPick nodes pick = CanTake nodes pick.0 × (neg_part pick.1 ≡ 0)

better-IsPick :
    (nodes : HashMap Text NodeStatus) (ip : Text) (s : NodeStatus) (pick : Pick)
    → HashMap.find ip nodes ≡ some s
    → neg_part s.avail_executors ≡ 0
    → IsPick nodes pick
    → IsPick nodes (better ip s pick)
better-IsPick nodes ip s pick f v h = elim (Bool-cases (ltb_ℤ pick.1 s.avail_executors)) [
  | inl e ↦ rw e (inr (s, f, ground arith), v)
  | inr e ↦ rw e h
]

CanTake-touch :
    (nodes : HashMap Text NodeStatus) (j ip : Text)
    → CanTake nodes ip
    → CanTake (HashMap.touch j nodes no_status) ip
unfolding HashMap.touch
CanTake-touch nodes j ip (inl e) = inl e
CanTake-touch nodes j ip (inr (s, f, p)) =
    inr (s, ground (arith, find-put j ip no_status nodes, text_eq.beq_iff j ip), p)

find-touch_self :
    (ip : Text) (nodes : HashMap Text NodeStatus)
    → HashMap.find ip (HashMap.touch ip nodes no_status) ≡ some (HashMap.get_or ip nodes no_status)
unfolding HashMap.touch HashMap.get_or
find-touch_self ip nodes = ground (arith, find-put ip ip no_status nodes, text_eq.beq_iff ip ip)

pub pick_near-IsPick :
    (ips : HashSet Text) (nodes : HashMap Text NodeStatus) (pick : Pick)
    → IsValid nodes
    → IsPick nodes pick
    → IsValid (pick_near ips nodes pick).1
      × (total (pick_near ips nodes pick).1 ≡ total nodes)
      × IsPick (pick_near ips nodes pick).1 (pick_near ips nodes pick).0
unfolding pick_near
pick_near-IsPick [] nodes pick v h = (v, refl, h)
pick_near-IsPick (ip ∷ ips) nodes pick v h =
    let nodes' = HashMap.touch ip nodes no_status in
    let s = HashMap.get_or ip nodes no_status in
    let v' = touch-IsValid ip nodes v in
    let f = find-touch_self ip nodes in
    let (a, b, c) = pick_near-IsPick ips nodes' (better ip s pick) v' (
      better-IsPick nodes' ip s pick f (find_valid ip s nodes' v' f)
        (CanTake-touch nodes ip pick.0 h.0, h.1)) in
    (a, b ∙ total-touch ip nodes, c)

abbrev pub Entries : HashMap Text NodeStatus → HashMap Text NodeStatus → Type 0
Entries nodes m = All (λ (e : Text × NodeStatus). HashMap.find e.0 nodes ≡ some e.1) m

Entries-cons :
    (ip : Text) (s : NodeStatus) (nodes m : HashMap Text NodeStatus)
    → HashMap.find ip nodes ≡ none
    → Entries nodes m
    → Entries ((ip, s) ∷ nodes) m
unfolding HashMap.find
Entries-cons ip s nodes [] n h = tt
Entries-cons ip s nodes ((j, t) ∷ m) n h =
    (ground (arith, text_eq.beq_iff ip j), Entries-cons ip s nodes m n h.1)

pub Entries-self : (nodes : HashMap Text NodeStatus) → IsValid nodes → Entries nodes nodes
Entries-self [] v = tt
Entries-self ((ip, s) ∷ m) v = (
  unfold HashMap.find in (ground (arith, text_eq.beq_iff ip ip)),
  Entries-cons ip s m m v.1 (Entries-self m v.2),
)

pick_any-IsPick :
    (m nodes : HashMap Text NodeStatus) (pick : Pick)
    → IsValid nodes
    → Entries nodes m
    → IsPick nodes pick
    → IsPick nodes (pick_any m pick)
unfolding pick_any
pick_any-IsPick [] nodes pick v e h = h
pick_any-IsPick ((ip, s) ∷ m) nodes pick v e h =
    pick_any-IsPick m nodes (better ip s pick) v e.1
      (better-IsPick nodes ip s pick e.0 (find_valid ip s nodes v e.0) h)

-- The chosen node, if there is one, has a free executor; looking for it takes none.
pub pick_worker-CanTake :
    (near : HashSet Text) (nodes : HashMap Text NodeStatus)
    → IsValid nodes
    → IsValid (pick_worker near nodes).1
      × (total (pick_worker near nodes).1 ≡ total nodes)
      × CanTake (pick_worker near nodes).1 (pick_worker near nodes).0
unfolding pick_worker
pick_worker-CanTake near nodes v =
    let first = pick_near near nodes ([], pos 0) in
    let (a, b, c) = pick_near-IsPick near nodes ([], pos 0) v (inl (unfold empty in refl), refl) in
    elim (Bool-cases (empty first.0.0)) [
      | inl e ↦
          rw e (a, b, (pick_any-IsPick first.1 first.1 first.0 a (Entries-self first.1 a) c).0)
      | inr e ↦ rw e (a, b, c.0)
    ]

pred_pos :
    (a : ℤ) → 0 < pos_part a → (pos_part (pred_ℤ a) + 1 ≡ pos_part a) × (neg_part (pred_ℤ a) ≡ 0)
pred_pos (pos zero) h = absurd (omega arith)
pred_pos (pos (suc n)) h = (omega arith, refl)
pred_pos (negsuc n) h = absurd (omega arith)

pub get_or-some :
    (ip : Text) (nodes : HashMap Text NodeStatus) (s : NodeStatus)
    → HashMap.find ip nodes ≡ some s
    → HashMap.get_or ip nodes no_status ≡ s
unfolding HashMap.get_or
get_or-some ip nodes s e = ground (arith, e)

-- An executor of a node that has one is taken.
pub take_executor-total :
    (ip : Text) (nodes : HashMap Text NodeStatus)
    → IsValid nodes
    → CanTake nodes ip
    → empty ip ≡ false
    → IsValid (take_executor ip nodes) × (total (take_executor ip nodes) + 1 ≡ total nodes)
unfolding take_executor
take_executor-total ip nodes v (inl e) f = cc
take_executor-total ip nodes v (inr (s, e, p)) f =
    let fewer : NodeStatus = record s { avail_executors = pred_ℤ s.avail_executors } in
    let (less, none_owed) = pred_pos s.avail_executors p in
    rw (get_or-some ip nodes s e)
      (put-IsValid ip fewer nodes v none_owed, omega (arith, total-put ip fewer s nodes e, less))
