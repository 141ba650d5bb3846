-- ===== src/Coordinator/Call/Capacity.antt =====
-- What the loop over the nodes of func_call_handler collects
-- (src/coordinator/func_call_handler.cpp, 42-57).
use spheromone.Prelude.{
  inr, subst, inl, All-snoc, ℕ, ◌+◌, ◌<◌, ◌≤◌, ◌≡◌, refl, Bool, true, false, List, [], ◌∷◌, ◌++◌,
  map, arith, ltb, if◌then◌else◌, All, nat_eq, ◌==◌, Bool-cases,
}
use spheromone.Text.{Text, text_eq}
use spheromone.HashMap.{HashMap}
use spheromone.Coordinator.State.{NodeStatus}
use spheromone.Coordinator.Call.{Survey, is_source, visit, survey, slots, new_slot, no_nodes}
use spheromone.Coordinator.Call.RoundRobin.{total_free}
use spheromone.Coordinator.Call.Schedule.{Fresh, Distinct}

-- The free executors of all nodes but the source of the call.
unfoldable pub capacity : Text → HashMap Text NodeStatus → ℕ
capacity source [] = 0
capacity source ((ip, status) ∷ rest) =
    (if is_source source ip then 0 else slots status) + capacity source rest

abbrev pub Collected : Survey → Type 0
Collected s =
    (s.total ≡ total_free (map new_slot s.avail_nodes))
    × All (λ node. 0 < node.1) s.avail_nodes
    × Distinct s.avail_nodes
    × (s.max_executors ≤ s.total)

-- The addresses still to come are none of the collected ones.
abbrev Unseen : HashMap Text NodeStatus → List (Text × ℕ) → Type 0
Unseen [] seen = Unit
Unseen (n ∷ ns) seen = Fresh n.0 seen × Unseen ns seen

flip : (x y : Text) → x == y ≡ false → y == x ≡ false
flip x y h = ground (arith, text_eq.beq_iff x y, text_eq.beq_iff y x)

Fresh-snoc :
    (ns : List (Text × ℕ)) (ip jp : Text) (k : ℕ)
    → Fresh ip ns
    → jp == ip ≡ false
    → Fresh ip (ns ++ (jp, k) ∷ [])
Fresh-snoc [] ip jp k h e = (e, tt)
Fresh-snoc (n ∷ ns) ip jp k h e = (h.0, Fresh-snoc ns ip jp k h.1 e)

Distinct-snoc :
    (ns : List (Text × ℕ)) (ip : Text) (k : ℕ)
    → Distinct ns
    → Fresh ip ns
    → Distinct (ns ++ (ip, k) ∷ [])
Distinct-snoc [] ip k d f = (tt, tt)
Distinct-snoc (n ∷ ns) ip k d f =
    (Fresh-snoc ns n.0 ip k d.0 (flip n.0 ip f.0), Distinct-snoc ns ip k d.1 f.1)

Unseen-snoc :
    (rest : HashMap Text NodeStatus) (ns : List (Text × ℕ)) (ip : Text) (k : ℕ)
    → Unseen rest ns
    → Fresh ip rest
    → Unseen rest (ns ++ (ip, k) ∷ [])
Unseen-snoc [] ns ip k u f = tt
Unseen-snoc (n ∷ rest) ns ip k u f =
    (Fresh-snoc ns n.0 ip k u.0 (flip n.0 ip f.0), Unseen-snoc rest ns ip k u.1 f.1)

total_free-snoc :
    (ns : List (Text × ℕ)) (ip : Text) (k : ℕ)
    → total_free (map new_slot (ns ++ (ip, k) ∷ [])) ≡ total_free (map new_slot ns) + k
unfolding total_free
total_free-snoc [] ip k = omega arith
total_free-snoc (n ∷ ns) ip k = omega (arith, total_free-snoc ns ip k)

-- Collected, with the vector of nodes and the total apart.
abbrev Vector : HashMap Text NodeStatus → ℕ → List (Text × ℕ) → Type 0
Vector rest total ns =
    (total ≡ total_free (map new_slot ns))
    × All (λ node. 0 < node.1) ns
    × Distinct ns
    × Unseen rest ns

visit-free :
    (s : Survey) (ip : Text) (k : ℕ)
    → 0 < k
    → s.avail_nodes ++ (ip, k) ∷ [] ≡ (visit s ip k).avail_nodes
visit-free s ip k h = ground arith

visit-full : (s : Survey) (ip : Text) (k : ℕ) → k ≡ 0 → s.avail_nodes ≡ (visit s ip k).avail_nodes
visit-full s ip k h = ground arith

visit-max :
    (s : Survey) (ip : Text) (k : ℕ)
    → s.max_executors ≤ s.total
    → (visit s ip k).max_executors ≤ (visit s ip k).total
visit-max s ip k h = ground arith

visit-Vector :
    (s : Survey) (ip : Text) (k : ℕ) (rest : HashMap Text NodeStatus)
    → Vector rest s.total s.avail_nodes
    → Fresh ip s.avail_nodes
    → Fresh ip rest
    → Vector rest (s.total + k) (visit s ip k).avail_nodes
visit-Vector s ip k rest (t, p, d, u) f g = elim (Bool-cases (ltb 0 k)) [
  | inl h ↦ subst (Vector rest (s.total + k)) (visit-free s ip k (ground arith)) (
    omega (arith, total_free-snoc s.avail_nodes ip k),
    All-snoc (λ node. 0 < node.1) s.avail_nodes (ip, k) p (ground arith),
    Distinct-snoc s.avail_nodes ip k d f,
    Unseen-snoc rest s.avail_nodes ip k u g,
  )
  | inr h ↦
      subst (Vector rest (s.total + k)) (visit-full s ip k (ground arith)) (ground arith, p, d, u)
]

visit-Collected :
    (s : Survey) (ip : Text) (k : ℕ) (rest : HashMap Text NodeStatus)
    → Collected s
    → Fresh ip s.avail_nodes
    → Fresh ip rest
    → Unseen rest s.avail_nodes
    → Collected (visit s ip k) × Unseen rest (visit s ip k).avail_nodes
visit-Collected s ip k rest (t, p, d, m) f g u =
    let (t', p', d', u') = visit-Vector s ip k rest (t, p, d, u) f g in
    ((t', p', d', visit-max s ip k m), u')

abbrev Reached : Text → HashMap Text NodeStatus → Survey → ℕ → Type 0
Reached source rest s base =
    Collected (survey source rest s) × ((survey source rest s).total ≡ base + capacity source rest)

-- One step of the loop, on either side of its guard.
either :
    (b : Bool) (s : Survey) (ip : Text) (k : ℕ) (source : Text) (rest : HashMap Text NodeStatus)
    → Reached source rest s s.total
    → Reached source rest (visit s ip k) (s.total + k)
    → Reached source rest (if b then s else visit s ip k) (s.total + (if b then 0 else k))
either true s ip k source rest x y = (x.0, omega (arith, x.1))
either false s ip k source rest x y = y

survey-Collected :
    (source : Text) (nodes : HashMap Text NodeStatus) (s : Survey)
    → Distinct nodes
    → Collected s
    → Unseen nodes s.avail_nodes
    → Collected (survey source nodes s)
      × ((survey source nodes s).total ≡ s.total + capacity source nodes)
unfolding survey capacity
survey-Collected source [] s d c u = (c, omega arith)
survey-Collected source ((ip, status) ∷ rest) s d c u =
    let (c', u') = visit-Collected s ip (slots status) rest c u.0 d.0 u.1 in
    let skip = survey-Collected source rest s d.1 c u.1 in
    let take = survey-Collected source rest (visit s ip (slots status)) d.1 c' u' in
    let (x, y) = either (is_source source ip) s ip (slots status) source rest skip take in
    (x, omega (arith, y))

nothing_seen : (nodes : HashMap Text NodeStatus) → Unseen nodes []
nothing_seen [] = tt
nothing_seen (n ∷ nodes) = (tt, nothing_seen nodes)

-- The loop adds up the free executors of all nodes but the source, in the vector as in the total;
-- the vector has distinct addresses of nodes with a free executor.
pub survey-total :
    (source : Text) (nodes : HashMap Text NodeStatus)
    → Distinct nodes
    → Collected (survey source nodes no_nodes)
      × ((survey source nodes no_nodes).total ≡ capacity source nodes)
unfolding total_free
survey-total source nodes d =
    let (c, t) =
      survey-Collected source nodes no_nodes d (refl, tt, tt, omega arith) (nothing_seen nodes) in
    (c, omega arith)
