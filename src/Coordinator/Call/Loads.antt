-- ===== src/Coordinator/Call/Loads.antt =====
-- The loads that the round-robin deal gives (src/coordinator/func_call_handler.cpp, 64-76): the deal
-- succeeds, and only nodes at the end of the vector go without a request.
use spheromone.Prelude.{
  subst, ℕ, zero, suc, ◌+◌, ◌%◌, ◌<◌, ◌≤◌, ◌≡◌, refl, ap, ◌∙◌, sym, ◌⊎◌, inl, inr, some, List, [],
  ◌∷◌, map, arith, length, get_elem?, All,
}
use spheromone.Text.{Text}
use spheromone.Coordinator.Call.{Slot, next_free, deal_one, deal, new_slot}
use spheromone.Coordinator.Call.RoundRobin.{
  total_free, total_load, budget, some_free, next_free-total, Near, next_here, next_index,
  deal_one-totals,
}

abbrev Untouched : Slot → Type 0
Untouched s = (s.load ≡ 0) × (0 < s.free)

abbrev IsLoaded : Slot → Type 0
IsLoaded s = 0 < s.load

-- The first lap: the slots before `i` have a request, those from `i` on are as they were.
abbrev Frontier : List Slot → ℕ → Type 0
Frontier [] i = ⊥
Frontier (s ∷ ss) zero = All Untouched (s ∷ ss)
Frontier (s ∷ ss) (suc i) = IsLoaded s × Frontier ss i

-- A slot without a request is followed by such slots only.
abbrev pub FrontLoaded : List Slot → Type 0
FrontLoaded [] = Unit
FrontLoaded (s ∷ ss) = ((0 < s.load) × FrontLoaded ss) ⊎ (total_load (s ∷ ss) ≡ 0)

abbrev Phase : List Slot → ℕ → Type 0
Phase slots i = Frontier slots i ⊎ All IsLoaded slots

Frontier-bound : (slots : List Slot) (i : ℕ) → Frontier slots i → i < length slots
Frontier-bound [] i h = absurd h
Frontier-bound (s ∷ ss) zero h = omega arith
Frontier-bound (s ∷ ss) (suc i) h = omega (arith, Frontier-bound ss i h.1)

Frontier-free :
    (slots : List Slot) (i : ℕ)
    → Frontier slots i
    → (s : Slot) × (get_elem? slots i ≡ some s) × (0 < s.free)
Frontier-free [] i h = absurd h
Frontier-free (s ∷ ss) zero h = (s, refl, h.0.1)
Frontier-free (s ∷ ss) (suc i) h = Frontier-free ss i h.1

-- Dealing to the slot at the frontier moves it on.
deal_one-Frontier :
    (slots : List Slot) (i : ℕ)
    → Frontier slots i
    → ((i + 1 < length slots) × Frontier (deal_one slots i) (suc i))
      ⊎ All IsLoaded (deal_one slots i)
unfolding deal_one
deal_one-Frontier [] i h = absurd h
deal_one-Frontier (s ∷ []) zero h = inr (omega arith, tt)
deal_one-Frontier (s ∷ t ∷ ss) zero h = inl (omega arith, (omega arith, h.1))
deal_one-Frontier (s ∷ ss) (suc i) h = elim (deal_one-Frontier ss i h.1) [
  | inl (a, b) ↦ inl (omega arith, (h.0, b))
  | inr all ↦ inr (h.0, all)
]

deal_one-IsLoaded :
    (slots : List Slot) (i : ℕ) → All IsLoaded slots → All IsLoaded (deal_one slots i)
unfolding deal_one
deal_one-IsLoaded [] i h = tt
deal_one-IsLoaded (s ∷ ss) zero h = (omega arith, h.1)
deal_one-IsLoaded (s ∷ ss) (suc i) h = (h.0, deal_one-IsLoaded ss i h.1)

Untouched-total_load : (slots : List Slot) → All Untouched slots → total_load slots ≡ 0
unfolding total_load
Untouched-total_load [] h = refl
Untouched-total_load (s ∷ ss) h = omega (arith, Untouched-total_load ss h.1)

Frontier-FrontLoaded : (slots : List Slot) (i : ℕ) → Frontier slots i → FrontLoaded slots
Frontier-FrontLoaded [] i h = absurd h
Frontier-FrontLoaded (s ∷ ss) zero h = inr (Untouched-total_load (s ∷ ss) h)
Frontier-FrontLoaded (s ∷ ss) (suc i) h = inl (h.0, Frontier-FrontLoaded ss i h.1)

loaded-FrontLoaded : (slots : List Slot) → All IsLoaded slots → FrontLoaded slots
loaded-FrontLoaded [] h = tt
loaded-FrontLoaded (s ∷ ss) h = inl (h.0, loaded-FrontLoaded ss h.1)

Phase-FrontLoaded : (slots : List Slot) (i : ℕ) → Phase slots i → FrontLoaded slots
Phase-FrontLoaded slots i (inl h) = Frontier-FrontLoaded slots i h
Phase-FrontLoaded slots i (inr h) = loaded-FrontLoaded slots h

-- One round: the slot found is free, and the phase goes on.
abbrev Rounds : List Slot → ℕ → Type 0
Rounds slots i =
    (k : ℕ) × (t : Slot) × (next_free (length slots) slots i ≡ some k)
    × (get_elem? slots k ≡ some t)
    × (0 < t.free)
    × ((k + 1) % length slots < length slots)
    × Phase (deal_one slots k) ((k + 1) % length slots)

mod_bound : (i n : ℕ) → 0 < n → i % n < n
mod_bound i n h = grind arith

found_here :
    (fuel : ℕ) (slots : List Slot) (i : ℕ) (s : Slot)
    → get_elem? slots i ≡ some s
    → 0 < s.free
    → 0 < fuel
    → next_free fuel slots i ≡ some i
found_here zero slots i s e f h = absurd (omega arith)
found_here (suc fuel) slots i s e f h = next_here fuel slots i s e f

next-Phase :
    (slots : List Slot) (i : ℕ)
    → Frontier slots i
    → Phase (deal_one slots i) ((i + 1) % length slots)
next-Phase slots i h = elim (deal_one-Frontier slots i h) [
  | inr all ↦ inr all
  | inl (a, b) ↦ elim (next_index i (length slots) (Frontier-bound slots i h)) [
    | inl (c, d) ↦ inl (
        subst (λ k. Frontier (deal_one slots i) k) (sym d ∙ refl)
          (subst (λ k. Frontier (deal_one slots i) k) (omega arith) b))
    | inr (c, d) ↦ absurd (omega arith)
  ]
]

round_Near : (n i j : ℕ) → i < n → j < n → Near n n i j
round_Near n i j bi bj = elim (◌<◌-cases i j) [
  | inl h ↦ inr (h, omega arith)
  | inr h ↦ inl (h, omega arith)
]
  where
    ◌<◌-cases : (i j : ℕ) → (j < i) ⊎ (i ≤ j)
    ◌<◌-cases i j = ground arith

round :
    (slots : List Slot) (i : ℕ)
    → i < length slots
    → 0 < total_free slots
    → Phase slots i
    → Rounds slots i
round slots i b f (inl h) =
    let (s, e, g) = Frontier-free slots i h in
    (
      i,
      s,
      found_here (length slots) slots i s e g (omega arith),
      e,
      g,
      mod_bound (i + 1) (length slots) (omega arith),
      next-Phase slots i h,
    )
round slots i b f (inr h) =
    let (j, s, e, g, bj) = some_free slots f in
    let (k, t, x, y, z, w) =
      next_free-total (length slots) slots i j s e g bj b (round_Near (length slots) i j b bj) in
    (
      k,
      t,
      x,
      y,
      z,
      mod_bound (k + 1) (length slots) (omega arith),
      inr (deal_one-IsLoaded slots k h),
    )

deal-step :
    (rounds : ℕ) (slots : List Slot) (i k : ℕ)
    → next_free (length slots) slots i ≡ some k
    → deal (suc rounds) slots i ≡ deal rounds (deal_one slots k) ((k + 1) % length slots)
unfolding deal
deal-step rounds slots i k e = rw (e, deal) refl

-- Dealing at most as many requests as there are free executors succeeds: it deals all of them, no
-- slot gets more than it had, and the slots without a request come last.
pub deal-total :
    (rounds : ℕ) (slots : List Slot) (i : ℕ)
    → rounds ≤ total_free slots
    → i < length slots
    → Phase slots i
    → (dealt : List Slot) × (deal rounds slots i ≡ some dealt)
      × (total_load dealt ≡ total_load slots + rounds)
      × (map budget dealt ≡ map budget slots)
      × FrontLoaded dealt
unfolding deal
deal-total zero slots i h b p = (slots, refl, omega arith, refl, Phase-FrontLoaded slots i p)
deal-total (suc rounds) slots i h b p =
    let (k, t, e, g, f, b', p') = round slots i b (omega arith) p in
    let (c1, c2, c3, c4) = deal_one-totals slots k t g f in
    let (dealt, d1, d2, d3, d4) =
      deal-total rounds (deal_one slots k) ((k + 1) % length slots) (omega arith) (rw c4 b') p' in
    (dealt, deal-step rounds slots i k e ∙ d1, omega arith, d3 ∙ c3, d4)

new_slot-Untouched :
    (nodes : List (Text × ℕ))
    → All (λ node. 0 < node.1) nodes
    → All Untouched (map new_slot nodes) × (map budget (map new_slot nodes) ≡ nodes)
new_slot-Untouched [] h = (tt, refl)
new_slot-Untouched ((ip, free) ∷ nodes) h =
    let (a, b) = new_slot-Untouched nodes h.1 in
    let e : free + 0 ≡ free = omega arith in
    (
      ((refl, h.0), a),
      ap (λ x. (ip, x) ∷ map budget (map new_slot nodes)) e ∙ ap (λ r. (ip, free) ∷ r) b,
    )

start : (slots : List Slot) → 0 < length slots → All Untouched slots → Frontier slots 0
start [] b h = absurd (omega arith)
start (s ∷ ss) b h = h

has_slots : (slots : List Slot) → 0 < total_free slots → 0 < length slots
unfolding total_free
has_slots [] h = h
has_slots (s ∷ ss) h = omega arith

-- So for the nodes of a call, in which every node has a free executor.
pub deal-new_slot :
    (nodes : List (Text × ℕ)) (n : ℕ)
    → 0 < n
    → All (λ node. 0 < node.1) nodes
    → n ≤ total_free (map new_slot nodes)
    → (dealt : List Slot) × (deal n (map new_slot nodes) 0 ≡ some dealt)
      × (total_load dealt ≡ n)
      × (map budget dealt ≡ nodes)
      × FrontLoaded dealt
deal-new_slot nodes n pos free cap =
    let all = map new_slot nodes in
    let (untouched, same) = new_slot-Untouched nodes free in
    let bound : 0 < length all = has_slots all (omega arith) in
    let (dealt, a, b, c, d) = deal-total n all 0 cap bound (inl (start all bound untouched)) in
    let none_yet : total_load all ≡ 0 = Untouched-total_load all untouched in
    (dealt, a, omega arith, c ∙ same, d)
