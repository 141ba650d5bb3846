-- ===== src/Coordinator/Call/RoundRobin.antt =====
-- The round-robin deal of func_call_handler (src/coordinator/func_call_handler.cpp, 64-76): it ends,
-- and what it leaves.
use spheromone.Prelude.{
  ℕ, zero, suc, ◌+◌, ◌-◌, ◌%◌, ◌<◌, ◌≤◌, ◌≡◌, refl, ap, ◌∙◌, sym, ◌⊎◌, inl, inr, some, List, [],
  ◌∷◌, map, arith, ltb, length, get_elem?, get_elem?-total, eq_of_some, Bool-cases,
}
use spheromone.Coordinator.Call.{Text, Slot, next_free, deal_one}

unfoldable pub total_free : List Slot → ℕ
total_free [] = 0
total_free (s ∷ ss) = s.free + total_free ss

unfoldable pub total_load : List Slot → ℕ
total_load [] = 0
total_load (s ∷ ss) = s.load + total_load ss

-- A slot with its budget, which dealing does not change.
abbrev pub budget : Slot → Text × ℕ
budget s = (s.address, s.free + s.load)

-- Some slot is free.
pub some_free :
    (slots : List Slot)
    → 0 < total_free slots
    → (j : ℕ) × (s : Slot) × (get_elem? slots j ≡ some s) × (0 < s.free) × (j < length slots)
unfolding total_free
some_free [] h = absurd (omega arith)
some_free (s ∷ ss) h = elim (Bool-cases (ltb 0 s.free)) [
  | inl here ↦ (0, s, refl, ground arith, omega arith)
  | inr full ↦ let (j, t, a, b, c) = some_free ss (ground arith) in (suc j, t, a, b, omega arith)
]

pub next_index :
    (i n : ℕ) → i < n → ((i + 1 < n) × ((i + 1) % n ≡ i + 1)) ⊎ ((i + 1 ≡ n) × ((i + 1) % n ≡ 0))
next_index i n h = grind arith

module _ (fuel : ℕ) (slots : List Slot) (i : ℕ) (a : Slot) (e : get_elem? slots i ≡ some a) where
  pub next_here : 0 < a.free → next_free (suc fuel) slots i ≡ some i
  unfolding next_free
  next_here f = ground arith

  next_skip :
      a.free ≡ 0 → next_free (suc fuel) slots i ≡ next_free fuel slots ((i + 1) % length slots)
  unfolding next_free
  next_skip f = ground arith

-- The way from `i` round to `j` is shorter than the fuel.
abbrev pub Near : ℕ → ℕ → ℕ → ℕ → Type 0
Near fuel n i j = ((i ≤ j) × (j < i + fuel)) ⊎ ((j < i) × (j + n < i + fuel))

Near-next :
    (fuel n i j : ℕ)
    → j < n
    → i < n
    → ¬ (i ≡ j)
    → Near (suc fuel) n i j
    → Near fuel n ((i + 1) % n) j
Near-next fuel n i j bj bi ne near = elim (next_index i n bi) [
  | inl (a, b) ↦ rw b (near_inner near a)
  | inr (a, b) ↦ rw b (near_wrap near a)
]
  where
    near_inner : Near (suc fuel) n i j → i + 1 < n → Near fuel n (i + 1) j
    near_inner (inl (a, b)) c = inl (omega arith, omega arith)
    near_inner (inr (a, b)) c = inr (omega arith, omega arith)

    near_wrap : Near (suc fuel) n i j → i + 1 ≡ n → Near fuel n 0 j
    near_wrap (inl (a, b)) c = absurd (omega arith)
    near_wrap (inr (a, b)) c = inl (omega arith, omega arith)

abbrev pub Finds : ℕ → List Slot → ℕ → Type 0
Finds fuel slots i =
    (k : ℕ) × (t : Slot) × (next_free fuel slots i ≡ some k)
    × (get_elem? slots k ≡ some t)
    × (0 < t.free)
    × (k < length slots)

-- Going round from `i`, with fuel for the way to a free slot, finds one.
pub next_free-total :
    (fuel : ℕ) (slots : List Slot) (i j : ℕ) (s : Slot)
    → get_elem? slots j ≡ some s
    → 0 < s.free
    → j < length slots
    → i < length slots
    → Near fuel (length slots) i j
    → Finds fuel slots i
next_free-total zero slots i j s e f bj bi near = absurd (omega arith)
next_free-total (suc fuel) slots i j s e f bj bi near =
    let (a, ea) = get_elem?-total slots i bi in
    elim (Bool-cases (ltb 0 a.free)) [
      | inl here ↦ (i, a, next_here fuel slots i a ea (ground arith), ea, ground arith, bi)
      | inr full ↦
          let zero_free : a.free ≡ 0 = ground arith in
          let ne : ¬ (i ≡ j) = λ p. other a ea zero_free p in
          let (k, t, x, y, z, w) =
            next_free-total fuel slots ((i + 1) % length slots) j s e f bj
              (mod_bound i (length slots) bi) (Near-next fuel (length slots) i j bj bi ne near) in
          (k, t, next_skip fuel slots i a ea zero_free ∙ x, y, z, w)
    ]
  where
    other : (a : Slot) → get_elem? slots i ≡ some a → a.free ≡ 0 → i ≡ j → ⊥
    other a ea z p =
        let q : a ≡ s = eq_of_some (sym ea ∙ ap (get_elem? slots) p ∙ e) in
        let r : a.free ≡ s.free = ap (λ (x : Slot). x.free) q in omega arith

    mod_bound : (i n : ℕ) → i < n → (i + 1) % n < n
    mod_bound i n h = grind arith

-- Dealing one request to a free slot.
pub deal_one-totals :
    (slots : List Slot) (k : ℕ) (t : Slot)
    → get_elem? slots k ≡ some t
    → 0 < t.free
    → (total_free (deal_one slots k) + 1 ≡ total_free slots)
      × (total_load (deal_one slots k) ≡ total_load slots + 1)
      × (map budget (deal_one slots k) ≡ map budget slots)
      × (length (deal_one slots k) ≡ length slots)
unfolding deal_one total_free total_load
deal_one-totals [] k t e f = cc
deal_one-totals (s ∷ ss) zero t e f =
    let q : s ≡ t = eq_of_some e in
    let r : s.free ≡ t.free = ap (λ (x : Slot). x.free) q in
    let b : s.free - 1 + (s.load + 1) ≡ s.free + s.load = omega arith in
    (omega arith, omega arith, rw b refl, refl)
deal_one-totals (s ∷ ss) (suc k) t e f =
    let (a, b, c, d) = deal_one-totals ss k t e f in
    (omega arith, omega arith, ap (λ r. budget s ∷ r) c, omega arith)
