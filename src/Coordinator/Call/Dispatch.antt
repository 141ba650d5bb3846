-- ===== src/Coordinator/Call/Dispatch.antt =====
-- How func_call_handler cuts the requests of a call into parts
-- (src/coordinator/func_call_handler.cpp, 78-100).
use spheromone.Prelude.{
  length-append, ℕ, ◌+◌, ◌<◌, ◌≤◌, ◌≡◌, refl, ap, ◌∙◌, ◌⊎◌, inl, inr, some, List, [], ◌∷◌, ◌++◌,
  arith, length,
}
use spheromone.Text.{Text}
use spheromone.Messages.{FunctionRequest}
use spheromone.Coordinator.Call.{Slot, dispatch}
use spheromone.Coordinator.Call.RoundRobin.{total_load}
use spheromone.Coordinator.Call.Loads.{FrontLoaded}

abbrev pub Part : Type 0
Part = Text × List FunctionRequest

-- The requests of the parts, in order.
unfoldable pub all_requests : List Part → List FunctionRequest
all_requests [] = []
all_requests (p ∷ ps) = p.1 ++ all_requests ps

-- The parts go to the first slots, in order, each of the size of the slot's load, which is not 0.
abbrev pub Fits : List Slot → List Part → Type 0
Fits slots [] = total_load slots ≡ 0
Fits [] (p ∷ ps) = ⊥
Fits (s ∷ ss) (p ∷ ps) = (p.0 ≡ s.address) × (length p.1 ≡ s.load) × (0 < s.load) × Fits ss ps

-- The part under way is shorter than the load of the first slot, if there is anything to send.
abbrev pub Open : ℕ → List Slot → Type 0
Open n [] = n ≡ 0
Open n (s ∷ ss) = (n < s.load) ⊎ (total_load (s ∷ ss) ≡ 0)

pub Open-start : (slots : List Slot) → FrontLoaded slots → Open 0 slots
Open-start [] h = refl
Open-start (s ∷ ss) (inl h) = inl h.0
Open-start (s ∷ ss) (inr h) = inr h

abbrev Cuts : List Slot → List FunctionRequest → List FunctionRequest → Type 0
Cuts slots part rs =
    (parts : List Part) × (dispatch slots part rs ≡ some parts)
    × (all_requests parts ≡ part ++ rs)
    × Fits slots parts

module _ (s : Slot) (ss : List Slot) (part : List FunctionRequest) (r : FunctionRequest)
    (rs : List FunctionRequest) where
  cut_here :
      (parts : List Part)
      → length (part ++ r ∷ []) ≡ s.load
      → dispatch ss [] rs ≡ some parts
      → dispatch (s ∷ ss) part (r ∷ rs) ≡ some ((s.address, part ++ r ∷ []) ∷ parts)
  unfolding dispatch
  cut_here parts h e = ground arith

  cut_later :
      length (part ++ r ∷ []) < s.load
      → dispatch (s ∷ ss) part (r ∷ rs) ≡ dispatch (s ∷ ss) (part ++ r ∷ []) rs
  unfolding dispatch
  cut_later h = ground arith

rest_FrontLoaded : (s : Slot) (ss : List Slot) → FrontLoaded (s ∷ ss) → 0 < s.load → FrontLoaded ss
unfolding total_load
rest_FrontLoaded s ss (inl h) l = h.1
rest_FrontLoaded s ss (inr h) l = absurd (omega arith)

nil_or : (xs : List FunctionRequest) → length xs ≡ 0 → [] ≡ xs ++ []
nil_or [] h = refl
nil_or (x ∷ xs) h = absurd (omega arith)

pub append_one {ℓ} :
    {A : Type ℓ} → (xs : List A) (y : A) (zs : List A) → (xs ++ y ∷ []) ++ zs ≡ xs ++ y ∷ zs
append_one [] y zs = refl
append_one (x ∷ xs) y zs = ap (λ r. x ∷ r) (append_one xs y zs)

-- Every request is in a part, in order, and each part has the size dealt to its node.
pub dispatch-total :
    (rs : List FunctionRequest) (slots : List Slot) (part : List FunctionRequest)
    → FrontLoaded slots
    → total_load slots ≡ length part + length rs
    → Open (length part) slots
    → Cuts slots part rs
unfolding dispatch total_load all_requests
dispatch-total [] [] part f t o = ([], refl, nil_or part o, refl)
dispatch-total [] (s ∷ ss) part f t (inl o) = absurd (omega arith)
dispatch-total [] (s ∷ ss) part f t (inr o) = ([], refl, nil_or part (omega arith), o)
dispatch-total (r ∷ rs) [] part f t o = absurd (omega arith)
dispatch-total (r ∷ rs) (s ∷ ss) part f t (inr o) = absurd (omega arith)
dispatch-total (r ∷ rs) (s ∷ ss) part f t (inl o) =
    let len = length-append part (r ∷ []) in
    elim (full_cases (omega arith)) [
      | inl full ↦
          let f' = rest_FrontLoaded s ss f (omega arith) in
          let (parts, a, b, c) = dispatch-total rs ss [] f' (omega arith) (Open-start ss f') in
          (
            (s.address, part ++ r ∷ []) ∷ parts,
            cut_here s ss part r rs parts full a,
            ap (λ x. (part ++ r ∷ []) ++ x) b ∙ append_one part r rs,
            (refl, full, omega arith, c),
          )
      | inr short ↦
          let (parts, a, b, c) =
            dispatch-total rs (s ∷ ss) (part ++ r ∷ []) f (omega arith) (inl short) in
          (parts, cut_later s ss part r rs short ∙ a, b ∙ append_one part r rs, c)
    ]
  where
    full_cases :
        length (part ++ r ∷ []) ≤ s.load
        → (length (part ++ r ∷ []) ≡ s.load) ⊎ (length (part ++ r ∷ []) < s.load)
    full_cases h = ground arith
