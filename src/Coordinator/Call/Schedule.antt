-- ===== src/Coordinator/Call/Schedule.antt =====
-- What the batch scheduling of func_call_handler sends to the nodes
-- (src/coordinator/func_call_handler.cpp, 42-104).
use spheromone.Prelude.{
  subst, All, ℕ, ◌<◌, ◌≤◌, ◌≡◌, refl, ap, ◌∙◌, false, some, List, [], ◌∷◌, ◌++◌, map, arith, length,
  nat_eq, ◌==◌,
}
use spheromone.Text.{Text, text_eq}
use spheromone.HashMap
use spheromone.HashMap.{HashMap}
use spheromone.Messages.{FunctionCall}
use spheromone.Coordinator.Call.{Slot, new_slot, deal, dispatch, put_parts, routed_call, split_call}
use spheromone.Coordinator.Call.RoundRobin.{total_free, budget}
use spheromone.Coordinator.Call.Loads.{deal-new_slot}
use spheromone.Coordinator.Call.Dispatch.{
  Open-start, append_one, Part, all_requests, Fits, dispatch-total,
}

-- The addresses of a vector of nodes are distinct.
abbrev pub Fresh : {A : Type 0} → Text → List (Text × A) → Type 0
Fresh ip [] = Unit
Fresh ip (n ∷ ns) = (n.0 == ip ≡ false) × Fresh ip ns

abbrev pub Distinct : {A : Type 0} → List (Text × A) → Type 0
Distinct [] = Unit
Distinct (n ∷ ns) = Fresh n.0 ns × Distinct ns

-- Part by part: to the node's address, with at least one request and at most as many as the node
-- has free executors.
abbrev pub Within : List (Text × ℕ) → List Part → Type 0
Within nodes [] = Unit
Within [] (p ∷ ps) = ⊥
Within (n ∷ ns) (p ∷ ps) = (p.0 ≡ n.0) × (0 < length p.1) × (length p.1 ≤ n.1) × Within ns ps

abbrev pub route : FunctionCall → Part → Text × FunctionCall
route call p = (p.0, routed_call call p.1)

Fits-Within :
    (slots : List Slot) (parts : List Part) → Fits slots parts → Within (map budget slots) parts
Fits-Within slots [] h = tt
Fits-Within [] (p ∷ ps) h = h
Fits-Within (s ∷ ss) (p ∷ ps) h = (h.0, omega arith, omega arith, Fits-Within ss ps h.3)

put_last :
    (m : HashMap Text FunctionCall) (ip : Text) (c : FunctionCall)
    → Fresh ip m
    → HashMap.put ip c m ≡ m ++ (ip, c) ∷ []
unfolding HashMap.put
put_last [] ip c h = refl
put_last ((j, d) ∷ m) ip c h = ground (arith, put_last m ip c h.1)

-- No address of the parts is a key of the map.
abbrev Apart : List Part → HashMap Text FunctionCall → Type 0
Apart [] m = Unit
Apart (p ∷ ps) m = Fresh p.0 m × Apart ps m

Fresh-snoc :
    (m : HashMap Text FunctionCall) (ip jp : Text) (c : FunctionCall)
    → Fresh ip m
    → jp == ip ≡ false
    → Fresh ip (m ++ (jp, c) ∷ [])
Fresh-snoc [] ip jp c h e = (e, tt)
Fresh-snoc (n ∷ m) ip jp c h e = (h.0, Fresh-snoc m ip jp c h.1 e)

Apart-snoc :
    (ps : List Part) (m : HashMap Text FunctionCall) (ip : Text) (c : FunctionCall)
    → Apart ps m
    → Fresh ip ps
    → Apart ps (m ++ (ip, c) ∷ [])
Apart-snoc [] m ip c h f = tt
Apart-snoc (p ∷ ps) m ip c h f =
    (Fresh-snoc m p.0 ip c h.0 (turn p.0 ip f.0), Apart-snoc ps m ip c h.1 f.1)
  where
    turn : (x y : Text) → x == y ≡ false → y == x ≡ false
    turn x y h = ground (arith, text_eq.beq_iff x y, text_eq.beq_iff y x)

put_parts-map :
    (call : FunctionCall) (parts : List Part) (m : HashMap Text FunctionCall)
    → Distinct parts
    → Apart parts m
    → put_parts call parts m ≡ m ++ map (route call) parts
unfolding put_parts
put_parts-map call [] m d a = append_nil m
  where
    append_nil : (m : HashMap Text FunctionCall) → m ≡ m ++ []
    append_nil [] = refl
    append_nil (x ∷ m) = ap (λ r. x ∷ r) (append_nil m)
put_parts-map call ((ip, qs) ∷ ps) m d a =
    let here = put_last m ip (routed_call call qs) a.0 in
    ap (put_parts call ps) here
    ∙ put_parts-map call ps (m ++ (ip, routed_call call qs) ∷ []) d.1
        (Apart-snoc ps m ip (routed_call call qs) a.1 d.0)
    ∙ append_one m (ip, routed_call call qs) (map (route call) ps)

Apart-nil : (ps : List Part) → Apart ps []
Apart-nil [] = tt
Apart-nil (p ∷ ps) = (tt, Apart-nil ps)

Within-Fresh :
    (nodes : List (Text × ℕ)) (ps : List Part) (ip : Text)
    → Within nodes ps
    → Fresh ip nodes
    → Fresh ip ps
Within-Fresh nodes [] ip w f = tt
Within-Fresh [] (p ∷ ps) ip w f = absurd w
Within-Fresh (n ∷ ns) (p ∷ ps) ip w f = (rw w.0 f.0, Within-Fresh ns ps ip w.3 f.1)

Within-Distinct :
    (nodes : List (Text × ℕ)) (ps : List Part) → Within nodes ps → Distinct nodes → Distinct ps
Within-Distinct nodes [] w d = tt
Within-Distinct [] (p ∷ ps) w d = absurd w
Within-Distinct (n ∷ ns) (p ∷ ps) w d =
    (rw w.0 (Within-Fresh ns ps n.0 w.3 d.0), Within-Distinct ns ps w.3 d.1)

split_call-eq :
    (call : FunctionCall) (nodes : List (Text × ℕ)) (dealt : List Slot) (parts : List Part)
    → deal (length call.requests) (map new_slot nodes) 0 ≡ some dealt
    → dispatch dealt [] call.requests ≡ some parts
    → split_call call nodes ≡ some (put_parts call parts [])
unfolding split_call
split_call-eq call nodes dealt parts d e = rw (d, split_call) (rw (e, split_call) refl)

-- A call with at most as many requests as the nodes have free executors is split: the parts hold
-- every request exactly once and in order, a part goes to a node of its own and asks for no more
-- than the node has free. The nodes have distinct addresses, each with a free executor.
pub split_call-Within :
    (call : FunctionCall) (nodes : List (Text × ℕ))
    → 0 < length call.requests
    → length call.requests ≤ total_free (map new_slot nodes)
    → All (λ node. 0 < node.1) nodes
    → Distinct nodes
    → (parts : List Part) × (split_call call nodes ≡ some (map (route call) parts))
      × (all_requests parts ≡ call.requests)
      × Within nodes parts
split_call-Within call nodes pos enough free distinct =
    let (dealt, d, total, same, front) =
      deal-new_slot nodes (length call.requests) pos free enough in
    let (parts, e, all, fits) =
      dispatch-total call.requests dealt [] front (omega arith) (Open-start dealt front) in
    let within : Within nodes parts =
      subst (λ ns. Within ns parts) same (Fits-Within dealt parts fits) in
    (
      parts,
      split_call-eq call nodes dealt parts d e
          ∙ ap some (
              put_parts-map call parts [] (Within-Distinct nodes parts within distinct)
                (Apart-nil parts)),
      all,
      within,
    )
