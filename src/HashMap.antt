-- ===== src/HashMap.antt =====
-- `map` of common/include/types.hpp (std::unordered_map): an association list. The iteration
-- order of the container is unspecified in C++: it is the order of the list, and the theorems hold
-- for every list. A new key goes to the end, and an assignment to a key keeps its place.
use spheromone.Prelude.{
  ◌≡◌, refl, Bool, true, false, Option, none, some, List, [], ◌∷◌, arith, Eq, ◌==◌, if◌then◌else◌,
}

abbrev pub HashMap {ℓ κ} : Type ℓ → Type κ → Type (ℓ ⊔ κ)
HashMap K V = List (K × V)

module _ {ℓ κ} {K : Type ℓ} {V : Type κ} ⦃e : Eq K⦄ where
  -- m.find(k)
  unfoldable pub find : K → HashMap K V → Option V
  find k [] = none
  find k ((j, v) ∷ m) = if j == k then some v else find k m

  -- m.find(k) != m.end()
  unfoldable pub has : K → HashMap K V → Bool
  has k [] = false
  has k ((j, v) ∷ m) = if j == k then true else has k m

  -- m[k] = v
  unfoldable pub put : K → V → HashMap K V → HashMap K V
  put k v [] = (k, v) ∷ []
  put k v ((j, w) ∷ m) = if j == k then (j, v) ∷ m else (j, w) ∷ put k v m

  -- m.erase(k)
  unfoldable pub erase : K → HashMap K V → HashMap K V
  erase k [] = []
  erase k ((j, v) ∷ m) = if j == k then erase k m else (j, v) ∷ erase k m

  -- The value that `m[k]` refers to, where a missing key gets the value `d` first.
  unfoldable pub get_or : K → HashMap K V → V → V
  get_or k m d = elim (find k m) [ none ↦ d | some v ↦ v ]

  -- What reading `m[k]` leaves behind: a missing key is inserted with the value `d`.
  unfoldable pub touch : K → HashMap K V → V → HashMap K V
  touch k m d = elim (find k m) [ none ↦ put k d m | some v ↦ m ]

  pub find-put :
      (k j : K) (v : V) (m : HashMap K V)
      → find j (put k v m) ≡ (if k == j then some v else find j m)
  unfolding find put
  find-put k j v [] = refl
  find-put k j v ((i, w) ∷ m) =
      ground (arith, find-put k j v m, e.beq_iff i k, e.beq_iff i j, e.beq_iff k j)

  pub find-erase :
      (k j : K) (m : HashMap K V) → find j (erase k m) ≡ (if k == j then none else find j m)
  unfolding find erase
  find-erase k j [] = ground arith
  find-erase k j ((i, w) ∷ m) =
      ground (arith, find-erase k j m, e.beq_iff i k, e.beq_iff i j, e.beq_iff k j)

  pub has-find :
      (k : K) (m : HashMap K V) → has k m ≡ elim (find k m) [ none ↦ false | some v ↦ true ]
  unfolding find has
  has-find k [] = refl
  has-find k ((i, w) ∷ m) = ground (arith, has-find k m)

  pub get_or-put :
      (k j : K) (v d : V) (m : HashMap K V)
      → get_or j (put k v m) d ≡ (if k == j then v else get_or j m d)
  unfolding get_or
  get_or-put k j v d m = ground (arith, find-put k j v m)

  pub get_or-touch : (k j : K) (d : V) (m : HashMap K V) → get_or j (touch k m d) d ≡ get_or j m d
  unfolding get_or touch
  get_or-touch k j d m = ground (arith, find-put k j d m, e.beq_iff k j)

  pub has-put :
      (k j : K) (v : V) (m : HashMap K V) → has j (put k v m) ≡ (if k == j then true else has j m)
  has-put k j v m = ground (arith, has-find j (put k v m), has-find j m, find-put k j v m)

  pub has-erase :
      (k j : K) (m : HashMap K V) → has j (erase k m) ≡ (if k == j then false else has j m)
  has-erase k j m = ground (arith, has-find j (erase k m), has-find j m, find-erase k j m)

pub ruleset map_laws = (find-put, find-erase, has-put, has-erase)
