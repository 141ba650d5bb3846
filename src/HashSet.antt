-- ===== src/HashSet.antt =====
-- `set` of common/include/types.hpp (std::unordered_set): a list without repetitions, in an
-- order that the theorems leave open. A new element goes to the end.
use spheromone.Prelude.{
  ◌<◌, ◌≤◌, ◌<◌, ◌≡◌, refl, ap, sym, Bool, true, false, List, [], ◌∷◌, ◌++◌, arith, Eq, ◌==◌,
  ==_cases, ==_refl, if◌then◌else◌, inl, inr, length, Bool-cases, ◌||◌, append-nil, append_assoc,
  ◌∙◌, subst,
}

abbrev pub HashSet {ℓ} : Type ℓ → Type ℓ
HashSet K = List K

module _ {ℓ} {K : Type ℓ} ⦃e : Eq K⦄ where
  -- s.find(k) != s.end()
  unfoldable pub contains : K → HashSet K → Bool
  contains k [] = false
  contains k (x ∷ s) = if x == k then true else contains k s

  -- s.insert(k)
  unfoldable pub insert : K → HashSet K → HashSet K
  insert k [] = k ∷ []
  insert k (x ∷ s) = if x == k then x ∷ s else x ∷ insert k s

  -- s.erase(k)
  unfoldable pub erase : K → HashSet K → HashSet K
  erase k [] = []
  erase k (x ∷ s) = if x == k then erase k s else x ∷ erase k s

  -- for (auto &k : ks) s.insert(k)
  unfoldable pub insert_all : List K → HashSet K → HashSet K
  insert_all [] s = s
  insert_all (k ∷ ks) s = insert_all ks (insert k s)

  -- No element stands twice.
  abbrev pub IsDistinct : HashSet K → Type 0
  IsDistinct [] = Unit
  IsDistinct (x ∷ s) = (contains x s ≡ false) × IsDistinct s

  pub contains-insert :
      (k j : K) (s : HashSet K) → contains j (insert k s) ≡ (if k == j then true else contains j s)
  unfolding contains insert
  contains-insert k j [] = refl
  contains-insert k j (x ∷ s) =
      ground (arith, contains-insert k j s, e.beq_iff x k, e.beq_iff x j, e.beq_iff k j)

  pub contains-erase :
      (k j : K) (s : HashSet K) → contains j (erase k s) ≡ (if k == j then false else contains j s)
  unfolding contains erase
  contains-erase k j [] = ground arith
  contains-erase k j (x ∷ s) =
      ground (arith, contains-erase k j s, e.beq_iff x k, e.beq_iff x j, e.beq_iff k j)

  pub insert_old : (k : K) (s : HashSet K) → contains k s ≡ true → insert k s ≡ s
  unfolding contains insert
  insert_old k [] h = cc
  insert_old k (x ∷ s) h = ground (arith, insert_old k s)

  pub insert_new : (k : K) (s : HashSet K) → contains k s ≡ false → insert k s ≡ s ++ k ∷ []
  unfolding contains insert
  insert_new k [] h = refl
  insert_new k (x ∷ s) h = ground (arith, insert_new k s)

  pub insert-IsDistinct : (k : K) (s : HashSet K) → IsDistinct s → IsDistinct (insert k s)
  unfolding insert
  insert-IsDistinct k [] d = unfold contains in (refl, tt)
  insert-IsDistinct k (x ∷ s) d =
      ground (arith, insert-IsDistinct k s d.1, contains-insert k x s, e.beq_iff x k, e.beq_iff k x)

  abbrev pub IsSubset : HashSet K → HashSet K → Type ℓ
  IsSubset s t = (k : K) → contains k s ≡ true → contains k t ≡ true

  abbrev pub IsDisjoint : HashSet K → HashSet K → Type ℓ
  IsDisjoint s t = (k : K) → contains k s ≡ true → contains k t ≡ false

  pub contains-head : (k : K) (s : HashSet K) → contains k (k ∷ s) ≡ true
  unfolding contains
  contains-head k s = rw (==_refl k)

  pub contains-tail : (j k : K) (s : HashSet K) → contains j s ≡ true → contains j (k ∷ s) ≡ true
  unfolding contains
  contains-tail j k s h = ground arith

  -- What is in the tail of a set without repetitions is not its head.
  pub head-ne :
      (j k : K) (s : HashSet K) → contains k s ≡ false → contains j s ≡ true → (k == j) ≡ false
  head-ne j k s n h = elim (==_cases k j) [
    | inl p ↦ cc (n, h, ap (λ (x : K). contains x s) p.1)
    | inr p ↦ p.0
  ]

  -- Inserting one by one a list without repetitions, none of which is there, appends it.
  pub insert_all-distinct :
      (ks s : HashSet K) → IsDistinct ks → IsDisjoint ks s → insert_all ks s ≡ s ++ ks
  unfolding insert_all
  insert_all-distinct [] s d f = sym (append-nil s)
  insert_all-distinct (k ∷ ks) s d f =
      insert_all-distinct ks (insert k s) d.1
        (λ j h. rw (contains-insert k j s, head-ne j k ks d.0 h) (f j (contains-tail j k ks h)))
      ∙ (rw (insert_new k s (f k (contains-head k ks))) (append_assoc s (k ∷ []) ks))

  pub contains-insert_all :
      (ks : List K) (j : K) (s : HashSet K)
      → contains j (insert_all ks s) ≡ (contains j ks || contains j s)
  unfolding insert_all contains
  contains-insert_all [] j s = refl
  contains-insert_all (k ∷ ks) j s =
      ground (arith, contains-insert_all ks j (insert k s), contains-insert k j s)

  pub insert_all-IsDistinct : (ks s : HashSet K) → IsDistinct s → IsDistinct (insert_all ks s)
  unfolding insert_all
  insert_all-IsDistinct [] s d = d
  insert_all-IsDistinct (k ∷ ks) s d =
      insert_all-IsDistinct ks (insert k s) (insert-IsDistinct k s d)

  length-erase-le : (k : K) (s : HashSet K) → length (erase k s) ≤ length s
  unfolding erase
  length-erase-le k [] = omega arith
  length-erase-le k (x ∷ s) = ground (arith, length-erase-le k s)

  length-erase-lt : (k : K) (s : HashSet K) → contains k s ≡ true → length (erase k s) < length s
  unfolding contains erase
  length-erase-lt k [] h = cc
  length-erase-lt k (x ∷ s) h = ground (arith, length-erase-lt k s, length-erase-le k s)

  -- A set within another has at most as many elements.
  pub length-subset : (s t : HashSet K) → IsDistinct s → IsSubset s t → length s ≤ length t
  length-subset [] t d f = omega arith
  length-subset (x ∷ s) t d f =
      let shrinks = length-erase-lt x t (f x (contains-head x s)) in
      let rest =
        length-subset s (erase x t) d.1
          (λ k h. rw (contains-erase x k t, head-ne k x s d.0 h) (f k (contains-tail k x s h))) in
      omega arith

  contains-subset :
      (x k : K) (s t : HashSet K)
      → IsSubset s t
      → contains x t ≡ true
      → contains k (x ∷ s) ≡ true
      → contains k t ≡ true
  unfolding contains
  contains-subset x k s t f h c = elim (==_cases x k) [
    | inl p ↦ subst (λ y. contains y t ≡ true) p.1 h
    | inr p ↦ f k (ground arith)
  ]

  -- A set within another of the same size is the whole of it.
  pub subset_full :
      (s t : HashSet K) → IsDistinct s → IsSubset s t → length s ≡ length t → IsSubset t s
  subset_full s t d f e k h = elim (Bool-cases (contains k s)) [
    | inl old ↦ old
    | inr new ↦ absurd (
        let more = length-subset (k ∷ s) t (new, d) (λ j c. contains-subset k j s t f h c) in
        omega arith)
  ]
