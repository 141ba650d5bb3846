-- ===== src/Common/Requests.antt =====
-- receive of common/include/requests.hpp: the answers to a set of requests. The socket is a sequence
-- of what its reads give: a response, or `none` when the read timed out.
use spheromone.Prelude.{
  ◌∙◌, ℕ, ◌+◌, ◌-◌, ◌%◌, ◌^◌, ◌<◌, ◌≤◌, ◌≡◌, refl, Bool, true, false, Option, none, some, List, [],
  ◌∷◌, ◌++◌, arith, nat_eq, ◌==◌, if◌then◌else◌, length, All, All-snoc, Bool-cases, inl, inr,
}
use spheromone.Text.{Text, text_eq}
use spheromone.HashSet
use spheromone.HashSet.{HashSet, IsSubset, contains-erase}

module _ {R : Type 0} (response_id : R → Text) where
  -- `none` means that it still waits. timeout_limit is an unsigned number of 32 bits.
  unfoldable pub receive : List (Option R) → HashSet Text → ℕ → List R → Option (Bool × List R)
  receive [] ids limit responses = none
  receive (some r ∷ reads) ids limit responses =
      let known = HashSet.contains (response_id r) ids in
      let left = if known then HashSet.erase (response_id r) ids else ids in
      let got = if known then responses ++ r ∷ [] else responses in
      let rest = receive reads left limit got in if length left == 0 then some (true, got) else rest
  receive (none ∷ reads) ids limit responses =
      let less = (limit + 2 ^ 32 - 1) % 2 ^ 32 in
      let rest = receive reads ids less responses in if less == 0 then some (false, []) else rest

  -- As many timeouts are allowed as there are requests.
  unfoldable pub receive_all : List (Option R) → HashSet Text → Option (Bool × List R)
  unfolding receive
  receive_all reads ids = receive reads ids (length ids) []

  unfoldable pub timeouts : List (Option R) → ℕ
  timeouts [] = 0
  timeouts (some r ∷ reads) = timeouts reads
  timeouts (none ∷ reads) = timeouts reads + 1

  abbrev pub Asked : HashSet Text → R → Type 0
  Asked ids r = HashSet.contains (response_id r) ids ≡ true

  abbrev Ends : List (Option R) → HashSet Text → HashSet Text → ℕ → List R → Type 0
  Ends reads asked ids limit responses =
      (done : Bool) × (got : List R) × (receive reads ids limit responses ≡ some (done, got))
      × All (Asked asked) got

  step_known :
      (r : R) (reads : List (Option R)) (ids : HashSet Text) (limit : ℕ) (responses : List R)
      → Asked ids r
      → receive (some r ∷ reads) ids limit responses ≡ (
          if length (HashSet.erase (response_id r) ids) == 0
          then some (true, responses ++ r ∷ [])
          else receive reads (HashSet.erase (response_id r) ids) limit (responses ++ r ∷ []))
  unfolding receive
  step_known r reads ids limit responses h = rw h refl

  step_unknown :
      (r : R) (reads : List (Option R)) (ids : HashSet Text) (limit : ℕ) (responses : List R)
      → HashSet.contains (response_id r) ids ≡ false
      → receive (some r ∷ reads) ids limit responses
        ≡ (if length ids == 0 then some (true, responses) else receive reads ids limit responses)
  unfolding receive
  step_unknown r reads ids limit responses h = rw h refl

  receive-Ends :
      (reads : List (Option R)) (asked ids : HashSet Text) (limit : ℕ) (responses : List R)
      → IsSubset ids asked
      → All (Asked asked) responses
      → 0 < limit
      → limit < 2 ^ 32
      → limit ≤ timeouts reads
      → Ends reads asked ids limit responses
  unfolding receive timeouts
  receive-Ends [] asked ids limit responses s a p w t = absurd (omega arith)
  receive-Ends (none ∷ reads) asked ids limit responses s a p w t =
      elim (Bool-cases ((limit + 2 ^ 32 - 1) % 2 ^ 32 == 0)) [
        | inl h ↦ (false, [], rw h refl, tt)
        | inr h ↦
            let (done, got, e, all) =
              receive-Ends reads asked ids ((limit + 2 ^ 32 - 1) % 2 ^ 32) responses s a
                (ground arith) (omega arith) (omega arith) in
            (done, got, rw h e, all)
      ]
  receive-Ends (some r ∷ reads) asked ids limit responses s a p w t =
      elim (Bool-cases (HashSet.contains (response_id r) ids)) [
        | inl known ↦
            let left = HashSet.erase (response_id r) ids in
            let all = All-snoc (Asked asked) responses r a (s (response_id r) known) in
            elim (Bool-cases (length left == 0)) [
              | inl h ↦ (
                true,
                responses ++ r ∷ [],
                step_known r reads ids limit responses known ∙ rw h refl,
                all,
              )
              | inr h ↦
                  let (done, got, e, all') =
                    receive-Ends reads asked left limit (responses ++ r ∷ []) (smaller known) all p
                      w t in
                  (done, got, step_known r reads ids limit responses known ∙ rw h e, all')
            ]
        | inr other ↦ elim (Bool-cases (length ids == 0)) [
          | inl h ↦ (true, responses, step_unknown r reads ids limit responses other ∙ rw h refl, a)
          | inr h ↦
              let (done, got, e, all') = receive-Ends reads asked ids limit responses s a p w t in
              (done, got, step_unknown r reads ids limit responses other ∙ rw h e, all')
        ]
      ]
    where
      smaller : Asked ids r → IsSubset (HashSet.erase (response_id r) ids) asked
      smaller known k h = s k (ground (arith, contains-erase (response_id r) k ids))

  -- Waiting for the answers of some requests ends: if as many reads time out as there are requests,
  -- or before, it returns, and every response that it returns answers one of the requests.
  pub receive_all_ends :
      (reads : List (Option R)) (ids : HashSet Text)
      → 0 < length ids
      → length ids < 2 ^ 32
      → length ids ≤ timeouts reads
      → (done : Bool) × (got : List R) × (receive_all reads ids ≡ some (done, got))
        × All (Asked ids) got
  unfolding receive_all
  receive_all_ends reads ids p w t = receive-Ends reads ids ids (length ids) [] (λ k h. h) tt p w t
