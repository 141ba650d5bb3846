-- ===== src/Tests/Names.antt =====
-- Names, items and identifiers at concrete inputs.
use spheromone.Common.Requests.{receive_all, timeouts, Asked, receive_all_ends}
use spheromone.Prelude.{Bool, Option, none, ℕ, ◌+◌, ◌≡◌, refl, List, [], ◌∷◌, arith, All, some}
use spheromone.Text.{Text, text}
use spheromone.Common.Key.{
  BucketKey, shm_key_name, get_bucket_key_from_string, get_bucket_key_from_string-shm_key_name,
}

abbrev object : BucketKey
object = record { bucket = text "b"; key = text "k"; session = text "0123456789abcdef" }

get_bucket_key_from_string-shm_key_name_example :
    get_bucket_key_from_string (shm_key_name object) ≡ object
get_bucket_key_from_string-shm_key_name_example =
    get_bucket_key_from_string-shm_key_name object (refl, tt) (λ p. cc) refl

abbrev words : List Text
words = text "ab" ∷ [] ∷ text "c" ∷ []

abbrev counter : ℕ → ℕ × ℕ
counter seed = (seed, seed + 1)

abbrev seventh : ℕ
seventh = 7

abbrev reads : List (Option Text)
reads = some (text "2") ∷ none ∷ some (text "1") ∷ none ∷ []

receive_all_ends_example :
    (done : Bool) × (got : List Text) × (receive_all
        (λ (r : Text). r)
        reads
        (text "1" ∷ text "2" ∷ [])
      ≡ some (done, got))
    × All (Asked (λ (r : Text). r) (text "1" ∷ text "2" ∷ [])) got
receive_all_ends_example =
    receive_all_ends (λ (r : Text). r) reads (text "1" ∷ text "2" ∷ []) (omega arith) (omega arith)
      (unfold timeouts in omega arith)
