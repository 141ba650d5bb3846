-- ===== src/Common/Random.antt =====
-- Random identifiers: gen_random of common/include/common.hpp (118-132). The generator rand_r of
-- the C library is a parameter: it takes the seed and returns a number and the next seed.
use spheromone.Prelude.{ℕ, zero, suc, ◌%◌, ◌<◌, ◌≡◌, refl, ap, [], ◌∷◌, arith, nat_eq, length, All}
use spheromone.Text.{Text, text, Lacks}
use spheromone.Common.Key.{delimiter}

abbrev pub alpha_num : Text
alpha_num = text "0123456789ABCDEFGHIJKLMNOPQRSTUVWXYZabcdefghijklmnopqrstuvwxyz"

-- alpha_num[i]; the model gives 0 outside of the table, where no index falls.
unfoldable pub byte_at : Text → ℕ → ℕ
byte_at [] i = 0
byte_at (c ∷ s) zero = c
byte_at (c ∷ s) (suc i) = byte_at s i

module _ (rand_r : ℕ → ℕ × ℕ) where
  -- The text and the seed that is left.
  unfoldable pub gen_random : ℕ → ℕ → Text × ℕ
  unfolding byte_at
  gen_random seed zero = ([], seed)
  gen_random seed (suc len) =
      let (r, next) = rand_r seed in
      let (rest, last) = gen_random next len in (byte_at alpha_num (r % 62) ∷ rest, last)

-- A byte in the range of letters and digits.
abbrev pub InTable : ℕ → Type 0
InTable c = (47 < c) × (c < 123)

byte_at-All : (s : Text) (i : ℕ) → All InTable s → i < length s → InTable (byte_at s i)
unfolding byte_at
byte_at-All [] i h l = absurd (omega arith)
byte_at-All (c ∷ s) zero h l = h.0
byte_at-All (c ∷ s) (suc i) h l = byte_at-All s i h.1 (omega arith)

alpha_num-InTable : All InTable alpha_num
alpha_num-InTable = omega arith

-- Whatever the generator, the identifier has the length that was asked for, every byte of it lies
-- between '0' and 'z', and no byte is the delimiter of object names and calls.
pub gen_random-Lacks :
    (rand_r : ℕ → ℕ × ℕ) (seed len : ℕ)
    → (length (gen_random rand_r seed len).0 ≡ len)
      × All InTable (gen_random rand_r seed len).0
      × Lacks delimiter (gen_random rand_r seed len).0
unfolding gen_random
gen_random-Lacks rand_r seed zero = (refl, tt, tt)
gen_random-Lacks rand_r seed (suc len) =
    let (r, next) = rand_r seed in
    let rest = gen_random-Lacks rand_r next len in
    let here = byte_at-All alpha_num (r % 62) alpha_num-InTable (omega arith) in
    (ap suc rest.0, (here, rest.1), (ground arith, rest.2))
