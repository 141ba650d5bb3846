-- ===== src/Common/Timestamp.antt =====
-- generate_timestamp of common/include/common.hpp (134-146). `unsigned` has 32 bits and the
-- timestamp 64; the time in milliseconds is an argument. The loop takes fuel, and nine rounds are
-- enough for an id below 10 ^ 9.
use native.Mathlib.Nat.{
  pow-suc, pow-zero, mod-eq_of_lt, mul-add-div_right, mul-add-mod_self_right, div-eq_of_lt,
}
use spheromone.Prelude.{
  ◌∙◌, true, ap, ℕ, zero, suc, ◌+◌, ◌*◌, ◌/◌, ◌%◌, ◌^◌, ◌<◌, ◌≤◌, ◌≡◌, refl, Option, none, some,
  arith, leb, if◌then◌else◌, Bool-cases, inl, inr,
}

-- while (id >= pow) pow *= 10;
unfoldable pub timestamp_pow : ℕ → ℕ → ℕ → Option ℕ
timestamp_pow zero id pow = none
timestamp_pow (suc fuel) id pow =
    let rest = timestamp_pow fuel id (pow * 10 % 2 ^ 32) in if leb pow id then rest else some pow

unfoldable pub generate_timestamp : ℕ → ℕ → ℕ → Option ℕ
generate_timestamp fuel time id = elim (timestamp_pow fuel id 10) [
  | none ↦ none
  | some pow ↦ some ((time * pow + id) % 2 ^ 64)
]

pow-pos : (f : ℕ) → 0 < 10 ^ f
pow-pos zero = omega (arith, pow-zero 10)
pow-pos (suc f) = omega (arith, pow-suc 10 f, pow-pos f)

le_of_scaled : (a b : ℕ) → 0 < b → a * b ≤ 1000000000 → a ≤ 1000000000
le_of_scaled a b p h = grind arith

timestamp_pow_more :
    (f id pow : ℕ)
    → leb pow id ≡ true
    → pow * 10 ≤ 1000000000
    → timestamp_pow (suc f) id pow ≡ timestamp_pow f id (pow * 10)
unfolding timestamp_pow
timestamp_pow_more f id pow h fits =
    let small : pow * 10 % 2 ^ 32 ≡ pow * 10 = omega arith in rw (h, small) refl

timestamp_pow-total :
    (f id pow : ℕ)
    → pow * 10 ^ f ≤ 1000000000
    → id < pow * 10 ^ f
    → (q : ℕ) × (timestamp_pow (suc f) id pow ≡ some q) × (id < q) × (q ≤ 1000000000)
timestamp_pow-total zero id pow h l =
    let low : id < pow = omega (arith, pow-zero 10) in
    (pow, unfold timestamp_pow in ground arith, low, omega (arith, pow-zero 10))
timestamp_pow-total (suc f) id pow h l =
    let e = pow-suc 10 f in
    let pos : 0 < 10 ^ f = pow-pos f in
    let fits : pow * 10 ≤ 1000000000 =
      le_of_scaled (pow * 10) (10 ^ f) pos (omega (arith, ap (λ (t : ℕ). pow * t) e)) in
    let same : pow * 10 * 10 ^ f ≡ pow * 10 ^ suc f = omega (arith, ap (λ (t : ℕ). pow * t) e) in
    elim (Bool-cases (leb pow id)) [
      | inr stop ↦ (pow, unfold timestamp_pow in rw stop refl, ground arith, omega arith)
      | inl more ↦
          let (q, r, a, b) = timestamp_pow-total f id (pow * 10) (omega arith) (omega arith) in
          (q, timestamp_pow_more (suc f) id pow more fits ∙ r, a, b)
    ]

generate_timestamp-some :
    (f time id q : ℕ)
    → timestamp_pow f id 10 ≡ some q
    → time * q + id < 2 ^ 64
    → generate_timestamp f time id ≡ some (time * q + id)
unfolding generate_timestamp
generate_timestamp-some f time id q r bound =
    rw (r, generate_timestamp) (ap some (mod-eq_of_lt bound))

scaled_bound :
    (time id q : ℕ)
    → id < q
    → q ≤ 1000000000
    → (time + 1) * 1000000000 ≤ 2 ^ 64
    → time * q + id < 2 ^ 64
scaled_bound time id q a b fits = let m : time * q ≤ time * 1000000000 = grind arith in omega arith

-- For an id below 10 ^ 9 nine rounds end the loop, and if the timestamp fits into 64 bits it is
-- made of the time and the id: dividing it by a number above the id, a power of ten of at most
-- 10 ^ 9, gives both back.
pub generate_timestamp-total :
    (time id : ℕ)
    → id < 1000000000
    → (time + 1) * 1000000000 ≤ 2 ^ 64
    → (pow : ℕ) × (ts : ℕ) × (generate_timestamp 9 time id ≡ some ts)
      × (id < pow)
      × (pow ≤ 1000000000)
      × (ts / pow ≡ time)
      × (ts % pow ≡ id)
generate_timestamp-total time id h fits =
    let (q, r, a, b) = timestamp_pow-total 8 id 10 (omega arith) (omega arith) in
    let bound : time * q + id < 2 ^ 64 = scaled_bound time id q a b fits in
    (
      q,
      time * q + id,
      generate_timestamp-some 9 time id q r bound,
      a,
      b,
      mul-add-div_right (omega arith) time id ∙ (rw (div-eq_of_lt a) (omega arith)),
      mul-add-mod_self_right time q id ∙ mod-eq_of_lt a,
    )
