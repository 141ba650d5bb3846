-- ===== src/Common/Result.antt =====
-- The result of code that may fail.
use spheromone.Prelude.{Bool, true, false, if◌then◌else◌}

-- `crash`: the process ends, by an exception that nothing catches or an invalid memory access.
pub data Result {ℓ} (A : Type ℓ) : Type ℓ where
  ok : A → Result A
  crash : Result A

infixl 5 ◌>>=◌
abbrev pub ◌>>=◌ {ℓ κ} : {A : Type ℓ} {B : Type κ} → Result A → (A → Result B) → Result B
ok a >>= f = f a
crash >>= f = crash

-- What holds of the value, if there is one.
abbrev pub Ensures {ℓ κ} : {A : Type ℓ} → (A → Type κ) → Result A → Type κ
Ensures P (ok a) = P a
Ensures P crash = Unit

module _ {ℓ κ μ ν} {A : Type ℓ} {B : Type κ} (Q : A → Type μ) (P : B → Type ν) where
  pub Ensures->>= :
      (m : Result A) (f : A → Result B)
      → Ensures Q m
      → ((a : A) → Q a → Ensures P (f a))
      → Ensures P (m >>= f)
  Ensures->>= (ok a) f h k = k a h
  Ensures->>= crash f h k = tt

module _ {ℓ κ} {A : Type ℓ} (P : A → Type κ) where
  pub Ensures-if :
      (b : Bool) (x y : Result A) → Ensures P x → Ensures P y → Ensures P (if b then x else y)
  Ensures-if true x y h k = h
  Ensures-if false x y h k = k

pub Ensures-anything {ℓ} : {A : Type ℓ} (m : Result A) → Ensures (λ (a : A). Unit {0}) m
Ensures-anything (ok a) = tt
Ensures-anything crash = tt

-- Nothing is known of the first result.
pub Ensures-after {ℓ κ ν} :
    {A : Type ℓ} {B : Type κ} (P : B → Type ν) (m : Result A) (f : A → Result B)
    → ((a : A) → Ensures P (f a))
    → Ensures P (m >>= f)
Ensures-after P (ok a) f k = k a
Ensures-after P crash f k = tt

pub Ensures-map {ℓ κ ν} :
    {A : Type ℓ} (P : A → Type κ) (Q : A → Type ν) (m : Result A)
    → ((a : A) → P a → Q a)
    → Ensures P m
    → Ensures Q m
Ensures-map P Q (ok a) f h = f a h
Ensures-map P Q crash f h = tt

pub Ensures-all {ℓ κ ν} :
    {X : Type ℓ} {A : Type κ} (P : X → A → Type ν) (m : Result A)
    → ((x : X) → Ensures (P x) m)
    → Ensures (λ a. (x : X) → P x a) m
Ensures-all P (ok a) h = h
Ensures-all P crash h = tt
