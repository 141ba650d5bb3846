-- ===== src/Text.antt =====
-- std::string as the list of its bytes, and what the program uses of the standard library on it:
-- `+`, find, substr, empty, size and std::to_string.
use Prim.Native.Char.{code}
use Prim.Native.String.{String}
use spheromone.Prelude.{
  nat_eq, All-snoc, ℕ, zero, suc, ◌+◌, ◌-◌, ◌*◌, ◌/◌, ◌%◌, ◌<◌, ◌≡◌, refl, ap, Bool, true, false,
  Option, none, some, List, [], ◌∷◌, ◌++◌, arith, Eq, nat_beq, ◌==◌, ◌↔◌, if◌then◌else◌, ltb, All,
  ◌&&◌, length, Bool-cases, inl, inr,
}

abbrev pub Text : Type 0
Text = List ℕ

-- The bytes of an ASCII literal.
abbrev pub text : String → Text
text String.[] = []
text (String.◌∷◌ c s) = code c ∷ text s

abbrev pub text_beq : Text → Text → Bool
text_beq [] [] = true
text_beq [] (y ∷ t) = false
text_beq (x ∷ s) [] = false
text_beq (x ∷ s) (y ∷ t) = nat_beq x y && text_beq s t

text_beq_sound : (s t : Text) → text_beq s t ≡ true → s ≡ t
text_beq_sound [] [] h = refl
text_beq_sound [] (y ∷ t) h = cc
text_beq_sound (x ∷ s) [] h = cc
text_beq_sound (x ∷ s) (y ∷ t) h = ground (arith, text_beq_sound s t)

text_beq_refl : (s : Text) → text_beq s s ≡ true
text_beq_refl [] = refl
text_beq_refl (x ∷ s) = ground (arith, text_beq_refl s)

pub text_beq_iff : (s t : Text) → (text_beq s t ≡ true) ↔ (s ≡ t)
text_beq_iff s t = (text_beq_sound s t, λ p. rw p (text_beq_refl t))

instance abbrev pub text_eq : Eq Text
text_eq = record { beq = text_beq; beq_iff = text_beq_iff }

-- s.empty()
unfoldable pub empty : Text → Bool
empty [] = true
empty (c ∷ s) = false

-- s.find(c) for one character: the first position of `c`, `none` for npos.
unfoldable pub find_char : ℕ → Text → Option ℕ
find_char c [] = none
find_char c (x ∷ s) =
    if x == c then some 0 else elim (find_char c s) [ none ↦ none | some i ↦ some (suc i) ]

-- No byte of the text is `c`.
abbrev pub Lacks : ℕ → Text → Type 0
Lacks c = All λ x. (x == c) ≡ false

-- The decimal digits of `n`, at most `fuel` of them.
decimal : ℕ → ℕ → Text
decimal zero n = []
decimal (suc fuel) n =
    let more = decimal fuel (n / 10) in
    if ltb n 10 then (b'0' + n) ∷ [] else more ++ (b'0' + n % 10) ∷ []

-- std::to_string(n); a number has at most n + 1 digits.
unfoldable pub to_string : ℕ → Text
unfolding decimal
to_string n = decimal (suc n) n

pub find_char-append : (c : ℕ) (s t : Text) → Lacks c s → find_char c (s ++ c ∷ t) ≡ some (length s)
unfolding find_char
find_char-append c [] t h = ground arith
find_char-append c (x ∷ s) t h = ground (arith, find_char-append c s t)

abbrev pub IsDigit : ℕ → Type 0
IsDigit c = (b'0' < suc c) × (c < b'0' + 10)

decimal-IsDigit : (fuel n : ℕ) → All IsDigit (decimal fuel n)
unfolding decimal
decimal-IsDigit zero n = tt
decimal-IsDigit (suc fuel) n = elim (Bool-cases (ltb n 10)) [
  | inl h ↦ rw h (ground arith)
  | inr h ↦
      rw h (All-snoc _ (decimal fuel (n / 10)) _ (decimal-IsDigit fuel (n / 10)) (omega arith))
]

-- A printed number is made of decimal digits.
pub to_string-IsDigit : (n : ℕ) → All IsDigit (to_string n)
unfolding to_string
to_string-IsDigit n = decimal-IsDigit (suc n) n

-- The number that a decimal text stands for.
unfoldable pub value_of : ℕ → Text → ℕ
value_of acc [] = acc
value_of acc (c ∷ s) = value_of (acc * 10 + (c - b'0')) s

value_of-snoc :
    (acc : ℕ) (s : Text) (c : ℕ) → value_of acc (s ++ c ∷ []) ≡ value_of acc s * 10 + (c - b'0')
unfolding value_of
value_of-snoc acc [] c = refl
value_of-snoc acc (x ∷ s) c = value_of-snoc (acc * 10 + (x - b'0')) s c

decimal-value_of : (fuel n : ℕ) → n < fuel → value_of 0 (decimal fuel n) ≡ n
unfolding decimal
decimal-value_of zero n h = absurd (omega arith)
decimal-value_of (suc fuel) n h = elim (Bool-cases (ltb n 10)) [
  | inl e ↦ rw e (unfold value_of in ground arith)
  | inr e ↦ rw e (
      rw (value_of-snoc 0 (decimal fuel (n / 10)) (b'0' + n % 10))
        (ground (arith, decimal-value_of fuel (n / 10))))
]

-- Reading a printed number gives it back, so the digits never run out.
pub to_string-value_of : (n : ℕ) → value_of 0 (to_string n) ≡ n
unfolding to_string
to_string-value_of n = decimal-value_of (suc n) n (omega arith)

pub to_string_injective : (m n : ℕ) → to_string m ≡ to_string n → m ≡ n
to_string_injective m n p = cc (to_string-value_of m, to_string-value_of n, ap (value_of 0) p)

snoc_cons : (s : Text) (c : ℕ) → (d : ℕ) × (t : Text) × (s ++ c ∷ [] ≡ d ∷ t)
snoc_cons [] c = (c, [], refl)
snoc_cons (d ∷ s) c = (d, s ++ c ∷ [], refl)

decimal_cons : (fuel n : ℕ) → (c : ℕ) × (s : Text) × (decimal (suc fuel) n ≡ c ∷ s)
unfolding decimal
decimal_cons fuel n = elim (Bool-cases (ltb n 10)) [
  | inl h ↦ rw h (b'0' + n, [], refl)
  | inr h ↦ rw h (snoc_cons (decimal fuel (n / 10)) (b'0' + n % 10))
]

-- A printed number has a first digit.
pub to_string_cons : (n : ℕ) → (c : ℕ) × (s : Text) × (to_string n ≡ c ∷ s)
unfolding to_string
to_string_cons n = decimal_cons n n
