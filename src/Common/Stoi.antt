-- ===== src/Common/Stoi.antt =====
-- std::stoi, which the program calls to read numbers from texts.
use spheromone.Prelude.{
  arith, ◌≡◌, refl, All, ◌<◌, subst, sym, ap, ◌∙◌, ℕ, zero, suc, ◌+◌, ◌-◌, ◌*◌, ◌^◌, Bool, true,
  false, Option, none, some, [], ◌∷◌, if◌then◌else◌, nat_eq, ◌==◌, ltb, leb, ◌&&◌,
}
use spheromone.Prelude.Int.{ℤ, pos, negsuc}
use spheromone.Text.{
  Text, IsDigit, value_of, to_string, to_string-IsDigit, to_string_cons, to_string-value_of,
}
use spheromone.Common.Result.{Result, ok, crash}

-- The digits in front of a text, as a number; `none` without a digit.
unfoldable pub leading : Text → Option ℕ → Option ℕ
leading [] acc = acc
leading (c ∷ s) acc =
    let value : ℕ = elim acc [ none ↦ 0 | some v ↦ v ] in
    let more = leading s (some (value * 10 + (c - b'0'))) in
    if leb b'0' c && leb c b'9' then more else acc

-- The blanks of the "C" locale, which std::stoi skips.
abbrev pub is_space : ℕ → Bool
is_space c = if c == b' ' then true else leb 9 c && leb c 13

unfoldable pub skip_space : Text → Text
skip_space [] = []
skip_space (c ∷ s) = let rest = skip_space s in if is_space c then rest else c ∷ s

abbrev pub in_int : Bool → Option ℕ → Result ℤ
in_int negative none = crash
in_int false (some n) = if ltb n (2 ^ 31) then ok (pos n) else crash
in_int true (some zero) = ok (pos 0)
in_int true (some (suc n)) = if ltb n (2 ^ 31) then ok (negsuc n) else crash

abbrev pub signed : Text → Result ℤ
signed [] = crash
signed (c ∷ s) =
    if c == b'-'
    then in_int true (leading s none)
    else if c == b'+'
    then in_int false (leading s none)
    else in_int false (leading (c ∷ s) none)

-- std::stoi: a number outside of the range of int throws, as a text without a number does.
unfoldable pub stoi : Text → Result ℤ
unfolding leading skip_space
stoi s = signed (skip_space s)

leading_digits : (s : Text) (v : ℕ) → All IsDigit s → leading s (some v) ≡ some (value_of v s)
unfolding leading value_of
leading_digits [] v h = refl
leading_digits (c ∷ s) v h = ground (arith, leading_digits s (v * 10 + (c - b'0')) h.1)

stoi_digits :
    (c : ℕ) (s : Text)
    → All IsDigit (c ∷ s)
    → value_of 0 (c ∷ s) < 2 ^ 31
    → stoi (c ∷ s) ≡ ok (pos (value_of 0 (c ∷ s)))
unfolding stoi skip_space leading value_of
stoi_digits c s h small = ground (arith, leading_digits s (c - b'0') h.1)

-- A printed number below 2 ^ 31 is read back.
pub stoi-to_string : (n : ℕ) → n < 2 ^ 31 → stoi (to_string n) ≡ ok (pos n)
stoi-to_string n h =
    let (c, s, e) = to_string_cons n in
    let digits : All IsDigit (c ∷ s) = subst (All IsDigit) e (to_string-IsDigit n) in
    let value : value_of 0 (c ∷ s) ≡ n = ap (value_of 0) (sym e) ∙ to_string-value_of n in
    rw e (stoi_digits c s digits (subst (λ k. k < 2 ^ 31) (sym value) h))
    ∙ ap (λ k. ok (pos k)) value
