-- ===== src/Common/Split.antt =====
-- `split` of common/include/common.hpp (lines 109-116), which reads a text item by item with
-- std::getline, and the texts that the program writes for it to read.
use spheromone.Prelude.{
  nat_eq, ◌∙◌, ℕ, ◌≡◌, refl, ap, List, [], ◌∷◌, ◌++◌, ◌==◌, ==_refl, if◌then◌else◌, All, ◌≢◌,
}
use spheromone.Text.{Text, Lacks}

-- One more byte for the item in hand; at the end of the text that is a new item.
unfoldable pub push_byte : ℕ → List Text → List Text
push_byte c [] = (c ∷ []) ∷ []
push_byte c (w ∷ ws) = (c ∷ w) ∷ ws

-- std::getline fails at the end of the text, so nothing follows a last delimiter.
unfoldable pub split : ℕ → Text → List Text
unfolding push_byte
split d [] = []
split d (c ∷ s) = let rest = split d s in if c == d then [] ∷ rest else push_byte c rest

-- Each item followed by the delimiter.
unfoldable pub terminated : ℕ → List Text → Text
terminated d [] = []
terminated d (w ∷ ws) = w ++ d ∷ terminated d ws

-- The items with the delimiter between them.
unfoldable pub joined : ℕ → Text → List Text → Text
joined d w [] = w
joined d w (v ∷ vs) = w ++ d ∷ joined d v vs

pub split-delim : (d : ℕ) (w s : Text) → Lacks d w → split d (w ++ d ∷ s) ≡ w ∷ split d s
unfolding split
split-delim d [] s h = rw (==_refl d)
split-delim d (c ∷ w) s h = rw (h.0, split-delim d w s h.1)

pub split_last : (d c : ℕ) (w : Text) → Lacks d (c ∷ w) → split d (c ∷ w) ≡ (c ∷ w) ∷ []
unfolding split
split_last d c [] h = rw h.0
split_last d c (x ∷ w) h = rw h.0 (rw (split_last d x w h.1))

-- Reading items that each end in the delimiter gives the items back, empty ones included.
pub split-terminated : (d : ℕ) (ws : List Text) → All (Lacks d) ws → split d (terminated d ws) ≡ ws
unfolding terminated split
split-terminated d [] h = refl
split-terminated d (w ∷ ws) h =
    split-delim d w (terminated d ws) h.0 ∙ ap (λ r. w ∷ r) (split-terminated d ws h.1)

-- The last of the items `w ∷ ws`.
abbrev pub last : Text → List Text → Text
last w [] = w
last w (v ∷ vs) = last v vs

-- Items with the delimiter between them come back too, unless the last is empty.
pub split-joined :
    (d : ℕ) (w : Text) (ws : List Text)
    → All (Lacks d) (w ∷ ws)
    → last w ws ≢ []
    → split d (joined d w ws) ≡ w ∷ ws
unfolding joined
split-joined d [] [] h n = absurd (n refl)
split-joined d (c ∷ w) [] h n = split_last d c w h.0
split-joined d w (v ∷ vs) h n =
    split-delim d w (joined d v vs) h.0 ∙ ap (λ r. w ∷ r) (split-joined d v vs h.1 n)

-- An empty last item is lost.
pub split-joined_empty :
    (d : ℕ) (w : Text) (ws : List Text)
    → All (Lacks d) (w ∷ ws)
    → split d (joined d w (ws ++ [] ∷ [])) ≡ w ∷ ws
unfolding joined
split-joined_empty d w [] h = unfold split in split-delim d w [] h.0
split-joined_empty d w (v ∷ vs) h =
    split-delim d w (joined d v (vs ++ [] ∷ [])) h.0
    ∙ ap (λ r. w ∷ r) (split-joined_empty d v vs h.1)
