-- ===== src/Text/Split/Plain.antt =====
-- Searching and splitting text that does not hold the separator.
use nanofish.Prelude.{ℕ, ◌≢◌, [], ◌∷◌, ◌++◌, some, ◌≡◌, refl, Bytes, All, arith, length, codes}
use nanofish.Text.Split.{starts_with, find_window, find_byte, split_on}

-- No byte of the text is `c`.
abbrev pub Lacks : ℕ → Bytes → Type 0
Lacks c = All (λ b. b ≢ c)

pub split_on_of_Lacks : (c : ℕ) (s : Bytes) → Lacks c s → split_on c s ≡ s ∷ []
unfolding split_on
split_on_of_Lacks c [] h = refl
split_on_of_Lacks c (a ∷ s) (h, hs) = ground (arith, split_on_of_Lacks c s hs)

pub find_byte_of_Lacks :
    (c : ℕ) (s t : Bytes) → Lacks c s → find_byte c (s ++ c ∷ t) ≡ some (length s)
unfolding find_byte
find_byte_of_Lacks c [] t h = ground arith
find_byte_of_Lacks c (a ∷ s) t (h, hs) = ground (arith, find_byte_of_Lacks c s t hs)

-- A line break is found behind a line that holds no carriage return.
pub find_window_of_Lacks :
    (s t : Bytes)
    → Lacks b'\r' s
    → find_window (codes "\r\n") (s ++ b'\r' ∷ b'\n' ∷ t) ≡ some (length s)
unfolding find_window starts_with
find_window_of_Lacks [] t h = refl
find_window_of_Lacks (a ∷ s) t (h, hs) = ground (arith, find_window_of_Lacks s t hs)
