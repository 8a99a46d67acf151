-- ===== src/Text/Space/Plain.antt =====
-- Text that begins and ends with a visible ASCII character has nothing to trim.
use mathlib.Core.List.{reverse-reverse, reverse-cons}
use nanofish.Prelude.{ℕ, ◌≤◌, [], ◌∷◌, ◌≡◌, refl, reverse, Bytes, All, All-append, arith}
use nanofish.Text.Space.{space_width, space_width_back, strip_front, trim}

-- The bytes from `!` to `~`.
abbrev pub IsVisible : ℕ → Type 0
IsVisible b = (b'!' ≤ b) × (b ≤ b'~')

abbrev pub StartsVisible : Bytes → Type 0
StartsVisible [] = Unit
StartsVisible (a ∷ r) = IsVisible a

pub space_width_visible : (a : ℕ) (r : Bytes) → IsVisible a → space_width (a ∷ r) ≡ 0
unfolding space_width
space_width_visible a [] h = ground arith
space_width_visible a (b ∷ []) h = ground arith
space_width_visible a (b ∷ c ∷ r) h = ground arith

space_width_back_visible : (a : ℕ) (r : Bytes) → IsVisible a → space_width_back (a ∷ r) ≡ 0
unfolding space_width_back
space_width_back_visible a [] h = ground arith
space_width_back_visible a (b ∷ []) h = ground arith
space_width_back_visible a (b ∷ c ∷ r) h = ground arith

strip_front_visible : (s : Bytes) → StartsVisible s → strip_front space_width 0 s ≡ s
unfolding strip_front
strip_front_visible [] h = refl
strip_front_visible (a ∷ r) h = rw (space_width_visible a r h)

strip_back_visible : (s : Bytes) → StartsVisible s → strip_front space_width_back 0 s ≡ s
unfolding strip_front
strip_back_visible [] h = refl
strip_back_visible (a ∷ r) h = rw (space_width_back_visible a r h)

pub trim_of_visible : (s : Bytes) → StartsVisible s → StartsVisible (reverse s) → trim s ≡ s
unfolding trim
trim_of_visible s h k =
    rw (strip_front_visible s h) (rw (strip_back_visible (reverse s) k) (reverse-reverse s))

All-reverse : (s : Bytes) → All IsVisible s → All IsVisible (reverse s)
All-reverse [] h = tt
All-reverse (a ∷ s) (h, hs) =
    rw (reverse-cons a s) (All-append IsVisible (reverse s) (a ∷ []) (All-reverse s hs) (h, tt))

starts_of_All : (s : Bytes) → All IsVisible s → StartsVisible s
starts_of_All [] h = tt
starts_of_All (a ∷ s) h = h.0

pub trim_of_All : (s : Bytes) → All IsVisible s → trim s ≡ s
trim_of_All s h = trim_of_visible s (starts_of_All s h) (starts_of_All _ (All-reverse s h))
