-- ===== src/Protocol/Find.antt =====
-- What a search for a window finds: the first position at which the window stands.
use mathlib.Core.Option
use nanofish.Prelude.{
  ℕ, zero, suc, ◌&&◌, ◌==◌, ◌∙◌, length-drop, ◌≤◌, inl, inr, true, [], ◌∷◌, ◌++◌, none, some, ◌≡◌,
  refl, ap, sym, Bytes, drop, length, arith, Bool-cases, Option-cases,
}
use nanofish.Text.Split.{starts_with, find_window}

pub starts_with-append : (p s : Bytes) → starts_with p (p ++ s) ≡ true
unfolding starts_with
starts_with-append [] s = refl
starts_with-append (x ∷ p) s = ground (arith, starts_with-append p s)

pub starts_with_split : (p s : Bytes) → starts_with p s ≡ true → s ≡ p ++ drop (length p) s
unfolding starts_with
starts_with_split [] s h = refl
starts_with_split (x ∷ p) [] h = cc
starts_with_split (x ∷ p) (y ∷ s) h = ground (arith, starts_with_split p s)

-- A window found at `i` fits there, and stands there.
pub find_window_sound :
    (pat s : Bytes) (i : ℕ) → find_window pat s ≡ some i → starts_with pat (drop i s) ≡ true
unfolding find_window
find_window_sound pat [] i h = cc
find_window_sound pat (a ∷ s) zero h = elim (Bool-cases (starts_with pat (a ∷ s))) [
  | inl here ↦ here
  | inr other ↦ absurd (ground (arith, find_window pat s))
]
find_window_sound pat (a ∷ s) (suc i) h = elim (Bool-cases (starts_with pat (a ∷ s))) [
  | inl here ↦ absurd (ground arith)
  | inr other ↦ find_window_sound pat s i (ground arith)
]

pub length-starts_with : (p s : Bytes) → starts_with p s ≡ true → length p ≤ length s
unfolding starts_with
length-starts_with [] s h = omega arith
length-starts_with (x ∷ p) [] h = cc
length-starts_with (x ∷ p) (y ∷ s) h = ground (arith, length-starts_with p s)

-- A window within a text is where it is in a longer text.
starts_with_same : (p s t : Bytes) → length p ≤ length s → starts_with p (s ++ t) ≡ starts_with p s
unfolding starts_with
starts_with_same [] s t h = refl
starts_with_same (x ∷ p) [] t h = absurd (omega arith)
starts_with_same (x ∷ p) (y ∷ s) t h = ap (λ b. x == y && b) (starts_with_same p s t (omega arith))

find_window_fits : (pat s : Bytes) (i : ℕ) → find_window pat s ≡ some i → length pat ≤ length s
find_window_fits pat s i h =
    omega (arith, length-starts_with pat (drop i s) (find_window_sound pat s i h), length-drop i s)

pub find_window_longer :
    (pat s t : Bytes) (i : ℕ) → find_window pat s ≡ some i → find_window pat (s ++ t) ≡ some i
unfolding find_window
find_window_longer pat [] t i h = cc
find_window_longer pat (a ∷ s) t i h =
    let same : starts_with pat (a ∷ (s ++ t)) ≡ starts_with pat (a ∷ s) =
      starts_with_same pat (a ∷ s) t (find_window_fits pat (a ∷ s) i h) in
    elim (Bool-cases (starts_with pat (a ∷ s))) [
      | inl here ↦ rw same (rw here (rw (here, find_window) at h))
      | inr later ↦ elim (Option-cases (find_window pat s)) [
        | inl absent ↦
            let seen : Option.map suc (find_window pat s) ≡ some i = rw (later, find_window) at h in
            let no : none ≡ some i = ap (Option.map suc) (sym absent) ∙ seen in cc
        | inr (j, there) ↦
            let seen : Option.map suc (find_window pat s) ≡ some i = rw (later, find_window) at h in
            let found : some (suc j) ≡ some i = ap (Option.map suc) (sym there) ∙ seen in
            rw same (rw later (ap (Option.map suc) (find_window_longer pat s t j there) ∙ found))
      ]
    ]
