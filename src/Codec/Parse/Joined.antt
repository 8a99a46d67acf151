-- ===== src/Codec/Parse/Joined.antt =====
-- Lines joined by line breaks: where the breaks are found, and that they are split again.
use nanofish.Prelude.{
  ℕ, ◌+◌, ◌≢◌, false, List, [], ◌∷◌, ◌++◌, some, ◌≡◌, refl, sym, ap, ◌∙◌, ◌==◌, Bytes, length,
  arith, All, append_assoc, length-append,
}
use nanofish.Protocol.{crlf, double_crlf}
use nanofish.Text.Split.Plain.{Lacks}
use nanofish.Text.Split.{starts_with, find_window, split_crlf, cons_head}

abbrev pub joined : Bytes → List Bytes → Bytes
joined l [] = l
joined l (m ∷ ms) = l ++ (crlf ++ joined m ms)

-- A line with no carriage return in it, that is not empty.
abbrev pub IsLine : Bytes → Type 0
IsLine l = Lacks b'\r' l × (l ≢ [])

split_crlf_last : (l : Bytes) → Lacks b'\r' l → split_crlf l ≡ l ∷ []
unfolding split_crlf
split_crlf_last [] h = refl
split_crlf_last (a ∷ []) h = refl
split_crlf_last (a ∷ b ∷ l) (h, hs) = ground (arith, split_crlf_last (b ∷ l) hs)

split_crlf_line : (l s : Bytes) → Lacks b'\r' l → split_crlf (l ++ (crlf ++ s)) ≡ l ∷ split_crlf s
unfolding split_crlf
split_crlf_line [] s h = refl
split_crlf_line (a ∷ []) s (h, hs) =
    let other : (a == b'\r') ≡ false = ground arith in rw (other, split_crlf)
split_crlf_line (a ∷ b ∷ l) s (h, hs) =
    let other : (a == b'\r') ≡ false = ground arith in
    rw (other, split_crlf) (ap (cons_head a) (split_crlf_line (b ∷ l) s hs))

-- Splitting what was joined gives the lines.
pub split_crlf-joined :
    (l : Bytes) (ls : List Bytes) → All (Lacks b'\r') (l ∷ ls) → split_crlf (joined l ls) ≡ l ∷ ls
split_crlf-joined l [] h = split_crlf_last l h.0
split_crlf-joined l (m ∷ ms) h =
    split_crlf_line l (joined m ms) h.0 ∙ ap (◌∷◌ l) (split_crlf-joined m ms h.1)

find_double_crlf_end :
    (l body : Bytes)
    → Lacks b'\r' l
    → find_window double_crlf (l ++ (double_crlf ++ body)) ≡ some (length l)
unfolding find_window starts_with
find_double_crlf_end [] body h = refl
find_double_crlf_end (a ∷ l) body (h, hs) = ground (arith, find_double_crlf_end l body hs)

find_double_crlf_line :
    (l : Bytes) (a : ℕ) (s : Bytes) (k : ℕ)
    → Lacks b'\r' l
    → a ≢ b'\r'
    → find_window double_crlf (a ∷ s) ≡ some k
    → find_window double_crlf (l ++ (crlf ++ a ∷ s)) ≡ some (length l + 2 + k)
unfolding find_window starts_with
find_double_crlf_line [] a s k h n e = ground arith
find_double_crlf_line (b ∷ l) a s k (h, hs) n e =
    ground (arith, find_double_crlf_line l a s k hs n e)

joined-cons :
    (a : ℕ) (m : Bytes) (ms : List Bytes) → (tail : Bytes) × (joined (a ∷ m) ms ≡ a ∷ tail)
joined-cons a m [] = (m, refl)
joined-cons a m (n ∷ ns) = (m ++ (crlf ++ joined n ns), refl)

append_find :
    (l later s : Bytes)
    → find_window double_crlf ((l ++ (crlf ++ later)) ++ s)
      ≡ find_window double_crlf (l ++ (crlf ++ (later ++ s)))
append_find l later s = ap (find_window double_crlf) (append_assoc l (crlf ++ later) s)

-- The first empty line of lines that are not empty is the one behind the last.
pub find_double_crlf-joined :
    (l : Bytes) (ls : List Bytes) (body : Bytes)
    → All IsLine (l ∷ ls)
    → find_window double_crlf (joined l ls ++ (double_crlf ++ body)) ≡ some (length (joined l ls))
find_double_crlf-joined l [] body h = find_double_crlf_end l body h.0.0
find_double_crlf-joined l ([] ∷ ms) body h = absurd (h.1.0.1 refl)
find_double_crlf-joined l ((a ∷ m) ∷ ms) body h =
    let (tail, first) = joined-cons a m ms in
    let later = joined (a ∷ m) ms in
    let found : find_window double_crlf (later ++ (double_crlf ++ body)) ≡ some (length later) =
      find_double_crlf-joined (a ∷ m) ms body h.1 in
    let rest : later ++ (double_crlf ++ body) ≡ a ∷ (tail ++ (double_crlf ++ body)) =
      ap (λ w. w ++ (double_crlf ++ body)) first in
    append_find l later (double_crlf ++ body)
    ∙ ap (λ w. find_window double_crlf (l ++ (crlf ++ w))) rest
    ∙ find_double_crlf_line l a (tail ++ (double_crlf ++ body)) (length later) h.0.0 h.1.0.0.0
        (ap (find_window double_crlf) (sym rest) ∙ found)
    ∙ ap some (omega (arith, length-append l (crlf ++ later)))
