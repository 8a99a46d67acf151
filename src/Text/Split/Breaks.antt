-- ===== src/Text/Split/Breaks.antt =====
-- `lines` on lines that are joined by carriage returns and line feeds.
use nanofish.Prelude.{
  ℕ, Bool, true, false, List, [], ◌∷◌, ◌++◌, ◌≡◌, ◌≢◌, refl, sym, ap, ◌∙◌, ◌==◌, if◌then◌else◌,
  Bytes, arith, append_assoc, All-append,
}
use nanofish.Text.Split.Plain.{Lacks, split_on_of_Lacks}
use nanofish.Text.Split.{split_on, lines, lines_of, strip_last_cr, cons_head}

strip_last_cr_lem : (l : Bytes) → strip_last_cr (l ++ b'\r' ∷ []) ≡ l
unfolding strip_last_cr
strip_last_cr_lem [] = refl
strip_last_cr_lem (a ∷ []) = refl
strip_last_cr_lem (a ∷ b ∷ l) = ap (λ s. a ∷ s) (strip_last_cr_lem (b ∷ l))

split_on_line :
    (l rest : Bytes) → Lacks b'\n' l → split_on b'\n' (l ++ b'\n' ∷ rest) ≡ l ∷ split_on b'\n' rest
unfolding split_on
split_on_line [] rest h = refl
split_on_line (a ∷ l) rest (h, hs) = ground (arith, split_on_line l rest hs)

lines_of-cons :
    (l m : Bytes) (ls : List Bytes) → lines_of (l ∷ m ∷ ls) ≡ strip_last_cr l ∷ lines_of (m ∷ ls)
unfolding lines_of
lines_of-cons l m ls = refl

lines_more :
    (l : Bytes) (ls : List Bytes) → ls ≢ [] → lines_of (l ∷ ls) ≡ strip_last_cr l ∷ lines_of ls
lines_more l [] h = absurd (h refl)
lines_more l (m ∷ ls) h = lines_of-cons l m ls

one_more :
    (a : ℕ) (here : Bool) (rest : List Bytes) → (if here then [] ∷ rest else cons_head a rest) ≢ []
one_more a true rest = cc
one_more a false [] = cc
one_more a false (l ∷ ls) = cc

split_on_ne_nil : (s : Bytes) → split_on b'\n' s ≢ []
unfolding split_on
split_on_ne_nil [] = cc
split_on_ne_nil (a ∷ s) = one_more a (a == b'\n') (split_on b'\n' s)

pub lines-line :
    (l rest : Bytes) → Lacks b'\n' l → lines (l ++ (b'\r' ∷ b'\n' ∷ rest)) ≡ l ∷ lines rest
unfolding lines
lines-line l rest h =
    ap lines_of (
      ap (split_on b'\n') (sym (append_assoc l (b'\r' ∷ []) (b'\n' ∷ rest)))
      ∙ split_on_line (l ++ b'\r' ∷ []) rest
          (All-append (λ b. b ≢ b'\n') l (b'\r' ∷ []) h (omega arith)))
    ∙ lines_more (l ++ b'\r' ∷ []) (split_on b'\n' rest) (split_on_ne_nil rest)
    ∙ ap (λ s. s ∷ lines_of (split_on b'\n' rest)) (strip_last_cr_lem l)

pub lines-last : (l : Bytes) → Lacks b'\n' l → l ≢ [] → lines l ≡ l ∷ []
unfolding lines lines_of
lines-last [] h ne = absurd (ne refl)
lines-last (a ∷ l) h ne = ap lines_of (split_on_of_Lacks b'\n' (a ∷ l) h)
