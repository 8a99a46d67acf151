-- ===== src/Text/Split.antt =====
-- Searching and splitting: `find`, `split`, `split_once`, `lines`, `strip_prefix`, `strip_suffix`.
pub mod Plain
pub mod Breaks
use mathlib.Core.Option
use nanofish.Prelude.{
  ℕ, suc, ◌+◌, Bool, true, false, ◌&&◌, List, [], ◌∷◌, ◌++◌, reverse, Option, none, some, ◌==◌,
  if◌then◌else◌, Bytes, take, drop, length, is_empty, codes,
}

unfoldable pub starts_with : Bytes → Bytes → Bool
starts_with [] s = true
starts_with (p ∷ ps) [] = false
starts_with (p ∷ ps) (a ∷ s) = p == a && starts_with ps s

-- `windows(pat.len()).position(|w| w == pat)`.
unfoldable pub find_window : Bytes → Bytes → Option ℕ
unfolding starts_with
find_window pat [] = none
find_window pat (a ∷ s) =
    if starts_with pat (a ∷ s) then some 0 else Option.map suc (find_window pat s)

-- `find` of one ASCII character, and `rfind`.
unfoldable pub find_byte : ℕ → Bytes → Option ℕ
find_byte c [] = none
find_byte c (a ∷ s) = if a == c then some 0 else Option.map suc (find_byte c s)

rfind_step : Bool → Option ℕ → Option ℕ
rfind_step here none = if here then some 0 else none
rfind_step here (some i) = some (suc i)

unfoldable pub rfind_byte : ℕ → Bytes → Option ℕ
unfolding rfind_step
rfind_byte c [] = none
rfind_byte c (a ∷ s) = rfind_step (a == c) (rfind_byte c s)

unfoldable pub split_once : ℕ → Bytes → Option (Bytes × Bytes)
unfolding find_byte
split_once c s = Option.map (λ i. (take i s, drop (i + 1) s)) (find_byte c s)

abbrev pub cons_head : ℕ → List Bytes → List Bytes
cons_head a [] = (a ∷ []) ∷ []
cons_head a (l ∷ ls) = (a ∷ l) ∷ ls

-- `split` at one ASCII character.
unfoldable pub split_on : ℕ → Bytes → List Bytes
split_on c [] = [] ∷ []
split_on c (a ∷ s) = let rest = split_on c s in if a == c then [] ∷ rest else cons_head a rest

-- `split("\r\n")`.
unfoldable pub split_crlf : Bytes → List Bytes
split_crlf [] = [] ∷ []
split_crlf (a ∷ []) = (a ∷ []) ∷ []
split_crlf (a ∷ b ∷ s) = elim (a == b'\r' && b == b'\n') [
  | true ↦ [] ∷ split_crlf s
  | false ↦ cons_head a (split_crlf (b ∷ s))
]

pub strip_last_cr : Bytes → Bytes
strip_last_cr [] = []
strip_last_cr (a ∷ []) = if a == b'\r' then [] else a ∷ []
strip_last_cr (a ∷ b ∷ s) = a ∷ strip_last_cr (b ∷ s)

-- Each piece but the last stood before a line feed.
pub lines_of : List Bytes → List Bytes
lines_of [] = []
lines_of (l ∷ []) = if is_empty l then [] else l ∷ []
lines_of (l ∷ m ∷ ls) = strip_last_cr l ∷ lines_of (m ∷ ls)

unfoldable pub lines : Bytes → List Bytes
unfolding lines_of strip_last_cr split_on
lines s = lines_of (split_on b'\n' s)

unfoldable pub strip_prefix : Bytes → Bytes → Option Bytes
unfolding starts_with
strip_prefix p s = if starts_with p s then some (drop (length p) s) else none

unfoldable pub strip_suffix : Bytes → Bytes → Option Bytes
unfolding strip_prefix
strip_suffix p s = Option.map reverse (strip_prefix (reverse p) (reverse s))
