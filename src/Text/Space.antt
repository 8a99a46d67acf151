-- ===== src/Text/Space.antt =====
-- White space, which Rust reads as Unicode's property `White_Space`: `trim`, `split_whitespace`.
pub mod Plain
pub mod Words
use nanofish.Prelude.{
  ℕ, zero, suc, ◌-◌, Bool, true, false, ◌&&◌, ◌||◌, List, [], ◌∷◌, ◌++◌, reverse, leb, ◌==◌,
  if◌then◌else◌, Bytes, is_empty,
}

abbrev pub is_space : ℕ → Bool
is_space b = leb 9 b && leb b 13 || b == b' '

-- U+0085 and U+00A0.
abbrev is_space_2 : ℕ → ℕ → Bool
is_space_2 a b = a == 0xc2 && (b == 0x85 || b == 0xa0)

-- U+1680, U+2000 to U+200A, U+2028, U+2029, U+202F, U+205F and U+3000.
abbrev is_space_3 : ℕ → ℕ → ℕ → Bool
is_space_3 a b c =
    a == 0xe1 && b == 0x9a && c == 0x80
    || a == 0xe2 && b == 0x80 && (leb 0x80 c && leb c 0x8a || c == 0xa8 || c == 0xa9 || c == 0xaf)
    || a == 0xe2 && b == 0x81 && c == 0x9f
    || a == 0xe3 && b == 0x80 && c == 0x80

-- The bytes of the white space character in front; 0 if there is none.
pub space_width : Bytes → ℕ
space_width [] = 0
space_width (a ∷ []) = if is_space a then 1 else 0
space_width (a ∷ b ∷ []) = if is_space a then 1 else if is_space_2 a b then 2 else 0
space_width (a ∷ b ∷ c ∷ r) =
    if is_space a then 1 else if is_space_2 a b then 2 else if is_space_3 a b c then 3 else 0

-- The same of a text given last byte first.
pub space_width_back : Bytes → ℕ
space_width_back [] = 0
space_width_back (a ∷ []) = if is_space a then 1 else 0
space_width_back (a ∷ b ∷ []) = if is_space a then 1 else if is_space_2 b a then 2 else 0
space_width_back (a ∷ b ∷ c ∷ r) =
    if is_space a then 1 else if is_space_2 b a then 2 else if is_space_3 c b a then 3 else 0

-- Drops the characters that `width` measures from the front; `skip` bytes of one are left.
unfoldable pub strip_front : (Bytes → ℕ) → ℕ → Bytes → Bytes
strip_front width skip [] = []
strip_front width zero (a ∷ r) =
    let rest = strip_front width (width (a ∷ r) - 1) r in if width (a ∷ r) == 0 then a ∷ r else rest
strip_front width (suc skip) (a ∷ r) = strip_front width skip r

unfoldable pub trim : Bytes → Bytes
unfolding strip_front space_width space_width_back
trim s = reverse (strip_front space_width_back 0 (reverse (strip_front space_width 0 s)))

abbrev keep_word : Bytes → List Bytes → List Bytes
keep_word w ws = if is_empty w then ws else w ∷ ws

words_from : Bytes → ℕ → Bytes → List Bytes
words_from word skip [] = keep_word word []
words_from word (suc skip) (a ∷ r) = words_from word skip r
words_from word zero (a ∷ r) =
    let width = space_width (a ∷ r) in
    let rest = words_from (if width == 0 then word ++ a ∷ [] else []) (width - 1) r in
    if width == 0 then rest else keep_word word rest

unfoldable pub split_whitespace : Bytes → List Bytes
unfolding words_from space_width
split_whitespace s = words_from [] 0 s
