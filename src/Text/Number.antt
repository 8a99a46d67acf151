-- ===== src/Text/Number.antt =====
-- `from_str_radix` and `parse` for unsigned integers up to a largest value.
pub mod Print
use nanofish.Prelude.{
  ℕ, ◌+◌, ◌-◌, ◌*◌, Bool, ◌&&◌, List, [], ◌∷◌, Option, none, some, ltb, leb, ◌==◌, if◌then◌else◌,
  Bytes,
}

-- `char::to_digit` at radix 16: the largest that is used.
unfoldable pub hex_digit : ℕ → Option ℕ
hex_digit c =
    if leb b'0' c && leb c b'9'
    then some (c - b'0')
    else if leb b'a' c && leb c b'f'
    then some (c - b'a' + 10)
    else if leb b'A' c && leb c b'F'
    then some (c - b'A' + 10)
    else none

below_radix : ℕ → Option ℕ → Option ℕ
below_radix radix none = none
below_radix radix (some d) = if ltb d radix then some d else none

unfoldable pub to_digit : ℕ → ℕ → Option ℕ
unfolding hex_digit below_radix
to_digit radix c = below_radix radix (hex_digit c)

-- The checked multiplication and addition fail exactly where the sum is above `max`.
pub add_digit : ℕ → ℕ → Option ℕ → Option ℕ → Option ℕ
add_digit radix max none d = none
add_digit radix max (some acc) none = none
add_digit radix max (some acc) (some d) =
    if leb (acc * radix + d) max then some (acc * radix + d) else none

unfoldable pub digits_from : ℕ → ℕ → Option ℕ → Bytes → Option ℕ
unfolding add_digit to_digit
digits_from radix max acc [] = acc
digits_from radix max acc (c ∷ s) =
    digits_from radix max (add_digit radix max acc (to_digit radix c)) s

-- A lone sign is no number; a `+` in front of digits is passed over.
unfoldable pub from_str_radix : ℕ → ℕ → Bytes → Option ℕ
unfolding digits_from
from_str_radix radix max [] = none
from_str_radix radix max (c ∷ []) = digits_from radix max (some 0) (c ∷ [])
from_str_radix radix max (c ∷ d ∷ s) =
    digits_from radix max (some 0) (if c == b'+' then d ∷ s else c ∷ d ∷ s)

-- `parse::<u16>`, `parse::<usize>`.
abbrev pub parse_uint : ℕ → Bytes → Option ℕ
parse_uint = from_str_radix 10
