-- ===== src/StatusCode/Laws.antt =====
-- Status codes and numbers.
use nanofish.Prelude.{
  ℕ, ◌<◌, ◌/◌, ◌↔◌, true, List, [], ◌∷◌, ◌≡◌, ◌≢◌, refl, sym, All, arith, ap, ◌∙◌,
}
use nanofish.Result.{ok}
use nanofish.StatusCode.{
  StatusCode, other, as_u16, from_u16, from_u16_arms, first_arm, is_success, is_client_error,
  is_server_error, text, try_from_str, status_of,
}
use nanofish.Text.Number.Print.{print_radix, from_str_radix-print_radix}

first_arm-as_u16 :
    (code : ℕ) (arms : List (ℕ × StatusCode))
    → All (λ a. as_u16 a.1 ≡ a.0) arms
    → as_u16 (first_arm code arms) ≡ code
unfolding first_arm as_u16
first_arm-as_u16 code [] h = refl
first_arm-as_u16 code ((k, s) ∷ arms) (h, hs) = ground (arith, first_arm-as_u16 code arms hs)

as_u16-from_u16 : (code : ℕ) → as_u16 (from_u16 code) ≡ code
unfolding from_u16 as_u16
as_u16-from_u16 code = first_arm-as_u16 code from_u16_arms (omega arith)

first_arm_of_none :
    (code : ℕ) (arms : List (ℕ × StatusCode))
    → All (λ a. code ≢ a.0) arms
    → first_arm code arms ≡ other code
unfolding first_arm
first_arm_of_none code [] h = refl
first_arm_of_none code ((k, s) ∷ arms) (h, hs) = ground (arith, first_arm_of_none code arms hs)

-- A status that the readers of this file can give: one of the named ones, or a `u16` that names
-- none of these.
abbrev pub IsCanonical : StatusCode → Type 0
IsCanonical (other code) = (code < 65536) × All (λ a. code ≢ a.0) from_u16_arms
IsCanonical _ = Unit

from_u16-as_u16 : (s : StatusCode) → IsCanonical s → from_u16 (as_u16 s) ≡ s
unfolding from_u16 as_u16
from_u16-as_u16 (other code) h = first_arm_of_none code from_u16_arms h.1
from_u16-as_u16 _ h = refl

-- A status that is a named one or a `u16` that names none is read from its own number and from no
-- other.
pub from_u16_iff :
    (code : ℕ) (s : StatusCode) → IsCanonical s → (from_u16 code ≡ s) ↔ (code ≡ as_u16 s)
from_u16_iff code s h =
    (λ e. sym (as_u16-from_u16 code) ∙ ap as_u16 e, λ e. ap from_u16 e ∙ from_u16-as_u16 s h)

pub as_u16-lt : (s : StatusCode) → IsCanonical s → as_u16 s < 65536
unfolding as_u16
as_u16-lt (other code) h = h.0
as_u16-lt _ h = omega arith

-- A status that is a named one or a `u16` that names none is read from the decimal digits of its
-- number.
pub try_from_str-decimal :
    (s : StatusCode) → IsCanonical s → try_from_str (print_radix 10 (as_u16 s)) ≡ ok s
unfolding try_from_str
try_from_str-decimal s h =
    ap status_of (
      from_str_radix-print_radix 10 65535 (as_u16 s) (omega arith) (omega arith)
        (omega (arith, as_u16-lt s h)))
    ∙ ap ok (from_u16-as_u16 s h)

-- A status is a success, a client error or a server error exactly when the hundreds of its number
-- are 2, 4 or 5.
pub classes_by_hundreds :
    (s : StatusCode)
    → ((is_success s ≡ true) ↔ (as_u16 s / 100 ≡ 2))
      × ((is_client_error s ≡ true) ↔ (as_u16 s / 100 ≡ 4))
      × ((is_server_error s ≡ true) ↔ (as_u16 s / 100 ≡ 5))
unfolding is_success is_client_error is_server_error
classes_by_hundreds s = ground arith

-- The text of a status is visible ASCII and blanks.
pub text_plain : (s : StatusCode) → All (λ b. (b < 0x80) × (b ≢ b'\r')) (text s)
unfolding text
text_plain (other code) = omega arith
text_plain _ = omega arith
