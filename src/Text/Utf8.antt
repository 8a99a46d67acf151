-- ===== src/Text/Utf8.antt =====
-- `core::str::from_utf8`: the automaton of the well-formed byte sequences (Unicode, table 3-7).
use nanofish.Prelude.{
  ℕ, zero, suc, ◌<◌, Bool, true, false, ◌&&◌, [], ◌∷◌, ◌++◌, Option, none, some, ◌≡◌, refl, ltb,
  leb, ◌==◌, if◌then◌else◌, Bytes, All, arith,
}

-- `expect lo hi n`: the next byte lies in lo..=hi, and `n` more continuation bytes follow it.
pub data Utf8State : Type 0 where
  boundary reject : Utf8State
  expect : ℕ → ℕ → ℕ → Utf8State

utf8_lead : ℕ → Utf8State
utf8_lead b =
    if ltb b 0x80
    then boundary
    else if leb 0xc2 b && leb b 0xdf
    then expect 0x80 0xbf 0
    else if b == 0xe0
    then expect 0xa0 0xbf 1
    else if b == 0xed
    then expect 0x80 0x9f 1
    else if leb 0xe1 b && leb b 0xef
    then expect 0x80 0xbf 1
    else if b == 0xf0
    then expect 0x90 0xbf 2
    else if leb 0xf1 b && leb b 0xf3
    then expect 0x80 0xbf 2
    else if b == 0xf4
    then expect 0x80 0x8f 2
    else reject

unfoldable pub utf8_step : Utf8State → ℕ → Utf8State
unfolding utf8_lead
utf8_step boundary b = utf8_lead b
utf8_step reject b = reject
utf8_step (expect lo hi zero) b = if leb lo b && leb b hi then boundary else reject
utf8_step (expect lo hi (suc n)) b = if leb lo b && leb b hi then expect 0x80 0xbf n else reject

unfoldable pub utf8_run : Utf8State → Bytes → Utf8State
utf8_run s [] = s
utf8_run s (b ∷ bs) = utf8_run (utf8_step s b) bs

abbrev pub is_boundary : Utf8State → Bool
is_boundary boundary = true
is_boundary _ = false

unfoldable pub is_utf8 : Bytes → Bool
unfolding utf8_run utf8_step
is_utf8 bs = is_boundary (utf8_run boundary bs)

unfoldable pub from_utf8 : Bytes → Option Bytes
unfolding is_utf8
from_utf8 bs = if is_utf8 bs then some bs else none

abbrev pub IsAscii : Bytes → Type 0
IsAscii = All (λ b. b < 0x80)

pub utf8_run-append :
    (s : Utf8State) (xs ys : Bytes) → utf8_run s (xs ++ ys) ≡ utf8_run (utf8_run s xs) ys
unfolding utf8_run
utf8_run-append s [] ys = refl
utf8_run-append s (x ∷ xs) ys = utf8_run-append (utf8_step s x) xs ys

utf8_step_ascii : (b : ℕ) → b < 0x80 → utf8_step boundary b ≡ boundary
unfolding utf8_step utf8_lead
utf8_step_ascii b h = ground arith

pub utf8_run_ascii : (bs : Bytes) → IsAscii bs → utf8_run boundary bs ≡ boundary
unfolding utf8_run
utf8_run_ascii [] h = refl
utf8_run_ascii (b ∷ bs) (h, hs) = rw (utf8_step_ascii b h) (utf8_run_ascii bs hs)

pub from_utf8_ascii : (bs : Bytes) → IsAscii bs → from_utf8 bs ≡ some bs
unfolding from_utf8 is_utf8
from_utf8_ascii bs h = rw (utf8_run_ascii bs h)

-- Text decoded is the text given.
pub from_utf8_same : (bs : Bytes) {s : Bytes} → from_utf8 bs ≡ some s → s ≡ bs
unfolding from_utf8
from_utf8_same bs h = ground arith
