-- ===== src/Text/Number/Print.antt =====
-- The digits of a number in a radix of 2 to 16, and that they are read back.
use native.Mathlib.Nat.{div-add-mod, mod-lt, mul_comm, le_trans, div-le_self, pow-suc}
use nanofish.Prelude.{
  ℕ, zero, suc, ◌+◌, ◌-◌, ◌*◌, ◌/◌, ◌%◌, ◌≤◌, ◌<◌, [], ◌∷◌, some, ◌≡◌, refl, ap, ◌∙◌, ltb, ◌==◌,
  if◌then◌else◌, Bytes, arith, All, Bool-cases, inl, inr, ltb→lt, lt→ltb, le→leb, true, false, ◌≢◌,
  ◌^◌, length,
}
use nanofish.Text.Number.{to_digit, add_digit, digits_from, from_str_radix}

-- The lower case digit of a number below 16.
abbrev pub digit_char : ℕ → ℕ
digit_char d = if ltb d 10 then b'0' + d else b'a' + (d - 10)

-- The digits of `n` in front of `acc`.
unfoldable pub print_from : ℕ → ℕ → ℕ → Bytes → Bytes
print_from radix zero n acc = acc
print_from radix (suc fuel) n acc =
    let more = print_from radix fuel (n / radix) (digit_char (n % radix) ∷ acc) in
    if ltb n radix then digit_char n ∷ acc else more

unfoldable pub print_radix : ℕ → ℕ → Bytes
unfolding print_from
print_radix radix n = print_from radix (suc n) n []

pub to_digit-digit_char :
    (radix d : ℕ) → radix ≤ 16 → d < radix → to_digit radix (digit_char d) ≡ some d
unfolding to_digit
to_digit-digit_char radix d h k = ground arith

module _ (radix max : ℕ) (two : 2 ≤ radix) (sixteen : radix ≤ 16) where
  smaller : (n fuel : ℕ) → n < suc fuel → radix ≤ n → n / radix < fuel
  smaller n fuel h k = grind arith

  add_digit-digit_char :
      (a d : ℕ)
      → d < radix
      → a * radix + d ≤ max
      → add_digit radix max (some a) (to_digit radix (digit_char d)) ≡ some (a * radix + d)
  unfolding add_digit
  add_digit-digit_char a d h k = rw (to_digit-digit_char radix d sixteen h, le→leb _ _ k)

  digits_from-print_from :
      (fuel n : ℕ) (acc : Bytes)
      → n < fuel
      → n ≤ max
      → digits_from radix max (some 0) (print_from radix fuel n acc)
        ≡ digits_from radix max (some n) acc
  unfolding digits_from print_from
  digits_from-print_from zero n acc h k = absurd (omega arith)
  digits_from-print_from (suc fuel) n acc h k = elim (Bool-cases (ltb n radix)) [
    | inl small ↦
        let lt = ltb→lt n radix small in
        rw (small, print_from)
          (ap (λ o. digits_from radix max o acc)
            (add_digit-digit_char 0 n lt (omega arith) ∙ ap some (omega arith)))
    | inr large ↦
        let whole : n / radix * radix + n % radix ≡ n =
          rw (mul_comm (n / radix) radix) (div-add-mod n radix) in
        rw (large, print_from)
          (digits_from-print_from fuel (n / radix) _ (smaller n fuel h (ground arith))
              (le_trans (div-le_self n radix) k)
            ∙ ap (λ o. digits_from radix max o acc)
                (add_digit-digit_char (n / radix) (n % radix) (mod-lt n (omega arith))
                    (omega (arith, whole))
                  ∙ ap some whole))
  ]

  -- A printed number is read back, if it is in range.
  pub digits_from-print_radix :
      (n : ℕ) → n ≤ max → digits_from radix max (some 0) (print_radix radix n) ≡ some n
  unfolding print_radix digits_from
  digits_from-print_radix n k = digits_from-print_from (suc n) n [] (omega arith) k

-- The bytes of a printed number; `IsDigit` is wider than the digits.
abbrev pub IsDigit : ℕ → Type 0
IsDigit b = (b'0' ≤ b) × (b ≤ b'f') × (b ≢ b';') × (b ≢ b':')

digit_char_lem : (d : ℕ) → d < 16 → IsDigit (digit_char d)
digit_char_lem d h = ground arith

module _ (radix : ℕ) (two : 2 ≤ radix) (sixteen : radix ≤ 16) where
  print_from-IsDigit :
      (fuel n : ℕ) (acc : Bytes) → All IsDigit acc → All IsDigit (print_from radix fuel n acc)
  unfolding print_from
  print_from-IsDigit zero n acc h = h
  print_from-IsDigit (suc fuel) n acc h = elim (Bool-cases (ltb n radix)) [
    | inl small ↦
        let lt = ltb→lt n radix small in rw (small, print_from) (digit_char_lem n (omega arith), h)
    | inr large ↦
        let lt = mod-lt n {m = radix} (omega arith) in
        rw (large, print_from)
          (print_from-IsDigit fuel (n / radix) _ (digit_char_lem (n % radix) (omega arith), h))
  ]

  pub print_radix-IsDigit : (n : ℕ) → All IsDigit (print_radix radix n)
  unfolding print_radix
  print_radix-IsDigit n = print_from-IsDigit (suc n) n [] tt

-- Text of digits has no sign to pass over.
pub from_str_radix-IsDigit :
    (radix max : ℕ) (s : Bytes)
    → All IsDigit s
    → s ≢ []
    → from_str_radix radix max s ≡ digits_from radix max (some 0) s
unfolding from_str_radix
from_str_radix-IsDigit radix max [] h e = absurd (e refl)
from_str_radix-IsDigit radix max (c ∷ []) h e = refl
from_str_radix-IsDigit radix max (c ∷ d ∷ s) (h, hs) e =
    let digit : (c == b'+') ≡ false = ground arith in rw digit

print_from_ne_nil : (radix fuel n : ℕ) (acc : Bytes) → acc ≢ [] → print_from radix fuel n acc ≢ []
unfolding print_from
print_from_ne_nil radix zero n acc h = h
print_from_ne_nil radix (suc fuel) n acc h =
    ground (arith, print_from_ne_nil radix fuel (n / radix) (digit_char (n % radix) ∷ acc))

pub print_radix_ne_nil : (radix n : ℕ) → print_radix radix n ≢ []
unfolding print_radix print_from
print_radix_ne_nil radix n =
    ground (arith, print_from_ne_nil radix n (n / radix) (digit_char (n % radix) ∷ []))

-- Printing and reading, as `from_str_radix` and `parse` read.
pub from_str_radix-print_radix :
    (radix max n : ℕ)
    → 2 ≤ radix
    → radix ≤ 16
    → n ≤ max
    → from_str_radix radix max (print_radix radix n) ≡ some n
from_str_radix-print_radix radix max n h k l =
    from_str_radix-IsDigit radix max _ (print_radix-IsDigit radix h k n)
      (print_radix_ne_nil radix n)
    ∙ digits_from-print_radix radix max h k n l

below_pow : (e n : ℕ) → n < 10 ^ suc (suc e) → n / 10 < 10 ^ suc e
below_pow e n h = omega (arith, pow-suc 10 (suc e))

-- A number below 10 ^ d has at most d decimal digits.
length-print_from :
    (d fuel n : ℕ) (acc : Bytes)
    → n < 10 ^ suc d
    → length (print_from 10 fuel n acc) ≤ suc d + length acc
unfolding print_from
length-print_from d zero n acc h = omega arith
length-print_from zero (suc fuel) n acc h =
    let small : ltb n 10 ≡ true = lt→ltb n 10 h in rw (small, print_from) (omega arith)
length-print_from (suc e) (suc fuel) n acc h =
    let below : n / 10 < 10 ^ suc e = below_pow e n h in
    let rest = length-print_from e fuel (n / 10) (digit_char (n % 10) ∷ acc) below in
    elim (Bool-cases (ltb n 10)) [
      | inl small ↦ rw (small, print_from) (omega arith)
      | inr large ↦ rw (large, print_from) (omega (arith, rest))
    ]

pub length-print_radix : (d n : ℕ) → n < 10 ^ suc d → length (print_radix 10 n) ≤ suc d
unfolding print_radix
length-print_radix d n h = omega (arith, length-print_from d (suc n) n [] h)
