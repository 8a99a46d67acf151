-- ===== src/Response/Write/Decimal.antt =====
-- The decimal writer: below 10 ^ 10 it appends the decimal digits.
use native.Mathlib.Nat.{pow-suc}
use nanofish.Heapless.{Heapless}
use nanofish.Prelude.{
  ℕ, zero, suc, ◌+◌, ◌/◌, ◌%◌, ◌^◌, ◌≤◌, ◌<◌, inl, inr, false, [], ◌∷◌, ◌≡◌, refl, ap, ◌∙◌, ltb,
  ◌==◌, Bytes, length, arith, Bool-cases, ltb→lt,
}
use nanofish.Response.Write.Put.{put, push_byte_lem, push_digits_lem}
use nanofish.Response.Write.{fill_digits, write_decimal_to_buffer}
use nanofish.Result.{ok}
use nanofish.Text.Number.Print.{print_from, print_radix, digit_char}

abbrev pub decimal : ℕ → Bytes
decimal n = print_radix 10 n

fill_digits-zero : (room : ℕ) (acc : Bytes) → fill_digits room 0 acc ≡ ok acc
unfolding fill_digits
fill_digits-zero zero acc = refl
fill_digits-zero (suc room) acc = refl

fill_digits-print_from :
    (room fuel num : ℕ) (acc : Bytes)
    → 0 < num
    → num < 10 ^ room
    → num < fuel
    → fill_digits room num acc ≡ ok (print_from 10 fuel num acc)
unfolding fill_digits print_from
fill_digits-print_from zero fuel num acc h k l = absurd (omega arith)
fill_digits-print_from (suc room) zero num acc h k l = absurd (omega arith)
fill_digits-print_from (suc room) (suc fuel) num acc h k l =
    let some_digit : (num == 0) ≡ false = ground arith in
    let char : num % 10 + b'0' ≡ digit_char (num % 10) = ground arith in
    rw some_digit (elim (Bool-cases (ltb num 10)) [
      | inl small ↦
          let lt = ltb→lt num 10 small in
          let none_left : num / 10 ≡ 0 = omega arith in
          rw (small, none_left) (fill_digits-zero room _ ∙ ap (λ d. ok (d ∷ acc)) (omega arith))
      | inr large ↦ rw large (
          fill_digits-print_from room fuel (num / 10) _ (ground arith)
            (omega (arith, pow-suc 10 room)) (ground arith)
          ∙ ap (λ d. ok (print_from 10 fuel (num / 10) (d ∷ acc))) char)
    ])

module _ (hp : Heapless) (n : ℕ) where
  -- To a buffer within its capacity the digits of a number of at most ten digits are appended, or
  -- refused because they do not fit.
  pub write_decimal_to_buffer_lem :
      (v : Bytes) (num : ℕ)
      → num < 10 ^ 10
      → length v ≤ n
      → write_decimal_to_buffer hp n v num ≡ put n v (decimal num)
  unfolding write_decimal_to_buffer print_radix print_from
  write_decimal_to_buffer_lem v num h k = elim (Bool-cases (num == 0)) [
    | inl z ↦ let zero_num : num ≡ 0 = ground arith in rw zero_num (push_byte_lem hp n v b'0')
    | inr nz ↦ rw nz (
        rw (fill_digits-print_from 10 (suc num) num [] (ground arith) h (omega arith))
          (push_digits_lem hp n v _ k))
  ]
