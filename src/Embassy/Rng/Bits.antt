-- ===== src/Embassy/Rng/Bits.antt =====
-- What the generator needs of the exclusive or: it is zero only of equal numbers, and has no more
-- digits than both.
use Prim.Native.Nat.{bit_xor, bit_xor-bitwise, digits, differ}
use native.Mathlib.Nat.{pow-suc}
use nanofish.Prelude.{ℕ, zero, suc, ◌/◌, ◌%◌, ◌^◌, ◌≤◌, ◌<◌, ◌≡◌, refl, sym, ◌∙◌, arith}

abbrev xor_digits : ℕ → ℕ → ℕ → ℕ
xor_digits = digits (λ b. b) differ

differ-lt : (x y : ℕ) → x < 2 → y < 2 → differ x y < 2
differ-lt zero y h k = k
differ-lt (suc x) zero h k = h
differ-lt (suc zero) (suc zero) h k = omega arith
differ-lt (suc zero) (suc (suc y)) h k = absurd (omega arith)
differ-lt (suc (suc x)) (suc y) h k = absurd (omega arith)

differ-zero : (x y : ℕ) → x < 2 → y < 2 → differ x y ≡ 0 → x ≡ y
differ-zero zero y h k e = sym e
differ-zero (suc x) zero h k e = absurd (omega (arith, e))
differ-zero (suc zero) (suc zero) h k e = refl
differ-zero (suc zero) (suc (suc y)) h k e = absurd (omega arith)
differ-zero (suc (suc x)) (suc y) h k e = absurd (omega arith)

digits-zero : (n a b : ℕ) → a ≤ n → xor_digits n a b ≡ 0 → a ≡ b
digits-zero zero zero b h e = sym e
digits-zero zero (suc a) b h e = absurd (omega arith)
digits-zero (suc n) zero b h e = sym e
digits-zero (suc n) (suc a) b h e =
    let upper = digits-zero n (suc a / 2) (b / 2) (omega arith) (omega (arith, e)) in
    let lowest = differ-zero (suc a % 2) (b % 2) (omega arith) (omega arith) (omega (arith, e)) in
    omega (arith, upper, lowest)

pub xor_zero : (a b : ℕ) → bit_xor a b ≡ 0 → a ≡ b
xor_zero a b e = digits-zero a a b (omega arith) (sym (bit_xor-bitwise a b) ∙ e)

digits-lt : (k n a b : ℕ) → a ≤ n → a < 2 ^ k → b < 2 ^ k → xor_digits n a b < 2 ^ k
digits-lt k zero a b h p q = q
digits-lt k (suc n) zero b h p q = q
digits-lt zero (suc n) (suc a) b h p q = absurd (omega arith)
digits-lt (suc k) (suc n) (suc a) b h p q =
    let power = pow-suc 2 k in
    let upper =
      digits-lt k n (suc a / 2) (b / 2) (omega arith) (omega (arith, power))
        (omega (arith, power)) in
    let lowest = differ-lt (suc a % 2) (b % 2) (omega arith) (omega arith) in
    omega (arith, power, upper, lowest)

pub xor-lt : (k a b : ℕ) → a < 2 ^ k → b < 2 ^ k → bit_xor a b < 2 ^ k
xor-lt k a b p q = rw bit_xor-bitwise (digits-lt k a a b (omega arith) p q)
