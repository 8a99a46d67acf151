-- ===== src/Embassy/Rng/Reach.antt =====
-- The states that the generator reaches from a seed of the clock.
use nanofish.Embassy.Rng.Bits.{xor_zero, xor-lt}
use nanofish.Embassy.Rng.{
  XorShift32Rng, new, tls_seed, left13, right17, left5, next_u32, next_u64, fill_chunks, fill_bytes,
}
use nanofish.Prelude.{
  ℕ, zero, suc, ◌*◌, ◌/◌, ◌%◌, ◌^◌, ◌-◌, ◌<◌, inl, inr, List, [], ◌∷◌, Bytes, length, arith, ◌==◌,
  Bool-cases,
}

-- A `u32` that is not zero, which the shifts would never leave.
abbrev pub IsWord : ℕ → Type 0
IsWord x = (0 < x) × (x < 2 ^ 32)

left13-IsWord : (x : ℕ) → IsWord x → IsWord (left13 x)
left13-IsWord x h =
    let stuck = xor_zero x (x * 2 ^ 13 % 2 ^ 32) in
    let fits = xor-lt 32 x (x * 2 ^ 13 % 2 ^ 32) h.1 (omega arith) in
    (ground (arith, stuck, h), fits)

right17-IsWord : (x : ℕ) → IsWord x → IsWord (right17 x)
right17-IsWord x h =
    let stuck = xor_zero x (x / 2 ^ 17) in
    let fits = xor-lt 32 x (x / 2 ^ 17) h.1 (omega (arith, h)) in (ground (arith, stuck, h), fits)

left5-IsWord : (x : ℕ) → IsWord x → IsWord (left5 x)
left5-IsWord x h =
    let stuck = xor_zero x (x * 2 ^ 5 % 2 ^ 32) in
    let fits = xor-lt 32 x (x * 2 ^ 5 % 2 ^ 32) h.1 (omega arith) in
    (ground (arith, stuck, h), fits)

-- What is drawn: a word, two words, or bytes for a slice.
pub data Draw : Type 0 where
  word double : Draw
  bytes : Bytes → Draw

unfoldable pub drawn : Draw → XorShift32Rng → XorShift32Rng
unfolding next_u32 next_u64 fill_bytes
drawn word rng = (next_u32 rng).1
drawn double rng = (next_u64 rng).1
drawn (bytes dest) rng = (fill_bytes dest rng).1

unfoldable pub drawn_all : List Draw → XorShift32Rng → XorShift32Rng
unfolding drawn
drawn_all [] rng = rng
drawn_all (d ∷ ds) rng = drawn_all ds (drawn d rng)

tls_seed-IsWord : (ticks : ℕ) → IsWord (tls_seed ticks)
unfolding tls_seed
tls_seed-IsWord ticks = elim (Bool-cases (ticks % 2 ^ 32 == 0)) [
  | inl absorbed ↦ rw absorbed (omega arith, omega arith)
  | inr live ↦ rw live (ground arith, omega arith)
]

next_u32-IsWord : (rng : XorShift32Rng) → IsWord rng.state → IsWord (next_u32 rng).1.state
unfolding next_u32
next_u32-IsWord rng h =
    left5-IsWord _ (right17-IsWord (left13 rng.state) (left13-IsWord rng.state h))

fill_chunks-IsWord :
    (fuel n : ℕ) (rng : XorShift32Rng) → IsWord rng.state → IsWord (fill_chunks fuel n rng).1.state
unfolding fill_chunks
fill_chunks-IsWord zero n rng h = h
fill_chunks-IsWord (suc fuel) zero rng h = h
fill_chunks-IsWord (suc fuel) (suc n) rng h =
    fill_chunks-IsWord fuel (suc n - 4) (next_u32 rng).1 (next_u32-IsWord rng h)

drawn-IsWord : (d : Draw) (rng : XorShift32Rng) → IsWord rng.state → IsWord (drawn d rng).state
unfolding drawn next_u64 fill_bytes
drawn-IsWord word rng h = next_u32-IsWord rng h
drawn-IsWord double rng h = next_u32-IsWord (next_u32 rng).1 (next_u32-IsWord rng h)
drawn-IsWord (bytes dest) rng h = fill_chunks-IsWord (length dest) (length dest) rng h

drawn_all-IsWord :
    (ds : List Draw) (rng : XorShift32Rng) → IsWord rng.state → IsWord (drawn_all ds rng).state
unfolding drawn_all
drawn_all-IsWord [] rng h = h
drawn_all-IsWord (d ∷ ds) rng h = drawn_all-IsWord ds (drawn d rng) (drawn-IsWord d rng h)

-- Whatever the clock says and whatever has been drawn, the state of the generator fits 32 bits and is
-- not zero, the one state in which it would return nothing but zeros.
pub tls_seed-drawn_all :
    (ticks : ℕ) (ds : List Draw)
    → (0 < (drawn_all ds (new (tls_seed ticks))).state)
      × ((drawn_all ds (new (tls_seed ticks))).state < 2 ^ 32)
tls_seed-drawn_all ticks ds = drawn_all-IsWord ds (new (tls_seed ticks)) (tls_seed-IsWord ticks)
