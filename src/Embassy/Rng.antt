-- ===== src/Embassy/Rng.antt =====
-- src/client/embassy.rs: the generator that a TLS handshake is seeded with. A `u32` is a number below
-- 2 ^ 32, a shift to the left is cut to 32 bits, and a byte is one of the four of a word.
pub mod Bits
pub mod Reach
pub mod Fill
use Prim.Native.Nat.{bit_xor, bit_or}
use nanofish.Prelude.{
  ℕ, zero, suc, ◌*◌, ◌/◌, ◌%◌, ◌^◌, [], ◌∷◌, ◌++◌, if◌then◌else◌, Bytes, ◌==◌, take, drop, length,
  min, ◌-◌,
}

pub record XorShift32Rng : Type 0 where
  pub state : ℕ

abbrev pub new : ℕ → XorShift32Rng
new seed = record { state = seed }

abbrev pub zero_state_fallback : ℕ
zero_state_fallback = 0x9e37_79b9

-- The low 32 bits always fit, so `try_into` succeeds.
unfoldable pub tls_seed : ℕ → ℕ
tls_seed ticks = if ticks % 2 ^ 32 == 0 then zero_state_fallback else ticks % 2 ^ 32

-- The three lines of `next_u32`.
abbrev pub left13 : ℕ → ℕ
left13 x = bit_xor x (x * 2 ^ 13 % 2 ^ 32)

abbrev pub right17 : ℕ → ℕ
right17 x = bit_xor x (x / 2 ^ 17)

abbrev pub left5 : ℕ → ℕ
left5 x = bit_xor x (x * 2 ^ 5 % 2 ^ 32)

-- The value that is returned is the new state.
unfoldable pub next_u32 : XorShift32Rng → ℕ × XorShift32Rng
next_u32 rng = let x = left5 (right17 (left13 rng.state)) in (x, record { state = x })

unfoldable pub next_u64 : XorShift32Rng → ℕ × XorShift32Rng
unfolding next_u32
next_u64 rng =
    let high = next_u32 rng in let low = next_u32 high.1 in (bit_or (high.0 * 2 ^ 32) low.0, low.1)

-- `to_le_bytes`.
unfoldable pub to_le_bytes : ℕ → Bytes
to_le_bytes x = x % 256 ∷ x / 2 ^ 8 % 256 ∷ x / 2 ^ 16 % 256 ∷ x / 2 ^ 24 % 256 ∷ []

-- The bytes that fill `n` places, on fuel: a round for each chunk of four.
unfoldable pub fill_chunks : ℕ → ℕ → XorShift32Rng → Bytes × XorShift32Rng
unfolding next_u32 to_le_bytes
fill_chunks zero n rng = ([], rng)
fill_chunks (suc fuel) zero rng = ([], rng)
fill_chunks (suc fuel) (suc n) rng =
    let val = next_u32 rng in
    let rest = fill_chunks fuel (suc n - 4) val.1 in
    (take (min (suc n) 4) (to_le_bytes val.0) ++ rest.0, rest.1)

-- `dest` is overwritten whole.
unfoldable pub fill_bytes : Bytes → XorShift32Rng → Bytes × XorShift32Rng
unfolding fill_chunks
fill_bytes dest rng = fill_chunks (length dest) (length dest) rng
