-- ===== src/Embassy/Rng/Fill.antt =====
-- The bytes of `fill_bytes` against the words that the generator returns.
use nanofish.Embassy.Rng.{XorShift32Rng, next_u32, to_le_bytes, fill_chunks, fill_bytes}
use nanofish.Prelude.{
  ℕ, zero, suc, ◌-◌, ◌*◌, ◌<◌, All, length-take, ◌≤◌, ◌≡◌, refl, ap, ◌∙◌, [], ◌∷◌, ◌++◌, Bytes,
  take, length, arith, min,
}

-- The bytes of the next `count` words, lowest byte first.
unfoldable pub words : ℕ → XorShift32Rng → Bytes
unfolding next_u32 to_le_bytes
words zero rng = []
words (suc count) rng = to_le_bytes (next_u32 rng).0 ++ words count (next_u32 rng).1

fill_chunks_lem :
    (fuel n : ℕ) (rng : XorShift32Rng)
    → n ≤ fuel
    → (fill_chunks fuel n rng).0 ≡ take n (words fuel rng)
unfolding fill_chunks words to_le_bytes
fill_chunks_lem zero zero rng h = refl
fill_chunks_lem zero (suc n) rng h = absurd (omega arith)
fill_chunks_lem (suc fuel) zero rng h = refl
fill_chunks_lem (suc fuel) (suc zero) rng h =
    rw (fill_chunks_lem fuel 0 (next_u32 rng).1 (omega arith)) refl
fill_chunks_lem (suc fuel) (suc (suc zero)) rng h =
    rw (fill_chunks_lem fuel 0 (next_u32 rng).1 (omega arith)) refl
fill_chunks_lem (suc fuel) (suc (suc (suc zero))) rng h =
    rw (fill_chunks_lem fuel 0 (next_u32 rng).1 (omega arith)) refl
fill_chunks_lem (suc fuel) (suc (suc (suc (suc n)))) rng h =
    let whole : min (suc (suc (suc (suc n)))) 4 ≡ 4 = omega arith in
    let less : suc (suc (suc (suc n))) - 4 ≡ n = omega arith in
    rw (whole, less, fill_chunks) (rw (fill_chunks_lem fuel n (next_u32 rng).1 (omega arith)) refl)

length-words : (count : ℕ) (rng : XorShift32Rng) → length (words count rng) ≡ 4 * count
unfolding words to_le_bytes
length-words zero rng = refl
length-words (suc count) rng = omega (arith, length-words count (next_u32 rng).1)

abbrev pub IsByte : ℕ → Type 0
IsByte b = b < 256

words-IsByte : (count : ℕ) (rng : XorShift32Rng) → All IsByte (words count rng)
unfolding words to_le_bytes
words-IsByte zero rng = tt
words-IsByte (suc count) rng =
    (omega arith, (omega arith, (omega arith, (omega arith, words-IsByte count (next_u32 rng).1))))

All-take : (n : ℕ) (xs : Bytes) → All IsByte xs → All IsByte (take n xs)
All-take zero xs h = tt
All-take (suc n) [] h = tt
All-take (suc n) (x ∷ xs) h = (h.0, All-take n xs h.1)

-- `fill_bytes` overwrites the whole slice, with the bytes of the words that the generator returns next,
-- each word's lowest byte first; of the last word it uses as many as there is room for.
pub fill_bytes-words :
    (dest : Bytes) (rng : XorShift32Rng)
    → ((fill_bytes dest rng).0 ≡ take (length dest) (words (length dest) rng))
      × (length (fill_bytes dest rng).0 ≡ length dest)
      × All IsByte (fill_bytes dest rng).0
unfolding fill_bytes
fill_bytes-words dest rng =
    let same = fill_chunks_lem (length dest) (length dest) rng (omega arith) in
    let enough = length-words (length dest) rng in
    (
      same,
      ap length same ∙ length-take (length dest) (words (length dest) rng) ∙ omega (arith, enough),
      rw same (All-take (length dest) (words (length dest) rng) (words-IsByte (length dest) rng)),
    )
