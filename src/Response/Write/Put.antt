-- ===== src/Response/Write/Put.antt =====
-- Appending to a buffer of fixed capacity, as one function of what is appended. A row of appends
-- is one append of all the pieces.
use nanofish.Heapless.{Heapless}
use nanofish.Prelude.{
  ℕ, ◌+◌, ◌≤◌, inl, inr, false, [], ◌∷◌, ◌++◌, ◌≡◌, sym, ap, ◌∙◌, leb, if◌then◌else◌, Bytes, length,
  arith, Bool-cases, length-append, append_assoc, append-nil, leb→le, le→leb,
}
use nanofish.Response.Write.{push_slice, push_byte, push_digits}
use nanofish.Result.{Result, ok, err, ◌>>=◌, buffer_overflow, >>=-ok}

abbrev pub put : ℕ → Bytes → Bytes → Result Bytes
put n v s = if leb (length v + length s) n then ok (v ++ s) else err buffer_overflow

pub put-nil : (n : ℕ) (v : Bytes) → length v ≤ n → put n v [] ≡ ok v
put-nil n v h = rw (le→leb (length v + 0) n (omega arith)) (ap ok (append-nil v))

-- What is appended behind an append that succeeds stands behind it; `k` is what follows both.
pub put-bind_then {ℓ} :
    {B : Type ℓ} (n : ℕ) (v s t : Bytes) (f k : Bytes → Result B)
    → ((w : Bytes) → length w ≤ n → f w ≡ (put n w t >>= k))
    → (put n v s >>= f) ≡ (put n v (s ++ t) >>= k)
put-bind_then n v s t f k h = elim (Bool-cases (leb (length v + length s) n)) [
  | inl room ↦
      let fits = leb→le _ _ room in
      let sum : length (v ++ s) + length t ≡ length v + length (s ++ t) =
        omega (arith, length-append v s, length-append s t) in
      rw room (
        h (v ++ s) (omega (arith, length-append v s))
        ∙ ap (λ i. (if leb i n then ok (v ++ s ++ t) else err buffer_overflow) >>= k) sum
        ∙ ap (λ w. (if leb (length v + length (s ++ t)) n then ok w else err buffer_overflow) >>= k)
            (append_assoc v s t))
  | inr full ↦
      let over : leb (length v + length (s ++ t)) n ≡ false = ground (arith, length-append s t) in
      rw (full, over)
]

pub put-bind :
    (n : ℕ) (v s t : Bytes) (f : Bytes → Result Bytes)
    → ((w : Bytes) → length w ≤ n → f w ≡ put n w t)
    → (put n v s >>= f) ≡ put n v (s ++ t)
put-bind n v s t f h =
    put-bind_then n v s t f (λ w. ok w) (λ w fits. h w fits ∙ sym (>>=-ok (put n w t)))
    ∙ >>=-ok (put n v (s ++ t))

module _ (hp : Heapless) (n : ℕ) where
  pub push_slice_lem : (v s : Bytes) → push_slice hp n v s ≡ put n v s
  unfolding push_slice
  push_slice_lem v s = rw (hp.extend_lem n v s) (ground arith)

  pub push_byte_lem : (v : Bytes) (b : ℕ) → push_byte hp n v b ≡ put n v (b ∷ [])
  unfolding push_byte
  push_byte_lem v b = rw (hp.push_lem ℕ n v b) (ground arith)

  pub push_digits_lem : (v s : Bytes) → length v ≤ n → push_digits hp n v s ≡ put n v s
  unfolding push_digits
  push_digits_lem v [] h = sym (put-nil n v h)
  push_digits_lem v (d ∷ s) h =
      rw (push_byte_lem v d) (put-bind n v (d ∷ []) s _ λ w k. push_digits_lem w s k)
