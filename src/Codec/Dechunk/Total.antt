-- ===== src/Codec/Dechunk/Total.antt =====
-- The loop's fuel is enough, and the theorems on `dechunk` as a whole.
use nanofish.Codec.Dechunk.Decode.{decode, decode_chunk}
use nanofish.Codec.Dechunk.Refine.{Agrees, loop-Agrees, find_crlf_le}
use nanofish.Codec.Dechunk.{slice, chunk_size, dechunk}
use nanofish.Codec.Framing.{chunked}
use nanofish.Prelude.{
  ℕ, zero, suc, ◌+◌, ◌-◌, ◌≤◌, ◌<◌, ◌≢◌, inl, inr, true, some, ◌≡◌, refl, leb, Bytes, take, drop,
  length, arith, Bool-cases, Option-cases, length-take, length-drop, le→leb, leb→le,
}
use nanofish.Protocol.{find_crlf, find_double_crlf}
use nanofish.Result.{Result, ok, err, panic, out_of_fuel, Result-cases}

Agrees-ne-out_of_fuel :
    (s : Bytes) (t w : ℕ) (d : Result Bytes) (r : Result (Bytes × ℕ))
    → Agrees s t w d r
    → d ≢ out_of_fuel
    → r ≢ out_of_fuel
Agrees-ne-out_of_fuel s t w (ok out) out_of_fuel a h e = a
Agrees-ne-out_of_fuel s t w (err x) out_of_fuel a h e = a
Agrees-ne-out_of_fuel s t w panic out_of_fuel a h e = a
Agrees-ne-out_of_fuel s t w out_of_fuel out_of_fuel a h e = h refl
Agrees-ne-out_of_fuel s t w d (ok r) a h e = cc
Agrees-ne-out_of_fuel s t w d (err r) a h e = cc
Agrees-ne-out_of_fuel s t w d panic a h e = cc

module _ (usize_max : ℕ) where
  chunk_size-ne-out_of_fuel : (line : Bytes) → chunk_size usize_max line ≢ out_of_fuel
  unfolding chunk_size
  chunk_size-ne-out_of_fuel line = ground arith

  decode_chunk-ne-out_of_fuel :
      (next : ℕ → Bytes → Result Bytes) (at : ℕ) (todo : Bytes) (p n : ℕ)
      → ((at' q : ℕ) → next at' (drop (p + 2 + n + 2) todo) ≢ out_of_fuel)
      → decode_chunk usize_max next at todo p n ≢ out_of_fuel
  unfolding decode_chunk
  decode_chunk-ne-out_of_fuel next at todo p n h = ground (arith, h (at + (p + 2 + n + 2)) 0)

  decode-ne-out_of_fuel :
      (fuel at : ℕ) (todo : Bytes)
      → length todo < fuel
      → decode usize_max fuel at todo ≢ out_of_fuel
  unfolding decode
  decode-ne-out_of_fuel zero at todo h = absurd (omega arith)
  decode-ne-out_of_fuel (suc fuel) at todo h = elim (Option-cases (find_crlf todo)) [
    | inl e ↦ rw (e, decode) cc
    | inr (p, e) ↦
        let bound = find_crlf_le todo p e in
        rw (e, decode)
          (elim (Result-cases (chunk_size usize_max (take p todo))) [
            | inl (n, f) ↦ rw f (
                decode_chunk-ne-out_of_fuel (decode usize_max fuel) at todo p n λ at' q.
                  decode-ne-out_of_fuel fuel at' (drop (p + 2 + n + 2) todo)
                    (omega (arith, length-drop (p + 2 + n + 2) todo)))
            | inr (inl (x, f)) ↦ rw f cc
            | inr (inr (inl f)) ↦ rw f cc
            | inr (inr (inr f)) ↦ absurd (chunk_size-ne-out_of_fuel (take p todo) f)
          ])
  ]

  -- On a chunked message that is at the start of its buffer and has the end of its headers, the
  -- in-place loop of `dechunk` does what `decode` does on the bytes behind the headers: the
  -- decoded bytes stand behind the headers, which are kept, as are the buffer's length and the
  -- bytes behind the message; errors and panics are the same.
  pub dechunk-Agrees :
      (buffer : Bytes) (total_read pos : ℕ)
      → total_read ≤ length buffer
      → chunked (take total_read buffer) ≡ true
      → find_double_crlf (take total_read buffer) ≡ some pos
      → Agrees buffer total_read
          (pos + 4)
          (decode usize_max (suc total_read) (pos + 4) (slice (pos + 4) total_read buffer))
          (dechunk usize_max buffer total_read)
  unfolding dechunk
  dechunk-Agrees buffer total_read pos h c e = rw (le→leb total_read (length buffer) h) (
      rw c (
        rw e (
          loop-Agrees usize_max (suc total_read) buffer total_read (pos + 4) (pos + 4) (omega arith)
            h)))

  -- `dechunk` returns on every input: its loop ends.
  pub dechunk-ne-out_of_fuel :
      (buffer : Bytes) (total_read : ℕ) → dechunk usize_max buffer total_read ≢ out_of_fuel
  unfolding dechunk
  dechunk-ne-out_of_fuel buffer total_read = elim (Bool-cases (leb total_read (length buffer))) [
    | inr outside ↦ rw outside cc
    | inl within ↦ rw within (elim (Bool-cases (chunked (take total_read buffer))) [
      | inr plain ↦ rw plain cc
      | inl c ↦ rw c (elim (Option-cases (find_double_crlf (take total_read buffer))) [
        | inl e ↦ rw e cc
        | inr (pos, e) ↦ rw e (
            Agrees-ne-out_of_fuel buffer total_read (pos + 4) _ _
              (loop-Agrees usize_max (suc total_read) buffer total_read (pos + 4) (pos + 4)
                (omega arith) (leb→le total_read (length buffer) within))
              (decode-ne-out_of_fuel (suc total_read) (pos + 4) _
                (omega (arith, length-take (total_read - (pos + 4)) (drop (pos + 4) buffer)))))
      ])
    ])
  ]
