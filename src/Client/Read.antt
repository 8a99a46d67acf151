-- ===== src/Client/Read.antt =====
-- The loop of `read_response` ends, within its bounds, and what it returns is complete.
use nanofish.Client.{
  ReadEnd, returned, ended, read_response_result, read_response_round, read_response_loop,
  read_response,
}
use nanofish.Codec.Framing.{complete, declares_length}
use nanofish.Io.{Io, Stream, continue, lift}
use nanofish.Prelude.{
  ℕ, zero, suc, ◌+◌, ◌-◌, ◌≤◌, ◌<◌, ◌⊎◌, inl, inr, true, false, ◌&&◌, [], ◌∷◌, ◌++◌, Option, none,
  some, ◌≡◌, refl, ltb, ◌==◌, Bytes, length, is_empty, arith, Bool-cases, length-append,
}
use nanofish.Result.{Result, ok, err, panic, out_of_fuel}

module _ (usize_max : ℕ) where
  -- What a caller of `read_response` may rely on: a response is not empty, is within the buffer, and
  -- is complete, or else declares no length; and there is no panic and no end of fuel.
  unfoldable pub IsReceived : ℕ → Result Bytes → Type 0
  IsReceived buf_len (ok got) =
      (0 < length got)
      × (length got ≤ buf_len)
      × ((complete usize_max got ≡ true) ⊎ (declares_length usize_max got ≡ false))
  IsReceived buf_len (err e) = Unit
  IsReceived buf_len panic = ⊥
  IsReceived buf_len out_of_fuel = ⊥

  -- The same of the end of the loop.
  IsReadEnd : ℕ → Result ReadEnd → Type 0
  IsReadEnd buf_len (ok (returned got)) =
      (0 < length got) × (length got ≤ buf_len) × (complete usize_max got ≡ true)
  IsReadEnd buf_len (ok (ended got saw_eof)) = length got ≤ buf_len
  IsReadEnd buf_len (err e) = Unit
  IsReadEnd buf_len panic = ⊥
  IsReadEnd buf_len out_of_fuel = ⊥

  module _ (stream : Stream) (retry_delay : stream.State → stream.State) (buf_len : ℕ) where
    read_response_round-IsReadEnd :
        (next : Bytes → ℕ → Io stream.State ReadEnd) (got : Bytes) (retries : ℕ)
        (outcome : Option Bytes × stream.State)
        → ((bytes : Bytes) → outcome.0 ≡ some bytes → length bytes ≤ buf_len - length got)
        → length got < buf_len
        → 0 < retries
        → ((more : Bytes) (left : ℕ) (st : stream.State)
            → length more ≤ buf_len
            → buf_len - length more + left < buf_len - length got + retries
            → IsReadEnd buf_len (next more left st).0)
        → IsReadEnd buf_len
            (read_response_round usize_max stream retry_delay buf_len next got retries outcome).0
    unfolding read_response_round IsReadEnd
    read_response_round-IsReadEnd next got retries (none, st) bound h k f =
        elim (Bool-cases (retries - 1 == 0)) [
          | inl last ↦ rw (last, read_response_round) tt
          | inr left ↦
              rw (left, read_response_round)
                (f got (retries - 1) (retry_delay st) (omega arith) (omega arith))
        ]
    read_response_round-IsReadEnd next got retries (some [], st) bound h k f = omega arith
    read_response_round-IsReadEnd next got retries (some (b ∷ bs), st) bound h k f =
        let size = length-append got (b ∷ bs) in
        let fits = bound (b ∷ bs) refl in
        elim (Bool-cases (complete usize_max (got ++ b ∷ bs))) [
          | inl done ↦
              rw (done, read_response_round) (omega (arith, size), omega (arith, size, fits), done)
          | inr more ↦
              rw (more, read_response_round)
                (f (got ++ b ∷ bs) retries st (omega (arith, size, fits)) (omega (arith, size)))
        ]

    read_response_loop-IsReadEnd :
        (fuel : ℕ) (got : Bytes) (retries : ℕ) (st : stream.State)
        → length got ≤ buf_len
        → buf_len - length got + retries < fuel
        → IsReadEnd buf_len
            (read_response_loop usize_max stream retry_delay buf_len fuel got retries st).0
    unfolding read_response_loop IsReadEnd
    read_response_loop-IsReadEnd zero got retries st h k = absurd (omega arith)
    read_response_loop-IsReadEnd (suc fuel) got retries st h k =
        elim (Bool-cases (ltb (length got) buf_len && ltb 0 retries)) [
          | inr stop ↦ rw (stop, read_response_loop) h
          | inl go_on ↦
              rw (go_on, read_response_loop)
                (read_response_round-IsReadEnd
                  (read_response_loop usize_max stream retry_delay buf_len fuel) got retries
                  (stream.read st (buf_len - length got))
                  (stream.read_lem st (buf_len - length got)) (ground arith) (ground arith)
                  λ more left next fits less.
                    read_response_loop-IsReadEnd fuel more left next fits (omega arith))
        ]

  positive : (got : Bytes) → is_empty got ≡ false → 0 < length got
  positive [] e = cc
  positive (b ∷ bs) e = omega arith

  read_response_result-IsReceived :
      (buf_len : ℕ) (e : ReadEnd)
      → IsReadEnd buf_len (ok e)
      → IsReceived buf_len (read_response_result usize_max e)
  unfolding IsReadEnd IsReceived read_response_result
  read_response_result-IsReceived buf_len (returned got) h = (h.0, h.1, inl h.2)
  read_response_result-IsReceived buf_len (ended got saw_eof) h = elim (Bool-cases (is_empty got)) [
    | inl nothing ↦ rw (nothing, read_response_result) tt
    | inr something ↦ elim (Bool-cases (complete usize_max got)) [
      | inl done ↦
          rw (something, read_response_result)
            (rw (done, read_response_result) (positive got something, h, inl done))
      | inr open_end ↦
          rw (something, read_response_result)
            (rw (open_end, read_response_result)
              (elim (Bool-cases saw_eof) [
                | inr full ↦ rw full tt
                | inl eof ↦ elim (Bool-cases (declares_length usize_max got)) [
                  | inl declared ↦ rw eof (rw declared tt)
                  | inr free ↦ rw eof (rw free (positive got something, h, inr free))
                ]
              ]))
    ]
  ]

  received :
      (buf_len : ℕ) (S : Type 0) (m : Result ReadEnd × S)
      → IsReadEnd buf_len m.0
      → IsReceived buf_len (continue m (λ e. lift (read_response_result usize_max e))).0
  unfolding IsReadEnd IsReceived
  received buf_len S (ok e, st) h = read_response_result-IsReceived buf_len e h
  received buf_len S (err x, st) h = tt
  received buf_len S (panic, st) h = elim h [ ]
  received buf_len S (out_of_fuel, st) h = elim h [ ]

  -- Whatever the stream does, `read_response` returns, without a panic, an error or bytes that are
  -- not empty, fit the buffer, and are complete or declare no length.
  pub read_response-IsReceived :
      (stream : Stream) (retry_delay : stream.State → stream.State) (buf_len max_retries : ℕ)
      (st : stream.State)
      → IsReceived buf_len (read_response usize_max stream retry_delay buf_len max_retries st).0
  unfolding read_response
  read_response-IsReceived stream retry_delay buf_len max_retries st =
      received buf_len stream.State
        (read_response_loop usize_max stream retry_delay buf_len (suc (buf_len + max_retries)) []
          max_retries st)
        (read_response_loop-IsReadEnd stream retry_delay buf_len (suc (buf_len + max_retries)) []
          max_retries st (omega arith) (omega arith))
