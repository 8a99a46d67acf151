-- ===== src/Client/Arrive.antt =====
-- A response that arrives in pieces, with errors between them that are retried, is received.
use nanofish.Client.{
  ReadEnd, returned, read_response_result, read_response_round, read_response_loop, read_response,
}
use nanofish.Codec.Framing.{complete}
use nanofish.Io.{Io, Stream, continue, lift}
use nanofish.Prelude.{
  ℕ, zero, suc, ◌+◌, ◌-◌, ◌≤◌, ◌<◌, ◌≢◌, true, false, ◌&&◌, [], ◌∷◌, ◌++◌, none, some, ◌≡◌, refl,
  ap, ◌∙◌, ltb, ◌==◌, Bytes, length, arith, length-append, length_pos,
}
use nanofish.Result.{Result, ok}

module _ (usize_max : ℕ) (stream : Stream) (retry_delay : stream.State → stream.State)
    (buf_len : ℕ) where
  open stream use {State, read}

  -- What the stream does next, wherever there is room for it.
  abbrev pub Reads : State → Bytes → State → Type 0
  Reads st piece next = (room : ℕ) → length piece ≤ room → read st room ≡ (some piece, next)

  abbrev pub Fails : State → State → Type 0
  Fails st next = (room : ℕ) → read st room ≡ (none, next)

  -- The world `st` still brings what makes the bytes read so far the response `whole`: pieces that
  -- are not empty, none of which completes the response but the last, within the buffer; and before
  -- each of them there may be errors, fewer than the retries that are left.
  pub data Arrives : Bytes → ℕ → State → Bytes → Type 0 where
    last :
        (got piece : Bytes) (retries : ℕ) (st next : State)
        → piece ≢ []
        → length got + length piece ≤ buf_len
        → 0 < retries
        → Reads st piece next
        → complete usize_max (got ++ piece) ≡ true
        → Arrives got retries st (got ++ piece)
    more :
        (got piece : Bytes) (retries : ℕ) (st next : State) (whole : Bytes)
        → piece ≢ []
        → length got + length piece ≤ buf_len
        → 0 < retries
        → Reads st piece next
        → complete usize_max (got ++ piece) ≡ false
        → Arrives (got ++ piece) retries next whole
        → Arrives got retries st whole
    again :
        (got : Bytes) (retries : ℕ) (st next : State) (whole : Bytes)
        → length got < buf_len
        → 1 < retries
        → Fails st next
        → Arrives got (retries - 1) (retry_delay next) whole
        → Arrives got retries st whole

  abbrev loop : ℕ → Bytes → ℕ → Io State ReadEnd
  loop = read_response_loop usize_max stream retry_delay buf_len

  open_loop :
      (fuel : ℕ) (got : Bytes) (retries : ℕ) (st : State)
      → length got < buf_len
      → 0 < retries
      → loop (suc fuel) got retries st
        ≡ read_response_round usize_max stream retry_delay buf_len
            (loop fuel)
            got
            retries
            (read st (buf_len - length got))
  unfolding read_response_loop
  open_loop fuel got retries st h k =
      let go_on : (ltb (length got) buf_len && ltb 0 retries) ≡ true = ground arith in
      rw (go_on, read_response_loop) refl

  round_piece :
      (fuel : ℕ) (got piece : Bytes) (retries : ℕ) (st next : State)
      → piece ≢ []
      → length got + length piece ≤ buf_len
      → 0 < retries
      → Reads st piece next
      → loop (suc fuel) got retries st ≡ elim (complete usize_max (got ++ piece)) [
        | true ↦ (ok (returned (got ++ piece)), next)
        | false ↦ loop fuel (got ++ piece) retries next
      ]
  unfolding read_response_round
  round_piece fuel got [] retries st next ne h k r = absurd (ne refl)
  round_piece fuel got (b ∷ bs) retries st next ne h k r =
      open_loop fuel got retries st (omega arith) k
      ∙ ap (read_response_round usize_max stream retry_delay buf_len (loop fuel) got retries)
          (r (buf_len - length got) (omega arith))

  loop-Arrives :
      (fuel : ℕ) (got : Bytes) (retries : ℕ) (st : State) (whole : Bytes)
      → Arrives got retries st whole
      → buf_len - length got + retries < fuel
      → (loop fuel got retries st).0 ≡ ok (returned whole)
  unfolding read_response_round
  loop-Arrives zero got retries st whole a h = absurd (omega arith)
  loop-Arrives (suc fuel) _ _ _ _ (last got piece retries st next ne room k r done) h =
      ap (λ p. p.0) (round_piece fuel got piece retries st next ne room k r) ∙ rw done refl
  loop-Arrives (suc fuel) _ _ _ _ (more got piece retries st next whole ne room k r open_end a) h =
      ap (λ p. p.0) (round_piece fuel got piece retries st next ne room k r)
      ∙ rw open_end (
          loop-Arrives fuel (got ++ piece) retries next whole a
            (omega (arith, length-append got piece, length_pos piece ne)))
  loop-Arrives (suc fuel) _ _ _ _ (again got retries st next whole room k fails a) h =
      let left : (retries - 1 == 0) ≡ false = ground arith in
      ap (λ p. p.0)
        (open_loop fuel got retries st room (omega arith)
          ∙ ap (read_response_round usize_max stream retry_delay buf_len (loop fuel) got retries)
              (fails (buf_len - length got)))
      ∙ rw (left, read_response_round)
          (loop-Arrives fuel got (retries - 1) (retry_delay next) whole a (omega arith))

  finish :
      (m : Result ReadEnd × State) (whole : Bytes)
      → m.0 ≡ ok (returned whole)
      → (continue m (λ e. lift (read_response_result usize_max e))).0 ≡ ok whole
  unfolding read_response_result
  finish (m, st) whole e = rw e refl

  -- A response that arrives in any pieces, the buffer has room for, and no proper run of pieces
  -- completes, is returned whole, also with errors between the pieces, if they are fewer than
  -- `max_retries`.
  pub read_response-Arrives :
      (max_retries : ℕ) (st : State) (whole : Bytes)
      → Arrives [] max_retries st whole
      → (read_response usize_max stream retry_delay buf_len max_retries st).0 ≡ ok whole
  unfolding read_response
  read_response-Arrives max_retries st whole a =
      finish (loop (suc (buf_len + max_retries)) [] max_retries st) whole
        (loop-Arrives (suc (buf_len + max_retries)) [] max_retries st whole a (omega arith))
