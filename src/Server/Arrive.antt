-- ===== src/Server/Arrive.antt =====
-- A request that arrives in pieces is received whole.
use nanofish.Io.Brings.{Reads, Brings, done, piece, together}
use nanofish.Io.{Stream}
use nanofish.Prelude.{
  ℕ, zero, suc, ◌+◌, ◌-◌, ◌≤◌, ◌≢◌, true, false, List, [], ◌∷◌, ◌++◌, Option, none, ◌≡◌, refl, sym,
  ap, ◌∙◌, Bytes, length, append_assoc, append-nil, length-append, length_pos, ltb, arith,
}
use nanofish.Protocol.{find_double_crlf}
use nanofish.Result.{Result, ok}
use nanofish.Server.Framed.{Framed, next-find_double_crlf, whole_complete, beginning_incomplete}
use nanofish.Server.Read.{HeaderEnd, HeaderEnd-next}
use nanofish.Server.{
  ReadEnd, read_end, request_complete_at, read_request_round, read_request_loop, read_request,
  read_request_result,
}

module _ (usize_max : ℕ) (stream : Stream) (buf_len : ℕ) where
  open stream use {State, read}

  -- What a round does with a piece, by the end of the headers that is known behind it.
  abbrev after_piece : ℕ → Bytes → State → Option ℕ → Result ReadEnd × State
  after_piece fuel more next found = elim (request_complete_at usize_max more found) [
    | true ↦ (ok (read_end more false true), next)
    | false ↦ read_request_loop usize_max stream buf_len fuel more found next
  ]

  loop_piece :
      (fuel : ℕ) (got bytes : Bytes) (header_end : Option ℕ) (st next : State)
      → bytes ≢ []
      → length got + length bytes ≤ buf_len
      → HeaderEnd got header_end
      → Reads stream st bytes next
      → read_request_loop usize_max stream buf_len (suc fuel) got header_end st
        ≡ after_piece fuel (got ++ bytes) next (find_double_crlf (got ++ bytes))
  unfolding read_request_loop read_request_round
  loop_piece fuel got [] header_end st next ne room h r = absurd (ne refl)
  loop_piece fuel got (b ∷ bs) header_end st next ne room h r =
      let go_on : ltb (length got) buf_len ≡ true = ground arith in
      rw (go_on, read_request_loop)
        (rw (r (buf_len - length got) (omega arith)) (
          ap (after_piece fuel (got ++ b ∷ bs) next)
            (next-find_double_crlf usize_max header_end got (b ∷ bs) h)))

  together_ne_nil :
      (st last : State) (bytes : Bytes) (pieces : List Bytes)
      → Brings stream st (bytes ∷ pieces) last
      → together (bytes ∷ pieces) ≢ []
  together_ne_nil st last [] pieces (piece _ _ _ _ _ ne _ _) = absurd (ne refl)
  together_ne_nil st last (b ∷ bs) pieces brings = λ e. cc

  module _ (whole : Bytes) (framed : Framed usize_max whole) (fits : length whole ≤ buf_len) where
    loop-Brings :
        (fuel : ℕ) (got bytes : Bytes) (pieces : List Bytes) (header_end : Option ℕ)
        (st last : State)
        → whole ≡ got ++ together (bytes ∷ pieces)
        → HeaderEnd got header_end
        → Brings stream st (bytes ∷ pieces) last
        → length whole - length got ≤ fuel
        → read_request_loop usize_max stream buf_len (suc fuel) got header_end st
          ≡ (ok (read_end whole false true), last)
    loop-Brings fuel got bytes [] header_end st last e h (piece _ next _ _ _ ne r (done _)) enough =
        let all : whole ≡ got ++ bytes = e ∙ ap (λ s. got ++ s) (append-nil bytes) in
        let size : length whole ≡ length got + length bytes =
          ap length all ∙ length-append got bytes in
        loop_piece fuel got bytes header_end st next ne (omega (arith, size)) h r
        ∙ ap (λ s. after_piece fuel s next (find_double_crlf s)) (sym all)
        ∙ rw (whole_complete usize_max whole framed, after_piece) refl
    loop-Brings zero got bytes (b ∷ bs) header_end st last e h (piece _ next _ _ _ ne r more)
          enough =
        absurd (
          omega (
            arith,
            ap length e,
            length-append got (together (bytes ∷ b ∷ bs)),
            length-append bytes (together (b ∷ bs)),
            length_pos bytes ne,
          ))
    loop-Brings (suc fuel) got bytes (b ∷ bs) header_end st last e h (piece _ next _ _ _ ne r more)
          enough =
        let rest = together (b ∷ bs) in
        let e' : whole ≡ (got ++ bytes) ++ rest = e ∙ sym (append_assoc got bytes rest) in
        let size : length whole ≡ (length got + length bytes) + length rest =
          omega (arith, ap length e', length-append (got ++ bytes) rest, length-append got bytes) in
        let more_got : length (got ++ bytes) ≡ length got + length bytes =
          length-append got bytes in
        loop_piece (suc fuel) got bytes header_end st next ne (omega (arith, size)) h r
        ∙ rw
            (
              beginning_incomplete usize_max whole framed (got ++ bytes) rest e'
                  (together_ne_nil next last b bs more),
              after_piece,
            )
            (loop-Brings fuel (got ++ bytes) b bs (find_double_crlf (got ++ bytes)) next last e'
              (HeaderEnd-next usize_max buf_len none got bytes tt) more
              (omega (arith, more_got, size, enough, length_pos bytes ne)))

    -- A request in its frame that arrives in pieces of any sizes, none of them empty, and fits the
    -- buffer is received whole, with nothing read behind it.
    pub read_request-Brings :
        (st last : State) (pieces : List Bytes)
        → whole ≡ together pieces
        → Brings stream st pieces last
        → read_request usize_max stream buf_len st ≡ (ok whole, last)
    unfolding read_request read_request_result
    read_request-Brings st last [] e brings = absurd (omega (arith, framed.sized, ap length e))
    read_request-Brings st last (bytes ∷ pieces) e brings =
        rw (loop-Brings buf_len [] bytes pieces none st last e tt brings (omega arith)) refl
