-- ===== src/Server/Read.antt =====
-- The loop of `read_request` ends, within its bounds, and what it returns is a whole request.
use mathlib.Core.Path.{subst}
use nanofish.Codec.Framing.{content_length}
use nanofish.Io.{Io, Stream, continue, lift}
use nanofish.Prelude.{
  ℕ, zero, suc, ◌+◌, ◌-◌, ◌≤◌, ◌<◌, inl, inr, true, [], ◌∷◌, ◌++◌, Option, none, some, ◌≡◌, refl,
  sym, ltb, Bytes, length, arith, Bool-cases, length-append, Option-cases, min, leb, leb→le, take,
}
use nanofish.Protocol.Find.{find_window_longer}
use nanofish.Protocol.{find_double_crlf, double_crlf}
use nanofish.Result.{Result, ok, err, panic, out_of_fuel}
use nanofish.Server.{
  ReadEnd, next_header_end, body_complete, request_complete_at, read_request_round,
  read_request_loop, read_request_result, read_request,
}

-- The end of the headers.
abbrev pub HeaderEnd : Bytes → Option ℕ → Type 0
HeaderEnd got none = Unit
HeaderEnd got (some hdr_end) = find_double_crlf got ≡ some hdr_end

-- The bytes behind the end of the headers that a `Content-Length` asks for.
pub BodyThere : Bytes → ℕ → Option ℕ → Type 0
BodyThere got hdr_end none = Unit
BodyThere got hdr_end (some wanted) = hdr_end + 4 + wanted ≤ length got

module _ (usize_max buf_len : ℕ) where
  -- What a caller of `read_request` may rely on: the request is within the buffer, has the end of
  -- its headers, and as many bytes behind it as they declare; and there is no panic and no end of
  -- fuel.
  unfoldable pub IsWholeRequest : Result Bytes → Type 0
  IsWholeRequest (ok got) =
      (length got ≤ buf_len)
      × ((hdr_end : ℕ) × (find_double_crlf got ≡ some hdr_end)
          × BodyThere got hdr_end (content_length usize_max (take hdr_end got)))
  IsWholeRequest (err e) = Unit
  IsWholeRequest panic = ⊥
  IsWholeRequest out_of_fuel = ⊥

  -- The same of the end of the loop.
  IsReadEnd : Result ReadEnd → Type 0
  IsReadEnd (ok e) =
      (length e.got ≤ buf_len)
      × (e.request_complete ≡ true
          → (hdr_end : ℕ) × (find_double_crlf e.got ≡ some hdr_end)
            × (body_complete usize_max e.got hdr_end ≡ true))
  IsReadEnd (err e) = Unit
  IsReadEnd panic = ⊥
  IsReadEnd out_of_fuel = ⊥

  pub HeaderEnd-next :
      (header_end : Option ℕ) (got bytes : Bytes)
      → HeaderEnd got header_end
      → HeaderEnd (got ++ bytes) (next_header_end header_end (got ++ bytes))
  unfolding find_double_crlf
  HeaderEnd-next (some hdr_end) got bytes h = find_window_longer double_crlf got bytes hdr_end h
  HeaderEnd-next none got bytes h = elim (Option-cases (find_double_crlf (got ++ bytes))) [
    | inl absent ↦ rw absent tt
    | inr (hdr_end, found) ↦ subst (HeaderEnd (got ++ bytes)) (sym found) found
  ]

  complete_request :
      (got : Bytes) (header_end : Option ℕ)
      → HeaderEnd got header_end
      → request_complete_at usize_max got header_end ≡ true
      → (hdr_end : ℕ) × (find_double_crlf got ≡ some hdr_end)
        × (body_complete usize_max got hdr_end ≡ true)
  unfolding request_complete_at
  complete_request got none h k = cc
  complete_request got (some hdr_end) h k = (hdr_end, h, k)

  module _ (stream : Stream) where
    read_request_round-IsReadEnd :
        (next : Bytes → Option ℕ → Io stream.State ReadEnd) (got : Bytes) (header_end : Option ℕ)
        (outcome : Option Bytes × stream.State)
        → ((bytes : Bytes) → outcome.0 ≡ some bytes → length bytes ≤ buf_len - length got)
        → length got < buf_len
        → HeaderEnd got header_end
        → ((more : Bytes) (found : Option ℕ) (st : stream.State)
            → length more ≤ buf_len
            → length got < length more
            → HeaderEnd more found
            → IsReadEnd (next more found st).0)
        → IsReadEnd (read_request_round usize_max stream buf_len next got header_end outcome).0
    unfolding read_request_round IsReadEnd
    read_request_round-IsReadEnd next got header_end (none, st) bound h k f = tt
    read_request_round-IsReadEnd next got header_end (some [], st) bound h k f =
        (omega arith, λ e. cc)
    read_request_round-IsReadEnd next got header_end (some (b ∷ bs), st) bound h k f =
        let size = length-append got (b ∷ bs) in
        let fits = bound (b ∷ bs) refl in
        let ends = HeaderEnd-next header_end got (b ∷ bs) k in
        let found = next_header_end header_end (got ++ b ∷ bs) in
        elim (Bool-cases (request_complete_at usize_max (got ++ b ∷ bs) found)) [
          | inl done ↦
              rw (done, read_request_round)
                (omega (arith, size, fits), λ e. complete_request (got ++ b ∷ bs) found ends done)
          | inr more ↦
              rw (more, read_request_round)
                (f (got ++ b ∷ bs) found st (omega (arith, size, fits)) (omega (arith, size)) ends)
        ]

    read_request_loop-IsReadEnd :
        (fuel : ℕ) (got : Bytes) (header_end : Option ℕ) (st : stream.State)
        → length got ≤ buf_len
        → buf_len - length got < fuel
        → HeaderEnd got header_end
        → IsReadEnd (read_request_loop usize_max stream buf_len fuel got header_end st).0
    unfolding read_request_loop IsReadEnd
    read_request_loop-IsReadEnd zero got header_end st h k e = absurd (omega arith)
    read_request_loop-IsReadEnd (suc fuel) got header_end st h k e =
        elim (Bool-cases (ltb (length got) buf_len)) [
          | inr full ↦ rw (full, read_request_loop) (h, λ e. cc)
          | inl room ↦
              rw (room, read_request_loop)
                (read_request_round-IsReadEnd (read_request_loop usize_max stream buf_len fuel) got
                  header_end (stream.read st (buf_len - length got))
                  (stream.read_lem st (buf_len - length got)) (ground arith) e
                  λ more found next fits less ends.
                    read_request_loop-IsReadEnd fuel more found next fits (omega arith) ends)
        ]

  body_there :
      (got : Bytes) (hdr_end : ℕ)
      → length got < usize_max
      → body_complete usize_max got hdr_end ≡ true
      → BodyThere got hdr_end (content_length usize_max (take hdr_end got))
  unfolding body_complete BodyThere
  body_there got hdr_end h c = elim (Option-cases (content_length usize_max (take hdr_end got))) [
    | inl free ↦ rw free tt
    | inr (wanted, declared) ↦
        let c' : leb (min (hdr_end + 4 + wanted) usize_max) (length got) ≡ true =
          rw (declared, body_complete) at c in
        rw declared (omega (arith, leb→le _ _ c'))
  ]

  read_request_result-IsWholeRequest :
      (e : ReadEnd)
      → buf_len < usize_max
      → IsReadEnd (ok e)
      → IsWholeRequest (read_request_result e)
  unfolding IsReadEnd IsWholeRequest read_request_result
  read_request_result-IsWholeRequest e small h = elim (Bool-cases e.request_complete) [
    | inl done ↦
        rw (done, read_request_result)
          (let (hdr_end, found, there) = h.1 done in
            (h.0, (hdr_end, found, body_there e.got hdr_end (omega (arith, h.0)) there)))
    | inr open_end ↦
        rw (open_end, read_request_result)
          (elim (Bool-cases e.saw_eof) [ inl eof ↦ rw eof tt | inr full ↦ rw full tt ])
  ]

  received :
      (S : Type 0) (m : Result ReadEnd × S)
      → buf_len < usize_max
      → IsReadEnd m.0
      → IsWholeRequest (continue m (λ e. lift (read_request_result e))).0
  unfolding IsReadEnd IsWholeRequest
  received S (ok e, st) small h = read_request_result-IsWholeRequest e small h
  received S (err x, st) small h = tt
  received S (panic, st) small h = elim h [ ]
  received S (out_of_fuel, st) small h = elim h [ ]

  -- Whatever the stream does, `read_request` returns, without a panic, an error or a request that
  -- fits the buffer, and has the end of its headers and behind them at least the bytes that its
  -- `Content-Length` asks for. The buffer is smaller than the largest `usize`.
  pub read_request-IsWholeRequest :
      (stream : Stream) (st : stream.State)
      → buf_len < usize_max
      → IsWholeRequest (read_request usize_max stream buf_len st).0
  unfolding read_request
  read_request-IsWholeRequest stream st small =
      received stream.State (read_request_loop usize_max stream buf_len (suc buf_len) [] none st)
        small
        (read_request_loop-IsReadEnd stream (suc buf_len) [] none st (omega arith) (omega arith) tt)
