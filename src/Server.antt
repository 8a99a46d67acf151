-- ===== src/Server.antt =====
-- src/server/io.rs: the server on one stream that is accepted already.
pub mod Read
pub mod Frame
pub mod Framed
pub mod Arrive
pub mod Ends
use nanofish.Codec.Framing.{content_length}
use nanofish.Header.{HttpHeader, text_type, content_type_header}
use nanofish.Heapless.{Heapless}
use nanofish.Io.{Io, Stream, lift, or_fail, ◌>>=◌, ◌>>◌}
use nanofish.Prelude.{
  ℕ, zero, suc, ◌+◌, ◌-◌, Bool, true, false, List, [], ◌∷◌, ◌++◌, Option, none, some, ltb, leb, min,
  if◌then◌else◌, Bytes, take, length, codes,
}
use nanofish.Protocol.{find_double_crlf, double_crlf_len, max_headers}
use nanofish.Request.{HttpRequest, try_from}
use nanofish.Response.Write.{build_bytes}
use nanofish.Response.{HttpResponse, text}
use nanofish.Result.{
  Result, ok, err, panic, out_of_fuel, invalid_response, buffer_overflow, tcp_error,
}
use nanofish.StatusCode.{StatusCode}

-- How the loop of `read_request` ends: with what was read, `saw_eof` and `request_complete`.
pub record ReadEnd : Type 0 where
  pub got : Bytes
  pub saw_eof : Bool
  pub request_complete : Bool

abbrev pub read_end : Bytes → Bool → Bool → ReadEnd
read_end got saw_eof request_complete = record {
  got = got;
  saw_eof = saw_eof;
  request_complete = request_complete;
}

-- `header_end`, which is looked for again as long as it is not found.
abbrev pub next_header_end : Option ℕ → Bytes → Option ℕ
next_header_end none got = find_double_crlf got
next_header_end (some hdr_end) got = some hdr_end

-- What is made of the flags behind the loop.
unfoldable pub read_request_result : ReadEnd → Result Bytes
read_request_result e =
    if e.request_complete
    then ok e.got
    else if e.saw_eof
    then err (invalid_response "Incomplete request")
    else err buffer_overflow

module _ (usize_max : ℕ) where
  -- Whether the body is there, behind headers that end at `hdr_end`; `saturating_add`.
  unfoldable pub body_complete : Bytes → ℕ → Bool
  unfolding content_length
  body_complete got hdr_end = elim (content_length usize_max (take hdr_end got)) [
    | none ↦ true
    | some wanted ↦ leb (min (hdr_end + double_crlf_len + wanted) usize_max) (length got)
  ]

  unfoldable pub request_complete_at : Bytes → Option ℕ → Bool
  unfolding body_complete
  request_complete_at got none = false
  request_complete_at got (some hdr_end) = body_complete got hdr_end

  module _ (stream : Stream) (buf_len : ℕ) where
    open stream use {State, read}

    -- What a round of the loop does with the outcome of a read; `next` is the rounds behind it,
    -- from the bytes read and `header_end`.
    unfoldable pub read_request_round :
        (Bytes → Option ℕ → Io State ReadEnd)
        → Bytes
        → Option ℕ
        → Option Bytes × State
        → Result ReadEnd × State
    unfolding request_complete_at find_double_crlf
    read_request_round next got header_end (none, st) = (err tcp_error, st)
    read_request_round next got header_end (some [], st) = (ok (read_end got true false), st)
    read_request_round next got header_end (some (b ∷ bs), st) =
        let more = got ++ b ∷ bs in
        let found = next_header_end header_end more in
        elim (request_complete_at more found) [
          | true ↦ (ok (read_end more false true), st)
          | false ↦ next more found st
        ]

    -- The `while` loop.
    unfoldable pub read_request_loop : ℕ → Bytes → Option ℕ → Io State ReadEnd
    unfolding read_request_round
    read_request_loop zero got header_end st = (out_of_fuel, st)
    read_request_loop (suc fuel) got header_end st = elim (ltb (length got) buf_len) [
      | false ↦ (ok (read_end got false false), st)
      | true ↦
          read_request_round (read_request_loop fuel) got header_end
            (read st (buf_len - length got))
    ]

    -- Each round reads at least a byte, so `buf_len + 1` rounds are enough. The result is the part
    -- of the buffer that was read into.
    unfoldable pub read_request : Io State Bytes
    unfolding read_request_loop read_request_result
    read_request = read_request_loop (suc buf_len) [] none >>= λ e. lift (read_request_result e)

module _ (hp : Heapless) where
  abbrev pub header_or_none : Option (List HttpHeader) → List HttpHeader
  header_or_none none = []
  header_or_none (some headers) = headers

  unfoldable pub text_error : ℕ → StatusCode → Bytes → Result Bytes
  unfolding build_bytes
  text_error max_response_size status body =
      let headers =
        header_or_none (hp.push HttpHeader max_headers [] (content_type_header text_type)) in
      build_bytes hp max_response_size
        (record { status_code = status; headers = headers; body = text body })

  -- The `map_or_else` on the handler's result.
  unfoldable pub respond : ℕ → Result HttpResponse → Result Bytes
  unfolding text_error
  respond max_response_size (ok response) = build_bytes hp max_response_size response
  respond max_response_size (err e) =
      text_error max_response_size StatusCode.internal_server_error (codes "Internal Server Error")
  respond max_response_size panic = panic
  respond max_response_size out_of_fuel = out_of_fuel

  -- `handle_http_connection_with_sizes`, with a handler that acts on the same world.
  module _ (usize_max : ℕ) (stream : Stream)
      (handle_request : HttpRequest → Io stream.State HttpResponse) where
    abbrev pub handled : ℕ → HttpRequest → Io stream.State Bytes
    handled max_response_size request st =
        let answer = handle_request request st in (respond max_response_size answer.0, answer.1)

    unfoldable pub handle_connection : ℕ → ℕ → Io stream.State (Unit {0})
    unfolding read_request respond
    handle_connection req_size max_response_size = do
      got ← read_request usize_max stream req_size
      request ← lift (try_from hp got)
      response ← handled max_response_size request
      (λ st. or_fail tcp_error (stream.write_all st response))
      (λ st. or_fail tcp_error (stream.flush st))
