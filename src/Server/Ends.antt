-- ===== src/Server/Ends.antt =====
-- How a connection of src/server/io.rs ends.
use nanofish.Header.{HttpHeader, text_type, content_type_header}
use nanofish.Heapless.{Heapless}
use nanofish.Io.Ends.{Ending, ending, lifted, ◌>>=◌, ◌>>◌, or_fail-Ends}
use nanofish.Io.{Io, Stream}
use nanofish.Prelude.{
  ℕ, ◌^◌, ◌<◌, Bool, true, false, [], if◌then◌else◌, Bytes, length, codes, arith,
}
use nanofish.Protocol.{max_headers}
use nanofish.Request.Ends.{try_from-Ends}
use nanofish.Request.{HttpRequest, try_from}
use nanofish.Response.Write.Render.{render, build_bytes_lem}
use nanofish.Response.Write.{build_bytes}
use nanofish.Response.{HttpResponse, text, as_bytes}
use nanofish.Result.Ends.{Ends}
use nanofish.Result.{Result, ok, err, panic, out_of_fuel, buffer_overflow, tcp_error}
use nanofish.Server.Read.{IsWholeRequest, read_request-IsWholeRequest}
use nanofish.Server.{header_or_none, text_error, respond, read_request, handled, handle_connection}
use nanofish.StatusCode
use nanofish.StatusCode.{StatusCode}

-- What a handler may return: an error, or a response whose status code is a `u16` and whose body
-- has a length of at most ten digits.
unfoldable pub IsAnswer : Result HttpResponse → Type 0
IsAnswer (ok r) = (StatusCode.as_u16 r.status_code < 2 ^ 16) × (length (as_bytes r.body) < 10 ^ 10)
IsAnswer (err e) = Unit
IsAnswer panic = ⊥
IsAnswer out_of_fuel = ⊥

fitting-Ends : (b : Bool) (bytes : Bytes) → Ends ⊥ (if b then ok bytes else err buffer_overflow)
unfolding Ends
fitting-Ends true bytes = tt
fitting-Ends false bytes = tt

abbrev sorry_response : Heapless → HttpResponse
sorry_response hp = record {
  status_code = StatusCode.internal_server_error;
  headers = header_or_none hp (hp.push HttpHeader max_headers [] (content_type_header text_type));
  body = text (codes "Internal Server Error");
}

module _ (hp : Heapless) (max_response_size : ℕ) where
  build_bytes-Ends :
      (r : HttpResponse) → IsAnswer (ok r) → Ends ⊥ (build_bytes hp max_response_size r)
  unfolding IsAnswer
  build_bytes-Ends r h =
      rw (build_bytes_lem hp max_response_size r h.0 h.1) (fitting-Ends _ (render r))

  respond-Ends :
      (answer : Result HttpResponse)
      → IsAnswer answer
      → Ends ⊥ (respond hp max_response_size answer)
  unfolding respond text_error IsAnswer StatusCode.as_u16 as_bytes
  respond-Ends (ok r) h = build_bytes-Ends r h
  respond-Ends (err e) h = build_bytes-Ends (sorry_response hp) (omega arith, omega arith)
  respond-Ends panic h = elim h [ ]
  respond-Ends out_of_fuel h = elim h [ ]

  module _ (usize_max : ℕ) (stream : Stream)
      (handle_request : HttpRequest → Io stream.State HttpResponse) where
    IsWholeRequest-Ends :
        (req_size : ℕ) (r : Result Bytes) → IsWholeRequest usize_max req_size r → Ends ⊥ r
    unfolding IsWholeRequest Ends
    IsWholeRequest-Ends req_size (ok got) h = tt
    IsWholeRequest-Ends req_size (err e) h = tt
    IsWholeRequest-Ends req_size panic h = h
    IsWholeRequest-Ends req_size out_of_fuel h = h

    -- On any stream, with a request buffer smaller than the largest `usize` and a handler that
    -- returns an error or a response with a `u16` status and a body of fewer than 10 ^ 10 bytes, a
    -- connection returns, and it never panics.
    pub handle_connection-Ends :
        (req_size : ℕ) (st : stream.State)
        → req_size < usize_max
        → ((request : HttpRequest) (now : stream.State) → IsAnswer (handle_request request now).0)
        → Ends ⊥
            (handle_connection hp usize_max stream handle_request req_size max_response_size st).0
    unfolding handle_connection
    handle_connection-Ends req_size st small answers =
        let all : Ending stream.State ⊥ (Unit {0}) = do
          got ← ending (read_request usize_max stream req_size) λ st.
              IsWholeRequest-Ends req_size _
                (read_request-IsWholeRequest usize_max req_size stream st small)
          request ← lifted (try_from hp got) (try_from-Ends ⊥ hp got)
          response ←
              ending (handled hp usize_max stream handle_request max_response_size request)
                λ st. respond-Ends (handle_request request st).0 (answers request st)
          ending _ λ st. or_fail-Ends ⊥ tcp_error (stream.write_all st response)
          ending _ λ st. or_fail-Ends ⊥ tcp_error (stream.flush st)
        in all.ends st
