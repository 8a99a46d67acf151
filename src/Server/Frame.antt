-- ===== src/Server/Frame.antt =====
-- A connection acts on the world only by the calls of its stream and by the handler: what these keep
-- true, the connection keeps true.
use nanofish.Heapless.{Heapless}
use nanofish.Io.Keeps.{Keeps, StreamKeeps, Kept, kept, lifted, ◌>>=◌, ◌>>◌, or_fail-Keeps}
use nanofish.Io.{Io, Stream}
use nanofish.Io
use nanofish.Prelude.{
  ℕ, zero, suc, ◌-◌, inl, inr, [], ◌∷◌, ◌++◌, Option, none, some, ltb, Bytes, length, Bool-cases,
}
use nanofish.Request.{HttpRequest, try_from}
use nanofish.Response.{HttpResponse}
use nanofish.Result.{tcp_error}
use nanofish.Server.{
  ReadEnd, next_header_end, request_complete_at, read_request_round, read_request_loop,
  read_request_result, read_request, handled, handle_connection,
}

module _ (usize_max : ℕ) (stream : Stream) (I : stream.State → Type 0)
    (keeps : StreamKeeps stream I) where
  module _ (buf_len : ℕ) where
    read_request_round-Keeps :
        (next : Bytes → Option ℕ → Io stream.State ReadEnd) (got : Bytes) (header_end : Option ℕ)
        (outcome : Option Bytes × stream.State)
        → ((more : Bytes) (found : Option ℕ) → Keeps I (next more found))
        → I outcome.1
        → I (read_request_round usize_max stream buf_len next got header_end outcome).1
    unfolding read_request_round
    read_request_round-Keeps next got header_end (none, st) h i = i
    read_request_round-Keeps next got header_end (some [], st) h i = i
    read_request_round-Keeps next got header_end (some (b ∷ bs), st) h i =
        let found = next_header_end header_end (got ++ b ∷ bs) in
        elim (Bool-cases (request_complete_at usize_max (got ++ b ∷ bs) found)) [
          | inl done ↦ rw (done, read_request_round) i
          | inr more ↦ rw (more, read_request_round) (h (got ++ b ∷ bs) found st i)
        ]

    read_request_loop-Keeps :
        (fuel : ℕ) (got : Bytes) (header_end : Option ℕ)
        → Keeps I (read_request_loop usize_max stream buf_len fuel got header_end)
    unfolding read_request_loop
    read_request_loop-Keeps zero got header_end st i = i
    read_request_loop-Keeps (suc fuel) got header_end st i =
        elim (Bool-cases (ltb (length got) buf_len)) [
          | inr full ↦ rw (full, read_request_loop) i
          | inl room ↦
              rw (room, read_request_loop)
                (read_request_round-Keeps (read_request_loop usize_max stream buf_len fuel) got
                  header_end (stream.read st (buf_len - length got)) (read_request_loop-Keeps fuel)
                  (keeps.reads st (buf_len - length got) i))
        ]

    read_request-Keeps : Keeps I (read_request usize_max stream buf_len)
    unfolding read_request
    read_request-Keeps =
        let all : Kept I _ = do
          e ←
              kept (read_request_loop usize_max stream buf_len (suc buf_len) [] none)
                (read_request_loop-Keeps (suc buf_len) [] none)
          lifted (read_request_result e)
        in all.keeps

  pub handle_connection-Keeps :
      (hp : Heapless) (handle_request : HttpRequest → Io stream.State HttpResponse)
      (req_size max_response_size : ℕ)
      → ((request : HttpRequest) → Keeps I (handle_request request))
      → Keeps I (handle_connection hp usize_max stream handle_request req_size max_response_size)
  unfolding handle_connection
  handle_connection-Keeps hp handle_request req_size max_response_size h =
      let all : Kept I _ = do
        got ← kept (read_request usize_max stream req_size) (read_request-Keeps req_size)
        request ← lifted (try_from hp got)
        response ←
            kept (handled hp usize_max stream handle_request max_response_size request) (h request)
        kept (λ st. Io.or_fail tcp_error (stream.write_all st response))
            (λ st i.
              or_fail-Keeps I tcp_error (stream.write_all st response) (keeps.writes st response i))
        kept (λ st. Io.or_fail tcp_error (stream.flush st))
            (λ st i. or_fail-Keeps I tcp_error (stream.flush st) (keeps.flushes st i))
      in all.keeps
