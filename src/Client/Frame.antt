-- ===== src/Client/Frame.antt =====
-- A request acts on the world only by the calls of its stream and the pauses between retries: what
-- these keep true, the request keeps true.
use nanofish.Client.Buffer.{read_buffer}
use nanofish.Client.{
  HttpClientRequest, ReadEnd, write, write_body, flushed, read_response_round, read_response_loop,
  read_response_result, read_response, request_with_retry_delay,
}
use nanofish.Codec.Build.{build_req}
use nanofish.Codec.Framing.{complete}
use nanofish.Heapless.{Heapless}
use nanofish.Io.Keeps.{Keeps, StreamKeeps, Kept, kept, lifted, ◌>>=◌, ◌>>◌, or_fail-Keeps}
use nanofish.Io.{Io, Stream}
use nanofish.Options.{HttpClientOptions}
use nanofish.Prelude.{
  ℕ, zero, suc, ◌+◌, ◌-◌, inl, inr, ◌&&◌, [], ◌∷◌, ◌++◌, Option, none, some, ltb, ◌==◌, Bytes,
  length, Bool-cases,
}
use nanofish.Result.{tcp_error}

module _ (usize_max : ℕ) (stream : Stream) (retry_delay : stream.State → stream.State)
    (I : stream.State → Type 0) (keeps : StreamKeeps stream I)
    (waits : (st : stream.State) → I st → I (retry_delay st)) where
  module _ (buf_len : ℕ) where
    read_response_round-Keeps :
        (next : Bytes → ℕ → Io stream.State ReadEnd) (got : Bytes) (retries : ℕ)
        (outcome : Option Bytes × stream.State)
        → ((more : Bytes) (left : ℕ) → Keeps I (next more left))
        → I outcome.1
        → I (read_response_round usize_max stream retry_delay buf_len next got retries outcome).1
    unfolding read_response_round
    read_response_round-Keeps next got retries (some [], st) h i = i
    read_response_round-Keeps next got retries (some (b ∷ bs), st) h i =
        elim (Bool-cases (complete usize_max (got ++ b ∷ bs))) [
          | inl done ↦ rw (done, read_response_round) i
          | inr more ↦ rw (more, read_response_round) (h (got ++ b ∷ bs) retries st i)
        ]
    read_response_round-Keeps next got retries (none, st) h i =
        elim (Bool-cases (retries - 1 == 0)) [
          | inl last ↦ rw (last, read_response_round) i
          | inr left ↦
              rw (left, read_response_round) (h got (retries - 1) (retry_delay st) (waits st i))
        ]

    read_response_loop-Keeps :
        (fuel : ℕ) (got : Bytes) (retries : ℕ)
        → Keeps I (read_response_loop usize_max stream retry_delay buf_len fuel got retries)
    unfolding read_response_loop
    read_response_loop-Keeps zero got retries st i = i
    read_response_loop-Keeps (suc fuel) got retries st i =
        elim (Bool-cases (ltb (length got) buf_len && ltb 0 retries)) [
          | inr stop ↦ rw (stop, read_response_loop) i
          | inl go_on ↦
              rw (go_on, read_response_loop)
                (read_response_round-Keeps
                  (read_response_loop usize_max stream retry_delay buf_len fuel) got retries
                  (stream.read st (buf_len - length got)) (read_response_loop-Keeps fuel)
                  (keeps.reads st (buf_len - length got) i))
        ]

    read_response-Keeps :
        (max_retries : ℕ) → Keeps I (read_response usize_max stream retry_delay buf_len max_retries)
    unfolding read_response
    read_response-Keeps max_retries =
        let all : Kept I _ = do
          e ←
              kept
                (read_response_loop usize_max stream retry_delay buf_len
                  (suc (buf_len + max_retries)) [] max_retries)
                (read_response_loop-Keeps (suc (buf_len + max_retries)) [] max_retries)
          lifted (read_response_result usize_max e)
        in all.keeps

  module _ (hp : Heapless) (rq : ℕ) where
    write-Keeps : (bytes : Bytes) → Keeps I (write hp usize_max rq stream bytes)
    write-Keeps bytes st i =
        or_fail-Keeps I tcp_error (stream.write_all st bytes) (keeps.writes st bytes i)

    write_body-Keeps : (body : Option Bytes) → Keeps I (write_body hp usize_max rq stream body)
    write_body-Keeps none st i = i
    write_body-Keeps (some body) st i = write-Keeps body st i

    flushed-Keeps : Keeps I (flushed hp usize_max rq stream)
    flushed-Keeps st i = or_fail-Keeps I tcp_error (stream.flush st) (keeps.flushes st i)

    pub request_with_retry_delay-Keeps :
        (options : HttpClientOptions) (request : HttpClientRequest) (buffer : Bytes)
        → Keeps I
            (request_with_retry_delay hp usize_max rq stream options retry_delay request buffer)
    unfolding request_with_retry_delay
    request_with_retry_delay-Keeps options request buffer =
        let all : Kept I _ = do
          http_request ← lifted (
              build_req hp rq request.method request.host request.path request.headers request.body)
          kept (write hp usize_max rq stream http_request) (write-Keeps http_request)
          kept (write_body hp usize_max rq stream request.body) (write_body-Keeps request.body)
          kept (flushed hp usize_max rq stream) flushed-Keeps
          got ←
              kept (read_response usize_max stream retry_delay (length buffer) options.max_retries)
                (read_response-Keeps (length buffer) options.max_retries)
          lifted (read_buffer hp usize_max buffer got)
        in all.keeps
