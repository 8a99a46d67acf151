-- ===== src/Client.antt =====
-- src/client/io.rs: the client on one stream that is connected already.
pub mod Buffer
pub mod Read
pub mod Arrive
pub mod Frame
pub mod Framed
pub mod Ends
pub mod Endpoint
use nanofish.Codec.Build.{build_req}
use nanofish.Client.Buffer.{read_buffer}
use nanofish.Codec.Framing.{complete, declares_length}
use nanofish.Header.{HttpHeader}
use nanofish.Heapless.{Heapless}
use nanofish.Io.{Io, Stream, lift, or_fail, ◌>>=◌, ◌>>◌}
use nanofish.Method.{HttpMethod}
use nanofish.Options.{HttpClientOptions}
use nanofish.Prelude.{
  ℕ, zero, suc, ◌+◌, ◌-◌, Bool, true, false, ◌&&◌, List, [], ◌∷◌, ◌++◌, Option, none, some, ltb,
  ◌==◌, if◌then◌else◌, Bytes, take, drop, length, is_empty,
}
use nanofish.Response.{HttpResponse}
use nanofish.Result.{
  Result, ok, err, out_of_fuel, invalid_response, buffer_overflow, tcp_error, no_response,
}

pub record HttpClientRequest : Type 0 where
  pub method : HttpMethod
  pub host : Bytes
  pub path : Bytes
  pub headers : List HttpHeader
  pub body : Option Bytes

-- How the loop of `read_response` ends: it returns a response from within, or ends with what was
-- read and `saw_eof`.
pub data ReadEnd : Type 0 where
  returned : Bytes → ReadEnd
  ended : Bytes → Bool → ReadEnd

module _ (usize_max : ℕ) where
  -- What follows the loop.
  unfoldable pub read_response_result : ReadEnd → Result Bytes
  unfolding complete declares_length
  read_response_result (returned got) = ok got
  read_response_result (ended got saw_eof) =
      if is_empty got
      then err no_response
      else if complete usize_max got
      then ok got
      else if saw_eof
      then if declares_length usize_max got
        then err (invalid_response "Incomplete response body")
        else ok got
      else err buffer_overflow

  module _ (stream : Stream) (retry_delay : stream.State → stream.State) (buf_len : ℕ) where
    open stream use {State, read}

    -- What a round of the loop does with the outcome of a read; `next` is the rounds behind it,
    -- from the bytes read and the retries left.
    unfoldable pub read_response_round :
        (Bytes → ℕ → Io State ReadEnd) → Bytes → ℕ → Option Bytes × State → Result ReadEnd × State
    unfolding complete
    read_response_round next got retries (some [], st) = (ok (ended got true), st)
    read_response_round next got retries (some (b ∷ bs), st) =
        elim (complete usize_max (got ++ b ∷ bs)) [
          | true ↦ (ok (returned (got ++ b ∷ bs)), st)
          | false ↦ next (got ++ b ∷ bs) retries st
        ]
    read_response_round next got retries (none, st) = elim (retries - 1 == 0) [
      | true ↦ (err tcp_error, st)
      | false ↦ next got (retries - 1) (retry_delay st)
    ]

    -- The `while` loop.
    unfoldable pub read_response_loop : ℕ → Bytes → ℕ → Io State ReadEnd
    unfolding read_response_round
    read_response_loop zero got retries st = (out_of_fuel, st)
    read_response_loop (suc fuel) got retries st =
        elim (ltb (length got) buf_len && ltb 0 retries) [
          | false ↦ (ok (ended got false), st)
          | true ↦
              read_response_round (read_response_loop fuel) got retries
                (read st (buf_len - length got))
        ]

    -- Each round reads at least a byte or uses up a retry. The result is the part of the buffer
    -- that was read into.
    unfoldable pub read_response : ℕ → Io State Bytes
    unfolding read_response_loop read_response_result
    read_response max_retries =
        read_response_loop (suc (buf_len + max_retries)) [] max_retries >>= λ e.
        lift (read_response_result e)

module _ (hp : Heapless) (usize_max rq : ℕ) (stream : Stream) where
  abbrev pub write : Bytes → Io stream.State (Unit {0})
  write bytes st = or_fail tcp_error (stream.write_all st bytes)

  abbrev pub write_body : Option Bytes → Io stream.State (Unit {0})
  write_body none st = (ok tt, st)
  write_body (some body) st = write body st

  abbrev pub flushed : Io stream.State (Unit {0})
  flushed st = or_fail tcp_error (stream.flush st)

  unfoldable pub request_with_retry_delay :
      HttpClientOptions
      → (stream.State → stream.State)
      → HttpClientRequest
      → Bytes
      → Io stream.State (HttpResponse × ℕ)
  unfolding build_req read_response read_buffer
  request_with_retry_delay options retry_delay request response_buffer = do
    http_request ←
        lift (build_req hp rq request.method request.host request.path request.headers request.body)
    write http_request
    write_body request.body
    flushed
    got ← read_response usize_max stream retry_delay (length response_buffer) options.max_retries
    lift (read_buffer hp usize_max response_buffer got)

  -- `request`: retries without a pause.
  unfoldable pub request :
      HttpClientOptions → HttpClientRequest → Bytes → Io stream.State (HttpResponse × ℕ)
  unfolding request_with_retry_delay
  request options req response_buffer =
      request_with_retry_delay options (λ st. st) req response_buffer

  unfoldable pub get :
      HttpClientOptions
      → Bytes
      → Bytes
      → List HttpHeader
      → Bytes
      → Io stream.State (HttpResponse × ℕ)
  unfolding request
  get options host path headers response_buffer =
      request options
        (record {
          method = HttpMethod.get;
          host = host;
          path = path;
          headers = headers;
          body = none;
        })
        response_buffer

  unfoldable pub post :
      HttpClientOptions
      → Bytes
      → Bytes
      → List HttpHeader
      → Bytes
      → Bytes
      → Io stream.State (HttpResponse × ℕ)
  unfolding request
  post options host path headers body response_buffer =
      request options
        (record {
          method = HttpMethod.post;
          host = host;
          path = path;
          headers = headers;
          body = some body;
        })
        response_buffer
