-- ===== src/Tls/Client/Policy.antt =====
-- What the policy of `HttpTlsClient` guarantees.
use nanofish.Client.{HttpClientRequest, request_with_retry_delay}
use nanofish.Heapless.{Heapless}
use nanofish.Io.{Io, Stream, caught, continue}
use nanofish.Prelude.{ℕ, Option, none, some, Bytes, ◌≡◌, refl}
use nanofish.Response.{HttpResponse}
use nanofish.Result.{Result, ok, err, panic, out_of_fuel, tls_error}
use nanofish.Tls.Client.{
  verified_policy, open_with, exchange, request_with_retry_delay_tls, with_options, provider_of,
}
use nanofish.Tls.{Tls, connection, opened_match}
use nanofish.Options.{HttpClientOptions}

module _ (Rng Verifier : Type 0) (stream : Stream) (tls : Tls stream Rng Verifier) (hp : Heapless)
    (usize_max rq : ℕ) (options : HttpClientOptions) (server_name : Bytes)
    (request : HttpClientRequest) (response_buffer : Bytes)
    (retry_delay : stream.State → stream.State) where
  abbrev InsideState : Type 0
  InsideState = tls.Session × stream.State

  -- The plain request on the open connection.
  abbrev pub plain : Io InsideState (HttpResponse × ℕ)
  plain =
      request_with_retry_delay hp usize_max rq (connection tls) options
        (λ st. (st.0, retry_delay st.1)) request response_buffer

  -- What is returned of a connection, and the stream as it is left: a response or an error closes the
  -- connection, a panic does not.
  abbrev pub closed :
      Result (HttpResponse × ℕ) × InsideState → Result (HttpResponse × ℕ) × stream.State
  closed (ok answer, st) = (ok answer, (tls.close st).1.1)
  closed (err e, st) = (err e, (tls.close st).1.1)
  closed (panic, st) = (panic, st.1)
  closed (out_of_fuel, st) = (out_of_fuel, st.1)

  closed_lem :
      (m : Result (HttpResponse × ℕ) × InsideState)
      → let rest = continue (caught m) λ result st. (result, (tls.close st).1) in
        (rest.0, rest.1.1) ≡ closed m
  closed_lem (ok answer, st) = refl
  closed_lem (err e, st) = refl
  closed_lem (panic, st) = refl
  closed_lem (out_of_fuel, st) = refl

  -- What follows a handshake: after one that failed the stream is left as the handshake left it.
  abbrev pub behind : Option ℕ → InsideState → Result (HttpResponse × ℕ) × stream.State
  behind none st = closed (plain st)
  behind (some e) st = (err (tls_error e), st.1)

  opened_behind :
      (refusal : Option ℕ) (st : InsideState)
      → let rest =
          continue
            ((opened_match refusal st).0, st)
            λ done.
              exchange stream tls hp usize_max rq options request response_buffer retry_delay in
        (rest.0, rest.1.1) ≡ behind refusal st
  unfolding exchange
  opened_behind none st = closed_lem (plain st)
  opened_behind (some e) st = refl

  -- A client that verifies runs the handshake with its own verifier. If that fails, the request
  -- returns its error, and nothing is done to the stream behind the handshake. Else it returns what
  -- the plain request returns on the connection, also if closing the connection fails, and the stream
  -- is left as the plain request and then the closing leave it, or as the plain request leaves it if
  -- that panics. Afterwards the client still verifies, with what the handshake left of its generator
  -- and its verifier, and has its options.
  pub request_with_retry_delay_tls-verified :
      (rng : Rng) (verifier : Verifier) (st : stream.State)
      → let handshake = tls.open_verified (provider_of rng verifier) server_name (tls.new, st) in
        let outcome =
          request_with_retry_delay_tls stream tls hp usize_max rq server_name request
            response_buffer retry_delay
            (with_options options (verified_policy rng verifier), st) in
        ((outcome.0, outcome.1.1) ≡ behind handshake.0.0 handshake.1)
        × (outcome.1.0
            ≡ with_options options (verified_policy handshake.0.1.rng handshake.0.1.verifier.inner))
  unfolding request_with_retry_delay_tls open_with
  request_with_retry_delay_tls-verified rng verifier st =
      let handshake = tls.open_verified (provider_of rng verifier) server_name (tls.new, st) in
      (opened_behind handshake.0.0 handshake.1, refl)
