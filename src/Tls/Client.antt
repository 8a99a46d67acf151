-- ===== src/Tls/Client.antt =====
-- src/client/tls.rs: `HttpTlsClient`.
pub mod Policy
use nanofish.Client.{HttpClientRequest, request_with_retry_delay}
use nanofish.Heapless.{Heapless}
use nanofish.Io.{Io, Stream, attempt, lift, continue, ◌>>=◌, ◌>>◌}
use nanofish.Options.{HttpClientOptions, default_options}
use nanofish.Prelude.{ℕ, Option, none, some, Bytes}
use nanofish.Response.{HttpResponse}
use nanofish.Result.{Result, ok, err, tls_error}
use nanofish.Tls.Provider.{VerifiedTlsProvider}
use nanofish.Tls.{Tls, connection, opened_match, within}

pub data TlsVerification (Rng Verifier : Type 0) : Type 0 where
  unverified_policy : Rng → TlsVerification Rng Verifier
  verified_policy : Rng → Verifier → TlsVerification Rng Verifier

pub record HttpTlsClient (Rng Verifier : Type 0) : Type 0 where
  pub options : HttpClientOptions
  pub verification : TlsVerification Rng Verifier

module _ {Rng Verifier : Type 0} where
  abbrev pub with_options :
      HttpClientOptions → TlsVerification Rng Verifier → HttpTlsClient Rng Verifier
  with_options options verification = record { options = options; verification = verification }

  unfoldable pub with_verification : TlsVerification Rng Verifier → HttpTlsClient Rng Verifier
  with_verification verification = with_options default_options verification

  unfoldable pub unverified : Rng → HttpTlsClient Rng Verifier
  unfolding with_verification
  unverified rng = with_verification (unverified_policy rng)

  unfoldable pub verified : Rng → Verifier → HttpTlsClient Rng Verifier
  unfolding with_verification
  verified rng verifier = with_verification (verified_policy rng verifier)

  abbrev pub provider_of : Rng → Verifier → VerifiedTlsProvider Rng Verifier
  provider_of rng verifier = record { rng = rng; verifier = record { inner = verifier } }

  module _ (stream : Stream) (tls : Tls stream Rng Verifier) where
    -- The `match` on the policy: the handshake, and the policy with what the handshake left of its
    -- generator and verifier.
    unfoldable pub open_with :
        TlsVerification Rng Verifier
        → Bytes
        → tls.Session × stream.State
        → (Result (Unit {0}) × TlsVerification Rng Verifier) × (tls.Session × stream.State)
    open_with (unverified_policy rng) server_name st =
        let outcome = tls.open_unsecure rng server_name st in
        (((opened_match outcome.0.0 outcome.1).0, unverified_policy outcome.0.1), outcome.1)
    open_with (verified_policy rng verifier) server_name st =
        let outcome = tls.open_verified (provider_of rng verifier) server_name st in
        (
          (
            (opened_match outcome.0.0 outcome.1).0,
            verified_policy outcome.0.1.rng outcome.0.1.verifier.inner,
          ),
          outcome.1,
        )

    -- What is done on the open connection; the outcome of `close` is dropped.
    unfoldable pub exchange :
        Heapless
        → ℕ
        → ℕ
        → HttpClientOptions
        → HttpClientRequest
        → Bytes
        → (stream.State → stream.State)
        → Io (tls.Session × stream.State) (HttpResponse × ℕ)
    unfolding request_with_retry_delay
    exchange hp usize_max rq options request response_buffer retry_delay = do
      result ← attempt (
          request_with_retry_delay hp usize_max rq (connection tls) options
            (λ st. (st.0, retry_delay st.1)) request response_buffer)
      (λ st. (ok tt, (tls.close st).1))
      lift result

    -- The client is part of the state, since a request changes its generator.
    unfoldable pub request_with_retry_delay_tls :
        Heapless
        → ℕ
        → ℕ
        → Bytes
        → HttpClientRequest
        → Bytes
        → (stream.State → stream.State)
        → Io (HttpTlsClient Rng Verifier × stream.State) (HttpResponse × ℕ)
    unfolding open_with exchange
    request_with_retry_delay_tls hp usize_max rq server_name request response_buffer retry_delay
          (self, st) =
        let handshake = open_with self.verification server_name (tls.new, st) in
        let rest =
          continue (handshake.0.0, handshake.1)
            λ done. exchange hp usize_max rq self.options request response_buffer retry_delay in
        (rest.0, (record self { verification = handshake.0.1 }, rest.1.1))

    -- `request`: retries without a pause.
    unfoldable pub request_tls :
        Heapless
        → ℕ
        → ℕ
        → Bytes
        → HttpClientRequest
        → Bytes
        → Io (HttpTlsClient Rng Verifier × stream.State) (HttpResponse × ℕ)
    unfolding request_with_retry_delay_tls
    request_tls hp usize_max rq server_name request response_buffer =
        request_with_retry_delay_tls hp usize_max rq server_name request response_buffer λ st. st
