-- ===== src/Embassy/Client/Https.antt =====
-- src/client/embassy.rs, with the feature `tls`: a request over TLS.
pub mod Order
use nanofish.Client.{HttpClientRequest, request_with_retry_delay}
use nanofish.Embassy.Client.{EmbassyHttpClient, connected}
use nanofish.Embassy.Rng.{XorShift32Rng, tls_seed}
use nanofish.Embassy.{Network}
use nanofish.Embassy.Rng
use nanofish.Header.{HttpHeader}
use nanofish.Heapless.{Heapless}
use nanofish.Io.{Io, act, attempt, lift, ◌>>=◌, ◌>>◌}
use nanofish.Method.{HttpMethod}
use nanofish.Prelude.{ℕ, List, Option, Bytes}
use nanofish.Response.{HttpResponse}
use nanofish.Tls.{Tls, connection, opened_match, within}

module _ (net : Network) (tls : Tls net.stream XorShift32Rng (Unit {0})) where
  -- The handshake without verification, with a generator that is seeded by the clock.
  unfoldable pub open_seeded : Bytes → Io (tls.Session × net.stream.State) (Unit {0})
  unfolding tls_seed
  open_seeded host st =
      let rng = Rng.new (tls_seed (net.ticks st.1)) in
      let outcome = tls.open_unsecure rng host st in opened_match outcome.0.0 outcome.1

  module _ (hp : Heapless) (usize_max rq : ℕ) (self : EmbassyHttpClient) where
    -- What is done on the connection; an error of `close` is only logged.
    unfoldable pub exchange_over_tls :
        HttpClientRequest → Bytes → Io (tls.Session × net.stream.State) (HttpResponse × ℕ)
    unfolding open_seeded request_with_retry_delay
    exchange_over_tls request response_buffer = do
      open_seeded request.host
      result ← attempt (
          request_with_retry_delay hp usize_max rq (connection tls) self.options
            (λ st. (st.0, net.timer self.options.retry_delay.millis st.1)) request response_buffer)
      act (λ st. (tls.close st).1)
      act (λ st. (st.0, net.timer self.options.socket_close_delay.millis st.1))
      lift result

    unfoldable pub make_https_request :
        HttpMethod
        → Bytes × ℕ
        → Bytes
        → List HttpHeader
        → Option Bytes
        → Bytes
        → Io net.stream.State (HttpResponse × ℕ)
    unfolding connected exchange_over_tls
    make_https_request method host_port path headers body response_buffer = do
      connected net self.options host_port
      within tls.new (
          exchange_over_tls
            (record {
              method = method;
              host = host_port.0;
              path = path;
              headers = headers;
              body = body;
            })
            response_buffer)
