-- ===== src/Embassy/Client.antt =====
-- src/client/embassy.rs: the client that resolves a host, connects to it and sends a request.
pub mod Resolve
pub mod Connecting
pub mod Order
pub mod Https
pub mod Request
use nanofish.Client.Endpoint.{HttpEndpoint, parse_endpoint}
use nanofish.Client.{HttpClientRequest, request_with_retry_delay}
use nanofish.Embassy.{DnsQueryType, Network, a, aaaa}
use nanofish.Header.{HttpHeader}
use nanofish.Heapless.{Heapless}
use nanofish.Io.{Io, act, attempt, lift, ◌>>=◌, ◌>>◌}
use nanofish.Method.{HttpMethod}
use nanofish.Options.{HttpClientOptions, default_options}
use nanofish.Prelude.{
  ℕ, Bool, true, false, List, [], ◌∷◌, Option, none, some, if◌then◌else◌, Bytes, codes, bytes_eq,
}
use nanofish.Response.{HttpResponse}
use nanofish.Result.{
  Result, ok, err, ok_or, connection_error, dns_error, ip_address_empty, unsupported_scheme,
}

-- The stack of a client is the state of the network.
pub record EmbassyHttpClient : Type 0 where
  pub options : HttpClientOptions

abbrev pub with_options : HttpClientOptions → EmbassyHttpClient
with_options options = record { options = options }

abbrev pub new : EmbassyHttpClient
new = with_options default_options

-- `addrs.first()`.
abbrev pub first : {A : Type 0} → List A → Option A
first [] = none
first (addr ∷ addrs) = some addr

-- `if let Ok(addrs) = … && let Some(&addr) = addrs.first()`.
abbrev pub first_if_ok : {A : Type 0} → Option (List A) → Option A
first_if_ok none = none
first_if_ok (some addrs) = first addrs

module _ (net : Network) where
  open net use {stream, IpAddress}

  -- The query whose error is returned.
  abbrev pub query : Bytes → DnsQueryType → Io stream.State (List IpAddress)
  query host query_type st =
      let answer = net.query host query_type st in (ok_or answer.0 dns_error, answer.1)

  unfoldable pub resolve_aaaa : Bytes → Io stream.State IpAddress
  resolve_aaaa host = do addrs ← query host aaaa; lift (ok_or (first addrs) ip_address_empty)

  unfoldable pub resolve_host : Bytes → Io stream.State IpAddress
  unfolding resolve_aaaa
  resolve_host host st =
      let answer = net.query host a st in
      elim (first_if_ok answer.0) [
        | some addr ↦ (ok addr, answer.1)
        | none ↦ resolve_aaaa host answer.1
      ]

  -- What is made of the outcome of `connect`.
  abbrev pub connect_match : Bool × stream.State → Result (Unit {0}) × stream.State
  connect_match (true, st) = (ok tt, st)
  connect_match (false, st) = (err connection_error, net.abort st)

  abbrev pub connect_or_abort : IpAddress × ℕ → Io stream.State (Unit {0})
  connect_or_abort remote_endpoint st = connect_match (net.connect remote_endpoint st)

  -- The socket of a request: made, with its timeout, and connected.
  unfoldable pub connected : HttpClientOptions → Bytes × ℕ → Io stream.State (Unit {0})
  unfolding resolve_host
  connected options host_port = do
    act net.new_socket
    act (net.set_timeout options.socket_timeout.millis)
    ip_addr ← resolve_host host_port.0
    connect_or_abort (ip_addr, host_port.1)

  module _ (hp : Heapless) (usize_max rq : ℕ) (self : EmbassyHttpClient) where
    unfoldable pub make_http_request :
        HttpMethod
        → Bytes × ℕ
        → Bytes
        → List HttpHeader
        → Option Bytes
        → Bytes
        → Io stream.State (HttpResponse × ℕ)
    unfolding connected request_with_retry_delay
    make_http_request method host_port path headers body response_buffer = do
      connected self.options host_port
      result ← attempt (
          request_with_retry_delay hp usize_max rq stream self.options
            (net.timer self.options.retry_delay.millis)
            (record {
              method = method;
              host = host_port.0;
              path = path;
              headers = headers;
              body = body;
            })
            response_buffer)
      act net.close
      act (net.timer self.options.socket_close_delay.millis)
      lift result
