-- ===== src/Embassy/Client/Request.antt =====
-- src/client/embassy.rs: `request`, which picks the kind of the request by the scheme, and the methods
-- by name. The feature `tls` is an argument: with it there is an implementation of TLS.
pub mod Dispatch
use nanofish.Client.Endpoint.{HttpEndpoint, parse_endpoint}
use nanofish.Embassy.Client.Https.{make_https_request}
use nanofish.Embassy.Client.{EmbassyHttpClient, make_http_request}
use nanofish.Embassy.Rng.{XorShift32Rng}
use nanofish.Embassy.{Network}
use nanofish.Header.{HttpHeader}
use nanofish.Heapless.{Heapless}
use nanofish.Io.{Io, lift, ◌>>=◌}
use nanofish.Method.{HttpMethod}
use nanofish.Prelude.{ℕ, List, Option, none, some, if◌then◌else◌, Bytes, codes, bytes_eq}
use nanofish.Response.{HttpResponse}
use nanofish.Result.{err, unsupported_scheme}
use nanofish.Tls.{Tls}

module _ (net : Network) (feature : Option (Tls net.stream XorShift32Rng (Unit {0})))
    (hp : Heapless) (usize_max rq : ℕ) (self : EmbassyHttpClient) where
  abbrev Answer : Type 0
  Answer = Io net.stream.State (HttpResponse × ℕ)

  -- The arm for "https".
  unfoldable pub request_https :
      Option (Tls net.stream XorShift32Rng (Unit {0}))
      → HttpMethod
      → HttpEndpoint
      → List HttpHeader
      → Option Bytes
      → Bytes
      → Answer
  unfolding make_https_request
  request_https (some tls) method endpoint headers body response_buffer =
      make_https_request net tls hp usize_max rq self method (endpoint.host, endpoint.port)
        endpoint.path headers body response_buffer
  request_https none method endpoint headers body response_buffer =
      lift (err (unsupported_scheme "https (TLS support not enabled)"))

  unfoldable pub request_scheme :
      HttpMethod → HttpEndpoint → List HttpHeader → Option Bytes → Bytes → Answer
  unfolding request_https make_http_request
  request_scheme method endpoint headers body response_buffer =
      if bytes_eq endpoint.scheme (codes "https")
      then request_https feature method endpoint headers body response_buffer
      else if bytes_eq endpoint.scheme (codes "http")
      then make_http_request net hp usize_max rq self method (endpoint.host, endpoint.port)
          endpoint.path headers body response_buffer
      else lift (err (unsupported_scheme "unknown"))

  unfoldable pub request : HttpMethod → Bytes → List HttpHeader → Option Bytes → Bytes → Answer
  unfolding parse_endpoint request_scheme
  request method endpoint headers body response_buffer = do
    parsed ← lift (parse_endpoint endpoint)
    request_scheme method parsed headers body response_buffer

  unfoldable pub patch : Bytes → List HttpHeader → Bytes → Bytes → Answer
  unfolding request
  patch endpoint headers body response_buffer =
      request HttpMethod.patch endpoint headers (some body) response_buffer

  unfoldable pub head : Bytes → List HttpHeader → Bytes → Answer
  unfolding request
  head endpoint headers response_buffer =
      request HttpMethod.head endpoint headers none response_buffer

  unfoldable pub options : Bytes → List HttpHeader → Bytes → Answer
  unfolding request
  options endpoint headers response_buffer =
      request HttpMethod.options endpoint headers none response_buffer

  unfoldable pub trace : Bytes → List HttpHeader → Bytes → Answer
  unfolding request
  trace endpoint headers response_buffer =
      request HttpMethod.trace endpoint headers none response_buffer

  unfoldable pub connect : Bytes → List HttpHeader → Bytes → Answer
  unfolding request
  connect endpoint headers response_buffer =
      request HttpMethod.connect endpoint headers none response_buffer

  unfoldable pub get : Bytes → List HttpHeader → Bytes → Answer
  unfolding request
  get endpoint headers response_buffer =
      request HttpMethod.get endpoint headers none response_buffer

  unfoldable pub post : Bytes → List HttpHeader → Bytes → Bytes → Answer
  unfolding request
  post endpoint headers body response_buffer =
      request HttpMethod.post endpoint headers (some body) response_buffer

  unfoldable pub put : Bytes → List HttpHeader → Bytes → Bytes → Answer
  unfolding request
  put endpoint headers body response_buffer =
      request HttpMethod.put endpoint headers (some body) response_buffer

  unfoldable pub delete : Bytes → List HttpHeader → Bytes → Answer
  unfolding request
  delete endpoint headers response_buffer =
      request HttpMethod.delete endpoint headers none response_buffer
