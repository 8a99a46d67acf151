-- ===== src/Embassy/Client/Request/Dispatch.antt =====
-- Which request a URL leads to.
use nanofish.Client.Endpoint.Print.{
  scheme_text, port_text, port_or_default, IsHost, IsPath, IsPort, parse_endpoint-text,
}
use nanofish.Client.Endpoint.{parse_endpoint, scheme_of}
use nanofish.Embassy.Client.Request.{request, request_scheme, request_https}
use nanofish.Embassy.Client.{EmbassyHttpClient, make_http_request}
use nanofish.Embassy.Client.Https.{make_https_request}
use nanofish.Embassy.Rng.{XorShift32Rng}
use nanofish.Embassy.{Network}
use nanofish.Header.{HttpHeader}
use nanofish.Heapless.{Heapless}
use nanofish.Io.{Io, lift}
use nanofish.Method.{HttpMethod}
use nanofish.Prelude.{
  ℕ, Bool, true, false, List, [], ◌∷◌, ◌++◌, Option, none, some, if◌then◌else◌, Bytes, codes,
  bytes_eq, is_empty, ◌≡◌, refl,
}
use nanofish.Response.{HttpResponse}
use nanofish.Result.{err, unsupported_scheme, invalid_url}
use nanofish.Text.Split.{strip_prefix}
use nanofish.Tls.{Tls}

module _ (net : Network) (hp : Heapless) (usize_max rq : ℕ) (self : EmbassyHttpClient)
    (method : HttpMethod) (headers : List HttpHeader) (body : Option Bytes)
    (response_buffer : Bytes) where
  -- What is done for a URL of either scheme.
  abbrev pub over :
      Option (Tls net.stream XorShift32Rng (Unit {0}))
      → Bool
      → Bytes × ℕ
      → Bytes
      → Io net.stream.State (HttpResponse × ℕ)
  over feature false host_port path =
      make_http_request net hp usize_max rq self method host_port path headers body response_buffer
  over (some tls) true host_port path =
      make_https_request net tls hp usize_max rq self method host_port path headers body
        response_buffer
  over none true host_port path = lift (err (unsupported_scheme "https (TLS support not enabled)"))

  -- A URL of the scheme http is requested by `make_http_request`, and one of https by
  -- `make_https_request` if there is TLS, from the host, the port or the default port of the scheme,
  -- and the path of the URL, a slash for an empty path; without TLS a URL of https is refused as
  -- unsupported, and the network is left alone.
  pub request-text :
      (feature : Option (Tls net.stream XorShift32Rng (Unit {0}))) (secure : Bool) (host : Bytes)
      (port : Option ℕ) (path : Bytes) (st : net.stream.State)
      → IsHost host port
      → IsPort port
      → IsPath path
      → request net feature hp usize_max rq self method
          (scheme_text secure ++ (codes "://" ++ ((host ++ port_text port) ++ path)))
          headers
          body
          response_buffer
          st
        ≡ over feature secure
            (host, port_or_default secure port)
            (if is_empty path then b'/' ∷ [] else path)
            st
  unfolding request request_scheme request_https bytes_eq
  request-text feature false host port path st h k l =
      rw (parse_endpoint-text false host port path h k l) refl
  request-text (some tls) true host port path st h k l =
      rw (parse_endpoint-text true host port path h k l) refl
  request-text none true host port path st h k l =
      rw (parse_endpoint-text true host port path h k l) refl

  -- A text that begins with neither "http://" nor "https://" is no URL, with TLS or without; the
  -- network is left alone.
  pub request_no_scheme :
      (feature : Option (Tls net.stream XorShift32Rng (Unit {0}))) (endpoint : Bytes)
      (st : net.stream.State)
      → strip_prefix (codes "http://") endpoint ≡ none
      → strip_prefix (codes "https://") endpoint ≡ none
      → request net feature hp usize_max rq self method endpoint headers body response_buffer st
        ≡ (err invalid_url, st)
  unfolding request parse_endpoint scheme_of
  request_no_scheme feature endpoint st h k =
      rw (h, request, parse_endpoint, scheme_of) (rw (k, request, parse_endpoint, scheme_of) refl)
