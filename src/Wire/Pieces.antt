-- ===== src/Wire/Pieces.antt =====
-- A whole exchange, wherever the stream cuts the response.
use mathlib.Core.Path.{subst}
use nanofish.Client.Framed.{Framed, Comes, Comes-Arrives, whole-chunked}
use nanofish.Client.{HttpClientRequest, write, write_body, flushed, request_with_retry_delay}
use nanofish.Codec.Build.{build_req}
use nanofish.Codec.Parse.{parse_resp}
use nanofish.Header.{content_length_name}
use nanofish.Heapless.{Heapless}
use nanofish.Io.Brings.{together}
use nanofish.Io.{Stream}
use nanofish.Options.{HttpClientOptions}
use nanofish.Prelude.{
  ℕ, ◌^◌, ◌≤◌, ◌<◌, ◌≢◌, List, [], ◌∷◌, none, ◌≡◌, refl, sym, ap, ◌∙◌, le→leb, Bytes, length, arith,
  All,
}
use nanofish.Protocol.{max_headers, transfer_encoding}
use nanofish.Response.Write.Render.{render, build_bytes_lem}
use nanofish.Response.Write.{build_bytes}
use nanofish.Response.{HttpResponse, ResponseBody, as_bytes, find_header}
use nanofish.Result.{ok, ◌>>=◌}
use nanofish.StatusCode.Laws.{IsCanonical, as_u16-lt}
use nanofish.Wire.Exchange.{request-parse_resp, ok-inj}
use nanofish.Wire.Lines.{IsSendable}
use nanofish.Wire.RoundTrip.{sent_headers, build_bytes-parse_resp}
use nanofish.Wire.Stated.{render-Framed, sent_headers_ne_nil}

module _ (hp : Heapless) (usize_max rq : ℕ) (stream : Stream) (options : HttpClientOptions)
    (retry_delay : stream.State → stream.State) (request : HttpClientRequest) (buffer : Bytes) where
  -- A request that fits its buffer and that the stream takes, on a stream that then brings the bytes
  -- that a server wrote for a response, cut into pieces anywhere, none of them empty, and with fewer
  -- errors between them than `max_retries`, is answered with that response, if the bytes fit the
  -- buffer: its status, its headers with the length that the server adds, and a body of the same
  -- bytes. The response is one with a body, with no length and no transfer coding of its own, and
  -- with a status, headers and length as a round trip needs them.
  pub request_with_retry_delay-Comes :
      (n : ℕ) (r : HttpResponse) (http_request bytes piece : Bytes) (pieces : List Bytes)
      (st sent behind flown : stream.State)
      → build_req hp rq request.method request.host request.path request.headers request.body
        ≡ ok http_request
      → write hp usize_max rq stream http_request st ≡ (ok tt, sent)
      → write_body hp usize_max rq stream request.body sent ≡ (ok tt, behind)
      → flushed hp usize_max rq stream behind ≡ (ok tt, flown)
      → IsCanonical r.status_code
      → All IsSendable r.headers
      → find_header content_length_name r.headers ≡ none
      → find_header transfer_encoding r.headers ≡ none
      → as_bytes r.body ≢ []
      → length (sent_headers r) ≤ max_headers
      → length (as_bytes r.body) < 10 ^ 10
      → length (as_bytes r.body) ≤ usize_max
      → length (render r) ≤ n
      → build_bytes hp n r ≡ ok bytes
      → bytes ≡ together (piece ∷ pieces)
      → length bytes ≤ length buffer
      → 0 < options.max_retries
      → Comes stream retry_delay options.max_retries flown (piece ∷ pieces)
      → (body : ResponseBody) × ((request_with_retry_delay hp usize_max rq stream options
            retry_delay request buffer st).0
          ≡ ok (
            record { status_code = r.status_code; headers = sent_headers r; body = body },
            length bytes,
          ))
        × (as_bytes body ≡ as_bytes r.body)
  request_with_retry_delay-Comes n r http_request bytes piece pieces st sent behind flown b w v f c
        k no_length no_coding there room small within fits written cut room_left tries comes =
      let (bytes', body, written', read, same) =
        build_bytes-parse_resp hp n r c k (sent_headers_ne_nil r no_length there) room small fits in
      let agree : bytes' ≡ bytes = ok-inj (sym written' ∙ written) in
      let rendered : render r ≡ bytes = ok-inj (
        sym (
          build_bytes_lem hp n r (omega (arith, as_u16-lt r.status_code c)) small
          ∙ rw (le→leb (length (render r)) n fits) refl)
        ∙ written) in
      let framed =
        subst (Framed usize_max) rendered
          (render-Framed r no_length there usize_max k no_coding within) in
      let arrives =
        Comes-Arrives usize_max bytes framed stream retry_delay (length buffer) room_left [] piece
          pieces options.max_retries flown cut tries comes in
      (
        body,
        request-parse_resp hp usize_max rq stream options retry_delay request buffer http_request
              bytes st sent behind flown b w v f arrives (whole-chunked usize_max bytes framed)
            ∙ ap (λ m. m >>= λ q. ok (q, length bytes)) (ap (parse_resp hp) (sym agree) ∙ read),
        same,
      )
