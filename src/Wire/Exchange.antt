-- ===== src/Wire/Exchange.antt =====
-- A whole exchange: the client's request on a stream that brings a response of the server.
use nanofish.Client.Arrive.{Arrives, read_response-Arrives}
use nanofish.Client.Buffer.{filled, read_buffer}
use nanofish.Client.{
  HttpClientRequest, write, write_body, flushed, read_response, request_with_retry_delay,
}
use nanofish.Codec.Build.{build_req}
use nanofish.Codec.Dechunk.{dechunk}
use nanofish.Codec.Framing.{chunked}
use nanofish.Codec.Parse.{parse_resp}
use nanofish.Heapless.{Heapless}
use nanofish.Io.{Stream, continue, lift}
use nanofish.Options.{HttpClientOptions}
use nanofish.Prelude.{
  ℕ, ◌^◌, ◌≤◌, ◌<◌, ◌≢◌, true, false, [], ◌≡◌, refl, sym, ap, ◌∙◌, Bytes, take, drop, length, arith,
  leb, le→leb, length-append, take_append, All,
}
use nanofish.Protocol.{max_headers}
use nanofish.Response.Write.Render.{render}
use nanofish.Response.Write.{build_bytes}
use nanofish.Response.{HttpResponse, ResponseBody, as_bytes}
use nanofish.Result.{Result, ok, ◌>>=◌}
use nanofish.StatusCode.Laws.{IsCanonical}
use nanofish.Wire.Lines.{IsSendable}
use nanofish.Wire.RoundTrip.{sent_headers, build_bytes-parse_resp}

continue-lift :
    {S A B : Type 0} (m : Result A × S) (f : A → Result B) (a : A)
    → m.0 ≡ ok a
    → (continue m (λ b. lift (f b))).0 ≡ f a
continue-lift (m, st) f a e = rw e refl

pub ok-inj : {a b : Bytes} → ok a ≡ ok b → a ≡ b
ok-inj e = cc

module _ (hp : Heapless) (usize_max : ℕ) where
  -- Bytes that are not chunked are parsed as they stand in the buffer.
  read_buffer-parse_resp :
      (buffer got : Bytes)
      → chunked got ≡ false
      → read_buffer hp usize_max buffer got ≡ (parse_resp hp got >>= λ r. ok (r, length got))
  unfolding read_buffer dechunk
  read_buffer-parse_resp buffer got plain =
      let whole : take (length got) (filled got buffer) ≡ got =
        take_append got (drop (length got) buffer) (length got) refl in
      let room : leb (length got) (length (filled got buffer)) ≡ true =
        le→leb _ _ (omega (arith, length-append got (drop (length got) buffer))) in
      rw room (rw whole (rw (plain, dechunk) (rw whole refl)))

  module _ (rq : ℕ) (stream : Stream) (options : HttpClientOptions)
      (retry_delay : stream.State → stream.State) (request : HttpClientRequest)
      (buffer : Bytes) where
    -- A request that is built and sent is answered with what is parsed from the response that then
    -- arrives, if it is not chunked.
    pub request-parse_resp :
        (http_request whole : Bytes) (st sent behind flown : stream.State)
        → build_req hp rq request.method request.host request.path request.headers request.body
          ≡ ok http_request
        → write hp usize_max rq stream http_request st ≡ (ok tt, sent)
        → write_body hp usize_max rq stream request.body sent ≡ (ok tt, behind)
        → flushed hp usize_max rq stream behind ≡ (ok tt, flown)
        → Arrives usize_max stream retry_delay (length buffer) [] options.max_retries flown whole
        → chunked whole ≡ false
        → (request_with_retry_delay hp usize_max rq stream options retry_delay request buffer st).0
          ≡ (parse_resp hp whole >>= λ r. ok (r, length whole))
    unfolding request_with_retry_delay
    request-parse_resp http_request whole st sent behind flown b w v f arrives plain = rw b (
        rw w (
          rw v (
            rw f (
              continue-lift
                (read_response usize_max stream retry_delay (length buffer) options.max_retries
                  flown)
                (read_buffer hp usize_max buffer) whole
                (read_response-Arrives usize_max stream retry_delay (length buffer)
                  options.max_retries flown whole arrives)
              ∙ read_buffer-parse_resp buffer whole plain))))

    -- A request that fits its buffer and that the stream takes, on a stream that then brings, in any
    -- pieces that the buffer has room for and with fewer errors between them than `max_retries`, the
    -- bytes that a server wrote for a response, is answered with that response: its status, its
    -- headers with the length that the server adds, and a body of the same bytes. The response is
    -- one with headers and with a status, headers and length as a round trip needs them, its bytes
    -- are not chunked, and no proper run of the pieces counts as complete.
    pub request-build_bytes :
        (n : ℕ) (r : HttpResponse) (http_request bytes : Bytes)
        (st sent behind flown : stream.State)
        → build_req hp rq request.method request.host request.path request.headers request.body
          ≡ ok http_request
        → write hp usize_max rq stream http_request st ≡ (ok tt, sent)
        → write_body hp usize_max rq stream request.body sent ≡ (ok tt, behind)
        → flushed hp usize_max rq stream behind ≡ (ok tt, flown)
        → IsCanonical r.status_code
        → All IsSendable r.headers
        → sent_headers r ≢ []
        → length (sent_headers r) ≤ max_headers
        → length (as_bytes r.body) < 10 ^ 10
        → length (render r) ≤ n
        → build_bytes hp n r ≡ ok bytes
        → Arrives usize_max stream retry_delay (length buffer) [] options.max_retries flown bytes
        → chunked bytes ≡ false
        → (body : ResponseBody) × ((request_with_retry_delay hp usize_max rq stream options
              retry_delay request buffer st).0
            ≡ ok (
              record { status_code = r.status_code; headers = sent_headers r; body = body },
              length bytes,
            ))
          × (as_bytes body ≡ as_bytes r.body)
    request-build_bytes n r http_request bytes st sent behind flown b w v f c k ne room small fits
          written arrives plain =
        let (bytes', body, written', read, same) =
          build_bytes-parse_resp hp n r c k ne room small fits in
        let agree : bytes' ≡ bytes = ok-inj (sym written' ∙ written) in
        (
          body,
          request-parse_resp http_request bytes st sent behind flown b w v f arrives plain
              ∙ ap (λ m. m >>= λ q. ok (q, length bytes)) (ap (parse_resp hp) (sym agree) ∙ read),
          same,
        )
