-- ===== src/Embassy/Server/Timeout.antt =====
-- The answer to a request whose handler runs into its timeout.
use nanofish.Codec.Parse.{parse_resp}
use nanofish.Embassy.Server.{timeout_response, handle_request}
use nanofish.Header.{HttpHeader, content_type_header, text_type}
use nanofish.Heapless.{Heapless}
use nanofish.Io.{Io, Stream}
use nanofish.Options.{TimeoutDuration}
use nanofish.Prelude.{
  ℕ, ◌^◌, ◌≤◌, ◌<◌, ◌≢◌, [], ◌∷◌, Option, none, some, ◌≡◌, refl, ap, Bytes, length, codes, arith,
}
use nanofish.Protocol.{max_headers}
use nanofish.Request.{HttpRequest}
use nanofish.Response.Builder.Dedup.{build-keep_last}
use nanofish.Response.Builder.{content_type, any_named}
use nanofish.Response.Write.Render.{render}
use nanofish.Response.{HttpResponse, ResponseBody, text, as_bytes, find_header}
use nanofish.Result.{Result, ok}
use nanofish.Server.Ends.{IsAnswer}
use nanofish.Server.{respond, handled}
use nanofish.StatusCode
use nanofish.StatusCode.{StatusCode}
use nanofish.Text.Case.{eq_ignore_case}
use nanofish.Text.Number.Print.{print_radix}
use nanofish.Wire.Answer.{failure-IsSendable}
use nanofish.Wire.RoundTrip.{build_bytes-parse_resp, sent_headers}

abbrev pub timed_out : HttpResponse
timed_out = record {
  status_code = StatusCode.request_timeout;
  headers = content_type_header text_type ∷ [];
  body = text (codes "Request Timeout");
}

timeout_response_lem : (hp : Heapless) → timeout_response hp ≡ ok timed_out
unfolding timeout_response content_type any_named eq_ignore_case
timeout_response_lem hp =
    rw (hp.push_lem HttpHeader max_headers [] (content_type_header text_type)) (
      build-keep_last hp
        (record {
          status = StatusCode.request_timeout;
          headers = content_type_header text_type ∷ [];
          body = some (text (codes "Request Timeout"));
        })
        (omega arith))

timed_out_bytes : length (render timed_out) ≤ 128
unfolding as_bytes find_header eq_ignore_case StatusCode.as_u16 StatusCode.text print_radix
timed_out_bytes = omega arith

timed_out_headers : (sent_headers timed_out ≢ []) × (length (sent_headers timed_out) ≤ max_headers)
unfolding as_bytes find_header eq_ignore_case
timed_out_headers = (cc, omega arith)

timed_out_body : length (as_bytes timed_out.body) < 10 ^ 10
unfolding as_bytes
timed_out_body = omega arith

pub timeout_response-IsAnswer : (hp : Heapless) → IsAnswer (timeout_response hp)
unfolding IsAnswer StatusCode.as_u16
timeout_response-IsAnswer hp = rw (timeout_response_lem hp) (omega arith, timed_out_body)

module _ (hp : Heapless) (usize_max : ℕ) (stream : Stream)
    (with_timeout : ℕ
      → Io stream.State HttpResponse
      → stream.State
      → Option (Result HttpResponse) × stream.State)
    (timeout : TimeoutDuration) (inner : HttpRequest → Io stream.State HttpResponse) where
  timed_out_answer :
      (request : HttpRequest) (st after : stream.State)
      → with_timeout timeout.millis (inner request) st ≡ (none, after)
      → handle_request hp with_timeout timeout inner request st ≡ (ok timed_out, after)
  unfolding handle_request
  timed_out_answer request st after e = rw (e, handle_request) (rw (timeout_response_lem hp) refl)

  -- A request whose handler is stopped by the timeout is answered all the same: a buffer of 128 bytes
  -- or more takes the answer, and the client reads from it the status 408, the headers that were
  -- sent, and the text of the answer.
  pub handled-parse_resp :
      (n : ℕ) (request : HttpRequest) (st after : stream.State)
      → 128 ≤ n
      → with_timeout timeout.millis (inner request) st ≡ (none, after)
      → (bytes : Bytes) × (body : ResponseBody) × (handled hp usize_max stream
            (handle_request hp with_timeout timeout inner)
            n
            request
            st
          ≡ (ok bytes, after))
        × (parse_resp hp bytes
            ≡ ok (record {
              status_code = StatusCode.request_timeout;
              headers = sent_headers timed_out;
              body = body;
            }))
        × (as_bytes body ≡ codes "Request Timeout")
  unfolding as_bytes respond
  handled-parse_resp n request st after room e =
      let (bytes, body, written, read, same) =
        build_bytes-parse_resp hp n timed_out tt failure-IsSendable timed_out_headers.0
          timed_out_headers.1 timed_out_body (omega (arith, timed_out_bytes, room)) in
      (
        bytes,
        body,
        rw (timed_out_answer request st after e) (ap (λ r. (r, after)) written),
        read,
        same,
      )
