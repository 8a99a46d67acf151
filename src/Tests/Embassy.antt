-- ===== src/Tests/Embassy.antt =====
-- A small network, and the client and the server on it.
use nanofish.Client.Endpoint.Print.{scheme_text, port_text, port_or_default, IsHost}
use nanofish.Codec.Parse.{parse_resp}
use nanofish.Embassy.Client.Https.Order.{EndedOverTls, make_https_request-Ended}
use nanofish.Embassy.Client.Https.{make_https_request}
use nanofish.Embassy.Client.Order.{Ended, make_http_request-Ended}
use nanofish.Embassy.Client.Request.Dispatch.{over, request-text}
use nanofish.Embassy.Client.Request.{request}
use nanofish.Embassy.Client.Resolve.{addresses, resolve_host_iff}
use nanofish.Embassy.Client.{with_options, make_http_request, first, resolve_host}
use nanofish.Embassy.Rng.Fill.{IsByte, words, fill_bytes-words}
use nanofish.Embassy.Rng.Reach.{word, double, bytes, drawn_all, tls_seed-drawn_all}
use nanofish.Embassy.Rng.{XorShift32Rng, tls_seed, next_u32, fill_bytes}
use nanofish.Embassy.Rng
use nanofish.Embassy.Server.Order.{IsOutcome, Served, serve-Served}
use nanofish.Embassy.Server.Timeout.{timed_out, handled-parse_resp}
use nanofish.Embassy.Server.{handle_request, new_server, serve}
use nanofish.Embassy.Trace.{traced}
use nanofish.Embassy.{DnsQueryType, Network, a, aaaa}
use nanofish.Heapless.{bounded}
use nanofish.Io.{Io}
use nanofish.Method
use nanofish.Options.{from_secs}
use nanofish.Prelude.{
  ℕ, ◌^◌, ◌<◌, true, List, [], ◌∷◌, ◌++◌, Option, none, some, if◌then◌else◌, Bytes, codes, is_empty,
  take, length, arith, All, ◌≡◌, refl, ◌↔◌,
}
use nanofish.Request.{HttpRequest}
use nanofish.Response.{HttpResponse, ResponseBody, as_bytes}
use nanofish.Result.{Result, ok, err, no_response}
use nanofish.Server.{handled}
use nanofish.StatusCode
use nanofish.Tests.Client.{scripted}
use nanofish.Tests.Exchange.{five_tries, buffer}
use nanofish.Tests.Tls.{clear, clear-CallsOnly}
use nanofish.Tests.Wire.{hello_bytes}
use nanofish.Wire.RoundTrip.{sent_headers}

abbrev answers : DnsQueryType → List ℕ
answers a = []
answers aaaa = 7 ∷ 8 ∷ []

abbrev tiny : Network
tiny = record {
  stream = scripted;
  IpAddress = ℕ;
  new_socket = λ st. st;
  set_timeout = λ d st. st;
  query = λ host t st. (some (answers t), st);
  connect = λ remote st. (true, st);
  accept = λ port st. (true, st);
  abort = λ st. st;
  close = λ st. st;
  timer = λ d st. st;
  ticks = λ st. 2 ^ 32;
}

abbrev script : List (Option Bytes)
script = none ∷ some hello_bytes ∷ []

make_http_request-Ended_example : Ended five_tries tiny (
    make_http_request
      (traced tiny)
      bounded
      255
      100
      (with_options five_tries)
      Method.get
      (codes "h", 80)
      (codes "/")
      []
      none
      buffer
      (script, []))
make_http_request-Ended_example =
    make_http_request-Ended bounded 255 100 (with_options five_tries) tiny Method.get
      (codes "h", 80) (codes "/") [] none buffer script

make_https_request-Ended_example :
    EndedOverTls five_tries tiny (clear XorShift32Rng (Unit {0}) (traced tiny).stream) (
      make_https_request
        (traced tiny)
        (clear XorShift32Rng (Unit {0}) (traced tiny).stream)
        bounded
        255
        100
        (with_options five_tries)
        Method.get
        (codes "h", 443)
        (codes "/")
        []
        none
        buffer
        (script, []))
make_https_request-Ended_example =
    make_https_request-Ended bounded 255 100 (with_options five_tries) tiny
      (clear XorShift32Rng (Unit {0}) (traced tiny).stream)
      (clear-CallsOnly XorShift32Rng (Unit {0}) (traced tiny).stream) Method.get (codes "h", 443)
      (codes "/") [] none buffer script

resolve_host_iff_example :
    ((resolve_host tiny (codes "h") script).0 ≡ ok 7)
    ↔ (first (addresses (some (answers a)) ++ addresses (some (answers aaaa))) ≡ some 7)
resolve_host_iff_example = resolve_host_iff tiny (codes "h") script 7

request-text_example :
    request tiny none bounded 255 100
      (with_options five_tries)
      Method.get
      (scheme_text true ++ (codes "://" ++ ((codes "a.b" ++ port_text none) ++ [])))
      []
      none
      buffer
      script
    ≡ over tiny bounded 255 100
        (with_options five_tries)
        Method.get
        []
        none
        buffer
        none
        true
        (codes "a.b", port_or_default true none)
        (if is_empty {A = ℕ} [] then codes "/" else [])
        script
request-text_example =
    let host : IsHost (codes "a.b") none = omega arith in
    request-text tiny bounded 255 100 (with_options five_tries) Method.get [] none buffer none true
      (codes "a.b") none [] script host tt tt

tls_seed-drawn_all_example :
    (0
      < (drawn_all
          (word ∷ double ∷ bytes (codes "abcde") ∷ [])
          (Rng.new (tls_seed (2 ^ 32)))).state)
    × ((drawn_all (word ∷ double ∷ bytes (codes "abcde") ∷ []) (Rng.new (tls_seed (2 ^ 32)))).state
        < 2 ^ 32)
tls_seed-drawn_all_example =
    tls_seed-drawn_all (2 ^ 32) (word ∷ double ∷ bytes (codes "abcde") ∷ [])

-- The known first value of the generator from 1.
first_word : (next_u32 (Rng.new 1)).0 ≡ 270369
unfolding next_u32
first_word = refl

fill_bytes-words_example :
    ((fill_bytes (codes "abcde") (Rng.new 1)).0 ≡ take 5 (words 5 (Rng.new 1)))
    × (length (fill_bytes (codes "abcde") (Rng.new 1)).0 ≡ 5)
    × All IsByte (fill_bytes (codes "abcde") (Rng.new 1)).0
fill_bytes-words_example = fill_bytes-words (codes "abcde") (Rng.new 1)

-- A timer that stops every call at once.
abbrev impatient : {S : Type 0} → ℕ → Io S HttpResponse → S → Option (Result HttpResponse) × S
impatient d m st = (none, st)

abbrev failing : {S : Type 0} → HttpRequest → Io S HttpResponse
failing request st = (err no_response, st)

serve-Served_example :
    Served
      (new_server 80)
      tiny
      (serve bounded 255 (traced tiny) impatient failing 100 200 (new_server 80) 3 (script, []))
unfolding IsOutcome
serve-Served_example =
    serve-Served bounded 255 tiny impatient failing 100 200 (new_server 80) (λ d request st h. h)
      (λ d request st. tt) (omega arith) 3 script

abbrev asked : HttpRequest
asked = record {
  method = Method.get;
  path = codes "/";
  version = codes "HTTP/1.1";
  headers = [];
  body = [];
}

handled-parse_resp_example :
    (bytes : Bytes) × (body : ResponseBody) × (handled bounded 255 scripted
        (handle_request bounded impatient (from_secs 60) failing)
        200
        asked
        script
      ≡ (ok bytes, script))
    × (parse_resp bounded bytes
        ≡ ok (record {
          status_code = StatusCode.request_timeout;
          headers = sent_headers timed_out;
          body = body;
        }))
    × (as_bytes body ≡ codes "Request Timeout")
handled-parse_resp_example =
    handled-parse_resp bounded 255 scripted impatient (from_secs 60) failing 200 asked script script
      (omega arith) refl
