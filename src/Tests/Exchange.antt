-- ===== src/Tests/Exchange.antt =====
-- A whole exchange on a stream that follows a script.
use nanofish.Client.Ends.{request_with_retry_delay-ne-out_of_fuel}
use nanofish.Client.Framed.{Comes, done, piece, error}
use nanofish.Client.{HttpClientRequest, request_with_retry_delay}
use nanofish.Codec.Build.{build_req, try_push}
use nanofish.Heapless.{bounded}
use nanofish.Method
use nanofish.Options.{HttpClientOptions, from_millis}
use nanofish.Prelude.{
  List, [], ◌∷◌, ◌++◌, Option, none, some, ◌≡◌, ◌≢◌, refl, Bytes, codes, length, arith,
}
use nanofish.Response.{ResponseBody, as_bytes, find_header}
use nanofish.Header.{content_length_name}
use nanofish.Protocol.{transfer_encoding}
use nanofish.Text.Case.{eq_ignore_case}
use nanofish.Wire.Pieces.{request_with_retry_delay-Comes}
use nanofish.Result.{ok, out_of_fuel}
use nanofish.StatusCode
use nanofish.Tests.Client.{scripted, script-Reads}
use nanofish.Tests.Wire.{
  hello, hello_bytes, hello_written, hello-IsSendable, hello-length, hello_two_headers,
}
use nanofish.Wire.RoundTrip.{sent_headers}

abbrev pub asked : HttpClientRequest
asked = record {
  method = Method.get;
  host = codes "h";
  path = codes "/";
  headers = [];
  body = none;
}

abbrev asked_bytes : Bytes
asked_bytes = codes "GET / HTTP/1.1\r\nHost: h\r\nConnection: close\r\n\r\n"

asked_built : build_req bounded 100 Method.get (codes "h") (codes "/") [] none ≡ ok asked_bytes
unfolding build_req Method.as_str try_push
asked_built = refl

abbrev pub buffer : Bytes
buffer = hello_bytes ++ hello_bytes

abbrev pub five_tries : HttpClientOptions
five_tries = record {
  max_retries = 5;
  socket_timeout = from_millis 1000;
  retry_delay = from_millis 200;
  socket_close_delay = from_millis 100;
}

-- Nothing but errors: the retries run out.
abbrev broken : List (Option Bytes)
broken = none ∷ none ∷ none ∷ none ∷ none ∷ none ∷ []

request_with_retry_delay-ne-out_of_fuel_example :
    (request_with_retry_delay bounded 255 100 scripted five_tries (λ st. st) asked buffer broken).0
    ≢ out_of_fuel
request_with_retry_delay-ne-out_of_fuel_example =
    request_with_retry_delay-ne-out_of_fuel bounded 255 100 scripted five_tries (λ st. st) asked
      buffer broken

abbrev cut_first : Bytes
cut_first = codes "HTTP/1.1 200 OK\r\nContent-Type: text/plain\r\nContent-Le"

abbrev cut_second : Bytes
cut_second = codes "ngth: 5\r\n\r\nhel"

abbrev cut_third : Bytes
cut_third = codes "lo"

abbrev cut_script : List (Option Bytes)
cut_script = some cut_first ∷ none ∷ some cut_second ∷ some cut_third ∷ []

cut-Comes : Comes scripted (λ st. st) 5 cut_script (cut_first ∷ cut_second ∷ cut_third ∷ [])
cut-Comes =
    piece 5 cut_script (none ∷ some cut_second ∷ some cut_third ∷ []) cut_first
      (cut_second ∷ cut_third ∷ []) (λ e. cc)
      (script-Reads 255 cut_first (none ∷ some cut_second ∷ some cut_third ∷ []))
      (error 5 (none ∷ some cut_second ∷ some cut_third ∷ [])
        (some cut_second ∷ some cut_third ∷ []) (cut_second ∷ cut_third ∷ []) (omega arith)
        (λ room. refl)
        (piece 4 (some cut_second ∷ some cut_third ∷ []) (some cut_third ∷ []) cut_second
          (cut_third ∷ []) (λ e. cc) (script-Reads 255 cut_second (some cut_third ∷ []))
          (piece 4 (some cut_third ∷ []) [] cut_third [] (λ e. cc) (script-Reads 255 cut_third [])
            (done 4 []))))

hello_headers :
    (find_header content_length_name hello.headers ≡ none)
    × (find_header transfer_encoding hello.headers ≡ none)
unfolding find_header eq_ignore_case
hello_headers = (refl, refl)

request_with_retry_delay-Comes_example :
    (body : ResponseBody) × ((request_with_retry_delay bounded 255 100 scripted five_tries
        (λ st. st)
        asked
        buffer
        cut_script).0
      ≡ ok (
        record { status_code = StatusCode.ok_status; headers = sent_headers hello; body = body },
        length hello_bytes,
      ))
    × (as_bytes body ≡ as_bytes hello.body)
unfolding as_bytes
request_with_retry_delay-Comes_example =
    request_with_retry_delay-Comes bounded 255 100 scripted five_tries (λ st. st) asked buffer 100
      hello asked_bytes hello_bytes cut_first (cut_second ∷ cut_third ∷ []) cut_script cut_script
      cut_script cut_script asked_built refl refl refl tt hello-IsSendable hello_headers.0
      hello_headers.1 (λ e. cc) (omega (arith, hello_two_headers)) (omega arith) (omega arith)
      (omega (arith, hello-length)) hello_written refl (omega arith) (omega arith) cut-Comes
