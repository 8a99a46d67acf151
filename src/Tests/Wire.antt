-- ===== src/Tests/Wire.antt =====
-- Responses and requests on the wire.
use nanofish.Codec.Build.Render.{build_req_lem, render_req}
use nanofish.Codec.Build.{build_req}
use nanofish.Codec.Parse.{
  parse_resp, parse_body, status_of_line, collect_headers, is_text, text_or_bin,
}
use nanofish.Header.{HttpHeader, new_header, content_type_header, text_type}
use nanofish.Heapless.{bounded}
use nanofish.Method
use nanofish.Prelude.{
  List, ◌++◌, ◌≢◌, false, ap, All, [], ◌∷◌, some, ◌≡◌, refl, leb, if◌then◌else◌, Bytes, codes,
  length, arith,
}
use nanofish.Response.Write.Render.{render, render_head, build_bytes_lem, build_head_bytes_lem}
use nanofish.Response.Write.{push_slice, build_bytes, build_head_bytes}
use nanofish.Response.{HttpResponse, ResponseBody, text, empty, as_bytes, find_header}
use nanofish.Result.{ok, err, panic, buffer_overflow}
use nanofish.StatusCode
use nanofish.Protocol.{find_crlf, find_double_crlf, split_header}
use nanofish.Text.Case.{eq_ignore_case}
use nanofish.Text.Number.Print.{print_radix}
use nanofish.Text.Number.{from_str_radix}
use nanofish.Text.Space.{split_whitespace, trim}
use nanofish.Text.Split.{split_crlf}
use nanofish.Text.Utf8.{from_utf8}
use nanofish.Request.{try_from}
use nanofish.Text.Space.Plain.{IsVisible}
use nanofish.Wire.Request.{build_req-try_from, body_bytes}
use nanofish.Wire.Sent.{IsOneLine, request_headers}
use nanofish.Wire.Lines.{IsSendable}
use nanofish.Wire.RoundTrip.{build_bytes-parse_resp, build_bytes-parse_resp_panic, sent_headers}

abbrev pub hello : HttpResponse
hello = record {
  status_code = StatusCode.ok_status;
  headers = content_type_header text_type ∷ [];
  body = text (codes "hello");
}

abbrev pub hello_bytes : Bytes
hello_bytes = codes "HTTP/1.1 200 OK\r\nContent-Type: text/plain\r\nContent-Length: 5\r\n\r\nhello"

-- The length of a body is added.
pub hello_written : build_bytes bounded 100 hello ≡ ok hello_bytes
unfolding build_bytes StatusCode.as_u16 StatusCode.text as_bytes push_slice eq_ignore_case
hello_written = refl

-- One byte of room too few.
hello_overflows : build_bytes bounded 68 hello ≡ err buffer_overflow
unfolding build_bytes StatusCode.as_u16 StatusCode.text as_bytes push_slice eq_ignore_case
hello_overflows = refl

hello_read :
    parse_resp bounded hello_bytes
    ≡ ok (record {
      status_code = StatusCode.ok_status;
      headers =
          content_type_header text_type ∷ new_header (codes "Content-Length") (codes "5") ∷ [];
      body = text (codes "hello");
    })
unfolding parse_resp find_double_crlf from_utf8 find_crlf status_of_line split_whitespace
    StatusCode.try_from_str from_str_radix StatusCode.from_u16 collect_headers parse_body split_crlf
    find_header split_header eq_ignore_case is_text text_or_bin
hello_read = refl

abbrev bare : HttpResponse
bare = record { status_code = StatusCode.no_content; headers = []; body = empty }

pub hello-length : length (render hello) ≡ 69
unfolding as_bytes find_header eq_ignore_case StatusCode.as_u16 StatusCode.text print_radix
hello-length = refl

pub hello_two_headers : length (sent_headers hello) ≡ 2
unfolding as_bytes find_header eq_ignore_case
hello_two_headers = refl

pub hello-IsSendable : All IsSendable hello.headers
unfolding trim
hello-IsSendable = (
  record {
    named = cc;
    name_visible = omega arith;
    name_no_colon = omega arith;
    value_plain = omega arith;
    value_trimmed = refl;
  },
  tt,
)

pub hello_some_header : sent_headers hello ≢ []
hello_some_header e = omega (arith, ap length e, hello_two_headers)

build_bytes-parse_resp_example :
    (bytes : Bytes) × (body : ResponseBody) × (build_bytes bounded 100 hello ≡ ok bytes)
    × (parse_resp bounded bytes
        ≡ ok (record {
          status_code = StatusCode.ok_status;
          headers = sent_headers hello;
          body = body;
        }))
    × (as_bytes body ≡ as_bytes hello.body)
unfolding as_bytes
build_bytes-parse_resp_example =
    build_bytes-parse_resp bounded 100 hello tt hello-IsSendable hello_some_header
      (omega (arith, hello_two_headers)) (omega arith) (omega (arith, hello-length))

build_bytes-parse_resp_panic_example :
    (bytes : Bytes) × (build_bytes bounded 100 bare ≡ ok bytes) × (parse_resp bounded bytes ≡ panic)
unfolding as_bytes StatusCode.as_u16 StatusCode.text print_radix find_header
build_bytes-parse_resp_panic_example =
    build_bytes-parse_resp_panic bounded 100 bare tt refl refl (omega arith)

build_bytes_lem_example :
    build_bytes bounded 69 hello
    ≡ (if leb (length (render hello)) 69 then ok (render hello) else err buffer_overflow)
unfolding as_bytes StatusCode.as_u16
build_bytes_lem_example = build_bytes_lem bounded 69 hello (omega arith) (omega arith)

build_head_bytes_lem_example : build_head_bytes bounded 69 hello ≡ (
    if leb (length (render_head false hello)) 69
    then ok (render_head false hello)
    else err buffer_overflow)
unfolding as_bytes StatusCode.as_u16
build_head_bytes_lem_example = build_head_bytes_lem bounded 69 hello (omega arith) (omega arith)

build_req_lem_example :
    build_req bounded 90 Method.post (codes "host") (codes "/a") [] (some (codes "hi")) ≡ (
      if leb (length (render_req Method.post (codes "host") (codes "/a") [] (some (codes "hi")))) 90
      then ok (render_req Method.post (codes "host") (codes "/a") [] (some (codes "hi")))
      else err buffer_overflow)
build_req_lem_example =
    build_req_lem bounded 90 Method.post (codes "host") (codes "/a") [] (some (codes "hi"))
      (omega arith)

abbrev pub asked : List HttpHeader
asked = new_header (codes "X") (codes "1") ∷ []

pub host-IsOneLine : IsOneLine (new_header (codes "Host") (codes "h"))
unfolding trim
host-IsOneLine = (
  record {
    named = cc;
    name_visible = omega arith;
    name_no_colon = omega arith;
    value_plain = omega arith;
    value_trimmed = refl;
  },
  omega arith,
)

pub asked-IsOneLine : All IsOneLine asked
unfolding trim
asked-IsOneLine = (
  (
    record {
      named = cc;
      name_visible = omega arith;
      name_no_colon = omega arith;
      value_plain = omega arith;
      value_trimmed = refl;
    },
    omega arith,
  ),
  tt,
)

pub asked_headers : length (request_headers (codes "h") asked (some (codes "hi"))) ≡ 4
unfolding find_header eq_ignore_case
asked_headers = refl

pub asked_bytes :
    length (render_req Method.post (codes "h") (codes "/a?b") asked (some (codes "hi"))) ≡ 75
unfolding find_header eq_ignore_case print_radix Method.as_str
asked_bytes = refl

build_req-try_from_example :
    (bytes : Bytes) × (build_req bounded 100 Method.post
        (codes "h")
        (codes "/a?b")
        asked
        (some (codes "hi"))
      ≡ ok bytes)
    × (try_from bounded (bytes ++ body_bytes (some (codes "hi")))
        ≡ ok (record {
          method = Method.post;
          path = codes "/a?b";
          version = codes "HTTP/1.1";
          headers = request_headers (codes "h") asked (some (codes "hi"));
          body = body_bytes (some (codes "hi"));
        }))
build_req-try_from_example =
    let path_seen : All IsVisible (codes "/a?b") = omega arith in
    let path_there : codes "/a?b" ≢ [] = λ e. cc in
    build_req-try_from bounded 100 Method.post (codes "h") (codes "/a?b") asked (some (codes "hi"))
      path_seen path_there host-IsOneLine asked-IsOneLine (omega (arith, asked_headers))
      (omega arith) (omega (arith, asked_bytes))
