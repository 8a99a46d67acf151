-- ===== src/Tests/Handled.antt =====
-- A connection of the server on a stream that follows a script.
use nanofish.Codec.Build.{build_req, try_push}
use nanofish.Handler
use nanofish.Heapless.{bounded}
use nanofish.Io.Brings.{Brings, Reads, done, piece}
use nanofish.Io.{Io}
use nanofish.Method
use nanofish.Prelude.{
  ◌≢◌, List, [], ◌∷◌, Option, some, ◌≡◌, refl, ap, Bytes, All, codes, take_all, arith, Bool-cases,
  bytes_eq, inl, inr,
}
use nanofish.Request.{HttpRequest}
use nanofish.Response.{HttpResponse, as_bytes, find_header}
use nanofish.Result.{ok}
use nanofish.Result.Ends.{Ends}
use nanofish.Server.Ends.{IsAnswer, handle_connection-Ends}
use nanofish.StatusCode
use nanofish.Server.{handle_connection}
use nanofish.Tests.Client.{scripted}
use nanofish.Tests.Wire.{asked, host-IsOneLine, asked-IsOneLine, asked_headers, asked_bytes}
use nanofish.Text.Case.{eq_ignore_case}
use nanofish.Text.Number.Print.{print_radix}
use nanofish.Text.Space.Plain.{IsVisible}
use nanofish.Wire.Handled.{answer, handle_connection-build_req}
use nanofish.Wire.Request.{body_bytes}
use nanofish.Wire.Sent.{request_headers}

abbrev request_bytes : Bytes
request_bytes =
    codes "POST /a?b HTTP/1.1\r\nHost: h\r\nX: 1\r\nContent-Length: 2\r\nConnection: close\r\n\r\n"

built :
    build_req bounded 100 Method.post (codes "h") (codes "/a?b") asked (some (codes "hi"))
    ≡ ok request_bytes
unfolding build_req Method.as_str try_push print_radix eq_ignore_case
built = refl

abbrev pieces : List Bytes
pieces =
    codes "POST /a?b HTTP/1.1\r\nHost: h\r\nX: 1\r\nContent-Length: 2\r\nConnection: close\r\n\r"
    ∷ codes "\nh"
    ∷ codes "i"
    ∷ []

abbrev script : List Bytes → List (Option Bytes)
script [] = []
script (bytes ∷ more) = some bytes ∷ script more

script-Reads :
    (bytes : Bytes) (more : List Bytes) → Reads scripted (script (bytes ∷ more)) bytes (script more)
script-Reads bytes more room h = ap (λ b. (some b, script more)) (take_all room bytes h)

brought : (ps : List Bytes) → All (λ b. b ≢ []) ps → Brings scripted (script ps) ps []
brought [] h = done []
brought (b ∷ bs) h =
    piece (script (b ∷ bs)) (script bs) [] b bs h.0 (script-Reads b bs) (brought bs h.1)

abbrev simple : HttpRequest → Io (List (Option Bytes)) HttpResponse
simple request st = (Handler.handle_request bounded request, st)

handle_connection-build_req_example :
    handle_connection bounded 255 scripted simple 200 200 (script pieces)
    ≡ answer bounded 255 scripted simple 100 200 200
        (record {
          method = Method.post;
          path = codes "/a?b";
          version = codes "HTTP/1.1";
          headers = request_headers (codes "h") asked (some (codes "hi"));
          body = body_bytes (some (codes "hi"));
        })
        []
unfolding find_header eq_ignore_case
handle_connection-build_req_example =
    let path_seen : All IsVisible (codes "/a?b") = omega arith in
    let path_there : codes "/a?b" ≢ [] = λ e. cc in
    handle_connection-build_req bounded 255 scripted simple 100 200 200 Method.post (codes "h")
      (codes "/a?b") asked (some (codes "hi")) request_bytes pieces (script pieces) [] path_seen
      path_there (omega arith) host-IsOneLine asked-IsOneLine refl (omega (arith, asked_headers))
      (omega arith) (omega (arith, asked_bytes)) built refl (omega arith) (omega arith)
      (brought pieces ((λ e. cc), ((λ e. cc), ((λ e. cc), tt))))

simple-IsAnswer :
    (request : HttpRequest) (now : List (Option Bytes)) → IsAnswer (simple request now).0
unfolding Handler.handle_request IsAnswer StatusCode.as_u16 as_bytes
simple-IsAnswer request now = elim (Bool-cases (bytes_eq request.path (codes "/"))) [
  | inl root ↦ rw (root, Handler.handle_request) (omega arith, omega arith)
  | inr other ↦ elim (Bool-cases (bytes_eq request.path (codes "/health"))) [
    | inl health ↦ rw (other, Handler.handle_request) (rw health (omega arith, omega arith))
    | inr unknown ↦ rw (other, Handler.handle_request) (rw unknown (omega arith, omega arith))
  ]
]

-- The connection ends in the middle of the request.
abbrev cut_off : List Bytes
cut_off = codes "POST /a?b HTTP/1.1\r\nHos" ∷ []

handle_connection-Ends_example :
    Ends ⊥ (handle_connection bounded 255 scripted simple 200 200 (script cut_off)).0
handle_connection-Ends_example =
    handle_connection-Ends bounded 200 255 scripted simple 200 (script cut_off) (omega arith)
      simple-IsAnswer
