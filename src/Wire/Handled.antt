-- ===== src/Wire/Handled.antt =====
-- A connection of the server that brings what a client wrote.
use nanofish.Codec.Build.Render.{render_req, build_req_lem}
use nanofish.Codec.Build.{build_req, body_length}
use nanofish.Header.{HttpHeader, new_header, content_length_name}
use nanofish.Heapless.{Heapless}
use nanofish.Io.Brings.{Brings, together}
use nanofish.Io.{Io, Stream, or_fail, ◌>>=◌, ◌>>◌}
use nanofish.Method.{HttpMethod}
use nanofish.Prelude.{
  ℕ, ◌^◌, ◌≤◌, ◌<◌, ◌≢◌, List, [], ◌++◌, Option, none, ◌≡◌, refl, sym, ap, ◌∙◌, Bytes, length,
  le→leb, All, arith, codes,
}
use nanofish.Protocol.{max_headers, double_crlf}
use nanofish.Request.{HttpRequest, try_from}
use nanofish.Response.{HttpResponse, find_header}
use nanofish.Result.{ok, tcp_error}
use nanofish.Server.Arrive.{read_request-Brings}
use nanofish.Server.{read_request, handled, handle_connection}
use nanofish.Text.Space.Plain.{IsVisible}
use nanofish.Text.Split.Plain.{Lacks}
use nanofish.Wire.Declared.{head, request-Framed}
use nanofish.Wire.Request.{body_bytes, build_req-try_from, render_req-joined}
use nanofish.Wire.Sent.{request_headers, IsOneLine}

ok-inj : {a b : Bytes} → ok a ≡ ok b → a ≡ b
ok-inj e = cc

module _ (hp : Heapless) (usize_max : ℕ) (stream : Stream)
    (handle_request : HttpRequest → Io stream.State HttpResponse)
    (rq req_size max_response_size : ℕ) where
  -- The answer to a request: the response of the handler is built, written and flushed.
  abbrev pub answer : HttpRequest → Io stream.State (Unit {0})
  answer request = do
    response ← handled hp usize_max stream handle_request max_response_size request
    (λ st. or_fail tcp_error (stream.write_all st response))
    (λ st. or_fail tcp_error (stream.flush st))

  connection-answer :
      (whole : Bytes) (request : HttpRequest) (st arrived : stream.State)
      → read_request usize_max stream req_size st ≡ (ok whole, arrived)
      → try_from hp whole ≡ ok request
      → handle_connection hp usize_max stream handle_request req_size max_response_size st
        ≡ answer request arrived
  unfolding handle_connection
  connection-answer whole request st arrived e f = rw e (rw f refl)

  -- A request that a client writes, with a path of visible characters without a colon, a host and
  -- headers of plain names and trimmed plain values without line breaks and with no length of the
  -- caller's own, at most sixteen with those that are added, and a body of less than 10 ^ 8 bytes:
  -- a server whose stream brings it in pieces of any sizes, none of them empty, and whose buffer has
  -- room for it, gives the answer to that very request, its method, path, headers in order and body.
  pub handle_connection-build_req :
      (method : HttpMethod) (host path : Bytes) (headers : List HttpHeader) (body : Option Bytes)
      (http_request : Bytes) (pieces : List Bytes) (st arrived : stream.State)
      → All IsVisible path
      → path ≢ []
      → Lacks b':' path
      → IsOneLine (new_header (codes "Host") host)
      → All IsOneLine headers
      → find_header content_length_name headers ≡ none
      → length (request_headers host headers body) ≤ max_headers
      → body_length body < 10 ^ 8
      → length (render_req method host path headers body) ≤ rq
      → build_req hp rq method host path headers body ≡ ok http_request
      → http_request ++ body_bytes body ≡ together pieces
      → length (together pieces) ≤ req_size
      → req_size ≤ usize_max
      → Brings stream st pieces arrived
      → handle_connection hp usize_max stream handle_request req_size max_response_size st
        ≡ answer
            (record {
              method = method;
              path = path;
              version = codes "HTTP/1.1";
              headers = request_headers host headers body;
              body = body_bytes body;
            })
            arrived
  handle_connection-build_req method host path headers body http_request pieces st arrived v ne p hk
        k h room small fits built sent within most brings =
      let (bytes, written, read) =
        build_req-try_from hp rq method host path headers body v ne hk k room small fits in
      let agree : http_request ≡ bytes = ok-inj (sym built ∙ written) in
      let rendered : http_request ≡ render_req method host path headers body = ok-inj (
        sym built
        ∙ build_req_lem hp rq method host path headers body small
        ∙ rw (le→leb (length (render_req method host path headers body)) rq fits) refl) in
      let whole =
        head usize_max method host path headers body ++ (double_crlf ++ body_bytes body) in
      let on_wire : whole ≡ http_request ++ body_bytes body =
        sym (render_req-joined hp rq method host path headers body)
        ∙ ap (λ s. s ++ body_bytes body) (sym rendered) in
      let same : whole ≡ together pieces = on_wire ∙ sent in
      let size : length whole ≤ req_size = omega (arith, ap length same) in
      let framed =
        request-Framed usize_max method host path headers body v p hk k h (omega (arith, size)) in
      connection-answer whole _ st arrived
        (read_request-Brings usize_max stream req_size whole framed size st arrived pieces same
          brings)
        (ap (try_from hp) (on_wire ∙ ap (λ s. s ++ body_bytes body) agree) ∙ read)
