-- ===== src/Wire/Request.antt =====
-- What the client writes, the server reads.
use nanofish.Codec.Build.Render.{render_req, render_auto, build_req_lem}
use nanofish.Codec.Build.{build_req, body_length}
use nanofish.Codec.Parse.Joined.{joined, find_double_crlf-joined}
use nanofish.Codec.Parse.Lines.{IsAsciiLine, IsAscii-joined, lines_of_All}
use nanofish.Header.{HttpHeader, new_header, content_length_name}
use nanofish.Heapless.{Heapless}
use nanofish.Method
use nanofish.Method.Laws.{try_from_str_iff}
use nanofish.Method.{HttpMethod}
use nanofish.Prelude.{
  ℕ, ◌+◌, ◌^◌, ◌≤◌, ◌<◌, ◌≢◌, inl, inr, true, not, ◌&&◌, List, [], ◌∷◌, ◌++◌, Option, none, some,
  ◌≡◌, refl, sym, ap, ◌∙◌, ltb, Bytes, length, arith, All, is_some, append_assoc, append-nil,
  le→leb, lt→ltb, Bool-cases, codes, take_append, drop-append_add, length-append,
}
use nanofish.Protocol.{crlf, double_crlf, max_headers, find_double_crlf, http_version_line_suffix}
use nanofish.Request.{HttpRequest, collect_lines, request_parts, parse_lines, parse_from, try_from}
use nanofish.Response.Write.Render.{render_headers}
use nanofish.Response.{find_header}
use nanofish.Result.{ok}
use nanofish.Text.Space.Plain.{IsVisible}
use nanofish.Text.Space.Words.{split_whitespace-word}
use nanofish.Text.Space.{split_whitespace}
use nanofish.Text.Split.{lines}
use nanofish.Text.Utf8.{from_utf8_ascii}
use nanofish.Wire.Lines.{
  All_imp, IsSendable, header_line, header_lines, header_lines-IsAsciiLine,
  split_header-header_line, render_headers-joined, append_ne_nil,
}
use nanofish.Wire.RoundTrip.{render_headers-append}
use nanofish.Wire.Sent.{
  length_headers, close_header, request_headers, request_line, IsOneLine, sendable, lines-joined,
  header_lines-one, not_empty, as_str-IsVisible, as_str_ne_nil, IsPrinted, request_line-IsPrinted,
  request_line_ne_nil, request_line-IsAsciiLine, request_headers-IsOneLine,
}

module _ (hp : Heapless) where
  collect_lines-header_lines :
      (acc hs : List HttpHeader)
      → All IsSendable hs
      → length acc + length hs ≤ max_headers
      → collect_lines hp acc (header_lines hs) ≡ ok (acc ++ hs)
  unfolding collect_lines
  collect_lines-header_lines acc [] k room = ap (λ hs. ok hs) (sym (append-nil acc))
  collect_lines-header_lines acc (h ∷ hs) k room =
      let fits : ltb (length acc) max_headers ≡ true = lt→ltb _ _ (omega arith) in
      rw (not_empty (header_line h) (append_ne_nil h.name _ k.0.named), collect_lines)
        (rw (split_header-header_line h k.0, collect_lines)
          (rw (hp.push_lem HttpHeader max_headers acc h) (
            rw fits (
              collect_lines-header_lines (acc ++ h ∷ []) hs k.1
                (omega (arith, length-append acc (h ∷ [])))
              ∙ ap (λ ks. ok ks) (append_assoc acc (h ∷ []) hs)))))

  -- The server's reader on lines, a blank line and a body.
  module _ (method : HttpMethod) (path body : Bytes) (hs : List HttpHeader) where
    abbrev line : Bytes
    line = request_line method path

    abbrev head : Bytes
    head = joined line (header_lines hs)

    abbrev request : HttpRequest
    request = record {
      method = method;
      path = path;
      version = codes "HTTP/1.1";
      headers = hs;
      body = body;
    }

    words :
        All IsVisible path
        → path ≢ []
        → split_whitespace line ≡ Method.as_str method ∷ path ∷ codes "HTTP/1.1" ∷ []
    unfolding split_whitespace
    words h ne =
        split_whitespace-word (Method.as_str method) (path ++ (b' ' ∷ codes "HTTP/1.1"))
          (as_str-IsVisible method) (as_str_ne_nil method)
        ∙ ap (λ ws. Method.as_str method ∷ ws) (split_whitespace-word path (codes "HTTP/1.1") h ne)

    parse_lines-request :
        All IsVisible path
        → path ≢ []
        → All IsSendable hs
        → length hs ≤ max_headers
        → parse_lines hp (line ∷ header_lines hs) body ≡ ok request
    unfolding parse_lines request_parts
    parse_lines-request h ne k room = rw (words h ne) (
        rw ((try_from_str_iff (Method.as_str method) method).1 refl)
          (rw (collect_lines-header_lines [] hs k (omega arith)) refl))

    try_from-request :
        All IsVisible path
        → path ≢ []
        → All IsOneLine hs
        → length hs ≤ max_headers
        → try_from hp (head ++ (double_crlf ++ body)) ≡ ok request
    unfolding try_from parse_from find_double_crlf
    try_from-request h ne k room =
        let ascii : All IsAsciiLine (line ∷ header_lines hs) =
          (request_line-IsAsciiLine method path h, header_lines-IsAsciiLine hs (sendable hs k)) in
        let cut : lines head ≡ line ∷ header_lines hs = lines-joined line (header_lines hs) (
          (
            All_imp IsPrinted _ line (λ b v. omega arith) (request_line-IsPrinted method path h),
            request_line_ne_nil method path,
          ),
          header_lines-one hs k,
        ) in
        rw
          (find_double_crlf-joined line (header_lines hs) body
            (lines_of_All (line ∷ header_lines hs) ascii))
          (rw (take_append head (double_crlf ++ body) (length head) refl) (
            rw (from_utf8_ascii head (IsAscii-joined line (header_lines hs) ascii)) (
              rw (drop-append_add head (double_crlf ++ body) (length head + 4) 4 refl)
                (rw cut (parse_lines-request h ne (sendable hs k) room)))))

-- The request and its body, cut into lines.
abbrev pub body_bytes : Option Bytes → Bytes
body_bytes none = []
body_bytes (some b) = b

render_auto-headers :
    (headers : List HttpHeader) (body : Option Bytes)
    → render_auto headers body ≡ render_headers (length_headers headers body)
render_auto-headers headers body =
    elim (Bool-cases (not (is_some (find_header content_length_name headers)) && is_some body)) [
      | inl added ↦ rw added
      | inr absent ↦ rw absent
    ]

rendered :
    (m path host hs auto body : Bytes)
    → ((m
            ++ (codes " "
                ++ (path ++ (http_version_line_suffix ++ (codes "Host: " ++ (host ++ crlf))))))
          ++ (hs ++ (auto ++ codes "Connection: close\r\n\r\n")))
        ++ body
      ≡ (m ++ (b' ' ∷ (path ++ (b' ' ∷ codes "HTTP/1.1"))))
        ++ (crlf
            ++ ((codes "Host: "
                  ++ (host ++ (crlf ++ (hs ++ (auto ++ codes "Connection: close\r\n")))))
                ++ (crlf ++ body)))
rendered m path host hs auto body = simp append_assoc

module _ (hp : Heapless) (rq : ℕ) (method : HttpMethod) (host path : Bytes)
    (headers : List HttpHeader) (body : Option Bytes) where
  abbrev all_headers : List HttpHeader
  all_headers = request_headers host headers body

  pub render_req-joined :
      render_req method host path headers body ++ body_bytes body
      ≡ joined (request_line method path) (header_lines all_headers)
        ++ (double_crlf ++ body_bytes body)
  render_req-joined = rw (render_auto-headers headers body) (
      rendered (Method.as_str method) path host (render_headers headers)
        (render_headers (length_headers headers body)) (body_bytes body)
      ∙ ap
          (λ hs.
            request_line method path
            ++ (crlf ++ ((codes "Host: " ++ (host ++ (crlf ++ hs))) ++ (crlf ++ body_bytes body))))
          (sym (
            render_headers-append headers (length_headers headers body ++ close_header ∷ [])
            ∙ ap (λ w. render_headers headers ++ w)
                (render_headers-append (length_headers headers body) (close_header ∷ []))))
      ∙ render_headers-joined (request_line method path) all_headers (body_bytes body))

  -- A request that fits its buffer, with a path of visible characters, and a host and headers of
  -- plain names and trimmed plain values without line breaks, at most sixteen with those that are
  -- added, is written; and from the written bytes with the body behind them, a body of less than
  -- 10 ^ 8 bytes, the server reads the same method, path, headers in order, and body.
  pub build_req-try_from :
      All IsVisible path
      → path ≢ []
      → IsOneLine (new_header (codes "Host") host)
      → All IsOneLine headers
      → length (request_headers host headers body) ≤ max_headers
      → body_length body < 10 ^ 8
      → length (render_req method host path headers body) ≤ rq
      → (bytes : Bytes) × (build_req hp rq method host path headers body ≡ ok bytes)
        × (try_from hp (bytes ++ body_bytes body)
            ≡ ok (record {
              method = method;
              path = path;
              version = codes "HTTP/1.1";
              headers = request_headers host headers body;
              body = body_bytes body;
            }))
  build_req-try_from h ne hk k room small fits = (
    render_req method host path headers body,
    build_req_lem hp rq method host path headers body small
        ∙ rw (le→leb (length (render_req method host path headers body)) rq fits),
    ap (try_from hp) render_req-joined
        ∙ try_from-request hp method path (body_bytes body) all_headers h ne
            (request_headers-IsOneLine host headers body hk k) room,
  )
