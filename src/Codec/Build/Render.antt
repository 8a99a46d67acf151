-- ===== src/Codec/Build/Render.antt =====
-- The bytes of a request, as appends of lists, and that `build_req` writes them, or fails exactly
-- where they do not fit.
use nanofish.Codec.Build.{
  body_length, try_push, push_request_line, push_headers, push_length, push_auto_length, build_req,
}
use nanofish.Header.{HttpHeader, content_length_name}
use nanofish.Heapless.{Heapless}
use nanofish.Method
use nanofish.Method.{HttpMethod}
use nanofish.Prelude.{
  ℕ, ◌+◌, ◌≤◌, ◌<◌, ◌^◌, inl, inr, Bool, false, not, ◌&&◌, ◌||◌, List, [], ◌∷◌, ◌++◌, Option, ◌≡◌,
  sym, ap, ◌∙◌, fun_ext, leb, le→leb, if◌then◌else◌, Bytes, length, arith, Bool-cases, is_some,
  codes,
}
use nanofish.Protocol.{http_version_line_suffix, crlf, header_separator, connection_close_end}
use nanofish.Response.Write.Decimal.{decimal}
use nanofish.Response.Write.Put.{put, put-nil, put-bind, put-bind_then}
use nanofish.Response.Write.Render.{render_headers, render_length, flag}
use nanofish.Response.{find_header}
use nanofish.Result.{Result, ok, err, ◌>>=◌, buffer_overflow, >>=-assoc}
use nanofish.Text.Case.{eq_ignore_case}
use nanofish.Text.Number.Print.{length-print_radix}

abbrev pub render_request_line : HttpMethod → Bytes → Bytes → Bytes
render_request_line method host path =
    Method.as_str method
    ++ (codes " " ++ (path ++ (http_version_line_suffix ++ (codes "Host: " ++ (host ++ crlf)))))

-- A `Content-Length` is added to a request with a body, also an empty one, that has none.
abbrev pub render_auto : List HttpHeader → Option Bytes → Bytes
render_auto headers body =
    if not (is_some (find_header content_length_name headers)) && is_some body
    then render_length (body_length body)
    else []

abbrev pub render_req : HttpMethod → Bytes → Bytes → List HttpHeader → Option Bytes → Bytes
render_req method host path headers body =
    render_request_line method host path
    ++ (render_headers headers ++ (render_auto headers body ++ connection_close_end))

module _ (hp : Heapless) (n : ℕ) where
  try_push_lem : (v s : Bytes) → try_push hp n v s ≡ put n v s
  unfolding try_push
  try_push_lem v s = rw (hp.push_str_lem n v s) (ground arith)

  push_request_line_lem :
      (v : Bytes) (method : HttpMethod) (host path : Bytes)
      → push_request_line hp n v method host path ≡ put n v (render_request_line method host path)
  unfolding push_request_line
  push_request_line_lem v method host path =
      let ends = host ++ crlf in
      let named = http_version_line_suffix ++ (codes "Host: " ++ ends) in
      rw (try_push_lem v (Method.as_str method)) (
        put-bind n v (Method.as_str method) (codes " " ++ (path ++ named)) _ λ w k.
          rw (try_push_lem w (codes " ")) (
            put-bind n w (codes " ") (path ++ named) _ λ w k. rw (try_push_lem w path) (
              put-bind n w path named _ λ w k. rw (try_push_lem w http_version_line_suffix) (
                put-bind n w http_version_line_suffix (codes "Host: " ++ ends) _ λ w k.
                  rw (try_push_lem w (codes "Host: ")) (
                    put-bind n w (codes "Host: ") ends _ λ w k.
                      rw (try_push_lem w host)
                        (put-bind n w host crlf _ λ w k. try_push_lem w crlf))))))

  push_headers_lem :
      (v : Bytes) (has : Bool) (hs : List HttpHeader)
      → length v ≤ n
      → push_headers hp n v has hs ≡ (
          put n v (render_headers hs) >>= λ w.
          ok (w, has || is_some (find_header content_length_name hs)))
  unfolding push_headers find_header
  push_headers_lem v has [] h = rw (put-nil n v h) (ap (λ b. ok (v, b)) (ground arith))
  push_headers_lem v has (h ∷ hs) fits =
      let later = render_headers hs in
      let k : Bytes → Result (Bytes × Bool) =
        λ w. ok (w, has || is_some (find_header content_length_name (h ∷ hs))) in
      rw (try_push_lem v h.name) (
        put-bind_then n v h.name (header_separator ++ (h.value ++ (crlf ++ later))) _ k λ w fits.
          rw (try_push_lem w header_separator) (
            put-bind_then n w header_separator (h.value ++ (crlf ++ later)) _ k λ w fits.
              rw (try_push_lem w h.value) (
                put-bind_then n w h.value (crlf ++ later) _ k λ w fits. rw (try_push_lem w crlf) (
                  put-bind_then n w crlf later _ k λ w fits.
                    push_headers_lem w _ hs fits
                    ∙ ap (λ (f : Bytes → Result (Bytes × Bool)). put n w (render_headers hs) >>= f)
                        (fun_ext λ u.
                          ap (λ b. ok (u, b))
                            (flag (eq_ignore_case h.name content_length_name) has _ h.value))))))

module _ (hp : Heapless) (n : ℕ) where
  -- The `String<8>` of a body's length holds eight digits.
  length_text : (len : ℕ) → len < 10 ^ 8 → try_push hp 8 [] (decimal len) ≡ ok (decimal len)
  length_text len h =
      try_push_lem hp 8 [] (decimal len)
      ∙ rw (le→leb (0 + length (decimal len)) 8 (omega (arith, length-print_radix 7 len h)))

  push_length_lem :
      (v : Bytes) (len : ℕ) → len < 10 ^ 8 → push_length hp n v len ≡ put n v (render_length len)
  unfolding push_length
  push_length_lem v len h = rw (try_push_lem hp n v content_length_name) (
      put-bind n v content_length_name (header_separator ++ (decimal len ++ crlf)) _ λ w fits.
        rw (try_push_lem hp n w header_separator) (
          put-bind n w header_separator (decimal len ++ crlf) _ λ w fits. rw (length_text len h) (
            rw (try_push_lem hp n w (decimal len))
              (put-bind n w (decimal len) crlf _ λ w fits. try_push_lem hp n w crlf))))

  push_auto_length_lem :
      (v : Bytes) (has : Bool) (body : Option Bytes)
      → body_length body < 10 ^ 8
      → length v ≤ n
      → push_auto_length hp n v has body
        ≡ put n v (if not has && is_some body then render_length (body_length body) else [])
  unfolding push_auto_length
  push_auto_length_lem v has body h fits = elim (Bool-cases (not has && is_some body)) [
    | inl added ↦ rw added (push_length_lem v (body_length body) h)
    | inr absent ↦ rw absent (sym (put-nil n v fits))
  ]

  build_req-put :
      (method : HttpMethod) (host path : Bytes) (headers : List HttpHeader) (body : Option Bytes)
      → body_length body < 10 ^ 8
      → build_req hp n method host path headers body
        ≡ put n [] (render_req method host path headers body)
  unfolding build_req
  build_req-put method host path headers body h =
      rw (push_request_line_lem hp n [] method host path) (
        put-bind n [] (render_request_line method host path) _ _ λ w fits.
          rw (push_headers_lem hp n w false headers fits) (
            >>=-assoc (put n w (render_headers headers)) _ _
            ∙ put-bind n w (render_headers headers) _ _ λ w fits.
              rw (push_auto_length_lem w _ body h fits) (
                put-bind n w _ connection_close_end _
                  λ w fits. try_push_lem hp n w connection_close_end)))

  -- A request whose body is shorter than 10 ^ 8 bytes, which is the most that the text of eight
  -- digits can state, is written whole, or refused because it does not fit in the buffer of `n`
  -- bytes.
  pub build_req_lem :
      (method : HttpMethod) (host path : Bytes) (headers : List HttpHeader) (body : Option Bytes)
      → body_length body < 10 ^ 8
      → build_req hp n method host path headers body ≡ (
          if leb (length (render_req method host path headers body)) n
          then ok (render_req method host path headers body)
          else err buffer_overflow)
  build_req_lem method host path headers body h =
      build_req-put method host path headers body h
      ∙ ap
          (λ i.
            if leb i n then ok (render_req method host path headers body) else err buffer_overflow)
          (omega arith)
