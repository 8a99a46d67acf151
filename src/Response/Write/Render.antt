-- ===== src/Response/Write/Render.antt =====
-- The bytes of a response, as appends of lists, and that the writers of src/response.rs write
-- them, or fail exactly where they do not fit.
use nanofish.Header.{HttpHeader, content_length_name}
use nanofish.Heapless.{Heapless}
use nanofish.Prelude.{
  ℕ, ◌^◌, ◌≤◌, ◌<◌, inl, inr, Bool, true, false, not, ◌&&◌, ◌||◌, List, [], ◌∷◌, ◌++◌, ◌≡◌, sym, ap,
  ◌∙◌, fun_ext, leb, if◌then◌else◌, Bytes, length, arith, Bool-cases, is_some, is_empty, some,
  Option,
}
use nanofish.Protocol.{crlf, header_separator, http_version_prefix}
use nanofish.Response.Write.Decimal.{decimal, write_decimal_to_buffer_lem}
use nanofish.Response.Write.Put.{
  put, put-nil, put-bind, put-bind_then, push_slice_lem, push_byte_lem,
}
use nanofish.Response.Write.{
  write_status_line, write_headers, write_length, write_auto_length, write_head_bytes, build_bytes,
  build_head_bytes,
}
use nanofish.Response.{HttpResponse, find_header, as_bytes}
use nanofish.Result.{Result, ok, err, ◌>>=◌, buffer_overflow, >>=-assoc}
use nanofish.StatusCode
use nanofish.StatusCode.{StatusCode}
use nanofish.Text.Case.{eq_ignore_case}

abbrev pub render_status : StatusCode → Bytes
render_status s =
    http_version_prefix ++ (decimal (StatusCode.as_u16 s) ++ (b' ' ∷ (StatusCode.text s ++ crlf)))

abbrev pub render_headers : List HttpHeader → Bytes
render_headers [] = []
render_headers (h ∷ hs) = h.name ++ (header_separator ++ (h.value ++ (crlf ++ render_headers hs)))

abbrev pub render_length : ℕ → Bytes
render_length len = content_length_name ++ (header_separator ++ (decimal len ++ crlf))

abbrev pub render_auto : Bool → Bytes → Bytes
render_auto wanted body = if wanted && not (is_empty body) then render_length (length body) else []

-- A `Content-Length` is added to a response with a body that has none.
abbrev pub render_head : Bool → HttpResponse → Bytes
render_head auto r =
    render_status r.status_code
    ++ (render_headers r.headers
        ++ (render_auto (auto && not (is_some (find_header content_length_name r.headers)))
              (as_bytes r.body)
            ++ crlf))

abbrev pub render : HttpResponse → Bytes
render r = render_head true r ++ as_bytes r.body

pub flag :
    (named has : Bool) (later : Option Bytes) (value : Bytes)
    → ((if named then true else has) || is_some later)
      ≡ (has || is_some (if named then some value else later))
flag named has later value = ground arith

module _ (hp : Heapless) (n : ℕ) where
  write_status_line_lem :
      (v : Bytes) (s : StatusCode)
      → StatusCode.as_u16 s < 10 ^ 10
      → write_status_line hp n v s ≡ put n v (render_status s)
  unfolding write_status_line
  write_status_line_lem v s h = rw (push_slice_lem hp n v http_version_prefix) (
      put-bind n v http_version_prefix _ _ λ w k.
        rw (write_decimal_to_buffer_lem hp n w (StatusCode.as_u16 s) h k) (
          put-bind n w (decimal (StatusCode.as_u16 s)) _ _ λ w k. rw (push_byte_lem hp n w b' ') (
            put-bind n w (b' ' ∷ []) _ _ λ w k.
              rw (push_slice_lem hp n w (StatusCode.text s))
                (put-bind n w (StatusCode.text s) _ _ λ w k. push_slice_lem hp n w crlf))))

  write_headers_lem :
      (v : Bytes) (has : Bool) (hs : List HttpHeader)
      → length v ≤ n
      → write_headers hp n v has hs ≡ (
          put n v (render_headers hs) >>= λ w.
          ok (w, has || is_some (find_header content_length_name hs)))
  unfolding write_headers find_header
  write_headers_lem v has [] h = rw (put-nil n v h) (ap (λ b. ok (v, b)) (ground arith))
  write_headers_lem v has (h ∷ hs) fits =
      let later = render_headers hs in
      let k : Bytes → Result (Bytes × Bool) =
        λ w. ok (w, has || is_some (find_header content_length_name (h ∷ hs))) in
      rw (push_slice_lem hp n v h.name) (
        put-bind_then n v h.name (header_separator ++ (h.value ++ (crlf ++ later))) _ k λ w fits.
          rw (push_slice_lem hp n w header_separator) (
            put-bind_then n w header_separator (h.value ++ (crlf ++ later)) _ k λ w fits.
              rw (push_slice_lem hp n w h.value) (
                put-bind_then n w h.value (crlf ++ later) _ k λ w fits.
                  rw (push_slice_lem hp n w crlf) (
                    put-bind_then n w crlf later _ k λ w fits.
                      write_headers_lem w _ hs fits
                      ∙ ap
                          (λ (f : Bytes → Result (Bytes × Bool)). put n w (render_headers hs) >>= f)
                          (fun_ext λ u.
                            ap (λ b. ok (u, b))
                              (flag (eq_ignore_case h.name content_length_name) has _ h.value))))))

  write_length_lem :
      (v : Bytes) (len : ℕ) → len < 10 ^ 10 → write_length hp n v len ≡ put n v (render_length len)
  unfolding write_length
  write_length_lem v len h = rw (push_slice_lem hp n v content_length_name) (
      put-bind n v content_length_name (header_separator ++ (decimal len ++ crlf)) _ λ w fits.
        rw (push_slice_lem hp n w header_separator) (
          put-bind n w header_separator (decimal len ++ crlf) _ λ w fits.
            rw (write_decimal_to_buffer_lem hp n w len h fits)
              (put-bind n w (decimal len) crlf _ λ w fits. push_slice_lem hp n w crlf)))

  write_auto_length_lem :
      (v : Bytes) (wanted : Bool) (body : Bytes)
      → length body < 10 ^ 10
      → length v ≤ n
      → write_auto_length hp n v wanted body ≡ put n v (render_auto wanted body)
  unfolding write_auto_length
  write_auto_length_lem v wanted body h fits = elim (Bool-cases (wanted && not (is_empty body))) [
    | inl yes_auto ↦ rw yes_auto (write_length_lem v (length body) h)
    | inr no_auto ↦ rw no_auto (sym (put-nil n v fits))
  ]

  write_head_bytes_lem :
      (v : Bytes) (auto : Bool) (r : HttpResponse)
      → StatusCode.as_u16 r.status_code < 10 ^ 10
      → length (as_bytes r.body) < 10 ^ 10
      → write_head_bytes hp n v auto r ≡ put n v (render_head auto r)
  unfolding write_head_bytes
  write_head_bytes_lem v auto r h k = rw (write_status_line_lem v r.status_code h) (
      put-bind n v (render_status r.status_code) _ _ λ w fits.
        rw (write_headers_lem w false r.headers fits) (
          >>=-assoc (put n w (render_headers r.headers)) _ _
          ∙ put-bind n w (render_headers r.headers) _ _ λ w fits.
            rw (write_auto_length_lem w _ (as_bytes r.body) k fits)
              (put-bind n w _ crlf _ λ w fits. push_slice_lem hp n w crlf)))

  -- A response is written whole, or refused because it does not fit in the buffer of `n` bytes.
  -- The status code is a `u16`, and the body is shorter than 10 ^ 10 bytes, which is the most that
  -- the array of ten digits can state.
  pub build_bytes_lem :
      (r : HttpResponse)
      → StatusCode.as_u16 r.status_code < 2 ^ 16
      → length (as_bytes r.body) < 10 ^ 10
      → build_bytes hp n r
        ≡ (if leb (length (render r)) n then ok (render r) else err buffer_overflow)
  unfolding build_bytes
  build_bytes_lem r h k = rw (write_head_bytes_lem [] true r (omega arith) k) (
      put-bind n [] (render_head true r) (as_bytes r.body) _ (λ w fits. push_slice_lem hp n w _)
      ∙ ap (λ i. if leb i n then ok (render r) else err buffer_overflow) (omega arith))

  -- The head of a response is written whole, with no length added to its headers, or refused
  -- because it does not fit in the buffer of `n` bytes; the status code is a `u16` and the body is
  -- shorter than 10 ^ 10 bytes.
  pub build_head_bytes_lem :
      (r : HttpResponse)
      → StatusCode.as_u16 r.status_code < 2 ^ 16
      → length (as_bytes r.body) < 10 ^ 10
      → build_head_bytes hp n r ≡ (
          if leb (length (render_head false r)) n
          then ok (render_head false r)
          else err buffer_overflow)
  unfolding build_head_bytes
  build_head_bytes_lem r h k =
      write_head_bytes_lem [] false r (omega arith) k
      ∙ ap (λ i. if leb i n then ok (render_head false r) else err buffer_overflow) (omega arith)
