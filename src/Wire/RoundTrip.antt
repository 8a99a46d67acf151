-- ===== src/Wire/RoundTrip.antt =====
-- What the server writes, the client reads.
use nanofish.Codec.Parse.Body.{as_bytes-parse_body}
use nanofish.Codec.Parse.Joined.{joined}
use nanofish.Codec.Parse.Lines.{parse_resp-joined, parse_resp_no_header}
use nanofish.Codec.Parse.{parse_resp, parse_body}
use nanofish.Header.{HttpHeader, new_header, content_length_name}
use nanofish.Heapless.{Heapless}
use nanofish.Prelude.{
  ℕ, ◌^◌, ◌≤◌, ◌<◌, ◌≢◌, not, ◌&&◌, List, [], ◌∷◌, ◌++◌, ◌≡◌, refl, sym, ap, ◌∙◌, if◌then◌else◌,
  Bytes, length, arith, All, All-append, is_some, is_empty, append_assoc, le→leb, Bool-cases, inl,
  inr,
}
use nanofish.Protocol.{crlf, double_crlf, max_headers, http_version_prefix}
use nanofish.Response.Write.Decimal.{decimal}
use nanofish.Response.Write.Render.{render, render_headers, render_auto, build_bytes_lem}
use nanofish.Response.Write.{build_bytes}
use nanofish.Response.{HttpResponse, ResponseBody, as_bytes, find_header}
use nanofish.Result.{ok, panic}
use nanofish.StatusCode
use nanofish.StatusCode.Laws.{IsCanonical, as_u16-lt}
use nanofish.Text.Number.Print.{IsDigit, print_radix-IsDigit}
use nanofish.Text.Space.Plain.{IsVisible, trim_of_All}
use nanofish.Wire.Lines.{
  All_imp, status_line, header_line, header_lines, IsSendable, status_line-IsAsciiLine,
  header_lines-IsAsciiLine, status_of_line-status_line, collect_headers-header_lines,
  render_headers-joined,
}

-- The header that the writer adds: the length of a body that is stated by no other header.
abbrev pub auto_headers : HttpResponse → List HttpHeader
auto_headers r =
    if not (is_some (find_header content_length_name r.headers)) && not (is_empty (as_bytes r.body))
    then new_header content_length_name (decimal (length (as_bytes r.body))) ∷ []
    else []

abbrev pub sent_headers : HttpResponse → List HttpHeader
sent_headers r = r.headers ++ auto_headers r

pub render_headers-append :
    (hs ks : List HttpHeader) → render_headers (hs ++ ks) ≡ render_headers hs ++ render_headers ks
render_headers-append [] ks = refl
render_headers-append (h ∷ hs) ks = rw (render_headers-append hs ks) (simp append_assoc)

render_auto-headers :
    (r : HttpResponse)
    → render_auto (not (is_some (find_header content_length_name r.headers))) (as_bytes r.body)
      ≡ render_headers (auto_headers r)
render_auto-headers r =
    elim (Bool-cases (
      not (is_some (find_header content_length_name r.headers))
      && not (is_empty (as_bytes r.body)))) [ inl added ↦ rw added | inr absent ↦ rw absent ]

rendered :
    (p d t hs auto body : Bytes)
    → (p ++ (d ++ (b' ' ∷ (t ++ crlf))) ++ (hs ++ (auto ++ crlf))) ++ body
      ≡ (p ++ (d ++ (b' ' ∷ t))) ++ (crlf ++ ((hs ++ auto) ++ (crlf ++ body)))
rendered p d t hs auto body = simp append_assoc

-- The bytes of a response are its lines, an empty line, and the body.
pub render-joined :
    (r : HttpResponse)
    → render r
      ≡ joined (status_line r.status_code) (header_lines (sent_headers r))
        ++ (double_crlf ++ as_bytes r.body)
render-joined r = rw (render_auto-headers r) (
    rendered http_version_prefix (decimal (StatusCode.as_u16 r.status_code))
      (StatusCode.text r.status_code) (render_headers r.headers) (render_headers (auto_headers r))
      (as_bytes r.body)
    ∙ ap (λ h. status_line r.status_code ++ (crlf ++ (h ++ (crlf ++ as_bytes r.body))))
        (sym (render_headers-append r.headers (auto_headers r)))
    ∙ render_headers-joined (status_line r.status_code) (sent_headers r) (as_bytes r.body))

pub auto_length-IsSendable : (n : ℕ) → IsSendable (new_header content_length_name (decimal n))
auto_length-IsSendable n =
    let digits = print_radix-IsDigit 10 (omega arith) (omega arith) n in
    record {
      named = cc;
      name_visible = omega arith;
      name_no_colon = omega arith;
      value_plain = All_imp IsDigit _ (decimal n) (λ b d. omega arith) digits;
      value_trimmed =
          trim_of_All (decimal n) (All_imp IsDigit IsVisible _ (λ b d. omega arith) digits);
    }

pub auto_headers-IsSendable : (r : HttpResponse) → All IsSendable (auto_headers r)
auto_headers-IsSendable r =
    elim (Bool-cases (
      not (is_some (find_header content_length_name r.headers))
      && not (is_empty (as_bytes r.body)))) [
        | inl added ↦ rw added (auto_length-IsSendable (length (as_bytes r.body)), tt)
        | inr absent ↦ rw absent tt
      ]

module _ (hp : Heapless) (n : ℕ) (r : HttpResponse) where
  build_bytes-fits :
      IsCanonical r.status_code
      → length (as_bytes r.body) < 10 ^ 10
      → length (render r) ≤ n
      → build_bytes hp n r ≡ ok (render r)
  build_bytes-fits c b fits =
      build_bytes_lem hp n r (omega (arith, as_u16-lt r.status_code c)) b
      ∙ rw (le→leb (length (render r)) n fits)

  parse_resp-render :
      (hs : List HttpHeader)
      → hs ≢ []
      → hs ≡ sent_headers r
      → IsCanonical r.status_code
      → All IsSendable hs
      → length hs ≤ max_headers
      → parse_resp hp (render r)
        ≡ ok (record {
          status_code = r.status_code;
          headers = hs;
          body = parse_body hs (as_bytes r.body);
        })
  parse_resp-render [] ne e c k room = absurd (ne refl)
  parse_resp-render (h ∷ hs) ne e c k room =
      let line = status_line r.status_code in
      let collected = collect_headers-header_lines hp [] (h ∷ hs) k (omega arith) in
      ap (parse_resp hp) (render-joined r)
      ∙ ap (λ ks. parse_resp hp (joined line (header_lines ks) ++ (double_crlf ++ as_bytes r.body)))
          (sym e)
      ∙ parse_resp-joined hp line (as_bytes r.body) (header_line h) (header_lines hs)
          (status_line-IsAsciiLine r.status_code, header_lines-IsAsciiLine (h ∷ hs) k)
      ∙ rw (status_of_line-status_line r.status_code c) (rw collected)

  -- A response that fits its buffer, whose status is a named one or a `u16` that names none, whose
  -- headers have plain names without a colon and trimmed plain values, with at least one and at
  -- most sixteen of them, the added `Content-Length` included, and whose body is shorter than 10 ^
  -- 10 bytes, is written; and the client reads from the written bytes the same status, these
  -- headers in order, and a body of the same bytes.
  pub build_bytes-parse_resp :
      IsCanonical r.status_code
      → All IsSendable r.headers
      → sent_headers r ≢ []
      → length (sent_headers r) ≤ max_headers
      → length (as_bytes r.body) < 10 ^ 10
      → length (render r) ≤ n
      → (bytes : Bytes) × (body : ResponseBody) × (build_bytes hp n r ≡ ok bytes)
        × (parse_resp hp bytes
            ≡ ok (record { status_code = r.status_code; headers = sent_headers r; body = body }))
        × (as_bytes body ≡ as_bytes r.body)
  build_bytes-parse_resp c k ne room b fits = (
    render r,
    parse_body (sent_headers r) (as_bytes r.body),
    build_bytes-fits c b fits,
    parse_resp-render (sent_headers r) ne refl c
        (All-append IsSendable r.headers (auto_headers r) k (auto_headers-IsSendable r)) room,
    as_bytes-parse_body (sent_headers r) (as_bytes r.body),
  )

  -- A response with neither headers nor a body that fits its buffer and whose status is a named
  -- one or a `u16` that names none is written as well, and the client panics on the written bytes.
  pub build_bytes-parse_resp_panic :
      IsCanonical r.status_code
      → r.headers ≡ []
      → as_bytes r.body ≡ []
      → length (render r) ≤ n
      → (bytes : Bytes) × (build_bytes hp n r ≡ ok bytes) × (parse_resp hp bytes ≡ panic)
  unfolding find_header
  build_bytes-parse_resp_panic c h b fits =
      let line = status_line r.status_code in
      let alone : render r ≡ line ++ (double_crlf ++ []) = render-joined r ∙ rw (h, b) in
      (
        render r,
        build_bytes-fits c (omega (arith, ap length b)) fits,
        ap (parse_resp hp) alone
            ∙ parse_resp_no_header hp line [] (status_line-IsAsciiLine r.status_code)
            ∙ rw (status_of_line-status_line r.status_code c),
      )
