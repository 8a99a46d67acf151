-- ===== src/Wire/Declared.antt =====
-- The length that a written request declares, as the server reads it.
use nanofish.Codec.Framing.{content_length}
use nanofish.Codec.Parse.Joined.{joined, split_crlf-joined, find_double_crlf-joined}
use nanofish.Codec.Parse.Lines.{IsAsciiLine, IsAscii-joined, lines_of_All, Lacks-of_All}
use nanofish.Header.{HttpHeader, new_header, content_length_name}
use nanofish.Method
use nanofish.Method.{HttpMethod}
use nanofish.Prelude.{
  ℕ, ◌≤◌, ◌≢◌, inl, inr, List, [], ◌∷◌, ◌++◌, Option, none, some, ◌≡◌, refl, ap, ◌∙◌, Bytes, length,
  take_append, length-append, and_then, arith, All, All-append, Bool-cases, codes,
}
use nanofish.Protocol.{
  double_crlf, find_double_crlf, find_header_value, header_value_in, split_header, value_if_named,
}
use nanofish.Response.{find_header}
use nanofish.Server.Framed.{Framed, body_size}
use nanofish.Text.Case.{eq_ignore_case}
use nanofish.Text.Number.Print.{from_str_radix-print_radix}
use nanofish.Text.Number.{parse_uint}
use nanofish.Text.Space.Plain.{IsVisible}
use nanofish.Text.Split.Plain.{Lacks}
use nanofish.Text.Split.{find_byte}
use nanofish.Text.Utf8.{from_utf8_ascii}
use nanofish.Wire.Lines.{
  IsSendable, header_lines, header_lines-IsAsciiLine, split_header-header_line,
}
use nanofish.Wire.Request.{body_bytes}
use nanofish.Wire.Sent.{
  length_headers, close_header, request_headers, request_line, IsOneLine, sendable,
  request_line-IsAsciiLine, request_headers-IsOneLine,
}

pub find_byte-none : (c : ℕ) (s : Bytes) → Lacks c s → find_byte c s ≡ none
unfolding find_byte
find_byte-none c [] h = refl
find_byte-none c (a ∷ s) (h, hs) = ground (arith, find_byte-none c s hs)

-- In written headers a value is found where the headers have it.
pub header_value_in-header_lines :
    (name : Bytes) (hs : List HttpHeader)
    → All IsSendable hs
    → header_value_in name (header_lines hs) ≡ find_header name hs
unfolding header_value_in value_if_named find_header
header_value_in-header_lines name [] k = refl
header_value_in-header_lines name (h ∷ hs) k =
    rw (split_header-header_line h k.0, header_value_in)
      (elim (Bool-cases (eq_ignore_case h.name name)) [
        | inl here ↦ rw here refl
        | inr later ↦ rw later (header_value_in-header_lines name hs k.1)
      ])

as_str-Lacks : (m : HttpMethod) → Lacks b':' (Method.as_str m)
unfolding Method.as_str
as_str-Lacks HttpMethod.get = omega arith
as_str-Lacks _ = omega arith

-- The first line is no header.
request_line-Lacks :
    (method : HttpMethod) (path : Bytes) → Lacks b':' path → Lacks b':' (request_line method path)
request_line-Lacks method path h =
    All-append (λ b. b ≢ b':') (Method.as_str method) _ (as_str-Lacks method)
      (omega arith, All-append (λ b. b ≢ b':') path _ h (omega arith))

pub find_header-append :
    (name : Bytes) (hs ks : List HttpHeader)
    → find_header name hs ≡ none
    → find_header name (hs ++ ks) ≡ find_header name ks
unfolding find_header
find_header-append name [] ks h = refl
find_header-append name (k ∷ hs) ks h = elim (Bool-cases (eq_ignore_case k.name name)) [
  | inl here ↦ let no : some k.value ≡ none = rw (here, find_header) at h in cc
  | inr later ↦ rw later (find_header-append name hs ks (rw (later, find_header) at h))
]

-- What a request without a length of the caller's declares.
abbrev pub declared : Option Bytes → Option ℕ
declared none = none
declared (some body) = some (length body)

declared_length :
    (usize_max : ℕ) (host : Bytes) (headers : List HttpHeader) (body : Option Bytes)
    → find_header content_length_name headers ≡ none
    → length (body_bytes body) ≤ usize_max
    → and_then
        (find_header content_length_name (request_headers host headers body))
        (parse_uint usize_max)
      ≡ declared body
unfolding find_header eq_ignore_case
declared_length usize_max host headers none h k =
    rw
      (find_header-append content_length_name headers
        (length_headers headers none ++ close_header ∷ []) h)
      (rw h refl)
declared_length usize_max host headers (some body) h k =
    rw
      (find_header-append content_length_name headers
        (length_headers headers (some body) ++ close_header ∷ []) h)
      (rw h (from_str_radix-print_radix 10 usize_max (length body) (omega arith) (omega arith) k))

module _ (usize_max : ℕ) (method : HttpMethod) (host path : Bytes) (headers : List HttpHeader)
    (body : Option Bytes) where
  abbrev pub sent_lines : List Bytes
  sent_lines = header_lines (request_headers host headers body)

  abbrev pub head : Bytes
  head = joined (request_line method path) sent_lines

  content_length-head :
      All IsAsciiLine (request_line method path ∷ sent_lines)
      → All IsSendable (request_headers host headers body)
      → Lacks b':' path
      → find_header content_length_name headers ≡ none
      → length (body_bytes body) ≤ usize_max
      → content_length usize_max head ≡ declared body
  unfolding content_length find_header_value header_value_in value_if_named split_header
  content_length-head lines k p h l =
      rw (from_utf8_ascii head (IsAscii-joined (request_line method path) sent_lines lines)) (
        rw
          (split_crlf-joined (request_line method path) sent_lines
            (Lacks-of_All (request_line method path ∷ sent_lines) lines))
          (rw
            (
              find_byte-none b':' (request_line method path) (request_line-Lacks method path p),
              split_header,
            )
            (ap (λ o. and_then o (parse_uint usize_max))
                (header_value_in-header_lines content_length_name
                  (request_headers host headers body) k)
              ∙ declared_length usize_max host headers body h l)))

  body_size-declared : (b : Option Bytes) → body_size (declared b) ≡ length (body_bytes b)
  body_size-declared none = refl
  body_size-declared (some b) = refl

  -- A request on the wire is in its frame: the server reads from its head the length of its body.
  pub request-Framed :
      All IsVisible path
      → Lacks b':' path
      → IsOneLine (new_header (codes "Host") host)
      → All IsOneLine headers
      → find_header content_length_name headers ≡ none
      → length (head ++ (double_crlf ++ body_bytes body)) ≤ usize_max
      → Framed usize_max (head ++ (double_crlf ++ body_bytes body))
  unfolding find_double_crlf
  request-Framed v p hk k h small =
      let size = length-append head (double_crlf ++ body_bytes body) in
      let all_headers = request_headers host headers body in
      let sent = sendable all_headers (request_headers-IsOneLine host headers body hk k) in
      let lines : All IsAsciiLine (request_line method path ∷ sent_lines) =
        (request_line-IsAsciiLine method path v, header_lines-IsAsciiLine all_headers sent) in
      record {
        hdr_end = length head;
        declared = declared body;
        found =
            find_double_crlf-joined (request_line method path) sent_lines (body_bytes body)
              (lines_of_All (request_line method path ∷ sent_lines) lines);
        declares =
            ap (content_length usize_max)
              (take_append head (double_crlf ++ body_bytes body) (length head) refl)
            ∙ content_length-head lines sent p h (omega (arith, size, small));
        sized = omega (arith, size, body_size-declared body);
        small = small;
      }
