-- ===== src/Wire/Stated.antt =====
-- The length that a written response declares, as the client reads it.
use mathlib.Core.Path.{subst}
use nanofish.Client.Framed.{Framed}
use nanofish.Codec.Framing.{chunked_header, content_length}
use nanofish.Codec.Parse.Joined.{joined, split_crlf-joined, find_double_crlf-joined}
use nanofish.Codec.Parse.Lines.{IsAsciiLine, IsAscii-joined, lines_of_All, Lacks-of_All}
use nanofish.Header.{HttpHeader, new_header, content_length_name}
use nanofish.Prelude.{
  ℕ, ◌+◌, ◌≤◌, ◌<◌, ◌≢◌, false, List, [], ◌∷◌, ◌++◌, none, some, ◌≡◌, refl, sym, ap, ◌∙◌, Bytes,
  length, take, take-append_add, append_assoc, length-append, and_then, arith, All, All-append,
}
use nanofish.Protocol.{
  crlf, double_crlf, find_double_crlf, find_header_value, header_value_in, split_header,
  value_if_named, transfer_encoding, http_version_prefix,
}
use nanofish.Response.Write.Decimal.{decimal}
use nanofish.Response.Write.Render.{render}
use nanofish.Response.{HttpResponse, find_header, as_bytes}
use nanofish.StatusCode
use nanofish.StatusCode.{StatusCode}
use nanofish.Text.Case.{eq_ignore_case}
use nanofish.Text.Number.Print.{IsDigit, from_str_radix-print_radix, print_radix-IsDigit}
use nanofish.Text.Number.{parse_uint}
use nanofish.Text.Split.Plain.{Lacks}
use nanofish.Text.Split.{split_crlf}
use nanofish.Text.Utf8.{from_utf8_ascii, IsAscii}
use nanofish.Wire.Declared.{header_value_in-header_lines, find_byte-none, find_header-append}
use nanofish.Wire.Lines.{
  All_imp, IsSendable, header_lines, header_lines-IsAsciiLine, status_line, status_line-IsAsciiLine,
}
use nanofish.Wire.Sent.{not_empty}
use nanofish.Wire.RoundTrip.{auto_headers, sent_headers, auto_headers-IsSendable, render-joined}

-- The lines of a head with the blank line behind it.
joined_blank :
    (l : Bytes) (ls : List Bytes) → joined l ls ++ double_crlf ≡ joined l (ls ++ [] ∷ [] ∷ [])
joined_blank l [] = refl
joined_blank l (m ∷ ms) =
    append_assoc l (crlf ++ joined m ms) double_crlf
    ∙ ap (λ s. l ++ (crlf ++ s)) (joined_blank m ms)

header_value_in_blank :
    (name : Bytes) (ls : List Bytes)
    → header_value_in name (ls ++ [] ∷ [] ∷ []) ≡ header_value_in name ls
unfolding header_value_in value_if_named split_header
header_value_in_blank name [] = refl
header_value_in_blank name (l ∷ ls) =
    ap (λ later. value_if_named name (split_header l) later) (header_value_in_blank name ls)

text-Lacks : (s : StatusCode) → Lacks b':' (StatusCode.text s)
unfolding StatusCode.text
text-Lacks (StatusCode.other code) = omega arith
text-Lacks _ = omega arith

-- The status line is no header.
status_line-Lacks : (s : StatusCode) → Lacks b':' (status_line s)
status_line-Lacks s =
    All-append (λ b. b ≢ b':') http_version_prefix _ (omega arith)
      (All-append (λ b. b ≢ b':') (decimal (StatusCode.as_u16 s)) _
        (All_imp IsDigit _ _ (λ b d. omega arith)
          (print_radix-IsDigit 10 (omega arith) (omega arith) (StatusCode.as_u16 s)))
        (omega arith, text-Lacks s))

module _ (l : Bytes) (hs : List HttpHeader) (k : All IsSendable hs)
    (lines : All IsAsciiLine (l ∷ header_lines hs)) (plain : Lacks b':' l) where
  abbrev head : Bytes
  head = joined l (header_lines hs) ++ double_crlf

  head-IsAscii : IsAscii head
  head-IsAscii =
      All-append (λ b. b < 0x80) (joined l (header_lines hs)) double_crlf
        (IsAscii-joined l (header_lines hs) lines) (omega arith)

  -- A value is found in the head where the headers have it.
  find_header_value-head : (name : Bytes) → find_header_value head name ≡ find_header name hs
  unfolding find_header_value header_value_in value_if_named split_header
  find_header_value-head name =
      ap (λ s. header_value_in name (split_crlf s)) (joined_blank l (header_lines hs))
      ∙ ap (header_value_in name) (
          split_crlf-joined l (header_lines hs ++ [] ∷ [] ∷ []) (
            All-append (Lacks b'\r') (l ∷ header_lines hs) ([] ∷ [] ∷ [])
              (Lacks-of_All (l ∷ header_lines hs) lines) (tt, (tt, tt))))
      ∙ header_value_in_blank name (l ∷ header_lines hs)
      ∙ rw (find_byte-none b':' l plain, split_header) (header_value_in-header_lines name hs k)

  content_length-head :
      (usize_max n : ℕ)
      → and_then (find_header content_length_name hs) (parse_uint usize_max) ≡ some n
      → content_length usize_max head ≡ some n
  unfolding content_length
  content_length-head usize_max n e =
      rw (from_utf8_ascii head head-IsAscii, content_length)
        (rw (find_header_value-head content_length_name) e)

  chunked_header-head : find_header transfer_encoding hs ≡ none → chunked_header head ≡ false
  unfolding chunked_header
  chunked_header-head e =
      rw (from_utf8_ascii head head-IsAscii, chunked_header)
        (rw (find_header_value-head transfer_encoding) (rw e refl))

module _ (r : HttpResponse) (no_length : find_header content_length_name r.headers ≡ none)
    (there : as_bytes r.body ≢ []) where
  auto_headers-length :
      auto_headers r ≡ new_header content_length_name (decimal (length (as_bytes r.body))) ∷ []
  auto_headers-length = rw no_length (rw (not_empty (as_bytes r.body) there) refl)

  pub sent_headers_ne_nil : sent_headers r ≢ []
  sent_headers_ne_nil e = absurd (
      omega (
        arith,
        ap length e,
        length-append r.headers (auto_headers r),
        ap length auto_headers-length,
      ))

  find_header-sent :
      (name : Bytes)
      → find_header name r.headers ≡ none
      → find_header name (sent_headers r)
        ≡ find_header name
            (new_header content_length_name (decimal (length (as_bytes r.body))) ∷ [])
  find_header-sent name h =
      find_header-append name r.headers (auto_headers r) h
      ∙ ap (find_header name) auto_headers-length

  -- A response with a body, with no length and no transfer coding of its own, is in its frame on the
  -- wire: the client reads from its head the length of its body.
  pub render-Framed :
      (usize_max : ℕ)
      → All IsSendable r.headers
      → find_header transfer_encoding r.headers ≡ none
      → length (as_bytes r.body) ≤ usize_max
      → Framed usize_max (render r)
  unfolding find_double_crlf find_header eq_ignore_case
  render-Framed usize_max k no_coding small =
      let line = status_line r.status_code in
      let hs = sent_headers r in
      let body = as_bytes r.body in
      let sent : All IsSendable hs =
        All-append IsSendable r.headers (auto_headers r) k (auto_headers-IsSendable r) in
      let lines : All IsAsciiLine (line ∷ header_lines hs) =
        (status_line-IsAsciiLine r.status_code, header_lines-IsAsciiLine hs sent) in
      let front = joined line (header_lines hs) in
      let cut : take (length front + 4) (front ++ (double_crlf ++ body)) ≡ front ++ double_crlf =
        take-append_add front (double_crlf ++ body) (length front + 4) 4 refl in
      let stated : and_then (find_header content_length_name hs) (parse_uint usize_max)
          ≡ some (length body) =
        ap (λ o. and_then o (parse_uint usize_max)) (find_header-sent content_length_name no_length)
        ∙ from_str_radix-print_radix 10 usize_max (length body) (omega arith) (omega arith) small in
      let framed : Framed usize_max (front ++ (double_crlf ++ body)) = record {
        hdr_end = length front;
        wanted = length body;
        found =
            find_double_crlf-joined line (header_lines hs) body
              (lines_of_All (line ∷ header_lines hs) lines);
        plain =
            ap chunked_header cut
            ∙ chunked_header-head line hs sent lines (status_line-Lacks r.status_code)
                (find_header-sent transfer_encoding no_coding);
        declares =
            ap (content_length usize_max) cut
            ∙ content_length-head line hs sent lines (status_line-Lacks r.status_code) usize_max
                (length body) stated;
        sized = omega (arith, length-append front (double_crlf ++ body));
      } in
      subst (Framed usize_max) (sym (render-joined r)) framed
