-- ===== src/Codec/Parse.antt =====
-- `parse_resp` and `parse_body` of src/codec.rs.
pub mod Joined
pub mod Body
pub mod Lines
pub mod Ends
use nanofish.Codec.Dechunk.{slice}
use nanofish.Header.{HttpHeader, content_type_name}
use nanofish.Heapless.{Heapless}
use nanofish.Prelude.{
  ℕ, ◌+◌, ◌-◌, Bool, true, false, ◌||◌, List, [], ◌∷◌, Option, none, some, ltb, leb, if◌then◌else◌,
  Bytes, take, drop, length, codes, is_empty,
}
use nanofish.Protocol.{
  find_crlf, find_double_crlf, crlf_len, double_crlf_len, max_headers, split_header,
}
use nanofish.Response.{ResponseBody, text, binary, empty, HttpResponse, find_header}
use nanofish.Result.{Result, ok, err, panic, ◌>>=◌, ◌>>◌, ok_or, assert, invalid_response}
use nanofish.StatusCode
use nanofish.StatusCode.{StatusCode}
use nanofish.Text.Space.{split_whitespace}
use nanofish.Text.Split.{starts_with, split_crlf}
use nanofish.Text.Utf8.{from_utf8}

unfoldable pub is_text : Bytes → Bool
unfolding starts_with
is_text content_type =
    starts_with (codes "text/") content_type
    || starts_with (codes "application/json") content_type
    || starts_with (codes "application/xml") content_type
    || starts_with (codes "application/x-www-form-urlencoded") content_type

pub text_of : Bytes → Option Bytes → ResponseBody
text_of body none = binary body
text_of body (some s) = text s

unfoldable pub text_or_bin : Bytes → ResponseBody
unfolding text_of from_utf8
text_or_bin body = text_of body (from_utf8 body)

unfoldable pub parse_body : List HttpHeader → Bytes → ResponseBody
parse_body headers body =
    if is_empty body then empty else elim (find_header content_type_name headers) [
      | none ↦ text_or_bin body
      | some ct ↦ if is_text ct then text_or_bin body else binary body
    ]

-- `split_whitespace().nth(1)`.
abbrev pub second : List Bytes → Option Bytes
second [] = none
second (a ∷ []) = none
second (a ∷ b ∷ r) = some b

unfoldable pub status_of_line : Bytes → Result StatusCode
status_of_line status_line = do
  status_code_str ←
      ok_or (second (split_whitespace status_line)) (invalid_response "Invalid HTTP status line")
  StatusCode.try_from_str status_code_str

module _ (hp : Heapless) where
  -- The loop over the header lines; it stops at the first header that finds no room.
  unfoldable pub collect_headers : List HttpHeader → List Bytes → List HttpHeader
  collect_headers headers [] = headers
  collect_headers headers (line ∷ lines) = elim (split_header line) [
    | none ↦ collect_headers headers lines
    | some h ↦ elim (hp.push HttpHeader max_headers headers h) [
      | none ↦ headers
      | some more ↦ collect_headers more lines
    ]
  ]

  -- The slice of the header section panics where its start is behind its end.
  unfoldable pub parse_resp : Bytes → Result HttpResponse
  parse_resp s = do
    pos ← ok_or (find_double_crlf s) (invalid_response "Invalid HTTP response format")
    let headers_end = pos + double_crlf_len
    let header_bytes = take headers_end s
    response_str ←
        ok_or (from_utf8 header_bytes) (invalid_response "Invalid HTTP response encoding")
    status_line_end ←
        ok_or (find_crlf header_bytes) (invalid_response "Invalid HTTP response format")
    status_code ← status_of_line (take status_line_end response_str)
    assert (leb (status_line_end + crlf_len) (headers_end - double_crlf_len))
    let headers_section =
        slice (status_line_end + crlf_len) (headers_end - double_crlf_len) response_str
    let headers = collect_headers [] (split_crlf headers_section)
    let body_data = if ltb headers_end (length s) then drop headers_end s else []
    ok (record {
      status_code = status_code;
      headers = headers;
      body = parse_body headers body_data;
    })
