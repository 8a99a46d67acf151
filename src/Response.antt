-- ===== src/Response.antt =====
-- src/response.rs: responses, their accessors, and the module that writes them.
pub mod Write
pub mod Builder
use nanofish.Header.{HttpHeader, content_type_name, content_length_name}
use nanofish.Prelude.{
  ℕ, Bool, true, List, [], ◌∷◌, Option, none, some, and_then, if◌then◌else◌, Bytes, length,
  is_empty,
}
use nanofish.StatusCode
use nanofish.StatusCode.{StatusCode}
use nanofish.Text.Case.{eq_ignore_case}
use nanofish.Text.Number.{parse_uint}
use nanofish.Text.Utf8.{from_utf8}

pub data ResponseBody : Type 0 where
  text : Bytes → ResponseBody
  binary : Bytes → ResponseBody
  empty : ResponseBody

unfoldable pub as_str : ResponseBody → Option Bytes
as_str (text s) = some s
as_str (binary bytes) = from_utf8 bytes
as_str empty = none

unfoldable pub as_bytes : ResponseBody → Bytes
as_bytes (text s) = s
as_bytes (binary bytes) = bytes
as_bytes empty = []

unfoldable pub is_empty_body : ResponseBody → Bool
is_empty_body (text s) = is_empty s
is_empty_body (binary bytes) = is_empty bytes
is_empty_body empty = true

unfoldable pub body_len : ResponseBody → ℕ
body_len (text s) = length s
body_len (binary bytes) = length bytes
body_len empty = 0

pub record HttpResponse : Type 0 where
  pub status_code : StatusCode
  pub headers : List HttpHeader
  pub body : ResponseBody

-- `iter().find(|h| h.name.eq_ignore_ascii_case(name)).map(|h| h.value)`, which the responses, the
-- requests and the codec have.
unfoldable pub find_header : Bytes → List HttpHeader → Option Bytes
find_header name [] = none
find_header name (h ∷ hs) = if eq_ignore_case h.name name then some h.value else find_header name hs

abbrev pub get_header : HttpResponse → Bytes → Option Bytes
get_header r name = find_header name r.headers

unfoldable pub content_type : HttpResponse → Option Bytes
unfolding find_header
content_type r = get_header r content_type_name

unfoldable pub content_length : ℕ → HttpResponse → Option ℕ
unfolding find_header
content_length usize_max r = and_then (get_header r content_length_name) (parse_uint usize_max)

unfoldable pub is_success : HttpResponse → Bool
is_success r = StatusCode.is_success r.status_code

unfoldable pub is_client_error : HttpResponse → Bool
is_client_error r = StatusCode.is_client_error r.status_code

unfoldable pub is_server_error : HttpResponse → Bool
is_server_error r = StatusCode.is_server_error r.status_code
