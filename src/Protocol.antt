-- ===== src/Protocol.antt =====
-- src/protocol.rs: the constants, the search for line ends and the search for a header.
pub mod Find
use nanofish.Header.{HttpHeader, new_header}
use nanofish.Prelude.{
  ℕ, ◌+◌, List, [], ◌∷◌, Option, none, some, if◌then◌else◌, Bytes, take, drop, codes,
}
use nanofish.Text.Case.{eq_ignore_case}
use nanofish.Text.Space.{trim}
use nanofish.Text.Split.{find_byte, find_window, split_crlf}

abbrev pub crlf : Bytes
crlf = codes "\r\n"

abbrev pub crlf_len : ℕ
crlf_len = 2

abbrev pub double_crlf : Bytes
double_crlf = codes "\r\n\r\n"

abbrev pub double_crlf_len : ℕ
double_crlf_len = 4

abbrev pub chunked_end_marker : Bytes
chunked_end_marker = codes "0\r\n\r\n"

abbrev pub http_version_prefix : Bytes
http_version_prefix = codes "HTTP/1.1 "

abbrev pub http_version_line_suffix : Bytes
http_version_line_suffix = codes " HTTP/1.1\r\n"

abbrev pub default_http_port : ℕ
default_http_port = 80

abbrev pub default_https_port : ℕ
default_https_port = 443

abbrev pub transfer_encoding : Bytes
transfer_encoding = codes "Transfer-Encoding"

abbrev pub chunked_coding : Bytes
chunked_coding = codes "chunked"

abbrev pub header_separator : Bytes
header_separator = codes ": "

abbrev pub connection_close_end : Bytes
connection_close_end = codes "Connection: close\r\n\r\n"

abbrev pub max_headers : ℕ
max_headers = 16

unfoldable pub find_double_crlf : Bytes → Option ℕ
unfolding find_window
find_double_crlf s = find_window double_crlf s

unfoldable pub find_crlf : Bytes → Option ℕ
unfolding find_window
find_crlf s = find_window crlf s

-- The name and the value of a line with a colon, as three loops of the library read it.
unfoldable pub split_header : Bytes → Option HttpHeader
unfolding find_byte trim
split_header line = elim (find_byte b':' line) [
  | none ↦ none
  | some colon_pos ↦
      some (new_header (trim (take colon_pos line)) (trim (drop (colon_pos + 1) line)))
]

unfoldable pub value_if_named : Bytes → Option HttpHeader → Option Bytes → Option Bytes
value_if_named target none later = later
value_if_named target (some h) later = if eq_ignore_case h.name target then some h.value else later

-- The loop of `find_header_value`.
unfoldable pub header_value_in : Bytes → List Bytes → Option Bytes
unfolding value_if_named split_header
header_value_in target [] = none
header_value_in target (line ∷ lines) =
    value_if_named target (split_header line) (header_value_in target lines)

unfoldable pub find_header_value : Bytes → Bytes → Option Bytes
unfolding header_value_in value_if_named split_header split_crlf eq_ignore_case
find_header_value headers target = header_value_in target (split_crlf headers)
