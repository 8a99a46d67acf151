-- ===== src/Codec/Framing.antt =====
-- Where a message ends: `chunked`, `content_length`, `complete`, `declares_length`. The largest
-- `usize` is a parameter.
pub mod Complete
use nanofish.Header.{content_length_name}
use nanofish.Prelude.{
  ℕ, ◌+◌, ◌-◌, Bool, true, false, ◌||◌, List, [], ◌∷◌, Option, none, some, leb, and_then, is_some,
  Bytes, take, length,
}
use nanofish.Protocol.{
  find_double_crlf, double_crlf_len, find_header_value, transfer_encoding, chunked_coding,
  chunked_end_marker,
}
use nanofish.Text.Case.{eq_ignore_case}
use nanofish.Text.Number.{parse_uint, from_str_radix}
use nanofish.Text.Space.{trim}
use nanofish.Text.Split.{find_window, split_on}
use nanofish.Text.Utf8.{from_utf8}

any_chunked : List Bytes → Bool
any_chunked [] = false
any_chunked (encoding ∷ rest) = eq_ignore_case (trim encoding) chunked_coding || any_chunked rest

-- The `if let` of `chunked`, on the header bytes.
unfoldable pub chunked_header : Bytes → Bool
unfolding any_chunked eq_ignore_case trim split_on find_header_value from_utf8
chunked_header header_bytes =
    elim (and_then (from_utf8 header_bytes) λ s. find_header_value s transfer_encoding) [
      | none ↦ false
      | some value ↦ any_chunked (split_on b',' value)
    ]

unfoldable pub chunked : Bytes → Bool
unfolding chunked_header find_double_crlf
chunked s = elim (find_double_crlf s) [
  | none ↦ false
  | some pos ↦ chunked_header (take (pos + double_crlf_len) s)
]

module _ (usize_max : ℕ) where
  unfoldable pub content_length : Bytes → Option ℕ
  unfolding from_utf8 find_header_value from_str_radix
  content_length header_bytes =
      and_then (from_utf8 header_bytes)
        λ s. and_then (find_header_value s content_length_name) (parse_uint usize_max)

  -- `complete`, once the headers are known to end at `headers_end`.
  unfoldable pub complete_from : Bytes → ℕ → Bool
  unfolding chunked content_length find_window
  complete_from s headers_end = elim (chunked s) [
    | true ↦ is_some (find_window chunked_end_marker s)
    | false ↦ elim (content_length (take headers_end s)) [
      | none ↦ false
      | some wanted ↦ leb wanted (length s - headers_end)
    ]
  ]

  unfoldable pub complete : Bytes → Bool
  unfolding complete_from find_double_crlf
  complete s = elim (find_double_crlf s) [
    | none ↦ false
    | some pos ↦ complete_from s (pos + double_crlf_len)
  ]

  unfoldable pub declares_length : Bytes → Bool
  unfolding chunked content_length find_double_crlf
  declares_length s = elim (find_double_crlf s) [
    | none ↦ false
    | some pos ↦ chunked s || is_some (content_length (take (pos + double_crlf_len) s))
  ]
