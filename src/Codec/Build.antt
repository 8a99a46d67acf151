-- ===== src/Codec/Build.antt =====
-- `build_req` of src/codec.rs.
pub mod Render
pub mod Ends
use nanofish.Header.{HttpHeader, content_length_name}
use nanofish.Heapless.{Heapless}
use nanofish.Method
use nanofish.Method.{HttpMethod}
use nanofish.Prelude.{
  ℕ, Bool, true, false, not, ◌&&◌, List, [], ◌∷◌, Option, none, some, is_some, if◌then◌else◌, Bytes,
  length, codes,
}
use nanofish.Protocol.{http_version_line_suffix, crlf, header_separator, connection_close_end}
use nanofish.Result.{Result, ok, err, ◌>>=◌, ok_or, buffer_overflow}
use nanofish.Text.Case.{eq_ignore_case}
use nanofish.Text.Number.Print.{print_radix}

-- `body.unwrap_or_default().len()`.
abbrev pub body_length : Option Bytes → ℕ
body_length none = 0
body_length (some b) = length b

module _ (hp : Heapless) where
  open hp use {push_str}

  -- `try_push!(req.push_str(s))` on a `String<RQ>`.
  unfoldable pub try_push : ℕ → Bytes → Bytes → Result Bytes
  try_push rq req s = ok_or (push_str rq req s) buffer_overflow

  module _ (rq : ℕ) where
    pub push_request_line : Bytes → HttpMethod → Bytes → Bytes → Result Bytes
    push_request_line req method host path = do
      req ← try_push rq req (Method.as_str method)
      req ← try_push rq req (codes " ")
      req ← try_push rq req path
      req ← try_push rq req http_version_line_suffix
      req ← try_push rq req (codes "Host: ")
      req ← try_push rq req host
      try_push rq req crlf

    -- The loop over the headers, with `has_len`.
    pub push_headers : Bytes → Bool → List HttpHeader → Result (Bytes × Bool)
    push_headers req has_len [] = ok (req, has_len)
    push_headers req has_len (h ∷ hs) = do
      req ← try_push rq req h.name
      req ← try_push rq req header_separator
      req ← try_push rq req h.value
      req ← try_push rq req crlf
      push_headers req (if eq_ignore_case h.name content_length_name then true else has_len) hs

    -- The length is printed to a `String<8>` first.
    pub push_length : Bytes → ℕ → Result Bytes
    push_length req body_len = do
      req ← try_push rq req content_length_name
      req ← try_push rq req header_separator
      len ← try_push 8 [] (print_radix 10 body_len)
      req ← try_push rq req len
      try_push rq req crlf

    pub push_auto_length : Bytes → Bool → Option Bytes → Result Bytes
    push_auto_length req has_len body =
        if not has_len && is_some body then push_length req (body_length body) else ok req

    unfoldable pub build_req :
        HttpMethod → Bytes → Bytes → List HttpHeader → Option Bytes → Result Bytes
    unfolding push_request_line push_headers push_length push_auto_length
    build_req method host path headers body = do
      req ← push_request_line [] method host path
      (req, has_len) ← push_headers req false headers
      req ← push_auto_length req has_len body
      try_push rq req connection_close_end
