-- ===== src/Codec/Parse/Body.antt =====
-- The body of a response is the bytes behind the headers, and its kind follows the content type.
use nanofish.Codec.Parse.{text_or_bin, parse_body}
use nanofish.Header.{HttpHeader}
use nanofish.Prelude.{List, [], ◌∷◌, ◌≡◌, refl, Bytes, arith}
use nanofish.Response.{as_bytes}
use nanofish.Text.Utf8.{from_utf8}

as_bytes-text_or_bin : (b : Bytes) → as_bytes (text_or_bin b) ≡ b
unfolding as_bytes text_or_bin from_utf8
as_bytes-text_or_bin b = ground arith

-- No byte of the body is lost or changed, whatever the headers.
pub as_bytes-parse_body : (hs : List HttpHeader) (b : Bytes) → as_bytes (parse_body hs b) ≡ b
unfolding as_bytes parse_body
as_bytes-parse_body hs [] = refl
as_bytes-parse_body hs (x ∷ b) = ground (arith, as_bytes-text_or_bin (x ∷ b))
