-- ===== src/Response/Write.antt =====
-- The writers of src/response.rs: `build_bytes`, `build_head_bytes` and what they call. A
-- `&mut Vec<u8, N>` is passed in and given back.
pub mod Put
pub mod Decimal
pub mod Render
use nanofish.Header.{HttpHeader, content_length_name}
use nanofish.Heapless.{Heapless}
use nanofish.Prelude.{
  ℕ, zero, suc, ◌+◌, ◌/◌, ◌%◌, Bool, true, false, not, ◌&&◌, ◌||◌, List, [], ◌∷◌, ◌==◌,
  if◌then◌else◌, Bytes, length, is_empty,
}
use nanofish.Protocol.{crlf, header_separator, http_version_prefix}
use nanofish.Response.{HttpResponse, as_bytes}
use nanofish.Result.{Result, ok, err, panic, ◌>>=◌, ok_or, buffer_overflow}
use nanofish.StatusCode
use nanofish.StatusCode.{StatusCode}
use nanofish.Text.Case.{eq_ignore_case}

-- The `while` loop of `write_decimal_to_buffer`: `room` slots of the array are free, and the
-- digits written are given last first, as they are sent. A write past the array panics.
pub fill_digits : ℕ → ℕ → Bytes → Result Bytes
fill_digits zero num digits = if num == 0 then ok digits else panic
fill_digits (suc room) num digits =
    let more = fill_digits room (num / 10) ((num % 10 + b'0') ∷ digits) in
    if num == 0 then ok digits else more

module _ (hp : Heapless) (n : ℕ) where
  open hp use {push, extend_from_slice}

  unfoldable pub push_slice : Bytes → Bytes → Result Bytes
  push_slice bytes s = ok_or (extend_from_slice n bytes s) buffer_overflow

  pub push_byte : Bytes → ℕ → Result Bytes
  push_byte bytes b = ok_or (push ℕ n bytes b) buffer_overflow

  pub push_digits : Bytes → Bytes → Result Bytes
  push_digits bytes [] = ok bytes
  push_digits bytes (d ∷ digits) = do b ← push_byte bytes d; push_digits b digits

  pub write_decimal_to_buffer : Bytes → ℕ → Result Bytes
  write_decimal_to_buffer bytes num =
      if num == 0
      then push_byte bytes b'0'
      else do digits ← fill_digits 10 num []; push_digits bytes digits

  pub write_status_line : Bytes → StatusCode → Result Bytes
  write_status_line bytes status_code = do
    b ← push_slice bytes http_version_prefix
    b ← write_decimal_to_buffer b (StatusCode.as_u16 status_code)
    b ← push_byte b b' '
    b ← push_slice b (StatusCode.text status_code)
    push_slice b crlf

  -- The loop over the headers, with `has_content_length`.
  pub write_headers : Bytes → Bool → List HttpHeader → Result (Bytes × Bool)
  write_headers bytes has_content_length [] = ok (bytes, has_content_length)
  write_headers bytes has_content_length (h ∷ hs) = do
    b ← push_slice bytes h.name
    b ← push_slice b header_separator
    b ← push_slice b h.value
    b ← push_slice b crlf
    write_headers b (if eq_ignore_case h.name content_length_name then true else has_content_length)
        hs

  pub write_length : Bytes → ℕ → Result Bytes
  write_length bytes len = do
    b ← push_slice bytes content_length_name
    b ← push_slice b header_separator
    b ← write_decimal_to_buffer b len
    push_slice b crlf

  pub write_auto_length : Bytes → Bool → Bytes → Result Bytes
  write_auto_length bytes wanted body =
      if wanted && not (is_empty body) then write_length bytes (length body) else ok bytes

  pub write_head_bytes : Bytes → Bool → HttpResponse → Result Bytes
  write_head_bytes bytes include_auto_content_length r = do
    b ← write_status_line bytes r.status_code
    (b, has_content_length) ← write_headers b false r.headers
    b ←
        write_auto_length b (include_auto_content_length && not has_content_length)
          (as_bytes r.body)
    push_slice b crlf

  unfoldable pub build_bytes : HttpResponse → Result Bytes
  unfolding write_head_bytes write_status_line write_decimal_to_buffer write_headers
      write_auto_length write_length push_byte push_digits fill_digits
  build_bytes r = do bytes ← write_head_bytes [] true r; push_slice bytes (as_bytes r.body)

  unfoldable pub build_head_bytes : HttpResponse → Result Bytes
  unfolding write_head_bytes write_status_line write_decimal_to_buffer write_headers
      write_auto_length write_length push_byte push_digits fill_digits
  build_head_bytes r = write_head_bytes [] false r
