-- ===== src/Codec/Dechunk.antt =====
-- `dechunk`: the chunked body is decoded in place, in the buffer that it was read into.
pub mod Decode
mod Copy
pub mod Refine
pub mod Total
pub mod RoundTrip
pub mod Oversized
use nanofish.Codec.Framing.{chunked}
use nanofish.Prelude.{
  ℕ, zero, suc, ◌+◌, ◌-◌, Bool, true, false, ◌&&◌, List, [], ◌∷◌, ◌++◌, Option, none, some, ltb,
  leb, ◌==◌, if◌then◌else◌, Bytes, take, drop, length,
}
use nanofish.Protocol.{find_crlf, find_double_crlf, crlf_len, double_crlf_len}
use nanofish.Result.{
  Result, ok, err, panic, out_of_fuel, ◌>>=◌, ◌>>◌, ok_or, assert, invalid_response,
}
use nanofish.Text.Number.{from_str_radix}
use nanofish.Text.Space.{trim}
use nanofish.Text.Split.{split_on}
use nanofish.Text.Utf8.{from_utf8}

-- `buffer[start..end]`, at bounds that are in range where the code takes it.
abbrev pub slice : ℕ → ℕ → Bytes → Bytes
slice start end s = take (end - start) (drop start s)

-- `copy_within(start..end, dest)`, with its bounds checks.
unfoldable pub copy_within : Bytes → ℕ → ℕ → ℕ → Result Bytes
copy_within s start end dest =
    let count = end - start in
    if leb start end && leb end (length s) && leb (dest + count) (length s)
    then ok (take dest s ++ (slice start end s ++ drop (dest + count) s))
    else panic

-- `split(';').next().unwrap_or("0")`.
abbrev before_extension : List Bytes → Bytes
before_extension [] = b'0' ∷ []
before_extension (part ∷ parts) = part

module _ (usize_max : ℕ) where
  -- The size that a chunk's line gives, extensions behind a semicolon left aside.
  unfoldable pub chunk_size : Bytes → Result ℕ
  unfolding from_utf8 trim split_on from_str_radix
  chunk_size line = do
    chunk_size_str ← ok_or (from_utf8 line) (invalid_response "Invalid chunk size encoding")
    let size_part = trim (before_extension (split_on b';' (trim chunk_size_str)))
    ok_or (from_str_radix 16 usize_max size_part) (invalid_response "Invalid chunk size")

  -- The rest of a round of the loop behind the chunk's line, which ends at `chunk_line_end` and
  -- gives `size`; `next` is the rounds behind it, from the buffer and the two positions. The sum
  -- that gives `chunk_data_end` may overflow: debug builds panic there, release builds in
  -- `copy_within`, whose start is then behind its end.
  unfoldable pub dechunk_chunk :
      (Bytes → ℕ → ℕ → Result (Bytes × ℕ)) → Bytes → ℕ → ℕ → ℕ → ℕ → Result (Bytes × ℕ)
  dechunk_chunk next buffer total_read write_pos chunk_line_end size =
      if size == 0 then ok (buffer, write_pos) else do
        let chunk_data_start = chunk_line_end + crlf_len
        assert (leb (chunk_data_start + size) usize_max)
        let chunk_data_end = chunk_data_start + size
        if ltb total_read chunk_data_end
            then err (invalid_response "Incomplete chunked body")
            else do
              buffer' ←
                  if write_pos == chunk_data_start
                  then ok buffer
                  else copy_within buffer chunk_data_start chunk_data_end write_pos
              next buffer' (chunk_data_end + crlf_len) (write_pos + size)

  -- The `while` loop.
  unfoldable pub dechunk_loop : ℕ → ℕ → Bytes → ℕ → ℕ → Result (Bytes × ℕ)
  dechunk_loop zero total_read buffer read_pos write_pos = out_of_fuel
  dechunk_loop (suc fuel) total_read buffer read_pos write_pos = elim (ltb read_pos total_read) [
    | false ↦ ok (buffer, write_pos)
    | true ↦ elim (find_crlf (slice read_pos total_read buffer)) [
      | none ↦ ok (buffer, write_pos)
      | some pos ↦ do
        let chunk_line_end = read_pos + pos
        size ← chunk_size (slice read_pos chunk_line_end buffer)
        dechunk_chunk (dechunk_loop fuel total_read) buffer total_read write_pos chunk_line_end size
    ]
  ]

  -- Each round reads past a line, so `total_read + 1` rounds are enough.
  unfoldable pub dechunk : Bytes → ℕ → Result (Bytes × ℕ)
  dechunk buffer total_read = do
    assert (leb total_read (length buffer))
    let s = take total_read buffer
    elim (chunked s) [
      | false ↦ ok (buffer, total_read)
      | true ↦ do
        pos ← ok_or (find_double_crlf s) (invalid_response "Invalid HTTP response format")
        let headers_end = pos + double_crlf_len
        dechunk_loop (suc total_read) total_read buffer headers_end headers_end
    ]
