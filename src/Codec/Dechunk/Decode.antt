-- ===== src/Codec/Dechunk/Decode.antt =====
-- The decoding of a chunked body as a function of the bytes to decode, with no buffer: what the
-- in-place loop is held to.
use nanofish.Codec.Dechunk.{chunk_size}
use nanofish.Prelude.{
  ℕ, zero, suc, ◌+◌, [], ◌++◌, none, some, ltb, leb, ◌==◌, if◌then◌else◌, Bytes, take, drop, length,
}
use nanofish.Protocol.{find_crlf, crlf_len}
use nanofish.Result.{Result, ok, err, out_of_fuel, ◌>>=◌, ◌>>◌, assert, invalid_response}

module _ (usize_max : ℕ) where
  -- The data of the chunk whose line of `pos` bytes stands at `at` and gives `size`, and of those
  -- behind it, which `next` reads. Where the position behind the chunk is no `usize`, the program
  -- panics.
  unfoldable pub decode_chunk : (ℕ → Bytes → Result Bytes) → ℕ → Bytes → ℕ → ℕ → Result Bytes
  decode_chunk next at todo pos size = if size == 0 then ok [] else do
    assert (leb (at + pos + crlf_len + size) usize_max)
    if ltb (length todo) (pos + crlf_len + size)
        then err (invalid_response "Incomplete chunked body")
        else do
          let behind = pos + crlf_len + size + crlf_len
          rest ← next (at + behind) (drop behind todo)
          ok (take size (drop (pos + crlf_len) todo) ++ rest)

  unfoldable pub decode : ℕ → ℕ → Bytes → Result Bytes
  decode zero at todo = out_of_fuel
  decode (suc fuel) at todo = elim (find_crlf todo) [
    | none ↦ ok []
    | some pos ↦ do
      size ← chunk_size usize_max (take pos todo)
      decode_chunk (decode fuel) at todo pos size
  ]
