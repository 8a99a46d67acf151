-- ===== src/Client/Buffer.antt =====
-- The end of `request_with_retry_delay` of src/client/io.rs: the response in the buffer.
use nanofish.Codec.Dechunk.{dechunk}
use nanofish.Codec.Parse.{parse_resp}
use nanofish.Heapless.{Heapless}
use nanofish.Prelude.{ℕ, ◌++◌, Bytes, take, drop, length}
use nanofish.Response.{HttpResponse}
use nanofish.Result.{Result, ok, ◌>>=◌}

-- The buffer behind `got`, which stands at its start.
abbrev pub filled : Bytes → Bytes → Bytes
filled got buffer = got ++ drop (length got) buffer

module _ (hp : Heapless) (usize_max : ℕ) where
  -- The response, as read from the bytes that the buffer holds, and how many they are.
  unfoldable pub read_buffer : Bytes → Bytes → Result (HttpResponse × ℕ)
  unfolding dechunk parse_resp
  read_buffer response_buffer got = do
    decoded ← dechunk usize_max (filled got response_buffer) (length got)
    response ← parse_resp hp (take decoded.1 decoded.0)
    ok (response, decoded.1)
