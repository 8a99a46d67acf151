-- ===== src/Request/Decode.antt =====
-- `percent_decode` and `hex_value` of src/request.rs.
pub mod RoundTrip
use nanofish.Prelude.{
  ℕ, ◌+◌, ◌-◌, ◌*◌, ◌^◌, Bool, true, false, ◌&&◌, List, [], ◌∷◌, ◌++◌, Option, none, some, ltb, leb,
  ◌==◌, if◌then◌else◌, Bytes, length,
}
use nanofish.Result.{Result, ok, err, ◌>>=◌, ok_or, invalid_response, buffer_overflow}
use nanofish.Text.Utf8.{from_utf8}

unfoldable pub hex_value : ℕ → Option ℕ
hex_value byte =
    if leb b'0' byte && leb byte b'9'
    then some (byte - b'0')
    else if leb b'a' byte && leb byte b'f'
    then some (byte - b'a' + 10)
    else if leb b'A' byte && leb byte b'F'
    then some (byte - b'A' + 10)
    else none

-- `(hi << 4) | lo` of two digits.
unfoldable pub escaped : ℕ → ℕ → Result ℕ
unfolding hex_value
escaped hi lo = do
  high ← ok_or (hex_value hi) (invalid_response "Invalid percent escape")
  low ← ok_or (hex_value lo) (invalid_response "Invalid percent escape")
  ok (high * 2 ^ 4 + low)

-- `out.get_mut(written)`, and the store; `written` is what `out` holds so far.
unfoldable pub store : ℕ → Bytes → ℕ → Result Bytes
store out_len written decoded =
    if ltb (length written) out_len then ok (written ++ decoded ∷ []) else err buffer_overflow

-- A byte that starts no escape.
abbrev pub plain : ℕ → ℕ
plain byte = if byte == b'+' then b' ' else byte

-- The loop over the bytes: one clause for each number of bytes that an escape finds behind its
-- percent sign.
unfoldable pub decode_loop : ℕ → Bytes → Bytes → Result Bytes
unfolding escaped store
decode_loop out_len written [] = ok written
decode_loop out_len written (byte ∷ []) = elim (byte == b'%') [
  | false ↦ store out_len written (plain byte)
  | true ↦ err (invalid_response "Incomplete percent escape")
]
decode_loop out_len written (byte ∷ hi ∷ []) = elim (byte == b'%') [
  | false ↦ store out_len written (plain byte) >>= λ more. decode_loop out_len more (hi ∷ [])
  | true ↦ err (invalid_response "Incomplete percent escape")
]
decode_loop out_len written (byte ∷ hi ∷ lo ∷ rest) = elim (byte == b'%') [
  | false ↦ store out_len written (plain byte) >>= λ more. decode_loop out_len more (hi ∷ lo ∷ rest)
  | true ↦ escaped hi lo >>= λ decoded.
      store out_len written decoded >>= λ more. decode_loop out_len more rest
]

unfoldable pub percent_decode : ℕ → Bytes → Result Bytes
unfolding decode_loop
percent_decode out_len input = do
  bytes ← decode_loop out_len [] input
  ok_or (from_utf8 bytes) (invalid_response "Invalid UTF-8 in percent-decoded value")
