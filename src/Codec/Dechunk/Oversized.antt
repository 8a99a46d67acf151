-- ===== src/Codec/Dechunk/Oversized.antt =====
-- A chunk whose size is a `usize`, but not the position behind its data.
use nanofish.Codec.Dechunk.Decode.{decode, decode_chunk}
use nanofish.Codec.Dechunk.Refine.{Agrees}
use nanofish.Codec.Dechunk.RoundTrip.{hex_size, decode-hex_size}
use nanofish.Codec.Dechunk.Total.{dechunk-Agrees}
use nanofish.Codec.Dechunk.{slice, dechunk}
use nanofish.Codec.Framing.{chunked}
use nanofish.Prelude.{
  ℕ, ◌+◌, ◌-◌, ◌≤◌, ◌<◌, inl, inr, true, false, ◌++◌, some, ◌≡◌, refl, ap, ◌∙◌, ◌==◌, leb, leb→le,
  Bytes, take, drop, length, arith, length-append, take_append, drop_append, take-drop, Bool-cases,
}
use nanofish.Protocol.{find_double_crlf, crlf}
use nanofish.Result.{Result, ok, err, panic, out_of_fuel}

-- The first chunk of a message declares `n` bytes.
abbrev pub sized_message : Bytes → ℕ → Bytes → Bytes
sized_message head n rest = head ++ (hex_size n ++ (crlf ++ rest))

Agrees-panic : (s : Bytes) (t w : ℕ) (r : Result (Bytes × ℕ)) → Agrees s t w panic r → r ≡ panic
Agrees-panic s t w panic h = refl
Agrees-panic s t w (ok r) h = elim h [ ]
Agrees-panic s t w (err e) h = elim h [ ]
Agrees-panic s t w out_of_fuel h = elim h [ ]

decode_chunk-oversized :
    (usize_max : ℕ) (next : ℕ → Bytes → Result Bytes) (at pos n : ℕ) (todo : Bytes)
    → 0 < n
    → usize_max < at + pos + 2 + n
    → decode_chunk usize_max next at todo pos n ≡ panic
unfolding decode_chunk
decode_chunk-oversized usize_max next at pos n todo some_data big =
    let more : (n == 0) ≡ false = ground arith in
    elim (Bool-cases (leb (at + pos + 2 + n) usize_max)) [
      | inl fits ↦ absurd (omega (arith, leb→le _ _ fits))
      | inr out ↦ rw (more, out) refl
    ]

-- A chunked message, of headers that end at the first blank line, whose first chunk declares a size
-- that is a `usize`, while the position behind that many bytes is none, makes `dechunk` panic,
-- whatever stands behind the size.
pub dechunk-oversized :
    (usize_max : ℕ) (head spare rest : Bytes) (n pos : ℕ)
    → chunked (sized_message head n rest) ≡ true
    → find_double_crlf (sized_message head n rest) ≡ some pos
    → pos + 4 ≡ length head
    → 0 < n
    → n ≤ usize_max
    → usize_max < length head + length (hex_size n) + 2 + n
    → dechunk usize_max (sized_message head n rest ++ spare) (length (sized_message head n rest))
      ≡ panic
dechunk-oversized usize_max head spare rest n pos c e f some_data k big =
    let message = sized_message head n rest in
    let s = message ++ spare in
    let t = length message in
    let body = hex_size n ++ (crlf ++ rest) in
    let whole : take t s ≡ message = take_append message spare t refl in
    let size = length-append head body in
    let todo : slice (pos + 4) t s ≡ body =
      take-drop (t - (pos + 4)) (pos + 4) t s (omega (arith, size))
      ∙ ap (drop (pos + 4)) whole
      ∙ drop_append head body (pos + 4) f in
    let decoded =
      decode-hex_size usize_max n t (pos + 4) rest k
      ∙ decode_chunk-oversized usize_max (decode usize_max t) (pos + 4) (length (hex_size n)) n body
          some_data (omega arith) in
    let agrees =
      dechunk-Agrees usize_max s t pos (omega (arith, length-append message spare)) (rw whole c)
        (rw whole e) in
    Agrees-panic s t (pos + 4) _ (rw (todo, decoded) at agrees)
