-- ===== src/Codec/Dechunk/RoundTrip.antt =====
-- A body that is sent in chunks is decoded to the data of the chunks.
use nanofish.Codec.Dechunk.Decode.{decode, decode_chunk}
use nanofish.Codec.Dechunk.Refine.{Agrees-ok}
use nanofish.Codec.Dechunk.Total.{dechunk-Agrees}
use nanofish.Codec.Dechunk.{chunk_size, slice, dechunk}
use nanofish.Codec.Framing.{chunked}
use nanofish.Prelude.{
  ℕ, zero, suc, ◌+◌, ◌-◌, ◌≤◌, ◌<◌, ◌≢◌, true, false, List, [], ◌∷◌, ◌++◌, some, ◌≡◌, refl, sym, ap,
  ◌∙◌, ◌==◌, ltb, Bytes, take, drop, length, arith, All, append_assoc, length-append, take_append,
  drop_append, drop-append_add, le→leb, le→ltb, length_pos, take-drop,
}
use nanofish.Protocol.{find_crlf, find_double_crlf, crlf}
use nanofish.Result.{Result, ok}
use nanofish.Text.Number.Print.{
  IsDigit, print_radix, print_radix-IsDigit, from_str_radix-print_radix,
}
use nanofish.Text.Space.Plain.{IsVisible, trim_of_All}
use nanofish.Text.Split.Plain.{Lacks, split_on_of_Lacks, find_window_of_Lacks}
use nanofish.Text.Utf8.{from_utf8_ascii}

-- A chunk as a sender writes it: the size in hexadecimal, and the data.
abbrev pub hex_size : ℕ → Bytes
hex_size n = print_radix 16 n

unfoldable pub encode_chunks : List Bytes → Bytes → Bytes
encode_chunks [] trailer = hex_size 0 ++ (crlf ++ trailer)
encode_chunks (c ∷ cs) trailer =
    hex_size (length c) ++ (crlf ++ (c ++ (crlf ++ encode_chunks cs trailer)))

abbrev pub concat : List Bytes → Bytes
concat [] = []
concat (c ∷ cs) = c ++ concat cs

All-imp : (P Q : ℕ → Type 0) (s : Bytes) → ((b : ℕ) → P b → Q b) → All P s → All Q s
All-imp P Q [] f h = tt
All-imp P Q (b ∷ s) f (h, hs) = (f b h, All-imp P Q s f hs)

hex_size-IsDigit : (n : ℕ) → All IsDigit (hex_size n)
hex_size-IsDigit n = print_radix-IsDigit 16 (omega arith) (omega arith) n

hex_size-Lacks_cr : (n : ℕ) → Lacks b'\r' (hex_size n)
hex_size-Lacks_cr n = All-imp IsDigit _ (hex_size n) (λ b h. omega arith) (hex_size-IsDigit n)

module _ (usize_max : ℕ) where
  pub chunk_size-hex_size : (n : ℕ) → n ≤ usize_max → chunk_size usize_max (hex_size n) ≡ ok n
  unfolding chunk_size
  chunk_size-hex_size n h =
      let digits = hex_size-IsDigit n in
      let plain =
        trim_of_All (hex_size n) (All-imp IsDigit IsVisible _ (λ b d. omega arith) digits) in
      let ascii =
        from_utf8_ascii (hex_size n)
          (All-imp IsDigit (λ b. b < 0x80) _ (λ b d. omega arith) digits) in
      let whole = split_on_of_Lacks b';' (hex_size n) (All-imp IsDigit _ _ (λ b d. d.2) digits) in
      rw ascii (
        rw plain (
          rw whole (
            rw plain
              (rw (from_str_radix-print_radix 16 usize_max n (omega arith) (omega arith) h)))))

  find_crlf-hex_size :
      (n : ℕ) (rest : Bytes) → find_crlf (hex_size n ++ (crlf ++ rest)) ≡ some (length (hex_size n))
  unfolding find_crlf
  find_crlf-hex_size n rest = find_window_of_Lacks (hex_size n) rest (hex_size-Lacks_cr n)

  pub decode-hex_size :
      (n fuel at : ℕ) (rest : Bytes)
      → n ≤ usize_max
      → decode usize_max (suc fuel) at (hex_size n ++ (crlf ++ rest))
        ≡ decode_chunk usize_max
            (decode usize_max fuel)
            at
            (hex_size n ++ (crlf ++ rest))
            (length (hex_size n))
            n
  unfolding decode
  decode-hex_size n fuel at rest h =
      rw (find_crlf-hex_size n rest, decode)
        (rw (take_append (hex_size n) (crlf ++ rest) _ refl) (rw (chunk_size-hex_size n h)))

  decode_chunk-encoded :
      (next : ℕ → Bytes → Result Bytes) (at : ℕ) (line c rest : Bytes) {out : Bytes}
      → c ≢ []
      → at + length line + 2 + length c ≤ usize_max
      → next (at + (length line + 2 + length c + 2)) rest ≡ ok out
      → decode_chunk usize_max next at
          (line ++ (crlf ++ (c ++ (crlf ++ rest))))
          (length line)
          (length c)
        ≡ ok (c ++ out)
  unfolding decode_chunk
  decode_chunk-encoded next at line c rest h room e =
      let n = length c in
      let behind = crlf ++ (c ++ (crlf ++ rest)) in
      let some_data : (length c == 0) ≡ false = ground (arith, length_pos c h) in
      let fits : ltb (length (line ++ behind)) (length line + 2 + n) ≡ false =
        le→ltb _ _ (omega (arith, length-append line behind, length-append c (crlf ++ rest))) in
      let later : drop (length line + 2 + n + 2) (line ++ behind) ≡ rest =
        drop-append_add line behind _ (suc (suc (n + 2))) (omega arith)
        ∙ drop-append_add c (crlf ++ rest) (n + 2) 2 (omega arith) in
      let here : take n (drop (length line + 2) (line ++ behind)) ≡ c =
        ap (take n) (drop-append_add line behind _ 2 refl) ∙ take_append c (crlf ++ rest) n refl in
      rw (some_data, le→leb _ _ room) (rw fits (rw (later, here) (rw e)))

  pub decode-encode_chunks :
      (cs : List Bytes) (trailer : Bytes) (fuel at : ℕ)
      → All (λ c. c ≢ []) cs
      → length cs < fuel
      → at + length (encode_chunks cs trailer) ≤ usize_max
      → decode usize_max fuel at (encode_chunks cs trailer) ≡ ok (concat cs)
  unfolding encode_chunks
  decode-encode_chunks [] trailer zero at h k l = absurd (omega arith)
  decode-encode_chunks (c ∷ cs) trailer zero at h k l = absurd (omega arith)
  decode-encode_chunks [] trailer (suc fuel) at h k l =
      decode-hex_size 0 fuel at trailer (omega arith) ∙ unfold decode_chunk in refl
  decode-encode_chunks (c ∷ cs) trailer (suc fuel) at h k l =
      let size = length (hex_size (length c)) in
      let rest = encode_chunks cs trailer in
      let behind = crlf ++ (c ++ (crlf ++ rest)) in
      let total : length (hex_size (length c) ++ behind) ≡ size + 2 + length c + 2 + length rest =
        omega (arith, length-append (hex_size (length c)) behind, length-append c (crlf ++ rest)) in
      decode-hex_size (length c) fuel at (c ++ (crlf ++ rest)) (omega (arith, total))
      ∙ decode_chunk-encoded (decode usize_max fuel) at (hex_size (length c)) c rest h.0
          (omega (arith, total))
          (decode-encode_chunks cs trailer fuel (at + (size + 2 + length c + 2)) h.1 (omega arith)
            (omega (arith, total)))

length-encode_chunks :
    (cs : List Bytes) (trailer : Bytes) → length cs ≤ length (encode_chunks cs trailer)
unfolding encode_chunks
length-encode_chunks [] trailer = omega arith
length-encode_chunks (c ∷ cs) trailer = omega (
  arith,
  length-encode_chunks cs trailer,
  length-append (hex_size (length c)) (crlf ++ (c ++ (crlf ++ encode_chunks cs trailer))),
  length-append c (crlf ++ encode_chunks cs trailer),
)

-- A message whose body is sent in chunks.
abbrev pub chunked_message : Bytes → List Bytes → Bytes → Bytes
chunked_message head cs trailer = head ++ encode_chunks cs trailer

-- A chunked message, of no more than `usize_max` bytes, of headers that end at the first blank
-- line and a body sent in chunks of at least a byte, with a trailer behind them, in a buffer with
-- spare room behind it: `dechunk` leaves the headers and behind them the data of all chunks, and
-- returns the length of both.
pub dechunk-encode_chunks :
    (usize_max : ℕ) (head spare trailer : Bytes) (cs : List Bytes) (pos : ℕ)
    → chunked (chunked_message head cs trailer) ≡ true
    → find_double_crlf (chunked_message head cs trailer) ≡ some pos
    → pos + 4 ≡ length head
    → All (λ c. c ≢ []) cs
    → length (chunked_message head cs trailer) ≤ usize_max
    → (buffer : Bytes) × (dechunk usize_max
          (chunked_message head cs trailer ++ spare)
          (length (chunked_message head cs trailer))
        ≡ ok (buffer, length head + length (concat cs)))
      × (take (length head + length (concat cs)) buffer ≡ head ++ concat cs)
dechunk-encode_chunks usize_max head spare trailer cs pos c e f h room =
    let message = chunked_message head cs trailer in
    let s = message ++ spare in
    let t = length message in
    let whole : take t s ≡ message = take_append message spare t refl in
    let body = encode_chunks cs trailer in
    let size = length-append head body in
    let todo : slice (pos + 4) t s ≡ body =
      take-drop (t - (pos + 4)) (pos + 4) t s (omega (arith, size))
      ∙ ap (drop (pos + 4)) whole
      ∙ drop_append head body (pos + 4) f in
    let decoded =
      decode-encode_chunks usize_max cs trailer (suc t) (pos + 4) h
        (omega (arith, size, length-encode_chunks cs trailer)) (omega (arith, size)) in
    let agrees =
      dechunk-Agrees usize_max s t pos (omega (arith, length-append message spare)) (rw whole c)
        (rw whole e) in
    let (buffer, result, read) =
      Agrees-ok s t (pos + 4) (concat cs) _ (rw (todo, decoded) at agrees) in
    let front : take (pos + 4) s ≡ head =
      ap (take (pos + 4)) (append_assoc head body spare)
      ∙ take_append head (body ++ spare) (pos + 4) f in
    (
      buffer,
      result ∙ ap (λ n. ok (buffer, n + length (concat cs))) f,
      ap (λ n. take (n + length (concat cs)) buffer) (sym f)
          ∙ read
          ∙ ap (λ x. x ++ concat cs) front,
    )
