-- ===== src/Tests/Dechunking.antt =====
-- Chunked bodies.
use nanofish.Codec.Dechunk.Decode.{decode}
use nanofish.Codec.Dechunk.Oversized.{sized_message, dechunk-oversized}
use nanofish.Codec.Dechunk.Refine.{Agrees}
use nanofish.Codec.Dechunk.RoundTrip.{encode_chunks, chunked_message, concat, dechunk-encode_chunks}
use nanofish.Codec.Dechunk.Total.{dechunk-Agrees}
use nanofish.Codec.Dechunk.{slice, dechunk}
use nanofish.Codec.Framing.{chunked}
use nanofish.Prelude.{◌+◌, List, [], ◌∷◌, ◌++◌, ◌≡◌, refl, Bytes, codes, length, take, arith, suc}
use nanofish.Protocol.{find_double_crlf}
use nanofish.Result.{ok, panic}
use nanofish.Text.Number.Print.{print_radix}

abbrev head : Bytes
head = codes "HTTP/1.1 200 OK\r\nTransfer-Encoding: chunked\r\n\r\n"

abbrev message : Bytes
message =
    codes "HTTP/1.1 200 OK\r\nTransfer-Encoding: chunked\r\n\r\n2\r\nab\r\n1;x\r\nc\r\n0\r\n\r\n"

abbrev pieces : List Bytes
pieces = codes "ab" ∷ codes "c" ∷ []

dechunk-Agrees_example :
    Agrees message
      (length message)
      (43 + 4)
      (decode 255 (suc (length message)) (43 + 4) (slice (43 + 4) (length message) message))
      (dechunk 255 message (length message))
unfolding chunked find_double_crlf
dechunk-Agrees_example = dechunk-Agrees 255 message (length message) 43 (omega arith) refl refl

dechunk-encode_chunks_example :
    (buffer : Bytes) × (dechunk 255
        (chunked_message head pieces [] ++ codes "rest")
        (length (chunked_message head pieces []))
      ≡ ok (buffer, length head + length (concat pieces)))
    × (take (length head + length (concat pieces)) buffer ≡ head ++ concat pieces)
unfolding chunked find_double_crlf print_radix encode_chunks
dechunk-encode_chunks_example =
    dechunk-encode_chunks 255 head (codes "rest") [] pieces 43 refl refl refl (cc, (cc, tt))
      (omega arith)

dechunk-oversized_example :
    dechunk 255
      (sized_message head 255 (codes "ab") ++ [])
      (length (sized_message head 255 (codes "ab")))
    ≡ panic
unfolding chunked find_double_crlf print_radix
dechunk-oversized_example =
    dechunk-oversized 255 head [] (codes "ab") 255 43 refl refl refl (omega arith) (omega arith)
      (omega arith)
