-- ===== src/Request/Decode/RoundTrip.antt =====
-- What a sender encodes, `percent_decode` decodes.
use nanofish.Prelude.{
  ℕ, ◌+◌, ◌/◌, ◌%◌, ◌≤◌, ◌<◌, ◌≢◌, inl, inr, Bool, true, false, [], ◌∷◌, some, ◌≡◌, refl, sym, ap,
  ◌∙◌, leb, ◌==◌, if◌then◌else◌, Bytes, length, arith, Bool-cases, All,
}
use nanofish.Request.Decode.{hex_value, escaped, store, plain, decode_loop, percent_decode}
use nanofish.Response.Write.Put.{put, put-nil, put-bind}
use nanofish.Result.{ok, err, ◌>>=◌, buffer_overflow, >>=-ok}
use nanofish.Text.Number.Print.{digit_char}
use nanofish.Text.Utf8.{from_utf8}

hex_value-digit_char : (d : ℕ) → d < 16 → hex_value (digit_char d) ≡ some d
unfolding hex_value
hex_value-digit_char d h = ground arith

escaped_lem : (b : ℕ) → b < 256 → escaped (digit_char (b / 16)) (digit_char (b % 16)) ≡ ok b
unfolding escaped
escaped_lem b h =
    rw (hex_value-digit_char (b / 16) (omega arith))
      (rw (hex_value-digit_char (b % 16) (omega arith)) (ap (λ i. ok i) (omega arith)))

store_lem : (n : ℕ) (w : Bytes) (d : ℕ) → store n w d ≡ put n w (d ∷ [])
unfolding store
store_lem n w d = ground arith

decode_loop-plain :
    (n : ℕ) (w : Bytes) (b : ℕ) (s : Bytes)
    → (b == b'%') ≡ false
    → decode_loop n w (b ∷ s) ≡ (put n w (plain b ∷ []) >>= λ more. decode_loop n more s)
unfolding decode_loop
decode_loop-plain n w b [] h =
    rw (h, decode_loop) (store_lem n w (plain b) ∙ sym (>>=-ok (put n w (plain b ∷ []))))
decode_loop-plain n w b (c ∷ []) h = rw (h, decode_loop) (rw (store_lem n w (plain b)))
decode_loop-plain n w b (c ∷ d ∷ s) h = rw (h, decode_loop) (rw (store_lem n w (plain b)))

decode_loop-escape :
    (n : ℕ) (w : Bytes) (b : ℕ) (s : Bytes)
    → b < 256
    → decode_loop n w (b'%' ∷ digit_char (b / 16) ∷ digit_char (b % 16) ∷ s)
      ≡ (put n w (b ∷ []) >>= λ more. decode_loop n more s)
unfolding decode_loop
decode_loop-escape n w b s h = rw (escaped_lem b h) (rw (store_lem n w b))

-- An encoder of form data: it keeps the bytes that `keep` tells it to, writes a plus for a space,
-- and escapes the rest.
module _ (keep : ℕ → Bool) where
  abbrev pub percent_encode : Bytes → Bytes
  percent_encode [] = []
  percent_encode (b ∷ s) =
      if keep b
      then b ∷ percent_encode s
      else if b == b' '
      then b'+' ∷ percent_encode s
      else b'%' ∷ digit_char (b / 16) ∷ digit_char (b % 16) ∷ percent_encode s

  module _ (kept : (b : ℕ) → keep b ≡ true → (b ≢ b'%') × (b ≢ b'+')) where
    decode_loop-percent_encode :
        (n : ℕ) (w s : Bytes)
        → All (λ b. b < 256) s
        → length w ≤ n
        → decode_loop n w (percent_encode s) ≡ put n w s
    unfolding decode_loop
    decode_loop-percent_encode n w [] h fits = sym (put-nil n w fits)
    decode_loop-percent_encode n w (b ∷ s) (h, hs) fits =
        let after : (w : Bytes) → length w ≤ n → decode_loop n w (percent_encode s) ≡ put n w s =
          λ w k. decode_loop-percent_encode n w s hs k in
        elim (Bool-cases (keep b)) [
          | inl yes_kept ↦
              let same : plain b ≡ b = ground (arith, kept b yes_kept) in
              rw (yes_kept, percent_encode)
                (decode_loop-plain n w b (percent_encode s) (ground (arith, kept b yes_kept))
                  ∙ rw same (put-bind n w (b ∷ []) s _ after))
          | inr no_kept ↦ elim (Bool-cases (b == b' ')) [
            | inl space ↦
                let same : b' ' ≡ b = ground arith in
                rw (no_kept, percent_encode)
                  (rw (space, percent_encode)
                    (decode_loop-plain n w b'+' (percent_encode s) refl
                      ∙ put-bind n w (b' ' ∷ []) s _ after
                      ∙ ap (λ c. put n w (c ∷ s)) same))
            | inr other ↦
                rw (no_kept, percent_encode)
                  (rw (other, percent_encode)
                    (decode_loop-escape n w b (percent_encode s) h
                      ∙ put-bind n w (b ∷ []) s _ after))
          ]
        ]

    -- UTF-8 text of bytes that an encoder has encoded, one that keeps neither percent signs nor
    -- plus signs, is decoded to what it was if it fits in the output, and else the buffer
    -- overflows.
    pub percent_decode-percent_encode :
        (out_len : ℕ) (s : Bytes)
        → All (λ b. b < 256) s
        → from_utf8 s ≡ some s
        → percent_decode out_len (percent_encode s)
          ≡ (if leb (length s) out_len then ok s else err buffer_overflow)
    unfolding percent_decode
    percent_decode-percent_encode out_len s h text =
        rw (decode_loop-percent_encode out_len [] s h (omega arith))
          (elim (Bool-cases (leb (length s) out_len)) [
            | inl room ↦
                let here : leb (0 + length s) out_len ≡ true = ground arith in
                rw (here, room) (rw text)
            | inr full ↦
                let here : leb (0 + length s) out_len ≡ false = ground arith in rw (here, full)
          ])
