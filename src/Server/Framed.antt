-- ===== src/Server/Framed.antt =====
-- A whole request is told from its beginnings by the length that it declares.
use nanofish.Codec.Framing.{content_length}
use nanofish.Prelude.{
  ℕ, ◌+◌, ◌≤◌, ◌<◌, ◌≢◌, inl, inr, true, false, [], ◌++◌, Option, none, some, ◌≡◌, refl, sym, ap,
  ◌∙◌, Bytes, take, drop, length, length-drop, length-append, length_pos, take-append_le, min, leb,
  leb→le, le→leb, arith, Bool-cases, Option-cases,
}
use nanofish.Protocol.Find.{find_window_longer, find_window_sound, length-starts_with}
use nanofish.Protocol.{find_double_crlf, double_crlf}
use nanofish.Server.Read.{HeaderEnd}
use nanofish.Server.{next_header_end, body_complete, request_complete_at}

-- The length of a body; a request that declares none has none.
abbrev pub body_size : Option ℕ → ℕ
body_size none = 0
body_size (some wanted) = wanted

module _ (usize_max : ℕ) where
  -- A request that is its headers, which end at `hdr_end`, and the body that they declare.
  pub record Framed (whole : Bytes) : Type 0 where
    pub hdr_end : ℕ
    pub declared : Option ℕ
    pub found : find_double_crlf whole ≡ some hdr_end
    pub declares : content_length usize_max (take hdr_end whole) ≡ declared
    pub sized : length whole ≡ hdr_end + 4 + body_size declared
    pub small : length whole ≤ usize_max

  -- The end of the headers is looked for until it is there, and then it stays where it is.
  pub next-find_double_crlf :
      (header_end : Option ℕ) (got bytes : Bytes)
      → HeaderEnd got header_end
      → next_header_end header_end (got ++ bytes) ≡ find_double_crlf (got ++ bytes)
  unfolding find_double_crlf
  next-find_double_crlf none got bytes h = refl
  next-find_double_crlf (some hdr_end) got bytes h =
      sym (find_window_longer double_crlf got bytes hdr_end h)

  headers_within : (s : Bytes) (i : ℕ) → find_double_crlf s ≡ some i → i + 4 ≤ length s
  unfolding find_double_crlf
  headers_within s i found =
      let bound =
        length-starts_with double_crlf (drop i s) (find_window_sound double_crlf s i found) in
      omega (arith, bound, length-drop i s)

  some-inj : {i j : ℕ} → some i ≡ some j → i ≡ j
  some-inj e = cc

  complete_of :
      (s : Bytes) (hdr_end : ℕ) (declared : Option ℕ)
      → content_length usize_max (take hdr_end s) ≡ declared
      → hdr_end + 4 + body_size declared ≤ length s
      → body_complete usize_max s hdr_end ≡ true
  unfolding body_complete
  complete_of s hdr_end none e h = rw (e, body_complete) refl
  complete_of s hdr_end (some wanted) e h =
      rw (e, body_complete) (le→leb (min (hdr_end + 4 + wanted) usize_max) (length s) (omega arith))

  incomplete_of :
      (s : Bytes) (hdr_end : ℕ) (declared : Option ℕ)
      → content_length usize_max (take hdr_end s) ≡ declared
      → hdr_end + 4 ≤ length s
      → length s < hdr_end + 4 + body_size declared
      → hdr_end + 4 + body_size declared ≤ usize_max
      → body_complete usize_max s hdr_end ≡ false
  unfolding body_complete
  incomplete_of s hdr_end none e h k l = absurd (omega arith)
  incomplete_of s hdr_end (some wanted) e h k l =
      rw (e, body_complete)
        (elim (Bool-cases (leb (min (hdr_end + 4 + wanted) usize_max) (length s))) [
          | inl reached ↦ absurd (omega (arith, leb→le _ _ reached))
          | inr short ↦ short
        ])

  module _ (whole : Bytes) (framed : Framed whole) where
    open framed use {hdr_end, declared, found, declares, sized, small}

    pub whole_complete : request_complete_at usize_max whole (find_double_crlf whole) ≡ true
    unfolding request_complete_at
    whole_complete = rw found (complete_of whole hdr_end declared declares (omega (arith, sized)))

    -- A beginning of the request is not complete.
    pub beginning_incomplete :
        (got rest : Bytes)
        → whole ≡ got ++ rest
        → rest ≢ []
        → request_complete_at usize_max got (find_double_crlf got) ≡ false
    unfolding request_complete_at find_double_crlf
    beginning_incomplete got rest e ne = elim (Option-cases (find_double_crlf got)) [
      | inl absent ↦ rw absent refl
      | inr (i, here) ↦
          let there : find_double_crlf whole ≡ some i =
            ap find_double_crlf e ∙ find_window_longer double_crlf got rest i here in
          let same : i ≡ hdr_end = some-inj (sym there ∙ found) in
          let within = headers_within got i here in
          let size : length whole ≡ length got + length rest =
            ap length e ∙ length-append got rest in
          let head : take hdr_end got ≡ take hdr_end whole =
            sym (
              ap (take hdr_end) e
              ∙ take-append_le hdr_end got rest (omega (arith, within, same))) in
          rw here (
            rw same (
              incomplete_of got hdr_end declared (ap (content_length usize_max) head ∙ declares)
                (omega (arith, within, same)) (omega (arith, size, sized, length_pos rest ne))
                (omega (arith, sized, small))))
    ]
