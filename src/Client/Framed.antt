-- ===== src/Client/Framed.antt =====
-- A whole response is told from its beginnings by the length that it declares.
use mathlib.Core.Path.{subst}
use nanofish.Client.Arrive.{Arrives, last, more, again}
use nanofish.Codec.Framing.Complete.{complete-content_length}
use nanofish.Codec.Framing.{chunked, chunked_header, complete, content_length}
use nanofish.Io.Brings.{Reads, together}
use nanofish.Io.{Stream}
use nanofish.Prelude.{
  ℕ, ◌+◌, ◌-◌, ◌≤◌, ◌<◌, ◌≢◌, inl, inr, true, false, List, [], ◌∷◌, ◌++◌, none, some, ◌≡◌, refl,
  sym, ap, ◌∙◌, Bytes, take, drop, length, append_assoc, append-nil, length-append, length-drop,
  length_pos, take-append_le, arith, Bool-cases, Option-cases,
}
use nanofish.Protocol.Find.{find_window_longer, find_window_sound, length-starts_with}
use nanofish.Protocol.{find_double_crlf, double_crlf}

-- A response that is its headers, which end at `hdr_end`, and a body of the length that they
-- declare, which is not chunked.
pub record Framed (usize_max : ℕ) (whole : Bytes) : Type 0 where
  pub hdr_end : ℕ
  pub wanted : ℕ
  pub found : find_double_crlf whole ≡ some hdr_end
  pub plain : chunked_header (take (hdr_end + 4) whole) ≡ false
  pub declares : content_length usize_max (take (hdr_end + 4) whole) ≡ some wanted
  pub sized : length whole ≡ hdr_end + 4 + wanted

some-inj : {i j : ℕ} → some i ≡ some j → i ≡ j
some-inj e = cc

module _ (stream : Stream) (retry_delay : stream.State → stream.State) where
  open stream use {State}

  -- The world `st` brings these pieces, none of them empty, and fewer errors than the retries.
  pub data Comes : ℕ → State → List Bytes → Type 0 where
    done : (retries : ℕ) (st : State) → Comes retries st []
    piece :
        (retries : ℕ) (st next : State) (bytes : Bytes) (pieces : List Bytes)
        → bytes ≢ []
        → Reads stream st bytes next
        → Comes retries next pieces
        → Comes retries st (bytes ∷ pieces)
    error :
        (retries : ℕ) (st next : State) (pieces : List Bytes)
        → 1 < retries
        → ((room : ℕ) → stream.read st room ≡ (none, next))
        → Comes (retries - 1) (retry_delay next) pieces
        → Comes retries st pieces

  together_ne_nil :
      (retries : ℕ) (st : State) (bytes : Bytes) (pieces : List Bytes)
      → Comes retries st (bytes ∷ pieces)
      → together (bytes ∷ pieces) ≢ []
  together_ne_nil retries st [] pieces (piece _ _ _ _ _ ne _ _) = absurd (ne refl)
  together_ne_nil retries st [] pieces (error _ _ next _ _ _ c) =
      together_ne_nil (retries - 1) (retry_delay next) [] pieces c
  together_ne_nil retries st (b ∷ bs) pieces c = λ e. cc

module _ (usize_max : ℕ) (whole : Bytes) (framed : Framed usize_max whole) where
  open framed use {hdr_end, wanted, found, plain, declares, sized}

  pub whole-chunked : chunked whole ≡ false
  unfolding chunked
  whole-chunked = rw (found, chunked) plain

  whole-complete : complete usize_max whole ≡ true
  whole-complete =
      (complete-content_length usize_max whole hdr_end wanted found whole-chunked declares).1
        (omega (arith, sized))

  -- A beginning of the response is not complete.
  beginning_incomplete :
      (got rest : Bytes) → whole ≡ got ++ rest → rest ≢ [] → complete usize_max got ≡ false
  unfolding complete chunked find_double_crlf
  beginning_incomplete got rest e ne = elim (Option-cases (find_double_crlf got)) [
    | inl absent ↦ rw (absent, complete) refl
    | inr (i, here) ↦
        let there : find_double_crlf whole ≡ some i =
          ap find_double_crlf e ∙ find_window_longer double_crlf got rest i here in
        let same : i ≡ hdr_end = some-inj (sym there ∙ found) in
        let here' : find_double_crlf got ≡ some hdr_end = here ∙ ap some same in
        let bound =
          length-starts_with double_crlf (drop i got) (find_window_sound double_crlf got i here) in
        let within : hdr_end + 4 ≤ length got = omega (arith, bound, length-drop i got, same) in
        let size : length whole ≡ length got + length rest = ap length e ∙ length-append got rest in
        let head : take (hdr_end + 4) got ≡ take (hdr_end + 4) whole =
          sym (ap (take (hdr_end + 4)) e ∙ take-append_le (hdr_end + 4) got rest within) in
        let flat : chunked got ≡ false = rw (here', chunked) (ap chunked_header head ∙ plain) in
        let known =
          complete-content_length usize_max got hdr_end wanted here' flat
            (ap (content_length usize_max) head ∙ declares) in
        elim (Bool-cases (complete usize_max got)) [
          | inl early ↦ absurd (omega (arith, known.0 early, size, sized, length_pos rest ne))
          | inr open_end ↦ open_end
        ]
  ]

  module _ (stream : Stream) (retry_delay : stream.State → stream.State) (buf_len : ℕ)
      (fits : length whole ≤ buf_len) where
    open stream use {State}

    -- Pieces that make up the response make it arrive, wherever it is cut.
    pub Comes-Arrives :
        (got bytes : Bytes) (pieces : List Bytes) (retries : ℕ) (st : State)
        → whole ≡ got ++ together (bytes ∷ pieces)
        → 0 < retries
        → Comes stream retry_delay retries st (bytes ∷ pieces)
        → Arrives usize_max stream retry_delay buf_len got retries st whole
    Comes-Arrives got bytes [] retries st e h (piece _ _ next _ _ ne r c) =
        let all : whole ≡ got ++ bytes = e ∙ ap (λ s. got ++ s) (append-nil bytes) in
        let size : length whole ≡ length got + length bytes =
          ap length all ∙ length-append got bytes in
        subst (Arrives usize_max stream retry_delay buf_len got retries st) (sym all) (
          last got bytes retries st next ne (omega (arith, size)) h r
            (ap (complete usize_max) (sym all) ∙ whole-complete))
    Comes-Arrives got bytes (b ∷ bs) retries st e h (piece _ _ next _ _ ne r c) =
        let rest = together (b ∷ bs) in
        let e' : whole ≡ (got ++ bytes) ++ rest = e ∙ sym (append_assoc got bytes rest) in
        let size : length whole ≡ (length got + length bytes) + length rest =
          omega (arith, ap length e', length-append (got ++ bytes) rest, length-append got bytes) in
        more got bytes retries st next whole ne (omega (arith, size)) h r
          (beginning_incomplete (got ++ bytes) rest e'
            (together_ne_nil stream retry_delay retries next b bs c))
          (Comes-Arrives (got ++ bytes) b bs retries next e' h c)
    Comes-Arrives got bytes pieces retries st e h (error _ _ next _ left f c) =
        let rest = together (bytes ∷ pieces) in
        let ne =
          together_ne_nil stream retry_delay (retries - 1) (retry_delay next) bytes pieces c in
        let size : length whole ≡ length got + length rest = ap length e ∙ length-append got rest in
        again got retries st next whole (omega (arith, size, length_pos rest ne)) left f
          (Comes-Arrives got bytes pieces (retries - 1) (retry_delay next) e (omega arith) c)
