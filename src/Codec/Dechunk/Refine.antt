-- ===== src/Codec/Dechunk/Refine.antt =====
-- The in-place loop agrees with `decode`, on every input.
use nanofish.Codec.Dechunk.Copy.{moved, copy_within-moved, length-moved, take-moved, drop-moved}
use nanofish.Codec.Dechunk.Decode.{decode, decode_chunk}
use nanofish.Codec.Dechunk.{slice, chunk_size, dechunk_chunk, dechunk_loop}
use nanofish.Prelude.{
  ℕ, zero, suc, ◌+◌, ◌-◌, ◌≤◌, inl, inr, false, [], ◌++◌, some, ◌≡◌, refl, sym, ap, ◌∙◌, ltb, leb,
  ◌==◌, Bytes, take, drop, length, arith, Bool-cases, Option-cases, length-append, length-take,
  length-drop, append_assoc, append-nil, take-drop, take-take, drop-drop, lt→ltb, drop-take,
  length-eq-zero,
}
use nanofish.Protocol.Find.{find_window_sound, length-starts_with}
use nanofish.Protocol.{find_crlf, crlf}
use nanofish.Text.Split.{find_window}
use nanofish.Result.{Result, ok, err, panic, out_of_fuel, ◌>>=◌, Result-cases}

-- The result of the loop against that of `decode`: the decoded bytes stand behind what was
-- written before, the length and the bytes behind the input are kept, and failures are the same.
abbrev pub Agrees : Bytes → ℕ → ℕ → Result Bytes → Result (Bytes × ℕ) → Type 0
Agrees buffer total_read write_pos (ok out) (ok (buffer', end)) =
    (end ≡ write_pos + length out)
    × (take end buffer' ≡ take write_pos buffer ++ out)
    × (length buffer' ≡ length buffer)
    × (drop total_read buffer' ≡ drop total_read buffer)
Agrees buffer total_read write_pos (err e) (err e') = e ≡ e'
Agrees buffer total_read write_pos panic panic = Unit
Agrees buffer total_read write_pos out_of_fuel out_of_fuel = Unit
Agrees buffer total_read write_pos _ _ = ⊥

Agrees-nothing :
    (buffer : Bytes) (total_read write_pos : ℕ)
    → Agrees buffer total_read write_pos (ok []) (ok (buffer, write_pos))
Agrees-nothing buffer total_read write_pos =
    (omega arith, sym (append-nil (take write_pos buffer)), refl, refl)

add-sub : (a b : ℕ) → a + b - a ≡ b
add-sub a b = omega arith

-- One more chunk in front of what the rest of the loop does.
Agrees-moved :
    (s : Bytes) (total_read start size dest : ℕ) (d : Result Bytes) (r : Result (Bytes × ℕ))
    → start + size ≤ total_read
    → total_read ≤ length s
    → dest ≤ start
    → Agrees (moved s start (start + size) dest) total_read (dest + size) d r
    → Agrees s total_read dest (d >>= λ rest. ok (take size (drop start s) ++ rest)) r
Agrees-moved s total_read start size dest (ok out) (ok (buffer', end)) h k m (e, f, l, t) =
    let width : start + size - start ≡ size = add-sub start size in
    let n : length (take size (drop start s)) ≡ size =
      omega (arith, length-take size (drop start s), length-drop start s) in
    (
      omega (arith, n, length-append (take size (drop start s)) out),
      f
          ∙ ap (λ p. p ++ out)
              (take-moved s start (start + size) dest (omega arith) (omega arith) m _ (omega arith)
                ∙ ap (λ i. take dest s ++ take i (drop start s)) width)
          ∙ append_assoc (take dest s) (take size (drop start s)) out,
      l ∙ length-moved s start (start + size) dest (omega arith) (omega arith) m,
      t
          ∙ drop-moved s start (start + size) dest (omega arith) (omega arith) m total_read
              (omega arith),
    )
Agrees-moved s total_read start size dest (err e) (err e') h k m a = a
Agrees-moved s total_read start size dest panic panic h k m a = tt
Agrees-moved s total_read start size dest out_of_fuel out_of_fuel h k m a = tt
Agrees-moved s total_read start size dest (ok out) (err e) h k m a = a
Agrees-moved s total_read start size dest (ok out) panic h k m a = a
Agrees-moved s total_read start size dest (ok out) out_of_fuel h k m a = a
Agrees-moved s total_read start size dest (err e) (ok r) h k m a = a
Agrees-moved s total_read start size dest (err e) panic h k m a = a
Agrees-moved s total_read start size dest (err e) out_of_fuel h k m a = a
Agrees-moved s total_read start size dest panic (ok r) h k m a = a
Agrees-moved s total_read start size dest panic (err e) h k m a = a
Agrees-moved s total_read start size dest panic out_of_fuel h k m a = a
Agrees-moved s total_read start size dest out_of_fuel (ok r) h k m a = a
Agrees-moved s total_read start size dest out_of_fuel (err e) h k m a = a
Agrees-moved s total_read start size dest out_of_fuel panic h k m a = a

-- The pieces of `todo`, the bytes at `r` to `total_read`, stand in the buffer.
module _ (s : Bytes) (total_read r : ℕ) where
  length-todo : total_read ≤ length s → length (slice r total_read s) ≡ total_read - r
  length-todo k = omega (arith, length-take (total_read - r) (drop r s), length-drop r s)

  todo-line : (p : ℕ) → r + p ≤ total_read → slice r (r + p) s ≡ take p (slice r total_read s)
  todo-line p h = rw (add-sub r p) (sym (take-take p (total_read - r) (drop r s) (omega arith)))

  todo_chunk :
      (p size start : ℕ)
      → start ≡ r + p
      → start + size ≤ total_read
      → take size (drop start s) ≡ take size (drop p (slice r total_read s))
  todo_chunk p size start e h =
      ap (take size) (sym (drop-drop p r start s e))
      ∙ take-drop size p (p + size) (drop r s) refl
      ∙ ap (drop p) (sym (take-take (p + size) (total_read - r) (drop r s) (omega arith)))
      ∙ sym (take-drop size p (p + size) (slice r total_read s) refl)

  todo_rest :
      (t : Bytes) (q i : ℕ)
      → i ≡ r + q
      → drop i t ≡ drop i s
      → slice i total_read t ≡ drop q (slice r total_read s)
  todo_rest t q i e same =
      let room : total_read - i ≡ total_read - r - q = omega arith in
      ap (take (total_read - i)) (same ∙ sym (drop-drop q r i s e))
      ∙ ap (λ n. take n (drop q (drop r s))) room
      ∙ sym (drop-take q (total_read - r) (drop r s))

pub find_crlf_le : (s : Bytes) (p : ℕ) → find_crlf s ≡ some p → p + 2 ≤ length s
unfolding find_crlf
find_crlf_le s p e =
    omega
      (arith, length-starts_with crlf (drop p s) (find_window_sound crlf s p e), length-drop p s)

-- What agrees with a decoding that succeeds.
pub Agrees-ok :
    (buffer : Bytes) (total_read write_pos : ℕ) (out : Bytes) (r : Result (Bytes × ℕ))
    → Agrees buffer total_read write_pos (ok out) r
    → (buffer' : Bytes) × (r ≡ ok (buffer', write_pos + length out))
      × (take (write_pos + length out) buffer' ≡ take write_pos buffer ++ out)
Agrees-ok buffer total_read write_pos out (ok (buffer', end)) a =
    (buffer', ap (λ n. ok (buffer', n)) a.0, ap (λ n. take n buffer') (sym a.0) ∙ a.1)
Agrees-ok buffer total_read write_pos out (err e) a = absurd a
Agrees-ok buffer total_read write_pos out panic a = absurd a
Agrees-ok buffer total_read write_pos out out_of_fuel a = absurd a

module _ (usize_max : ℕ) where
  -- A round that has read the size `n` from a line of `p` bytes, given the rounds behind it.
  chunk-Agrees :
      (later : ℕ → Bytes → Result Bytes) (next : Bytes → ℕ → ℕ → Result (Bytes × ℕ)) (s : Bytes)
      (total_read r w p n : ℕ)
      → ((s' : Bytes) (r' w' : ℕ)
          → w' ≤ r'
          → total_read ≤ length s'
          → Agrees s' total_read w' (later r' (slice r' total_read s')) (next s' r' w'))
      → w ≤ r
      → total_read ≤ length s
      → r + p + 2 ≤ total_read
      → Agrees s total_read w
          (decode_chunk usize_max later r (slice r total_read s) p n)
          (dechunk_chunk usize_max next s total_read w (r + p) n)
  unfolding decode_chunk dechunk_chunk
  chunk-Agrees later next s total_read r w p n ih h k bound =
      let start = r + p + 2 in
      let after = moved s start (start + n) w in
      elim (Bool-cases (n == 0)) [
        | inl z ↦ rw z (Agrees-nothing s total_read w)
        | inr nz ↦ rw nz (elim (Bool-cases (leb (r + p + 2 + n) usize_max)) [
          | inr over ↦ rw over tt
          | inl room ↦ rw room (elim (Bool-cases (ltb total_read (r + p + 2 + n))) [
            | inl short ↦
                let size = length-todo s total_read r k in
                rw (short, lt→ltb (length (slice r total_read s)) (p + 2 + n) (ground arith)) refl
            | inr fits ↦
                let size = length-todo s total_read r k in
                let end : start + n ≤ total_read = ground arith in
                let same =
                  length-moved s start (start + n) w (omega arith) (omega arith) (omega arith) in
                let kept =
                  drop-moved s start (start + n) w (omega arith) (omega arith) (omega arith) in
                let at : r + (p + 2 + n + 2) ≡ start + n + 2 = omega arith in
                let rest =
                  todo_rest s total_read r after (p + 2 + n + 2) (start + n + 2) (omega arith)
                    (kept (start + n + 2) (omega arith)) in
                let here = todo_chunk s total_read r (p + 2) n start (omega arith) end in
                let ahead : (w == start) ≡ false = ground arith in
                let long : ltb (length (slice r total_read s)) (p + 2 + n) ≡ false = ground arith in
                rw (fits, long, ahead)
                  (rw
                    (copy_within-moved s start (start + n) w (omega arith) (omega arith)
                      (omega arith))
                    (rw (at, ← rest, ← here)
                      (Agrees-moved s total_read start n w _ _ end k (omega arith)
                        (ih after (start + n + 2) (w + n) (omega arith) (omega arith)))))
          ])
        ])
      ]

  pub loop-Agrees :
      (fuel : ℕ) (s : Bytes) (total_read r w : ℕ)
      → w ≤ r
      → total_read ≤ length s
      → Agrees s total_read w
          (decode usize_max fuel r (slice r total_read s))
          (dechunk_loop usize_max fuel total_read s r w)
  unfolding decode dechunk_loop
  loop-Agrees zero s total_read r w h k = tt
  loop-Agrees (suc fuel) s total_read r w h k = elim (Bool-cases (ltb r total_read)) [
    | inr past ↦
        let size = length-todo s total_read r k in
        let none_left : slice r total_read s ≡ [] = length-eq-zero _ (ground arith) in
        rw (past, dechunk_loop)
          (rw none_left (unfold find_crlf find_window in Agrees-nothing s total_read w))
    | inl more ↦
        rw (more, dechunk_loop)
          (elim (Option-cases (find_crlf (slice r total_read s))) [
            | inl e ↦ rw (e, dechunk_loop, decode) (Agrees-nothing s total_read w)
            | inr (p, e) ↦
                let bound = find_crlf_le _ p e in
                let size = length-todo s total_read r k in
                rw (e, dechunk_loop, decode)
                  (rw (todo-line s total_read r p (omega arith))
                    (elim (Result-cases (chunk_size usize_max (take p (slice r total_read s)))) [
                      | inl (n, f) ↦ rw f (
                          chunk-Agrees (decode usize_max fuel)
                            (dechunk_loop usize_max fuel total_read) s total_read r w p n
                            (λ s' r' w'. loop-Agrees fuel s' total_read r' w') h k (omega arith))
                      | inr (inl (x, f)) ↦ rw f refl
                      | inr (inr (inl f)) ↦ rw f tt
                      | inr (inr (inr f)) ↦ rw f tt
                    ]))
          ])
  ]
