-- ===== src/Codec/Dechunk/Copy.antt =====
-- What one `copy_within` towards the front does to the buffer.
use nanofish.Codec.Dechunk.{slice, copy_within}
use nanofish.Prelude.{
  ℕ, ◌+◌, ◌-◌, ◌≤◌, ◌++◌, ◌≡◌, Bytes, take, drop, length, arith, le→leb, length-append, length-take,
  length-drop, append_assoc, take_append, drop-append_add, drop-drop, ◌∙◌, ap, sym,
}
use nanofish.Result.{ok}

abbrev pub moved : Bytes → ℕ → ℕ → ℕ → Bytes
moved s start end dest = take dest s ++ (slice start end s ++ drop (dest + (end - start)) s)

module _ (s : Bytes) (start end dest : ℕ) (h : start ≤ end) (k : end ≤ length s)
    (m : dest ≤ start) where
  length-slice : length (slice start end s) ≡ end - start
  length-slice = omega (arith, length-take (end - start) (drop start s), length-drop start s)

  pub copy_within-moved : copy_within s start end dest ≡ ok (moved s start end dest)
  unfolding copy_within
  copy_within-moved = rw (
    le→leb start end h,
    le→leb end (length s) k,
    le→leb (dest + (end - start)) (length s) (omega arith),
  )

  pub length-moved : length (moved s start end dest) ≡ length s
  length-moved = omega (
    arith,
    length-append (take dest s) (slice start end s ++ drop (dest + (end - start)) s),
    length-append (slice start end s) (drop (dest + (end - start)) s),
    length-slice,
    length-take dest s,
    length-drop (dest + (end - start)) s,
  )

  pub take-moved :
      (n : ℕ)
      → n ≡ dest + (end - start)
      → take n (moved s start end dest) ≡ take dest s ++ slice start end s
  take-moved n e =
      rw (← append_assoc (take dest s) (slice start end s) (drop (dest + (end - start)) s)) (
        take_append (take dest s ++ slice start end s) _ n (
          omega (
            arith,
            length-append (take dest s) (slice start end s),
            length-slice,
            length-take dest s,
          )))

  -- Behind the copied bytes nothing has changed.
  pub drop-moved : (i : ℕ) → dest + (end - start) ≤ i → drop i (moved s start end dest) ≡ drop i s
  drop-moved i e =
      ap (drop i) (sym (append_assoc (take dest s) (slice start end s) _))
      ∙ drop-append_add (take dest s ++ slice start end s) _ i (i - (dest + (end - start))) (
          omega (
            arith,
            length-append (take dest s) (slice start end s),
            length-slice,
            length-take dest s,
          ))
      ∙ drop-drop (i - (dest + (end - start))) (dest + (end - start)) i s (omega arith)
