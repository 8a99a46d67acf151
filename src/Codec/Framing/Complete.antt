-- ===== src/Codec/Framing/Complete.antt =====
-- When `complete` counts a response as complete.
use mathlib.Core.Option
use nanofish.Codec.Framing.{chunked, content_length, complete, complete_from}
use nanofish.Prelude.{
  ℕ, suc, ◌+◌, ◌≤◌, ◌↔◌, inl, inr, ◌⊎◌, true, false, [], ◌∷◌, ◌++◌, Option, none, some, ◌≡◌, ◌≢◌,
  refl, sym, ap, ◌∙◌, leb→le, le→leb, is_some, Bytes, take, drop, length, length-drop,
  take-append-drop, arith, Bool-cases, Option-cases,
}
use nanofish.Protocol.Find.{
  starts_with-append, starts_with_split, find_window_sound, length-starts_with,
}
use nanofish.Protocol.{find_double_crlf, chunked_end_marker, double_crlf}
use nanofish.Text.Split.{find_window, starts_with}

-- A window that stands anywhere is found.
is_some-map : (o : Option ℕ) → is_some (Option.map suc o) ≡ is_some o
is_some-map none = refl
is_some-map (some i) = refl

find_window_there :
    (pat head rest : Bytes) → pat ≢ [] → is_some (find_window pat (head ++ (pat ++ rest))) ≡ true
unfolding find_window
find_window_there [] head rest h = absurd (h refl)
find_window_there (p ∷ pat) [] rest h = rw (starts_with-append (p ∷ pat) rest) refl
find_window_there (p ∷ pat) (a ∷ head) rest h =
    elim (Bool-cases (starts_with (p ∷ pat) (a ∷ (head ++ (p ∷ pat ++ rest))))) [
      | inl here ↦ rw here refl
      | inr later ↦ rw later (
          is_some-map (find_window (p ∷ pat) (head ++ (p ∷ pat ++ rest)))
          ∙ find_window_there (p ∷ pat) head rest h)
    ]

-- A run of bytes that stands somewhere in a text.
abbrev pub Occurs : Bytes → Bytes → Type 0
Occurs pat s = (before : Bytes) × (behind : Bytes) × (s ≡ before ++ (pat ++ behind))

find_window_iff : (pat s : Bytes) → pat ≢ [] → (is_some (find_window pat s) ≡ true) ↔ Occurs pat s
find_window_iff pat s h = (
  λ e. elim (Option-cases (find_window pat s)) [
    | inl absent ↦ let no : false ≡ true = rw absent at e in cc
    | inr (i, found) ↦ (
      take i s,
      drop (length pat) (drop i s),
      sym (take-append-drop i s)
          ∙ ap (λ t. take i s ++ t)
              (starts_with_split pat (drop i s) (find_window_sound pat s i found)),
    )
  ],
  λ (before, behind, cut). rw cut (find_window_there pat before behind h),
)

module _ (usize_max : ℕ) where
  -- A response whose headers end at `pos` and give a length, and no chunked body, is complete
  -- exactly when that many bytes stand behind the blank line.
  pub complete-content_length :
      (s : Bytes) (pos wanted : ℕ)
      → find_double_crlf s ≡ some pos
      → chunked s ≡ false
      → content_length usize_max (take (pos + 4) s) ≡ some wanted
      → (complete usize_max s ≡ true) ↔ (pos + 4 + wanted ≤ length s)
  unfolding complete complete_from find_double_crlf
  complete-content_length s pos wanted found plain declared =
      let bound =
        length-starts_with double_crlf (drop pos s) (find_window_sound double_crlf s pos found) in
      let within : pos + 4 ≤ length s = omega (arith, bound, length-drop pos s) in
      rw (found, complete)
        (rw (plain, complete_from)
          (rw (declared, complete_from)
            ((λ e. omega (arith, leb→le _ _ e, within), λ e. le→leb _ _ (omega (arith, e))))))

  -- A message whose headers end at `pos` is whole: a chunked one with the end marker, wherever it
  -- stands; any other with a declared length, and as many bytes behind the headers.
  abbrev pub Whole : Bytes → ℕ → Type 0
  Whole s pos =
      ((chunked s ≡ true) × Occurs chunked_end_marker s)
      ⊎ ((chunked s ≡ false)
          × ((wanted : ℕ) × (content_length usize_max (take (pos + 4) s) ≡ some wanted)
              × (pos + 4 + wanted ≤ length s)))

  complete_from_iff :
      (s : Bytes) (pos : ℕ)
      → find_double_crlf s ≡ some pos
      → (complete usize_max s ≡ true) ↔ Whole s pos
  unfolding complete complete_from
  complete_from_iff s pos found = elim (Bool-cases (chunked s)) [
    | inl coded ↦
        let same : complete usize_max s ≡ is_some (find_window chunked_end_marker s) =
          rw (found, complete) (rw (coded, complete_from) refl) in
        let marker = find_window_iff chunked_end_marker s (λ e. cc) in
        (
          λ e. inl (coded, marker.0 (sym same ∙ e)),
          λ w. elim w [
            | inl (_, there) ↦ same ∙ marker.1 there
            | inr (plain, _) ↦ let no : true ≡ false = sym coded ∙ plain in cc
          ],
        )
    | inr plain ↦ elim (Option-cases (content_length usize_max (take (pos + 4) s))) [
      | inl undeclared ↦
          let open_end : complete usize_max s ≡ false =
            rw (found, complete)
              (rw (plain, complete_from) (rw (undeclared, complete_from) refl)) in
          (
            λ e. let no : false ≡ true = sym open_end ∙ e in cc,
            λ w. elim w [
              | inl (coded, _) ↦ let no : true ≡ false = sym coded ∙ plain in cc
              | inr (_, (wanted, declared, _)) ↦
                  let no : none ≡ some wanted = sym undeclared ∙ declared in cc
            ],
          )
      | inr (wanted, declared) ↦
          let sized = complete-content_length s pos wanted found plain declared in
          (
            λ e. inr (plain, (wanted, declared, sized.0 e)),
            λ w. elim w [
              | inl (coded, _) ↦ let no : true ≡ false = sym coded ∙ plain in cc
              | inr (_, (other, stated, there)) ↦
                  let same : some wanted ≡ some other = sym declared ∙ stated in
                  sized.1 (ground (arith, there, same))
            ],
          )
    ]
  ]

  -- A response is complete exactly if its headers have an end and, if it is chunked, the end marker
  -- stands somewhere in it, be it in the headers or within the data of a chunk, and if it is not
  -- chunked, it declares a length and at least as many bytes stand behind the headers.
  pub complete_iff :
      (s : Bytes)
      → (complete usize_max s ≡ true) ↔ ((pos : ℕ) × (find_double_crlf s ≡ some pos) × Whole s pos)
  unfolding complete
  complete_iff s = elim (Option-cases (find_double_crlf s)) [
    | inl absent ↦
        let open_end : complete usize_max s ≡ false = rw (absent, complete) refl in
        (
          λ e. let no : false ≡ true = sym open_end ∙ e in cc,
          λ (pos, found, _). let no : none ≡ some pos = sym absent ∙ found in cc,
        )
    | inr (pos, found) ↦ (
      λ e. (pos, found, (complete_from_iff s pos found).0 e),
      λ (at, there, w). (complete_from_iff s at there).1 w,
    )
  ]
