-- ===== src/Text/Space/Words.antt =====
-- Words between blanks, and a blank in front of text that is trimmed.
use nanofish.Prelude.{
  ◌≢◌, List, [], ◌∷◌, ◌++◌, ◌≡◌, refl, sym, ap, ◌∙◌, Bytes, All, append_assoc, append-nil,
}
use nanofish.Text.Space.Plain.{IsVisible, space_width_visible}
use nanofish.Text.Space.{space_width, strip_front, trim, words_from, keep_word, split_whitespace}

space_width_blank : (r : Bytes) → space_width (b' ' ∷ r) ≡ 1
unfolding space_width
space_width_blank [] = refl
space_width_blank (b ∷ []) = refl
space_width_blank (b ∷ c ∷ r) = refl

-- A blank in front is trimmed away.
pub trim-blank : (s : Bytes) → trim (b' ' ∷ s) ≡ trim s
unfolding trim strip_front
trim-blank s = rw (space_width_blank s)

keep_word_some : (w : Bytes) (ws : List Bytes) → w ≢ [] → keep_word w ws ≡ w ∷ ws
keep_word_some [] ws h = absurd (h refl)
keep_word_some (a ∷ w) ws h = refl

words_from-word :
    (word w rest : Bytes)
    → All IsVisible w
    → word ++ w ≢ []
    → words_from word 0 (w ++ b' ' ∷ rest) ≡ (word ++ w) ∷ words_from [] 0 rest
unfolding words_from
words_from-word word [] rest h ne =
    rw (space_width_blank rest)
      (rw (append-nil word) (keep_word_some word _ (λ e. ne (append-nil word ∙ e))))
words_from-word word (a ∷ w) rest (h, hs) ne = rw (space_width_visible a (w ++ b' ' ∷ rest) h) (
    let longer = append_assoc word (a ∷ []) w in
    words_from-word (word ++ a ∷ []) w rest hs (λ e. ne (sym longer ∙ e))
    ∙ ap (λ x. x ∷ words_from [] 0 rest) longer)

-- A word of visible characters in front of a blank is the first word.
pub split_whitespace-word :
    (w rest : Bytes)
    → All IsVisible w
    → w ≢ []
    → split_whitespace (w ++ b' ' ∷ rest) ≡ w ∷ split_whitespace rest
unfolding split_whitespace
split_whitespace-word w rest h ne = words_from-word [] w rest h ne
