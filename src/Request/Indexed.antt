-- ===== src/Request/Indexed.antt =====
-- What `query_indexed` finds.
use mathlib.Core.List.{reverse-append, reverse-reverse}
use mathlib.Core.Path.{subst}
use nanofish.Prelude.{
  ℕ, inl, inr, Bool, true, false, List, [], ◌∷◌, ◌++◌, reverse, Option, none, some, ◌≡◌, ◌↔◌, refl,
  sym, ap, ◌∙◌, ==_refl, ==_iff, Bytes, All, Bool-cases, Option-cases, drop, drop_append, length,
}
use nanofish.Protocol.Find.{starts_with-append, starts_with_split}
use nanofish.Request.Query.{pairs_in, query_text, query_pairs_lem}
use nanofish.Request.{
  HttpRequest, QueryPair, find_pair, query_indexed, query_pairs, query_name_matches_index,
  index_text, is_index,
}
use nanofish.Text.Number.{parse_uint}
use nanofish.Text.Split.{starts_with, strip_prefix, strip_suffix}

strip_prefix-append : (p s : Bytes) → strip_prefix p (p ++ s) ≡ some s
unfolding strip_prefix
strip_prefix-append p s = rw (starts_with-append p s) (ap some (drop_append p s _ refl))

strip_prefix_sound : (p s t : Bytes) → strip_prefix p s ≡ some t → s ≡ p ++ t
unfolding strip_prefix
strip_prefix_sound p s t e = elim (Bool-cases (starts_with p s)) [
  | inl here ↦
      let rest : some (drop (length p) s) ≡ some t = rw here at e in
      let same : drop (length p) s ≡ t = cc in starts_with_split p s here ∙ ap (λ u. p ++ u) same
  | inr absent ↦ let no : none ≡ some t = rw absent at e in cc
]

strip_suffix-append : (p s : Bytes) → strip_suffix p (s ++ p) ≡ some s
unfolding strip_suffix
strip_suffix-append p s =
    rw (reverse-append s p)
      (rw (strip_prefix-append (reverse p) (reverse s)) (ap some (reverse-reverse s)))

strip_suffix_sound : (p s t : Bytes) → strip_suffix p s ≡ some t → s ≡ t ++ p
unfolding strip_suffix
strip_suffix_sound p s t e = elim (Option-cases (strip_prefix (reverse p) (reverse s))) [
  | inl absent ↦ let no : none ≡ some t = rw absent at e in cc
  | inr (u, found) ↦
      let same : some (reverse u) ≡ some t = rw found at e in
      let turned : reverse u ≡ t = cc in
      sym (reverse-reverse s)
      ∙ ap reverse (strip_prefix_sound (reverse p) (reverse s) u found)
      ∙ reverse-append (reverse p) u
      ∙ ap (λ q. reverse u ++ q) (reverse-reverse p)
      ∙ ap (λ v. v ++ p) turned
]

false_ne : false ≡ true → ⊥
false_ne e = cc

index_text_iff :
    (query_name name t : Bytes)
    → (index_text query_name name ≡ some t) ↔ (query_name ≡ name ++ (b'[' ∷ (t ++ b']' ∷ [])))
unfolding index_text
index_text_iff query_name name t = (
  λ e. elim (Option-cases (strip_prefix name query_name)) [
    | inl absent ↦ let no : none ≡ some t = rw absent at e in cc
    | inr (rest, named) ↦ elim (Option-cases (strip_prefix (b'[' ∷ []) rest)) [
      | inl absent ↦ let no : none ≡ some t = rw absent at (rw named at e) in cc
      | inr (inner, opened) ↦
          let closed : strip_suffix (b']' ∷ []) inner ≡ some t = rw opened at (rw named at e) in
          strip_prefix_sound name query_name rest named
          ∙ ap (λ r. name ++ r) (strip_prefix_sound (b'[' ∷ []) rest inner opened)
          ∙ ap (λ r. name ++ (b'[' ∷ r)) (strip_suffix_sound (b']' ∷ []) inner t closed)
    ]
  ],
  λ e.
      rw e (
        rw (strip_prefix-append name (b'[' ∷ (t ++ b']' ∷ [])))
          (strip_suffix-append (b']' ∷ []) t)),
)

module _ (usize_max : ℕ) (name : Bytes) (index : ℕ) where
  -- A name of the form `name[digits]`, where the digits are read as `index`.
  abbrev pub Indexed : QueryPair → Type 0
  Indexed p =
      (digits : Bytes) × (p.name ≡ name ++ (b'[' ∷ (digits ++ b']' ∷ [])))
      × (parse_uint usize_max digits ≡ some index)

  is_index_iff : (o : Option ℕ) → (is_index o index ≡ true) ↔ (o ≡ some index)
  unfolding is_index
  is_index_iff none = (λ e. cc, λ e. cc)
  is_index_iff (some i) = (
    λ e. ap some ((==_iff i index).0 e),
    λ e. let same : i ≡ index = cc in rw same (==_refl index),
  )

  matches_iff :
      (p : QueryPair) → (query_name_matches_index usize_max p.name name index ≡ true) ↔ Indexed p
  unfolding query_name_matches_index
  matches_iff p = (
    λ e. elim (Option-cases (index_text p.name name)) [
      | inl absent ↦ let no : is_index none index ≡ true = rw absent at e in absurd (false_ne no)
      | inr (t, found) ↦
          let parsed : is_index (parse_uint usize_max t) index ≡ true = rw found at e in
          (
            t,
            (index_text_iff p.name name t).0 found,
            (is_index_iff (parse_uint usize_max t)).0 parsed,
          )
    ],
    λ (t, e, parsed).
        rw ((index_text_iff p.name name t).1 e) ((is_index_iff (parse_uint usize_max t)).1 parsed),
  )

-- The value is that of the first pair with a property.
abbrev pub FirstOf : (QueryPair → Type 0) → List QueryPair → Bytes → Type 0
FirstOf P ps value =
    (before : List QueryPair) × (p : QueryPair) × (behind : List QueryPair) × (ps
      ≡ before ++ p ∷ behind)
    × All (λ q. ¬ P q) before
    × P p
    × (p.value ≡ value)

module _ (wanted : QueryPair → Bool) (P : QueryPair → Type 0)
    (decides : (p : QueryPair) → (wanted p ≡ true) ↔ P p) where
  find_pair-FirstOf :
      (ps : List QueryPair) (value : Bytes) → find_pair wanted ps ≡ some value → FirstOf P ps value
  unfolding find_pair
  find_pair-FirstOf [] value e = cc
  find_pair-FirstOf (p ∷ ps) value e = elim (Bool-cases (wanted p)) [
    | inl here ↦
        let seen : some p.value ≡ some value = rw (here, find_pair) at e in
        ([], p, ps, refl, tt, (decides p).0 here, cc)
    | inr later ↦
        let seen : find_pair wanted ps ≡ some value = rw (later, find_pair) at e in
        let (before, q, behind, cut, none_before, holds, same) = find_pair-FirstOf ps value seen in
        (
          p ∷ before,
          q,
          behind,
          ap (λ l. p ∷ l) cut,
          ((λ h. let no = (decides p).1 h in cc), none_before),
          holds,
          same,
        )
  ]

  find_pair_first :
      (before : List QueryPair) (p : QueryPair) (behind : List QueryPair)
      → All (λ q. ¬ P q) before
      → P p
      → find_pair wanted (before ++ p ∷ behind) ≡ some p.value
  unfolding find_pair
  find_pair_first [] p behind none_before holds = rw ((decides p).1 holds, find_pair) refl
  find_pair_first (q ∷ before) p behind (differs, none_before) holds =
      elim (Bool-cases (wanted q)) [
        | inl here ↦ absurd (differs ((decides q).0 here))
        | inr later ↦ rw (later, find_pair) (find_pair_first before p behind none_before holds)
      ]

  find_pair_iff :
      (ps : List QueryPair) (value : Bytes)
      → (find_pair wanted ps ≡ some value) ↔ FirstOf P ps value
  find_pair_iff ps value = (
    find_pair-FirstOf ps value,
    λ (before, p, behind, cut, none_before, holds, same).
        ap (find_pair wanted) cut
        ∙ find_pair_first before p behind none_before holds
        ∙ ap some same,
  )

-- `query_indexed` returns a value exactly if it is that of the first pair, of those between the `&`s
-- of the query, whose name is `name` and in brackets behind it a number that is read as `index`.
pub query_indexed_iff :
    (r : HttpRequest) (usize_max : ℕ) (name : Bytes) (index : ℕ) (value : Bytes)
    → (query_indexed r usize_max name index ≡ some value)
      ↔ FirstOf (Indexed usize_max name index) (pairs_in (query_text r)) value
unfolding query_indexed
query_indexed_iff r usize_max name index value =
    subst
      (λ ps.
        (query_indexed r usize_max name index ≡ some value)
        ↔ FirstOf (Indexed usize_max name index) ps value)
      (query_pairs_lem r)
      (find_pair_iff (λ p. query_name_matches_index usize_max p.name name index)
        (Indexed usize_max name index) (matches_iff usize_max name index) (query_pairs r) value)
