-- ===== src/Request/Query.antt =====
-- The query of a request, pair by pair.
use mathlib.Core.Option
use mathlib.Core.Path.{subst}
use nanofish.Prelude.{
  ℕ, zero, suc, ◌+◌, ◌<◌, inl, inr, ◌⊎◌, length-drop, true, false, List, [], ◌∷◌, Option, none,
  some, ◌≡◌, refl, sym, ap, ◌∙◌, ◌==◌, if◌then◌else◌, Bytes, take, drop, length, is_empty, arith,
  Bool-cases, Option-cases,
}
use nanofish.Request.{
  HttpRequest, QueryPair, split_pair, pair_of, next_segment, next_pair, collect_pairs, query_pairs,
  query_string,
}
use nanofish.Text.Split.{split_on, split_once, find_byte, cons_head}

-- The pair of one segment: the name is what stands before the first `=`, and the value what stands
-- behind it, or nothing.
abbrev pub pair_in : Bytes → QueryPair
pair_in [] = record { name = []; value = [] }
pair_in (a ∷ s) =
    let behind = pair_in s in
    if a == b'='
    then record { name = []; value = s }
    else record { name = a ∷ behind.name; value = behind.value }

pair_of-pair_in : (segment : Bytes) → pair_of segment ≡ pair_in segment
unfolding pair_of split_pair split_once find_byte
pair_of-pair_in [] = refl
pair_of-pair_in (a ∷ s) = elim (Bool-cases (a == b'=')) [
  | inl here ↦ rw here refl
  | inr later ↦ elim (Option-cases (find_byte b'=' s)) [
    | inl absent ↦
        let same : record { name = s; value = [] } ≡ pair_in s = rw absent at (pair_of-pair_in s) in
        rw later (rw absent (ap (λ p. record { name = a ∷ p.name; value = p.value }) same))
    | inr (i, found) ↦
        let same : record { name = take i s; value = drop (i + 1) s } ≡ pair_in s =
          rw found at (pair_of-pair_in s) in
        let shift : suc i + 1 ≡ suc (i + 1) = omega arith in
        rw later
          (rw found (rw shift (ap (λ p. record { name = a ∷ p.name; value = p.value }) same)))
  ]
]

-- The pairs of a list of segments: the empty segments have none.
abbrev pub pairs_of : List Bytes → List QueryPair
pairs_of [] = []
pairs_of (segment ∷ segments) =
    let rest = pairs_of segments in if is_empty segment then rest else pair_in segment ∷ rest

-- All the segments of a text, cut at every `&`.
abbrev pub pairs_in : Bytes → List QueryPair
pairs_in s = pairs_of (split_on b'&' s)

cut_at : Bytes → Option ℕ → List Bytes
cut_at s none = s ∷ []
cut_at s (some i) = take i s ∷ split_on b'&' (drop (suc i) s)

cut_at-cons :
    (a : ℕ) (s : Bytes) (o : Option ℕ)
    → cut_at (a ∷ s) (Option.map suc o) ≡ cons_head a (cut_at s o)
unfolding cut_at
cut_at-cons a s none = refl
cut_at-cons a s (some i) = refl

split_on-cut_at : (s : Bytes) → split_on b'&' s ≡ cut_at s (find_byte b'&' s)
unfolding split_on find_byte cut_at
split_on-cut_at [] = refl
split_on-cut_at (a ∷ s) = elim (Bool-cases (a == b'&')) [
  | inl here ↦ rw (here, split_on) refl
  | inr later ↦
      rw (later, split_on)
        (ap (cons_head a) (split_on-cut_at s) ∙ sym (cut_at-cons a s (find_byte b'&' s)))
]

-- Behind a cut there is less text.
shorter : (s : Bytes) (i : ℕ) → find_byte b'&' s ≡ some i → length (drop (i + 1) s) < length s
unfolding find_byte
shorter [] i e = cc
shorter (a ∷ s) i e = omega (arith, length-drop (i + 1) (a ∷ s))

split_on_whole : (s : Bytes) → find_byte b'&' s ≡ none → split_on b'&' s ≡ s ∷ []
unfolding cut_at
split_on_whole s e = split_on-cut_at s ∙ ap (cut_at s) e

split_on_cut :
    (s : Bytes) (i : ℕ)
    → find_byte b'&' s ≡ some i
    → split_on b'&' s ≡ take i s ∷ split_on b'&' (drop (i + 1) s)
unfolding cut_at
split_on_cut s i e =
    let next : suc i ≡ i + 1 = omega arith in
    split_on-cut_at s ∙ ap (cut_at s) e ∙ ap (λ j. take i s ∷ split_on b'&' (drop j s)) next

-- One cut: the segment is the first of them, and the rest of them are of what remains, which is
-- nothing or less text.
Cuts : Bytes → Bytes × Bytes → Type 0
Cuts s cut =
    (pairs_in s ≡ pairs_of (cut.0 ∷ split_on b'&' cut.1))
    × ((cut.1 ≡ []) ⊎ (length cut.1 < length s))

next_segment-Cuts : (s : Bytes) → Cuts s (next_segment s)
unfolding next_segment split_once Cuts split_on
next_segment-Cuts s = elim (Option-cases (find_byte b'&' s)) [
  | inl whole ↦
      let same : next_segment s ≡ (s, []) = rw whole refl in
      subst (Cuts s) (sym same) (ap pairs_of (split_on_whole s whole), inl refl)
  | inr (i, cut) ↦
      let same : next_segment s ≡ (take i s, drop (i + 1) s) = rw cut refl in
      subst (Cuts s) (sym same) (ap pairs_of (split_on_cut s i cut), inr (shorter s i cut))
]

-- What one call of `next` may yield.
Yields : Bytes → Option (QueryPair × Bytes) → Type 0
Yields s none = pairs_in s ≡ []
Yields s (some found) =
    (pairs_in s ≡ found.0 ∷ pairs_in found.1) × ((found.1 ≡ []) ⊎ (length found.1 < length s))

behind :
    (s t : Bytes) (o : Option (QueryPair × Bytes))
    → pairs_in s ≡ pairs_in t
    → length t < length s
    → Yields t o
    → Yields s o
unfolding Yields
behind s t none e lt y = e ∙ y
behind s t (some found) e lt y = (e ∙ y.0, ground arith)

nil_of_is_empty : (s : Bytes) → is_empty s ≡ true → s ≡ []
nil_of_is_empty [] e = refl
nil_of_is_empty (a ∷ s) e = cc

pairs_of_empty :
    (segment : Bytes) (ls : List Bytes)
    → is_empty segment ≡ true
    → pairs_of (segment ∷ ls) ≡ pairs_of ls
pairs_of_empty segment ls e = rw e refl

pairs_of_full :
    (segment : Bytes) (ls : List Bytes)
    → is_empty segment ≡ false
    → pairs_of (segment ∷ ls) ≡ pair_of segment ∷ pairs_of ls
pairs_of_full segment ls e = rw (pair_of-pair_in segment) (rw e refl)

less : (t : Bytes) (m : ℕ) → ((t ≡ []) ⊎ (length t < m)) → is_empty t ≡ false → length t < m
less [] m h e = cc
less (a ∷ t) m (inl nil) e = cc
less (a ∷ t) m (inr lt) e = lt

next_pair-Yields : (fuel : ℕ) (s : Bytes) → length s < fuel → Yields s (next_pair fuel s)
unfolding Yields next_pair Cuts split_on
next_pair-Yields zero s h = absurd (omega arith)
next_pair-Yields (suc fuel) s h =
    let cut = next_segment s in
    let cuts : Cuts s cut = next_segment-Cuts s in
    elim (Bool-cases (is_empty cut.0)) [
      | inl empty ↦
          let same : pairs_in s ≡ pairs_in cut.1 =
            cuts.0 ∙ pairs_of_empty cut.0 (split_on b'&' cut.1) empty in
          elim (Bool-cases (is_empty cut.1)) [
            | inl done ↦
                rw (empty, next_pair)
                  (rw (done, next_pair) (same ∙ ap pairs_in (nil_of_is_empty cut.1 done)))
            | inr more ↦
                let lt : length cut.1 < length s = less cut.1 (length s) cuts.1 more in
                rw (empty, next_pair)
                  (rw (more, next_pair)
                    (behind s cut.1 _ same lt (next_pair-Yields fuel cut.1 (omega arith))))
          ]
      | inr full ↦
          rw (full, next_pair) (cuts.0 ∙ pairs_of_full cut.0 (split_on b'&' cut.1) full, cuts.1)
    ]

collect_pairs_nil : (fuel : ℕ) → collect_pairs (suc fuel) [] ≡ []
unfolding collect_pairs next_pair next_segment split_once find_byte
collect_pairs_nil fuel = refl

collect_pairs_lem : (fuel : ℕ) (s : Bytes) → length s < fuel → collect_pairs fuel s ≡ pairs_in s
unfolding collect_pairs Yields split_on
collect_pairs_lem zero s h = absurd (omega arith)
collect_pairs_lem (suc fuel) [] h = collect_pairs_nil fuel
collect_pairs_lem (suc fuel) (a ∷ s) h =
    let yields : Yields (a ∷ s) (next_pair (suc fuel) (a ∷ s)) =
      next_pair-Yields (suc fuel) (a ∷ s) h in
    elim (Option-cases (next_pair (suc fuel) (a ∷ s))) [
      | inl stop ↦ rw (stop, collect_pairs) (sym (subst (Yields (a ∷ s)) stop yields))
      | inr (found, next) ↦
          let here : Yields (a ∷ s) (some found) = subst (Yields (a ∷ s)) next yields in
          let lt : length found.1 < fuel = ground (arith, here.1) in
          rw (next, collect_pairs)
            (ap (λ ps. found.0 ∷ ps) (collect_pairs_lem fuel found.1 lt) ∙ sym here.0)
    ]

-- The query of a request, or nothing.
abbrev pub query_text : HttpRequest → Bytes
query_text r = elim (query_string r) [ none ↦ [] | some query ↦ query ]

module _ (r : HttpRequest) where
  -- The iterator yields one pair for each segment between `&`s of the query that is not empty, in
  -- order, its name before the first `=` of the segment and its value behind it, or none, and nothing
  -- for a request without a query.
  pub query_pairs_lem : query_pairs r ≡ pairs_in (query_text r)
  unfolding query_pairs split_on
  query_pairs_lem = elim (Option-cases (query_string r)) [
    | inl absent ↦ rw (absent, query_pairs, query_text) (collect_pairs_nil 0)
    | inr (query, found) ↦
        rw (found, query_pairs, query_text)
          (collect_pairs_lem (suc (length query)) query (omega arith))
  ]
