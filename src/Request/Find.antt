-- ===== src/Request/Find.antt =====
-- What the searches in a query find.
use mathlib.Core.List.{reverse-cons}
use mathlib.Core.Path.{subst}
use nanofish.Prelude.{
  ℕ, zero, suc, ◌<◌, inl, inr, true, false, List, [], ◌∷◌, ◌++◌, reverse, Option, none, some, ◌≡◌,
  refl, sym, ap, ◌∙◌, Bytes, arith, Bool-cases, length, bytes_eq, bytes_eq_iff,
}
use nanofish.Request.Query.{pairs_in, query_text, query_pairs_lem}
use nanofish.Request.{
  HttpRequest, QueryPair, find_pair, values_where, next_value, collect_values, query_first,
  query_last, query_all, query_pairs, is_named, last,
}

abbrev pub first : List Bytes → Option Bytes
first [] = none
first (v ∷ vs) = some v

-- The values of the pairs of a name, in order.
pub data Values (name : Bytes) : List QueryPair → List Bytes → Type 0 where
  nothing : Values name [] []
  named :
      (p : QueryPair) (ps : List QueryPair) (vs : List Bytes)
      → p.name ≡ name
      → Values name ps vs
      → Values name (p ∷ ps) (p.value ∷ vs)
  other :
      (p : QueryPair) (ps : List QueryPair) (vs : List Bytes)
      → ¬ (p.name ≡ name)
      → Values name ps vs
      → Values name (p ∷ ps) vs

module _ (name : Bytes) where
  values_where-Values : (ps : List QueryPair) → Values name ps (values_where (is_named name) ps)
  unfolding values_where
  values_where-Values [] = nothing
  values_where-Values (p ∷ ps) = elim (Bool-cases (bytes_eq p.name name)) [
    | inl same ↦ rw same (named p ps _ ((bytes_eq_iff p.name name).0 same) (values_where-Values ps))
    | inr different ↦
        rw different (
          other p ps _ (λ e. let no = (bytes_eq_iff p.name name).1 e in cc)
            (values_where-Values ps))
  ]

  find_pair-values_where :
      (ps : List QueryPair) → find_pair (is_named name) ps ≡ first (values_where (is_named name) ps)
  unfolding find_pair values_where
  find_pair-values_where [] = refl
  find_pair-values_where (p ∷ ps) = elim (Bool-cases (bytes_eq p.name name)) [
    | inl same ↦ rw (same, find_pair, values_where) refl
    | inr different ↦ rw (different, find_pair, values_where) (find_pair-values_where ps)
  ]

  -- The iterator over values does not stop before its end.
  collect_values-other :
      (fuel : ℕ) (p : QueryPair) (ps : List QueryPair)
      → bytes_eq p.name name ≡ false
      → collect_values (suc fuel) name (p ∷ ps) ≡ collect_values (suc fuel) name ps
  unfolding collect_values next_value
  collect_values-other fuel p ps e = rw (e, collect_values, next_value) refl

  collect_values-named :
      (fuel : ℕ) (p : QueryPair) (ps : List QueryPair)
      → bytes_eq p.name name ≡ true
      → collect_values (suc fuel) name (p ∷ ps) ≡ p.value ∷ collect_values fuel name ps
  unfolding collect_values next_value
  collect_values-named fuel p ps e = rw (e, collect_values, next_value) refl

  collect_values-values_where :
      (fuel : ℕ) (ps : List QueryPair)
      → length ps < fuel
      → collect_values fuel name ps ≡ values_where (is_named name) ps
  unfolding collect_values next_value values_where
  collect_values-values_where zero ps h = absurd (omega arith)
  collect_values-values_where (suc fuel) [] h = refl
  collect_values-values_where (suc fuel) (p ∷ ps) h = elim (Bool-cases (bytes_eq p.name name)) [
    | inl same ↦
        collect_values-named fuel p ps same
        ∙ ap (λ vs. p.value ∷ vs) (collect_values-values_where fuel ps (omega arith))
        ∙ rw same refl
    | inr different ↦
        collect_values-other fuel p ps different
        ∙ collect_values-values_where (suc fuel) ps (omega arith)
        ∙ rw different refl
  ]

last-first :
    (v : Bytes) (vs : List Bytes)
    → (w : Bytes) × (ws : List Bytes) × (reverse (v ∷ vs) ≡ w ∷ ws) × (last (v ∷ vs) ≡ some w)
last-first v [] = (v, [], refl, refl)
last-first v (u ∷ vs) =
    let (w, ws, e, l) = last-first u vs in
    (w, ws ++ v ∷ [], reverse-cons v (u ∷ vs) ∙ ap (λ xs. xs ++ v ∷ []) e, l)

last-reverse : (vs : List Bytes) → last vs ≡ first (reverse vs)
last-reverse [] = refl
last-reverse (v ∷ vs) = let (w, ws, e, l) = last-first v vs in l ∙ sym (ap first e)

-- Of the pairs between the `&`s of the query whose name is `name`, `query_all` iterates over the
-- values, in order; `query_first` returns the first of them, and `query_last` the last, or nothing if
-- there are none.
pub query-Values :
    (r : HttpRequest) (name : Bytes)
    → (vs : List Bytes) × Values name (pairs_in (query_text r)) vs
      × (query_all r name ≡ vs)
      × (query_first r name ≡ first vs)
      × (query_last r name ≡ first (reverse vs))
unfolding query_all query_first query_last
query-Values r name =
    let vs = values_where (is_named name) (query_pairs r) in
    (
      vs,
      subst (λ ps. Values name ps vs) (query_pairs_lem r)
          (values_where-Values name (query_pairs r)),
      collect_values-values_where name (suc (length (query_pairs r))) (query_pairs r) (omega arith),
      find_pair-values_where name (query_pairs r),
      last-reverse vs,
    )
