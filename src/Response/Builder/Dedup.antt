-- ===== src/Response/Builder/Dedup.antt =====
-- Of the headers of one name `build` keeps the last.
use mathlib.Core.List.{reverse-cons, reverse-reverse}
use mathlib.Core.Path.{subst}
use nanofish.Header.{HttpHeader}
use nanofish.Heapless.{Heapless}
use nanofish.Prelude.{
  suc, ◌≤◌, inl, inr, true, false, ◌||◌, All, List, [], ◌∷◌, ◌++◌, reverse, ◌≡◌, refl, sym, ap, ◌∙◌,
  if◌then◌else◌, Bytes, arith, Bool-cases, length, length-append, ltb, lt→ltb,
}
use nanofish.Protocol.{max_headers}
use nanofish.Response.Builder.{
  HttpResponseBuilder, any_named, keep_first, fold_headers, or_kept, or_empty, build,
}
use nanofish.Result.{ok}
use nanofish.Text.Case.{eq_ignore_case, eq_ignore_case_trans, eq_ignore_case_iff, lowered}

-- A header is left out if a later one has its name.
abbrev pub keep_last : List HttpHeader → List HttpHeader
keep_last [] = []
keep_last (h ∷ hs) = let rest = keep_last hs in if any_named h.name hs then rest else h ∷ rest

-- A header's name among the names of a list, letters of both cases being the same.
abbrev SameName : HttpHeader → HttpHeader → Type 0
SameName h k = lowered k.name ≡ lowered h.name

-- The second list is the first without the headers that a later one of the same name replaces.
pub data KeepsLast : List HttpHeader → List HttpHeader → Type 0 where
  nothing : KeepsLast [] []
  kept :
      (h : HttpHeader) (hs left : List HttpHeader)
      → All (λ k. ¬ SameName h k) hs
      → KeepsLast hs left
      → KeepsLast (h ∷ hs) (h ∷ left)
  replaced :
      (h k : HttpHeader) (before behind left : List HttpHeader)
      → SameName h k
      → KeepsLast (before ++ k ∷ behind) left
      → KeepsLast (h ∷ (before ++ k ∷ behind)) left

any_named_there :
    (h : HttpHeader) (hs : List HttpHeader)
    → any_named h.name hs ≡ true
    → (k : HttpHeader) × (before : List HttpHeader) × (behind : List HttpHeader) × SameName h k
      × (hs ≡ before ++ k ∷ behind)
unfolding any_named
any_named_there h [] e = cc
any_named_there h (j ∷ hs) e = elim (Bool-cases (eq_ignore_case j.name h.name)) [
  | inl same ↦ (j, [], hs, (eq_ignore_case_iff j.name h.name).0 same, refl)
  | inr other ↦
      let (k, before, behind, same, cut) = any_named_there h hs (rw other at e) in
      (k, j ∷ before, behind, same, ap (λ l. j ∷ l) cut)
]

any_named_absent :
    (h : HttpHeader) (hs : List HttpHeader)
    → any_named h.name hs ≡ false
    → All (λ k. ¬ SameName h k) hs
unfolding any_named
any_named_absent h [] e = tt
any_named_absent h (j ∷ hs) e = elim (Bool-cases (eq_ignore_case j.name h.name)) [
  | inl same ↦ let no : true ≡ false = rw same at e in cc
  | inr other ↦ (
    λ eq. let no = (eq_ignore_case_iff j.name h.name).1 eq in cc,
    any_named_absent h hs (rw other at e),
  )
]

keep_last-KeepsLast : (hs : List HttpHeader) → KeepsLast hs (keep_last hs)
keep_last-KeepsLast [] = nothing
keep_last-KeepsLast (h ∷ hs) = elim (Bool-cases (any_named h.name hs)) [
  | inr only ↦
      rw only (kept h hs (keep_last hs) (any_named_absent h hs only) (keep_last-KeepsLast hs))
  | inl later ↦
      let (k, before, behind, same, cut) = any_named_there h hs later in
      let rest : KeepsLast (before ++ k ∷ behind) (keep_last hs) =
        subst (λ l. KeepsLast l (keep_last hs)) cut (keep_last-KeepsLast hs) in
      rw later (
        subst (λ l. KeepsLast (h ∷ l) (keep_last hs)) (sym cut)
          (replaced h k before behind (keep_last hs) same rest))
]

same_name :
    (name : Bytes) (h : HttpHeader) (hs : List HttpHeader)
    → any_named h.name hs ≡ true
    → eq_ignore_case h.name name ≡ true
    → any_named name hs ≡ true
unfolding any_named
same_name name h [] e f = cc
same_name name h (k ∷ hs) e f =
    ground (arith, same_name name h hs, eq_ignore_case_trans k.name h.name name)

any_named-keep_last :
    (name : Bytes) (hs : List HttpHeader) → any_named name (keep_last hs) ≡ any_named name hs
unfolding any_named
any_named-keep_last name [] = refl
any_named-keep_last name (h ∷ hs) = elim (Bool-cases (any_named h.name hs)) [
  | inr only ↦ rw only (ap (λ b. eq_ignore_case h.name name || b) (any_named-keep_last name hs))
  | inl later ↦ rw later (
      any_named-keep_last name hs ∙ (elim (Bool-cases (eq_ignore_case h.name name)) [
        | inl same ↦ rw same (same_name name h hs later same)
        | inr other ↦ rw other refl
      ]))
]

any_named-append :
    (name : Bytes) (hs ks : List HttpHeader)
    → any_named name (hs ++ ks) ≡ (any_named name hs || any_named name ks)
unfolding any_named
any_named-append name [] ks = refl
any_named-append name (h ∷ hs) ks = ground (arith, any_named-append name hs ks)

any_named-reverse :
    (name : Bytes) (hs : List HttpHeader) → any_named name (reverse hs) ≡ any_named name hs
unfolding any_named
any_named-reverse name [] = refl
any_named-reverse name (h ∷ hs) =
    rw (reverse-cons h hs)
      (any_named-append name (reverse hs) (h ∷ []) ∙ rw (any_named-reverse name hs) (ground arith))

length-keep_last : (hs : List HttpHeader) → length (keep_last hs) ≤ length hs
length-keep_last [] = omega arith
length-keep_last (h ∷ hs) = ground (arith, length-keep_last hs)

length-reverse : (hs : List HttpHeader) → length (reverse hs) ≡ length hs
length-reverse [] = refl
length-reverse (h ∷ hs) =
    rw (reverse-cons h hs) (omega (arith, length-append (reverse hs) (h ∷ []), length-reverse hs))

module _ (hp : Heapless) where
  fold_headers-append :
      (acc hs : List HttpHeader) (h : HttpHeader)
      → fold_headers hp acc (hs ++ h ∷ []) ≡ keep_first hp (fold_headers hp acc hs) h
  unfolding fold_headers
  fold_headers-append acc [] h = refl
  fold_headers-append acc (k ∷ hs) h = fold_headers-append (keep_first hp acc k) hs h

  keep_first-keep_last :
      (h : HttpHeader) (hs : List HttpHeader)
      → suc (length hs) ≤ max_headers
      → keep_first hp (reverse (keep_last hs)) h ≡ reverse (keep_last (h ∷ hs))
  unfolding keep_first or_kept
  keep_first-keep_last h hs room =
      let seen : any_named h.name (reverse (keep_last hs)) ≡ any_named h.name hs =
        any_named-reverse h.name (keep_last hs) ∙ any_named-keep_last h.name hs in
      let fits : ltb (length (reverse (keep_last hs))) max_headers ≡ true =
        lt→ltb _ _ (omega (arith, length-reverse (keep_last hs), length-keep_last hs)) in
      rw (seen, keep_first)
        (elim (Bool-cases (any_named h.name hs)) [
          | inl later ↦ rw later refl
          | inr only ↦ rw only (
              rw (hp.push_lem HttpHeader max_headers (reverse (keep_last hs)) h)
                (rw fits (sym (reverse-cons h (keep_last hs)))))
        ])

  fold_headers-keep_last :
      (hs : List HttpHeader)
      → length hs ≤ max_headers
      → fold_headers hp [] (reverse hs) ≡ reverse (keep_last hs)
  unfolding fold_headers
  fold_headers-keep_last [] room = refl
  fold_headers-keep_last (h ∷ hs) room = rw (reverse-cons h hs) (
      fold_headers-append [] (reverse hs) h
      ∙ ap (λ acc. keep_first hp acc h) (fold_headers-keep_last hs (omega arith))
      ∙ keep_first-keep_last h hs (omega arith))

  pub build-keep_last :
      (b : HttpResponseBuilder)
      → length b.headers ≤ max_headers
      → build hp b
        ≡ ok (record {
          status_code = b.status;
          headers = keep_last b.headers;
          body = or_empty hp b.body;
        })
  unfolding build
  build-keep_last b room =
      rw (fold_headers-keep_last b.headers room) (rw (reverse-reverse (keep_last b.headers)) refl)

  -- A builder with at most sixteen headers builds a response with its status, its body, or an empty
  -- one, and its headers, in order, without those that a later one of the same name replaces, letters
  -- of both cases being the same in a name.
  pub build-KeepsLast :
      (b : HttpResponseBuilder)
      → length b.headers ≤ max_headers
      → (left : List HttpHeader) × (build hp b
          ≡ ok (record { status_code = b.status; headers = left; body = or_empty hp b.body }))
        × KeepsLast b.headers left
  build-KeepsLast b room =
      (keep_last b.headers, build-keep_last b room, keep_last-KeepsLast b.headers)
