-- ===== src/Prelude/Cut.antt =====
-- `take` and `drop` at and around the seams of an append.
use Prim.Native.Nat.{ℕ, zero, suc, ◌+◌, ◌-◌, ◌≤◌}
use mathlib.Core.List.{List, [], ◌∷◌, ◌++◌}
use mathlib.Core.Path.{◌≡◌, refl, ap, sym, ◌∙◌}
use native.Mathlib.Omega.{arith}
use nanofish.Prelude.Lists.{length, take, drop}

module _ {ℓ} {A : Type ℓ} where
  pub take-append-drop : (n : ℕ) (xs : List A) → take n xs ++ drop n xs ≡ xs
  take-append-drop zero xs = refl
  take-append-drop (suc n) [] = refl
  take-append-drop (suc n) (x ∷ xs) = ap (◌∷◌ x) (take-append-drop n xs)

  pub take_all : (n : ℕ) (xs : List A) → length xs ≤ n → take n xs ≡ xs
  take_all zero [] h = refl
  take_all zero (x ∷ xs) h = absurd (omega arith)
  take_all (suc n) [] h = refl
  take_all (suc n) (x ∷ xs) h = ap (◌∷◌ x) (take_all n xs (omega arith))

  take_nil : (n : ℕ) → take {A = A} n [] ≡ []
  take_nil zero = refl
  take_nil (suc n) = refl

  pub drop_all : (n : ℕ) (xs : List A) → length xs ≤ n → drop n xs ≡ []
  drop_all zero [] h = refl
  drop_all zero (x ∷ xs) h = absurd (omega arith)
  drop_all (suc n) [] h = refl
  drop_all (suc n) (x ∷ xs) h = drop_all n xs (omega arith)

  -- Cutting within the first part of an append.
  pub take-append_le : (n : ℕ) (xs ys : List A) → n ≤ length xs → take n (xs ++ ys) ≡ take n xs
  take-append_le zero xs ys h = refl
  take-append_le (suc n) [] ys h = absurd (omega arith)
  take-append_le (suc n) (x ∷ xs) ys h = ap (◌∷◌ x) (take-append_le n xs ys (omega arith))

  pub drop-append_le :
      (n : ℕ) (xs ys : List A) → n ≤ length xs → drop n (xs ++ ys) ≡ drop n xs ++ ys
  drop-append_le zero xs ys h = refl
  drop-append_le (suc n) [] ys h = absurd (omega arith)
  drop-append_le (suc n) (x ∷ xs) ys h = drop-append_le n xs ys (omega arith)

  -- Cutting behind the first part; `n` is a variable with an equation.
  pub drop-append_add :
      (xs ys : List A) (n m : ℕ) → n ≡ length xs + m → drop n (xs ++ ys) ≡ drop m ys
  drop-append_add [] ys n m e = let e' : n ≡ m = omega arith in ap (λ k. drop k ys) e'
  drop-append_add (x ∷ xs) ys zero m e = absurd (omega arith)
  drop-append_add (x ∷ xs) ys (suc n) m e = drop-append_add xs ys n m (omega arith)

  pub take-append_add :
      (xs ys : List A) (n m : ℕ) → n ≡ length xs + m → take n (xs ++ ys) ≡ xs ++ take m ys
  take-append_add [] ys n m e = let e' : n ≡ m = omega arith in ap (λ k. take k ys) e'
  take-append_add (x ∷ xs) ys zero m e = absurd (omega arith)
  take-append_add (x ∷ xs) ys (suc n) m e = ap (◌∷◌ x) (take-append_add xs ys n m (omega arith))

  pub take_append : (xs ys : List A) (n : ℕ) → n ≡ length xs → take n (xs ++ ys) ≡ xs
  take_append [] ys zero e = refl
  take_append [] ys (suc n) e = absurd (omega arith)
  take_append (x ∷ xs) ys zero e = absurd (omega arith)
  take_append (x ∷ xs) ys (suc n) e = ap (◌∷◌ x) (take_append xs ys n (omega arith))

  pub drop_append : (xs ys : List A) (n : ℕ) → n ≡ length xs → drop n (xs ++ ys) ≡ ys
  drop_append xs ys n e = drop-append_add xs ys n 0 (omega arith)

  pub drop-drop : (n m k : ℕ) (xs : List A) → k ≡ m + n → drop n (drop m xs) ≡ drop k xs
  drop-drop n zero k xs e = let e' : k ≡ n = omega arith in ap (λ i. drop i xs) (sym e')
  drop-drop zero (suc m) zero [] e = refl
  drop-drop (suc n) (suc m) zero [] e = refl
  drop-drop zero (suc m) (suc k) [] e = refl
  drop-drop (suc n) (suc m) (suc k) [] e = refl
  drop-drop n (suc m) zero (x ∷ xs) e = absurd (omega arith)
  drop-drop n (suc m) (suc k) (x ∷ xs) e = drop-drop n m k xs (omega arith)

  pub take-drop : (n m k : ℕ) (xs : List A) → k ≡ m + n → take n (drop m xs) ≡ drop m (take k xs)
  take-drop n zero k xs e = let e' : k ≡ n = omega arith in ap (λ i. take i xs) (sym e')
  take-drop zero (suc m) zero [] e = refl
  take-drop (suc n) (suc m) zero [] e = refl
  take-drop zero (suc m) (suc k) [] e = refl
  take-drop (suc n) (suc m) (suc k) [] e = refl
  take-drop n (suc m) zero (x ∷ xs) e = absurd (omega arith)
  take-drop n (suc m) (suc k) (x ∷ xs) e = take-drop n m k xs (omega arith)

  pub take-take : (n m : ℕ) (xs : List A) → n ≤ m → take n (take m xs) ≡ take n xs
  take-take zero m xs h = refl
  take-take (suc n) zero xs h = absurd (omega arith)
  take-take (suc n) (suc m) [] h = refl
  take-take (suc n) (suc m) (x ∷ xs) h = ap (◌∷◌ x) (take-take n m xs (omega arith))

  -- A longer prefix is a shorter one with the piece behind it.
  pub take_split :
      (n m k : ℕ) (xs : List A) → k ≡ n + m → take k xs ≡ take n xs ++ take m (drop n xs)
  take_split zero m k xs e = let e' : k ≡ m = omega arith in ap (λ i. take i xs) e'
  take_split (suc n) m zero xs e = absurd (omega arith)
  take_split (suc n) zero (suc k) [] e = refl
  take_split (suc n) (suc m) (suc k) [] e = refl
  take_split (suc n) m (suc k) (x ∷ xs) e = ap (◌∷◌ x) (take_split n m k xs (omega arith))

  pub drop-take : (q n : ℕ) (xs : List A) → drop q (take n xs) ≡ take (n - q) (drop q xs)
  drop-take zero n xs = let e : n - 0 ≡ n = omega arith in ap (λ i. take i xs) (sym e)
  drop-take (suc q) zero xs =
      let e : 0 - suc q ≡ 0 = omega arith in ap (λ i. take i (drop (suc q) xs)) (sym e)
  drop-take (suc q) (suc n) [] = sym (take_nil (suc n - suc q))
  drop-take (suc q) (suc n) (x ∷ xs) =
      let e : n - q ≡ suc n - suc q = omega arith in
      drop-take q n xs ∙ ap (λ i. take i (drop q xs)) e
