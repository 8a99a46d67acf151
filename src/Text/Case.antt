-- ===== src/Text/Case.antt =====
-- `eq_ignore_ascii_case`.
use nanofish.Prelude.{
  ℕ, ◌+◌, Bool, true, false, ◌&&◌, [], ◌∷◌, ◌≡◌, ◌↔◌, refl, leb, ◌==◌, if◌then◌else◌, Bytes, arith,
}

unfoldable pub to_lower : ℕ → ℕ
to_lower c = if leb b'A' c && leb c b'Z' then c + 32 else c

unfoldable pub eq_ignore_case : Bytes → Bytes → Bool
unfolding to_lower
eq_ignore_case [] [] = true
eq_ignore_case (x ∷ xs) (y ∷ ys) = to_lower x == to_lower y && eq_ignore_case xs ys
eq_ignore_case _ _ = false

pub eq_ignore_case_refl : (a : Bytes) → eq_ignore_case a a ≡ true
unfolding eq_ignore_case
eq_ignore_case_refl [] = refl
eq_ignore_case_refl (x ∷ a) = ground (arith, eq_ignore_case_refl a)

pub eq_ignore_case_comm : (a b : Bytes) → eq_ignore_case a b ≡ eq_ignore_case b a
unfolding eq_ignore_case
eq_ignore_case_comm (x ∷ a) (y ∷ b) = ground (arith, eq_ignore_case_comm a b)
eq_ignore_case_comm [] [] = refl
eq_ignore_case_comm [] (y ∷ b) = refl
eq_ignore_case_comm (x ∷ a) [] = refl

pub eq_ignore_case_trans :
    (a b c : Bytes)
    → eq_ignore_case a b ≡ true
    → eq_ignore_case b c ≡ true
    → eq_ignore_case a c ≡ true
unfolding eq_ignore_case
eq_ignore_case_trans (x ∷ a) (y ∷ b) (z ∷ c) p q = ground (arith, eq_ignore_case_trans a b c)
eq_ignore_case_trans [] [] c p q = q
eq_ignore_case_trans [] (y ∷ b) c p q = cc
eq_ignore_case_trans (x ∷ a) [] c p q = cc
eq_ignore_case_trans (x ∷ a) (y ∷ b) [] p q = cc

abbrev pub lowered : Bytes → Bytes
lowered [] = []
lowered (x ∷ xs) = to_lower x ∷ lowered xs

pub eq_ignore_case_iff : (a b : Bytes) → (eq_ignore_case a b ≡ true) ↔ (lowered a ≡ lowered b)
unfolding eq_ignore_case
eq_ignore_case_iff (x ∷ a) (y ∷ b) = ground (arith, eq_ignore_case_iff a b)
eq_ignore_case_iff [] [] = ground arith
eq_ignore_case_iff [] (y ∷ b) = ground arith
eq_ignore_case_iff (x ∷ a) [] = ground arith
