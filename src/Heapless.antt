-- ===== src/Heapless.antt =====
-- The crate `heapless`, which is not part of the repository: the two containers of fixed capacity
-- that the library builds its requests, responses and header lists in. A container of capacity `n`
-- is read as the list of what it holds. The laws are the documented behaviour of its operations:
-- each appends if there is room for all that is given, and else fails and changes nothing.
use nanofish.Prelude.{
  ℕ, ◌+◌, List, [], ◌∷◌, ◌++◌, Option, none, some, ◌≡◌, refl, ltb, leb, if◌then◌else◌, Bytes,
  length,
}

pub record Heapless : Type 1 where
  -- `Vec::<A, N>::push`.
  pub push : (A : Type 0) → ℕ → List A → A → Option (List A)
  -- `Vec::<u8, N>::extend_from_slice`.
  pub extend_from_slice : ℕ → Bytes → Bytes → Option Bytes
  -- `String::<N>::push_str`, and `core::fmt::write` of one piece of text.
  pub push_str : ℕ → Bytes → Bytes → Option Bytes
  pub push_lem :
      (A : Type 0) (n : ℕ) (v : List A) (a : A)
      → push A n v a ≡ (if ltb (length v) n then some (v ++ a ∷ []) else none)
  pub extend_lem :
      (n : ℕ) (v s : Bytes)
      → extend_from_slice n v s ≡ (if leb (length v + length s) n then some (v ++ s) else none)
  pub push_str_lem :
      (n : ℕ) (v s : Bytes)
      → push_str n v s ≡ (if leb (length v + length s) n then some (v ++ s) else none)

-- The laws can be met: lists with the capacity checked before each append.
abbrev pub bounded : Heapless
bounded = record {
  push = λ A n v a. if ltb (length v) n then some (v ++ a ∷ []) else none;
  extend_from_slice = λ n v s. if leb (length v + length s) n then some (v ++ s) else none;
  push_str = λ n v s. if leb (length v + length s) n then some (v ++ s) else none;
  push_lem = λ A n v a. refl;
  extend_lem = λ n v s. refl;
  push_str_lem = λ n v s. refl;
}
