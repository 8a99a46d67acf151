-- ===== src/Io/Keeps.antt =====
-- What the calls on a stream leave true of the world.
use nanofish.Io.{Io, Stream, continue, lift, or_fail}
use nanofish.Prelude.{ℕ, Bool, true, false, Bytes}
use nanofish.Result.{Error, Result, ok, err, panic, out_of_fuel}

-- A call keeps a predicate on the world if it holds afterwards wherever it held before.
abbrev pub Keeps : {S A : Type 0} → (S → Type 0) → Io S A → Type 0
Keeps {S} I m = (st : S) → I st → I (m st).1

-- The three calls of a stream keep it.
pub record StreamKeeps (stream : Stream) (I : stream.State → Type 0) : Type 0 where
  pub reads : (st : stream.State) (room : ℕ) → I st → I (stream.read st room).1
  pub writes : (st : stream.State) (bytes : Bytes) → I st → I (stream.write_all st bytes).1
  pub flushes : (st : stream.State) → I st → I (stream.flush st).1

module _ {S A : Type 0} (I : S → Type 0) where
  pub continue-Keeps :
      {B : Type 0} (m : Result A × S) (f : A → Io S B)
      → I m.1
      → ((a : A) → Keeps I (f a))
      → I (continue m f).1
  continue-Keeps (ok a, st) f h k = k a st h
  continue-Keeps (err e, st) f h k = h
  continue-Keeps (panic, st) f h k = h
  continue-Keeps (out_of_fuel, st) f h k = h

-- A call with the proof that it keeps a predicate, and a chain of them.
pub record Kept {S : Type 0} (I : S → Type 0) (A : Type 0) : Type 0 where
  pub call : Io S A
  pub keeps : Keeps I call

infixl 5 ◌>>=◌ ◌>>◌
abbrev pub ◌>>=◌ : {S A B : Type 0} {I : S → Type 0} → Kept I A → (A → Kept I B) → Kept I B
◌>>=◌ {I = I} p f = record {
  call = λ st. continue (p.call st) (λ a. (f a).call);
  keeps = λ st i. continue-Keeps I (p.call st) (λ a. (f a).call) (p.keeps st i) λ a. (f a).keeps;
}

abbrev pub ◌>>◌ : {S B : Type 0} {I : S → Type 0} → Kept I (Unit {0}) → Kept I B → Kept I B
p >> q = p >>= λ _. q

abbrev pub kept : {S A : Type 0} {I : S → Type 0} → (m : Io S A) → Keeps I m → Kept I A
kept m h = record { call = m; keeps = h }

abbrev pub lifted : {S A : Type 0} {I : S → Type 0} → Result A → Kept I A
lifted r = record { call = lift r; keeps = λ st i. i }

pub or_fail-Keeps :
    {S : Type 0} (I : S → Type 0) (e : Error) (p : Bool × S) → I p.1 → I (or_fail e p).1
or_fail-Keeps I e (true, st) i = i
or_fail-Keeps I e (false, st) i = i
