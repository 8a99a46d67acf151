-- ===== src/Io.antt =====
-- Calls that act on the world outside the library: a stream, and what a handler keeps. A call takes
-- the state of the world and returns its result and the next state.
pub mod Keeps
pub mod Brings
pub mod Ends
use nanofish.Prelude.{ℕ, ◌≤◌, Bool, true, false, Option, some, ◌≡◌, Bytes, length}
use nanofish.Result.{Error, Result, ok, err, panic, out_of_fuel}

abbrev pub Io : Type 0 → Type 0 → Type 0
Io S A = S → Result A × S

abbrev pub continue : {S A B : Type 0} → Result A × S → (A → Io S B) → Result B × S
continue (ok a, st) f = f a st
continue (err e, st) f = (err e, st)
continue (panic, st) f = (panic, st)
continue (out_of_fuel, st) f = (out_of_fuel, st)

-- `?` on a call, and on a pure result.
infixl 5 ◌>>=◌ ◌>>◌
abbrev pub ◌>>=◌ : {S A B : Type 0} → Io S A → (A → Io S B) → Io S B
(m >>= f) st = continue (m st) f

abbrev pub ◌>>◌ : {S B : Type 0} → Io S (Unit {0}) → Io S B → Io S B
m >> k = m >>= λ _. k

abbrev pub lift : {S A : Type 0} → Result A → Io S A
lift r st = (r, st)

-- `map_err` of a call that may fail, to one error.
abbrev pub or_fail : {S : Type 0} → Error → Bool × S → Result (Unit {0}) × S
or_fail e (true, st) = (ok tt, st)
or_fail e (false, st) = (err e, st)

-- A call that cannot fail.
abbrev pub act : {S : Type 0} → (S → S) → Io S (Unit {0})
act f st = (ok tt, f st)

-- A call whose result is kept for later: an error does not leave the caller, but a panic does.
abbrev pub caught : {S A : Type 0} → Result A × S → Result (Result A) × S
caught (ok a, st) = (ok (ok a), st)
caught (err e, st) = (ok (err e), st)
caught (panic, st) = (panic, st)
caught (out_of_fuel, st) = (out_of_fuel, st)

abbrev pub attempt : {S A : Type 0} → Io S A → Io S (Result A)
attempt m st = caught (m st)

-- A stream, as `embedded_io_async::{Read, Write}` gives it. `read` is told the room that is left
-- and returns the bytes that it put there, or nothing for an error; no bytes are the end of the
-- stream. `write_all` and `flush` return whether they succeed.
pub record Stream : Type 1 where
  pub State : Type 0
  pub read : State → ℕ → Option Bytes × State
  pub write_all : State → Bytes → Bool × State
  pub flush : State → Bool × State
  -- The documented bound: no more is read than the buffer has room for.
  pub read_lem :
      (st : State) (room : ℕ) (bytes : Bytes) → (read st room).0 ≡ some bytes → length bytes ≤ room
