-- ===== src/Io/Ends.antt =====
-- Calls on the world that end, with the proof that they do, and chains of them.
use nanofish.Io.{Io, continue, lift, or_fail}
use nanofish.Prelude.{Bool, true, false}
use nanofish.Result.Ends.{Ends}
use nanofish.Result.{Error, Result, ok, err, panic, out_of_fuel}

module _ (Panic : Type 0) where
  pub continue-Ends :
      {S A B : Type 0} (m : Result A × S) (f : A → Io S B)
      → Ends Panic m.0
      → ((a : A) (st : S) → Ends Panic (f a st).0)
      → Ends Panic (continue m f).0
  unfolding Ends
  continue-Ends (ok a, st) f h k = k a st
  continue-Ends (err e, st) f h k = tt
  continue-Ends (panic, st) f h k = h
  continue-Ends (out_of_fuel, st) f h k = elim h [ ]

  pub or_fail-Ends : {S : Type 0} (e : Error) (p : Bool × S) → Ends Panic (or_fail e p).0
  unfolding Ends
  or_fail-Ends e (true, st) = tt
  or_fail-Ends e (false, st) = tt

pub record Ending (S Panic A : Type 0) : Type 0 where
  pub call : Io S A
  pub ends : (st : S) → Ends Panic (call st).0

infixl 5 ◌>>=◌ ◌>>◌
abbrev pub ◌>>=◌ :
    {S Panic A B : Type 0} → Ending S Panic A → (A → Ending S Panic B) → Ending S Panic B
◌>>=◌ {Panic = Panic} p f = record {
  call = λ st. continue (p.call st) (λ a. (f a).call);
  ends = λ st. continue-Ends Panic (p.call st) (λ a. (f a).call) (p.ends st) λ a. (f a).ends;
}

abbrev pub ◌>>◌ :
    {S Panic B : Type 0} → Ending S Panic (Unit {0}) → Ending S Panic B → Ending S Panic B
p >> q = p >>= λ done. q

abbrev pub ending :
    {S Panic A : Type 0} → (m : Io S A) → ((st : S) → Ends Panic (m st).0) → Ending S Panic A
ending m h = record { call = m; ends = h }

abbrev pub lifted : {S Panic A : Type 0} → (r : Result A) → Ends Panic r → Ending S Panic A
lifted r h = record { call = lift r; ends = λ st. h }
