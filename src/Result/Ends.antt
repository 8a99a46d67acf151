-- ===== src/Result/Ends.antt =====
-- Calls that end: those that are no end of a loop's fuel, and panic only where that is allowed.
use nanofish.Prelude.{Option, none, some}
use nanofish.Result.{Error, Result, ok, err, panic, out_of_fuel, ◌>>=◌, ok_or}

-- `Panic` is what is known where the call panics: `⊥` if it never does, `Unit` if it may.
unfoldable pub Ends {ℓ} : {A : Type ℓ} → Type 0 → Result A → Type 0
Ends Panic (ok a) = Unit
Ends Panic (err e) = Unit
Ends Panic panic = Panic
Ends Panic out_of_fuel = ⊥

-- `?`, by a name.
abbrev pub chain {ℓ κ} : {A : Type ℓ} {B : Type κ} → Result A → (A → Result B) → Result B
chain m f = m >>= f

module _ (Panic : Type 0) where
  pub chain-Ends {ℓ κ} :
      {A : Type ℓ} {B : Type κ} (m : Result A) (f : A → Result B)
      → Ends Panic m
      → ((a : A) → Ends Panic (f a))
      → Ends Panic (chain m f)
  unfolding Ends
  chain-Ends (ok a) f h k = k a
  chain-Ends (err e) f h k = tt
  chain-Ends panic f h k = h
  chain-Ends out_of_fuel f h k = elim h [ ]

  pub ok_or-Ends {ℓ} : {A : Type ℓ} (o : Option A) (e : Error) → Ends Panic (ok_or o e)
  unfolding Ends
  ok_or-Ends none e = tt
  ok_or-Ends (some a) e = tt
