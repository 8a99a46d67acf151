-- ===== src/Result/Ending.antt =====
-- Results with the proof that they end, and chains of them.
use nanofish.Prelude.{Option}
use nanofish.Result.Ends.{Ends, chain, chain-Ends, ok_or-Ends}
use nanofish.Result.{Error, Result, ok_or}

pub record Ending (Panic A : Type 0) : Type 0 where
  pub call : Result A
  pub ends : Ends Panic call

infixl 5 ◌>>=◌ ◌>>◌
abbrev pub ◌>>=◌ : {Panic A B : Type 0} → Ending Panic A → (A → Ending Panic B) → Ending Panic B
◌>>=◌ {Panic = Panic} p f = record {
  call = chain p.call λ a. (f a).call;
  ends = chain-Ends Panic p.call (λ a. (f a).call) p.ends λ a. (f a).ends;
}

abbrev pub ◌>>◌ : {Panic B : Type 0} → Ending Panic (Unit {0}) → Ending Panic B → Ending Panic B
p >> q = p >>= λ done. q

abbrev pub ending : {Panic A : Type 0} → (r : Result A) → Ends Panic r → Ending Panic A
ending r h = record { call = r; ends = h }

-- An option with the error that stands for its absence.
abbrev pub asked : {Panic A : Type 0} → Option A → Error → Ending Panic A
asked {Panic} o e = record { call = ok_or o e; ends = ok_or-Ends Panic o e }
