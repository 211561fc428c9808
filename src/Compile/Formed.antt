-- ===== src/Compile/Formed.antt =====
-- What `rxvm_compile` of librxvm/rxvm.c returns, over both stages.
use librxvm.Prelude.{ℕ, ◌≡◌, ◌⊎◌, List, Option, none, some, Outcome, done, fault, out_of_fuel}
use librxvm.Err.{Result, ok, err}
use librxvm.Inst.{Program}
use librxvm.Rxvm.{Compiled}
use librxvm.Stage1.Context.{Globals}
use librxvm.Stage1.StepHalts.{Halts}
use librxvm.Stage2.Jumps.{IsForward}

-- What compiling `exp` may return: the expression as it stands, or a program that is well formed and
-- whose jumps lead forward.
abbrev pub IsCompilation : List ℕ → Compiled → Type 0
IsCompilation exp c = (c.simple ≡ some exp) ⊎ ((c.simple ≡ none) × IsForward c.exe)

abbrev pub Compiles : List ℕ → Outcome (Result Compiled × Globals) → Type 0
Compiles exp (done (ok c, g)) = IsCompilation exp c
Compiles exp (done (err e, g)) = Unit {0}
Compiles exp fault = Unit {0}
Compiles exp out_of_fuel = ⊥

module _ (exp : List ℕ) where
  abbrev IsSecond : Program × Option (List ℕ) → Type 0
  IsSecond (exe, simple) = (simple ≡ some exp) ⊎ ((simple ≡ none) × IsForward exe)
