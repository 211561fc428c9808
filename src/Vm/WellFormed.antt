-- ===== src/Vm/WellFormed.antt =====
-- Well-formedness of a program, instruction by instruction.
use mathlib.Core.Path.{subst}
use librxvm.Prelude.{
  ℕ, zero, suc, ◌+◌, ◌<◌, ◌≡◌, List, [], ◌∷◌, some, arith, length, get_elem?, some_inj,
}
use librxvm.Inst.{Inst, Program}
use librxvm.Vm.Spec.{Fits, IsWellFormed}

-- The instructions of `l`, from index `i` on, fit a program of `n` instructions.
abbrev pub AllFit : ℕ → ℕ → List Inst → Type 0
AllFit n i [] = Unit {0}
AllFit n i (inst ∷ l) = Fits n i inst inst.op × AllFit n (i + 1) l

AllFit-Fits :
    (n i k j : ℕ) (l : List Inst) (inst : Inst)
    → AllFit n i l
    → get_elem? l k ≡ some inst
    → i + k ≡ j
    → Fits n j inst inst.op
AllFit-Fits n i k j [] inst h g e = absurd (cc)
AllFit-Fits n i zero j (x ∷ l) inst h g e =
    let e' : i ≡ j = omega arith in
    subst (λ v. Fits n j v v.op) (some_inj g) (subst (λ v. Fits n v x x.op) e' h.0)
AllFit-Fits n i (suc k) j (x ∷ l) inst h g e = AllFit-Fits n (i + 1) k j l inst h.1 g (omega arith)

pub AllFit-IsWellFormed :
    (exe : Program) → 0 < length exe → AllFit (length exe) 0 exe → IsWellFormed exe
AllFit-IsWellFormed exe lt h = record {
  entry = lt;
  fits = λ i inst g. AllFit-Fits (length exe) 0 i i exe inst h g (omega arith);
}
