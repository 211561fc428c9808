-- ===== src/Samples/Gen.antt =====
-- Generating text for the programs of `a+` and `a+[^!][xy]`.
use librxvm.Prelude.{◌≡◌, refl, true, zero, suc, [], ◌∷◌, none, done, ℕ, arith, some_inj}
use mathlib.Core.Path.{subst}
use librxvm.Prelude.Int.{pos}
use librxvm.Inst.{
  Inst, Program, set_op_char, set_op_branch, set_op_class, set_op_nclass, set_op_match,
}
use librxvm.Rxvm.{Compiled}
use librxvm.Gen.{GenConfig, Generating, find_nchar, gen_loop, rxvm_gen}
use librxvm.Gen.Nchar.{IsOutside, find_nchar-Outside}
use librxvm.Gen.Writes.{GenOf}
use librxvm.Gen.Accepted.{IsGenerable, GivesAccepted, rxvm_gen-Accepted}
use librxvm.Gen.Ends.{ExitsOf, IsExiting, Returns, gen_loop-Returns}

abbrev one_or_more : Program
one_or_more = set_op_char b'a' ∷ set_op_branch (pos 0) (pos 2) ∷ set_op_match ∷ []

abbrev compiled : Compiled
compiled = record { exe = one_or_more; simple = none; lfix = none; lfix0 = 0; lfixn = 0 }

-- The program of `a+[^!][xy]`.
abbrev mixed : Program
mixed =
    set_op_char b'a'
    ∷ set_op_branch (pos 0) (pos 2)
    ∷ set_op_nclass (b'!' ∷ [])
    ∷ set_op_class (b'x' ∷ b'y' ∷ [])
    ∷ set_op_match
    ∷ []

abbrev compiled_mixed : Compiled
compiled_mixed = record { exe = mixed; simple = none; lfix = none; lfix0 = 0; lfixn = 0 }

mixed-IsGenerable : IsGenerable mixed
unfolding set_op_char set_op_branch set_op_nclass set_op_class set_op_match
mixed-IsGenerable zero inst e = subst (λ (v : Inst). GenOf v.op v) (some_inj e) (omega arith)
mixed-IsGenerable (suc zero) inst e = subst (λ (v : Inst). GenOf v.op v) (some_inj e) tt
mixed-IsGenerable (suc (suc zero)) inst e =
    subst (λ (v : Inst). GenOf v.op v) (some_inj e)
      (b'!' ∷ [], refl, b' ', (omega arith, omega arith), refl)
mixed-IsGenerable (suc (suc (suc zero))) inst e =
    subst (λ (v : Inst). GenOf v.op v) (some_inj e) (b'x' ∷ b'y' ∷ [], refl, refl)
mixed-IsGenerable (suc (suc (suc (suc zero)))) inst e =
    subst (λ (v : Inst). GenOf v.op v) (some_inj e) tt
mixed-IsGenerable (suc (suc (suc (suc (suc i))))) inst e = absurd (cc)

exiting : IsExiting one_or_more
unfolding set_op_char set_op_branch set_op_match
exiting zero inst e = subst (λ (v : Inst). ExitsOf 3 0 v v.op) (some_inj e) (omega arith)
exiting (suc zero) inst e =
    subst (λ (v : Inst). ExitsOf 3 1 v v.op) (some_inj e) (2, refl, omega arith, omega arith)
exiting (suc (suc zero)) inst e = subst (λ (v : Inst). ExitsOf 3 2 v v.op) (some_inj e) tt
exiting (suc (suc (suc i))) inst e = absurd (cc)

find_nchar-Outside_example :
    (r : ℕ) × (find_nchar (λ n. n) 0 (b' ' ∷ b'!' ∷ []) ≡ done r) × IsOutside (b' ' ∷ b'!' ∷ []) r
find_nchar-Outside_example = find_nchar-Outside (λ n. n) 0 (b' ' ∷ b'!' ∷ [])

rxvm_gen-Accepted_example :
    GivesAccepted mixed (rxvm_gen (λ n. 99) (λ n. true) 5 compiled_mixed none)
rxvm_gen-Accepted_example =
    rxvm_gen-Accepted (λ n. 99) (λ n. true) 5 compiled_mixed none mixed-IsGenerable refl

abbrev settings : GenConfig
settings = record { generosity = 50; whitespace = 10; limit = 0 }

abbrev at_start : Generating
at_start = record {
  ip = 0;
  strb = record { size = 0; space = 128; buf = []; block_size = 128 };
  calls = 0;
}

gen_loop-Returns_example : Returns (gen_loop (λ n. n) (λ n. true) 3 one_or_more settings at_start)
gen_loop-Returns_example =
    gen_loop-Returns (λ n. n) (λ n. true) one_or_more settings exiting 3 at_start (omega arith)
      (omega arith) (omega arith)
