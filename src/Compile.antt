-- ===== src/Compile.antt =====
-- Compiling an expression: `rxvm_compile` of librxvm/rxvm.c, over both stages.
pub mod Formed
pub mod Refines
use librxvm.Prelude.{
  ℕ, ◌+◌, ◌-◌, ◌%◌, ◌^◌, true, false, List, [], Option, none, some, Outcome, done, fault,
  out_of_fuel, ltb,
}
use librxvm.Err.{Result, ok, err}
use librxvm.Inst.{Program}
use librxvm.Stack.{IrStack}
use librxvm.Lfix.{lfix_to_str}
use librxvm.Stage1.Context.{Globals}
use librxvm.Stage1.Whole.{Staging, stage1}
use librxvm.Stage2.{stage2}
use librxvm.Rxvm.{Compiled}

-- `lfix_size`, of unsigned numbers.
abbrev pub lfix_size : Staging → ℕ
lfix_size s = (s.lfixn + 2 ^ 32 - s.lfix0 + 1) % 2 ^ 32

-- The text at `compiled->lfix`, where the fixed substring has more than one character.
unfoldable pub fixed_text : List ℕ → Staging → Outcome (Option (List ℕ))
unfolding lfix_to_str
fixed_text exp s = elim (ltb 1 (lfix_size s)) [
  | false ↦ done none
  | true ↦ elim (lfix_to_str exp s.lfix0 s.lfixn) [
    | done text ↦ done (some text)
    | fault ↦ fault
    | out_of_fuel ↦ out_of_fuel
  ]
]

-- The second stage, or the copy of an expression that is only literals.
unfoldable pub second_stage : List ℕ → Option IrStack → Outcome (Program × Option (List ℕ))
unfolding stage2
second_stage exp none = done ([], some exp)
second_stage exp (some ir) = elim (stage2 ir) [
  | done exe ↦ done (exe, none)
  | fault ↦ fault
  | out_of_fuel ↦ out_of_fuel
]

-- The record is filled, with the text of the fixed substring last.
unfoldable pub fill_compiled :
    List ℕ
    → Staging
    → Globals
    → Outcome (Program × Option (List ℕ))
    → Outcome (Result Compiled × Globals)
unfolding fixed_text
fill_compiled exp s g fault = fault
fill_compiled exp s g out_of_fuel = out_of_fuel
fill_compiled exp s g (done (exe, simple)) = elim (fixed_text exp s) [
  | fault ↦ fault
  | out_of_fuel ↦ out_of_fuel
  | done lfix ↦
      done (
        ok (record { exe = exe; simple = simple; lfix = lfix; lfix0 = s.lfix0; lfixn = s.lfixn }),
        g,
      )
]

-- What follows the first stage.
unfoldable pub after_stage1 :
    List ℕ → Outcome (Result Staging × Globals) → Outcome (Result Compiled × Globals)
unfolding second_stage fill_compiled
after_stage1 exp fault = fault
after_stage1 exp out_of_fuel = out_of_fuel
after_stage1 exp (done (err e, g)) = done (err e, g)
after_stage1 exp (done (ok s, g)) = fill_compiled exp s g (second_stage exp s.ir)

-- On pointers that are not null. `malloc` is taken to succeed.
unfoldable pub rxvm_compile : List ℕ → Globals → Outcome (Result Compiled × Globals)
unfolding stage1 after_stage1
rxvm_compile exp g = after_stage1 exp (stage1 exp g)
