-- ===== src/Stage1/Rep.antt =====
-- Every operator of the first stage leaves closed code, or reports that it was used incorrectly.
use librxvm.Prelude.{ℕ, zero, suc, ◌≡◌, List, length, Bool}
use librxvm.Inst.{Inst}
use librxvm.Stack.{IrStack}
use librxvm.Err.{Result, ok, err, rxvm_badop, ◌>>=◌}
use librxvm.Token.{Token}
use librxvm.Lfix.{Lfix}
use librxvm.Vmcode.{code_rep_range, code_rep_less, code_rep_n}
use librxvm.Vmcode.Closed.{IsClosed}
use librxvm.Vmcode.Keeps.{
  IsCode, KeepsCode, one-IsCode, zero-IsCode, onezero-IsCode, rep_more-IsCode, rep_n-KeepsCode,
  rep_less-KeepsCode, rep_range-KeepsCode,
}
use librxvm.Vmcode.Alt.{alt-IsCode}
use librxvm.Stage1.Operator.{
  Field, no_field, field_empty, num, process_op_rep, generate, parse_rep, Generated,
}

-- The target of the operator is closed code, or the operator was used incorrectly.
abbrev pub GeneratesCode : Result Generated → Type 0
GeneratesCode (ok g) = IsCode g.target
GeneratesCode (err e) = e ≡ rxvm_badop

KeepsCode-Generates :
    (r : Result IrStack) (chained : Bool) (lfix : Lfix)
    → KeepsCode r
    → GeneratesCode (r >>= (λ t. ok (record { target = t; chained = chained; lfix = lfix })))
KeepsCode-Generates (ok t) chained lfix h = h
KeepsCode-Generates (err e) chained lfix h = h

module _ (t : IrStack) (l : List Inst) (c : IsCode t) (h : IsClosed l) (s : ℕ)
    (e : length l ≡ s) where
  rep-GeneratesCode :
      (n m : Field) (chained : Bool) (lfix : Lfix)
      → GeneratesCode (process_op_rep t l n m s chained lfix)
  unfolding process_op_rep
  rep-GeneratesCode (num n) (num m) chained lfix =
      KeepsCode-Generates (code_rep_range t l n m s) chained _ (rep_range-KeepsCode t l c h s e n m)
  rep-GeneratesCode (num zero) field_empty chained lfix = zero-IsCode t l c h s e
  rep-GeneratesCode (num (suc n)) field_empty chained lfix = rep_more-IsCode t l c h s e (suc n)
  rep-GeneratesCode field_empty (num m) chained lfix =
      KeepsCode-Generates (code_rep_less t l m s) chained _ (rep_less-KeepsCode t l c h s e m)
  rep-GeneratesCode (num n) no_field chained lfix =
      KeepsCode-Generates (code_rep_n t l n) chained _ (rep_n-KeepsCode t l c h n)
  rep-GeneratesCode no_field _ chained lfix = c
  rep-GeneratesCode field_empty no_field chained lfix = c
  rep-GeneratesCode field_empty field_empty chained lfix = c

  -- For a target that is closed code and an operand that is, of the length counted, each operator
  -- of `process_op` leaves a target that is closed code with its size right and its open jump inside
  -- it, or fails with the code for a wrong operator.
  pub generate-KeepsCode :
      (tok : Token) (text : List ℕ) (chained : Bool) (lfix : Lfix)
      → GeneratesCode (generate tok text t l s chained lfix)
  unfolding generate
  generate-KeepsCode Token.rep text chained lfix =
      rep-GeneratesCode (parse_rep text).0 (parse_rep text).1 chained lfix
  generate-KeepsCode Token.one text chained lfix = one-IsCode t l c h s e
  generate-KeepsCode Token.zero text chained lfix = zero-IsCode t l c h s e
  generate-KeepsCode Token.onezero text chained lfix = onezero-IsCode t l c h s e
  generate-KeepsCode Token.alt text chained lfix = alt-IsCode t l chained c h
  generate-KeepsCode _ text chained lfix = c
