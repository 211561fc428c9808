-- ===== src/Code/Generate.antt =====
-- The meaning of the switch of `process_op`, librxvm/stage1.c, for the operators that repeat.
use librxvm.Prelude.{ℕ, zero, suc, ◌≤◌, ◌≡◌, ◌⊎◌, Bool, List, length, arith}
use librxvm.Inst.{Inst}
use librxvm.Stack.{IrStack}
use librxvm.Err.{Result, ok, err, rxvm_badop, ◌>>=◌}
use librxvm.Token.{Token}
use librxvm.Lfix.{Lfix}
use librxvm.Vmcode.{code_rep_n, code_rep_less, code_rep_range}
use librxvm.Vmcode.Closed.{IsClosed}
use librxvm.Stage1.Operator.{
  Field, no_field, field_empty, num, process_op_rep, generate, parse_rep, Generated,
}
use librxvm.Code.Operators.{
  Appends, Appends-map, IsRepeat, one-Appends, zero-Appends, onezero-Appends, rep_n-IsRepeat,
  rep_more-Appends, rep_less-IsRepeat, rep_range-IsRepeat,
}

-- The repetitions that an expression can write: {n}, {n,}, {,m} and {n,m}.
abbrev pub IsRange : Field → Field → Type 0
IsRange (num n) m = Unit {0}
IsRange field_empty (num m) = Unit {0}
IsRange _ _ = ⊥

-- How many times they allow; the numbers of {n,m} may stand in either order.
abbrev pub InRange : Field → Field → ℕ → Type 0
InRange (num n) (num m) k = ((n ≤ k) × (k ≤ m)) ⊎ ((m ≤ k) × (k ≤ n))
InRange (num n) field_empty k = n ≤ k
InRange (num n) no_field k = k ≡ n
InRange _ (num m) k = k ≤ m
InRange _ _ k = k ≡ 1

-- The operators that repeat their operand, and how many times they allow.
abbrev pub IsRepetition : Token → List ℕ → Type 0
IsRepetition Token.one text = Unit {0}
IsRepetition Token.zero text = Unit {0}
IsRepetition Token.onezero text = Unit {0}
IsRepetition Token.rep text = IsRange (parse_rep text).0 (parse_rep text).1
IsRepetition _ text = ⊥

abbrev pub Allows : Token → List ℕ → ℕ → Type 0
Allows Token.one text k = 1 ≤ k
Allows Token.zero text k = Unit {0}
Allows Token.onezero text k = k ≤ 1
Allows Token.rep text k = InRange (parse_rep text).0 (parse_rep text).1 k
Allows _ text k = k ≡ 1

-- The target has the operand's code repeated so many times as is allowed, or the operator fails, and
-- allows no repetition but none at all.
abbrev pub GeneratesRepeat : IrStack → List Inst → (ℕ → Type 0) → Result Generated → Type 0
GeneratesRepeat t l allowed (ok g) = Appends t l allowed g.target
GeneratesRepeat t l allowed (err e) = (e ≡ rxvm_badop) × ((k : ℕ) → allowed k → k ≡ 0)

Repeat-Generates :
    (t : IrStack) (l : List Inst) (allowed : ℕ → Type 0) (r : Result IrStack) (chained : Bool)
    (lfix : Lfix)
    → IsRepeat t l allowed r
    → GeneratesRepeat t l allowed
        (r >>= (λ t'. ok (record { target = t'; chained = chained; lfix = lfix })))
Repeat-Generates t l allowed (ok t') chained lfix h = h
Repeat-Generates t l allowed (err e) chained lfix h = h

module _ (t : IrStack) (l : List Inst) (h : IsClosed l) where
  rep-GeneratesRepeat :
      (n m : Field) (chained : Bool) (lfix : Lfix)
      → IsRange n m
      → GeneratesRepeat t l (InRange n m) (process_op_rep t l n m (length l) chained lfix)
  unfolding process_op_rep
  rep-GeneratesRepeat (num n) (num m) chained lfix r =
      Repeat-Generates t l _ (code_rep_range t l n m (length l)) chained lfix
        (rep_range-IsRepeat t l h n m)
  rep-GeneratesRepeat (num zero) field_empty chained lfix r =
      Appends-map t l (λ k. Unit {0}) (InRange (num 0) field_empty) _
        (λ k. (λ u. omega arith, λ u. tt)) (zero-Appends t l h)
  rep-GeneratesRepeat (num (suc n)) field_empty chained lfix r = rep_more-Appends t l h n
  rep-GeneratesRepeat field_empty (num m) chained lfix r =
      Repeat-Generates t l _ (code_rep_less t l m (length l)) chained _ (rep_less-IsRepeat t l h m)
  rep-GeneratesRepeat (num n) no_field chained lfix r =
      Repeat-Generates t l _ (code_rep_n t l n) chained lfix (rep_n-IsRepeat t l h n)
  rep-GeneratesRepeat no_field _ chained lfix r = elim r [ ]
  rep-GeneratesRepeat field_empty no_field chained lfix r = elim r [ ]
  rep-GeneratesRepeat field_empty field_empty chained lfix r = elim r [ ]

  -- On an operand that is closed code, each operator that repeats, and each repetition in braces that
  -- an expression can write, appends one block of closed code to the target. From any place of a text
  -- the block can be run to its end at another place exactly when the operand can, run so many times
  -- in a row as the operator allows: once or more for `+`, any number for `*`, at most once for `?`,
  -- and the numbers given for {n}, {n,}, {,m} and {n,m}. The operator may also fail with the code for
  -- a wrong operator, but only where no repetition other than none at all is allowed.
  pub generate-Repeats :
      (tok : Token) (text : List ℕ) (chained : Bool) (lfix : Lfix)
      → IsRepetition tok text
      → GeneratesRepeat t l (Allows tok text) (generate tok text t l (length l) chained lfix)
  unfolding generate
  generate-Repeats Token.rep text chained lfix r =
      rep-GeneratesRepeat (parse_rep text).0 (parse_rep text).1 chained lfix r
  generate-Repeats Token.one text chained lfix r = one-Appends t l h
  generate-Repeats Token.zero text chained lfix r = zero-Appends t l h
  generate-Repeats Token.onezero text chained lfix r = onezero-Appends t l h
  generate-Repeats _ text chained lfix r = elim r [ ]
