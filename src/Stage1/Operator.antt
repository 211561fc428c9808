-- ===== src/Stage1/Operator.antt =====
-- The operators of librxvm/stage1.c: the fields of a repetition and the switch of `process_op`.
use librxvm.Prelude.{ℕ, zero, suc, ◌+◌, ◌-◌, ◌*◌, Bool, List, [], ◌∷◌, ◌==◌, if◌then◌else◌}
use librxvm.Inst.{Inst}
use librxvm.Stack.{IrStack}
use librxvm.Err.{Result, ok, ◌>>=◌}
use librxvm.Token.{Token}
use librxvm.Lfix.{Lfix, lfix_dec}
use librxvm.Vmcode.{
  code_one, code_onezero, code_alt, code_zero, code_rep_n, code_rep_more, code_rep_less,
  code_rep_range,
}

-- A field of a repetition: REP_NO_FIELD, REP_FIELD_EMPTY or a number.
pub data Field : Type 0 where
  no_field : Field
  field_empty : Field
  num : ℕ → Field

-- `*curr *= 10; *curr += (*start - '0')`, where a field that is not begun counts as 0.
abbrev pub add_digit : Field → ℕ → Field
add_digit (num n) c = num (n * 10 + (c - b'0'))
add_digit _ c = num (c - b'0')

-- A field that was not begun, where there is a comma.
abbrev pub close_field : Field → Field
close_field (num n) = num n
close_field _ = field_empty

-- The loop of `parse_rep` once the comma is seen: `curr` is `rep_m`. A further comma changes nothing.
parse_rep_m : List ℕ → Field → Field → Field × Field
parse_rep_m [] rep_n rep_m = (close_field rep_n, close_field rep_m)
parse_rep_m (c ∷ text) rep_n rep_m =
    parse_rep_m text rep_n (if c == b',' then rep_m else add_digit rep_m c)

-- The loop while `curr` is `rep_n`.
parse_rep_n : List ℕ → Field → Field × Field
parse_rep_n [] rep_n = (rep_n, no_field)
parse_rep_n (c ∷ text) rep_n =
    let rest = parse_rep_n text (add_digit rep_n c) in
    if c == b',' then parse_rep_m text rep_n no_field else rest

-- `parse_rep` on the text between the braces.
unfoldable pub parse_rep : List ℕ → Field × Field
unfolding parse_rep_n parse_rep_m
parse_rep text = parse_rep_n text no_field

-- What an operator changes: the target, `cp->chained` and the bookkeeping of lfix.c.
pub record Generated : Type 0 where
  pub target : IrStack
  pub chained : Bool
  pub lfix : Lfix

abbrev pub generated : Result IrStack → Bool → Lfix → Result Generated
generated r chained lfix = r >>= (λ t. ok (record { target = t; chained = chained; lfix = lfix }))

-- `lfix_dec` is called for {,m} and {0,} alone.
unfoldable pub process_op_rep :
    IrStack → List Inst → Field → Field → ℕ → Bool → Lfix → Result Generated
process_op_rep target operand (num n) (num m) size chained lfix =
    generated (code_rep_range target operand n m size) chained lfix
process_op_rep target operand (num zero) field_empty size chained lfix =
    generated (ok (code_zero target operand size)) chained (lfix_dec lfix)
process_op_rep target operand (num (suc n)) field_empty size chained lfix =
    generated (ok (code_rep_more target operand (suc n) size)) chained lfix
process_op_rep target operand field_empty (num m) size chained lfix =
    generated (code_rep_less target operand m size) chained (lfix_dec lfix)
process_op_rep target operand (num n) no_field size chained lfix =
    generated (code_rep_n target operand n) chained lfix
process_op_rep target operand _ _ size chained lfix = generated (ok target) chained lfix

-- The switch of `process_op`; `text` is what stands between the braces
-- of a repetition.
unfoldable pub generate : Token → List ℕ → IrStack → List Inst → ℕ → Bool → Lfix → Result Generated
generate Token.rep text target operand size chained lfix =
    let (n, m) = parse_rep text in process_op_rep target operand n m size chained lfix
generate Token.one text target operand size chained lfix =
    generated (ok (code_one target operand size)) chained lfix
generate Token.zero text target operand size chained lfix =
    generated (ok (code_zero target operand size)) chained (lfix_dec lfix)
generate Token.onezero text target operand size chained lfix =
    generated (ok (code_onezero target operand size)) chained (lfix_dec lfix)
generate Token.alt text target operand size chained lfix =
    let (coded, chained') = code_alt target operand chained in generated (ok coded) chained' lfix
generate _ text target operand size chained lfix = generated (ok target) chained lfix
