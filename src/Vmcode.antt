-- ===== src/Vmcode.antt =====
-- Code generation, librxvm/vmcode.c. An operator is applied to an operand, which the code walks from
-- the item `i` to the head of `cp->buf`; `operand` is that part of the buffer, and `size` its length
-- as the caller counts it.
pub mod Ahead
pub mod Closed
pub mod Blocks
pub mod Keeps
pub mod Alt
use librxvm.Prelude.{
  ℕ, zero, suc, ◌+◌, ◌-◌, ◌*◌, Bool, true, false, not, ◌&&◌, ◌||◌, List, [], ◌∷◌, ◌++◌, Option,
  none, some, ltb, ◌==◌, if◌then◌else◌, length,
}
use librxvm.Prelude.Int.{ℤ, pos, negsuc, sub_ℕ}
use librxvm.Inst.{Inst, set_op_branch, set_op_jmp, set_op_match, set_op_class, set_op_nclass}
use librxvm.Stack.{IrStack, stack_add_head, stack_add_tail}
use librxvm.Err.{Result, ok, err, rxvm_badop}

-- `create_inst` copies the record.
unfoldable pub stack_add_inst_head : IrStack → Inst → IrStack
unfolding stack_add_head
stack_add_inst_head stack inst = stack_add_head stack inst

unfoldable pub stack_add_inst_tail : IrStack → Inst → IrStack
unfolding stack_add_tail
stack_add_inst_tail stack inst = stack_add_tail stack inst

-- The items themselves are moved; the buffer that held them is reset by the caller.
unfoldable pub stack_cat_from_item : IrStack → List Inst → IrStack
stack_cat_from_item stack [] = stack
stack_cat_from_item stack (inst ∷ operand) = stack_cat_from_item (stack_add_head stack inst) operand

-- The items are copied, with the strings of classes.
unfoldable pub stack_dupe_from_item : IrStack → List Inst → IrStack
stack_dupe_from_item stack [] = stack
stack_dupe_from_item stack (inst ∷ operand) =
    stack_dupe_from_item (stack_add_inst_head stack inst) operand

-- `inst->x = …` through a pointer to an item.
abbrev pub set_x : List Inst → ℕ → ℤ → List Inst
set_x [] i x = []
set_x (inst ∷ items) zero x = record inst { x = x } ∷ items
set_x (inst ∷ items) (suc i) x = inst ∷ set_x items i x

unfoldable pub attach_at : Option ℕ → IrStack → IrStack
attach_at none target = target
attach_at (some i) target = record target {
  items = set_x target.items i (sub_ℕ (target.size + 1) target.dsize);
  dangling_alt = none;
}

unfoldable pub attach_dangling_alt : IrStack → IrStack
unfolding attach_at
attach_dangling_alt target = attach_at target.dangling_alt target

-- `-((int)size)`
abbrev pub minus : ℕ → ℤ
minus zero = pos 0
minus (suc n) = negsuc n

unfoldable pub code_one : IrStack → List Inst → ℕ → IrStack
code_one target operand size =
    stack_add_inst_head (stack_cat_from_item target operand) (set_op_branch (minus size) (pos 1))

unfoldable pub code_zero : IrStack → List Inst → ℕ → IrStack
code_zero target operand size =
    stack_add_inst_head
      (stack_cat_from_item (stack_add_inst_head target (set_op_branch (pos 1) (pos (size + 2))))
        operand)
      (set_op_branch (minus size) (pos 1))

unfoldable pub code_onezero : IrStack → List Inst → ℕ → IrStack
code_onezero target operand size =
    stack_cat_from_item (stack_add_inst_head target (set_op_branch (pos 1) (pos (size + 1))))
      operand

-- `for (j = 0; j < n; ++j)` over `stack_dupe_from_item`.
unfoldable pub dupe_times : ℕ → IrStack → List Inst → IrStack
dupe_times zero target operand = target
dupe_times (suc n) target operand = dupe_times n (stack_dupe_from_item target operand) operand

-- The loop of the optional copies: with `k` rounds left the branch leads behind the last of them.
-- The last round moves the operand instead of copying it.
unfoldable pub optional_copies : ℕ → IrStack → List Inst → ℕ → IrStack
optional_copies zero target operand size = target
optional_copies (suc k) target operand size =
    let branched : IrStack =
      stack_add_inst_head target (set_op_branch (pos 1) (pos ((size + 1) * suc k))) in
    elim k [
      | zero ↦ stack_cat_from_item branched operand
      | suc k' ↦ optional_copies k (stack_dupe_from_item branched operand) operand size
    ]

unfoldable pub code_rep_n : IrStack → List Inst → ℕ → Result IrStack
code_rep_n target operand zero = err rxvm_badop
code_rep_n target operand (suc n) = ok (stack_cat_from_item (dupe_times n target operand) operand)

-- `rep_n` is positive here: {0,} is compiled by `code_zero`.
unfoldable pub code_rep_more : IrStack → List Inst → ℕ → ℕ → IrStack
code_rep_more target operand rep_n size =
    stack_add_inst_head (stack_cat_from_item (dupe_times (rep_n - 1) target operand) operand)
      (set_op_branch (minus size) (pos 1))

unfoldable pub code_rep_less : IrStack → List Inst → ℕ → ℕ → Result IrStack
code_rep_less target operand rep_m size =
    if rep_m == 0
    then err rxvm_badop
    else if rep_m == 1
    then ok (code_onezero target operand size)
    else ok (optional_copies rep_m target operand size)

-- The two fields are in order.
abbrev pub rep_in_order : IrStack → List Inst → ℕ → ℕ → ℕ → Result IrStack
rep_in_order target operand lo hi size =
    ok (optional_copies (hi - lo) (dupe_times lo target operand) operand size)

unfoldable pub code_rep_range : IrStack → List Inst → ℕ → ℕ → ℕ → Result IrStack
code_rep_range target operand rep_n rep_m size =
    if rep_n == rep_m
    then code_rep_n target operand rep_n
    else if (rep_n == 0 && rep_m == 1) || (rep_n == 1 && rep_m == 0)
    then ok (code_onezero target operand size)
    else if ltb rep_m rep_n
    then rep_in_order target operand rep_m rep_n size
    else rep_in_order target operand rep_n rep_m size

-- The target with the new alternative, and `cp->chained`. Without an item the operand is [].
unfoldable pub code_alt : IrStack → List Inst → Bool → IrStack × Bool
code_alt target operand chained =
    let moved : IrStack = stack_cat_from_item target operand in
    let chained' : Bool = if not (moved.dsize == 0) && not chained then true else chained in
    let attached : IrStack = attach_dangling_alt moved in
    let branched : IrStack =
      stack_add_inst_tail attached (set_op_branch (pos 1) (pos (attached.size + 2))) in
    let jumped : IrStack = stack_add_inst_head branched (set_op_jmp (pos 0)) in
    (record jumped { dangling_alt = some (length branched.items); dsize = jumped.size }, chained')

-- `strb` is the class string without its terminator; the code frees an empty one and adds nothing.
unfoldable pub code_ccs : IrStack → List ℕ → Bool → IrStack
code_ccs topmost [] is_nchar = topmost
code_ccs topmost (c ∷ strb) is_nchar =
    stack_add_inst_head topmost
      (if is_nchar then set_op_nclass (c ∷ strb) else set_op_class (c ∷ strb))

unfoldable pub code_match : IrStack → IrStack
code_match prog = stack_add_inst_head prog set_op_match
