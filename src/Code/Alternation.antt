-- ===== src/Code/Alternation.antt =====
-- The meaning of alternatives, librxvm/vmcode.c: what `code_alt` leaves open, the code of the next
-- alternative behind it, and `attach_dangling_alt`.
use librxvm.Prelude.{
  suc, ◌+◌, ◌≡◌, refl, ap, Bool, List, [], ◌∷◌, ◌++◌, arith, length, append_assoc,
}
use librxvm.Prelude.Int.{ℤ, pos, sub_ℕ}
use librxvm.Inst.{Inst, set_op_branch, set_op_jmp}
use librxvm.Stack.{IrStack}
use librxvm.Vmcode.{
  set_x, attach_at, stack_add_inst_head, stack_add_inst_tail, code_alt, attach_dangling_alt,
  stack_cat_from_item,
}
use librxvm.Vmcode.Closed.{IsClosed}
use librxvm.Vmcode.Blocks.{cat_from-put}
use librxvm.Vmcode.Keeps.{IsCode, IsCode-IsClosed, IsCode-put}
use librxvm.Vmcode.Alt.{attach-IsCode}
use librxvm.Code.Runs.{Means}
use librxvm.Code.Choice.{choice, choice-SameRel}
use librxvm.Code.Relations.{SameRel, Or}

set_x-at :
    (pre post : List Inst) (inst : Inst) (x : ℤ)
    → set_x (pre ++ inst ∷ post) (length pre) x ≡ pre ++ record inst { x = x } ∷ post
set_x-at [] post inst x = refl
set_x-at (y ∷ pre) post inst x = ap (λ v. y ∷ v) (set_x-at pre post inst x)

-- The code of all alternatives before, once its open jump is set.
abbrev pub before_alt : IrStack → List Inst → IrStack
before_alt t l = attach_dangling_alt (stack_cat_from_item t l)

module _ (t : IrStack) (l : List Inst) (c : IsCode t) (h : IsClosed l) where
  before-IsCode : IsCode (before_alt t l)
  before-IsCode =
      (attach-IsCode (stack_cat_from_item t l) (rw (cat_from-put t l) (IsCode-put t l c h))).0

  before-IsClosed : IsClosed (before_alt t l).items
  before-IsClosed =
      IsCode-IsClosed (before_alt t l) before-IsCode
        (attach-IsCode (stack_cat_from_item t l) (rw (cat_from-put t l) (IsCode-put t l c h))).1

  -- The list with the next alternative, before its open jump is set.
  opened-attach :
      (a : IrStack) (b : List Inst)
      → a.size ≡ length a.items
      → set_x
          ((set_op_branch (pos 1) (pos (a.size + 2)) ∷ (a.items ++ set_op_jmp (pos 0) ∷ [])) ++ b)
          (suc (length a.items))
          (sub_ℕ (a.size + 1 + 1 + length b + 1) (a.size + 1 + 1))
        ≡ choice a.items b
  unfolding set_op_jmp
  opened-attach a b e =
      let offset : sub_ℕ (a.size + 1 + 1 + length b + 1) (a.size + 1 + 1) ≡ pos (length b + 1) =
        ground arith in
      rw (offset, e, append_assoc a.items (set_op_jmp (pos 0) ∷ []) b)
        (ap (λ v. set_op_branch (pos 1) (pos (length a.items + 2)) ∷ v)
          (set_x-at a.items b (set_op_jmp (pos 0)) (pos (length b + 1))))

  alternatives-choice :
      (b : List Inst) (chained : Bool)
      → (attach_dangling_alt (stack_cat_from_item (code_alt t l chained).0 b)).items
        ≡ choice (before_alt t l).items b
  unfolding code_alt attach_dangling_alt attach_at stack_add_inst_head stack_add_inst_tail
  alternatives-choice b chained =
      rw (cat_from-put (code_alt t l chained).0 b)
        (opened-attach (before_alt t l) b before-IsCode.size_eq)

  -- For a target that is closed code but for the open jump of earlier alternatives, and an operand
  -- and a next alternative that are closed code: once `code_alt` has run, the next alternative's code
  -- is there and the open jump is set, the target's code can be run through between two places of a
  -- text exactly when the code from before `code_alt` can, its own open jump set, or the next
  -- alternative's.
  pub alternatives-Or :
      (b : List Inst)
      → IsClosed b
      → (chained icase multiline : Bool)
      → SameRel
          (Means icase multiline
            (attach_dangling_alt (stack_cat_from_item (code_alt t l chained).0 b)).items)
          (Or
            (Means icase multiline (attach_dangling_alt (stack_cat_from_item t l)).items)
            (Means icase multiline b))
  alternatives-Or b hb chained icase multiline =
      rw (alternatives-choice b chained)
        (choice-SameRel (before_alt t l).items b icase multiline before-IsClosed hb)
