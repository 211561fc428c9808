-- ===== src/Vmcode/Blocks.antt =====
-- What each operator appends to the target, as one block of code, and that the block is closed.
use librxvm.Prelude.{
  ℕ, zero, suc, ◌+◌, ◌*◌, ◌≡◌, refl, sym, ◌∙◌, List, [], ◌∷◌, ◌++◌, arith, length, length-append,
  append_assoc, append-nil,
}
use librxvm.Prelude.Int.{pos}
use librxvm.Inst.{Inst, set_op_branch}
use librxvm.Stack.{IrStack, stack_add_head}
use librxvm.Vmcode.{
  stack_add_inst_head, stack_cat_from_item, stack_dupe_from_item, minus, code_one, code_zero,
  code_onezero, dupe_times, optional_copies,
}

-- The target with a block of code behind it.
abbrev pub put : IrStack → List Inst → IrStack
put t l = record t { items = t.items ++ l; size = t.size + length l }

put-eq :
    (t : IrStack) (l l' : List Inst) (n n' : ℕ)
    → l ≡ l'
    → n ≡ n'
    → ◌≡◌ {A = IrStack} (record t { items = l; size = n }) (record t { items = l'; size = n' })
put-eq t l l' n n' e f = λ i. record t { items = e i; size = f i }

pub put-put : (t : IrStack) (a b : List Inst) → put (put t a) b ≡ put t (a ++ b)
put-put t a b = put-eq t _ _ _ _ (append_assoc t.items a b) (omega (arith, length-append a b))

pub add_head-put : (t : IrStack) (inst : Inst) → stack_add_inst_head t inst ≡ put t (inst ∷ [])
unfolding stack_add_inst_head
add_head-put t inst = refl

cat_from-add : (t : IrStack) (inst : Inst) → stack_add_head t inst ≡ put t (inst ∷ [])
unfolding stack_add_head
cat_from-add t inst = refl

pub cat_from-put : (t : IrStack) (l : List Inst) → stack_cat_from_item t l ≡ put t l
unfolding stack_cat_from_item
cat_from-put t [] = sym (put-eq t _ _ _ _ (append-nil t.items) (omega arith))
cat_from-put t (x ∷ l) =
    cat_from-put (stack_add_head t x) l ∙ rw cat_from-add (put-put t (x ∷ []) l)

pub dupe_from-put : (t : IrStack) (l : List Inst) → stack_dupe_from_item t l ≡ put t l
unfolding stack_dupe_from_item
dupe_from-put t [] = sym (put-eq t _ _ _ _ (append-nil t.items) (omega arith))
dupe_from-put t (x ∷ l) =
    dupe_from-put (stack_add_inst_head t x) l ∙ rw add_head-put (put-put t (x ∷ []) l)

-- `n` copies of the operand.
abbrev pub times : ℕ → List Inst → List Inst
times zero l = []
times (suc n) l = l ++ times n l

-- The branch behind an operand of `s` instructions: back to its start, or on.
abbrev pub back : ℕ → Inst
back s = set_op_branch (minus s) (pos 1)

-- `k` optional copies.
abbrev pub optional : ℕ → List Inst → ℕ → List Inst
optional zero l s = []
optional (suc k) l s = set_op_branch (pos 1) (pos ((s + 1) * suc k)) ∷ (l ++ optional k l s)

module _ (t : IrStack) (l : List Inst) (s : ℕ) where
  pub code_one-put : code_one t l s ≡ put t (l ++ back s ∷ [])
  unfolding code_one
  code_one-put = rw (cat_from-put, add_head-put) (put-put t l (back s ∷ []))

  pub code_zero-put :
      code_zero t l s ≡ put t (set_op_branch (pos 1) (pos (s + 2)) ∷ (l ++ back s ∷ []))
  unfolding code_zero
  code_zero-put =
      simp (add_head-put, cat_from-put, append_assoc)
        (put-eq t _ _ (t.size + 1 + length l + 1) _ refl
          (omega (arith, length-append l (back s ∷ []))))

  pub code_onezero-put : code_onezero t l s ≡ put t (set_op_branch (pos 1) (pos (s + 1)) ∷ l)
  unfolding code_onezero
  code_onezero-put = simp (add_head-put, cat_from-put, put-put)

pub dupe_times-put : (n : ℕ) (t : IrStack) (l : List Inst) → dupe_times n t l ≡ put t (times n l)
unfolding dupe_times
dupe_times-put zero t l = sym (put-eq t _ _ _ _ (append-nil t.items) (omega arith))
dupe_times-put (suc n) t l =
    dupe_times-put n (stack_dupe_from_item t l) l ∙ rw dupe_from-put (put-put t l (times n l))

pub optional_copies-put :
    (k : ℕ) (t : IrStack) (l : List Inst) (s : ℕ) → optional_copies k t l s ≡ put t (optional k l s)
unfolding optional_copies
optional_copies-put zero t l s = sym (put-eq t _ _ _ _ (append-nil t.items) (omega arith))
optional_copies-put (suc zero) t l s = simp (add_head-put, cat_from-put, put-put, append-nil)
optional_copies-put (suc (suc k)) t l s =
    optional_copies-put (suc k) _ l s ∙ simp (add_head-put, dupe_from-put, put-put)
