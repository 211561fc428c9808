-- ===== src/Stage2/Relocate.antt =====
-- Relocating closed code, with the match instruction behind it, gives a well-formed program.
use librxvm.Prelude.{
  ℕ, suc, ◌+◌, ◌-◌, ◌≤◌, ◌≡◌, refl, ◌∙◌, ap, List, [], ◌∷◌, ◌++◌, arith, length, length-append,
}
use librxvm.Prelude.Int.{ℤ, pos, negsuc, ◌+ℤ◌}
use librxvm.Inst.{Op, char, any, class, nclass, branch, jmp, sol, eol, match, Inst, set_op_match}
use librxvm.Vm.Spec.{Target, Fits, IsWellFormed}
use librxvm.Vm.WellFormed.{AllFit, AllFit-IsWellFormed}
use librxvm.Stack.{IrStack}
use librxvm.Vmcode.{code_match, stack_add_inst_head}
use librxvm.Vmcode.Closed.{Lands, LandsOf, AllLand}
use librxvm.Vmcode.Keeps.{IsCode}
use librxvm.Stage2.{relocate_op, copy_items}

Lands-Target : (n k : ℕ) (z : ℤ) → k ≤ n → Lands n k z → Target (n + 1) (z +ℤ pos k)
unfolding ◌+ℤ◌
Lands-Target n k (pos d) lt h =
    let sum : pos d +ℤ pos k ≡ pos (d + k) = ground arith in rw sum (omega arith)
Lands-Target n k (negsuc d) lt h =
    let sum : negsuc d +ℤ pos k ≡ pos (k - suc d) = ground arith in rw sum (omega arith)

-- An instruction at index `k` of a code of `n` instructions fits the program once relocated.
LandsOf-Fits :
    (n k : ℕ) (inst : Inst) (op : Op)
    → inst.op ≡ op
    → k + 1 ≤ n
    → LandsOf n k inst op
    → Fits (n + 1) k (relocate_op op k inst) op
LandsOf-Fits n k inst branch e lt h =
    (Lands-Target n k inst.x (omega arith) h.0, Lands-Target n k inst.y (omega arith) h.1)
LandsOf-Fits n k inst jmp e lt h = Lands-Target n k inst.x (omega arith) h
LandsOf-Fits n k inst class e lt h = (omega arith, h)
LandsOf-Fits n k inst nclass e lt h = (omega arith, h)
LandsOf-Fits n k inst match e lt h = tt
LandsOf-Fits n k inst char e lt h = omega arith
LandsOf-Fits n k inst any e lt h = omega arith
LandsOf-Fits n k inst sol e lt h = omega arith
LandsOf-Fits n k inst eol e lt h = omega arith

pub relocate-op : (op : Op) (k : ℕ) (inst : Inst) → (relocate_op op k inst).op ≡ inst.op
relocate-op branch k inst = refl
relocate-op jmp k inst = refl
relocate-op _ k inst = refl

copy-AllFit :
    (n k : ℕ) (l : List Inst)
    → k + length l ≡ n
    → AllLand n k l
    → AllFit (n + 1) k (copy_items k (l ++ set_op_match ∷ []))
unfolding copy_items set_op_match
copy-AllFit n k [] e h = (tt, tt)
copy-AllFit n k (inst ∷ l) e h = (
  rw (relocate-op inst.op k inst) (LandsOf-Fits n k inst inst.op refl (omega arith) h.0),
  copy-AllFit n (k + 1) l (omega arith) h.1,
)

pub length-copy_items : (k : ℕ) (l : List Inst) → length (copy_items k l) ≡ length l
unfolding copy_items
length-copy_items k [] = refl
length-copy_items k (inst ∷ l) = ap suc (length-copy_items (k + 1) l)

pub copy_items-IsWellFormed :
    (ir : IrStack)
    → IsCode ir
    → IsWellFormed (copy_items 0 (code_match ir).items)
      × (length (copy_items 0 (code_match ir).items) ≡ ir.size + 1)
unfolding code_match stack_add_inst_head
copy_items-IsWellFormed ir c =
    let l : List Inst = ir.items ++ set_op_match ∷ [] in
    let len : length (copy_items 0 l) ≡ length ir.items + 1 =
      length-copy_items 0 l ∙ length-append ir.items (set_op_match ∷ []) in
    (
      AllFit-IsWellFormed (copy_items 0 l) (omega arith)
          (rw len (copy-AllFit (length ir.items) 0 ir.items (omega arith) c.lands)),
      omega (arith, c.size_eq),
    )
