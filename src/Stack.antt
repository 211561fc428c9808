-- ===== src/Stack.antt =====
-- Instruction lists, librxvm/stack.c: the doubly linked list `ir_stack_t` as the sequence of the
-- instructions from its tail to its head, which is the order of the program. An item pointer is the
-- index of the item. `malloc` is taken to succeed here.
pub mod Links
pub mod Relink
pub mod Chain
pub mod Implements
pub mod Grows
pub mod Refines
pub mod Cat
use librxvm.Prelude.{ℕ, ◌+◌, List, [], ◌∷◌, ◌++◌, Option, none, some}
use librxvm.Inst.{Inst}

-- `ir_stack_t`.
pub record IrStack : Type 0 where
  pub items : List Inst
  pub dangling_alt : Option ℕ
  pub size : ℕ
  pub dsize : ℕ

unfoldable pub create_stack : IrStack
create_stack = record { items = []; dangling_alt = none; size = 0; dsize = 0 }

-- `stack_point_new_head` behind `create_item`.
unfoldable pub stack_add_head : IrStack → Inst → IrStack
stack_add_head stack inst = record stack { items = stack.items ++ inst ∷ []; size = stack.size + 1 }

abbrev pub shift : Option ℕ → Option ℕ
shift none = none
shift (some i) = some (i + 1)

-- `stack_point_new_tail` behind `create_item`: the pointer `dangling_alt` stays on its item.
unfoldable pub stack_add_tail : IrStack → Inst → IrStack
stack_add_tail stack inst = record stack {
  items = inst ∷ stack.items;
  size = stack.size + 1;
  dangling_alt = shift stack.dangling_alt;
}

-- The second list goes before the head of the first, so behind it in the program.
unfoldable pub stack_cat_items : List Inst → List Inst → IrStack → IrStack → IrStack
stack_cat_items [] ys stack1 stack2 = record stack1 { items = ys; size = stack2.size }
stack_cat_items (x ∷ xs) [] stack1 stack2 = stack1
stack_cat_items (x ∷ xs) (y ∷ ys) stack1 stack2 = record stack1 {
  items = (x ∷ xs) ++ (y ∷ ys);
  size = stack1.size + stack2.size;
}

unfoldable pub stack_cat : IrStack → IrStack → IrStack
unfolding stack_cat_items
stack_cat stack1 stack2 = stack_cat_items stack1.items stack2.items stack1 stack2

-- `stack_reset` of librxvm/stage1.c.
unfoldable pub stack_reset : IrStack → IrStack
stack_reset stack = record stack { items = []; size = 0 }
