-- ===== src/Samples/Lists.antt =====
-- Linked lists of one instruction each.
use librxvm.Prelude.{ℕ, zero, suc, ◌≡◌, refl, [], ◌∷◌, none, some, some_inj, done, arith}
use librxvm.Inst.{Inst, set_op_any, set_op_sol}
use librxvm.Stack.{IrStack, stack_add_head, stack_add_tail, stack_cat}
use librxvm.Stack.Links.{Linked, Memory, fresh, linked_add_head, linked_add_tail, linked_cat}
use librxvm.Stack.Relink.{AreDistinct}
use librxvm.Stack.Implements.{Holds, Implements, IsChain-new, new-IsChain}
use librxvm.Stack.Grows.{one-Holds}
use librxvm.Stack.Refines.{linked_add_head-Implements, linked_add_tail-Implements}
use librxvm.Stack.Cat.{linked_cat-Implements}

abbrev one : Memory
one = fresh set_op_any ∷ []

abbrev two : Memory
two = fresh set_op_any ∷ fresh set_op_sol ∷ []

abbrev only : ℕ → Linked
only a = record { head = some a; tail = some a; size = 1 }

abbrev sequence : Inst → IrStack
sequence inst = record { items = inst ∷ []; dangling_alt = none; size = 1; dsize = 0 }

one-Implements : Implements one (only 0) (sequence set_op_any)
one-Implements = (0 ∷ [], one-Holds [] set_op_any (only 0) refl refl, refl, refl)

linked_add_head-Implements_example :
    (l' : Linked) × (mem' : Memory) × (linked_add_head (only 0) set_op_sol one ≡ done (l', mem'))
    × Implements mem' l' (stack_add_head (sequence set_op_any) set_op_sol)
linked_add_head-Implements_example =
    linked_add_head-Implements one (only 0) (sequence set_op_any) set_op_sol one-Implements

linked_add_tail-Implements_example :
    (l' : Linked) × (mem' : Memory) × (linked_add_tail (only 0) set_op_sol one ≡ done (l', mem'))
    × Implements mem' l' (stack_add_tail (sequence set_op_any) set_op_sol)
linked_add_tail-Implements_example =
    linked_add_tail-Implements one (only 0) (sequence set_op_any) set_op_sol one-Implements

first-Holds : Holds two (only 0) (0 ∷ [])
first-Holds = record {
  chain = IsChain-new one (fresh set_op_sol) (0 ∷ []) (new-IsChain [] set_op_any);
  distinct = (one-Holds [] set_op_any (only 0) refl refl).distinct;
  first = refl;
  last = refl;
}

both-AreDistinct : AreDistinct (1 ∷ 0 ∷ [])
both-AreDistinct zero zero a e f = refl
both-AreDistinct (suc zero) (suc zero) a e f = refl
both-AreDistinct zero (suc zero) a e f =
    let is : 1 ≡ a = some_inj e in let other : 0 ≡ a = some_inj f in absurd (omega arith)
both-AreDistinct (suc zero) zero a e f =
    let is : 0 ≡ a = some_inj e in let other : 1 ≡ a = some_inj f in absurd (omega arith)
both-AreDistinct (suc (suc i)) j a e f = let is : none ≡ some a = e in absurd (cc)
both-AreDistinct zero (suc (suc j)) a e f = let is : none ≡ some a = f in absurd (cc)
both-AreDistinct (suc zero) (suc (suc j)) a e f = let is : none ≡ some a = f in absurd (cc)

linked_cat-Implements_example :
    (l' : Linked) × (mem' : Memory) × (linked_cat (only 0) (only 1) two ≡ done (l', mem'))
    × Implements mem' l' (stack_cat (sequence set_op_any) (sequence set_op_sol))
linked_cat-Implements_example =
    linked_cat-Implements two (only 0) (only 1) (sequence set_op_any) (sequence set_op_sol) (0 ∷ [])
      (1 ∷ []) first-Holds (one-Holds one set_op_sol (only 1) refl refl) both-AreDistinct refl refl
      refl refl
