-- ===== src/Stack/Links.antt =====
-- The doubly linked list of librxvm/stack.c with its pointers. An item pointer is the index of the item
-- in memory; `malloc` is taken to succeed, and freed items stay in memory.
use librxvm.Prelude.{
  ℕ, ◌+◌, List, [], ◌∷◌, ◌++◌, Option, none, some, Outcome, done, fault, ◌>>=◌, length, get_elem?,
  set,
}
use librxvm.Inst.{Inst}

-- `stackitem_t`
pub record Item : Type 0 where
  pub content : Inst
  pub next : Option ℕ
  pub previous : Option ℕ

-- The fields of `ir_stack_t` that librxvm/stack.c works on.
pub record Linked : Type 0 where
  pub head : Option ℕ
  pub tail : Option ℕ
  pub size : ℕ

abbrev pub Memory : Type 0
Memory = List Item

-- `item->next = v`; a null pointer is a fault.
unfoldable pub set_next : Option ℕ → Option ℕ → Memory → Outcome Memory
set_next none v mem = fault
set_next (some a) v mem = elim (get_elem? mem a) [
  | none ↦ fault
  | some item ↦ done (set mem a (record item { next = v }))
]

unfoldable pub set_previous : Option ℕ → Option ℕ → Memory → Outcome Memory
set_previous none v mem = fault
set_previous (some a) v mem = elim (get_elem? mem a) [
  | none ↦ fault
  | some item ↦ done (set mem a (record item { previous = v }))
]

-- What `create_item` writes.
abbrev pub fresh : Inst → Item
fresh inst = record { content = inst; next = none; previous = none }

unfoldable pub create_item : Inst → Memory → ℕ × Memory
create_item inst mem = (length mem, mem ++ fresh inst ∷ [])

unfoldable pub stack_point_new_head : Linked → ℕ → Memory → Outcome (Linked × Memory)
stack_point_new_head stack new mem = elim stack.head [
  | none ↦ done (record stack { tail = some new; head = some new; size = stack.size + 1 }, mem)
  | some h ↦
      set_previous (some h) (some new) mem
      >>= set_next (some new) (some h)
      >>= (λ mem'. done (record stack { head = some new; size = stack.size + 1 }, mem'))
]

unfoldable pub stack_point_new_tail : Linked → ℕ → Memory → Outcome (Linked × Memory)
stack_point_new_tail stack new mem = elim stack.tail [
  | none ↦ done (record stack { head = some new; tail = some new; size = stack.size + 1 }, mem)
  | some t ↦
      set_next (some t) (some new) mem
      >>= set_previous (some new) (some t)
      >>= (λ mem'. done (record stack { tail = some new; size = stack.size + 1 }, mem'))
]

unfoldable pub linked_add_head : Linked → Inst → Memory → Outcome (Linked × Memory)
linked_add_head stack inst mem =
    let r : ℕ × Memory = create_item inst mem in stack_point_new_head stack r.0 r.1

unfoldable pub linked_add_tail : Linked → Inst → Memory → Outcome (Linked × Memory)
linked_add_tail stack inst mem =
    let r : ℕ × Memory = create_item inst mem in stack_point_new_tail stack r.0 r.1

-- `stack_cat` on pointers that are not null.
unfoldable pub linked_cat : Linked → Linked → Memory → Outcome (Linked × Memory)
linked_cat stack1 stack2 mem = elim stack1.head [
  | none ↦ done (record { head = stack2.head; tail = stack2.tail; size = stack2.size }, mem)
  | some h ↦ elim stack2.head [
    | none ↦ done (stack1, mem)
    | some h2 ↦ set_previous (some h) stack2.tail mem >>= set_next stack2.tail (some h) >>= (λ mem'.
        done (record stack1 { head = some h2; size = stack1.size + stack2.size }, mem'))
  ]
]

-- `stack_free_head`: the tail and the size stay as they are.
unfoldable pub stack_free_head : Linked → Memory → Outcome (Linked × Memory)
stack_free_head stack mem = elim stack.head [
  | none ↦ done (stack, mem)
  | some h ↦ elim (get_elem? mem h) [
    | none ↦ fault
    | some item ↦ elim item.next [
      | none ↦ done (record stack { head = none }, mem)
      | some new ↦
          set_previous (some new) none mem
          >>= (λ mem'. done (record stack { head = some new }, mem'))
    ]
  ]
]
