-- ===== src/Stack/Refines.antt =====
-- `stack_add_head` and `stack_add_tail` of librxvm/stack.c do to the linked list what the sequence's
-- operations do.
use librxvm.Prelude.{ℕ, ◌+◌, ◌≡◌, refl, ap, ◌∙◌, List, [], ◌∷◌, ◌++◌, some, done, length}
use librxvm.Inst.{Inst}
use librxvm.Stack.{IrStack, stack_add_head, stack_add_tail}
use librxvm.Stack.Links.{Linked, Memory, fresh, linked_add_head, linked_add_tail}
use librxvm.Stack.Relink.{before}
use librxvm.Stack.Implements.{Implements, contents-one}
use librxvm.Stack.Grows.{one-Holds, head_empty, tail_empty, grown_head, grown_tail}

-- On a linked list in memory that stands for a sequence, with memory for an item: stack_add_head
-- makes no access outside the items, and the list then stands for the sequence with the instruction
-- behind it, in program order, and its size one more.
pub linked_add_head-Implements :
    (mem : Memory) (l : Linked) (s : IrStack) (inst : Inst)
    → Implements mem l s
    → (l' : Linked) × (mem' : Memory) × (linked_add_head l inst mem ≡ done (l', mem'))
      × Implements mem' l' (stack_add_head s inst)
unfolding stack_add_head
linked_add_head-Implements mem l s inst ([], holds, items, size) = (
  record l { tail = some (length mem); head = some (length mem); size = l.size + 1 },
  mem ++ fresh inst ∷ [],
  head_empty mem inst l holds.first,
  (
    length mem ∷ [],
    one-Holds mem inst
        (record l { tail = some (length mem); head = some (length mem); size = l.size + 1 }) refl
        refl,
    contents-one mem inst ∙ ap (λ z. z ++ inst ∷ []) items,
    ap (λ z. z + 1) size,
  ),
)
linked_add_head-Implements mem l s inst (h ∷ ads, holds, items, size) =
    let (mem', q, holds', same) = grown_head mem inst l h ads holds in
    (
      record l { head = some (length mem); size = l.size + 1 },
      mem',
      q,
      (length mem ∷ h ∷ ads, holds', same ∙ ap (λ z. z ++ inst ∷ []) items, ap (λ z. z + 1) size),
    )

pub last_item : (h : ℕ) (ads : List ℕ) → (t : ℕ) × (before (h ∷ ads) (length (h ∷ ads)) ≡ some t)
last_item h [] = (h, refl)
last_item h (a ∷ ads) = last_item a ads

-- On a linked list in memory that stands for a sequence, with memory for an item: stack_add_tail
-- makes no access outside the items, and the list then stands for the sequence with the instruction
-- in front of it, in program order, and its size one more.
pub linked_add_tail-Implements :
    (mem : Memory) (l : Linked) (s : IrStack) (inst : Inst)
    → Implements mem l s
    → (l' : Linked) × (mem' : Memory) × (linked_add_tail l inst mem ≡ done (l', mem'))
      × Implements mem' l' (stack_add_tail s inst)
unfolding stack_add_tail
linked_add_tail-Implements mem l s inst ([], holds, items, size) = (
  record l { head = some (length mem); tail = some (length mem); size = l.size + 1 },
  mem ++ fresh inst ∷ [],
  tail_empty mem inst l holds.last,
  (
    length mem ∷ [],
    one-Holds mem inst
        (record l { head = some (length mem); tail = some (length mem); size = l.size + 1 }) refl
        refl,
    contents-one mem inst ∙ ap (λ z. inst ∷ z) items,
    ap (λ z. z + 1) size,
  ),
)
linked_add_tail-Implements mem l s inst (h ∷ ads, holds, items, size) =
    let (t, is) = last_item h ads in
    let (mem', q, holds', same) = grown_tail mem inst l t (h ∷ ads) holds is in
    (
      record l { tail = some (length mem); size = l.size + 1 },
      mem',
      q,
      ((h ∷ ads) ++ length mem ∷ [], holds', same ∙ ap (λ z. inst ∷ z) items, ap (λ z. z + 1) size),
    )
