-- ===== src/Stack/Cat.antt =====
-- `stack_cat` of librxvm/stack.c does to the linked lists what the sequences' operation does.
use librxvm.Prelude.{
  ℕ, ◌+◌, ◌<◌, ◌≡◌, ◌≢◌, refl, sym, ap, ap₂, ◌∙◌, List, [], ◌∷◌, ◌++◌, none, some, done, ◌>>=◌,
  arith, length, length-append, get_elem?, get_elem?-append_left,
}
use librxvm.Inst.{Inst}
use librxvm.Stack.{IrStack, stack_cat, stack_cat_items}
use librxvm.Stack.Links.{Linked, Memory, set_next, set_previous, linked_cat}
use librxvm.Stack.Relink.{before, AreDistinct, previous_first, get_elem?-append_right}
use librxvm.Stack.Chain.{joined-IsChain}
use librxvm.Stack.Implements.{contents, Holds, Implements, joined-contents, chain-valid}
use librxvm.Stack.Refines.{last_item}

-- `stack_cat` on the sequences, by which of them is empty.
cat_first :
    (xs ys : List Inst) (s1 s2 : IrStack)
    → [] ≡ xs
    → ((stack_cat_items xs ys s1 s2).items ≡ ys) × ((stack_cat_items xs ys s1 s2).size ≡ s2.size)
unfolding stack_cat_items
cat_first [] ys s1 s2 e = (refl, refl)
cat_first (x ∷ xs) ys s1 s2 e = absurd (cc)

cat_second :
    (xs ys : List Inst) (s1 s2 : IrStack)
    → 0 < length xs
    → [] ≡ ys
    → stack_cat_items xs ys s1 s2 ≡ s1
unfolding stack_cat_items
cat_second [] ys s1 s2 lt e = absurd (omega arith)
cat_second (x ∷ xs) [] s1 s2 lt e = refl
cat_second (x ∷ xs) (y ∷ ys) s1 s2 lt e = absurd (cc)

cat_both :
    (xs ys : List Inst) (s1 s2 : IrStack)
    → 0 < length xs
    → 0 < length ys
    → ((stack_cat_items xs ys s1 s2).items ≡ xs ++ ys)
      × ((stack_cat_items xs ys s1 s2).size ≡ s1.size + s2.size)
unfolding stack_cat_items
cat_both [] ys s1 s2 lt lt' = absurd (omega arith)
cat_both (x ∷ xs) [] s1 s2 lt lt' = absurd (omega arith)
cat_both (x ∷ xs) (y ∷ ys) s1 s2 lt lt' = (refl, refl)

contents-some : (mem : Memory) (a : ℕ) (ads : List ℕ) → 0 < length (contents mem (a ∷ ads))
contents-some mem a ads = omega (arith, length-append (contents mem ads) (_ ∷ []))

module _ (mem : Memory) (l1 l2 : Linked) where
  cat_first_empty :
      l1.head ≡ none
      → linked_cat l1 l2 mem ≡ done (record { head = l2.head; tail = l2.tail; size = l2.size }, mem)
  unfolding linked_cat
  cat_first_empty e = rw (linked_cat, e) refl

  cat_second_empty :
      (h : ℕ) → l1.head ≡ some h → l2.head ≡ none → linked_cat l1 l2 mem ≡ done (l1, mem)
  unfolding linked_cat
  cat_second_empty h e f = rw (linked_cat, e, f) (ap (λ z. done (record l1 { head = z }, mem)) e)

  cat_links :
      (h h2 : ℕ) (mem' : Memory)
      → l1.head ≡ some h
      → l2.head ≡ some h2
      → (set_previous (some h) l2.tail mem >>= set_next l2.tail (some h)) ≡ done mem'
      → linked_cat l1 l2 mem ≡ done (record l1 { head = some h2; size = l1.size + l2.size }, mem')
  unfolding linked_cat
  cat_links h h2 mem' e f q =
      rw (linked_cat, e, f)
        (ap (λ z. z >>= (λ m. done (record l1 { head = some h2; size = l1.size + l2.size }, m))) q)

  -- Both lists have items.
  module _ (h h2 : ℕ) (ads1 ads2 : List ℕ) (holds1 : Holds mem l1 (h ∷ ads1))
      (holds2 : Holds mem l2 (h2 ∷ ads2)) (distinct : AreDistinct ((h2 ∷ ads2) ++ (h ∷ ads1))) where
    last_stays :
        before ((h2 ∷ ads2) ++ (h ∷ ads1)) (length ((h2 ∷ ads2) ++ (h ∷ ads1)))
        ≡ before (h ∷ ads1) (length (h ∷ ads1))
    last_stays =
        let size : length (ads2 ++ h ∷ ads1) ≡ length (h2 ∷ ads2) + length ads1 =
          omega (arith, length-append ads2 (h ∷ ads1)) in
        ap (λ z. get_elem? ((h2 ∷ ads2) ++ (h ∷ ads1)) z) size
        ∙ get_elem?-append_right (h2 ∷ ads2) (h ∷ ads1) (length ads1)

    joined :
        (mem' : Memory) × (linked_cat l1 l2 mem
          ≡ done (record l1 { head = some h2; size = l1.size + l2.size }, mem'))
        × Holds mem'
            (record l1 { head = some h2; size = l1.size + l2.size })
            ((h2 ∷ ads2) ++ (h ∷ ads1))
        × (contents mem' ((h2 ∷ ads2) ++ (h ∷ ads1))
            ≡ contents mem (h ∷ ads1) ++ contents mem (h2 ∷ ads2))
    joined =
        let (t, is_tail) = last_item h2 ads2 in
        let (it, at_t) = chain-valid mem (h2 ∷ ads2) holds2.chain (length ads2) t is_tail in
        let (ih, at_h) = chain-valid mem (h ∷ ads1) holds1.chain 0 h refl in
        let ne : t ≢ h = λ e. absurd (apart t is_tail e) in
        let (mem', q, links, _) = previous_first mem t h it ih ne at_t at_h in
        (
          mem',
          cat_links h h2 mem' holds1.first holds2.first (rw (holds2.last ∙ is_tail) q),
          record {
            chain =
                joined-IsChain mem mem' (h2 ∷ ads2) (h ∷ ads1) t h holds2.chain holds1.chain
                  distinct links is_tail refl;
            distinct = distinct;
            first = refl;
            last = holds1.last ∙ sym last_stays;
          },
          joined-contents mem mem' t h (h2 ∷ ads2) (h ∷ ads1) links holds2.chain holds1.chain,
        )
      where
        -- The tail of one list is not the head of the other.
        apart : (t : ℕ) → get_elem? (h2 ∷ ads2) (length ads2) ≡ some t → t ≡ h → ⊥
        apart t is e =
            let here =
              get_elem?-append_left (h2 ∷ ads2) (h ∷ ads1) (length ads2) (omega arith)
              ∙ is
              ∙ ap (λ z. some z) e in
            let place : length (h2 ∷ ads2) ≡ length (h2 ∷ ads2) + 0 = omega arith in
            let there =
              ap (λ z. get_elem? ((h2 ∷ ads2) ++ (h ∷ ads1)) z) place
              ∙ get_elem?-append_right (h2 ∷ ads2) (h ∷ ads1) 0 in
            absurd (omega (arith, distinct (length ads2) (length (h2 ∷ ads2)) h here there))

-- On two linked lists in memory that stand for sequences and share no item: stack_cat makes no access
-- outside the items, and the first list then stands for the first sequence with the second behind it,
-- in program order, its size the sum of both.
pub linked_cat-Implements :
    (mem : Memory) (l1 l2 : Linked) (s1 s2 : IrStack) (ads1 ads2 : List ℕ)
    → Holds mem l1 ads1
    → Holds mem l2 ads2
    → AreDistinct (ads2 ++ ads1)
    → contents mem ads1 ≡ s1.items
    → contents mem ads2 ≡ s2.items
    → l1.size ≡ s1.size
    → l2.size ≡ s2.size
    → (l' : Linked) × (mem' : Memory) × (linked_cat l1 l2 mem ≡ done (l', mem'))
      × Implements mem' l' (stack_cat s1 s2)
unfolding stack_cat
linked_cat-Implements mem l1 l2 s1 s2 [] ads2 holds1 holds2 distinct items1 items2 size1 size2 =
    let (items, size) = cat_first s1.items s2.items s1 s2 items1 in
    (
      record { head = l2.head; tail = l2.tail; size = l2.size },
      mem,
      cat_first_empty mem l1 l2 holds1.first,
      (
        ads2,
        record {
          chain = holds2.chain;
          distinct = holds2.distinct;
          first = holds2.first;
          last = holds2.last;
        },
        items2 ∙ sym items,
        size2 ∙ sym size,
      ),
    )
linked_cat-Implements mem l1 l2 s1 s2 (h ∷ ads1) [] holds1 holds2 distinct items1 items2 size1
      size2 =
    let some1 : 0 < length s1.items = omega (arith, contents-some mem h ads1, ap length items1) in
    let same = cat_second s1.items s2.items s1 s2 some1 items2 in
    (
      l1,
      mem,
      cat_second_empty mem l1 l2 h holds1.first holds2.first,
      (
        h ∷ ads1,
        holds1,
        items1 ∙ ap (λ z. z.items) (sym same),
        size1 ∙ ap (λ z. z.size) (sym same),
      ),
    )
linked_cat-Implements mem l1 l2 s1 s2 (h ∷ ads1) (h2 ∷ ads2) holds1 holds2 distinct items1 items2
      size1 size2 =
    let some1 : 0 < length s1.items = omega (arith, contents-some mem h ads1, ap length items1) in
    let some2 : 0 < length s2.items = omega (arith, contents-some mem h2 ads2, ap length items2) in
    let (items, size) = cat_both s1.items s2.items s1 s2 some1 some2 in
    let (mem', q, holds, same) = joined mem l1 l2 h h2 ads1 ads2 holds1 holds2 distinct in
    (
      record l1 { head = some h2; size = l1.size + l2.size },
      mem',
      q,
      (
        (h2 ∷ ads2) ++ (h ∷ ads1),
        holds,
        same ∙ ap₂ (λ x y. x ++ y) items1 items2 ∙ sym items,
        ap₂ (λ x y. x + y) size1 size2 ∙ sym size,
      ),
    )
