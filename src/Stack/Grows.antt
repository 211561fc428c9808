-- ===== src/Stack/Grows.antt =====
-- A new item at either end of the linked list of librxvm/stack.c.
use librxvm.Prelude.{
  ℕ, zero, suc, ◌+◌, ◌≡◌, ◌≢◌, refl, sym, ap, ap₂, ◌∙◌, List, [], ◌∷◌, ◌++◌, none, some, done,
  ◌>>=◌, arith, length, length-append, get_elem?, get_elem?-lt, get_elem?-append_left,
  get_elem?-concat,
}
use librxvm.Inst.{Inst}
use librxvm.Stack.Links.{
  Item, Linked, Memory, fresh, set_next, set_previous, create_item, stack_point_new_head,
  stack_point_new_tail, linked_add_head, linked_add_tail,
}
use librxvm.Stack.Relink.{before, next_first, previous_first}
use librxvm.Stack.Chain.{joined-IsChain}
use librxvm.Stack.Implements.{
  contents, Holds, contents-new, IsChain-new, new-IsChain, head-AreDistinct, tail-AreDistinct,
  Holds-old, chain-valid, joined-contents, contents-one,
}

module _ (mem : Memory) (inst : Inst) where
  pub head_empty :
      (l : Linked)
      → l.head ≡ none
      → linked_add_head l inst mem
        ≡ done (
          record l { tail = some (length mem); head = some (length mem); size = l.size + 1 },
          mem ++ fresh inst ∷ [],
        )
  unfolding linked_add_head stack_point_new_head create_item
  head_empty l e = rw (linked_add_head, stack_point_new_head, e) refl

  head_some :
      (l : Linked) (h : ℕ) (mem' : Memory)
      → l.head ≡ some h
      → (set_previous (some h) (some (length mem)) (mem ++ fresh inst ∷ [])
          >>= set_next (some (length mem)) (some h))
        ≡ done mem'
      → linked_add_head l inst mem
        ≡ done (record l { head = some (length mem); size = l.size + 1 }, mem')
  unfolding linked_add_head stack_point_new_head create_item
  head_some l h mem' e q =
      rw (linked_add_head, stack_point_new_head, e)
        (ap (λ z. z >>= (λ m. done (record l { head = some (length mem); size = l.size + 1 }, m)))
          q)

  pub tail_empty :
      (l : Linked)
      → l.tail ≡ none
      → linked_add_tail l inst mem
        ≡ done (
          record l { head = some (length mem); tail = some (length mem); size = l.size + 1 },
          mem ++ fresh inst ∷ [],
        )
  unfolding linked_add_tail stack_point_new_tail create_item
  tail_empty l e = rw (linked_add_tail, stack_point_new_tail, e) refl

  tail_some :
      (l : Linked) (t : ℕ) (mem' : Memory)
      → l.tail ≡ some t
      → (set_next (some t) (some (length mem)) (mem ++ fresh inst ∷ [])
          >>= set_previous (some (length mem)) (some t))
        ≡ done mem'
      → linked_add_tail l inst mem
        ≡ done (record l { tail = some (length mem); size = l.size + 1 }, mem')
  unfolding linked_add_tail stack_point_new_tail create_item
  tail_some l t mem' e q =
      rw (linked_add_tail, stack_point_new_tail, e)
        (ap (λ z. z >>= (λ m. done (record l { tail = some (length mem); size = l.size + 1 }, m)))
          q)

  -- A list of one item.
  pub one-Holds :
      (l : Linked)
      → l.head ≡ some (length mem)
      → l.tail ≡ some (length mem)
      → Holds (mem ++ fresh inst ∷ []) l (length mem ∷ [])
  one-Holds l e f = record {
    chain = new-IsChain mem inst;
    distinct =
        head-AreDistinct (length mem) [] (λ i a g. absurd (nothing_there a g))
          (λ i j a g. absurd (nothing_there a g));
    first = e;
    last = f;
  }
    where
      nothing_there : (a : ℕ) → none ≡ some a → ⊥
      nothing_there a g = absurd (cc)

  -- Where a new item is put before the head.
  module _ (l : Linked) (h : ℕ) (ads : List ℕ) (holds : Holds mem l (h ∷ ads)) where
    pub grown_head :
        (mem' : Memory) × (linked_add_head l inst mem
          ≡ done (record l { head = some (length mem); size = l.size + 1 }, mem'))
        × Holds mem'
            (record l { head = some (length mem); size = l.size + 1 })
            (length mem ∷ h ∷ ads)
        × (contents mem' (length mem ∷ h ∷ ads) ≡ contents mem (h ∷ ads) ++ inst ∷ [])
    grown_head =
        let mem1 : Memory = mem ++ fresh inst ∷ [] in
        let (ih, at_h, _, _) = holds.chain 0 h refl in
        let ne : length mem ≢ h = λ e. absurd (omega (arith, get_elem?-lt mem h at_h)) in
        let (mem', q, links, _) =
          previous_first mem1 (length mem) h (fresh inst) ih ne (get_elem?-concat mem (fresh inst))
            (get_elem?-append_left mem (fresh inst ∷ []) h (get_elem?-lt mem h at_h) ∙ at_h) in
        let distinct =
          head-AreDistinct (length mem) (h ∷ ads) (Holds-old mem l (h ∷ ads) holds)
            holds.distinct in
        let chain =
          joined-IsChain mem1 mem' (length mem ∷ []) (h ∷ ads) (length mem) h (new-IsChain mem inst)
            (IsChain-new mem (fresh inst) (h ∷ ads) holds.chain) distinct links refl refl in
        (
          mem',
          head_some l h mem' holds.first q,
          record { chain = chain; distinct = distinct; first = refl; last = holds.last },
          joined-contents mem1 mem' (length mem) h (length mem ∷ []) (h ∷ ads) links
                (new-IsChain mem inst) (IsChain-new mem (fresh inst) (h ∷ ads) holds.chain)
              ∙ ap₂ (λ x y. x ++ y)
                  (contents-new mem (fresh inst) (h ∷ ads) (chain-valid mem (h ∷ ads) holds.chain))
                  (contents-one mem inst),
        )

  -- Where a new item is put behind the tail.
  module _ (l : Linked) (t : ℕ) (ads : List ℕ) (holds : Holds mem l ads)
      (is_tail : before ads (length ads) ≡ some t) where
    tail_item : (item : Item) × (get_elem? mem t ≡ some item)
    tail_item = at_before (length ads) is_tail
      where
        at_before : (m : ℕ) → before ads m ≡ some t → (item : Item) × (get_elem? mem t ≡ some item)
        at_before zero e = absurd (cc)
        at_before (suc m) e = chain-valid mem ads holds.chain m t e

    pub grown_tail :
        (mem' : Memory) × (linked_add_tail l inst mem
          ≡ done (record l { tail = some (length mem); size = l.size + 1 }, mem'))
        × Holds mem'
            (record l { tail = some (length mem); size = l.size + 1 })
            (ads ++ length mem ∷ [])
        × (contents mem' (ads ++ length mem ∷ []) ≡ inst ∷ contents mem ads)
    grown_tail =
        let mem1 : Memory = mem ++ fresh inst ∷ [] in
        let (it, at_t) = tail_item in
        let ne : t ≢ length mem = λ e. absurd (omega (arith, get_elem?-lt mem t at_t)) in
        let (mem', q, links, _) =
          next_first mem1 t (length mem) it (fresh inst) ne
            (get_elem?-append_left mem (fresh inst ∷ []) t (get_elem?-lt mem t at_t) ∙ at_t)
            (get_elem?-concat mem (fresh inst)) in
        let distinct =
          tail-AreDistinct (length mem) ads (Holds-old mem l ads holds) holds.distinct in
        let old_chain = IsChain-new mem (fresh inst) ads holds.chain in
        let chain =
          joined-IsChain mem1 mem' ads (length mem ∷ []) t (length mem) old_chain
            (new-IsChain mem inst) distinct links is_tail refl in
        let size : length (ads ++ length mem ∷ []) ≡ suc (length ads) =
          omega (arith, length-append ads (length mem ∷ [])) in
        (
          mem',
          tail_some l t mem' (holds.last ∙ is_tail) q,
          record {
            chain = chain;
            distinct = distinct;
            first = holds.first ∙ sym (first_stays ads is_tail);
            last = sym (
                ap (λ z. before (ads ++ length mem ∷ []) z) size
                ∙ get_elem?-concat ads (length mem));
          },
          joined-contents mem1 mem' t (length mem) ads (length mem ∷ []) links old_chain
                (new-IsChain mem inst)
              ∙ ap₂ (λ x y. x ++ y) (contents-one mem inst)
                  (contents-new mem (fresh inst) ads (chain-valid mem ads holds.chain)),
        )
      where
        first_stays :
            (xs : List ℕ)
            → before xs (length xs) ≡ some t
            → get_elem? (xs ++ length mem ∷ []) 0 ≡ get_elem? xs 0
        first_stays [] e = absurd (cc)
        first_stays (x ∷ xs) e = refl
