-- ===== src/Stack/Relink.antt =====
-- Linking two chains of items of librxvm/stack.c into one.
use librxvm.Prelude.{
  ℕ, zero, suc, ◌+◌, ◌≡◌, ◌≢◌, refl, sym, ap, ◌∙◌, inl, inr, false, Bool-cases, List, [], ◌∷◌, ◌++◌,
  Option, none, some, some_inj, done, ◌>>=◌, arith, ◌==◌, ==_iff, if◌then◌else◌, length, length-set,
  get_elem?, get_elem?-lt, set,
}
use librxvm.Prelude.Slices.{get_elem?-set_self, get_elem?-set_ne}
use librxvm.Stack.Links.{Item, Memory, set_next, set_previous}

pub get_elem?-append_right {ℓ} :
    {A : Type ℓ} (xs ys : List A) (j : ℕ) → get_elem? (xs ++ ys) (length xs + j) ≡ get_elem? ys j
get_elem?-append_right [] ys j = ap (λ z. get_elem? ys z) (omega arith)
get_elem?-append_right (x ∷ xs) ys j =
    let shift : suc (length xs) + j ≡ suc (length xs + j) = omega arith in
    ap (λ z. get_elem? (x ∷ (xs ++ ys)) z) shift ∙ get_elem?-append_right xs ys j

-- The address before index `i`.
abbrev pub before : List ℕ → ℕ → Option ℕ
before ads zero = none
before ads (suc i) = get_elem? ads i

-- The items at the addresses, from the head to the tail, are linked to one another in this order.
abbrev pub IsChain : Memory → List ℕ → Type 0
IsChain mem ads =
    (i a : ℕ)
    → get_elem? ads i ≡ some a
    → (item : Item) × (get_elem? mem a ≡ some item)
      × (item.next ≡ get_elem? ads (i + 1))
      × (item.previous ≡ before ads i)

-- No address stands at two places.
abbrev pub AreDistinct : List ℕ → Type 0
AreDistinct ads = (i j a : ℕ) → get_elem? ads i ≡ some a → get_elem? ads j ≡ some a → i ≡ j

-- The item at `a` once `p` is followed by `q`.
abbrev pub relinked : ℕ → ℕ → ℕ → Item → Item
relinked p q a item = record item {
  next = if a == p then some q else item.next;
  previous = if a == q then some p else item.previous;
}

abbrev pub Relinks : ℕ → ℕ → Memory → Memory → Type 0
Relinks p q mem mem' =
    (a : ℕ) (item : Item)
    → get_elem? mem a ≡ some item
    → get_elem? mem' a ≡ some (relinked p q a item)

set_next-done :
    (mem : Memory) (a : ℕ) (v : Option ℕ) (item : Item)
    → get_elem? mem a ≡ some item
    → set_next (some a) v mem ≡ done (set mem a (record item { next = v }))
unfolding set_next
set_next-done mem a v item e = rw (set_next, e) refl

set_previous-done :
    (mem : Memory) (a : ℕ) (v : Option ℕ) (item : Item)
    → get_elem? mem a ≡ some item
    → set_previous (some a) v mem ≡ done (set mem a (record item { previous = v }))
unfolding set_previous
set_previous-done mem a v item e = rw (set_previous, e) refl

module _ (mem : Memory) (p q : ℕ) (ip iq : Item) (ne : p ≢ q) (at_p : get_elem? mem p ≡ some ip)
    (at_q : get_elem? mem q ≡ some iq) where
  -- Whichever of the two is written first.
  written-Relinks :
      (mem' : Memory)
      → get_elem? mem' p ≡ some (record ip { next = some q })
      → get_elem? mem' q ≡ some (record iq { previous = some p })
      → ((a : ℕ) → a ≢ p → a ≢ q → get_elem? mem' a ≡ get_elem? mem a)
      → Relinks p q mem mem'
  written-Relinks mem' hp hq rest a item e = elim (Bool-cases (a == p)) [
    | inl f ↦
        let is : a ≡ p = (==_iff a p).0 f in
        let other : (a == q) ≡ false = ground arith in
        let same : ip ≡ item = some_inj (sym at_p ∙ ap (λ z. get_elem? mem z) (sym is) ∙ e) in
        rw (f, other, ← same) (ap (λ z. get_elem? mem' z) is ∙ hp)
    | inr f ↦ elim (Bool-cases (a == q)) [
      | inl g ↦
          let is : a ≡ q = (==_iff a q).0 g in
          let same : iq ≡ item = some_inj (sym at_q ∙ ap (λ z. get_elem? mem z) (sym is) ∙ e) in
          rw (f, g, ← same) (ap (λ z. get_elem? mem' z) is ∙ hq)
      | inr g ↦ rw (f, g) (rest a (ground arith) (ground arith) ∙ e)
    ]
  ]

  pub next_first :
      (mem' : Memory) × ((set_next (some p) (some q) mem >>= set_previous (some q) (some p))
        ≡ done mem')
      × Relinks p q mem mem'
      × (length mem' ≡ length mem)
  next_first =
      let mem1 : Memory = set mem p (record ip { next = some q }) in
      let q1 = get_elem?-set_ne mem p q (record ip { next = some q }) ne ∙ at_q in
      let mem2 : Memory = set mem1 q (record iq { previous = some p }) in
      (
        mem2,
        rw (set_next-done mem p (some q) ip at_p) (set_previous-done mem1 q (some p) iq q1),
        written-Relinks mem2
            (get_elem?-set_ne mem1 q p (record iq { previous = some p }) (λ e. ne (sym e))
              ∙ get_elem?-set_self mem p (record ip { next = some q }) (get_elem?-lt mem p at_p))
            (get_elem?-set_self mem1 q (record iq { previous = some p }) (get_elem?-lt mem1 q q1))
            (λ a np nq.
              get_elem?-set_ne mem1 q a (record iq { previous = some p }) (λ e. nq (sym e))
              ∙ get_elem?-set_ne mem p a (record ip { next = some q }) (λ e. np (sym e))),
        length-set mem1 q (record iq { previous = some p })
            ∙ length-set mem p (record ip { next = some q }),
      )

  pub previous_first :
      (mem' : Memory) × ((set_previous (some q) (some p) mem >>= set_next (some p) (some q))
        ≡ done mem')
      × Relinks p q mem mem'
      × (length mem' ≡ length mem)
  previous_first =
      let mem1 : Memory = set mem q (record iq { previous = some p }) in
      let p1 =
        get_elem?-set_ne mem q p (record iq { previous = some p }) (λ e. ne (sym e)) ∙ at_p in
      let mem2 : Memory = set mem1 p (record ip { next = some q }) in
      (
        mem2,
        rw (set_previous-done mem q (some p) iq at_q) (set_next-done mem1 p (some q) ip p1),
        written-Relinks mem2
            (get_elem?-set_self mem1 p (record ip { next = some q }) (get_elem?-lt mem1 p p1))
            (get_elem?-set_ne mem1 p q (record ip { next = some q }) ne
              ∙ get_elem?-set_self mem q (record iq { previous = some p })
                  (get_elem?-lt mem q at_q))
            (λ a np nq.
              get_elem?-set_ne mem1 p a (record ip { next = some q }) (λ e. np (sym e))
              ∙ get_elem?-set_ne mem q a (record iq { previous = some p }) (λ e. nq (sym e))),
        length-set mem1 p (record ip { next = some q })
            ∙ length-set mem q (record iq { previous = some p }),
      )
