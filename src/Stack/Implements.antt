-- ===== src/Stack/Implements.antt =====
-- The linked list of librxvm/stack.c holds the sequence that the other modules take it for.
use librxvm.Prelude.{
  ℕ, zero, suc, ◌≤◌, ◌<◌, ◌≡◌, refl, sym, ap, ap₂, ◌∙◌, inl, inr, true, false, Bool-cases, List, [],
  ◌∷◌, ◌++◌, append_assoc, append-nil, Option, none, some, some_inj, arith, ltb, ltb→lt, length,
  length-append, get_elem?, get_elem?-lt, get_elem?-append_left, get_elem?-concat,
}
use librxvm.Inst.{Inst, blank}
use librxvm.Stack.{IrStack}
use librxvm.Stack.Links.{Item, Linked, Memory, fresh}
use librxvm.Stack.Relink.{before, IsChain, AreDistinct, Relinks}

-- The instructions at the addresses, from the tail to the head.
abbrev data_of : Option Item → Inst
data_of none = blank
data_of (some item) = item.content

abbrev pub contents : Memory → List ℕ → List Inst
contents mem [] = []
contents mem (a ∷ ads) = contents mem ads ++ data_of (get_elem? mem a) ∷ []

-- The items are at the addresses, from the head to the tail.
pub record Holds (mem : Memory) (l : Linked) (ads : List ℕ) : Type 0 where
  pub chain : IsChain mem ads
  pub distinct : AreDistinct ads
  pub first : l.head ≡ get_elem? ads 0
  pub last : l.tail ≡ before ads (length ads)

-- The linked list stands for a sequence.
abbrev pub Implements : Memory → Linked → IrStack → Type 0
Implements mem l s =
    (ads : List ℕ) × Holds mem l ads × (contents mem ads ≡ s.items) × (l.size ≡ s.size)

ltb_ge : (i n : ℕ) → ltb i n ≡ false → n ≤ i
ltb_ge i n e = ground arith

contents-append :
    (mem : Memory) (xs ys : List ℕ) → contents mem (xs ++ ys) ≡ contents mem ys ++ contents mem xs
contents-append mem [] ys = sym (append-nil (contents mem ys))
contents-append mem (x ∷ xs) ys =
    ap (λ z. z ++ data_of (get_elem? mem x) ∷ []) (contents-append mem xs ys)
    ∙ append_assoc (contents mem ys) (contents mem xs) (data_of (get_elem? mem x) ∷ [])

-- The contents of an item, once it is relinked.
contents-Relinks :
    (mem mem' : Memory) (p q : ℕ) (ads : List ℕ)
    → Relinks p q mem mem'
    → ((i a : ℕ) → get_elem? ads i ≡ some a → (item : Item) × (get_elem? mem a ≡ some item))
    → contents mem' ads ≡ contents mem ads
contents-Relinks mem mem' p q [] links valid = refl
contents-Relinks mem mem' p q (a ∷ ads) links valid =
    let (item, e) = valid 0 a refl in
    ap₂ (λ x y. x ++ y ∷ []) (contents-Relinks mem mem' p q ads links (λ i b f. valid (suc i) b f))
      (ap data_of (links a item e) ∙ sym (ap data_of e))

-- A new item behind the others.
pub contents-new :
    (mem : Memory) (new : Item) (ads : List ℕ)
    → ((i a : ℕ) → get_elem? ads i ≡ some a → (item : Item) × (get_elem? mem a ≡ some item))
    → contents (mem ++ new ∷ []) ads ≡ contents mem ads
contents-new mem new [] valid = refl
contents-new mem new (a ∷ ads) valid =
    let (item, e) = valid 0 a refl in
    ap₂ (λ x y. x ++ y ∷ []) (contents-new mem new ads (λ i b f. valid (suc i) b f))
      (ap data_of (get_elem?-append_left mem (new ∷ []) a (get_elem?-lt mem a e)))

pub IsChain-new :
    (mem : Memory) (new : Item) (ads : List ℕ) → IsChain mem ads → IsChain (mem ++ new ∷ []) ads
IsChain-new mem new ads chain i a e =
    let (item, at, n, p) = chain i a e in
    (item, get_elem?-append_left mem (new ∷ []) a (get_elem?-lt mem a at) ∙ at, n, p)

-- The list of one new item.
pub new-IsChain : (mem : Memory) (inst : Inst) → IsChain (mem ++ fresh inst ∷ []) (length mem ∷ [])
new-IsChain mem inst zero a e =
    let new : Item = fresh inst in
    (
      new,
      ap (λ z. get_elem? (mem ++ new ∷ []) z) (sym (some_inj e)) ∙ get_elem?-concat mem new,
      refl,
      refl,
    )
new-IsChain mem inst (suc i) a e = let is : none ≡ some a = e in absurd (cc)

module _ (n : ℕ) (ads : List ℕ) (old : (i a : ℕ) → get_elem? ads i ≡ some a → a < n)
    (distinct : AreDistinct ads) where
  pub head-AreDistinct : AreDistinct (n ∷ ads)
  head-AreDistinct zero zero a e f = refl
  head-AreDistinct zero (suc j) a e f =
      let is : n ≡ a = some_inj e in absurd (omega (arith, old j a f))
  head-AreDistinct (suc i) zero a e f =
      let is : n ≡ a = some_inj f in absurd (omega (arith, old i a e))
  head-AreDistinct (suc i) (suc j) a e f = ap suc (distinct i j a e f)

  -- Behind the others stands the new one.
  new_place :
      (i a : ℕ)
      → ltb i (length ads) ≡ false
      → get_elem? (ads ++ n ∷ []) i ≡ some a
      → (i ≡ length ads) × (n ≡ a)
  new_place i a p e =
      let is : i ≡ length ads = omega (
        arith,
        ltb_ge i (length ads) p,
        get_elem?-lt (ads ++ n ∷ []) i e,
        length-append ads (n ∷ []),
      ) in
      (
        is,
        some_inj
            (sym (get_elem?-concat ads n) ∙ ap (λ z. get_elem? (ads ++ n ∷ []) z) (sym is) ∙ e),
      )

  old_place :
      (i a : ℕ)
      → ltb i (length ads) ≡ true
      → get_elem? (ads ++ n ∷ []) i ≡ some a
      → get_elem? ads i ≡ some a
  old_place i a p e = sym (get_elem?-append_left ads (n ∷ []) i (ltb→lt i (length ads) p)) ∙ e

  pub tail-AreDistinct : AreDistinct (ads ++ n ∷ [])
  tail-AreDistinct i j a e f = elim (Bool-cases (ltb i (length ads))) [
    | inl p ↦ elim (Bool-cases (ltb j (length ads))) [
      | inl q ↦ distinct i j a (old_place i a p e) (old_place j a q f)
      | inr q ↦
          let (_, is) = new_place j a q f in absurd (omega (arith, is, old i a (old_place i a p e)))
    ]
    | inr p ↦
        let (last, is) = new_place i a p e in
        elim (Bool-cases (ltb j (length ads))) [
          | inl q ↦ absurd (omega (arith, is, old j a (old_place j a q f)))
          | inr q ↦ let (last', _) = new_place j a q f in last ∙ sym last'
        ]
  ]

pub Holds-old :
    (mem : Memory) (l : Linked) (ads : List ℕ)
    → Holds mem l ads
    → (i a : ℕ) → get_elem? ads i ≡ some a
    → a < length mem
Holds-old mem l ads h i a e = let (item, at, _, _) = h.chain i a e in get_elem?-lt mem a at

-- The new item's contents.
pub contents-one :
    (mem : Memory) (inst : Inst) → contents (mem ++ fresh inst ∷ []) (length mem ∷ []) ≡ inst ∷ []
contents-one mem inst = ap (λ z. data_of z ∷ []) (get_elem?-concat mem (fresh inst))

pub chain-valid :
    (mem : Memory) (ads : List ℕ)
    → IsChain mem ads
    → (i a : ℕ) → get_elem? ads i ≡ some a
    → (item : Item) × (get_elem? mem a ≡ some item)
chain-valid mem ads chain i a e = let (item, at, _, _) = chain i a e in (item, at)

pub joined-contents :
    (mem mem' : Memory) (p q : ℕ) (xs ys : List ℕ)
    → Relinks p q mem mem'
    → IsChain mem xs
    → IsChain mem ys
    → contents mem' (xs ++ ys) ≡ contents mem ys ++ contents mem xs
joined-contents mem mem' p q xs ys links chain_x chain_y =
    contents-append mem' xs ys
    ∙ ap₂ (λ x y. x ++ y) (contents-Relinks mem mem' p q ys links (chain-valid mem ys chain_y))
        (contents-Relinks mem mem' p q xs links (chain-valid mem xs chain_x))
