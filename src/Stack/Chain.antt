-- ===== src/Stack/Chain.antt =====
-- The chain that two chains of items of librxvm/stack.c become.
use librxvm.Prelude.{
  ℕ, zero, suc, ◌+◌, ◌-◌, ◌≤◌, ◌<◌, ◌≡◌, ◌≢◌, refl, sym, ap, ◌∙◌, inl, inr, true, false, Bool-cases,
  List, ◌++◌, some, some_inj, arith, ltb, ltb→lt, ◌==◌, ==_iff, length, get_elem?,
  get_elem?-append_left,
}
use mathlib.Core.Path.{subst}
use librxvm.Stack.Links.{Item, Memory}
use librxvm.Stack.Relink.{before, IsChain, AreDistinct, relinked, Relinks, get_elem?-append_right}

before-append : (xs ys : List ℕ) (i : ℕ) → i ≤ length xs → before (xs ++ ys) i ≡ before xs i
before-append xs ys zero le = refl
before-append xs ys (suc i) le = get_elem?-append_left xs ys i (omega arith)

module _ (mem mem' : Memory) (xs ys : List ℕ) (p q : ℕ) (chain_x : IsChain mem xs)
    (chain_y : IsChain mem ys) (distinct : AreDistinct (xs ++ ys)) (links : Relinks p q mem mem')
    (last : before xs (length xs) ≡ some p) (first : get_elem? ys 0 ≡ some q) where
  p_place : (n : ℕ) × (length xs ≡ suc n) × (get_elem? (xs ++ ys) n ≡ some p)
  p_place = p_at (length xs) refl last
    where
      p_at :
          (m : ℕ)
          → length xs ≡ m
          → before xs m ≡ some p
          → (n : ℕ) × (length xs ≡ suc n) × (get_elem? (xs ++ ys) n ≡ some p)
      p_at zero e h = absurd (cc)
      p_at (suc n) e h = (n, e, get_elem?-append_left xs ys n (omega (arith, e)) ∙ h)

  q_place : get_elem? (xs ++ ys) (length xs) ≡ some q
  q_place =
      let start : length xs ≡ length xs + 0 = omega arith in
      ap (λ z. get_elem? (xs ++ ys) z) start ∙ get_elem?-append_right xs ys 0 ∙ first

  -- An item that stands elsewhere is not the one that is written.
  elsewhere :
      (i j a b : ℕ)
      → get_elem? (xs ++ ys) i ≡ some a
      → get_elem? (xs ++ ys) j ≡ some b
      → i ≢ j
      → (a == b) ≡ false
  elsewhere i j a b e f ne = elim (Bool-cases (a == b)) [
    | inr g ↦ g
    | inl g ↦
        let is : a ≡ b = (==_iff a b).0 g in
        absurd (ne (distinct i j a e (f ∙ ap (λ z. some z) (sym is))))
  ]

  found_at :
      (i j a b : ℕ)
      → get_elem? (xs ++ ys) i ≡ some a
      → get_elem? (xs ++ ys) j ≡ some b
      → i ≡ j
      → (a == b) ≡ true
  found_at i j a b e f is =
      (==_iff a b).1 (some_inj (sym e ∙ ap (λ z. get_elem? (xs ++ ys) z) is ∙ f))

  -- The item at place `i` of the joined chain.
  abbrev Placed : ℕ → ℕ → Type 0
  Placed i a =
      (item : Item) × (get_elem? mem' a ≡ some item)
      × (item.next ≡ get_elem? (xs ++ ys) (i + 1))
      × (item.previous ≡ before (xs ++ ys) i)

  Placed-left : (i a : ℕ) → i < length xs → get_elem? (xs ++ ys) i ≡ some a → Placed i a
  Placed-left i a lt e =
      let here = sym (get_elem?-append_left xs ys i lt) ∙ e in
      let (item, at, next_is, previous_is) = chain_x i a here in
      let (n, size, p_is) = p_place in
      let not_q = elsewhere i (length xs) a q e q_place (λ z. absurd (omega arith)) in
      (
        relinked p q a item,
        links a item at,
        elim (Bool-cases (i == n)) [
          | inl f ↦
              let is : i ≡ n = (==_iff i n).0 f in
              let after : length xs ≡ i + 1 = omega arith in
              rw (found_at i n a p e p_is is) (sym q_place ∙ ap (λ z. get_elem? (xs ++ ys) z) after)
          | inr f ↦
              rw (elsewhere i n a p e p_is (ground arith))
                (next_is ∙ sym (get_elem?-append_left xs ys (i + 1) (ground arith)))
        ],
        rw not_q (previous_is ∙ sym (before-append xs ys i (omega arith))),
      )

  Placed-right : (j a : ℕ) → get_elem? ys j ≡ some a → Placed (length xs + j) a
  Placed-right j a here =
      let e = get_elem?-append_right xs ys j ∙ here in
      let (item, at, next_is, previous_is) = chain_y j a here in
      let (n, size, p_is) = p_place in
      let not_p = elsewhere (length xs + j) n a p e p_is (λ z. absurd (omega arith)) in
      let after : length xs + (j + 1) ≡ length xs + j + 1 = omega arith in
      (
        relinked p q a item,
        links a item at,
        rw not_p (
            next_is
            ∙ sym (get_elem?-append_right xs ys (j + 1))
            ∙ ap (λ z. get_elem? (xs ++ ys) z) after),
        previous_right j item previous_is n size p_is e,
      )
    where
      previous_right :
          (k : ℕ) (item : Item)
          → item.previous ≡ before ys k
          → (n : ℕ) → length xs ≡ suc n
          → get_elem? (xs ++ ys) n ≡ some p
          → get_elem? (xs ++ ys) (length xs + k) ≡ some a
          → (relinked p q a item).previous ≡ before (xs ++ ys) (length xs + k)
      previous_right zero item is n size p_is e =
          let start : length xs + 0 ≡ suc n = omega (arith, size) in
          rw (found_at (length xs + 0) (length xs) a q e q_place (omega arith), start) (sym p_is)
      previous_right (suc k) item is n size p_is e =
          let next : length xs + suc k ≡ suc (length xs + k) = omega arith in
          rw
            (
              elsewhere (length xs + suc k) (length xs) a q e q_place (λ z. absurd (omega arith)),
              next,
            )
            (is ∙ sym (get_elem?-append_right xs ys k))

  pub joined-IsChain : IsChain mem' (xs ++ ys)
  joined-IsChain i a e = elim (Bool-cases (ltb i (length xs))) [
    | inl f ↦ Placed-left i a (ltb→lt i (length xs) f) e
    | inr f ↦
        let place : length xs + (i - length xs) ≡ i = ground arith in
        subst (λ z. Placed z a) place
          (Placed-right (i - length xs) a (
            sym (get_elem?-append_right xs ys (i - length xs))
            ∙ ap (λ z. get_elem? (xs ++ ys) z) place
            ∙ e))
  ]
