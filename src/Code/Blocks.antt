-- ===== src/Code/Blocks.antt =====
-- The meaning of the code that each operator makes, librxvm/vmcode.c.
use librxvm.Prelude.{
  ℕ, ◌+◌, ◌≡◌, refl, sym, ◌∙◌, ◌⊎◌, inl, inr, Bool, List, ◌++◌, some, arith, length, get_elem?,
  some_inj, length-append,
}
use mathlib.Core.Path.{subst}
use librxvm.Prelude.Int.{ℤ, pos, ◌+ℤ◌}
use librxvm.Inst.{Inst, set_op_branch, set_op_jmp}
use librxvm.Vmcode.Closed.{IsClosed}
use librxvm.Code.Runs.{Place, HopOf, Hop, Goes, Through, Means}
use librxvm.Code.Split.{
  Inside, Inside-front, Inside-back, Goes-end, Goes-at, Through-append, Goes-embed, Goes-Split,
}
use librxvm.Code.Relations.{SameRel, Seq}

module _ (icase multiline : Bool) where
  -- What a branch and a jump do.
  HopOf-branch :
      (i j : ℕ) (x y : ℤ) (p q : Place)
      → HopOf icase multiline i (set_op_branch x y) p j q
      → ((x +ℤ pos i ≡ pos j) ⊎ (y +ℤ pos i ≡ pos j)) × (q ≡ p)
  unfolding set_op_branch
  HopOf-branch i j x y p q (inl (h, e)) = (h, e)
  HopOf-branch i j x y p q (inr (c, s, e, h, f)) = elim h [ ]

  HopOf-jmp :
      (i j : ℕ) (x : ℤ) (p q : Place)
      → HopOf icase multiline i (set_op_jmp x) p j q
      → (x +ℤ pos i ≡ pos j) × (q ≡ p)
  unfolding set_op_jmp
  HopOf-jmp i j x p q (inl (h, e)) = (h, e)
  HopOf-jmp i j x p q (inr (c, s, e, h, f)) = elim h [ ]

  module _ (l : List Inst) (i j : ℕ) (p : Place) where
    pub Hop-branch :
        (x y : ℤ) {q : Place}
        → get_elem? l i ≡ some (set_op_branch x y)
        → Hop icase multiline l i p j q
        → ((x +ℤ pos i ≡ pos j) ⊎ (y +ℤ pos i ≡ pos j)) × (q ≡ p)
    Hop-branch x y {q} g h =
        HopOf-branch i j x y p q
          (subst (λ v. HopOf icase multiline i v p j q) (some_inj (sym h.found ∙ g)) h.goes)

    pub Hop-jmp :
        (x : ℤ) {q : Place}
        → get_elem? l i ≡ some (set_op_jmp x)
        → Hop icase multiline l i p j q
        → (x +ℤ pos i ≡ pos j) × (q ≡ p)
    Hop-jmp x {q} g h =
        HopOf-jmp i j x p q
          (subst (λ v. HopOf icase multiline i v p j q) (some_inj (sym h.found ∙ g)) h.goes)

    pub branch-Hop :
        (x y : ℤ)
        → get_elem? l i ≡ some (set_op_branch x y)
        → (x +ℤ pos i ≡ pos j) ⊎ (y +ℤ pos i ≡ pos j)
        → Hop icase multiline l i p j p
    unfolding set_op_branch
    branch-Hop x y g h = record { inst = set_op_branch x y; found = g; goes = inl (h, refl) }

    pub jmp-Hop :
        (x : ℤ)
        → get_elem? l i ≡ some (set_op_jmp x)
        → x +ℤ pos i ≡ pos j
        → Hop icase multiline l i p j p
    unfolding set_op_jmp
    jmp-Hop x g h = record { inst = set_op_jmp x; found = g; goes = inl (h, refl) }

  -- Closed code at the end of a program.
  pub Means-last :
      {big l : List Inst} {a n : ℕ} {p q : Place}
      → Inside big a l
      → IsClosed l
      → a + length l ≡ length big
      → Goes icase multiline big n a p (length big) q
      → Means icase multiline l p q
  Means-last {big} {l} {a} {n} {p} {q} inside closed e g =
      let s =
        Goes-Split icase multiline big a l inside {i = 0} closed (omega arith) (omega arith)
          (inr (omega arith)) g in
      let (_, same) = Goes-end icase multiline (omega arith) s.outer in
      subst (λ v. Means icase multiline l p v) same s.inner

  pub last-Means :
      {big l : List Inst} {a : ℕ} {p q : Place}
      → Inside big a l
      → a + length l ≡ length big
      → Means icase multiline l p q
      → Through icase multiline big a p (length big) q
  last-Means {big} {l} {a} inside e (n, g) =
      (n, Goes-at icase multiline (omega arith) e (Goes-embed icase multiline big a l inside g))

  -- Two codes in a row.
  pub append-Seq :
      (l m : List Inst)
      → IsClosed l
      → IsClosed m
      → SameRel
          (Means icase multiline (l ++ m))
          (Seq (Means icase multiline l) (Means icase multiline m))
  append-Seq l m hl hm p q = (
    λ (n, g).
        (let s =
            Goes-Split icase multiline (l ++ m) 0 l (Inside-front l m) {i = 0} hl (omega arith)
              (omega arith) (inr (omega (arith, length-append l m))) g in
          (
            s.place,
            s.inner,
            Means-last (Inside-back l m) hm (sym (length-append l m))
                (Goes-at icase multiline (omega arith) refl s.outer),
          )),
    λ (r, (n, f), b).
        Through-append icase multiline
          (Goes-at icase multiline (omega arith) (omega arith)
            (Goes-embed icase multiline (l ++ m) 0 l (Inside-front l m) f))
          (last-Means (Inside-back l m) (sym (length-append l m)) b),
  )
