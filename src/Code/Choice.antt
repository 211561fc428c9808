-- ===== src/Code/Choice.antt =====
-- The meaning of an alternation, librxvm/vmcode.c: `code_alt` leaves an open jump behind the first
-- alternative, and `attach_dangling_alt` sets it once the second one is there.
use librxvm.Prelude.{
  ℕ, ◌+◌, ◌≡◌, refl, sym, ◌∙◌, ap, inl, inr, Bool, List, ◌∷◌, ◌++◌, some, arith, length, get_elem?,
  length-append,
}
use mathlib.Core.Path.{subst}
use librxvm.Prelude.Int.{pos}
use librxvm.Inst.{Inst, set_op_branch, set_op_jmp}
use librxvm.Vmcode.Closed.{IsClosed}
use librxvm.Code.Runs.{Place, Goes, stay, hop, Means}
use librxvm.Code.Split.{
  Inside, Inside-front, Inside-back, Inside-cons, Inside-Inside, Goes-end, Goes-at, Goes-First,
  Through-append, Goes-embed, Goes-Split,
}
use librxvm.Code.Blocks.{Hop-branch, branch-Hop, Hop-jmp, jmp-Hop, Means-last, last-Means}
use librxvm.Code.Repeats.{target_eq, pos-at}
use librxvm.Code.Relations.{SameRel, Or}

-- The code of two alternatives once the jump is set.
abbrev pub choice : List Inst → List Inst → List Inst
choice a b = set_op_branch (pos 1) (pos (length a + 2)) ∷ (a ++ set_op_jmp (pos (length b + 1)) ∷ b)

module _ (a b : List Inst) where
  abbrev jump : Inst
  jump = set_op_jmp (pos (length b + 1))

  length-choice : length (choice a b) ≡ length a + length b + 2
  length-choice = omega (arith, length-append a (jump ∷ b))

  inner : Inside (choice a b) 1 (a ++ jump ∷ b)
  inner = Inside-cons (set_op_branch (pos 1) (pos (length a + 2))) (a ++ jump ∷ b)

  first-Inside : Inside (choice a b) 1 a
  first-Inside =
      Inside-Inside (choice a b) (a ++ jump ∷ b) a 1 0 1 refl inner (Inside-front a (jump ∷ b))

  second-Inside : Inside (choice a b) (length a + 2) b
  second-Inside =
      Inside-Inside (choice a b) (a ++ jump ∷ b) b 1 (length a + 1) (length a + 2) (omega arith)
        inner
        (Inside-Inside (a ++ jump ∷ b) (jump ∷ b) b (length a) 1 (length a + 1) refl
          (Inside-back a (jump ∷ b)) (Inside-cons jump b))

  at_jump : get_elem? (choice a b) (1 + length a) ≡ some jump
  at_jump =
      inner.at (length a) (1 + length a) jump refl
        ((Inside-back a (jump ∷ b)).at 0 (length a) jump (omega arith) refl)

  module _ (icase multiline : Bool) (ha : IsClosed a) (hb : IsClosed b) where
    -- From the end of the first alternative the jump leads behind the second.
    jumped :
        {n i : ℕ} {p q : Place}
        → i ≡ 1 + length a
        → Goes icase multiline (choice a b) n i p (length (choice a b)) q
        → p ≡ q
    jumped {n} {i} {p} {q} e g =
        let f = Goes-First icase multiline (omega (arith, length-choice)) g in
        let (goes, same) =
          Hop-jmp icase multiline (choice a b) i f.next p (pos (length b + 1))
            (ap (get_elem? (choice a b)) e ∙ at_jump) f.step in
        let end : f.next ≡ length (choice a b) =
          target_eq (pos (length b + 1)) i (length (choice a b)) f.next
            (pos-at (length b + 1) i (length (choice a b)) (omega (arith, length-choice))) goes in
        sym same ∙ (Goes-end icase multiline (omega (arith, end)) f.run).1

    choice-Or-to :
        (p q : Place)
        → Means icase multiline (choice a b) p q
        → Or (Means icase multiline a) (Means icase multiline b) p q
    choice-Or-to p q (n, g) =
        let f = Goes-First icase multiline (omega (arith, length-choice)) g in
        let (goes, same) =
          Hop-branch icase multiline (choice a b) 0 f.next p (pos 1) (pos (length a + 2)) refl
            f.step in
        let g' : Goes icase multiline (choice a b) f.count f.next p (length (choice a b)) q =
          subst (λ v. Goes icase multiline (choice a b) f.count f.next v (length (choice a b)) q)
            same f.run in
        elim goes [
          | inl z ↦
              let s =
                Goes-Split icase multiline (choice a b) 1 a first-Inside {i = 0} ha
                  (target_eq (pos 1) 0 (1 + 0) f.next (pos-at 1 0 (1 + 0) (omega arith)) z)
                  (omega arith) (inr (omega (arith, length-choice))) g' in
              inl (subst (λ v. Means icase multiline a p v) (jumped refl s.outer) s.inner)
          | inr z ↦
              let at : f.next ≡ length a + 2 =
                target_eq (pos (length a + 2)) 0 (length a + 2) f.next
                  (pos-at (length a + 2) 0 (length a + 2) (omega arith)) z in
              inr (
                Means-last icase multiline second-Inside hb (omega (arith, length-choice))
                  (Goes-at icase multiline at refl g'))
        ]

    Or-choice :
        (p q : Place)
        → Or (Means icase multiline a) (Means icase multiline b) p q
        → Means icase multiline (choice a b) p q
    Or-choice p q (inl (n, g)) =
        Through-append icase multiline
          (hop
            (branch-Hop icase multiline (choice a b) 0 1 p (pos 1) (pos (length a + 2)) refl
              (inl (pos-at 1 0 1 refl)))
            (Goes-at icase multiline (omega arith) refl
              (Goes-embed icase multiline (choice a b) 1 a first-Inside g)))
          (
            1,
            hop
                (jmp-Hop icase multiline (choice a b) (1 + length a) (length (choice a b)) q
                  (pos (length b + 1)) at_jump
                  (pos-at (length b + 1) (1 + length a) (length (choice a b))
                    (omega (arith, length-choice))))
                stay,
          )
    Or-choice p q (inr m) =
        Through-append icase multiline
          (hop
            (branch-Hop icase multiline (choice a b) 0 (length a + 2) p (pos 1) (pos (length a + 2))
              refl (inr (pos-at (length a + 2) 0 (length a + 2) (omega arith))))
            stay)
          (last-Means icase multiline second-Inside (omega (arith, length-choice)) m)

    -- Two alternatives mean one or the other.
    pub choice-SameRel :
        SameRel
          (Means icase multiline (choice a b))
          (Or (Means icase multiline a) (Means icase multiline b))
    choice-SameRel p q = (choice-Or-to p q, Or-choice p q)
