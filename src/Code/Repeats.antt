-- ===== src/Code/Repeats.antt =====
-- The meaning of repeated code, librxvm/vmcode.c: the branches of the operators `+`, `*` and `?`, and
-- the copies of a counted repetition.
use librxvm.Prelude.{
  ℕ, zero, suc, ◌+◌, ◌*◌, ◌<◌, ◌≡◌, refl, sym, ◌∙◌, ap, ◌⊎◌, inl, inr, Bool, List, [], ◌∷◌, ◌++◌,
  some, arith, length, get_elem?, get_elem?-concat, length-append,
}
use mathlib.Core.Path.{subst}
use librxvm.Prelude.Int.{ℤ, pos, pos_part, ◌+ℤ◌}
use librxvm.Inst.{Inst, set_op_branch}
use librxvm.Vmcode.{minus}
use librxvm.Vmcode.Closed.{IsClosed, IsClosed-append}
use librxvm.Vmcode.Blocks.{times, optional, back}
use librxvm.Vmcode.Keeps.{IsClosed-back, IsClosed-times, length-optional, IsClosed-optional}
use librxvm.Code.Runs.{Place, Goes, stay, hop, Through, Means}
use librxvm.Code.Split.{
  Inside-front, Inside-cons, Goes-end, Goes-at, Goes-First, Through-append, Goes-embed, Goes-Split,
}
use librxvm.Code.Blocks.{Hop-branch, branch-Hop, Means-last, last-Means, append-Seq}
use librxvm.Code.Relations.{
  SameRel, Same, Or, Plus, once, again, Times, UpTo, SameRel-Seq, SameRel-Or, SameRel-trans,
  SameRel-refl,
}

pub target_eq : (x : ℤ) (i n j : ℕ) → x +ℤ pos i ≡ pos n → x +ℤ pos i ≡ pos j → j ≡ n
target_eq x i n j e f = ap pos_part (sym f ∙ e)

pub pos-at : (d i n : ℕ) → d + i ≡ n → pos d +ℤ pos i ≡ pos n
unfolding ◌+ℤ◌
pos-at d i n e = ground arith

minus-at : (n : ℕ) → minus n +ℤ pos n ≡ pos 0
unfolding ◌+ℤ◌
minus-at zero = refl
minus-at (suc n) = ground arith

module _ (icase multiline : Bool) where
  -- Closed code behind a branch that leads to it and behind it.
  pub front-Or :
      (d : ℕ) (l : List Inst)
      → d ≡ length l + 1
      → IsClosed l
      → SameRel
          (Means icase multiline (set_op_branch (pos 1) (pos d) ∷ l))
          (Or Same (Means icase multiline l))
  front-Or d l e closed p q = (λ (n, g). to g, from)
    where
      big : List Inst
      big = set_op_branch (pos 1) (pos d) ∷ l

      to :
          {n : ℕ}
          → Goes icase multiline big n 0 p (length big) q
          → Or Same (Means icase multiline l) p q
      to (hop {n = n} {j = j} {r = r} h g) =
          let (goes, same) = Hop-branch icase multiline big 0 j p (pos 1) (pos d) refl h in
          let g' : Goes icase multiline big n j p (length big) q =
            subst (λ v. Goes icase multiline big n j v (length big) q) same g in
          elim goes [
            | inl z ↦ inr (
                Means-last icase multiline (Inside-cons (set_op_branch (pos 1) (pos d)) l) closed
                  (omega arith)
                  (Goes-at icase multiline (target_eq (pos 1) 0 1 j (pos-at 1 0 1 refl) z) refl g'))
            | inr z ↦
                let out : j ≡ d = target_eq (pos d) 0 d j (pos-at d 0 d (omega arith)) z in
                inl ((Goes-end icase multiline (omega arith) g').1)
          ]

      from : Or Same (Means icase multiline l) p q → Means icase multiline big p q
      from (inl same) = (
        1,
        hop
            (branch-Hop icase multiline big 0 d p (pos 1) (pos d) refl
              (inr (pos-at d 0 d (omega arith))))
            (subst (λ v. Goes icase multiline big 0 d p (length big) v) same
              (Goes-at icase multiline refl (omega arith) stay)),
      )
      from (inr m) =
          Through-append icase multiline
            (hop
              (branch-Hop icase multiline big 0 1 p (pos 1) (pos d) refl (inl (pos-at 1 0 1 refl)))
              stay)
            (last-Means icase multiline (Inside-cons (set_op_branch (pos 1) (pos d)) l)
              (omega arith) m)

  -- Closed code with the branch back behind it.
  module _ (l : List Inst) (closed : IsClosed l) where
    abbrev looped : List Inst
    looped = l ++ back (length l) ∷ []

    length-looped : length looped ≡ length l + 1
    length-looped = length-append l (back (length l) ∷ [])

    at_back : get_elem? looped (length l) ≡ some (set_op_branch (minus (length l)) (pos 1))
    at_back = get_elem?-concat l (back (length l))

    -- At the branch a run goes back to the start, or it is at the end.
    at_branch :
        {n : ℕ} {p q : Place}
        → Goes icase multiline looped n (length l) p (length looped) q
        → (p ≡ q) ⊎ ((m : ℕ) × (m < n) × Goes icase multiline looped m 0 p (length looped) q)
    at_branch {n} {p} {q} g =
        let f = Goes-First icase multiline (omega (arith, length-looped)) g in
        let (goes, same) =
          Hop-branch icase multiline looped (length l) f.next p (minus (length l)) (pos 1) at_back
            f.step in
        let g' : Goes icase multiline looped f.count f.next p (length looped) q =
          subst (λ v. Goes icase multiline looped f.count f.next v (length looped) q) same f.run in
        elim goes [
          | inl z ↦
              let start : f.next ≡ 0 =
                target_eq (minus (length l)) (length l) 0 f.next (minus-at (length l)) z in
              inr (f.count, f.fewer, Goes-at icase multiline start refl g')
          | inr z ↦
              let end : f.next ≡ length looped =
                target_eq (pos 1) (length l) (length looped) f.next
                  (pos-at 1 (length l) (length looped) (omega (arith, length-looped))) z in
              inl ((Goes-end icase multiline (omega (arith, end)) g').1)
        ]

    looped-Plus :
        (fuel : ℕ) {n : ℕ} {p q : Place}
        → n < fuel
        → Goes icase multiline looped n 0 p (length looped) q
        → Plus (Means icase multiline l) p q
    looped-Plus zero lt g = absurd (omega arith)
    looped-Plus (suc fuel) {n} {p} {q} lt g =
        let s =
          Goes-Split icase multiline looped 0 l (Inside-front l (back (length l) ∷ [])) {i = 0}
            closed (omega arith) (omega arith) (inr (omega (arith, length-looped))) g in
        elim (at_branch (Goes-at icase multiline (omega arith) refl s.outer)) [
          | inl same ↦ once (subst (λ v. Means icase multiline l p v) same s.inner)
          | inr (m, lt', g') ↦ again s.inner (looped-Plus fuel (omega (arith, lt, lt', s.fewer)) g')
        ]

    embedded :
        {p q : Place}
        → Means icase multiline l p q
        → Through icase multiline looped 0 p (length l) q
    embedded (n, g) = (
      n,
      Goes-at icase multiline (omega arith) (omega arith)
          (Goes-embed icase multiline looped 0 l (Inside-front l (back (length l) ∷ [])) g),
    )

    branched :
        {p : Place} (j : ℕ)
        → (minus (length l) +ℤ pos (length l) ≡ pos j) ⊎ (pos 1 +ℤ pos (length l) ≡ pos j)
        → Through icase multiline looped (length l) p j p
    branched {p} j h = (
      1,
      hop (branch-Hop icase multiline looped (length l) j p (minus (length l)) (pos 1) at_back h)
          stay,
    )

    Plus-looped :
        {p q : Place} → Plus (Means icase multiline l) p q → Means icase multiline looped p q
    Plus-looped (once m) =
        let (n, g) = embedded m in
        Through-append icase multiline g (
          branched (length looped)
            (inr (pos-at 1 (length l) (length looped) (omega (arith, length-looped)))))
    Plus-looped (again m r) =
        let (n, g) = embedded m in
        let (k, h) = branched 0 (inl (minus-at (length l))) in
        Through-append icase multiline g (Through-append icase multiline h (Plus-looped r))

    pub looped-SameRel : SameRel (Means icase multiline looped) (Plus (Means icase multiline l))
    looped-SameRel p q = (λ (n, g). looped-Plus (suc n) (omega arith) g, Plus-looped)

    looped-IsClosed : IsClosed looped
    looped-IsClosed = IsClosed-back l (length l) refl closed

    -- The code of `*`.
    pub starred-SameRel :
        SameRel
          (Means icase multiline (set_op_branch (pos 1) (pos (length l + 2)) ∷ looped))
          (Or Same (Plus (Means icase multiline l)))
    starred-SameRel =
        SameRel-trans
          (front-Or (length l + 2) looped (omega (arith, length-looped)) looped-IsClosed)
          (SameRel-Or (SameRel-refl Same) looped-SameRel)

    pub times-SameRel :
        (n : ℕ) → SameRel (Means icase multiline (times n l)) (Times n (Means icase multiline l))
    times-SameRel zero = λ p q. (
      λ (n, g). (Goes-end icase multiline (omega arith) g).1,
      λ e. (0, subst (λ v. Goes icase multiline [] 0 0 p 0 v) e stay),
    )
    times-SameRel (suc n) =
        SameRel-trans (append-Seq icase multiline l (times n l) closed (IsClosed-times n l closed))
          (SameRel-Seq (SameRel-refl (Means icase multiline l)) (times-SameRel n))

    pub optional-SameRel :
        (k : ℕ)
        → SameRel
            (Means icase multiline (optional k l (length l)))
            (UpTo k (Means icase multiline l))
    optional-SameRel zero = times-SameRel 0
    optional-SameRel (suc k) =
        SameRel-trans
          (front-Or ((length l + 1) * suc k) (l ++ optional k l (length l))
            (omega (
              arith,
              length-append l (optional k l (length l)),
              length-optional k l (length l) refl,
            ))
            (IsClosed-append l (optional k l (length l)) closed
              (IsClosed-optional k l (length l) refl closed)))
          (SameRel-Or (SameRel-refl Same) (
            SameRel-trans
              (append-Seq icase multiline l (optional k l (length l)) closed
                (IsClosed-optional k l (length l) refl closed))
              (SameRel-Seq (SameRel-refl (Means icase multiline l)) (optional-SameRel k))))
