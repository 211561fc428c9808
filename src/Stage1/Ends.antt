-- ===== src/Stage1/Ends.antt =====
-- What the first stage makes of its lists behind its loop.
use librxvm.Prelude.{
  ℕ, ◌<◌, ◌≡◌, refl, ◌∙◌, inl, inr, true, ◌&&◌, List, [], ◌∷◌, none, some, Option, arith, length,
  set, length-set, ltb, Bool-cases, Outcome, done, fault, out_of_fuel,
}
use librxvm.Err.{Result, ok}
use librxvm.Stack.{IrStack, stack_cat}
use librxvm.Vmcode.{attach_dangling_alt, code_match}
use librxvm.Vmcode.Keeps.{IsCode, code_match-size}
use librxvm.Vmcode.Alt.{attach-IsCode}
use librxvm.Stage1.Context.{
  group, parens_head, free_head, Globals, Context, Staged, going, failed, prog, base, is_rparen,
  put_stack, stack_at,
}
use librxvm.Stage1.Whole.{
  Staging, is_single, join_all, staging, finish_flushed, flush_last, stage1_finish, stage1_end,
}
use librxvm.Stage1.Store.{at, IsStore, IsShut, IsParens, IsParens-free, at-set, at-set-same}
use librxvm.Stage1.Keeps.{IsDone, cat-IsCode}
use librxvm.Stage1.Compiles.{IsKept}
use librxvm.Stage1.Rounds.{KeepsLast}

module _ (orig : List ℕ) where
  -- What the first stage gives the second: nothing, or closed code and the match instruction, in a
  -- list whose size is the number of its instructions.
  abbrev pub IsCompiled : Option IrStack → Type 0
  IsCompiled none = Unit {0}
  IsCompiled (some ir) =
      (c : IrStack) × IsCode c
      × IsDone c
      × (ir.items ≡ (code_match c).items)
      × (ir.size ≡ length ir.items)

  abbrev pub ReturnsCode : Outcome (Result Staging × Globals) → Type 0
  ReturnsCode (done (ok s, g)) = IsCompiled s.ir
  ReturnsCode _ = Unit {0}

  -- What is left to join: no buffer has an open jump, and the target is the program.
  record IsLast (cp : Context) : Type 0 where
    codes : (i : ℕ) → IsCode (stack_at cp i)
    base_done : IsDone (stack_at cp base)
    not_empty : 0 < length cp.store
    whole : is_single orig cp.parens ≡ true → cp.target ≡ prog

  single-prog :
      (n : ℕ) (parens : List ℕ)
      → IsParens n parens
      → is_single orig parens ≡ true
      → (parens_head parens ≡ base) × (group parens ≡ prog)
  single-prog n [] o e = elim o [ ]
  single-prog n (g ∷ []) o e = (o.0, ground (arith, o.0))
  single-prog n (g ∷ k ∷ rest) o e = absurd (grind arith)

  stays-IsLast : (cp : Context) → IsStore cp.store cp.parens cp.target cp.buf → IsLast cp
  stays-IsLast cp h = record {
    codes = h.codes;
    base_done = h.base_done;
    not_empty = omega (arith, h.buf_below);
    whole = λ e.
        let (head, none_open) = single-prog (length cp.store) cp.parens h.open_parens e in
        elim h.place [ inl t ↦ t ∙ none_open | inr s ↦ absurd (omega (arith, s.deep, head)) ];
  }

  flushes-IsLast :
      (cp : Context)
      → IsStore cp.store cp.parens cp.target cp.buf
      → IsShut cp.store cp.parens cp.target
      → IsLast (record (put_stack prog (stack_cat (stack_at cp prog) (stack_at cp cp.buf)) cp) {
        parens = free_head cp.parens;
      })
  flushes-IsLast cp h w =
      let t : IrStack = stack_cat (stack_at cp prog) (stack_at cp cp.buf) in
      let c : IsCode t = cat-IsCode _ _ (h.codes prog) (h.codes cp.buf) h.buf_done in
      record {
        codes = λ i. at-set IsCode cp.store prog t i (λ e. c) (h.codes i);
        base_done = at-set IsDone cp.store prog t base (λ e. absurd (omega (arith, e))) h.base_done;
        not_empty = omega (arith, h.buf_below, length-set cp.store prog t);
        whole = λ e.
            w.behind
            ∙ (single-prog (length cp.store) (free_head cp.parens)
                (IsParens-free (length cp.store) cp.parens w.deep h.open_parens) e).1;
      }

  flush_last-IsLast : (cp : Context) → IsKept cp.lasttok cp → IsLast (flush_last orig cp)
  unfolding flush_last
  flush_last-IsLast cp (h, b) =
      elim (Bool-cases (is_rparen cp.lasttok && ltb 0 (stack_at cp cp.buf).size)) [
        | inr stays ↦ rw stays (stays-IsLast cp h)
        | inl flush ↦
            let last : is_rparen cp.lasttok ≡ true = ground arith in
            rw flush (flushes-IsLast cp h (b.shut last).0)
      ]

  join-IsCode :
      (cp : Context)
      → IsLast cp
      → is_single orig cp.parens ≡ true
      → IsCode (stack_at (join_all orig cp) prog) × IsDone (stack_at (join_all orig cp) prog)
  unfolding join_all
  join-IsCode cp l e =
      let t : IrStack = stack_cat (stack_at cp prog) (stack_at cp base) in
      let joined : (j : ℕ) → IsCode (at (set cp.store prog t) j) = λ j.
        at-set IsCode cp.store prog t j
          (λ e. cat-IsCode _ _ (l.codes prog) (l.codes base) l.base_done) (l.codes j) in
      let some_room : 0 < length (set cp.store prog t) =
        omega (arith, l.not_empty, length-set cp.store prog t) in
      let (c, d, len) = attach-IsCode (at (set cp.store prog t) prog) (joined prog) in
      rw
        (
          l.whole e,
          at-set-same (set cp.store prog t) prog
              (attach_dangling_alt (at (set cp.store prog t) prog)) some_room,
        )
        (c, d)

  staging-IsCompiled :
      (cp : Context)
      → IsCode (stack_at cp prog)
      → IsDone (stack_at cp prog)
      → IsCompiled (staging orig cp).ir
  unfolding staging
  staging-IsCompiled cp c d = (stack_at cp prog, c, d, refl, code_match-size (stack_at cp prog) c)

  flushed-ReturnsCode : (cp : Context) → IsLast cp → ReturnsCode (done (finish_flushed orig cp))
  unfolding finish_flushed
  flushed-ReturnsCode cp l = elim (Bool-cases cp.charc) [
    | inl open_class ↦ simp open_class tt
    | inr other ↦ elim (Bool-cases (is_single orig cp.parens)) [
      | inr open_parens ↦ simp (other, open_parens) tt
      | inl closed ↦
          let (c, d) = join-IsCode cp l closed in
          simp (other, closed) (staging-IsCompiled (join_all orig cp) c d)
    ]
  ]

  finish-ReturnsCode :
      (cp : Context) → IsKept cp.lasttok cp → ReturnsCode (done (stage1_finish orig cp))
  unfolding stage1_finish
  finish-ReturnsCode cp k = flushed-ReturnsCode (flush_last orig cp) (flush_last-IsLast cp k)

  pub end-ReturnsCode : (o : Outcome Staged) → KeepsLast orig o → ReturnsCode (stage1_end orig o)
  unfolding stage1_end
  end-ReturnsCode fault h = tt
  end-ReturnsCode out_of_fuel h = tt
  end-ReturnsCode (done (failed e cp)) h = tt
  end-ReturnsCode (done (going cp)) h = finish-ReturnsCode cp h

-- The literals read first are added to the shared buffer.
