-- ===== src/Compile/Refines.antt =====
-- From code to the answers of `rxvm_match`: both stages and the machine together,
-- librxvm/stage2.c, librxvm/vm.c and librxvm/rxvm.c.
use librxvm.Prelude.{
  ℕ, ◌+◌, ◌*◌, ◌≡◌, refl, sym, ◌∙◌, ap, inl, inr, ◌↔◌, Bool, true, List, [], ◌∷◌, none, done,
  Outcome, arith, length,
}
use mathlib.Core.Path.{subst}
use librxvm.Prelude.Int.{ℤ}
use librxvm.Inst.{Inst, Program}
use librxvm.Stack.{IrStack}
use librxvm.Vm.Spec.{Accepts, IsWellFormed}
use librxvm.Vmcode.{code_match, stack_add_inst_head}
use librxvm.Vmcode.Keeps.{IsCode, IsCode-IsClosed}
use librxvm.Stage2.{copy_items, stage2}
use librxvm.Stage2.Finishes.{stage2-Finished}
use librxvm.Code.Runs.{Place, Means}
use librxvm.Code.Accepts.{copied-Accepts}
use librxvm.Rxvm.{Compiled, MatchFlags, match_string}
use librxvm.Rxvm.Loop.{IsText}
use librxvm.Rxvm.Match.{AcceptsAll, Answers, match_string-Accepts}

-- The code can be run through from the start of a text to its end.
abbrev pub Spans : Bool → List Inst → List ℕ → Type 0
Spans icase l w =
    (q : Place) × Means icase true l (record { first = true; last = 0; rest = w }) q × (q.rest ≡ [])

done_inj : {a b : Program} → ◌≡◌ {A = Outcome Program} (done a) (done b) → a ≡ b
done_inj e = cc

no_length : (w : List ℕ) → length w ≡ 0 → w ≡ []
no_length [] e = refl
no_length (x ∷ w) e = absurd (omega arith)

all_consumed : (q : Place) (w : List ℕ) → length w + length q.rest ≡ length w → q.rest ≡ []
all_consumed q w e = no_length q.rest (omega arith)

consumes_all : (q : Place) (w : List ℕ) → q.rest ≡ [] → length w + length q.rest ≡ length w
consumes_all q w e = let none_left : length q.rest ≡ 0 = ap length e in omega arith

module _ (c ir : IrStack) (h : IsCode c) (d : c.dangling_alt ≡ none)
    (e : ir.items ≡ (code_match c).items) where
  copied_Spans :
      (icase : Bool) (w : List ℕ)
      → Accepts (copy_items 0 ir.items) icase true 0 true 0 w (length w) ↔ Spans icase c.items w
  unfolding code_match stack_add_inst_head
  copied_Spans icase w =
      let i = copied-Accepts c.items (IsCode-IsClosed c h d) icase true true 0 w (length w) in
      (
        λ a.
            (let (q, m, k) =
                i.0 (subst (λ v. Accepts (copy_items 0 v) icase true 0 true 0 w (length w)) e a) in
              (q, m, all_consumed q w k)),
        λ (q, m, k).
            subst (λ v. Accepts (copy_items 0 v) icase true 0 true 0 w (length w)) (sym e)
              (i.1 (q, m, consumes_all q w k)),
      )

Answers-map : (P Q : Type 0) (o : Outcome ℤ) → (P → Q) → (Q → P) → Answers P o → Answers Q o
Answers-map P Q o f g (inl (e, p)) = inl (e, f p)
Answers-map P Q o f g (inr (e, np)) = inr (e, λ q. np (g q))

-- On the program that the second stage returns for closed code with the match instruction behind it, counted in the list's size,
-- `rxvm_match` returns 1 for a text that the code can be run through from its start to its end, and 0
-- for every other one, where the text has no terminator inside and there is memory for the thread
-- tables.
pub stage2-Spans :
    (c ir : IrStack) (compiled : Compiled) (alloc : ℕ → Bool) (input : List ℕ) (flags : MatchFlags)
    → IsCode c
    → c.dangling_alt ≡ none
    → ir.items ≡ (code_match c).items
    → ir.size ≡ (code_match c).size
    → stage2 ir ≡ done compiled.exe
    → compiled.simple ≡ none
    → IsText input
    → alloc (length compiled.exe * 2 + 4 * length compiled.exe * 2) ≡ true
    → Answers (Spans flags.icase c.items input) (match_string alloc compiled input flags)
stage2-Spans c ir compiled alloc input flags h d e size runs ns text mem =
    let (exe, q, f, len, same) = stage2-Finished c ir h d e size in
    let is_exe : exe ≡ compiled.exe = done_inj (sym q ∙ runs) in
    let i = same flags.icase true 0 true 0 input (length input) in
    let (to, from) = copied_Spans c ir h d e flags.icase input in
    Answers-map (AcceptsAll compiled.exe flags.icase input) (Spans flags.icase c.items input) _
      (λ a. to (i.0 (subst (λ v. AcceptsAll v flags.icase input) (sym is_exe) a)))
      (λ s. subst (λ v. AcceptsAll v flags.icase input) is_exe (i.1 (from s)))
      (match_string-Accepts alloc compiled input flags (subst (λ v. IsWellFormed v) is_exe f.formed)
        text ns mem)
