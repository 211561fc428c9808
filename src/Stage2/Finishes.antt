-- ===== src/Stage2/Finishes.antt =====
-- The whole second stage, librxvm/stage2.c, on the list that the first stage leaves.
use librxvm.Prelude.{
  ℕ, zero, suc, ◌+◌, ◌<◌, ◌≡◌, refl, sym, ◌∙◌, ap, List, [], ◌∷◌, some, none, done, Outcome, arith,
  length, get_elem?, some_inj, Bool-cases, inl, inr, ◌==◌, if◌then◌else◌,
}
use mathlib.Core.Path.{subst}
use librxvm.Prelude.Int.{ℤ, pos, negsuc, ◌+ℤ◌}
use librxvm.Inst.{
  Op, char, any, class, nclass, branch, jmp, sol, eol, match, Inst, Program, set_op_match,
}
use librxvm.Vm.Spec.{IsWellFormed, Fits}
use librxvm.Stack.{IrStack}
use librxvm.Vmcode.{code_match, stack_add_inst_head}
use librxvm.Vmcode.Ahead.{IsAhead, AheadOf, AllAhead, AllAhead-append}
use librxvm.Vmcode.Keeps.{IsCode, code_match-size, IsCode-IsClosed}
use librxvm.Stage2.{relocate_op, copy_items, copy_list, optimise_chains, stage2}
use librxvm.Stage2.Relocate.{copy_items-IsWellFormed, relocate-op}
use librxvm.Stage2.Jumps.{IsForward}
use librxvm.Stage2.Same.{SameRuns, optimise_chains-SameRuns}

ahead-index : (x : ℤ) (i : ℕ) → IsAhead x → (j : ℕ) × (x +ℤ pos i ≡ pos j) × (i < j)
unfolding ◌+ℤ◌
ahead-index (pos zero) i h = elim h [ ]
ahead-index (pos (suc d)) i h = (suc d + i, ground arith, omega arith)
ahead-index (negsuc d) i h = elim h [ ]

relocate-ahead :
    (op : Op) (i : ℕ) (inst : Inst)
    → op ≡ jmp
    → AheadOf inst op
    → (j : ℕ) × ((relocate_op op i inst).x ≡ pos j) × (i < j)
relocate-ahead jmp i inst e h = ahead-index inst.x i h
relocate-ahead char i inst e h = absurd (cc)
relocate-ahead any i inst e h = absurd (cc)
relocate-ahead class i inst e h = absurd (cc)
relocate-ahead nclass i inst e h = absurd (cc)
relocate-ahead branch i inst e h = absurd (cc)
relocate-ahead sol i inst e h = absurd (cc)
relocate-ahead eol i inst e h = absurd (cc)
relocate-ahead match i inst e h = absurd (cc)

copy-ahead :
    (k i n : ℕ) (l : List Inst) (inst : Inst)
    → AllAhead l
    → get_elem? (copy_items k l) i ≡ some inst
    → inst.op ≡ jmp
    → k + i ≡ n
    → (j : ℕ) × (inst.x ≡ pos j) × (n < j)
unfolding copy_items
copy-ahead k i n [] inst h g op e = absurd (cc)
copy-ahead k zero n (y ∷ l) inst h g op e =
    let same : relocate_op y.op k y ≡ inst = some_inj g in
    let was : y.op ≡ jmp = sym (relocate-op y.op k y) ∙ ap (λ (v : Inst). v.op) same ∙ op in
    let (j, x, lt) = relocate-ahead y.op k y was h.0 in
    (j, ap (λ (v : Inst). v.x) (sym same) ∙ x, omega (arith, e, lt))
copy-ahead k (suc i) n (y ∷ l) inst h g op e =
    copy-ahead (k + 1) i n l inst h.1 g op (omega (arith, e))

jmp-Target :
    (n i j : ℕ) (inst : Inst) (op : Op) → op ≡ jmp → inst.x ≡ pos j → Fits n i inst op → j < n
jmp-Target n i j inst op e x = rw (e, x) (λ h. h)

-- Without an open jump the relocated program's jumps lead forward.
pub copy_items-IsForward :
    (c : IrStack) → IsCode c → c.dangling_alt ≡ none → IsForward (copy_items 0 (code_match c).items)
unfolding code_match stack_add_inst_head set_op_match
copy_items-IsForward c h d =
    let formed : IsWellFormed (copy_items 0 (code_match c).items) =
      (copy_items-IsWellFormed c h).0 in
    record {
      formed = formed;
      ahead = λ i inst g op.
          let (j, x, lt) =
            copy-ahead 0 i i (code_match c).items inst
              (AllAhead-append c.items (set_op_match ∷ []) ((IsCode-IsClosed c h d).1) (tt, tt)) g
              op (omega arith) in
          (j, x, lt, jmp-Target _ i j inst inst.op op x (formed.fits i inst g));
    }

pub SameRuns-refl : (exe : Program) → SameRuns exe exe
SameRuns-refl exe icase multiline i first before s n = (λ a. a, λ a. a)

-- What the second stage makes of a list: a program that is well formed, has an instruction for each
-- of the list, and accepts what the relocated list does.
abbrev pub Finished : IrStack → Outcome Program → Type 0
Finished ir o =
    (exe : Program) × (o ≡ done exe)
    × IsForward exe
    × (length exe ≡ length (copy_items 0 ir.items))
    × SameRuns exe (copy_items 0 ir.items)

copy_list-all : (l : List Inst) (i : ℕ) → copy_list (length l) i l ≡ done (copy_items i l)
unfolding copy_list copy_items
copy_list-all [] i = refl
copy_list-all (inst ∷ l) i = rw (copy_list, copy_list-all l (i + 1)) refl

stage2-all :
    (ir : IrStack)
    → ir.size ≡ length ir.items
    → stage2 ir ≡ (
        if ir.dsize == 0
        then done (copy_items 0 ir.items)
        else optimise_chains (copy_items 0 ir.items))
unfolding stage2
stage2-all ir e = rw (stage2, e, copy_list-all ir.items 0) refl

-- On code with no open jump and the match instruction behind it, counted in the list's size, whatever `dsize` is, the second stage
-- always returns a program, which is well formed, has as many instructions as the list, and accepts
-- from every index what the list accepts once its offsets are indices.
pub stage2-Finished :
    (c ir : IrStack)
    → IsCode c
    → c.dangling_alt ≡ none
    → ir.items ≡ (code_match c).items
    → ir.size ≡ (code_match c).size
    → Finished ir (stage2 ir)
stage2-Finished c ir h d e size =
    let counted : ir.size ≡ length ir.items = size ∙ code_match-size c h ∙ ap length (sym e) in
    let exe : Program = copy_items 0 ir.items in
    let f : IsForward exe =
      subst (λ v. IsForward (copy_items 0 v)) (sym e) (copy_items-IsForward c h d) in
    elim (Bool-cases (ir.dsize == 0)) [
      | inl z ↦ (exe, stage2-all ir counted ∙ rw z refl, f, refl, SameRuns-refl exe)
      | inr z ↦
          let (out, q, g, len, s) = optimise_chains-SameRuns exe f in
          (out, stage2-all ir counted ∙ rw (z, q) refl, g, len, s)
    ]
