-- ===== src/Gen/Writes.antt =====
-- What the switch of `rxvm_gen`, librxvm/randinput.c, adds to the text is what its instruction reads.
use librxvm.Prelude.{
  ℕ, zero, suc, ◌+◌, ◌-◌, ◌≡◌, ◌≢◌, refl, sym, ◌∙◌, ap, ◌⊎◌, inl, inr, Bool, true, false,
  Bool-cases, Option-cases, some, List, [], ◌∷◌, ◌++◌, Outcome, done, arith, if◌then◌else◌,
  get_elem?, length, ◌==◌,
}
use librxvm.Prelude.Int.{ℤ, pos, negsuc}
use librxvm.Inst.{Op, char, any, class, nclass, branch, jmp, sol, eol, match, Inst, Program}
use librxvm.Err.{Result, ok, err}
use librxvm.Strb.{Strb, strb_addc, enlarge_buf}
use librxvm.Vm.{char_match, ccs_match}
use librxvm.Vm.Spec.{EpsOf, ReadsOf}
use librxvm.Gen.{
  GenConfig, Generating, has_char, rand_range, choice, any_char, gen_add, goto, gen_op, is_match,
}
use librxvm.Gen.Nchar.{IsPrintable, IsOutside, find_nchar-Outside}

-- Programs with no `^` and no `$`, in which no character and no class is or holds the terminator, and
-- each negated class leaves out a printable character.
abbrev pub GenOf : Op → Inst → Type 0
GenOf sol inst = ⊥
GenOf eol inst = ⊥
GenOf char inst = inst.c ≢ 0
GenOf class inst = (ccs : List ℕ) × (inst.ccs ≡ some ccs) × (has_char ccs 0 ≡ false)
GenOf nclass inst =
    (ccs : List ℕ) × (inst.ccs ≡ some ccs) × (c : ℕ) × IsPrintable c × (has_char ccs c ≡ false)
GenOf _ inst = Unit {0}

-- The thread that is followed goes on without reading, or reads the character that is added, which
-- is not the terminator.
abbrev pub Steps : Op → Inst → Generating → Result Generating → Type 0
Steps op inst st (err e) = Unit {0}
Steps op inst st (ok st') =
    (((s e : Bool) → EpsOf op s e st.ip inst st'.ip) × (st'.strb.buf ≡ st.strb.buf))
    ⊎ ((c : ℕ) × (c ≢ 0)
        × ReadsOf op false c st.ip inst st'.ip
        × (st'.strb.buf ≡ st.strb.buf ++ c ∷ []))

abbrev pub OpSteps : Op → Inst → Generating → Outcome (Result Generating) → Type 0
OpSteps op inst st (done r) = Steps op inst st r
OpSteps op inst st _ = Unit {0}

abbrev pub Adds : Strb → ℕ → Result Strb → Type 0
Adds strb c (err e) = Unit {0}
Adds strb c (ok strb') = strb'.buf ≡ strb.buf ++ c ∷ []

pub strb_addc-Adds : (alloc : ℕ → Bool) (strb : Strb) (c : ℕ) → Adds strb c (strb_addc alloc strb c)
unfolding strb_addc enlarge_buf
strb_addc-Adds alloc strb c = ground arith

module _ (alloc : ℕ → Bool) (op : Op) (inst : Inst) (st : Generating) where
  added-Steps :
      (c calls : ℕ) (r : Result Strb)
      → Adds st.strb c r
      → c ≢ 0
      → ReadsOf op false c st.ip inst (st.ip + 1)
      → Steps op inst st (elim r as (λ x. Result Generating) [
        | err e ↦ err e
        | ok strb ↦ ok (record { ip = st.ip + 1; strb = strb; calls = calls })
      ])
  added-Steps c calls (err e) a nz h = tt
  added-Steps c calls (ok strb) a nz h = inr (c, nz, h, a)

  gen_add-Steps :
      (c calls : ℕ)
      → c ≢ 0
      → ReadsOf op false c st.ip inst (st.ip + 1)
      → Steps op inst st (gen_add alloc st c calls)
  unfolding gen_add
  gen_add-Steps c calls nz h =
      added-Steps c calls (strb_addc alloc st.strb c) (strb_addc-Adds alloc st.strb c) nz h

  goto-Steps :
      (x : ℤ) (calls : ℕ)
      → ((j : ℕ) → x ≡ pos j → (s e : Bool) → EpsOf op s e st.ip inst j)
      → OpSteps op inst st (goto st x calls)
  goto-Steps (pos j) calls h = inl (h j refl, refl)
  goto-Steps (negsuc j) calls h = tt

get_elem?-match : (ccs : List ℕ) (i c : ℕ) → get_elem? ccs i ≡ some c → ccs_match false ccs c ≡ true
unfolding ccs_match char_match
get_elem?-match [] i c e = absurd (cc)
get_elem?-match (d ∷ ccs) zero c e = ground arith
get_elem?-match (d ∷ ccs) (suc i) c e = ground (arith, get_elem?-match ccs i c e)

not_both : (b : Bool) → b ≡ true → b ≡ false → ⊥
not_both b e f = cc

-- Where a printable character is left out, one is found.
found_outside :
    (ccs : List ℕ) (c d : ℕ)
    → IsPrintable d
    → has_char ccs d ≡ false
    → IsOutside ccs c
    → IsPrintable c × (has_char ccs c ≡ false)
found_outside ccs c d p out (inl found) = found
found_outside ccs c d p out (inr (z, all)) = absurd (not_both (has_char ccs d) (all d p) out)

has_char-match : (ccs : List ℕ) (c : ℕ) → has_char ccs c ≡ false → ccs_match false ccs c ≡ false
unfolding ccs_match char_match
has_char-match [] c e = refl
has_char-match (d ∷ ccs) c e = elim (Bool-cases (c == d)) [
  | inl q ↦ absurd (ground arith)
  | inr q ↦
      let own : has_char ccs c ≡ false = ground arith in ground (arith, has_char-match ccs c own)
]

get_elem?-has : (ccs : List ℕ) (i c : ℕ) → get_elem? ccs i ≡ some c → has_char ccs c ≡ true
get_elem?-has [] i c e = absurd (cc)
get_elem?-has (d ∷ ccs) zero c e = ground arith
get_elem?-has (d ∷ ccs) (suc i) c e = ground (arith, get_elem?-has ccs i c e)

blank_for_newline : (c : ℕ) → (if c == b'\n' then b' ' else c) ≢ b'\n'
blank_for_newline c e = ground arith

any_char-other : (rand : ℕ → ℕ) (n whitespace : ℕ) → any_char rand n whitespace ≢ b'\n'
any_char-other rand n whitespace = elim (Bool-cases (choice rand n whitespace)) [
  | inl e ↦ rw (any_char, e) (blank_for_newline (rand_range rand (n + 1) b'\x07' b'\r'))
  | inr e ↦ rw (any_char, e) (λ q. omega arith)
]

blank_not_zero : (c : ℕ) → c ≢ 0 → (if c == b'\n' then b' ' else c) ≢ 0
blank_not_zero c nz e = ground arith

any_char-not_zero : (rand : ℕ → ℕ) (n whitespace : ℕ) → any_char rand n whitespace ≢ 0
any_char-not_zero rand n whitespace = elim (Bool-cases (choice rand n whitespace)) [
  | inl e ↦
      rw (any_char, e)
        (blank_not_zero (rand_range rand (n + 1) b'\x07' b'\r') (λ q. omega (arith, q)))
  | inr e ↦ rw (any_char, e) (λ q. omega arith)
]

module _ (rand : ℕ → ℕ) (alloc : ℕ → Bool) (exe : Program) (cfg : GenConfig) (inst : Inst)
    (st : Generating) where
  class-Steps : GenOf class inst → OpSteps class inst st (gen_op rand alloc exe cfg st inst class)
  unfolding gen_op
  class-Steps (ccs, e, zero_free) =
      elim (Option-cases (get_elem? ccs (rand_range rand st.calls 0 (length ccs - 1)))) [
        | inl f ↦ rw (OpSteps, gen_op, e, f) tt
        | inr (c, f) ↦
            rw (OpSteps, gen_op, e, f)
              (gen_add-Steps alloc class inst st c (st.calls + 1)
                (λ z.
                  not_both (has_char ccs 0)
                    (ap (has_char ccs) (sym z)
                      ∙ get_elem?-has ccs (rand_range rand st.calls 0 (length ccs - 1)) c f)
                    zero_free)
                (
                  ccs,
                  e,
                  get_elem?-match ccs (rand_range rand st.calls 0 (length ccs - 1)) c f,
                  refl,
                ))
      ]

  nclass-Steps :
      GenOf nclass inst → OpSteps nclass inst st (gen_op rand alloc exe cfg st inst nclass)
  unfolding gen_op
  nclass-Steps (ccs, e, d, printable, left_out) =
      let (c, f, o) = find_nchar-Outside rand st.calls ccs in
      let (p, free) = found_outside ccs c d printable left_out o in
      rw (OpSteps, gen_op, e, f)
        (gen_add-Steps alloc nclass inst st c (st.calls + 1) (λ z. omega (arith, z, p.0))
          (ccs, e, has_char-match ccs c free, refl))

  chosen-Steps :
      (b : Bool) → OpSteps branch inst st (goto st (if b then inst.x else inst.y) (st.calls + 1))
  chosen-Steps true = goto-Steps alloc branch inst st inst.x (st.calls + 1) (λ j e s f. inl e)
  chosen-Steps false = goto-Steps alloc branch inst st inst.y (st.calls + 1) (λ j e s f. inr e)

  branch-Steps : OpSteps branch inst st (gen_op rand alloc exe cfg st inst branch)
  unfolding gen_op
  branch-Steps = chosen-Steps (choice rand st.calls _)

  pub gen_op-Steps :
      (op : Op)
      → GenOf op inst
      → is_match op ≡ false
      → OpSteps op inst st (gen_op rand alloc exe cfg st inst op)
  unfolding gen_op char_match
  gen_op-Steps char g m = gen_add-Steps alloc char inst st inst.c st.calls g (ground arith, refl)
  gen_op-Steps any g m =
      gen_add-Steps alloc any inst st (any_char rand st.calls cfg.whitespace) (st.calls + 2)
        (any_char-not_zero rand st.calls cfg.whitespace)
        (any_char-other rand st.calls cfg.whitespace, refl)
  gen_op-Steps class g m = class-Steps g
  gen_op-Steps nclass g m = nclass-Steps g
  gen_op-Steps branch g m = branch-Steps
  gen_op-Steps jmp g m = goto-Steps alloc jmp inst st inst.x st.calls (λ j e s f. e)
  gen_op-Steps match g m = absurd (cc)
  gen_op-Steps sol g m = elim g [ ]
  gen_op-Steps eol g m = elim g [ ]
