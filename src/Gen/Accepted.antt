-- ===== src/Gen/Accepted.antt =====
-- The text that `rxvm_gen` of librxvm/randinput.c writes is accepted by the program.
use librxvm.Prelude.{
  ℕ, zero, suc, ◌≡◌, ◌≢◌, ◌==◌, arith, refl, sym, ◌∙◌, ap, inl, inr, Bool, true, false, Bool-cases,
  Option-cases, Option, none, some, List, [], ◌∷◌, ◌++◌, append_assoc, append-nil, Outcome, done,
  fault, out_of_fuel, get_elem?, length,
}
use mathlib.Core.Path.{subst}
use librxvm.Inst.{Op, match, Inst, Program}
use librxvm.Err.{Result, ok, err}
use librxvm.Vm.Spec.{Accepts, halt, move, eat, at_sol, at_eol}
use librxvm.Strb.{Strb, strb_init, strb_addc}
use librxvm.Rxvm.{Compiled}
use librxvm.Rxvm.Match.{AcceptsAll}
use librxvm.Gen.{
  GenConfig, Generating, Generation, c_string, gen_op, gen_loop, gen_end, rxvm_gen, is_match,
}
use librxvm.Gen.Writes.{GenOf, Steps, OpSteps, gen_op-Steps, Adds, strb_addc-Adds}

-- Every instruction is one whose text can be written.
abbrev pub IsGenerable : Program → Type 0
IsGenerable exe = (i : ℕ) (inst : Inst) → get_elem? exe i ≡ some inst → GenOf inst.op inst

-- No terminator is in the text.
abbrev NoNul : List ℕ → Type 0
NoNul [] = Unit {0}
NoNul (c ∷ s) = (c ≢ 0) × NoNul s

-- Up to the terminator, C reads what was written.
c_string-terminated : (s : List ℕ) → NoNul s → c_string (s ++ 0 ∷ []) ≡ s
c_string-terminated [] h = refl
c_string-terminated (c ∷ s) (nz, h) =
    let other : (c == 0) ≡ false = ground (arith, nz) in rw (other, c_string-terminated s h) refl

-- What is added behind the text so far is accepted from the instruction on, wherever it stands.
abbrev pub Written : Program → Generating → Outcome (Result Generating) → Type 0
Written exe st (done (ok st')) =
    (text : List ℕ) × (st'.strb.buf ≡ st.strb.buf ++ text)
    × NoNul text
    × ((first : Bool) (last : ℕ) → Accepts exe false true st.ip first last text (length text))
Written exe st _ = Unit {0}

is_match-match : (op : Op) → is_match op ≡ true → op ≡ match
is_match-match match e = refl
is_match-match _ e = absurd (cc)

module _ (exe : Program) where
  -- One instruction, and what the loop writes behind it.
  step-Written :
      (st st' : Generating) (inst : Inst) (o : Outcome (Result Generating))
      → get_elem? exe st.ip ≡ some inst
      → Steps inst.op inst st (ok st')
      → Written exe st' o
      → Written exe st o
  step-Written st st' inst (done (ok st'')) g (inl (goes, e)) (text, f, nul, a) = (
    text,
    f ∙ ap (λ v. v ++ text) e,
    nul,
    λ first last.
        move
          (record {
            inst = inst;
            found = g;
            goes = goes (at_sol true first last) (at_eol true text);
          })
          (a first last),
  )
  step-Written st st' inst (done (ok st'')) g (inr (c, nz, reads, e)) (text, f, nul, a) = (
    c ∷ text,
    f ∙ ap (λ v. v ++ text) e ∙ append_assoc st.strb.buf (c ∷ []) text,
    (nz, nul),
    λ first last. eat (record { inst = inst; found = g; goes = reads }) (a false c),
  )
  step-Written st st' inst (done (err e)) g s w = tt
  step-Written st st' inst fault g s w = tt
  step-Written st st' inst out_of_fuel g s w = tt

  after-Written :
      (st : Generating) (inst : Inst) (loop : Generating → Outcome (Result Generating))
      (o : Outcome (Result Generating))
      → get_elem? exe st.ip ≡ some inst
      → OpSteps inst.op inst st o
      → ((st' : Generating) → Written exe st' (loop st'))
      → Written exe st (elim o as (λ x. Outcome (Result Generating)) [
        | fault ↦ fault
        | out_of_fuel ↦ out_of_fuel
        | done (err e) ↦ done (err e)
        | done (ok st') ↦ loop st'
      ])
  after-Written st inst loop (done (ok st')) g s w = step-Written st st' inst (loop st') g s (w st')
  after-Written st inst loop (done (err e)) g s w = tt
  after-Written st inst loop fault g s w = tt
  after-Written st inst loop out_of_fuel g s w = tt

  module _ (rand : ℕ → ℕ) (alloc : ℕ → Bool) (cfg : GenConfig) (gen : IsGenerable exe) where
    pub gen_loop-Written :
        (fuel : ℕ) (st : Generating) → Written exe st (gen_loop rand alloc fuel exe cfg st)
    unfolding gen_loop
    gen_loop-Written zero st = tt
    gen_loop-Written (suc fuel) st = elim (Option-cases (get_elem? exe st.ip)) [
      | inl e ↦ rw (Written, gen_loop, e) tt
      | inr (inst, e) ↦ elim (Bool-cases (is_match inst.op)) [
        | inl m ↦
            rw (Written, gen_loop, e, m)
              (
                [],
                sym (append-nil st.strb.buf),
                tt,
                λ first last.
                    halt (record { inst = inst; found = e; ends = is_match-match inst.op m }) refl,
              )
        | inr m ↦
            rw (Written, gen_loop, e, m)
              (after-Written st inst (gen_loop rand alloc fuel exe cfg)
                (gen_op rand alloc exe cfg st inst inst.op) e
                (gen_op-Steps rand alloc exe cfg inst st inst.op (gen st.ip inst e) m)
                (gen_loop-Written fuel))
      ]
    ]

-- The program accepts the whole text that is returned.
abbrev pub GivesAccepted : Program → Outcome (Option Generation) → Type 0
GivesAccepted exe (done (some g)) = AcceptsAll exe false g.text
GivesAccepted exe _ = Unit {0}

module _ (rand : ℕ → ℕ) (alloc : ℕ → Bool) (exe : Program) where
  ended-Accepted :
      (text : List ℕ) (old : Strb) (r : Result Strb)
      → old.buf ≡ text
      → NoNul text
      → Adds old 0 r
      → AcceptsAll exe false text
      → GivesAccepted exe (
          done (elim r as (λ x. Option Generation) [
            | err e ↦ none
            | ok strb ↦ some (record { text = c_string strb.buf; len = strb.size })
          ]))
  ended-Accepted text old (ok strb) e nul adds a =
      let read : c_string strb.buf ≡ text =
        ap c_string (adds ∙ ap (λ v. v ++ 0 ∷ []) e) ∙ c_string-terminated text nul in
      subst (λ v. AcceptsAll exe false v) (sym read) a
  ended-Accepted text old (err x) e nul adds a = tt

  loop-Accepted :
      (strb : Strb) (o : Outcome (Result Generating))
      → strb.buf ≡ []
      → Written exe (record { ip = 0; strb = strb; calls = 0 }) o
      → GivesAccepted exe (elim o as (λ x. Outcome (Option Generation)) [
        | fault ↦ fault
        | out_of_fuel ↦ out_of_fuel
        | done r ↦ done (gen_end rand alloc r)
      ])
  unfolding gen_end
  loop-Accepted strb (done (ok st)) e (text, f, nul, a) =
      ended-Accepted text st.strb (strb_addc alloc st.strb 0) (f ∙ ap (λ v. v ++ text) e) nul
        (strb_addc-Adds alloc st.strb 0) (a true 0)
  loop-Accepted strb (done (err x)) e w = tt
  loop-Accepted strb fault e w = tt
  loop-Accepted strb out_of_fuel e w = tt

-- For a program with no `^` and no `$` in which no character or class is or holds the terminator and
-- each negated class leaves out a printable character, whatever `rand` returns and with any settings,
-- a text that `rxvm_gen` returns, as C reads it up to its terminator, is accepted by the program as
-- a whole, with case regarded.
pub rxvm_gen-Accepted :
    (rand : ℕ → ℕ) (alloc : ℕ → Bool) (fuel : ℕ) (compiled : Compiled) (cfg : Option GenConfig)
    → IsGenerable compiled.exe
    → compiled.simple ≡ none
    → GivesAccepted compiled.exe (rxvm_gen rand alloc fuel compiled cfg)
unfolding rxvm_gen strb_init
rxvm_gen-Accepted rand alloc fuel compiled cfg gen ns = elim (Bool-cases (alloc 128)) [
  | inl m ↦
      rw (GivesAccepted, rxvm_gen, ns, m)
        (loop-Accepted rand alloc compiled.exe
          (record { size = 0; space = 128; buf = []; block_size = 128 }) _ refl
          (gen_loop-Written compiled.exe rand alloc _ gen fuel _))
  | inr m ↦ rw (GivesAccepted, rxvm_gen, ns, m) tt
]
