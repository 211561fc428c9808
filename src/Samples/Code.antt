-- ===== src/Samples/Code.antt =====
-- The meaning of code, and the second stage, at concrete inputs.
use librxvm.Prelude.{
  ◌≡◌, refl, ◌↔◌, true, false, [], ◌∷◌, ◌++◌, none, done, List, ℕ, arith, length, inr,
}
use librxvm.Prelude.Int.{pos, negsuc}
use librxvm.Inst.{Inst, Program, set_op_char, set_op_branch, set_op_jmp, set_op_match}
use librxvm.Stack.{IrStack, create_stack}
use librxvm.Token.{Token}
use librxvm.Lfix.{Lfix}
use librxvm.Rxvm.{Compiled, MatchFlags, match_string}
use librxvm.Rxvm.Match.{Answers}
use librxvm.Vmcode.{
  code_match, stack_add_inst_head, code_alt, attach_dangling_alt, stack_cat_from_item,
}
use librxvm.Vmcode.Closed.{IsClosed}
use librxvm.Vmcode.Keeps.{IsCode}
use librxvm.Stage1.Operator.{generate}
use librxvm.Stage2.{copy_items, copy_list, stage2, optimise_chains}
use librxvm.Stage2.Jumps.{IsForward}
use librxvm.Stage2.Same.{SameRuns, optimise_chains-SameRuns}
use librxvm.Stage2.Finishes.{Finished, copy_items-IsForward, stage2-Finished}
use librxvm.Vm.Spec.{Accepts}
use librxvm.Code.Runs.{Place, Means}
use librxvm.Code.Relations.{SameRel, Or}
use librxvm.Code.Generate.{GeneratesRepeat, Allows, generate-Repeats}
use librxvm.Code.Alternation.{alternatives-Or}
use librxvm.Code.Accepts.{Consumes, copied-Accepts}
use librxvm.Compile.Refines.{Spans, stage2-Spans}

abbrev a_char : List Inst
a_char = set_op_char b'a' ∷ []

abbrev b_char : List Inst
b_char = set_op_char b'b' ∷ []

char-IsClosed : (c : ℕ) → IsClosed (set_op_char c ∷ [])
unfolding set_op_char
char-IsClosed c = ((tt, tt), (tt, tt))

abbrev fresh_lfix : Lfix
fresh_lfix = record { ltemp0 = 0; ltempn = 0; lfix0 = 0; lfixn = 0; lfixs = false }

generate-Repeats_example :
    GeneratesRepeat create_stack a_char
      (Allows Token.zero [])
      (generate Token.zero [] create_stack a_char 1 false fresh_lfix)
generate-Repeats_example =
    generate-Repeats create_stack a_char (char-IsClosed b'a') Token.zero [] false fresh_lfix tt

create-IsCode : IsCode create_stack
unfolding create_stack
create-IsCode = record { size_eq = refl; lands = tt; ahead = tt; dangles = λ i e. grind arith }

-- a|b
alternatives-Or_example :
    SameRel
      (Means false true
        (attach_dangling_alt
          (stack_cat_from_item (code_alt create_stack a_char false).0 b_char)).items)
      (Or
        (Means false true (attach_dangling_alt (stack_cat_from_item create_stack a_char)).items)
        (Means false true b_char))
alternatives-Or_example =
    alternatives-Or create_stack a_char create-IsCode (char-IsClosed b'a') b_char
      (char-IsClosed b'b') false false true

copied-Accepts_example :
    Accepts (copy_items 0 (a_char ++ set_op_match ∷ [])) false true 0 true 0 (b'a' ∷ []) 1 ↔ (
      (q : Place) × Means false true a_char (record { first = true; last = 0; rest = b'a' ∷ [] }) q
      × Consumes (record { first = true; last = 0; rest = b'a' ∷ [] }) 1 q)
copied-Accepts_example = copied-Accepts a_char (char-IsClosed b'a') false true true 0 (b'a' ∷ []) 1

-- Two jumps in a row.
abbrev chain : IrStack
chain = record {
  items = set_op_jmp (pos 1) ∷ set_op_jmp (pos 1) ∷ [];
  dangling_alt = none;
  size = 2;
  dsize = 1;
}

chain-IsCode : IsCode chain
unfolding set_op_jmp
chain-IsCode = record {
  size_eq = refl;
  lands = (omega arith, (omega arith, tt));
  ahead = (inr tt, (inr tt, tt));
  dangles = λ i e. grind arith;
}

abbrev chained : Program
chained = copy_items 0 (code_match chain).items

optimise_chains-SameRuns_example :
    (out : Program) × (optimise_chains chained ≡ done out)
    × IsForward out
    × (length out ≡ length chained)
    × SameRuns out chained
optimise_chains-SameRuns_example =
    optimise_chains-SameRuns chained (copy_items-IsForward chain chain-IsCode refl)

stage2-Finished_example : Finished (code_match chain) (stage2 (code_match chain))
stage2-Finished_example = stage2-Finished chain (code_match chain) chain-IsCode refl refl refl

-- The code of a+.
abbrev looped : IrStack
looped = record {
  items = set_op_char b'a' ∷ set_op_branch (negsuc 0) (pos 1) ∷ [];
  dangling_alt = none;
  size = 2;
  dsize = 0;
}

looped-IsCode : IsCode looped
unfolding set_op_char set_op_branch
looped-IsCode = record {
  size_eq = refl;
  lands = (tt, ((omega arith, omega arith), tt));
  ahead = (inr tt, (inr tt, tt));
  dangles = λ i e. grind arith;
}

abbrev one_or_more : Compiled
one_or_more = record {
  exe = copy_items 0 (code_match looped).items;
  simple = none;
  lfix = none;
  lfix0 = 0;
  lfixn = 0;
}

looped-runs : stage2 (code_match looped) ≡ done one_or_more.exe
unfolding stage2 copy_list copy_items code_match stack_add_inst_head
looped-runs = refl

abbrev no_flags : MatchFlags
no_flags = record { icase = false; nongreedy = false; multiline = false }

stage2-Spans_example :
    Answers
      (Spans false looped.items (b'a' ∷ b'a' ∷ []))
      (match_string (λ n. true) one_or_more (b'a' ∷ b'a' ∷ []) no_flags)
stage2-Spans_example =
    stage2-Spans looped (code_match looped) one_or_more (λ n. true) (b'a' ∷ b'a' ∷ []) no_flags
      looped-IsCode refl refl refl looped-runs refl (omega arith) refl
