-- ===== src/Samples/Compile.antt =====
-- The parts of the compiler at concrete inputs.
use librxvm.Prelude.{◌≡◌, refl, ◌≤◌, ◌<◌, ◌⊎◌, false, [], ◌∷◌, none, done, List, ℕ, arith}
use librxvm.Prelude.Int.{pos, negsuc}
use librxvm.Inst.{Inst, set_op_char, set_op_branch}
use librxvm.Stack.{IrStack, create_stack}
use librxvm.Token.{Token}
use librxvm.Lex.{Lexed, token, Lexer, lex, at}
use librxvm.Lex.Progress.{IsError, lex-progress}
use librxvm.Lfix.{Lfix}
use librxvm.Vmcode.Closed.{IsClosed}
use librxvm.Vmcode.Keeps.{IsCode}
use librxvm.Stage1.Operator.{generate}
use librxvm.Stage1.Rep.{GeneratesCode, generate-KeepsCode}
use librxvm.Stage1.Context.{Globals}
use librxvm.Stage1.Whole.{stage1}
use librxvm.Stage1.StepHalts.{Halts}
use librxvm.Stage1.Halts.{stage1-Halts}

-- a{2,}
abbrev repeated : List ℕ
repeated = b'a' ∷ b'{' ∷ b'2' ∷ b',' ∷ b'}' ∷ []

abbrev fresh_lexer : Lexer
fresh_lexer = record { literal = false; newline_seen = false; lp1 = 0; lpn = 0 }

lex-progress_example :
    (r : Lexed × ℕ × Lexer) × (lex repeated 1 fresh_lexer ≡ done r)
    × (1 ≤ r.1)
    × (r.1 ≤ 5)
    × (((at repeated 1 ≡ 0) × (r.0 ≡ token Token.end)) ⊎ (IsError r.0 ⊎ (1 < r.1)))
lex-progress_example = lex-progress repeated 1 fresh_lexer (omega arith)

abbrev one_char : List Inst
one_char = set_op_char b'a' ∷ []

abbrev fresh_lfix : Lfix
fresh_lfix = record { ltemp0 = 0; ltempn = 0; lfix0 = 0; lfixn = 0; lfixs = false }

empty-IsCode : IsCode create_stack
unfolding create_stack
empty-IsCode = record { size_eq = refl; lands = tt; ahead = tt; dangles = λ i e. grind arith }

one_char-IsClosed : IsClosed one_char
unfolding set_op_char
one_char-IsClosed = ((tt, tt), (tt, tt))

generate-KeepsCode_example :
    GeneratesCode (generate Token.rep (b'2' ∷ b',' ∷ []) create_stack one_char 1 false fresh_lfix)
generate-KeepsCode_example =
    generate-KeepsCode create_stack one_char empty-IsCode one_char-IsClosed 1 refl Token.rep
      (b'2' ∷ b',' ∷ []) false fresh_lfix

-- The code of a+.
abbrev looped : IrStack
looped = record {
  items = set_op_char b'a' ∷ set_op_branch (negsuc 0) (pos 1) ∷ [];
  dangling_alt = none;
  size = 2;
  dsize = 0;
}

abbrev fresh : Globals
fresh = record { lexer = fresh_lexer; lfix = fresh_lfix; is_nchar = false }

stage1-Halts_example : Halts (stage1 repeated fresh)
stage1-Halts_example =
    stage1-Halts repeated
      (
        omega arith,
        omega arith,
        (
          omega arith,
          omega arith,
          (omega arith, omega arith, (omega arith, omega arith, (omega arith, omega arith, tt))),
        ),
      )
      fresh
