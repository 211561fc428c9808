-- ===== src/Stage1/Context.antt =====
-- The state of the first stage, librxvm/stage1.h: `context_t`, with the variables that outlive a call.
use librxvm.Prelude.{
  ℕ, Bool, true, false, List, [], ◌∷◌, Option, none, some, get_or, set, ◌==◌, if◌then◌else◌,
}
use librxvm.Inst.{Inst}
use librxvm.Prelude.Int.{ℤ}
use librxvm.Stack.{IrStack, create_stack}
use librxvm.Token.{Token}
use librxvm.Lex.{Lexer}
use librxvm.Lfix.{Lfix, lfix_zero}
use librxvm.Strb.{Strb}

-- The variables of lex.c and lfix.c, and `is_nchar` of `stage1_charc_state`. A call finds them as the
-- call before left them.
pub record Globals : Type 0 where
  pub lexer : Lexer
  pub lfix : Lfix
  pub is_nchar : Bool

-- Every `ir_stack_t` of instructions is in `store`, and a pointer to one is its index: 0 is
-- `cp->prog`, and 1 is the shared buffer, which `cp->parens->tail` holds. `parens` is the list
-- `cp->parens` from its head. `operand` is a pointer to an item: its list and its place in it.
-- `charc` tells that the state is STATE_CHARC.
pub record Context : Type 0 where
  pub store : List IrStack
  pub parens : List ℕ
  pub target : ℕ
  pub buf : ℕ
  pub operand : Option (ℕ × ℕ)
  pub strb : Strb
  pub lasttok : Token
  pub depth : ℕ
  pub chained : Bool
  pub charc : Bool
  pub alt_seen : Bool
  pub globals : Globals

-- An iteration of the loop: the context, and an error code where the call ends with one.
pub data Staged : Type 0 where
  going : Context → Staged
  failed : ℤ → Context → Staged

abbrev pub prog : ℕ
prog = 0

abbrev pub base : ℕ
base = 1

abbrev pub stack_at : Context → ℕ → IrStack
stack_at cp i = get_or cp.store i create_stack

abbrev pub put_stack : ℕ → IrStack → Context → Context
put_stack i stack cp = record cp { store = set cp.store i stack }

abbrev pub set_lfix : (Lfix → Lfix) → Context → Context
set_lfix f cp = record cp { globals = record (cp.globals) { lfix = f cp.globals.lfix } }

abbrev pub set_nchar : Bool → Context → Context
set_nchar b cp = record cp { globals = record (cp.globals) { is_nchar = b } }

abbrev pub parens_head : List ℕ → ℕ
parens_head [] = base
parens_head (i ∷ parens) = i

-- The list that code goes to where `parens` are open: `cp->prog` where only the shared buffer is.
abbrev pub group : List ℕ → ℕ
group [] = prog
group (g ∷ rest) = if g == base then prog else g

-- `cur->tail`, where `items` is the list `cur`.
abbrev pub tail_item : ℕ → List Inst → Option (ℕ × ℕ)
tail_item cur [] = none
tail_item cur (inst ∷ items) = some (cur, 0)

-- `stack_free_head(cp->parens)`.
abbrev pub free_head : List ℕ → List ℕ
free_head [] = []
free_head (i ∷ parens) = parens

abbrev pub is_rparen : Token → Bool
is_rparen Token.rparen = true
is_rparen _ = false

-- `stage1_init`, for which the store holds the two lists that it makes. The token of a context that
-- is filled with zeros is CHARC_OPEN.
unfoldable pub stage1_init : Globals → Context
unfolding create_stack lfix_zero
stage1_init g = record {
  store = create_stack ∷ create_stack ∷ [];
  parens = base ∷ [];
  target = prog;
  buf = base;
  operand = none;
  strb = record { size = 0; space = 0; buf = []; block_size = 0 };
  lasttok = Token.charc_open;
  depth = 0;
  chained = false;
  charc = false;
  alt_seen = false;
  globals = record g { lfix = lfix_zero g.lfix };
}
