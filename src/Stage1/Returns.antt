-- ===== src/Stage1/Returns.antt =====
-- What the first stage returns is closed code with the match instruction behind it.
use librxvm.Prelude.{
  ℕ, zero, suc, ◌+◌, ◌≡◌, refl, sym, inl, inr, false, List, [], ◌∷◌, none, some, Option, arith,
  length, ◌==◌, Bool-cases, take, Outcome, done, fault, out_of_fuel,
}
use mathlib.Core.Path.{subst}
use librxvm.Inst.{set_op_char}
use librxvm.Stack.{IrStack, create_stack}
use librxvm.Token.{Token}
use librxvm.Lex.{token, lex, lex_init}
use librxvm.Vmcode.{stack_add_inst_head}
use librxvm.Vmcode.Keeps.{IsCode}
use librxvm.Stage1.Context.{Globals, Context, stack_at, stage1_init}
use librxvm.Stage1.Whole.{
  first_newline, Prefix, backlog_loop, compile_simple_backlog, stage1_loop, with_backlog,
  stage1_rest, stage1, set_lexer,
}
use librxvm.Stage1.Plain.{PlainOf, IsPlain}
use librxvm.Stage1.Store.{at}
use librxvm.Stage1.Keeps.{create-IsCode}
use librxvm.Stage1.Compiles.{IsKept}
use librxvm.Stage1.Tokens.{IsReady, Ready-IsKept, Extends, add-Extends, extend-IsReady}
use librxvm.Stage1.Rounds.{IsRound, loop-KeepsLast}
use librxvm.Stage1.Ends.{ReturnsCode, end-ReturnsCode}

char-PlainOf : (c : ℕ) → PlainOf (set_op_char c) (set_op_char c).op
unfolding set_op_char
char-PlainOf c = tt

char-Extends :
    (t u : IrStack) (c : ℕ)
    → IsCode t
    → IsPlain t.items
    → (IsCode (stack_add_inst_head t (set_op_char c))
        → IsPlain (stack_add_inst_head t (set_op_char c)).items
        → Extends (stack_add_inst_head t (set_op_char c)) u)
    → Extends t u
char-Extends t u c tc tp rest =
    let (ac, ad, ap) = add-Extends t (set_op_char c) tc tp (char-PlainOf c) in
    let (uc, ud, up) = rest ac ap in (uc, λ d. ud (ad d), up)

backlog-Extends :
    (text : List ℕ) (i delimit fixtemp : ℕ) (t : IrStack)
    → IsCode t
    → IsPlain t.items
    → Extends t (backlog_loop text i delimit fixtemp t).3
unfolding backlog_loop
backlog-Extends [] i d f t c p = (c, λ e. e, p)
backlog-Extends (x ∷ []) i d f t c p = add-Extends t (set_op_char x) c p (char-PlainOf x)
backlog-Extends (x ∷ y ∷ text) i d f t c p = elim (Bool-cases (x == b'\\')) [
  | inl escape ↦
      rw (escape, backlog_loop)
        (char-Extends t _ y c p (λ ac ap.
          backlog-Extends text (i + 2) (d + 1) (first_newline y (i + 1) (d + 1) f)
            (stack_add_inst_head t (set_op_char y)) ac ap))
  | inr other ↦
      rw (other, backlog_loop)
        (char-Extends t _ x c p (λ ac ap.
          backlog-Extends (y ∷ text) (i + 1) d (first_newline x i d f)
            (stack_add_inst_head t (set_op_char x)) ac ap))
]

backlog-IsReady :
    (orig : List ℕ) (simple : ℕ) (cp : Context)
    → IsReady cp
    → IsReady (compile_simple_backlog orig simple cp)
unfolding compile_simple_backlog
backlog-IsReady orig simple cp (h, p) =
    extend-IsReady cp.store cp.parens cp.target cp.buf cp.buf _ h
      (backlog-Extends (take simple orig) 0 0 0 (stack_at cp cp.buf) (h.codes cp.buf) p) h.apart p

create-codes : (i : ℕ) → IsCode (at (create_stack ∷ create_stack ∷ []) i)
create-codes zero = create-IsCode
create-codes (suc zero) = create-IsCode
create-codes (suc (suc i)) = create-IsCode

init-IsReady : (g : Globals) → IsReady (stage1_init g)
unfolding stage1_init create_stack
init-IsReady g = (
  record {
    codes = create-codes;
    open_parens = (refl, omega arith);
    base_plain = tt;
    base_done = refl;
    buf_done = refl;
    buf_below = omega arith;
    apart = λ e. omega (arith, e);
    place = inl refl;
  },
  tt,
)

begin-IsRound :
    (cp : Context)
    → IsReady cp
    → cp.lasttok ≡ Token.charc_open
    → cp.charc ≡ false
    → IsRound cp.lasttok cp
begin-IsRound cp r l c = (
  subst (λ v. IsKept v cp) (sym l) (Ready-IsKept Token.charc_open cp refl r),
  λ e. absurd (grind arith),
)

backlog-IsRound :
    (orig : List ℕ) (simple : Option ℕ) (cp : Context)
    → IsReady cp
    → cp.lasttok ≡ Token.charc_open
    → cp.charc ≡ false
    → IsRound (with_backlog orig simple cp).lasttok (with_backlog orig simple cp)
unfolding with_backlog compile_simple_backlog
backlog-IsRound orig none cp r l c = begin-IsRound cp r l c
backlog-IsRound orig (some i) cp r l c =
    begin-IsRound (compile_simple_backlog orig i cp) (backlog-IsReady orig i cp r) l c

module _ (orig : List ℕ) where
  rest-ReturnsCode :
      (cp : Context) (o : Outcome Prefix)
      → IsReady cp
      → cp.lasttok ≡ Token.charc_open
      → cp.charc ≡ false
      → ReturnsCode orig (stage1_rest orig cp o)
  unfolding stage1_rest
  rest-ReturnsCode cp fault r l c = tt
  rest-ReturnsCode cp out_of_fuel r l c = tt
  rest-ReturnsCode cp (done (token Token.end, i, simple, lex)) r l c = tt
  rest-ReturnsCode cp (done (tok, i, simple, lex)) r l c =
      let cp' : Context = with_backlog orig simple (set_lexer lex cp) in
      end-ReturnsCode orig (stage1_loop orig (length orig + 2) tok i cp') (
        loop-KeepsLast orig (length orig + 2) tok i cp'
          (backlog-IsRound orig simple (set_lexer lex cp) r l c))

  -- Whenever the first stage returns a list, its instructions are closed code with no open jump and
  -- the match instruction behind it, and its size is the number of all of them.
  pub stage1-ReturnsCode : (g : Globals) → ReturnsCode orig (stage1 orig g)
  unfolding stage1 stage1_init
  stage1-ReturnsCode g =
      let g' : Globals = record g { lexer = lex_init g.lexer } in
      rest-ReturnsCode (stage1_init g') _ (init-IsReady g') refl refl
