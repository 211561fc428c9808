-- ===== src/Stage1/Whole.antt =====
-- The loop of the first stage: `stage1` of librxvm/stage1.c with the functions around it.
use librxvm.Prelude.{
  ℕ, zero, suc, ◌+◌, ◌-◌, ◌%◌, ◌^◌, Bool, true, false, not, ◌&&◌, List, [], ◌∷◌, Option, none, some,
  Outcome, done, fault, out_of_fuel, ◌==◌, ltb, if◌then◌else◌, length, take,
}
use librxvm.Err.{Result, ok, err, rxvm_eclass, rxvm_eparen}
use librxvm.Inst.{set_op_char}
use librxvm.Stack.{IrStack, stack_cat}
use librxvm.Vmcode.{stack_add_inst_head, attach_dangling_alt, code_match}
use librxvm.Lfix.{lfix_stop, set_ltempn}
use librxvm.Lex.{Lexed, token, error, Lexer, lex, lex_init}
use librxvm.Token.{Token}
use librxvm.Stage1.Context.{
  Globals, Context, Staged, going, failed, prog, base, stack_at, put_stack, set_lfix, free_head,
  is_rparen, stage1_init,
}
use librxvm.Stage1.Main.{stage1_main_state}
use librxvm.Stage1.Charc.{stage1_charc_state}

-- What a call returns: `*ret` and the fixed substring in `compiled`, or an error code.
pub record Staging : Type 0 where
  pub ir : Option IrStack
  pub lfix0 : ℕ
  pub lfixn : ℕ

-- `orig - cp->orig - 1 - delimit` at index `i`, as an unsigned number.
abbrev pub end_before : ℕ → ℕ → ℕ
end_before i delimit = (i + 2 ^ 32 - 1 - delimit) % 2 ^ 32

abbrev pub first_newline : ℕ → ℕ → ℕ → ℕ → ℕ
first_newline c i delimit fixtemp =
    if fixtemp == 0 && c == b'\n' then end_before i delimit else fixtemp

-- The loop of `compile_simple_backlog` at index `i`, with the numbers of escapes and the place of
-- the first newline, over what is left before `cp->simple`. An escape is not the last character.
unfoldable pub backlog_loop : List ℕ → ℕ → ℕ → ℕ → IrStack → ℕ × ℕ × ℕ × IrStack
unfolding stack_add_inst_head set_op_char
backlog_loop [] i delimit fixtemp buf = (i, delimit, fixtemp, buf)
backlog_loop (c ∷ []) i delimit fixtemp buf =
    (i + 1, delimit, first_newline c i delimit fixtemp, stack_add_inst_head buf (set_op_char c))
backlog_loop (c ∷ c' ∷ text) i delimit fixtemp buf = elim (c == b'\\') [
  | true ↦
      backlog_loop text (i + 2) (delimit + 1) (first_newline c' (i + 1) (delimit + 1) fixtemp)
        (stack_add_inst_head buf (set_op_char c'))
  | false ↦
      backlog_loop (c' ∷ text) (i + 1) delimit (first_newline c i delimit fixtemp)
        (stack_add_inst_head buf (set_op_char c))
]

-- `simple` is the index behind the last literal of the prefix.
unfoldable pub compile_simple_backlog : List ℕ → ℕ → Context → Context
unfolding backlog_loop set_ltempn
compile_simple_backlog orig simple cp =
    let (i, delimit, fixtemp, buf) = backlog_loop (take simple orig) 0 0 0 (stack_at cp cp.buf) in
    let val : ℕ = if fixtemp == 0 then end_before i delimit else fixtemp in
    record (set_lfix (set_ltempn val) (put_stack cp.buf buf cp)) {
      operand = elim buf.items [ [] ↦ none | inst ∷ items ↦ some (cp.buf, length items) ];
    }

-- `lfixn` of an expression of literals.
unfoldable pub check_simple_for_lfix : List ℕ → ℕ → ℕ → ℕ
check_simple_for_lfix [] i delimit = end_before i delimit
check_simple_for_lfix (c ∷ text) i delimit =
    let escape = check_simple_for_lfix text (i + 1) (delimit + 1) in
    let other = check_simple_for_lfix text (i + 1) delimit in
    if c == b'\\' then escape else if c == b'\n' then end_before i delimit else other

abbrev pub Prefix : Type 0
Prefix = Lexed × ℕ × Option ℕ × Lexer

-- A round of the first loop, which `loop` goes on with.
unfoldable pub prefix_round :
    (ℕ → Option ℕ → Lexer → Outcome Prefix)
    → Option ℕ
    → Outcome (Lexed × ℕ × Lexer)
    → Outcome Prefix
prefix_round loop simple fault = fault
prefix_round loop simple out_of_fuel = out_of_fuel
prefix_round loop simple (done (token Token.literal, input, l)) = loop input (some input) l
prefix_round loop simple (done (tok, input, l)) = done (tok, input, simple, l)

abbrev pub set_lexer : Lexer → Context → Context
set_lexer l cp = record cp { globals = record (cp.globals) { lexer = l } }

-- The end of a round of the `do` loop, after the token `tok`.
unfoldable pub next_round :
    (Lexed → ℕ → Context → Outcome Staged)
    → Token
    → Context
    → Outcome (Lexed × ℕ × Lexer)
    → Outcome Staged
next_round loop tok cp fault = fault
next_round loop tok cp out_of_fuel = out_of_fuel
next_round loop tok cp (done (token Token.end, input, l)) =
    done (going (set_lexer l (record cp { lasttok = tok })))
next_round loop tok cp (done (next, input, l)) =
    loop next input (set_lexer l (record cp { lasttok = tok }))

module _ (orig : List ℕ) where
  -- `while ((ctx.tok = lex(&input)) == LITERAL)`: the token that ends it, the index behind that, and
  -- `ctx.simple`.
  unfoldable pub literal_prefix : ℕ → ℕ → Option ℕ → Lexer → Outcome Prefix
  unfolding prefix_round
  literal_prefix zero input simple l = out_of_fuel
  literal_prefix (suc fuel) input simple l =
      prefix_round (literal_prefix fuel) simple (lex orig input l)

  -- The switch, where `charc` is the state.
  unfoldable pub stage1_step : Bool → Token → Context → Outcome Staged
  stage1_step true tok cp = stage1_charc_state orig tok cp
  stage1_step false tok cp = stage1_main_state orig tok cp

  unfoldable pub after_step :
      (Lexed → ℕ → Context → Outcome Staged) → Token → ℕ → Outcome Staged → Outcome Staged
  unfolding next_round
  after_step loop tok input fault = fault
  after_step loop tok input out_of_fuel = out_of_fuel
  after_step loop tok input (done (failed e cp)) = done (failed e cp)
  after_step loop tok input (done (going cp)) =
      next_round loop tok cp (lex orig input cp.globals.lexer)

  -- The `do` loop, with the token that it looks at and the index behind that.
  unfoldable pub stage1_loop : ℕ → Lexed → ℕ → Context → Outcome Staged
  unfolding stage1_step after_step
  stage1_loop zero tok input cp = out_of_fuel
  stage1_loop (suc fuel) (error e) input cp = done (failed e cp)
  stage1_loop (suc fuel) (token tok) input cp =
      after_step (stage1_loop fuel) tok input (stage1_step cp.charc tok cp)

  -- A parenthesis that is closed last.
  unfoldable pub flush_last : Context → Context
  flush_last cp =
      if is_rparen cp.lasttok && ltb 0 (stack_at cp cp.buf).size
      then record (put_stack prog (stack_cat (stack_at cp prog) (stack_at cp cp.buf)) cp) {
        parens = free_head cp.parens;
      }
      else cp

  abbrev pub is_single : List ℕ → Bool
  is_single (i ∷ []) = true
  is_single _ = false

  -- What is left in the shared buffer goes to the program, and the open jump to its end.
  unfoldable pub join_all : Context → Context
  unfolding lfix_stop stack_cat attach_dangling_alt
  join_all cp =
      let cp1 : Context = set_lfix lfix_stop cp in
      let cp2 : Context = put_stack prog (stack_cat (stack_at cp1 prog) (stack_at cp1 base)) cp1 in
      put_stack cp2.target (attach_dangling_alt (stack_at cp2 cp2.target)) cp2

  -- What is returned, with the match instruction added.
  unfoldable pub staging : Context → Staging
  unfolding code_match
  staging cp = record {
    ir = some (record (code_match (stack_at cp prog)) { dsize = if cp.chained then 1 else 0 });
    lfix0 = if cp.alt_seen then 0 else cp.globals.lfix.lfix0;
    lfixn = if cp.alt_seen then 0 else cp.globals.lfix.lfixn;
  }

  -- Behind the loop.
  unfoldable pub finish_flushed : Context → Result Staging × Globals
  unfolding join_all staging
  finish_flushed cp =
      if cp.charc
      then (err rxvm_eclass, cp.globals)
      else if not (is_single cp.parens)
      then (err rxvm_eparen, cp.globals)
      else (ok (staging (join_all cp)), (join_all cp).globals)

  unfoldable pub stage1_finish : Context → Result Staging × Globals
  unfolding flush_last finish_flushed
  stage1_finish cp = finish_flushed (flush_last cp)

  -- What follows the `do` loop.
  unfoldable pub stage1_end : Outcome Staged → Outcome (Result Staging × Globals)
  unfolding stage1_finish
  stage1_end fault = fault
  stage1_end out_of_fuel = out_of_fuel
  stage1_end (done (failed e cp)) = done (err e, cp.globals)
  stage1_end (done (going cp)) = done (stage1_finish cp)

  -- Where there was a literal, those read so far are compiled.
  unfoldable pub with_backlog : Option ℕ → Context → Context
  unfolding compile_simple_backlog
  with_backlog none cp = cp
  with_backlog (some simple) cp = compile_simple_backlog orig simple cp

  -- What follows the first loop. Each round of a loop reads at least one character, but for the one
  -- that ends it with an error.
  unfoldable pub stage1_rest : Context → Outcome Prefix → Outcome (Result Staging × Globals)
  unfolding stage1_loop stage1_end check_simple_for_lfix with_backlog
  stage1_rest cp fault = fault
  stage1_rest cp out_of_fuel = out_of_fuel
  stage1_rest cp (done (token Token.end, input, simple, l)) = done (
    ok (record { ir = none; lfix0 = 0; lfixn = check_simple_for_lfix orig 0 0 }),
    (set_lexer l cp).globals,
  )
  stage1_rest cp (done (tok, input, simple, l)) =
      stage1_end (stage1_loop (length orig + 2) tok input (with_backlog simple (set_lexer l cp)))

  unfoldable pub stage1 : Globals → Outcome (Result Staging × Globals)
  unfolding stage1_init literal_prefix stage1_rest lex_init
  stage1 g =
      let cp : Context = stage1_init (record g { lexer = lex_init g.lexer }) in
      stage1_rest cp (literal_prefix (length orig + 1) 0 none cp.globals.lexer)
