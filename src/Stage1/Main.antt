-- ===== src/Stage1/Main.antt =====
-- Tokens outside character classes: `process_op` and `stage1_main_state` of librxvm/stage1.c. `orig`
-- is the expression.
use librxvm.Prelude.{
  ℕ, ◌+◌, ◌-◌, ◌%◌, ◌^◌, Bool, true, false, not, ◌&&◌, List, [], ◌∷◌, ◌++◌, Option, none, some,
  Outcome, done, fault, ◌==◌, ltb, if◌then◌else◌, length, get_or, take, drop,
}
use librxvm.Inst.{Inst, set_op_char, set_op_any, set_op_sol, set_op_eol}
use librxvm.Err.{Result, ok, err, rxvm_badop, rxvm_badparen, rxvm_badclass}
use librxvm.Stack.{IrStack, create_stack, stack_cat, stack_reset}
use librxvm.Vmcode.{stack_add_inst_head, stack_cat_from_item, attach_dangling_alt}
use librxvm.Lfix.{lfix_stop, lfix_continue}
use librxvm.Strb.{strb_init}
use librxvm.Token.{Token}
use librxvm.Stage1.Context.{
  group, tail_item, Context, Staged, going, failed, base, stack_at, put_stack, set_lfix,
  parens_head, free_head, is_rparen,
}
use librxvm.Stage1.Operator.{Generated, generate}

-- `ISOP`.
abbrev pub is_op : Token → Bool
is_op Token.one = true
is_op Token.zero = true
is_op Token.onezero = true
is_op Token.alt = true
is_op Token.rep = true
is_op _ = false

abbrev pub is_alt : Token → Bool
is_alt Token.alt = true
is_alt _ = false

-- The walk from `cp->buf->tail` to `cp->operand`: the items before the operand, and those from it
-- on. A walk that does not come to the operand runs off the list.
unfoldable pub split_operand : ℕ → List Inst → Option (ℕ × ℕ) → Option (List Inst × List Inst)
split_operand buf items none = none
split_operand buf items (some (i, k)) =
    if i == buf && ltb k (length items) then some (take k items, drop k items) else none

module _ (orig : List ℕ) where
  -- What stands between `lp1 + 1` and `lpn - 1`.
  abbrev pub rep_text : Context → List ℕ
  rep_text cp =
      let lexer = cp.globals.lexer in take (lexer.lpn - lexer.lp1 - 2) (drop (lexer.lp1 + 1) orig)

  -- `process_op` behind its switch; `cp->buf` is reset, and freed with the parenthesis it is of.
  unfoldable pub finish_op : Token → Context → Result Generated → Outcome Staged
  unfolding stack_reset lfix_stop
  finish_op tok cp (err e) = done (failed e cp)
  finish_op tok cp (ok g) =
      let cp' : Context = put_stack cp.target g.target cp in
      let cp'' : Context = put_stack cp.buf (stack_reset (stack_at cp' cp.buf)) cp' in
      done (
        going (record cp'' {
          chained = g.chained;
          alt_seen = if is_alt tok && cp.depth == 0 then true else cp.alt_seen;
          globals = record (cp.globals) { lfix = lfix_stop g.lfix };
          parens = if is_rparen cp.lasttok then free_head cp.parens else cp.parens;
          buf = base;
        }))

  unfoldable pub apply_op : Token → List Inst → ℕ → Context → Outcome Staged
  unfolding generate finish_op
  apply_op tok operand size cp =
      finish_op tok cp
        (generate tok (rep_text cp) (stack_at cp cp.target) operand size cp.chained cp.globals.lfix)

  -- The items before the operand go to the target as they are.
  unfoldable pub apply_behind : Token → Context → Option (List Inst × List Inst) → Outcome Staged
  unfolding apply_op stack_cat_from_item
  apply_behind tok cp none = fault
  apply_behind tok cp (some (front, operand)) =
      let target : IrStack = stack_cat_from_item (stack_at cp cp.target) front in
      apply_op tok operand ((stack_at cp cp.buf).size - length front)
        (put_stack cp.target target cp)

  -- `process_op` on the items of `cp->buf`.
  unfoldable pub process_items : Token → Context → List Inst → Outcome Staged
  unfolding apply_op apply_behind split_operand
  process_items tok cp [] =
      if is_alt tok
      then apply_op tok [] (stack_at cp (parens_head cp.parens)).size cp
      else done (failed rxvm_badop cp)
  process_items tok cp (inst ∷ items) =
      apply_behind tok cp (split_operand cp.buf (inst ∷ items) cp.operand)

  unfoldable pub process_op : Token → Context → Outcome Staged
  unfolding process_items
  process_op tok cp = process_items tok cp (stack_at cp cp.buf).items

  -- A closed parenthesis with no operator behind it.
  unfoldable pub flush_closed : Context → Context
  unfolding stack_cat
  flush_closed cp =
      if is_rparen cp.lasttok && ltb 0 (stack_at cp cp.buf).size
      then record (put_stack cp.target (stack_cat (stack_at cp cp.target) (stack_at cp cp.buf))
          cp) { parens = free_head cp.parens; buf = base }
      else cp

  -- `single`.
  unfoldable pub add_single : Inst → Context → Context
  unfolding stack_add_inst_head
  add_single inst cp =
      record (put_stack cp.buf (stack_add_inst_head (stack_at cp cp.buf) inst) cp) {
        operand = some (cp.buf, length (stack_at cp cp.buf).items);
      }

  -- `stack_cat(cp->target, base)` and `stack_reset(base)`, with what is done to the target between.
  unfoldable pub cat_base : (IrStack → IrStack) → Context → Context
  unfolding stack_cat stack_reset
  cat_base f cp =
      let cp' : Context =
        put_stack cp.target (f (stack_cat (stack_at cp cp.target) (stack_at cp base))) cp in
      put_stack base (stack_reset (stack_at cp' base)) cp'

  -- LPAREN.
  unfoldable pub open_paren : Context → Context
  unfolding create_stack cat_base
  open_paren cp =
      let cp' : Context = cat_base (λ t. t) cp in
      let new : ℕ = length cp'.store in
      record cp' {
        store = cp'.store ++ create_stack ∷ [];
        parens = new ∷ cp'.parens;
        target = new;
        depth = (cp'.depth + 1) % 2 ^ 32;
      }

  -- RPAREN, with the list of the group and the lists behind it.
  unfoldable pub close_paren : ℕ → List ℕ → Context → Context
  unfolding cat_base attach_dangling_alt
  close_paren cur parens cp =
      let cp' : Context = cat_base attach_dangling_alt cp in
      record cp' {
        operand = tail_item cur (stack_at cp' cur).items;
        buf = cur;
        target = group parens;
        depth = (cp'.depth + 2 ^ 32 - 1) % 2 ^ 32;
      }

  -- RPAREN, with the list of open parentheses.
  unfoldable pub close_any : List ℕ → Context → Staged
  unfolding close_paren
  close_any [] cp = failed rxvm_badparen cp
  close_any (cur ∷ parens) cp =
      if cur == base then failed rxvm_badparen cp else going (close_paren cur parens cp)

  -- The switch of `stage1_main_state`, and LITERAL before it.
  unfoldable pub other_token : Token → Context → Staged
  unfolding open_paren close_any add_single lfix_stop lfix_continue strb_init
  other_token Token.literal cp =
      let lexer = cp.globals.lexer in
      let cp' : Context =
        if not lexer.newline_seen && cp.depth == 0
        then set_lfix (lfix_continue lexer.lp1) cp
        else cp in
      going (add_single (set_op_char (get_or orig lexer.lp1 0)) cp')
  other_token Token.any cp = going (add_single set_op_any (set_lfix lfix_stop cp))
  other_token Token.sol cp = going (add_single set_op_sol (set_lfix lfix_stop cp))
  other_token Token.eol cp = going (add_single set_op_eol (set_lfix lfix_stop cp))
  other_token Token.charc_open cp = elim (strb_init (λ n. true) false 0) [
    | ok strb ↦ going (record (set_lfix lfix_stop cp) { charc = true; strb = strb })
    | err e ↦ going (record (set_lfix lfix_stop cp) { charc = true })
  ]
  other_token Token.lparen cp = going (open_paren (set_lfix lfix_stop cp))
  other_token Token.rparen cp = close_any cp.parens (set_lfix lfix_stop cp)
  other_token Token.charc_close cp = failed rxvm_badclass (set_lfix lfix_stop cp)
  other_token _ cp = going (set_lfix lfix_stop cp)

  unfoldable pub stage1_main_state : Token → Context → Outcome Staged
  unfolding process_op flush_closed other_token
  stage1_main_state tok cp =
      if is_op tok then process_op tok cp else done (other_token tok (flush_closed cp))
