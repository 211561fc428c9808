-- ===== src/Samples/Stage.antt =====
-- Runs of the first stage that show where it goes wrong.
use librxvm.Prelude.{◌≡◌, refl, true, false, [], ◌∷◌, done, fault, ℕ, Bool, Outcome}
use librxvm.Err.{Result, ok}
use librxvm.Stack.{create_stack, stack_add_head, stack_cat, stack_reset}
use librxvm.Inst.{set_op_char, set_op_branch, set_op_class, set_op_match}
use librxvm.Lex.{
  lex, lex_init, loop, step, start_step, literal_step, range_step, rep_step, trans, trans_rep,
  lex_end, finish, isreserved,
}
use librxvm.Lfix.{
  Lfix, lfix_zero, lfix_stop, lfix_continue, lfix_start, lfix_update_longest, lfix_longest,
  lfix_current, lfix_set_longest, set_ltempn,
}
use librxvm.Strb.{strb_init, strb_addc}
use librxvm.Vmcode.{
  stack_add_inst_head, stack_cat_from_item, stack_dupe_from_item, attach_dangling_alt, dupe_times,
  optional_copies, code_rep_range, code_ccs, code_match,
}
use librxvm.Stage1.Context.{Globals, stage1_init}
use librxvm.Stage1.Operator.{parse_rep, process_op_rep, generate}
use librxvm.Stage1.Main.{
  split_operand, apply_op, apply_behind, process_items, process_op, flush_closed, add_single,
  open_paren, close_paren, other_token, stage1_main_state,
}
use librxvm.Stage1.Charc.{add_class_char, close_class, stage1_charc_state}
use librxvm.Stage1.Whole.{
  Staging, prefix_round, next_round, literal_prefix, stage1_step, after_step, stage1_loop,
  flush_last, stage1_finish, stage1_end, stage1_rest, stage1, backlog_loop, compile_simple_backlog,
}

abbrev fresh_lfix : Lfix
fresh_lfix = record { ltemp0 = 0; ltempn = 0; lfix0 = 0; lfixn = 0; lfixs = false }

abbrev fresh : Globals
fresh = record {
  lexer = record { literal = false; newline_seen = false; lp1 = 0; lpn = 0 };
  lfix = fresh_lfix;
  is_nchar = false;
}

-- `cp->buf` is the empty group, and the operand is in the shared buffer: ()x[a]*
walks_off : stage1 (b'(' ∷ b')' ∷ b'x' ∷ b'[' ∷ b'a' ∷ b']' ∷ b'*' ∷ []) fresh ≡ fault
unfolding stage1 stage1_init create_stack lfix_zero lex_init literal_prefix prefix_round lex loop
    step start_step literal_step range_step rep_step trans trans_rep lex_end finish isreserved
    stage1_rest stage1_loop stage1_step after_step next_round stage1_end stage1_main_state
    process_op process_items apply_behind split_operand apply_op flush_closed other_token open_paren
    close_paren add_single stage1_charc_state add_class_char close_class code_ccs strb_init
    strb_addc lfix_stop lfix_continue lfix_start lfix_update_longest lfix_longest lfix_current
    lfix_set_longest stack_cat stack_reset stack_add_head stack_add_inst_head attach_dangling_alt
    set_op_char set_op_class
walks_off = refl

abbrev left_negated : Outcome (Result Staging × Globals) → Bool
left_negated (done (r, g)) = g.is_nchar
left_negated _ = false

-- [^
stays_negated : left_negated (stage1 (b'[' ∷ b'^' ∷ []) fresh) ≡ true
unfolding stage1 stage1_init create_stack lfix_zero lex_init literal_prefix prefix_round lex loop
    step start_step literal_step range_step rep_step trans trans_rep lex_end finish isreserved
    stage1_rest stage1_loop stage1_step after_step next_round stage1_end stage1_main_state
    flush_closed other_token stage1_charc_state add_class_char strb_init lfix_stop
    lfix_update_longest lfix_longest lfix_current lfix_set_longest stage1_finish flush_last
stays_negated = refl

abbrev fixed_end : Outcome (Result Staging × Globals) → ℕ
fixed_end (done (ok s, g)) = s.lfixn
fixed_end _ = 0

-- In ab{0,2} the optional b is part of the fixed substring.
keeps_optional : fixed_end (stage1 (b'a' ∷ b'b' ∷ b'{' ∷ b'0' ∷ b',' ∷ b'2' ∷ b'}' ∷ []) fresh) ≡ 1
unfolding stage1 stage1_init create_stack lfix_zero lex_init literal_prefix prefix_round lex loop
    step start_step literal_step range_step rep_step trans trans_rep lex_end finish isreserved
    stage1_rest stage1_loop stage1_step after_step next_round stage1_end stage1_main_state
    process_op process_items apply_behind split_operand apply_op generate process_op_rep parse_rep
    code_rep_range optional_copies dupe_times stack_dupe_from_item stack_cat_from_item stack_reset
    stack_cat stack_add_head stack_add_inst_head set_op_char set_op_branch set_op_match lfix_stop
    lfix_update_longest lfix_longest lfix_current lfix_set_longest set_ltempn compile_simple_backlog
    backlog_loop stage1_finish flush_last attach_dangling_alt code_match
keeps_optional = refl
