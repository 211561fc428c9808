-- ===== src/Stage1/Charc.antt =====
-- Tokens inside a character class: `stage1_charc_state` of librxvm/stage1.c.
use librxvm.Prelude.{
  ℕ, zero, suc, ◌+◌, ◌%◌, true, false, not, ◌&&◌, List, some, Outcome, done, out_of_fuel, ◌==◌, ltb,
  leb, if◌then◌else◌, length, get_or,
}
use librxvm.Err.{Result, ok, err, rxvm_einval}
use librxvm.Vmcode.{code_ccs}
use librxvm.Strb.{Strb, strb_addc}
use librxvm.Token.{Token}
use librxvm.Stage1.Context.{Context, Staged, going, failed, base, stack_at, put_stack, set_nchar}

abbrev pub with_strb : Context → Result Strb → Context
with_strb cp (ok strb) = record cp { strb = strb }
with_strb cp (err e) = cp

-- `strb_addc` on `cp->strb`, whose result the code passes over here.
unfoldable pub add_class_char : ℕ → Context → Context
unfolding strb_addc
add_class_char c cp = with_strb cp (strb_addc (λ n. true) cp.strb c)

-- A plain `char` is signed: the characters from 128 on are negative, below the others.
abbrev pub signed_order : ℕ → ℕ
signed_order c = (c + 128) % 256

-- `while (rlo <= rhi)`: behind 127 a character wraps around to -128, which is 128 here.
unfoldable pub expand_loop : ℕ → ℕ → ℕ → Context → Outcome Staged
unfolding strb_addc
expand_loop zero rlo rhi cp = out_of_fuel
expand_loop (suc fuel) rlo rhi cp = elim (leb (signed_order rlo) (signed_order rhi)) [
  | false ↦ done (going cp)
  | true ↦ elim (strb_addc (λ n. true) cp.strb rlo) [
    | ok strb ↦ expand_loop fuel ((rlo + 1) % 256) rhi (record cp { strb = strb })
    | err e ↦ done (failed e cp)
  ]
]

-- The shared buffer gets the class; the string of `cp->strb` is the instruction's then.
unfoldable pub close_class : Context → Context
unfolding code_ccs
close_class cp =
    if cp.strb.size == 0
    then record (set_nchar false cp) { charc = false }
    else record (set_nchar false
        (put_stack base (code_ccs (stack_at cp base) cp.strb.buf cp.globals.is_nchar) cp)) {
          charc = false;
          operand = some (base, length (stack_at cp base).items);
        }

module _ (orig : List ℕ) where
  -- The two ends of the range, the lower one first.
  unfoldable pub expand_char_range : Context → Outcome Staged
  unfolding expand_loop
  expand_char_range cp =
      let lp1 : ℕ = cp.globals.lexer.lp1 in
      let first : ℕ = get_or orig lp1 0 in
      let tempn : ℕ =
        if get_or orig (lp1 + 2) 0 == b'\\'
        then get_or orig (lp1 + 3) 0
        else get_or orig (lp1 + 2) 0 in
      if ltb (signed_order tempn) (signed_order first)
      then expand_loop 257 tempn first cp
      else expand_loop 257 first tempn cp

  unfoldable pub stage1_charc_state : Token → Context → Outcome Staged
  unfolding expand_char_range close_class add_class_char
  stage1_charc_state Token.literal cp =
      let c : ℕ = get_or orig cp.globals.lexer.lp1 0 in
      if c == b'^' && not cp.globals.is_nchar
      then done (going (set_nchar true cp))
      else done (going (add_class_char c cp))
  stage1_charc_state Token.char_range cp = expand_char_range cp
  stage1_charc_state Token.charc_close cp = done (going (close_class cp))
  stage1_charc_state _ cp = done (failed rxvm_einval cp)
