-- ===== src/Stage1/Closes.antt =====
-- The lists of the first stage are closed code behind every token, and so is the code that it returns.
use librxvm.Prelude.{
  ℕ, zero, suc, ◌+◌, ◌%◌, ◌≡◌, refl, sym, inl, inr, Bool, true, false, not, ◌&&◌, List, [], ◌∷◌,
  arith, get_or, ◌==◌, ltb, leb, if◌then◌else◌, Bool-cases, done,
}
use librxvm.Inst.{
  Inst, set_op_char, set_op_any, set_op_sol, set_op_eol, set_op_class, set_op_nclass,
}
use librxvm.Err.{Result, ok, err}
use librxvm.Strb.{Strb, strb_init, strb_addc}
use librxvm.Lfix.{lfix_stop, lfix_continue}
use librxvm.Stack.{IrStack}
use librxvm.Token.{Token}
use librxvm.Vmcode.{code_ccs}
use librxvm.Vmcode.Keeps.{IsCode}
use librxvm.Stage1.Context.{Context, going, failed, base, is_rparen, stack_at, set_lfix, set_nchar}
use librxvm.Stage1.Main.{
  flush_closed, add_single, open_paren, close_any, other_token, stage1_main_state, is_op,
}
use librxvm.Stage1.Charc.{
  with_strb, add_class_char, expand_loop, signed_order, close_class, expand_char_range,
  stage1_charc_state,
}
use librxvm.Stage1.Plain.{IsPlain, PlainOf}
use librxvm.Stage1.Keeps.{target-base}
use librxvm.Stage1.Compiles.{IsKept, KeepsStore, process-KeepsStore}
use librxvm.Stage1.Tokens.{
  IsReady, Ready-IsKept, flush-IsReady, single-IsReady, open-IsReady, close-IsKept, Extends,
  add-Extends, extend-IsReady,
}

if-IsReady : (b : Bool) (x y : Context) → IsReady x → IsReady y → IsReady (if b then x else y)
if-IsReady true x y h g = h
if-IsReady false x y h g = g

module _ (orig : List ℕ) where
  rparen-KeepsStore :
      (cp : Context) (parens : List ℕ)
      → IsReady cp
      → cp.parens ≡ parens
      → KeepsStore Token.rparen (done (close_any orig parens cp))
  unfolding close_any
  rparen-KeepsStore cp [] r e = tt
  rparen-KeepsStore cp (cur ∷ parens) r e = elim (Bool-cases (cur == base)) [
    | inl b ↦ rw b tt
    | inr b ↦ rw b (close-IsKept orig cur parens cp r e (ground arith))
  ]

  single-KeepsStore :
      (tok : Token) (cp : Context) (inst : Inst)
      → is_rparen tok ≡ false
      → IsReady cp
      → PlainOf inst inst.op
      → KeepsStore tok (done (going (add_single orig inst cp)))
  single-KeepsStore tok cp inst nr r p =
      Ready-IsKept tok (add_single orig inst cp) nr (single-IsReady orig cp inst r p)

  other-KeepsStore :
      (tok : Token) (cp : Context) → IsReady cp → KeepsStore tok (done (other_token orig tok cp))
  unfolding other_token set_op_char set_op_any set_op_sol set_op_eol strb_init
  other-KeepsStore Token.literal cp r =
      let cp' : Context =
        if not cp.globals.lexer.newline_seen && cp.depth == 0
        then set_lfix (lfix_continue cp.globals.lexer.lp1) cp
        else cp in
      single-KeepsStore Token.literal cp' (set_op_char (get_or orig cp.globals.lexer.lp1 0)) refl
        (if-IsReady (not cp.globals.lexer.newline_seen && cp.depth == 0)
          (set_lfix (lfix_continue cp.globals.lexer.lp1) cp) cp r r)
        tt
  other-KeepsStore Token.any cp r =
      single-KeepsStore Token.any (set_lfix lfix_stop cp) set_op_any refl r tt
  other-KeepsStore Token.sol cp r =
      single-KeepsStore Token.sol (set_lfix lfix_stop cp) set_op_sol refl r tt
  other-KeepsStore Token.eol cp r =
      single-KeepsStore Token.eol (set_lfix lfix_stop cp) set_op_eol refl r tt
  other-KeepsStore Token.lparen cp r =
      let cp' : Context = open_paren orig (set_lfix lfix_stop cp) in
      Ready-IsKept Token.lparen cp' refl (open-IsReady orig (set_lfix lfix_stop cp) r)
  other-KeepsStore Token.rparen cp r = rparen-KeepsStore (set_lfix lfix_stop cp) cp.parens r refl
  other-KeepsStore Token.charc_close cp r = tt
  other-KeepsStore Token.charc_open cp r = Ready-IsKept Token.charc_open cp refl r
  other-KeepsStore Token.char_range cp r = Ready-IsKept Token.char_range cp refl r
  other-KeepsStore Token.one cp r = Ready-IsKept Token.one cp refl r
  other-KeepsStore Token.zero cp r = Ready-IsKept Token.zero cp refl r
  other-KeepsStore Token.onezero cp r = Ready-IsKept Token.onezero cp refl r
  other-KeepsStore Token.alt cp r = Ready-IsKept Token.alt cp refl r
  other-KeepsStore Token.rep cp r = Ready-IsKept Token.rep cp refl r
  other-KeepsStore Token.invalidsym cp r = Ready-IsKept Token.invalidsym cp refl r
  other-KeepsStore Token.end cp r = Ready-IsKept Token.end cp refl r

  op-not-rparen : (tok : Token) → is_op tok ≡ true → is_rparen tok ≡ false
  op-not-rparen Token.rparen e = absurd (grind arith)
  op-not-rparen _ e = refl

  pub main-KeepsStore :
      (tok : Token) (cp : Context)
      → IsKept cp.lasttok cp
      → KeepsStore tok (stage1_main_state orig tok cp)
  unfolding stage1_main_state
  main-KeepsStore tok cp k = elim (Bool-cases (is_op tok)) [
    | inl op ↦ rw op (process-KeepsStore orig tok (op-not-rparen tok op) cp k)
    | inr other ↦ rw other (other-KeepsStore tok (flush_closed orig cp) (flush-IsReady orig cp k))
  ]

  -- A class is added to the shared buffer; what a class reads goes to no list.
  strb-IsReady : (cp : Context) (r : Result Strb) → IsReady cp → IsReady (with_strb cp r)
  strb-IsReady cp (ok strb) h = h
  strb-IsReady cp (err e) h = h

  added-KeepsStore :
      (fuel rlo rhi : ℕ) (cp : Context) (r : Result Strb)
      → ((strb : Strb)
          → KeepsStore Token.char_range (expand_loop fuel rlo rhi (record cp { strb = strb })))
      → KeepsStore Token.char_range (elim r [
        | ok strb ↦ expand_loop fuel rlo rhi (record cp { strb = strb })
        | err e ↦ done (failed e cp)
      ])
  added-KeepsStore fuel rlo rhi cp (ok strb) h = h strb
  added-KeepsStore fuel rlo rhi cp (err e) h = tt

  expand-KeepsStore :
      (fuel rlo rhi : ℕ) (cp : Context)
      → IsReady cp
      → KeepsStore Token.char_range (expand_loop fuel rlo rhi cp)
  unfolding expand_loop
  expand-KeepsStore zero rlo rhi cp h = tt
  expand-KeepsStore (suc fuel) rlo rhi cp h =
      elim (Bool-cases (leb (signed_order rlo) (signed_order rhi))) [
        | inr more ↦ rw (more, expand_loop) (Ready-IsKept Token.char_range cp refl h)
        | inl in_range ↦
            rw (in_range, expand_loop)
              (added-KeepsStore fuel ((rlo + 1) % 256) rhi cp (strb_addc (λ n. true) cp.strb rlo)
                (λ strb.
                  expand-KeepsStore fuel ((rlo + 1) % 256) rhi (record cp { strb = strb }) h))
      ]

  ordered-KeepsStore :
      (a b : ℕ) (cp : Context)
      → IsReady cp
      → KeepsStore Token.char_range (
          if ltb (signed_order b) (signed_order a)
          then expand_loop 257 b a cp
          else expand_loop 257 a b cp)
  ordered-KeepsStore a b cp h = elim (Bool-cases (ltb (signed_order b) (signed_order a))) [
    | inl lt ↦ rw lt (expand-KeepsStore 257 b a cp h)
    | inr ge ↦ rw ge (expand-KeepsStore 257 a b cp h)
  ]

  range-KeepsStore :
      (cp : Context) → IsReady cp → KeepsStore Token.char_range (expand_char_range orig cp)
  unfolding expand_char_range
  range-KeepsStore cp h = ordered-KeepsStore (get_or orig cp.globals.lexer.lp1 0) _ cp h

  ccs-Extends :
      (t : IrStack) (text : List ℕ) (nchar : Bool)
      → IsCode t
      → IsPlain t.items
      → Extends t (code_ccs t text nchar)
  unfolding code_ccs set_op_class set_op_nclass
  ccs-Extends t [] nchar c p = (c, λ d. d, p)
  ccs-Extends t (x ∷ text) true c p = add-Extends t (set_op_nclass (x ∷ text)) c p (x ∷ text, refl)
  ccs-Extends t (x ∷ text) false c p = add-Extends t (set_op_class (x ∷ text)) c p (x ∷ text, refl)

  class-IsReady : (cp : Context) → IsReady cp → IsReady (close_class cp)
  unfolding close_class
  class-IsReady cp (h, p) = elim (Bool-cases (cp.strb.size == 0)) [
    | inl z ↦ rw z (h, p)
    | inr nz ↦ rw nz (
        extend-IsReady cp.store cp.parens cp.target cp.buf base _ h
          (ccs-Extends (stack_at cp base) cp.strb.buf cp.globals.is_nchar (h.codes base)
            h.base_plain)
          (λ e. target-base cp.store cp.parens cp.target cp.buf h (sym e)) p)
  ]

  pub charc-KeepsStore :
      (tok : Token) (cp : Context) → IsReady cp → KeepsStore tok (stage1_charc_state orig tok cp)
  unfolding stage1_charc_state add_class_char
  charc-KeepsStore Token.literal cp r =
      let c : ℕ = get_or orig cp.globals.lexer.lp1 0 in
      elim (Bool-cases (c == b'^' && not cp.globals.is_nchar)) [
        | inl caret ↦ rw caret (Ready-IsKept Token.literal (set_nchar true cp) refl r)
        | inr other ↦
            let added : Context = with_strb cp (strb_addc (λ n. true) cp.strb c) in
            rw other (
              Ready-IsKept Token.literal added refl
                (strb-IsReady cp (strb_addc (λ n. true) cp.strb c) r))
      ]
  charc-KeepsStore Token.char_range cp r = range-KeepsStore cp r
  charc-KeepsStore Token.charc_close cp r =
      Ready-IsKept Token.charc_close (close_class cp) refl (class-IsReady cp r)
  charc-KeepsStore _ cp r = tt
