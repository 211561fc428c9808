-- ===== src/Stage1/Rounds.antt =====
-- Every round of the first stage keeps its lists in order.
use librxvm.Prelude.{
  ℕ, zero, suc, ◌≡◌, refl, sym, ◌∙◌, inl, inr, Bool, true, false, List, [], ◌∷◌, arith, ◌==◌,
  Bool-cases, Outcome, done, fault, out_of_fuel,
}
use librxvm.Token.{Token}
use librxvm.Lex.{Lexed, token, error, Lexer}
use librxvm.Lfix.{lfix_stop}
use librxvm.Stage1.Context.{Context, Staged, going, failed, base, is_rparen, set_lfix}
use librxvm.Stage1.Main.{
  close_paren, cat_base, flush_closed, close_any, other_token, stage1_main_state,
}
use librxvm.Stage1.Charc.{stage1_charc_state}
use librxvm.Stage1.Whole.{stage1_step, next_round, after_step, stage1_loop, set_lexer}
use librxvm.Stage1.Compiles.{IsKept, KeepsStore}
use librxvm.Stage1.Tokens.{IsReady}
use librxvm.Stage1.Closes.{main-KeepsStore, charc-KeepsStore}

-- A class is not open behind a closing parenthesis.
abbrev pub IsOff : Token → Outcome Staged → Type 0
IsOff tok (done (going cp)) = cp.charc ≡ true → is_rparen tok ≡ false
IsOff tok _ = Unit {0}

abbrev pub IsRound : Token → Context → Type 0
IsRound tok cp = IsKept tok cp × (cp.charc ≡ true → is_rparen tok ≡ false)

not-rparen-IsOff : (tok : Token) (o : Outcome Staged) → is_rparen tok ≡ false → IsOff tok o
not-rparen-IsOff tok (done (going cp)) e = λ c. e
not-rparen-IsOff tok (done (failed x cp)) e = tt
not-rparen-IsOff tok fault e = tt
not-rparen-IsOff tok out_of_fuel e = tt

module _ (orig : List ℕ) where
  flush-charc : (cp : Context) → (flush_closed orig cp).charc ≡ cp.charc
  unfolding flush_closed
  flush-charc cp = ground arith

  close-IsOff :
      (parens : List ℕ) (cp : Context)
      → cp.charc ≡ false
      → IsOff Token.rparen (done (close_any orig parens cp))
  unfolding close_any close_paren cat_base
  close-IsOff [] cp e = tt
  close-IsOff (cur ∷ parens) cp e = elim (Bool-cases (cur == base)) [
    | inl b ↦ rw b tt
    | inr b ↦ rw b (λ c. sym c ∙ e)
  ]

  main-IsOff :
      (tok : Token) (cp : Context) → cp.charc ≡ false → IsOff tok (stage1_main_state orig tok cp)
  unfolding stage1_main_state other_token
  main-IsOff Token.rparen cp e =
      let cp' : Context = set_lfix lfix_stop (flush_closed orig cp) in
      close-IsOff cp'.parens cp' (flush-charc cp ∙ e)
  main-IsOff tok cp e = not-rparen-IsOff tok (stage1_main_state orig tok cp) refl

  charc-IsOff : (tok : Token) (cp : Context) → IsOff tok (stage1_charc_state orig tok cp)
  unfolding stage1_charc_state
  charc-IsOff Token.rparen cp = tt
  charc-IsOff tok cp = not-rparen-IsOff tok (stage1_charc_state orig tok cp) refl

  -- One token of the loop, in either state.
  abbrev KeepsRound : Token → Outcome Staged → Type 0
  KeepsRound tok (done (going cp)) = IsRound tok cp
  KeepsRound tok _ = Unit {0}

  both-KeepsRound :
      (tok : Token) (o : Outcome Staged) → KeepsStore tok o → IsOff tok o → KeepsRound tok o
  both-KeepsRound tok (done (going cp)) k f = (k, f)
  both-KeepsRound tok (done (failed e cp)) k f = tt
  both-KeepsRound tok fault k f = tt
  both-KeepsRound tok out_of_fuel k f = tt

  Round-IsReady : (tok : Token) (cp : Context) → IsRound tok cp → cp.charc ≡ true → IsReady cp
  Round-IsReady tok cp ((h, b), f) c = elim b.whole [
    | inl p ↦ (h, p)
    | inr (e, w) ↦ absurd (grind (arith, f c))
  ]

  step-KeepsRound :
      (charc : Bool) (tok : Token) (cp : Context)
      → IsRound cp.lasttok cp
      → cp.charc ≡ charc
      → KeepsRound tok (stage1_step orig charc tok cp)
  unfolding stage1_step
  step-KeepsRound true tok cp r c =
      both-KeepsRound tok _ (charc-KeepsStore orig tok cp (Round-IsReady cp.lasttok cp r c))
        (charc-IsOff tok cp)
  step-KeepsRound false tok cp r c =
      both-KeepsRound tok _ (main-KeepsStore orig tok cp r.0) (main-IsOff tok cp c)

  abbrev pub KeepsLast : Outcome Staged → Type 0
  KeepsLast (done (going cp)) = IsKept cp.lasttok cp
  KeepsLast _ = Unit {0}

  next-KeepsLast :
      (loop : Lexed → ℕ → Context → Outcome Staged) (tok : Token) (cp : Context)
      (o : Outcome (Lexed × ℕ × Lexer))
      → IsRound tok cp
      → ((t : Lexed) (i : ℕ) (cp' : Context) → IsRound cp'.lasttok cp' → KeepsLast (loop t i cp'))
      → KeepsLast (next_round loop tok cp o)
  unfolding next_round
  next-KeepsLast loop tok cp fault r rec = tt
  next-KeepsLast loop tok cp out_of_fuel r rec = tt
  next-KeepsLast loop tok cp (done (token Token.end, i, l)) r rec = r.0
  next-KeepsLast loop tok cp (done (next, i, l)) r rec =
      rec next i (set_lexer l (record cp { lasttok = tok })) r

  after-KeepsLast :
      (loop : Lexed → ℕ → Context → Outcome Staged) (tok : Token) (input : ℕ) (o : Outcome Staged)
      → KeepsRound tok o
      → ((t : Lexed) (i : ℕ) (cp' : Context) → IsRound cp'.lasttok cp' → KeepsLast (loop t i cp'))
      → KeepsLast (after_step orig loop tok input o)
  unfolding after_step
  after-KeepsLast loop tok input fault r rec = tt
  after-KeepsLast loop tok input out_of_fuel r rec = tt
  after-KeepsLast loop tok input (done (failed e cp)) r rec = tt
  after-KeepsLast loop tok input (done (going cp)) r rec = next-KeepsLast loop tok cp _ r rec

  pub loop-KeepsLast :
      (fuel : ℕ) (tok : Lexed) (input : ℕ) (cp : Context)
      → IsRound cp.lasttok cp
      → KeepsLast (stage1_loop orig fuel tok input cp)
  unfolding stage1_loop
  loop-KeepsLast zero tok input cp r = tt
  loop-KeepsLast (suc fuel) (error e) input cp r = tt
  loop-KeepsLast (suc fuel) (token tok) input cp r =
      after-KeepsLast (stage1_loop orig fuel) tok input (stage1_step orig cp.charc tok cp)
        (step-KeepsRound cp.charc tok cp r refl) (λ t i cp' r'. loop-KeepsLast fuel t i cp' r')
