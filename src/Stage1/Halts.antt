-- ===== src/Stage1/Halts.antt =====
-- The first stage always ends.
use librxvm.Prelude.{
  ℕ, zero, suc, ◌+◌, ◌≤◌, ◌<◌, ◌≡◌, ◌≢◌, ◌⊎◌, inl, inr, List, Option, none, some, Outcome, done,
  fault, out_of_fuel, length, arith,
}
use librxvm.Token.{Token}
use librxvm.Stage1.Context.{stage1_init, Globals, Context, Staged, going, failed}
use librxvm.Lex.{Lexed, token, error, Lexer, lex_init, at}
use librxvm.Lex.Progress.{IsError, lex-progress}
use librxvm.Stage1.Whole.{
  Prefix, prefix_round, literal_prefix, stage1_step, next_round, after_step, stage1_rest,
  stage1_end, with_backlog, set_lexer, stage1_loop, stage1,
}
use librxvm.Stage1.Main.{}
use librxvm.Stage1.StepHalts.{Halts, NoDel, step-Halts}

-- What the lexer's result says of the index behind it.
abbrev Lexes : List ℕ → ℕ → (Lexed × ℕ × Lexer) → Type 0
Lexes orig input r =
    (r.1 ≤ length orig)
    × (((at orig input ≡ 0) × (r.0 ≡ token Token.end)) ⊎ (IsError r.0 ⊎ (input < r.1)))

-- The first loop ends, with the index behind the token inside the expression.
abbrev PrefixEnds : List ℕ → Outcome Prefix → Type 0
PrefixEnds orig (done (t, i, simple, l)) = i ≤ length orig
PrefixEnds orig fault = Unit {0}
PrefixEnds orig out_of_fuel = ⊥

prefix_round-Ends :
    (orig : List ℕ) (input : ℕ) (simple : Option ℕ) (loop : ℕ → Option ℕ → Lexer → Outcome Prefix)
    (r : Lexed × ℕ × Lexer)
    → Lexes orig input r
    → ((i : ℕ) (simple' : Option ℕ) (l' : Lexer)
        → input < i
        → i ≤ length orig
        → PrefixEnds orig (loop i simple' l'))
    → PrefixEnds orig (prefix_round loop simple (done r))
unfolding prefix_round
prefix_round-Ends orig input simple loop (token Token.literal, i, l) (le, m) h = elim m [
  | inl (z, e) ↦ absurd (grind arith)
  | inr (inl er) ↦ absurd er
  | inr (inr lt) ↦ h i (some i) l lt le
]
prefix_round-Ends orig input simple loop (_, i, l) m h = m.0

-- A literal takes a character at least.
prefix-Ends :
    (orig : List ℕ) (fuel input : ℕ) (simple : Option ℕ) (l : Lexer)
    → input ≤ length orig
    → length orig < input + fuel
    → PrefixEnds orig (literal_prefix orig fuel input simple l)
unfolding literal_prefix
prefix-Ends orig zero input simple l le lt = absurd (omega arith)
prefix-Ends orig (suc fuel) input simple l le lt =
    let (r, e, lo, hi, m) = lex-progress orig input l le in
    rw e (
      prefix_round-Ends orig input simple (literal_prefix orig fuel) r (hi, m)
        (λ i simple' l' lt' le'. prefix-Ends orig fuel i simple' l' le' (omega arith)))

module _ (orig : List ℕ) where
  -- The fuel is enough for a token with the index behind it.
  abbrev Enough : ℕ → Lexed → ℕ → Type 0
  Enough fuel (token t) input = length orig + 1 < input + fuel
  Enough fuel (error e) input = 0 < fuel

  round-Enough :
      (fuel input i : ℕ) (t : Lexed) (l : Lexer)
      → t ≢ token Token.end
      → input ≤ length orig
      → length orig + 1 < input + suc fuel
      → Lexes orig input (t, i, l)
      → Enough fuel t i
  round-Enough fuel input i (error e) l ne le lt m = omega arith
  round-Enough fuel input i (token t) l ne le lt (hi, m) = elim m [
    | inl (z, e) ↦ absurd (ne e)
    | inr (inl er) ↦ absurd er
    | inr (inr adv) ↦ omega arith
  ]

  next_round-Halts :
      (loop : Lexed → ℕ → Context → Outcome Staged) (tok : Token) (cp : Context)
      (r : Lexed × ℕ × Lexer)
      → (r.0 ≢ token Token.end → (cp' : Context) → Halts (loop r.0 r.1 cp'))
      → Halts (next_round loop tok cp (done r))
  unfolding next_round
  next_round-Halts loop tok cp (token Token.end, i, l) h = tt
  next_round-Halts loop tok cp (_, i, l) h = h (λ e. grind arith) _

  after_step-Halts :
      (loop : Lexed → ℕ → Context → Outcome Staged) (tok : Token) (input : ℕ) (o : Outcome Staged)
      → input ≤ length orig
      → Halts o
      → ((t : Lexed) (i : ℕ) (l : Lexer) (cp : Context)
          → t ≢ token Token.end
          → Lexes orig input (t, i, l)
          → Halts (loop t i cp))
      → Halts (after_step orig loop tok input o)
  unfolding after_step
  after_step-Halts loop tok input fault le h rec = tt
  after_step-Halts loop tok input out_of_fuel le h rec = elim h [ ]
  after_step-Halts loop tok input (done (failed e cp)) le h rec = tt
  after_step-Halts loop tok input (done (going cp)) le h rec =
      let (r, e, lo, hi, m) = lex-progress orig input cp.globals.lexer le in
      rw e (next_round-Halts loop tok cp r (λ ne cp'. rec r.0 r.1 r.2 cp' ne (hi, m)))

  module _ (below : NoDel orig) where
    loop-Halts :
        (fuel : ℕ) (tok : Lexed) (input : ℕ) (cp : Context)
        → input ≤ length orig
        → Enough fuel tok input
        → Halts (stage1_loop orig fuel tok input cp)
    unfolding stage1_loop
    loop-Halts zero (error e) input cp le lt = absurd (omega arith)
    loop-Halts zero (token tok) input cp le lt = absurd (omega arith)
    loop-Halts (suc fuel) (error e) input cp le lt = tt
    loop-Halts (suc fuel) (token tok) input cp le lt =
        after_step-Halts (stage1_loop orig fuel) tok input (stage1_step orig cp.charc tok cp) le
          (step-Halts orig cp.charc tok cp below)
          (λ t i l cp' ne m. loop-Halts fuel t i cp' m.0 (round-Enough fuel input i t l ne le lt m))

    end-Halts : (o : Outcome Staged) → Halts o → Halts (stage1_end orig o)
    unfolding stage1_end
    end-Halts fault h = tt
    end-Halts out_of_fuel h = elim h [ ]
    end-Halts (done (going cp)) h = tt
    end-Halts (done (failed e cp)) h = tt

    begin-Enough : (t : Lexed) (i : ℕ) → Enough (length orig + 2) t i
    begin-Enough (token t) i = omega arith
    begin-Enough (error e) i = omega arith

    rest-Halts :
        (cp : Context) (o : Outcome Prefix) → PrefixEnds orig o → Halts (stage1_rest orig cp o)
    unfolding stage1_rest
    rest-Halts cp fault h = tt
    rest-Halts cp out_of_fuel h = elim h [ ]
    rest-Halts cp (done (token Token.end, i, simple, l)) h = tt
    rest-Halts cp (done (t, i, simple, l)) h = end-Halts _ (
        loop-Halts (length orig + 2) t i (with_backlog orig simple (set_lexer l cp)) h
          (begin-Enough t i))

    -- On an expression with no DEL, the highest of the signed characters, the first stage always comes
    -- to an end: it returns, or it makes an access outside a list.
    pub stage1-Halts : (g : Globals) → Halts (stage1 orig g)
    unfolding stage1
    stage1-Halts g =
        let cp : Context = stage1_init (record g { lexer = lex_init g.lexer }) in
        rest-Halts cp _
          (prefix-Ends orig (length orig + 1) 0 none cp.globals.lexer (omega arith) (omega arith))
