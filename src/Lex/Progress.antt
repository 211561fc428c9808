-- ===== src/Lex/Progress.antt =====
-- The lexer ends, stays inside the string, and moves on unless it is at the end or reports an error.
use librxvm.Prelude.{
  ℕ, suc, ◌+◌, ◌-◌, ◌*◌, ◌≤◌, ◌<◌, ◌≡◌, ◌≢◌, refl, ap, ◌⊎◌, inl, inr, Bool, true, false, ◌||◌, List,
  [], ◌∷◌, ◌==◌, if◌then◌else◌, length, Outcome, done, arith, Bool-cases,
}
use Prim.Native.Nat.{zero}
use librxvm.Token.{Token}
use librxvm.Lex.{
  Lexed, token, error, Lexer, State, start, literal, range, rep, end, Scan, Step, go, return, trans,
  trans_rep, lex_end, set_literal, at, start_step, start_escape, literal_step, range_step, rep_step,
  step, is_end, finish, loop, fresh_scan, lex,
}

abbrev pub IsError : Lexed → Type 0
IsError (token t) = ⊥
IsError (error e) = Unit {0}

module _ (buf : List ℕ) (i0 : ℕ) where
  -- Where the input stands in each state, for a run that began at `i0`.
  abbrev Stands : Scan → State → Type 0
  Stands s start = s.input ≡ i0
  Stands s literal = (i0 ≤ s.input) × (at buf s.input ≢ 0)
  Stands s _ = i0 < s.input

  abbrev Good : Scan → Type 0
  Good s = (s.input ≤ length buf) × Stands s s.state

  abbrev weight : State → ℕ
  weight start = 1
  weight _ = 0

  -- The rounds that are left at most.
  abbrev measure : Scan → ℕ
  measure s = 2 * (length buf - s.input) + weight s.state

  abbrev StepOk : Scan → Step → Type 0
  StepOk s (go s') = Good s' × (measure s' < measure s)
  StepOk s (return ret s') = IsError ret × (i0 ≤ s'.input) × (s'.input ≤ length buf)

  StepOk-if :
      (s : Scan) (b : Bool) (x y : Step)
      → (b ≡ true → StepOk s x)
      → (b ≡ false → StepOk s y)
      → StepOk s (if b then x else y)
  StepOk-if s true x y h g = h refl
  StepOk-if s false x y h g = g refl

at-lt : (buf : List ℕ) (i : ℕ) → at buf i ≢ 0 → i < length buf
at-lt [] i h = absurd (h refl)
at-lt (c ∷ buf) zero h = omega arith
at-lt (c ∷ buf) (suc i) h = omega (arith, at-lt buf i h)

-- The scan stands at a character.
module _ (buf : List ℕ) (i0 : ℕ) (s : Scan) (nz : at buf s.input ≢ 0) where
  inside : s.input < length buf
  inside = at-lt buf s.input nz

  trans-StepOk : (tok : Lexed) → s.state ≡ start → s.input ≡ i0 → StepOk buf i0 s (go (trans tok s))
  unfolding trans
  trans-StepOk tok e f = ground (arith, inside)

  trans_rep-StepOk : s.state ≡ start → s.input ≡ i0 → StepOk buf i0 s (go (trans_rep s))
  unfolding trans_rep
  trans_rep-StepOk e f = ground (arith, inside)

  nonzero_next : (b : Bool) (i : ℕ) → (at buf i == 0) ≡ false → at buf i ≢ 0
  nonzero_next b i e = ground arith

  escape-StepOk : s.state ≡ start → s.input ≡ i0 → StepOk buf i0 s (start_escape buf s)
  unfolding start_escape
  escape-StepOk e f =
      StepOk-if buf i0 s (at buf (s.input + 1) == 0) _ _
        (λ z. (tt, omega (arith, inside), omega (arith, inside)))
        (λ z.
          let nz' = nonzero_next true (s.input + 1) z in
          let lt = at-lt buf (s.input + 1) nz' in ((omega arith, (omega arith, nz')), ground arith))

  opens-StepOk :
      s.state ≡ start
      → s.input ≡ i0
      → StepOk buf i0 s (
          go (
            if s.lexer.literal
            then trans (token Token.charc_open) s
            else set_literal true (trans (token Token.charc_open) s)))
  unfolding trans
  opens-StepOk e f = ground (arith, inside)

  start-StepOk :
      s.state ≡ start → s.input ≡ i0 → StepOk buf i0 s (start_step buf (at buf s.input) s)
  unfolding start_step lex_end trans trans_rep
  start-StepOk e f = ground (arith, inside, escape-StepOk e f)

  literal-StepOk :
      s.state ≡ literal → i0 ≤ s.input → StepOk buf i0 s (literal_step buf (at buf s.input) s)
  unfolding literal_step lex_end
  literal-StepOk e f = ground (arith, inside, at-lt buf (s.input + 1))

  range-StepOk :
      s.state ≡ range → i0 < s.input → StepOk buf i0 s (range_step buf (at buf s.input) s)
  unfolding range_step lex_end
  range-StepOk e f = ground (arith, inside, at-lt buf (s.input + 1))

  rep-StepOk : s.state ≡ rep → i0 < s.input → StepOk buf i0 s (rep_step buf (at buf s.input) s)
  unfolding rep_step
  rep-StepOk e f = ground (arith, inside)

  step-StepOk :
      (st : State)
      → s.state ≡ st
      → st ≢ end
      → Stands buf i0 s st
      → StepOk buf i0 s (step buf st (at buf s.input) s)
  unfolding step
  step-StepOk start e ne h = start-StepOk e h
  step-StepOk literal e ne h = literal-StepOk e h.0
  step-StepOk range e ne h = range-StepOk e h
  step-StepOk rep e ne h = rep-StepOk e h
  step-StepOk end e ne h = absurd (ne refl)

-- What a run of the lexer gives: an error, or a place behind the one that it began at.
abbrev pub Moves : List ℕ → ℕ → Outcome (Lexed × Scan) → Type 0
Moves buf i0 o =
    (r : Lexed × Scan) × (o ≡ done r)
    × (i0 ≤ r.1.input)
    × (r.1.input ≤ length buf)
    × (IsError r.0 ⊎ (i0 < r.1.input))

module _ (buf : List ℕ) (i0 : ℕ) (begins : at buf i0 ≢ 0) where
  stopped :
      (s : Scan) (st : State)
      → Stands buf i0 s st
      → (is_end st || at buf s.input == 0) ≡ true
      → i0 < s.input
  stopped s start h e = ground (arith, ap (at buf) h)
  stopped s literal h e = ground arith
  stopped s range h e = h
  stopped s rep h e = h
  stopped s end h e = h

  not-end : (st : State) (c : ℕ) → (is_end st || c == 0) ≡ false → (st ≢ end) × (c ≢ 0)
  not-end st c e = ground arith

  -- What follows one step.
  rest-Moves :
      (fuel : ℕ) (s : Scan) (st : Step)
      → (is_end s.state || at buf s.input == 0) ≡ false
      → step buf s.state (at buf s.input) s ≡ st
      → StepOk buf i0 s st
      → ((s' : Scan)
          → Good buf i0 s'
          → measure buf i0 s' < measure buf i0 s
          → Moves buf i0 (loop buf fuel s'))
      → Moves buf i0 (loop buf (suc fuel) s)
  unfolding loop
  rest-Moves fuel s (go s') f e (g, lt) rec =
      let (r, e', lo, hi, m) = rec s' g lt in (r, rw (f, loop, e) e', lo, hi, m)
  rest-Moves fuel s (return ret s') f e (er, lo, hi) rec =
      ((ret, s'), rw (f, loop, e), lo, hi, inl er)

  loop-Moves :
      (fuel : ℕ) (s : Scan)
      → measure buf i0 s < fuel
      → Good buf i0 s
      → Moves buf i0 (loop buf fuel s)
  unfolding loop finish
  loop-Moves zero s lt g = absurd (omega arith)
  loop-Moves (suc fuel) s lt g = elim (Bool-cases (is_end s.state || at buf s.input == 0)) [
    | inl stops ↦
        let ahead = stopped s s.state g.1 stops in
        (finish s, rw (stops, loop), omega arith, g.0, inr ahead)
    | inr goes ↦
        let (ne, nz) = not-end s.state (at buf s.input) goes in
        rest-Moves fuel s _ goes refl (step-StepOk buf i0 s nz s.state refl ne g.1)
          (λ s' g' lt'. loop-Moves fuel s' (omega arith) g')
  ]

-- The lexer always returns, with the input at an index of the string or at its end; it is behind
-- the index that it was called at unless that is the end of the string, where the token is `end`,
-- or the result is an error.
pub lex-progress :
    (buf : List ℕ) (input : ℕ) (l : Lexer)
    → input ≤ length buf
    → (r : Lexed × ℕ × Lexer) × (lex buf input l ≡ done r)
      × (input ≤ r.1)
      × (r.1 ≤ length buf)
      × (((at buf input ≡ 0) × (r.0 ≡ token Token.end)) ⊎ (IsError r.0 ⊎ (input < r.1)))
unfolding lex
lex-progress buf input l le = elim (Bool-cases (at buf input == 0)) [
  | inl z ↦ ((token Token.end, input, l), rw z, omega arith, le, inl (ground arith, refl))
  | inr nz ↦
      let begins : at buf input ≢ 0 = ground arith in
      let (r, e, lo, hi, m) =
        loop-Moves buf input begins (2 * length buf + 2) (fresh_scan input l) (omega arith)
          (le, refl) in
      ((r.0, r.1.input, r.1.lexer), rw (nz, lex, e), lo, hi, inr m)
]
