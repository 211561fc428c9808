-- ===== src/Gen/Ends.antt =====
-- Once its text has reached the limit, `rxvm_gen` of librxvm/randinput.c comes to an end.
use librxvm.Prelude.{
  ℕ, zero, suc, ◌+◌, ◌-◌, ◌%◌, ◌≤◌, ◌<◌, ◌≡◌, refl, inl, inr, Bool, true, false, Bool-cases, some,
  List, ◌∷◌, Outcome, done, fault, out_of_fuel, arith, get_elem?, get_elem?-some, length, leb,
}
use librxvm.Prelude.Int.{ℤ, pos}
use librxvm.Inst.{Op, char, any, class, nclass, branch, jmp, sol, eol, match, Inst, Program}
use librxvm.Err.{Result, ok, err}
use librxvm.Strb.{Strb, strb_addc, enlarge_buf}
use librxvm.Vm.Spec.{HasClass}
use librxvm.Gen.{
  GenConfig, Generating, rand_range, choice, any_char, gen_add, gen_newline, goto, gen_op, gen_loop,
  is_match,
}
use librxvm.Gen.Nchar.{mod_below, find_nchar-Outside}

-- What an instruction of a program of `n` needs for a run that takes the second target of each branch
-- to come to the end.
abbrev pub ExitsOf : ℕ → ℕ → Inst → Op → Type 0
ExitsOf n i inst branch = (j : ℕ) × (inst.y ≡ pos j) × (i < j) × (j < n)
ExitsOf n i inst jmp = (j : ℕ) × (inst.x ≡ pos j) × (i < j) × (j < n)
ExitsOf n i inst class = (i + 1 < n) × ((c : ℕ) × (ccs : List ℕ) × (inst.ccs ≡ some (c ∷ ccs)))
ExitsOf n i inst nclass = (i + 1 < n) × HasClass inst
ExitsOf n i inst match = Unit {0}
ExitsOf n i inst _ = i + 1 < n

abbrev pub IsExiting : Program → Type 0
IsExiting exe =
    (i : ℕ) (inst : Inst) → get_elem? exe i ≡ some inst → ExitsOf (length exe) i inst inst.op

abbrev Grows : Strb → Result Strb → Type 0
Grows strb (err e) = Unit {0}
Grows strb (ok strb') = strb.size ≤ strb'.size

strb_addc-Grows : (alloc : ℕ → Bool) (strb : Strb) (c : ℕ) → Grows strb (strb_addc alloc strb c)
unfolding strb_addc enlarge_buf
strb_addc-Grows alloc strb c = ground arith

-- One instruction leads on, inside the program, and the text never shrinks.
abbrev Moves : ℕ → Generating → Result Generating → Type 0
Moves n st (err e) = Unit {0}
Moves n st (ok st') = (st.ip < st'.ip) × (st'.ip < n) × (st.strb.size ≤ st'.strb.size)

abbrev OpMoves : ℕ → Generating → Outcome (Result Generating) → Type 0
OpMoves n st (done r) = Moves n st r
OpMoves n st _ = ⊥

class_index : (n a : ℕ) → 0 + a % (suc n - 1 - 0 + 1) < suc n
class_index n a =
    let last : suc n - 1 - 0 ≡ n = omega arith in rw last (omega (arith, mod_below a n))

module _ (alloc : ℕ → Bool) (n : ℕ) (st : Generating) where
  added-Moves :
      (calls : ℕ) (r : Result Strb)
      → st.ip + 1 < n
      → Grows st.strb r
      → Moves n st (elim r as (λ x. Result Generating) [
        | err e ↦ err e
        | ok strb ↦ ok (record { ip = st.ip + 1; strb = strb; calls = calls })
      ])
  added-Moves calls (err e) lt g = tt
  added-Moves calls (ok strb) lt g = (omega arith, lt, g)

  gen_add-Moves : (c calls : ℕ) → st.ip + 1 < n → Moves n st (gen_add alloc st c calls)
  unfolding gen_add
  gen_add-Moves c calls lt =
      added-Moves calls (strb_addc alloc st.strb c) lt (strb_addc-Grows alloc st.strb c)

  gen_newline-Moves : (b : Bool) → st.ip + 1 < n → Moves n st (gen_newline alloc st b)
  unfolding gen_newline
  gen_newline-Moves true lt = gen_add-Moves b'\n' st.calls lt
  gen_newline-Moves false lt = (omega arith, lt, omega arith)

  goto-Moves :
      (x : ℤ) (calls : ℕ)
      → (j : ℕ) × (x ≡ pos j) × (st.ip < j) × (j < n)
      → OpMoves n st (goto st x calls)
  goto-Moves x calls (j, e, lt, below) = rw (OpMoves, e) (lt, below, omega arith)

module _ (rand : ℕ → ℕ) (alloc : ℕ → Bool) (exe : Program) (cfg : GenConfig) (inst : Inst)
    (st : Generating) where
  -- With probability 0 the second target is taken.
  branch-Moves :
      ExitsOf (length exe) st.ip inst branch
      → cfg.limit ≤ st.strb.size
      → OpMoves (length exe) st (gen_op rand alloc exe cfg st inst branch)
  unfolding gen_op
  branch-Moves h full =
      let at_limit : leb cfg.limit st.strb.size ≡ true = ground arith in
      let second : choice rand st.calls 0 ≡ false = ground arith in
      rw (OpMoves, gen_op, at_limit, second)
        (goto-Moves alloc (length exe) st inst.y (st.calls + 1) h)

  eol-Moves :
      st.ip + 1 < length exe → OpMoves (length exe) st (gen_op rand alloc exe cfg st inst eol)
  unfolding gen_op
  eol-Moves lt =
      let (next, e) = get_elem?-some exe (st.ip + 1) lt in
      rw (OpMoves, gen_op, e) (gen_newline-Moves alloc (length exe) st _ lt)

  class-Moves :
      ExitsOf (length exe) st.ip inst class
      → OpMoves (length exe) st (gen_op rand alloc exe cfg st inst class)
  unfolding gen_op
  class-Moves (lt, (c, ccs, e)) =
      let below : rand_range rand st.calls 0 (length (c ∷ ccs) - 1) < length (c ∷ ccs) =
        class_index (length ccs) (rand st.calls) in
      let (d, f) =
        get_elem?-some (c ∷ ccs) (rand_range rand st.calls 0 (length (c ∷ ccs) - 1)) below in
      rw (OpMoves, gen_op, e, f) (gen_add-Moves alloc (length exe) st d (st.calls + 1) lt)

  nclass-Moves :
      ExitsOf (length exe) st.ip inst nclass
      → OpMoves (length exe) st (gen_op rand alloc exe cfg st inst nclass)
  unfolding gen_op
  nclass-Moves (lt, (ccs, e)) =
      let (c, f, o) = find_nchar-Outside rand st.calls ccs in
      rw (OpMoves, gen_op, e, f) (gen_add-Moves alloc (length exe) st c (st.calls + 1) lt)

  gen_op-Moves :
      (op : Op)
      → ExitsOf (length exe) st.ip inst op
      → is_match op ≡ false
      → cfg.limit ≤ st.strb.size
      → OpMoves (length exe) st (gen_op rand alloc exe cfg st inst op)
  unfolding gen_op
  gen_op-Moves char h m full = gen_add-Moves alloc (length exe) st inst.c st.calls h
  gen_op-Moves any h m full =
      gen_add-Moves alloc (length exe) st (any_char rand st.calls cfg.whitespace) (st.calls + 2) h
  gen_op-Moves class h m full = class-Moves h
  gen_op-Moves nclass h m full = nclass-Moves h
  gen_op-Moves branch h m full = branch-Moves h full
  gen_op-Moves jmp h m full = goto-Moves alloc (length exe) st inst.x st.calls h
  gen_op-Moves sol h m full = gen_newline-Moves alloc (length exe) st _ h
  gen_op-Moves eol h m full = eol-Moves h
  gen_op-Moves match h m full = absurd (cc)

-- The call returns.
abbrev pub Returns : Outcome (Result Generating) → Type 0
Returns o = (r : Result Generating) × (o ≡ done r)

module _ (rand : ℕ → ℕ) (alloc : ℕ → Bool) (exe : Program) (cfg : GenConfig)
    (exits : IsExiting exe) where
  after-Returns :
      (st : Generating) (loop : Generating → Outcome (Result Generating))
      (o : Outcome (Result Generating))
      → OpMoves (length exe) st o
      → ((st' : Generating) → Moves (length exe) st (ok st') → Returns (loop st'))
      → Returns (elim o as (λ x. Outcome (Result Generating)) [
        | fault ↦ fault
        | out_of_fuel ↦ out_of_fuel
        | done (err e) ↦ done (err e)
        | done (ok st') ↦ loop st'
      ])
  after-Returns st loop (done (ok st')) m f = f st' m
  after-Returns st loop (done (err e)) m f = (err e, refl)
  after-Returns st loop fault m f = elim m [ ]
  after-Returns st loop out_of_fuel m f = elim m [ ]

  -- For a program in which every jump, and the second target of every branch, leads forward, no other
  -- instruction than a match is the last, and no class is empty: from a place inside the program, and
  -- with a text that has reached the limit, the loop of `rxvm_gen` returns once it has as many rounds
  -- as there are instructions from there on, whatever `rand` returns, with no access outside the
  -- program or a class.
  pub gen_loop-Returns :
      (fuel : ℕ) (st : Generating)
      → st.ip < length exe
      → cfg.limit ≤ st.strb.size
      → length exe ≤ st.ip + fuel
      → Returns (gen_loop rand alloc fuel exe cfg st)
  unfolding gen_loop
  gen_loop-Returns zero st lt full enough = absurd (omega arith)
  gen_loop-Returns (suc fuel) st lt full enough =
      let (inst, e) = get_elem?-some exe st.ip lt in
      elim (Bool-cases (is_match inst.op)) [
        | inl m ↦ rw (Returns, gen_loop, e, m) (ok st, refl)
        | inr m ↦
            rw (Returns, gen_loop, e, m)
              (after-Returns st (gen_loop rand alloc fuel exe cfg)
                (gen_op rand alloc exe cfg st inst inst.op)
                (gen_op-Moves rand alloc exe cfg inst st inst.op (exits st.ip inst e) m full)
                (λ st' (ahead, below, grows).
                  gen_loop-Returns fuel st' below (omega (arith, full, grows))
                    (omega (arith, ahead, enough))))
      ]
