-- ===== src/Vm/Reach.antt =====
-- Accepting a text, in terms of the threads that one pass over the queue reaches.
use mathlib.Core.Path.{subst₂}
use librxvm.Prelude.{ℕ, suc, ◌≡◌, refl, sym, ◌⊎◌, inl, inr, Bool, true, false, List, ◌∷◌}
use librxvm.Inst.{Program}
use librxvm.Vm.{Threads, is_sol, is_eol}
use librxvm.Vm.Spec.{Eps, Reads, IsMatch, Accepts, halt, move, eat, at_sol, at_eol}
use librxvm.Vm.Queue.{marked}
use librxvm.Vm.Run.{Closure, Reached}

-- Follow a thread as far as it goes without reading: it stays in any closed set `R`, and comes to a
-- match or to a read.
abbrev pub Stops : (exe : Program) (R : ℕ → Type 0) (icase multiline : Bool) → List ℕ → ℕ → Type 0
Stops exe R icase multiline s k =
    ((i : ℕ) × R i × IsMatch exe i × (k ≡ 0))
    ⊎ ((x : ℕ) × (s' : List ℕ) × (k' i j : ℕ) × (s ≡ x ∷ s')
        × (k ≡ suc k')
        × R i
        × Reads exe icase x i j
        × Accepts exe icase multiline j false x s' k')

follow :
    {exe : Program} {icase multiline : Bool} (R : ℕ → Type 0) {i : ℕ} {first : Bool} {last : ℕ}
    {s : List ℕ} {k : ℕ}
    → Accepts exe icase multiline i first last s k
    → ((i j : ℕ) → R i → Eps exe (at_sol multiline first last) (at_eol multiline s) i j → R j)
    → R i
    → Stops exe R icase multiline s k
follow R (halt {i} m e) closed r = inl (i, r, m, e)
follow R (move {i} {j} e a) closed r = follow R a closed (closed i j r e)
follow R (eat {i} {j} {c = c} {s = s} {k = k} rd a) closed r =
    inr (c, s, k, i, j, refl, refl, r, rd, a)

module _ (exe : Program) (tm : Threads) (c : ℕ) (first : Bool) (last : ℕ) (s : List ℕ)
    (sol_eq : is_sol tm ≡ at_sol tm.flags.multiline first last)
    (eol_eq : is_eol tm c ≡ at_eol tm.flags.multiline s) where
  abbrev pub Here : ℕ → ℕ → Type 0
  Here i = Accepts exe tm.flags.icase tm.flags.multiline i first last s

  -- Some queued thread accepts.
  abbrev pub Queued : ℕ → Type 0
  Queued k = (v : ℕ) × (marked tm.cp v ≡ true) × Here v k

  here-Eps :
      {i j : ℕ}
      → Eps exe (at_sol tm.flags.multiline first last) (at_eol tm.flags.multiline s) i j
      → Eps exe (is_sol tm) (is_eol tm c) i j
  here-Eps {i} {j} h = subst₂ (λ a b. Eps exe a b i j) (sym sol_eq) (sym eol_eq) h

  Eps-here :
      {i j : ℕ}
      → Eps exe (is_sol tm) (is_eol tm c) i j
      → Eps exe (at_sol tm.flags.multiline first last) (at_eol tm.flags.multiline s) i j
  Eps-here {i} {j} h = subst₂ (λ a b. Eps exe a b i j) sol_eq eol_eq h

  -- What a reached thread accepts, a queued one accepts.
  pub Reached-Queued : {i k : ℕ} → Reached exe c tm i → Here i k → Queued k
  Reached-Queued (Closure.seed {i} m) a = (i, m, a)
  Reached-Queued (Closure.step h e) a = Reached-Queued h (move (Eps-here e) a)

  abbrev pub Splits : ℕ → Type 0
  Splits k = Stops exe (Reached exe c tm) tm.flags.icase tm.flags.multiline s k

  -- A queued thread that accepts leads to a match here, or to a read.
  pub Queued-Splits : {k : ℕ} → Queued k → Splits k
  Queued-Splits (v, m, a) =
      follow (Reached exe c tm) a (λ i j r e. Closure.step r (here-Eps e)) (Closure.seed m)
