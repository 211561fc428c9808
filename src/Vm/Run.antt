-- ===== src/Vm/Run.antt =====
-- The loop of `vm_execute` over the threads of one character: it ends, stays inside the tables, and
-- runs exactly the indices that can be reached without reading.
use mathlib.Core.Path.{subst}
use mathlib.Core.Bool.{false≢true}
use librxvm.Prelude.{
  ℕ, ◌+◌, ◌≤◌, ◌<◌, ◌≡◌, refl, sym, ◌∙◌, ap, ◌⊎◌, inl, inr, Bool, true, false, some, arith, length,
  get_elem?, get_elem?-lt, some_inj,
}
use native.Mathlib.Decide.{dec_lt}
use librxvm.Inst.{Op, match, Inst, Program}
use librxvm.Vm.{Threads, is_sol, is_eol}
use librxvm.Vm.Spec.{EpsOf, ReadsOf, Eps, Reads, IsMatch}
use librxvm.Vm.Queue.{IsTable, marked}
use librxvm.Vm.Step.{Stepped}

-- What can be reached from `S` without reading.
pub data Closure (exe : Program) (s e : Bool) (S : ℕ → Type 0) : ℕ → Type 0 where
  seed : {i : ℕ} → S i → Closure exe s e S i
  step : {i j : ℕ} → Closure exe s e S i → Eps exe s e i j → Closure exe s e S j

-- The parts of the state that the loop leaves alone.
abbrev pub Frame : Threads → Threads → Type 0
Frame tm tm' = tm' ≡ record tm { cp = tm'.cp; np = tm'.np; match_end = tm'.match_end }

pub Frame-sol : (tm tm' : Threads) → Frame tm tm' → is_sol tm' ≡ is_sol tm
unfolding is_sol
Frame-sol tm tm' f = ap is_sol f

pub Frame-eol : (tm tm' : Threads) (c : ℕ) → Frame tm tm' → is_eol tm' c ≡ is_eol tm c
unfolding is_eol
Frame-eol tm tm' c f = ap (λ t. is_eol t c) f

module _ (exe : Program) (c : ℕ) (tm : Threads) where
  abbrev pub Reached : ℕ → Type 0
  Reached = Closure exe (is_sol tm) (is_eol tm c) (λ v. marked tm.cp v ≡ true)

  abbrev pub Read : ℕ → ℕ → Type 0
  Read = Reads exe tm.flags.icase c

  -- The first `t` threads have run, from the state `tm` to the state `now`.
  pub record Progress (t : ℕ) (now : Threads) : Type 0 where
    pub frame : Frame tm now
    pub cur : IsTable (length exe) now.cp
    pub next : IsTable (length exe) now.np
    pub bound : t ≤ length now.cp.list
    pub keep : (v : ℕ) → marked tm.cp v ≡ true → marked now.cp v ≡ true
    pub keep_next : (v : ℕ) → marked tm.np v ≡ true → marked now.np v ≡ true
    pub sound : (v : ℕ) → marked now.cp v ≡ true → Reached v
    pub sound_next :
        (v : ℕ)
        → marked now.np v ≡ true
        → (marked tm.np v ≡ true) ⊎ ((i : ℕ) × Reached i × Read i v)
    pub eps :
        (k i j : ℕ)
        → k < t
        → get_elem? now.cp.list k ≡ some i
        → Eps exe (is_sol tm) (is_eol tm c) i j
        → marked now.cp j ≡ true
    pub reads :
        (k i j : ℕ) → k < t → get_elem? now.cp.list k ≡ some i → Read i j → marked now.np j ≡ true
    pub hit :
        (k i : ℕ)
        → k < t
        → get_elem? now.cp.list k ≡ some i
        → IsMatch exe i
        → (now.match_end ≡ tm.chars) × (tm.flags.nongreedy ≡ false)
    pub miss :
        (now.match_end ≡ tm.match_end)
        ⊎ ((i : ℕ) × Reached i × IsMatch exe i × (now.match_end ≡ tm.chars))

  pub Progress-start : IsTable (length exe) tm.cp → IsTable (length exe) tm.np → Progress 0 tm
  Progress-start ic inx = record {
    frame = refl;
    cur = ic;
    next = inx;
    bound = omega arith;
    keep = λ v h. h;
    keep_next = λ v h. h;
    sound = λ v h. Closure.seed h;
    sound_next = λ v h. inl h;
    eps = λ k i j lt. absurd (omega arith);
    reads = λ k i j lt. absurd (omega arith);
    hit = λ k i lt. absurd (omega arith);
    miss = inl refl;
  }

-- The instruction at `ii` alone decides where its thread goes.
Eps-of :
    {exe : Program} {s e : Bool} {i j : ℕ} {inst : Inst}
    → Eps exe s e i j
    → get_elem? exe i ≡ some inst
    → EpsOf inst.op s e i inst j
Eps-of {s} {e} {i} {j} h at = subst (λ k. EpsOf k.op s e i k j) (some_inj (sym h.found ∙ at)) h.goes

Reads-of :
    {exe : Program} {ic : Bool} {c i j : ℕ} {inst : Inst}
    → Reads exe ic c i j
    → get_elem? exe i ≡ some inst
    → ReadsOf inst.op ic c i inst j
Reads-of {ic} {c} {i} {j} h at =
    subst (λ k. ReadsOf k.op ic c i k j) (some_inj (sym h.found ∙ at)) h.goes

IsMatch-of :
    {exe : Program} {i : ℕ} {inst : Inst}
    → IsMatch exe i
    → get_elem? exe i ≡ some inst
    → inst.op ≡ match
IsMatch-of h at = sym (ap (λ k. k.op) (some_inj (sym h.found ∙ at))) ∙ h.ends

Op-discrete : Discrete Op
Op-discrete = hlevel

dec_match : (op : Op) → Dec (op ≡ match)
dec_match op = Op-discrete op match

-- The thread at index `t` has run.
module _ (exe : Program) (c : ℕ) (tm now : Threads) (t ii : ℕ) (inst : Inst) (r : Threads × Bool)
    (pr : Progress exe c tm t now) (queued : get_elem? now.cp.list t ≡ some ii)
    (at : get_elem? exe ii ≡ some inst)
    (st : Stepped
      (length exe)
      (EpsOf inst.op (is_sol tm) (is_eol tm c) ii inst)
      (ReadsOf inst.op tm.flags.icase c ii inst)
      (inst.op ≡ match)
      now
      r) where
  pub here : Reached exe c tm ii
  here = pr.sound ii (pr.cur.marks t ii queued)

  pub Frame-after : Frame tm r.0
  Frame-after =
      st.frame
      ∙ ap {A = Threads} (λ k. record k { cp = r.0.cp; np = r.0.np; match_end = r.0.match_end })
          pr.frame

  chars_now : now.chars ≡ tm.chars
  chars_now = ap (λ k. k.chars) pr.frame

  sound_after : (v : ℕ) → marked r.0.cp v ≡ true → Reached exe c tm v
  sound_after v m = elim (st.cur.only v m) [
    | inl old ↦ pr.sound v old
    | inr p ↦ Closure.step here (record { inst = inst; found = at; goes = p })
  ]

  sound_next_after :
      (v : ℕ)
      → marked r.0.np v ≡ true
      → (marked tm.np v ≡ true) ⊎ ((i : ℕ) × Reached exe c tm i × Read exe c tm i v)
  sound_next_after v m = elim (st.next.only v m) [
    | inl old ↦ pr.sound_next v old
    | inr p ↦ inr (ii, here, record { inst = inst; found = at; goes = p })
  ]

  at_t : get_elem? now.cp.list t ≡ get_elem? r.0.cp.list t
  at_t = sym (st.cur.old t (get_elem?-lt now.cp.list t queued))

  -- An index that has run: an earlier one, or the one that ran now.
  ran :
      (k i : ℕ)
      → k < t + 1
      → get_elem? r.0.cp.list k ≡ some i
      → ((k < t) × (get_elem? now.cp.list k ≡ some i)) ⊎ (ii ≡ i)
  ran k i lt g = elim (dec_lt k t) [
    | yes h ↦ inl (h, sym (st.cur.old k (omega (arith, pr.bound))) ∙ g)
    | no h ↦
        let e : t ≡ k = omega arith in
        inr (some_inj (sym queued ∙ at_t ∙ ap (get_elem? r.0.cp.list) e ∙ g))
  ]

  Eps-after :
      (k i j : ℕ)
      → k < t + 1
      → get_elem? r.0.cp.list k ≡ some i
      → Eps exe (is_sol tm) (is_eol tm c) i j
      → marked r.0.cp j ≡ true
  Eps-after k i j lt g h = elim (ran k i lt g) [
    | inl (lt', g') ↦ st.cur.keep j (pr.eps k i j lt' g' h)
    | inr e ↦ st.eps j (Eps-of (subst (λ v. Eps exe (is_sol tm) (is_eol tm c) v j) (sym e) h) at)
  ]

  reads_after :
      (k i j : ℕ)
      → k < t + 1
      → get_elem? r.0.cp.list k ≡ some i
      → Read exe c tm i j
      → marked r.0.np j ≡ true
  reads_after k i j lt g h = elim (ran k i lt g) [
    | inl (lt', g') ↦ st.next.keep j (pr.reads k i j lt' g' h)
    | inr e ↦ st.reads j (Reads-of (subst (λ v. Read exe c tm v j) (sym e) h) at)
  ]

  -- A match found before stays, and one found now is recorded.
  hit_kept :
      (r.1 ≡ false)
      → (now.match_end ≡ tm.chars) × (tm.flags.nongreedy ≡ false)
      → (r.0.match_end ≡ tm.chars) × (tm.flags.nongreedy ≡ false)
  hit_kept f (e, ng) = elim (dec_match inst.op) [
    | yes m ↦ ((st.hit m).0 ∙ chars_now, ng)
    | no m ↦ ((st.miss m).0 ∙ e, ng)
  ]

  nongreedy_now : now.flags.nongreedy ≡ tm.flags.nongreedy
  nongreedy_now = ap (λ k. k.flags.nongreedy) pr.frame

  hit_after :
      r.1 ≡ false
      → (k i : ℕ) → k < t + 1
      → get_elem? r.0.cp.list k ≡ some i
      → IsMatch exe i
      → (r.0.match_end ≡ tm.chars) × (tm.flags.nongreedy ≡ false)
  hit_after f k i lt g h = elim (ran k i lt g) [
    | inl (lt', g') ↦ hit_kept f (pr.hit k i lt' g' h)
    | inr e ↦
        let m = IsMatch-of (subst (IsMatch exe) (sym e) h) at in
        ((st.hit m).0 ∙ chars_now, sym nongreedy_now ∙ sym (st.hit m).1 ∙ f)
  ]

  miss_after :
      (r.0.match_end ≡ tm.match_end)
      ⊎ ((i : ℕ) × Reached exe c tm i × IsMatch exe i × (r.0.match_end ≡ tm.chars))
  miss_after = elim (dec_match inst.op) [
    | yes m ↦ inr (ii, here, record { inst = inst; found = at; ends = m }, (st.hit m).0 ∙ chars_now)
    | no m ↦ elim pr.miss [
      | inl e ↦ inl ((st.miss m).0 ∙ e)
      | inr (i, re, mt, e) ↦ inr (i, re, mt, (st.miss m).0 ∙ e)
    ]
  ]

  -- The loop goes on with the next thread.
  pub Progress-next : r.1 ≡ false → Progress exe c tm (t + 1) r.0
  Progress-next f = record {
    frame = Frame-after;
    cur = st.cur.table;
    next = st.next.table;
    bound = omega (arith, st.cur.longer, get_elem?-lt now.cp.list t queued);
    keep = λ v m. st.cur.keep v (pr.keep v m);
    keep_next = λ v m. st.next.keep v (pr.keep_next v m);
    sound = sound_after;
    sound_next = sound_next_after;
    eps = Eps-after;
    reads = reads_after;
    hit = hit_after f;
    miss = miss_after;
  }

  -- The only instruction that makes the code return at once is a match in non-greedy mode.
  pub quit_after :
      r.1 ≡ true → (inst.op ≡ match) × (r.0.match_end ≡ tm.chars) × (tm.flags.nongreedy ≡ true)
  quit_after f = elim (dec_match inst.op) [
    | yes m ↦ (m, (st.hit m).0 ∙ chars_now, sym nongreedy_now ∙ sym (st.hit m).1 ∙ f)
    | no m ↦ absurd (false≢true (sym (st.miss m).1 ∙ f))
  ]
