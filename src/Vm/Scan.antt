-- ===== src/Vm/Scan.antt =====
-- The loop of `vm_execute` over the threads of one character, from its start to its end.
use librxvm.Prelude.{
  ℕ, zero, suc, ◌+◌, ◌≤◌, ◌<◌, ◌≡◌, refl, sym, ◌∙◌, ap, ◌⊎◌, ◌↔◌, inl, inr, Bool, true, false, some,
  done, Outcome, arith, length, get_elem?, get_elem?-lt, get_elem?-some, get_elem?-none,
  Option-cases,
}
use mathlib.Core.Bool.{false≢true}
use librxvm.Inst.{match, Inst, Program}
use librxvm.Vm.{Threads, is_sol, is_eol, exec_op, run_threads, scan, after_threads}
use librxvm.Vm.Spec.{IsWellFormed, EpsOf, ReadsOf, IsMatch}
use librxvm.Vm.Queue.{IsTable, marked, marked-lt, list-le}
use librxvm.Vm.Step.{Runs, exec_op_lem}
use librxvm.Vm.Run.{
  Closure, Frame, Frame-sol, Frame-eol, Reached, Read, Progress, Progress-start, Progress-next,
  here, Frame-after, quit_after,
}

module _ (exe : Program) (c : ℕ) (tm : Threads) where
  -- All threads have run.
  pub record Scanned (now : Threads) : Type 0 where
    pub frame : Frame tm now
    pub cur : IsTable (length exe) now.cp
    pub next : IsTable (length exe) now.np
    pub all : (v : ℕ) → (marked now.cp v ≡ true) ↔ Reached exe c tm v
    pub all_next :
        (v : ℕ)
        → (marked now.np v ≡ true)
          ↔ ((marked tm.np v ≡ true) ⊎ ((i : ℕ) × Reached exe c tm i × Read exe c tm i v))
    pub hit :
        (i : ℕ)
        → Reached exe c tm i
        → IsMatch exe i
        → (now.match_end ≡ tm.chars) × (tm.flags.nongreedy ≡ false)
    pub miss :
        (now.match_end ≡ tm.match_end)
        ⊎ ((i : ℕ) × Reached exe c tm i × IsMatch exe i × (now.match_end ≡ tm.chars))

  -- A thread matched, and the flag asks for the first match.
  pub record Quit (now : Threads) : Type 0 where
    pub frame : Frame tm now
    pub matched : ℕ
    pub reached : Reached exe c tm matched
    pub is_match : IsMatch exe matched
    pub ends : now.match_end ≡ tm.chars
    pub asked : tm.flags.nongreedy ≡ true

  abbrev pub Ran : Threads × Bool → Type 0
  Ran (now, false) = Scanned now
  Ran (now, true) = Quit now

  closed :
      (t : ℕ) (now : Threads)
      → Progress exe c tm t now
      → length now.cp.list ≤ t
      → {v : ℕ} → Reached exe c tm v
      → marked now.cp v ≡ true
  closed t now pr le (Closure.seed m) = pr.keep _ m
  closed t now pr le (Closure.step {i} {j} h e) =
      let (k, g) = pr.cur.listed i (closed t now pr le h) in
      pr.eps k i j (omega (arith, get_elem?-lt now.cp.list k g)) g e

  -- When no thread is left the queues hold all that can be reached.
  Progress-end :
      (t : ℕ) (now : Threads) → Progress exe c tm t now → length now.cp.list ≤ t → Scanned now
  Progress-end t now pr le = record {
    frame = pr.frame;
    cur = pr.cur;
    next = pr.next;
    all = λ v. (pr.sound v, closed t now pr le);
    all_next = λ v. (
      pr.sound_next v,
      λ h. elim h [
        | inl old ↦ pr.keep_next v old
        | inr (i, re, rd) ↦
            let (k, g) = pr.cur.listed i (closed t now pr le re) in
            pr.reads k i v (omega (arith, get_elem?-lt now.cp.list k g)) g rd
      ],
    );
    hit = λ i re m.
        let (k, g) = pr.cur.listed i (closed t now pr le re) in
        pr.hit k i (omega (arith, get_elem?-lt now.cp.list k g)) g m;
    miss = pr.miss;
  }

  abbrev Total : Outcome (Threads × Bool) → Type 0
  Total o = (r : Threads × Bool) × (o ≡ done r) × Ran r

  module _ (wf : IsWellFormed exe) where
    run_one :
        (t : ℕ) (now : Threads) (ii : ℕ) (inst : Inst)
        → Progress exe c tm t now
        → get_elem? exe ii ≡ some inst
        → Runs
            (length exe)
            (EpsOf inst.op (is_sol tm) (is_eol tm c) ii inst)
            (ReadsOf inst.op tm.flags.icase c ii inst)
            (inst.op ≡ match)
            now
            (exec_op inst.op c ii inst now)
    run_one t now ii inst pr at =
        rw
          (
            ← Frame-sol tm now pr.frame,
            ← Frame-eol tm now c pr.frame,
            ← (ap (λ k. k.flags.icase) pr.frame),
          )
          (exec_op_lem now pr.cur pr.next c ii inst inst.op (wf.fits ii inst at))

    -- The thread at `t` ran, and what follows depends on what its instruction returned.
    run_rest :
        (fuel t : ℕ) (now : Threads) (ii : ℕ) (inst : Inst) (r : Threads × Bool)
        → get_elem? now.cp.list t ≡ some ii
        → get_elem? exe ii ≡ some inst
        → exec_op inst.op c ii inst now ≡ done r
        → (r.1 ≡ false → Total (run_threads exe fuel c (t + 1) r.0))
        → (r.1 ≡ true → Quit r.0)
        → Total (run_threads exe (suc fuel) c t now)
    unfolding run_threads
    run_rest fuel t now ii inst (now', true) g at e go quit =
        ((now', true), rw (g, run_threads, at, e), quit refl)
    run_rest fuel t now ii inst (now', false) g at e go quit =
        let (r, e', ran) = go refl in (r, rw (g, run_threads, at, e) e', ran)

    run_queued :
        (fuel t : ℕ) (now : Threads) (ii : ℕ)
        → Progress exe c tm t now
        → ((r : Threads × Bool)
            → Progress exe c tm (t + 1) r.0
            → Total (run_threads exe fuel c (t + 1) r.0))
        → get_elem? now.cp.list t ≡ some ii
        → Total (run_threads exe (suc fuel) c t now)
    run_queued fuel t now ii pr go g =
        let lt : ii < length exe = marked-lt now.cp pr.cur ii (pr.cur.marks t ii g) in
        let (inst, at) = get_elem?-some exe ii lt in
        let (r, e, st) = run_one t now ii inst pr at in
        run_rest fuel t now ii inst r g at e
          (λ f. go r (Progress-next exe c tm now t ii inst r pr g at st f))
          (λ f.
            let (m, ends, ng) = quit_after exe c tm now t ii inst r pr g at st f in
            record {
              frame = Frame-after exe c tm now t ii inst r pr g at st;
              matched = ii;
              reached = here exe c tm now t ii inst r pr g at st;
              is_match = record { inst = inst; found = at; ends = m };
              ends = ends;
              asked = ng;
            })

    run_threads-Total :
        (fuel t : ℕ) (now : Threads)
        → length exe < fuel + t
        → Progress exe c tm t now
        → Total (run_threads exe fuel c t now)
    unfolding run_threads
    run_threads-Total zero t now lt pr = absurd (omega (arith, pr.bound, list-le now.cp pr.cur))
    run_threads-Total (suc fuel) t now lt pr = elim (Option-cases (get_elem? now.cp.list t)) [
      | inl e ↦ (
        (now, false),
        rw (e, run_threads),
        Progress-end t now pr (get_elem?-none now.cp.list t e),
      )
      | inr (ii, g) ↦
          run_queued fuel t now ii pr (λ r p. run_threads-Total fuel (t + 1) r.0 (omega arith) p) g
    ]

    -- The loop over the threads ends within its fuel and without a fault.
    pub run_threads_lem :
        IsTable (length exe) tm.cp
        → IsTable (length exe) tm.np
        → Total (run_threads exe (length exe + 1) c 0 tm)
    run_threads_lem ic inx =
        run_threads-Total (length exe + 1) 0 tm (omega arith) (Progress-start exe c tm ic inx)

    -- Unless the first match is asked for, a pass over the queue runs all threads.
    pub scan_greedy :
        IsTable (length exe) tm.cp
        → IsTable (length exe) tm.np
        → tm.flags.nongreedy ≡ false
        → (now : Threads) × (scan exe c tm ≡ after_threads exe c now) × Scanned now
    unfolding scan
    scan_greedy ic inx ng = let ((now, b), e, ran) = run_threads_lem ic inx in go now b e ran
      where
        go :
            (now : Threads) (b : Bool)
            → run_threads exe (length exe + 1) c 0 tm ≡ done (now, b)
            → Ran (now, b)
            → (now' : Threads) × (scan exe c tm ≡ after_threads exe c now') × Scanned now'
        go now true e q = absurd (false≢true (sym ng ∙ q.asked))
        go now false e sc = (now, rw (e, scan), sc)
