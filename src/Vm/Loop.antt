-- ===== src/Vm/Loop.antt =====
-- The main loop of `vm_execute` by what a pass over the queue ends in.
use mathlib.Core.Bool.{false≢true}
use librxvm.Prelude.{
  sym, ◌∙◌, ◌↔◌, inl, inr, ◌>>=◌, get_or-replicate, ℕ, suc, ◌+◌, ◌≡◌, ◌≢◌, refl, Bool, true, false,
  [], Outcome, done, length, arith, replicate,
}
use librxvm.Inst.{Program}
use librxvm.Vm.Spec.{IsWellFormed}
use librxvm.Vm.Queue.{IsTable, marked, add_thread_lem, empty-IsTable}
use librxvm.Vm.{
  Table, add_thread_curr, vm_start, vm_execute, Threads, scan, stop, again, read, after_threads,
  no_next, swap_queues, vm_loop,
}

-- The state behind the full swap.
abbrev pub swapped : Program → Threads → Threads
swapped exe now = record now {
  cp = now.np;
  np = record { list = []; lookup = replicate (length exe) false };
}

module _ (exe : Program) (c : ℕ) (now : Threads) where
  pub after_threads-end : c ≡ now.flags.endchar → after_threads exe c now ≡ done (stop false now)
  unfolding after_threads
  after_threads-end e = ground arith

  pub after_threads-died :
      c ≢ now.flags.endchar
      → length now.np.list ≡ 0
      → now.flags.search ≡ false
      → after_threads exe c now ≡ done (stop true now)
  unfolding after_threads no_next
  after_threads-died ne e s = ground arith

  pub after_threads-read :
      c ≢ now.flags.endchar
      → length now.np.list ≢ 0
      → after_threads exe c now ≡ done (read (swapped exe now))
  unfolding after_threads swap_queues
  after_threads-read ne e = ground arith

module _ (exe : Program) {S : Type 0} (getchar : S → Outcome (ℕ × S)) (fuel c : ℕ)
    (tm tm' : Threads) (s : S) where
  pub vm_loop-stop :
      (ret : Bool)
      → scan exe c tm ≡ done (stop ret tm')
      → vm_loop exe getchar (suc fuel) c tm s ≡ done (ret, tm', s)
  unfolding vm_loop
  vm_loop-stop ret e = rw (e, vm_loop)

  pub vm_loop-again :
      scan exe c tm ≡ done (again tm')
      → vm_loop exe getchar (suc fuel) c tm s ≡ vm_loop exe getchar fuel c tm' s
  unfolding vm_loop
  vm_loop-again e = rw (e, vm_loop)

  pub vm_loop-read :
      (c' : ℕ) (s' : S)
      → scan exe c tm ≡ done (read tm')
      → getchar s ≡ done (c', s')
      → vm_loop exe getchar (suc fuel) c tm s
        ≡ vm_loop exe getchar fuel c' (record tm' { lastinput = c; chars = tm'.chars + 1 }) s'
  unfolding vm_loop
  vm_loop-read c' s' e g = rw (e, vm_loop, g)

-- `vm_execute` enters its loop with one queued thread, at the start of the program.
pub vm_execute-starts :
    (exe : Program) {S : Type 0} (getchar : S → Outcome (ℕ × S)) (fuel : ℕ) (tm : Threads) (s : S)
    → IsWellFormed exe
    → (t : Table) × (vm_execute exe getchar fuel tm s ≡ (
        getchar s >>= λ r.
        vm_loop exe getchar fuel r.0
          (record tm {
            match_start = tm.chars;
            cp = t;
            np = record { list = []; lookup = replicate (length exe) false };
            lastinput = 0;
            chars = tm.chars + 1;
          })
          r.1))
      × IsTable (length exe) t
      × ((v : ℕ) → (marked t v ≡ true) ↔ (v ≡ 0))
unfolding vm_execute vm_start add_thread_curr
vm_execute-starts exe getchar fuel tm s wf =
    let (t, e, g, m) = add_thread_lem (λ v. v ≡ 0) 0 (empty-IsTable (length exe)) wf.entry refl in
    (
      t,
      rw e,
      g.table,
      λ v. (
        λ h. elim (g.only v h) [
          | inl old ↦ absurd (false≢true (sym (get_or-replicate (length exe) v false) ∙ old))
          | inr e' ↦ e'
        ],
        λ e'. rw e' m,
      ),
    )
