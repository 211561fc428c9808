-- ===== src/Vm/Streams.antt =====
-- The machine of librxvm/vm.c on two streams that give the same characters up to `endchar`.
use librxvm.Prelude.{
  ℕ, zero, suc, ◌+◌, ◌-◌, ◌≡◌, ◌≢◌, refl, sym, ap, ◌∙◌, ◌⊎◌, inl, inr, Bool, true, false, ◌||◌, not,
  Bool-cases, [], Outcome, done, fault, out_of_fuel, ◌>>=◌, arith, ◌==◌, if◌then◌else◌, length,
  get_elem?, Option-cases, replicate,
}
use librxvm.Prelude.Int.{ℤ}
use librxvm.Inst.{Op, char, any, class, nclass, branch, jmp, sol, eol, match, Inst, Program}
use librxvm.Vm.{
  Table, Threads, add_thread, add_thread_curr, add_thread_next, add_thread_to, class_match, is_sol,
  is_eol, char_match, go_on, exec_op, clear_lookup, Round, stop, again, read, vm_start, no_next,
  run_threads, swap_queues, after_threads, scan, vm_loop, vm_execute,
}

-- What a result satisfies, where there is one.
abbrev pub OnDone {ℓ} : {A : Type ℓ} → (A → Type 0) → Outcome A → Type 0
OnDone P (done a) = P a
OnDone P fault = Unit {0}
OnDone P out_of_fuel = Unit {0}

OnDone-bind {ℓ κ} :
    {A : Type ℓ} {B : Type κ} (P : B → Type 0) (m : Outcome A) (k : A → Outcome B)
    → ((a : A) → OnDone P (k a))
    → OnDone P (m >>= k)
OnDone-bind P (done a) k h = h a
OnDone-bind P fault k h = tt
OnDone-bind P out_of_fuel k h = tt

OnDone-then {ℓ κ} :
    {A : Type ℓ} {B : Type κ} (Q : A → Type 0) (P : B → Type 0) (m : Outcome A) (k : A → Outcome B)
    → OnDone Q m
    → ((a : A) → Q a → OnDone P (k a))
    → OnDone P (m >>= k)
OnDone-then Q P (done a) k q h = h a q
OnDone-then Q P fault k q h = tt
OnDone-then Q P out_of_fuel k q h = tt

OnDone-if {ℓ} :
    {A : Type ℓ} (P : A → Type 0) (b : Bool) (x y : Outcome A)
    → OnDone P x
    → OnDone P y
    → OnDone P (if b then x else y)
OnDone-if P true x y h g = h
OnDone-if P false x y h g = g

-- No operation writes the flags.
abbrev HasFlags : Threads → Threads → Type 0
HasFlags tm tm' = tm'.flags ≡ tm.flags

abbrev KeepsFlags : Threads → Outcome Threads → Type 0
KeepsFlags tm m = OnDone (HasFlags tm) m

curr-KeepsFlags : (tm : Threads) (v : ℕ) → KeepsFlags tm (add_thread_curr tm v)
unfolding add_thread_curr
curr-KeepsFlags tm v = OnDone-bind (HasFlags tm) (add_thread tm.cp v) _ (λ t. refl)

next-KeepsFlags : (tm : Threads) (v : ℕ) → KeepsFlags tm (add_thread_next tm v)
unfolding add_thread_next
next-KeepsFlags tm v = OnDone-bind (HasFlags tm) (add_thread tm.np v) _ (λ t. refl)

to-KeepsFlags : (tm : Threads) (x : ℤ) → KeepsFlags tm (add_thread_to tm x)
unfolding add_thread_to
to-KeepsFlags tm (ℤ.pos n) = curr-KeepsFlags tm n
to-KeepsFlags tm (ℤ.negsuc n) = tt

abbrev ExecFlags : Threads → Threads × Bool → Type 0
ExecFlags tm r = HasFlags tm r.0

go_on-ExecFlags :
    (tm : Threads) (m : Outcome Threads) → KeepsFlags tm m → OnDone (ExecFlags tm) (go_on m)
go_on-ExecFlags tm m h = OnDone-then (HasFlags tm) (ExecFlags tm) m _ h (λ tm' e. e)

pub exec_op-ExecFlags :
    (op : Op) (c ii : ℕ) (inst : Inst) (tm : Threads)
    → OnDone (ExecFlags tm) (exec_op op c ii inst tm)
unfolding exec_op
exec_op-ExecFlags char c ii inst tm =
    OnDone-if (ExecFlags tm) (char_match tm.flags.icase c inst.c) _ _
      (go_on-ExecFlags tm (add_thread_next tm (ii + 1)) (next-KeepsFlags tm (ii + 1))) refl
exec_op-ExecFlags any c ii inst tm =
    OnDone-if (ExecFlags tm) (not (c == b'\n')) _ _
      (go_on-ExecFlags tm (add_thread_next tm (ii + 1)) (next-KeepsFlags tm (ii + 1))) refl
exec_op-ExecFlags sol c ii inst tm =
    OnDone-if (ExecFlags tm) (is_sol tm) _ _
      (go_on-ExecFlags tm (add_thread_curr tm (ii + 1)) (curr-KeepsFlags tm (ii + 1))) refl
exec_op-ExecFlags eol c ii inst tm =
    OnDone-if (ExecFlags tm) (is_eol tm c) _ _
      (go_on-ExecFlags tm (add_thread_curr tm (ii + 1)) (curr-KeepsFlags tm (ii + 1))) refl
exec_op-ExecFlags class c ii inst tm = OnDone-bind (ExecFlags tm) (class_match tm c inst) _ (λ m.
    OnDone-if (ExecFlags tm) m _ _
      (go_on-ExecFlags tm (add_thread_next tm (ii + 1)) (next-KeepsFlags tm (ii + 1))) refl)
exec_op-ExecFlags nclass c ii inst tm = OnDone-bind (ExecFlags tm) (class_match tm c inst) _ (λ m.
    OnDone-if (ExecFlags tm) (not m) _ _
      (go_on-ExecFlags tm (add_thread_next tm (ii + 1)) (next-KeepsFlags tm (ii + 1))) refl)
exec_op-ExecFlags branch c ii inst tm =
    OnDone-then (HasFlags tm) (ExecFlags tm) (add_thread_to tm inst.x) _ (to-KeepsFlags tm inst.x)
      (λ tm' e.
        OnDone-then (HasFlags tm') (ExecFlags tm) (add_thread_to tm' inst.y) _
          (to-KeepsFlags tm' inst.y) (λ tm'' e'. e' ∙ e))
exec_op-ExecFlags jmp c ii inst tm =
    go_on-ExecFlags tm (add_thread_to tm inst.x) (to-KeepsFlags tm inst.x)
exec_op-ExecFlags match c ii inst tm = refl

-- How a computation ends, with the equation.
pub Outcome-cases {ℓ} :
    {A : Type ℓ} (m : Outcome A) → (m ≡ fault) ⊎ (m ≡ out_of_fuel) ⊎ ((a : A) × (m ≡ done a))
Outcome-cases fault = inl refl
Outcome-cases out_of_fuel = inr (inl refl)
Outcome-cases (done a) = inr (inr (a, refl))

pub OnDone-at {ℓ} :
    {A : Type ℓ} (P : A → Type 0) (m : Outcome A) {a : A} → m ≡ done a → OnDone P m → P a
OnDone-at P m e h = rw e at h

module _ (exe : Program) where
  run_threads-ExecFlags :
      (fuel c t : ℕ) (tm : Threads) → OnDone (ExecFlags tm) (run_threads exe fuel c t tm)
  unfolding run_threads
  run_threads-ExecFlags zero c t tm = tt
  run_threads-ExecFlags (suc fuel) c t tm = elim (Option-cases (get_elem? tm.cp.list t)) [
    | inl e ↦ rw (run_threads, e) refl
    | inr (ii, e) ↦ elim (Option-cases (get_elem? exe ii)) [
      | inl e' ↦ rw (run_threads, e, e') tt
      | inr (inst, e') ↦ elim (Outcome-cases (exec_op inst.op c ii inst tm)) [
        | inl f ↦ rw (run_threads, e, e', f) tt
        | inr (inl f) ↦ rw (run_threads, e, e', f) tt
        | inr (inr ((tm', true), f)) ↦
            let h =
              OnDone-at (ExecFlags tm) (exec_op inst.op c ii inst tm) f
                (exec_op-ExecFlags inst.op c ii inst tm) in
            rw (run_threads, e, e', f) h
        | inr (inr ((tm', false), f)) ↦
            let h : tm'.flags ≡ tm.flags =
              OnDone-at (ExecFlags tm) (exec_op inst.op c ii inst tm) f
                (exec_op-ExecFlags inst.op c ii inst tm) in
            let rest = run_threads-ExecFlags fuel c (t + 1) tm' in
            rw (run_threads, e, e', f, ← h) rest
      ]
    ]
  ]

  -- A pass over the queue that is not the last leaves the flags, and is not one for `endchar`.
  abbrev GoesOn : ℕ → Threads → Round → Type 0
  GoesOn c tm (stop ret tm') = Unit {0}
  GoesOn c tm (again tm') = HasFlags tm tm' × (c ≢ tm.flags.endchar)
  GoesOn c tm (read tm') = HasFlags tm tm' × (c ≢ tm.flags.endchar)

  no_next-GoesOn : (c : ℕ) (tm : Threads) → c ≢ tm.flags.endchar → OnDone (GoesOn c tm) (no_next tm)
  unfolding no_next vm_start add_thread_curr
  no_next-GoesOn c tm ne =
      OnDone-if (GoesOn c tm) (not tm.flags.search || not (tm.match_end == 0)) _ _ tt (
        OnDone-if (GoesOn c tm) (not (tm.chars - 1 == tm.match_start)) _ _
          (OnDone-then (HasFlags tm) (GoesOn c tm) (add_thread_curr _ 0) _
            (curr-KeepsFlags (record tm { match_start = tm.chars - 1; cp = emptied }) 0)
            (λ tm' e. (e, ne)))
          (OnDone-then (HasFlags tm) (GoesOn c tm) (add_thread_curr _ 0) _
            (curr-KeepsFlags (record tm { match_start = tm.chars; cp = emptied }) 0)
            (λ tm' e. (e, ne))))
    where
      emptied : Table
      emptied = record { list = []; lookup = clear_lookup tm.cp.list tm.cp.lookup }

  after_threads-GoesOn : (c : ℕ) (tm : Threads) → OnDone (GoesOn c tm) (after_threads exe c tm)
  unfolding after_threads swap_queues
  after_threads-GoesOn c tm = elim (Bool-cases (c == tm.flags.endchar)) [
    | inl e ↦ rw (after_threads, e) tt
    | inr e ↦
        let ne : c ≢ tm.flags.endchar = ground arith in
        rw (after_threads, e)
          (OnDone-if (GoesOn c tm) (length tm.np.list == 0) _ _ (no_next-GoesOn c tm ne) (refl, ne))
  ]

  scan-GoesOn : (c : ℕ) (tm : Threads) → OnDone (GoesOn c tm) (scan exe c tm)
  unfolding scan
  scan-GoesOn c tm =
      OnDone-then (ExecFlags tm) (GoesOn c tm) (run_threads exe (length exe + 1) c 0 tm) _
        (run_threads-ExecFlags (length exe + 1) c 0 tm)
        (λ r e. OnDone-if (GoesOn c tm) r.1 _ _ tt (rw (← e) (after_threads-GoesOn c r.0)))

-- What a run leaves, but for the rest of the stream.
abbrev pub outcome : {S : Type 0} → Outcome (Bool × Threads × S) → Outcome (Bool × Threads)
outcome (done (ret, tm, s)) = done (ret, tm)
outcome fault = fault
outcome out_of_fuel = out_of_fuel

module _ (exe : Program) {S T : Type 0} (get_s : S → Outcome (ℕ × S)) (get_t : T → Outcome (ℕ × T))
    (endchar : ℕ) (R : S → T → Type 0) where
  -- Both streams give the same character, and are related behind it unless it is `endchar`.
  abbrev pub Agree : S → T → Type 0
  Agree s t =
      (c : ℕ) × (s' : S) × (t' : T) × (get_s s ≡ done (c, s'))
      × (get_t t ≡ done (c, t'))
      × ((c ≡ endchar) ⊎ R s' t')

  module _ (agree : (s : S) (t : T) → R s t → Agree s t) where
    loop-SameOutcome :
        (fuel c : ℕ) (tm : Threads) (s : S) (t : T)
        → tm.flags.endchar ≡ endchar
        → ((c ≡ endchar) ⊎ R s t)
        → outcome (vm_loop exe get_s fuel c tm s) ≡ outcome (vm_loop exe get_t fuel c tm t)
    unfolding vm_loop
    loop-SameOutcome zero c tm s t e h = refl
    loop-SameOutcome (suc fuel) c tm s t e h = elim (Outcome-cases (scan exe c tm)) [
      | inl f ↦ rw (vm_loop, f) refl
      | inr (inl f) ↦ rw (vm_loop, f) refl
      | inr (inr (stop ret tm', f)) ↦ rw (vm_loop, f) refl
      | inr (inr (again tm', f)) ↦
          let (k, ne) = OnDone-at (GoesOn exe c tm) (scan exe c tm) f (scan-GoesOn exe c tm) in
          rw (vm_loop, f) (loop-SameOutcome fuel c tm' s t (ap (λ z. z.endchar) k ∙ e) h)
      | inr (inr (read tm', f)) ↦
          let (k, ne) = OnDone-at (GoesOn exe c tm) (scan exe c tm) f (scan-GoesOn exe c tm) in
          elim h [
            | inl end ↦ absurd (ne (end ∙ sym e))
            | inr r ↦
                let (c', s', t', p, q, next) = agree s t r in
                rw (vm_loop, f, p, q)
                  (loop-SameOutcome fuel c' (record tm' { lastinput = c; chars = tm'.chars + 1 }) s'
                    t' (ap (λ z. z.endchar) k ∙ e) next)
          ]
    ]

    pub vm_execute-SameOutcome :
        (fuel : ℕ) (tm : Threads) (s : S) (t : T)
        → tm.flags.endchar ≡ endchar
        → R s t
        → outcome (vm_execute exe get_s fuel tm s) ≡ outcome (vm_execute exe get_t fuel tm t)
    unfolding vm_execute vm_start
    vm_execute-SameOutcome fuel tm s t e r =
        let none_yet : Table = record { list = []; lookup = replicate (length exe) false } in
        let tm0 : Threads = record tm { cp = none_yet; np = none_yet } in
        let (c, s', t', p, q, next) = agree s t r in
        elim (Outcome-cases (vm_start tm0)) [
          | inl f ↦ rw (vm_execute, f) refl
          | inr (inl f) ↦ rw (vm_execute, f) refl
          | inr (inr (tm', f)) ↦
              let k : tm'.flags ≡ tm.flags =
                OnDone-at (HasFlags tm0) (vm_start tm0) f
                  (curr-KeepsFlags (record tm0 { match_start = tm.chars }) 0) in
              rw (vm_execute, f, ◌>>=◌, p, q)
                (loop-SameOutcome fuel c (record tm' { lastinput = 0; chars = tm'.chars + 1 }) s' t'
                  (ap (λ z. z.endchar) k ∙ e) next)
        ]
