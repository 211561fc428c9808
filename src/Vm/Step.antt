-- ===== src/Vm/Step.antt =====
-- One instruction of the switch in `vm_execute` does what `Spec` says of it, and stays inside the
-- tables.
use mathlib.Core.Path.{subst}
use mathlib.Core.Bool.{false≢true}
use librxvm.Prelude.{
  ℕ, ◌+◌, ◌<◌, ◌≡◌, refl, ap, ◌⊎◌, ◌≢◌, inl, inr, Bool, true, false, not, List, some, done, Outcome,
  arith, ◌==◌, if◌then◌else◌,
}
use librxvm.Prelude.Int.{ℤ, pos, negsuc}
use librxvm.Inst.{Op, char, any, class, nclass, branch, jmp, sol, eol, match, Inst}
use librxvm.Vm.{
  Table, Threads, add_thread_curr, add_thread_next, add_thread_to, class_match, is_sol, is_eol,
  char_match, ccs_match, exec_op, go_on,
}
use librxvm.Vm.Spec.{Target, Fits, EpsOf, ReadsOf}
use librxvm.Vm.Queue.{IsTable, Grows, Grows-refl, Grows-trans, add_thread_lem, marked}

pos-injective : {a b : ℕ} → pos a ≡ pos b → a ≡ b
pos-injective e = cc

-- From `tm` to `r` one instruction ran, which may go to `P` without reading and to `Q` by reading,
-- and which is a match if `M`.
pub record Stepped (n : ℕ) (P Q : ℕ → Type 0) (M : Type 0) (tm : Threads) (r : Threads × Bool)
    : Type 0 where
  pub frame : r.0 ≡ record tm { cp = r.0.cp; np = r.0.np; match_end = r.0.match_end }
  pub cur : Grows n tm.cp P r.0.cp
  pub next : Grows n tm.np Q r.0.np
  pub eps : (j : ℕ) → P j → marked r.0.cp j ≡ true
  pub reads : (j : ℕ) → Q j → marked r.0.np j ≡ true
  pub hit : M → (r.0.match_end ≡ tm.chars) × (r.1 ≡ tm.flags.nongreedy)
  pub miss : ¬ M → (r.0.match_end ≡ tm.match_end) × (r.1 ≡ false)

abbrev pub Runs : ℕ → (P Q : ℕ → Type 0) → Type 0 → Threads → Outcome (Threads × Bool) → Type 0
Runs n P Q M tm o = (r : Threads × Bool) × (o ≡ done r) × Stepped n P Q M tm r

module _ {n : ℕ} (tm : Threads) (ic : IsTable n tm.cp) (inx : IsTable n tm.np) where
  -- Nothing is queued.
  stays :
      (P Q : ℕ → Type 0) (M : Type 0)
      → ((j : ℕ) → ¬ P j)
      → ((j : ℕ) → ¬ Q j)
      → ¬ M
      → Stepped n P Q M tm (tm, false)
  stays P Q M p q m = record {
    frame = refl;
    cur = Grows-refl P ic;
    next = Grows-refl Q inx;
    eps = λ j h. absurd (p j h);
    reads = λ j h. absurd (q j h);
    hit = λ h. absurd (m h);
    miss = λ h. (refl, refl);
  }

  -- An instruction that reads, behind the test `b`.
  pub reads_one :
      (P Q : ℕ → Type 0) (M : Type 0) (b : Bool) (k : ℕ)
      → ((j : ℕ) → ¬ P j)
      → ¬ M
      → k < n
      → (b ≡ true → Q k)
      → ((j : ℕ) → Q j → (b ≡ true) × (j ≡ k))
      → Runs n P Q M tm (if b then go_on (add_thread_next tm k) else done (tm, false))
  unfolding add_thread_next
  reads_one P Q M false k p m lt into out =
      ((tm, false), refl, stays P Q M p (λ j h. false≢true (out j h).0) m)
  reads_one P Q M true k p m lt into out =
      let (t', e, g, mk) = add_thread_lem Q k inx lt (into refl) in
      (
        (record tm { np = t' }, false),
        rw e,
        record {
          frame = refl;
          cur = Grows-refl P ic;
          next = g;
          eps = λ j h. absurd (p j h);
          reads = λ j h. rw ((out j h).1) mk;
          hit = λ h. absurd (m h);
          miss = λ h. (refl, refl);
        },
      )

  -- An instruction that tests where it stands.
  pub tests_one :
      (P Q : ℕ → Type 0) (M : Type 0) (b : Bool) (k : ℕ)
      → ((j : ℕ) → ¬ Q j)
      → ¬ M
      → k < n
      → (b ≡ true → P k)
      → ((j : ℕ) → P j → (b ≡ true) × (j ≡ k))
      → Runs n P Q M tm (if b then go_on (add_thread_curr tm k) else done (tm, false))
  unfolding add_thread_curr
  tests_one P Q M false k q m lt into out =
      ((tm, false), refl, stays P Q M (λ j h. false≢true (out j h).0) q m)
  tests_one P Q M true k q m lt into out =
      let (t', e, g, mk) = add_thread_lem P k ic lt (into refl) in
      (
        (record tm { cp = t' }, false),
        rw e,
        record {
          frame = refl;
          cur = g;
          next = Grows-refl Q inx;
          eps = λ j h. rw ((out j h).1) mk;
          reads = λ j h. absurd (q j h);
          hit = λ h. absurd (m h);
          miss = λ h. (refl, refl);
        },
      )

  -- A match instruction.
  pub hits :
      (P Q : ℕ → Type 0) (M : Type 0)
      → ((j : ℕ) → ¬ P j)
      → ((j : ℕ) → ¬ Q j)
      → M
      → Stepped n P Q M tm (record tm { match_end = tm.chars }, tm.flags.nongreedy)
  hits P Q M p q m = record {
    frame = refl;
    cur = Grows-refl P ic;
    next = Grows-refl Q inx;
    eps = λ j h. absurd (p j h);
    reads = λ j h. absurd (q j h);
    hit = λ h. (refl, refl);
    miss = λ h. absurd (h m);
  }

  -- A jump inside the program.
  pub jumps :
      (P : ℕ → Type 0) (x : ℤ)
      → Target n x
      → ((j : ℕ) → x ≡ pos j → P j)
      → (t' : Table) × (add_thread_to tm x ≡ done (record tm { cp = t' }))
        × Grows n tm.cp P t'
        × ((j : ℕ) → x ≡ pos j → marked t' j ≡ true)
  unfolding add_thread_to add_thread_curr
  jumps P (negsuc k) t into = absurd t
  jumps P (pos k) t into =
      let (t', e, g, mk) = add_thread_lem P k ic t (into k refl) in
      (t', rw e, g, λ j h. subst (λ v. marked t' v ≡ true) (pos-injective h) mk)

  -- An instruction that only jumped: `t'` is the new current queue.
  pub jumped :
      (P Q : ℕ → Type 0) (M : Type 0) (t' : Table)
      → ((j : ℕ) → ¬ Q j)
      → ¬ M
      → Grows n tm.cp P t'
      → ((j : ℕ) → P j → marked t' j ≡ true)
      → Stepped n P Q M tm (record tm { cp = t' }, false)
  jumped P Q M t' q m g mk = record {
    frame = refl;
    cur = g;
    next = Grows-refl Q inx;
    eps = mk;
    reads = λ j h. absurd (q j h);
    hit = λ h. absurd (m h);
    miss = λ h. (refl, refl);
  }

not-eq : (a b : ℕ) → a ≢ b → not (a == b) ≡ true
not-eq a b h = ground arith

eq-not : (a b : ℕ) → not (a == b) ≡ true → a ≢ b
eq-not a b h = ground arith

not-true : (b : Bool) → not b ≡ true → b ≡ false
not-true false h = refl
not-true true h = cc

abbrev pub ExecRuns : ℕ → ℕ → ℕ → Inst → Threads → Op → Type 0
ExecRuns n c ii inst tm op =
    Runs n (EpsOf op (is_sol tm) (is_eol tm c) ii inst) (ReadsOf op tm.flags.icase c ii inst)
      (op ≡ match) tm (exec_op op c ii inst tm)

module _ {n : ℕ} (tm : Threads) (ic : IsTable n tm.cp) (inx : IsTable n tm.np) (c ii : ℕ)
    (inst : Inst) where
  class_match-eq :
      (ccs : List ℕ)
      → inst.ccs ≡ some ccs
      → class_match tm c inst ≡ done (ccs_match tm.flags.icase ccs c)
  unfolding class_match
  class_match-eq ccs e = rw e

  same_class :
      {ccs ccs' : List ℕ} {b : Bool}
      → inst.ccs ≡ some ccs
      → inst.ccs ≡ some ccs'
      → ccs_match tm.flags.icase ccs' c ≡ b
      → ccs_match tm.flags.icase ccs c ≡ b
  same_class e e' h = cc

  exec_class : (ccs : List ℕ) → inst.ccs ≡ some ccs → ii + 1 < n → ExecRuns n c ii inst tm class
  unfolding exec_op
  exec_class ccs e lt = rw (class_match-eq ccs e) (
      reads_one tm ic inx _ _ _ (ccs_match tm.flags.icase ccs c) (ii + 1) (λ j h. h) (λ h. cc) lt
        (λ t. (ccs, e, t, refl)) (λ j h. (same_class e h.1 h.2, h.3)))

  exec_nclass : (ccs : List ℕ) → inst.ccs ≡ some ccs → ii + 1 < n → ExecRuns n c ii inst tm nclass
  unfolding exec_op
  exec_nclass ccs e lt = rw (class_match-eq ccs e) (
      reads_one tm ic inx _ _ _ (not (ccs_match tm.flags.icase ccs c)) (ii + 1) (λ j h. h) (λ h. cc)
        lt (λ t. (ccs, e, not-true _ t, refl)) (λ j h. (ap not (same_class e h.1 h.2), h.3)))

  exec_jmp : Target n inst.x → ExecRuns n c ii inst tm jmp
  unfolding exec_op
  exec_jmp tx =
      let (t, e, g, mk) = jumps tm ic inx (λ j. inst.x ≡ pos j) inst.x tx (λ j h. h) in
      ((record tm { cp = t }, false), rw e, jumped tm ic inx _ _ _ t (λ j h. h) (λ h. cc) g mk)

  exec_branch : Target n inst.x → Target n inst.y → ExecRuns n c ii inst tm branch
  unfolding exec_op
  exec_branch tx ty =
      let P : ℕ → Type 0 = λ j. (inst.x ≡ pos j) ⊎ (inst.y ≡ pos j) in
      let (t, e, g, mk) = jumps tm ic inx P inst.x tx (λ j h. inl h) in
      let (u, e', g', mk') = jumps (record tm { cp = t }) g.table inx P inst.y ty (λ j h. inr h) in
      (
        (record tm { cp = u }, false),
        rw (e, e'),
        jumped tm ic inx _ _ _ u (λ j h. h) (λ h. cc) (Grows-trans g g')
            (λ j h. elim h [ inl l ↦ g'.keep j (mk j l) | inr r ↦ mk' j r ]),
      )

  -- Every instruction that fits its program runs without a fault, and does what it says.
  pub exec_op_lem : (op : Op) → Fits n ii inst op → ExecRuns n c ii inst tm op
  unfolding exec_op
  exec_op_lem char lt =
      reads_one tm ic inx _ _ _ (char_match tm.flags.icase c inst.c) (ii + 1) (λ j h. h) (λ h. cc)
        lt (λ t. (t, refl)) (λ j h. h)
  exec_op_lem any lt =
      reads_one tm ic inx _ _ _ (not (c == b'\n')) (ii + 1) (λ j h. h) (λ h. cc) lt
        (λ t. (eq-not c b'\n' t, refl)) (λ j h. (not-eq c b'\n' h.0, h.1))
  exec_op_lem sol lt =
      tests_one tm ic inx _ _ _ (is_sol tm) (ii + 1) (λ j h. h) (λ h. cc) lt (λ t. (t, refl))
        (λ j h. h)
  exec_op_lem eol lt =
      tests_one tm ic inx _ _ _ (is_eol tm c) (ii + 1) (λ j h. h) (λ h. cc) lt (λ t. (t, refl))
        (λ j h. h)
  exec_op_lem class (lt, (ccs, e)) = exec_class ccs e lt
  exec_op_lem nclass (lt, (ccs, e)) = exec_nclass ccs e lt
  exec_op_lem branch (tx, ty) = exec_branch tx ty
  exec_op_lem jmp tx = exec_jmp tx
  exec_op_lem match fit = (
    (record tm { match_end = tm.chars }, tm.flags.nongreedy),
    refl,
    hits tm ic inx _ _ _ (λ j h. h) (λ j h. h) refl,
  )
