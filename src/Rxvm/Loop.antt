-- ===== src/Rxvm/Loop.antt =====
-- The main loop of `vm_execute` as `rxvm_match` runs it: without a search, greedy, over a string.
use mathlib.Core.Path.{subst, subst₃}
use mathlib.Core.Bool.{false≢true}
use librxvm.Prelude.{
  get_or-replicate, cons_inj, ℕ, zero, suc, ◌+◌, ◌≤◌, ◌<◌, ◌≡◌, refl, sym, ◌∙◌, ap, ◌↔◌, ◌≢◌, inl,
  inr, Bool, true, false, List, [], ◌∷◌, Outcome, done, arith, length, ◌==◌, get_elem?-lt,
}
use native.Mathlib.Decide.{ℕ_discrete}
use librxvm.Inst.{Program}
use librxvm.Vm.{Threads, Flags, is_sol, is_eol, scan, after_threads, vm_loop}
use librxvm.Vm.Spec.{IsWellFormed, Reads, Accepts, halt, eat, at_sol, at_eol}
use librxvm.Vm.Queue.{IsTable, marked, empty-IsTable}
use librxvm.Vm.Scan.{Scanned, scan_greedy}
use librxvm.Vm.Reach.{Splits, Reached-Queued, Queued-Splits}
use librxvm.Vm.Loop.{
  after_threads-end, after_threads-died, after_threads-read, swapped, vm_loop-stop, vm_loop-read,
}
use librxvm.Rxvm.{buffer, char_at, getchar_str}

-- No character of a string is its terminator.
abbrev pub IsText : List ℕ → Type 0
IsText [] = Unit {0}
IsText (c ∷ w) = (0 < c) × IsText w

abbrev pub match_flags : Bool → Flags
match_flags icase = record {
  icase = icase;
  nongreedy = false;
  multiline = true;
  search = false;
  endchar = 0;
}

-- The loop stands at the first character of `w`, or at the terminator, and `total` characters make
-- up the whole string.
pub record Enters (exe : Program) (icase : Bool) (total : ℕ) (tm : Threads) (w : List ℕ)
    : Type 0 where
  pub cur : IsTable (length exe) tm.cp
  pub next : IsTable (length exe) tm.np
  pub fresh : (v : ℕ) → ¬ (marked tm.np v ≡ true)
  pub flags : tm.flags ≡ match_flags icase
  pub started : 0 < tm.chars
  pub old : tm.match_end < tm.chars
  pub count : tm.chars + length w ≡ total + 1

abbrev pub first_char : Threads → Bool
first_char tm = tm.chars == 1

eol_at :
    (tm : Threads) (w : List ℕ)
    → IsText w
    → tm.flags.endchar ≡ 0
    → is_eol tm (char_at w) ≡ at_eol tm.flags.multiline w
unfolding is_eol
eol_at tm [] text e = rw e
eol_at tm (x ∷ w) text e = ground arith

-- What the run has to say of the question `G`, whether a queued thread accepts all of the text.
pub data Verdict (G : Type 0) (total : ℕ) (ret : Bool) (match_end : ℕ) : Type 0 where
  accepted : G → ret ≡ false → match_end ≡ total + 1 → Verdict G total ret match_end
  ended : ¬ G → ret ≡ false → match_end ≤ total → Verdict G total ret match_end
  died : ¬ G → ret ≡ true → Verdict G total ret match_end

abbrev pub Decides : Type 0 → ℕ → Outcome (Bool × Threads × List ℕ) → Type 0
Decides G total o = (r : Bool × Threads × List ℕ) × (o ≡ done r) × Verdict G total r.0 r.1.match_end

pub Verdict-map :
    {G H : Type 0} {total : ℕ} {ret : Bool} {match_end : ℕ}
    → (G → H)
    → (H → G)
    → Verdict G total ret match_end
    → Verdict H total ret match_end
Verdict-map f g (accepted a e m) = accepted (f a) e m
Verdict-map f g (ended a e m) = ended (λ h. a (g h)) e m
Verdict-map f g (died a e) = died (λ h. a (g h)) e

-- What the buffer holds behind the character that the loop stands at.
abbrev pub rest_of : List ℕ → List ℕ
rest_of [] = []
rest_of (x ∷ w) = buffer w

pub getchar_buffer : (w : List ℕ) → getchar_str (buffer w) ≡ done (char_at w, rest_of w)
unfolding getchar_str
getchar_buffer [] = refl
getchar_buffer (x ∷ w) = refl

module _ (exe : Program) (icase : Bool) (total : ℕ) (wf : IsWellFormed exe) where
  abbrev pub Question : Threads → List ℕ → Type 0
  Question tm w =
      (v : ℕ) × (marked tm.cp v ≡ true)
      × Accepts exe tm.flags.icase tm.flags.multiline v (first_char tm) tm.lastinput w (length w)

  module _ (tm : Threads) (w : List ℕ) (text : IsText w) (en : Enters exe icase total tm w) where
    sol_here : is_sol tm ≡ at_sol tm.flags.multiline (first_char tm) tm.lastinput
    unfolding is_sol
    sol_here = refl

    eol_here : is_eol tm (char_at w) ≡ at_eol tm.flags.multiline w
    eol_here = eol_at tm w text (ap (λ f. f.endchar) en.flags)

    run_here :
        (now : Threads) × (scan exe (char_at w) tm ≡ after_threads exe (char_at w) now)
        × Scanned exe (char_at w) tm now
    run_here = scan_greedy exe (char_at w) tm wf en.cur en.next (ap (λ f. f.nongreedy) en.flags)

  -- A queued thread that accepts, in terms of the threads that were reached.
  splits :
      (tm : Threads) (w : List ℕ) (text : IsText w) (en : Enters exe icase total tm w)
      → Question tm w
      → Splits exe tm
          (char_at w)
          (first_char tm)
          tm.lastinput
          w
          (sol_here tm w text en)
          (eol_here tm w text en)
          (length w)
  splits tm w text en q =
      Queued-Splits exe tm (char_at w) (first_char tm) tm.lastinput w (sol_here tm w text en)
        (eol_here tm w text en) q

  not-Question-end :
      (tm : Threads) (en : Enters exe icase total tm []) (now : Threads)
      → Scanned exe 0 tm now
      → now.match_end ≡ tm.match_end
      → ¬ Question tm []
  not-Question-end tm en now sc e q = elim (splits tm [] tt en q) [
    | inl (i, re, m, k) ↦ omega (arith, (sc.hit i re m).0, en.old)
    | inr (x, s', k', i, j, es, ek, re, rd, a) ↦ absurd (omega (arith, ek))
  ]

  -- At the terminator: whether a match was reached.
  Verdict-end :
      (tm : Threads) (en : Enters exe icase total tm []) (now : Threads)
      → Scanned exe 0 tm now
      → Verdict (Question tm []) total false now.match_end
  Verdict-end tm en now sc = elim sc.miss [
    | inl e ↦ ended (not-Question-end tm en now sc e) refl (omega (arith, en.old, en.count))
    | inr (i, re, m, e) ↦
        accepted
          (Reached-Queued exe tm 0 (first_char tm) tm.lastinput [] (sol_here tm [] tt en)
            (eol_here tm [] tt en) re (halt m refl))
          refl (omega (arith, en.count))
  ]

  module _ (tm : Threads) (w : List ℕ) (en : Enters exe icase total tm w) (now : Threads) (c : ℕ)
      (sc : Scanned exe c tm now) where
    flags_now : now.flags ≡ match_flags icase
    flags_now = ap (λ t. t.flags) sc.frame ∙ en.flags

  -- At the terminator the run ends.
  loop_end :
      (fuel : ℕ) (tm : Threads)
      → Enters exe icase total tm []
      → Decides (Question tm []) total (vm_loop exe getchar_str (suc fuel) 0 tm [])
  loop_end fuel tm en =
      let (now, e, sc) = run_here tm [] tt en in
      let endchar : now.flags.endchar ≡ 0 = ap (λ f. f.endchar) (flags_now tm [] en now 0 sc) in
      (
        (false, now, []),
        vm_loop-stop exe getchar_str fuel 0 tm now [] false
            (e ∙ after_threads-end exe 0 now (sym endchar)),
        Verdict-end tm en now sc,
      )

  module _ (tm : Threads) (x : ℕ) (w : List ℕ) (text : IsText (x ∷ w))
      (en : Enters exe icase total tm (x ∷ w)) (now : Threads) (sc : Scanned exe x tm now) where
    -- A queued thread that accepts leads to one that is queued for the next character.
    goes_on :
        Question tm (x ∷ w)
        → (j : ℕ) × (marked now.np j ≡ true)
          × Accepts exe tm.flags.icase tm.flags.multiline j false x w (length w)
    goes_on q = elim (splits tm (x ∷ w) text en q) [
      | inl (i, re, m, k) ↦ absurd (omega arith)
      | inr (x', s', k', i, j, es, ek, re, rd, a) ↦
          let (ex, ew) = cons_inj es in
          let el : k' ≡ length w = omega arith in
          (
            j,
            (sc.all_next j).1
                (inr (i, re, subst (λ y. Reads exe tm.flags.icase y i j) (sym ex) rd)),
            subst₃ (λ y v n. Accepts exe tm.flags.icase tm.flags.multiline j false y v n) (sym ex)
                (sym ew) el a,
          )
    ]

    comes_from :
        (j : ℕ)
        → marked now.np j ≡ true
        → Accepts exe tm.flags.icase tm.flags.multiline j false x w (length w)
        → Question tm (x ∷ w)
    comes_from j m a = elim ((sc.all_next j).0 m) [
      | inl old ↦ absurd (en.fresh j old)
      | inr (i, re, rd) ↦
          Reached-Queued exe tm x (first_char tm) tm.lastinput (x ∷ w) (sol_here tm (x ∷ w) text en)
            (eol_here tm (x ∷ w) text en) re (eat rd a)
    ]

    chars_now : now.chars ≡ tm.chars
    chars_now = ap (λ t. t.chars) sc.frame

    recorded : now.match_end < tm.chars + 1
    recorded = elim sc.miss [ inl e ↦ omega (arith, en.old) | inr (i, re, m, e) ↦ omega arith ]

    next_threads : Threads
    next_threads = record (swapped exe now) { lastinput = x; chars = now.chars + 1 }

    next_Enters : Enters exe icase total next_threads w
    unfolding next_threads
    next_Enters = record {
      cur = sc.next;
      next = empty-IsTable (length exe);
      fresh = λ v m. false≢true (sym (get_or-replicate (length exe) v false) ∙ m);
      flags = flags_now tm (x ∷ w) en now x sc;
      started = omega arith;
      old = rw chars_now recorded;
      count = rw chars_now (omega (arith, en.count));
    }

    Question-iff : Question next_threads w ↔ Question tm (x ∷ w)
    unfolding next_threads
    Question-iff =
        let later : (now.chars + 1 == 1) ≡ false = ground (arith, en.started, chars_now) in
        rw (ap (λ t. t.flags.icase) sc.frame, ap (λ t. t.flags.multiline) sc.frame, later)
          (λ q. comes_from q.0 q.1 q.2, goes_on)

    not_endchar : x ≢ now.flags.endchar
    not_endchar =
        rw (ap (λ f. f.endchar) (flags_now tm (x ∷ w) en now x sc)) (omega (arith, text.0))

    -- No thread reads `x`: the run is over.
    loop_died :
        (fuel : ℕ)
        → scan exe x tm ≡ after_threads exe x now
        → length now.np.list ≡ 0
        → Decides (Question tm (x ∷ w)) total (vm_loop exe getchar_str (suc fuel) x tm (buffer w))
    loop_died fuel e z =
        let no_search : now.flags.search ≡ false =
          ap (λ f. f.search) (flags_now tm (x ∷ w) en now x sc) in
        (
          (true, now, buffer w),
          vm_loop-stop exe getchar_str fuel x tm now (buffer w) true
              (e ∙ after_threads-died exe x now not_endchar z no_search),
          died
              (λ q.
                let (j, m, a) = goes_on q in
                let (k, g) = sc.next.listed j m in omega (arith, get_elem?-lt now.np.list k g))
              refl,
        )

    -- Some thread reads `x`: the run goes on with the rest of the text.
    loop_next :
        (fuel : ℕ)
        → scan exe x tm ≡ after_threads exe x now
        → length now.np.list ≢ 0
        → Decides
            (Question next_threads w)
            total
            (vm_loop exe getchar_str fuel (char_at w) next_threads (rest_of w))
        → Decides (Question tm (x ∷ w)) total (vm_loop exe getchar_str (suc fuel) x tm (buffer w))
    unfolding next_threads
    loop_next fuel e nz (r, e', vd) = (
      r,
      vm_loop-read exe getchar_str fuel x tm (swapped exe now) (buffer w) (char_at w) (rest_of w)
            (e ∙ after_threads-read exe x now not_endchar nz) (getchar_buffer w)
          ∙ e',
      Verdict-map Question-iff.0 Question-iff.1 vd,
    )

  -- The loop ends within its fuel, without a fault, and decides the question.
  pub loop_lem :
      (fuel : ℕ) (w : List ℕ) (tm : Threads)
      → length w < fuel
      → IsText w
      → Enters exe icase total tm w
      → Decides (Question tm w) total (vm_loop exe getchar_str fuel (char_at w) tm (rest_of w))
  loop_lem zero w tm lt text en = absurd (omega arith)
  loop_lem (suc fuel) [] tm lt text en = loop_end fuel tm en
  loop_lem (suc fuel) (x ∷ w) tm lt text en =
      let (now, e, sc) = run_here tm (x ∷ w) text en in
      elim (ℕ_discrete (length now.np.list) 0) [
        | yes z ↦ loop_died tm x w text en now sc fuel e z
        | no nz ↦ loop_next tm x w text en now sc fuel e nz (
            loop_lem fuel w (next_threads tm x w text en now sc) (omega arith) text.1
              (next_Enters tm x w text en now sc))
      ]
