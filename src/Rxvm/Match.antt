-- ===== src/Rxvm/Match.antt =====
-- `rxvm_match` with a program decides whether the program accepts the whole input.
use mathlib.Core.Path.{subst}
use librxvm.Prelude.{
  ℕ, zero, suc, ◌+◌, ◌*◌, ◌≤◌, ◌<◌, ◌≡◌, refl, sym, ◌∙◌, ◌⊎◌, inl, inr, Bool, true, false, List, [],
  ◌∷◌, none, some, Outcome, done, arith, length, replicate, get_elem?, length-append, if◌then◌else◌,
  get_elem?-concat, get_or-replicate,
}
use mathlib.Core.Bool.{false≢true}
use librxvm.Prelude.Int.{ℤ, pos}
use librxvm.Inst.{Program}
use librxvm.Vm.{Threads, vm_execute}
use librxvm.Vm.Spec.{IsWellFormed, Accepts}
use librxvm.Vm.Queue.{empty-IsTable}
use librxvm.Vm.Loop.{vm_execute-starts}
use librxvm.Rxvm.{
  Compiled, MatchFlags, buffer, getchar_str, vm_init, ends_at_nul, match_string, fresh_threads,
}
use librxvm.Rxvm.Loop.{
  IsText, match_flags, Verdict, accepted, ended, died, Decides, loop_lem, Verdict-map,
  getchar_buffer,
}

-- The program accepts exactly the whole of `w`, from the start of the input.
abbrev pub AcceptsAll : Program → Bool → List ℕ → Type 0
AcceptsAll exe icase w = Accepts exe icase true 0 true 0 w (length w)

-- A function that returns 1 for yes and 0 for no answers `G`.
abbrev pub Answers : Type 0 → Outcome ℤ → Type 0
Answers G o = ((o ≡ done (pos 1)) × G) ⊎ ((o ≡ done (pos 0)) × (¬ G))

execute-Decides :
    (exe : Program) (icase : Bool) (w : List ℕ)
    → IsWellFormed exe
    → IsText w
    → Decides (AcceptsAll exe icase w) (length w) (
        vm_execute exe getchar_str
          (length (buffer w))
          (fresh_threads (match_flags icase))
          (buffer w))
execute-Decides exe icase w wf text =
    let (t, e, it, m) =
      vm_execute-starts exe getchar_str (length (buffer w)) (fresh_threads (match_flags icase))
        (buffer w) wf in
    let tm : Threads = record (fresh_threads (match_flags icase)) {
      cp = t;
      np = record { list = []; lookup = replicate (length exe) false };
      chars = 1;
    } in
    let (r, e', vd) =
      loop_lem exe icase (length w) wf (length (buffer w)) w tm
        (omega (arith, length-append w (0 ∷ []))) text
        (record {
          cur = it;
          next = empty-IsTable (length exe);
          fresh = λ v h. false≢true (sym (get_or-replicate (length exe) v false) ∙ h);
          flags = refl;
          started = omega arith;
          old = omega arith;
          count = omega arith;
        }) in
    (
      r,
      rw (e, getchar_buffer w) e',
      Verdict-map
          (λ q. subst (λ v. Accepts exe icase true v true 0 w (length w)) ((m q.0).0 q.1) q.2)
          (λ a. (0, (m 0).1 refl, a)) vd,
    )

text_pos :
    (w : List ℕ) (i : ℕ)
    → IsText w
    → i < length w
    → (c : ℕ) × (get_elem? (buffer w) i ≡ some c) × (0 < c)
text_pos [] i text lt = absurd (omega arith)
text_pos (x ∷ w) zero text lt = (x, refl, text.0)
text_pos (x ∷ w) (suc i) text lt = text_pos w i text.1 (omega arith)

-- The test behind a run: the match has to end at the terminator.
pub ends_at_nul-all : (w : List ℕ) → ends_at_nul (buffer w) (suc (length w)) ≡ done (pos 1)
unfolding ends_at_nul
ends_at_nul-all w = rw (get_elem?-concat w 0, ends_at_nul)

pub ends_at_nul-part :
    (w : List ℕ) (m : ℕ) → IsText w → m ≤ length w → ends_at_nul (buffer w) m ≡ done (pos 0)
unfolding ends_at_nul
ends_at_nul-part w zero text le = refl
ends_at_nul-part w (suc i) text le =
    let (c, e, p) = text_pos w i text (omega arith) in rw (e, ends_at_nul) (ground arith)

-- What `rxvm_match` makes of the run.
finish : List ℕ → Bool × Threads × List ℕ → Outcome ℤ
finish w r = if r.0 then done (pos 0) else ends_at_nul (buffer w) r.1.match_end

finish-Answers :
    (G : Type 0) (w : List ℕ) (r : Bool × Threads × List ℕ)
    → IsText w
    → Verdict G (length w) r.0 r.1.match_end
    → Answers G (finish w r)
unfolding finish
finish-Answers G w r text (accepted g e m) =
    let all : r.1.match_end ≡ suc (length w) = omega arith in
    inl (rw (e, all) (ends_at_nul-all w), g)
finish-Answers G w r text (ended ng e m) = inr (rw e (ends_at_nul-part w r.1.match_end text m), ng)
finish-Answers G w r text (died ng e) = inr (rw e, ng)

runs :
    (alloc : ℕ → Bool) (compiled : Compiled) (input : List ℕ) (flags : MatchFlags)
    (r : Bool × Threads × List ℕ)
    → compiled.simple ≡ none
    → alloc (length compiled.exe * 2 + 4 * length compiled.exe * 2) ≡ true
    → vm_execute compiled.exe getchar_str
        (length (buffer input))
        (fresh_threads (match_flags flags.icase))
        (buffer input)
      ≡ done r
    → match_string alloc compiled input flags ≡ finish input r
unfolding match_string vm_init finish
runs alloc compiled input flags r ns mem e = rw (ns, match_string, mem, e)

-- For a compiled expression that is not only literals and whose program is well formed, a text with
-- no terminator inside, and memory for the thread tables, the call returns 1 if the program accepts
-- exactly the whole text, and 0 if it does not; it ends within its fuel and makes no access outside
-- the tables, the program or the string.
pub match_string-Accepts :
    (alloc : ℕ → Bool) (compiled : Compiled) (input : List ℕ) (flags : MatchFlags)
    → IsWellFormed compiled.exe
    → IsText input
    → compiled.simple ≡ none
    → alloc (length compiled.exe * 2 + 4 * length compiled.exe * 2) ≡ true
    → Answers (AcceptsAll compiled.exe flags.icase input) (match_string alloc compiled input flags)
match_string-Accepts alloc compiled input flags wf text ns mem =
    let (r, e, vd) = execute-Decides compiled.exe flags.icase input wf text in
    rw (runs alloc compiled input flags r ns mem e) (finish-Answers _ input r text vd)
