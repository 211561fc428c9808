-- ===== src/Samples/Match.antt =====
-- `rxvm_match` on the program of `a+`.
use librxvm.Lfix.Text.{Literal, written, meant}
use librxvm.Rxvm.Literals.{SameText, match_string-SameText}
use librxvm.Prelude.{List, some, ◌≡◌, refl, true, false, [], ◌∷◌, none, done, arith}
use librxvm.Prelude.Int.{pos}
use librxvm.Inst.{Program, set_op_char, set_op_branch, set_op_match}
use librxvm.Vm.Spec.{IsWellFormed}
use librxvm.Vm.WellFormed.{AllFit-IsWellFormed}
use librxvm.Vm.{
  vm_execute, vm_start, add_thread_curr, add_thread_next, add_thread_to, add_thread, vm_loop, scan,
  run_threads, exec_op, char_match, after_threads, swap_queues,
}
use librxvm.Rxvm.{getchar_str, ends_at_nul, vm_init, Compiled, MatchFlags, match_string}
use librxvm.Rxvm.Match.{AcceptsAll, Answers, match_string-Accepts}

-- a+
abbrev one_or_more : Program
one_or_more = set_op_char b'a' ∷ set_op_branch (pos 0) (pos 2) ∷ set_op_match ∷ []

abbrev compiled : Compiled
compiled = record { exe = one_or_more; simple = none; lfix = none; lfix0 = 0; lfixn = 0 }

abbrev no_flags : MatchFlags
no_flags = record { icase = false; nongreedy = false; multiline = false }

one_or_more-IsWellFormed : IsWellFormed one_or_more
unfolding set_op_char set_op_branch set_op_match
one_or_more-IsWellFormed = AllFit-IsWellFormed one_or_more (omega arith) (omega arith)

matches_aa : match_string (λ n. true) compiled (b'a' ∷ b'a' ∷ []) no_flags ≡ done (pos 1)
unfolding set_op_char set_op_branch set_op_match match_string vm_init vm_execute vm_start
    add_thread_curr add_thread_next add_thread_to add_thread getchar_str vm_loop scan run_threads
    exec_op char_match after_threads swap_queues ends_at_nul
matches_aa = refl

match_string-Accepts_example :
    Answers
      (AcceptsAll one_or_more false (b'a' ∷ b'a' ∷ []))
      (match_string (λ n. true) compiled (b'a' ∷ b'a' ∷ []) no_flags)
match_string-Accepts_example =
    match_string-Accepts (λ n. true) compiled (b'a' ∷ b'a' ∷ []) no_flags one_or_more-IsWellFormed
      (omega arith) refl refl

-- a\+
abbrev literals : List Literal
literals = (false, b'a') ∷ (true, b'+') ∷ []

abbrev only_literals : Compiled
only_literals = record {
  exe = [];
  simple = some (written literals);
  lfix = none;
  lfix0 = 0;
  lfixn = 1;
}

match_string-SameText_example :
    Answers
      (SameText false (meant literals) (b'a' ∷ b'+' ∷ []))
      (match_string (λ n. true) only_literals (b'a' ∷ b'+' ∷ []) no_flags)
match_string-SameText_example =
    match_string-SameText (λ n. true) only_literals literals (b'a' ∷ b'+' ∷ []) no_flags refl
      (omega arith, tt) (omega arith, (omega arith, tt))
