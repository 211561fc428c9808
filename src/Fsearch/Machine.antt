-- ===== src/Fsearch/Machine.antt =====
-- `rxvm_fsearch` of librxvm/rxvm.c on an expression with a program and no fixed substring: the machine
-- reads the file as it would read a string that ends in EOF.
use librxvm.Prelude.{
  ℕ, ◌+◌, ◌*◌, ◌≡◌, ◌≢◌, refl, ◌⊎◌, inl, inr, Bool, true, Bool-cases, List, [], ◌∷◌, ◌++◌, none,
  some, Outcome, done, fault, out_of_fuel, arith, ◌==◌, ==_iff, length,
}
use librxvm.Prelude.Int.{pos}
use librxvm.Inst.{Program}
use librxvm.File.{Stdio, IsRegular, seek_set, eof}
use librxvm.Vm.{Threads, vm_execute}
use librxvm.Vm.Streams.{outcome, Agree, vm_execute-SameOutcome, Outcome-cases}
use librxvm.Rxvm.{Compiled, MatchFlags, vm_init, getchar_str}
use librxvm.Bmh.{Bmh}
use librxvm.Fsearch.Reader.{Reader, fbuf_size, getchar_file}
use librxvm.Fsearch.Seek.{match_size, seek_to_start_of_match}
use librxvm.Fsearch.Feeds.{unread, Feeds, start-Feeds, getchar_file-Fetches}
use librxvm.Fsearch.Literals.{StandsAt}
use librxvm.Fsearch.Run.{
  Search, FileFound, run_vm, search_with_vm, search_file, report, rxvm_fsearch,
}

module _ {F : Type 0} {io : Stdio F} (reg : IsRegular io) where
  -- The rest of the file as text, with EOF behind it.
  abbrev pub text_of : F → List ℕ
  text_of f = unread reg f ++ eof ∷ []

  abbrev AsText : Reader F → List ℕ → Type 0
  AsText s t = (w : List ℕ) × Feeds reg s w × (t ≡ w ++ eof ∷ [])

  AsText-Agree :
      (exe : Program) (s : Reader F) (t : List ℕ)
      → AsText s t
      → Agree exe (getchar_file io) getchar_str eof AsText s t
  unfolding getchar_str
  AsText-Agree exe s t ([], feeds, e) =
      let (s', q) = getchar_file-Fetches reg s [] feeds in (eof, s', [], q, rw e refl, inl refl)
  AsText-Agree exe s t (c ∷ w, feeds, e) =
      let (s', q, feeds') = getchar_file-Fetches reg s (c ∷ w) feeds in
      (c, s', w ++ eof ∷ [], q, rw e refl, inr (w, feeds', refl))

  -- On a regular file, with the buffer of 256 bytes used up: whatever the program, the flags and the
  -- fuel are, with EOF for endchar, vm_execute with getchar_file from where the file is ends as it
  -- does with getchar_str on a string of the rest of the file's bytes and EOF: with the same return
  -- value and threads, with a fault, or out of fuel.
  pub vm_execute-AsText :
      (exe : Program) (fuel : ℕ) (tm : Threads) (s : Reader F)
      → tm.flags.endchar ≡ eof
      → length s.fbuf ≡ fbuf_size
      → s.bufpos ≡ fbuf_size
      → outcome (vm_execute exe (getchar_file io) fuel tm s)
        ≡ outcome (vm_execute exe getchar_str fuel tm (text_of s.fp))
  vm_execute-AsText exe fuel tm s e size used =
      vm_execute-SameOutcome exe (getchar_file io) getchar_str eof AsText (AsText-Agree exe) fuel tm
        s (text_of s.fp) e (unread reg s.fp, start-Feeds reg s size used, refl)

  -- What `rxvm_fsearch` makes of the threads that the machine leaves.
  abbrev pub FoundBy : Threads → FileFound F → Type 0
  FoundBy tm r =
      ((tm.match_end ≡ 0) × (r.ret ≡ pos 0) × (r.size ≡ none))
      ⊎ ((tm.match_end ≢ 0)
          × (r.ret ≡ pos 1)
          × (r.size ≡ some (match_size tm))
          × StandsAt reg tm.match_start r.file)

  -- How the search ends, by how the machine ends on the text.
  abbrev pub EndsAs : Outcome (Bool × Threads) → Outcome (FileFound F) → Type 0
  EndsAs (done (ret, tm)) m = (r : FileFound F) × (m ≡ done r) × FoundBy tm r
  EndsAs fault m = m ≡ fault
  EndsAs out_of_fuel m = m ≡ out_of_fuel

  report-FoundBy : (bufsize : ℕ) (s : Search F) → FoundBy s.tm (report io bufsize (pos 0, s))
  unfolding report seek_to_start_of_match
  report-FoundBy bufsize s = elim (Bool-cases (s.tm.match_end == 0)) [
    | inl e ↦ inl ((==_iff s.tm.match_end 0).0 e, rw (report, e) refl, rw (report, e) refl)
    | inr e ↦
        let (_, at, _) =
          reg.fseek_moves (pos s.tm.match_start) seek_set s.reader.fp s.tm.match_start refl in
        inr (ground arith, rw (report, e) refl, rw (report, e) refl, rw (report, e) at)
  ]

  -- The threads that the machine starts with.
  abbrev pub first_threads : F → MatchFlags → Threads
  first_threads f flags = record {
    chars = reg.offset f;
    match_start = 0;
    match_end = 0;
    cp = record { list = []; lookup = [] };
    np = record { list = []; lookup = [] };
    lastinput = 0;
    flags = record {
      icase = flags.icase;
      nongreedy = flags.nongreedy;
      multiline = flags.multiline;
      search = true;
      endchar = eof;
    };
  }

  -- For a compiled expression with a program and no fixed substring, on a regular file, with
  -- memory for the thread tables and a file_buffer of 256 bytes, whatever these are, rxvm_fsearch
  -- ends as the machine does with the same fuel on a string of the bytes from the file's offset on
  -- and EOF: where that leaves no match it returns 0, where it leaves one 1 with its size, and the
  -- file at its start; where that makes an access out of range or runs out of fuel, so does
  -- rxvm_fsearch.
  pub rxvm_fsearch-EndsAs :
      (alloc : ℕ → Bool) (bufsize fuel : ℕ) (file_buffer : List ℕ) (vars : Bmh F)
      (compiled : Compiled) (fp : F) (flags : MatchFlags)
      → alloc (length compiled.exe * 2 + 4 * length compiled.exe * 2) ≡ true
      → length file_buffer ≡ fbuf_size
      → compiled.simple ≡ none
      → compiled.lfix ≡ none
      → EndsAs
          (outcome (vm_execute compiled.exe getchar_str fuel (first_threads fp flags) (text_of fp)))
          (rxvm_fsearch io bufsize alloc fuel file_buffer vars (some compiled) (some fp) flags)
  unfolding rxvm_fsearch search_file search_with_vm vm_init run_vm
  rxvm_fsearch-EndsAs alloc bufsize fuel file_buffer vars compiled fp flags memory size is_program
        no_lfix =
      let tm : Threads = first_threads fp flags in
      let s : Reader F = record {
        fp = fp;
        fbuf = file_buffer;
        bufpos = fbuf_size;
        fpos = reg.offset fp;
      } in
      let m = vm_execute compiled.exe (getchar_file io) fuel tm s in
      rw (← vm_execute-AsText compiled.exe fuel tm s refl size refl) (elim (Outcome-cases m) [
        | inl f ↦
            rw
              (
                f,
                rxvm_fsearch,
                search_file,
                reg.ftell_offset fp,
                is_program,
                search_with_vm,
                vm_init,
                memory,
                no_lfix,
                run_vm,
                f,
              )
              refl
        | inr (inl f) ↦
            rw
              (
                f,
                rxvm_fsearch,
                search_file,
                reg.ftell_offset fp,
                is_program,
                search_with_vm,
                vm_init,
                memory,
                no_lfix,
                run_vm,
                f,
              )
              refl
        | inr (inr ((ret, tm', s'), f)) ↦
            let end : Search F = record { reader = s'; vars = vars; tm = tm' } in
            let path : rxvm_fsearch io bufsize alloc fuel file_buffer vars (some compiled) (some fp)
                  flags
                ≡ done (report io bufsize (pos 0, end)) =
              rw
                (
                  rxvm_fsearch,
                  search_file,
                  reg.ftell_offset fp,
                  is_program,
                  search_with_vm,
                  vm_init,
                  memory,
                  no_lfix,
                  run_vm,
                  f,
                )
                refl in
            rw f (report io bufsize (pos 0, end), path, report-FoundBy bufsize end)
      ])
