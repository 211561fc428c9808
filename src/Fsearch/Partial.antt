-- ===== src/Fsearch/Partial.antt =====
-- `rxvm_fsearch` of librxvm/rxvm.c on an expression with a fixed substring: the search for the
-- substring, the start of the line, and the machine from there, in the first round of `bmh_partial`.
use mathlib.Core.Path.{subst}
use librxvm.Prelude.{
  ℕ, suc, ◌+◌, ◌-◌, ◌*◌, ◌^◌, ◌≤◌, ◌<◌, ◌≡◌, ◌≢◌, refl, ap, ap₂, ◌∙◌, ◌⊎◌, inl, inr, Bool, true,
  false, List, ◌++◌, [], ◌∷◌, none, some, Outcome, done, fault, out_of_fuel, ◌>>=◌, arith, ◌==◌,
  ==_iff, length, drop, get_elem?-lt, get_elem?-some,
}
use librxvm.Prelude.Int.{ℤ, pos}
use librxvm.Prelude.Words.{add32, sub32}
use librxvm.File.{Stdio, IsRegular, seek_set, eof}
use librxvm.Vm.{Threads, vm_execute}
use librxvm.Vm.Streams.{outcome, Outcome-cases}
use librxvm.Rxvm.{Compiled, MatchFlags, buffer, vm_init, getchar_str}
use librxvm.Bmh.{Bmh, bmh, bmh_init}
use librxvm.Bmh.Finds.{Occurs, IsContent, match_at}
use librxvm.Bmh.Whole.{IsPattern, bmh_init-Ends}
use librxvm.Fsearch.Reader.{fbuf_size, getchar_file}
use librxvm.Fsearch.Seek.{seek_to_start_of_line, seek_to_start_of_match}
use librxvm.Fsearch.Lines.{IsLineStart, seek_to_start_of_line-Stands}
use librxvm.Fsearch.Literals.{IsMissed, init-bmh-eq}
use librxvm.Fsearch.Machine.{text_of, first_threads, vm_execute-AsText, FoundBy}
use librxvm.Fsearch.Run.{
  Search, FileFound, run_vm, run_from, partial_round, partial_loop, bmh_partial, search_with_vm,
  search_file, report, rxvm_fsearch,
}

module _ {F : Type 0} {io : Stdio F} (reg : IsRegular io) where
  -- The threads that the machine starts with at the start `q` of a line, behind a match of the
  -- substring at `s`.
  abbrev pub threads_at : F → MatchFlags → ℕ → ℕ → Threads
  threads_at f flags q s = record (first_threads reg f flags) { chars = q; match_start = s }

  -- How the round ends where the machine ends with a match, or does not end.
  abbrev pub RoundEnds : Outcome (Bool × Threads) → Outcome (FileFound F) → Type 0
  RoundEnds (done (ret, tm)) m =
      tm.match_end ≢ 0 → (r : FileFound F) × (m ≡ done r) × FoundBy reg tm r
  RoundEnds fault m = m ≡ fault
  RoundEnds out_of_fuel m = m ≡ out_of_fuel

  report-hit :
      (bufsize : ℕ) (st : Search F)
      → st.tm.match_end ≢ 0
      → FoundBy reg st.tm (report io bufsize (pos 1, st))
  unfolding report seek_to_start_of_match
  report-hit bufsize st ne =
      let (_, at, _) =
        reg.fseek_moves (pos st.tm.match_start) seek_set st.reader.fp st.tm.match_start refl in
      let test : (st.tm.match_end == 0) ≡ false = ground arith in
      inr (ne, rw (report, test) refl, rw (report, test) refl, rw (report, test) at)

  module _ (bufsize fuel : ℕ) (compiled : Compiled) (last s q : ℕ) (f' : F) (st : Search F)
      (start_ok : seek_to_start_of_match io st.tm st.reader.fp ≡ (pos 0, f')) (g : F)
      (line : seek_to_start_of_line io last f' ≡ done (pos q, g))
      (hit : (st.tm.match_end == 0) ≡ false) where
    -- The state that the machine is run in.
    abbrev entered : Search F
    entered = record st {
      reader = record st.reader { fp = g; fpos = q };
      tm = record st.tm { match_end = 0; chars = q };
    }

    round-eq :
        partial_round io bufsize fuel compiled last st
        ≡ run_from io bufsize fuel compiled
            (st.tm.match_end - 1)
            (pos q)
            (record st { reader = record st.reader { fp = g } })
    unfolding partial_round
    round-eq = rw (partial_round, start_ok, line) refl

    first_round :
        (rounds : ℕ)
        → RoundEnds
            (outcome (vm_execute compiled.exe (getchar_file io) fuel entered.tm entered.reader))
            (partial_loop io bufsize (suc rounds) fuel compiled last st
              >>= (λ r. done (report io bufsize r)))
    unfolding partial_loop run_from run_vm
    first_round rounds =
        elim (Outcome-cases
          (vm_execute compiled.exe (getchar_file io) fuel entered.tm entered.reader)) [
            | inl e ↦ rw (e, partial_loop, hit, round-eq, run_from, run_vm, e) refl
            | inr (inl e) ↦ rw (e, partial_loop, hit, round-eq, run_from, run_vm, e) refl
            | inr (inr ((ret, tm, reader), e)) ↦
                let end : Search F = record { reader = reader; vars = st.vars; tm = tm } in
                rw e (λ ne.
                  let test : (tm.match_end == 0) ≡ false = ground arith in
                  (
                    report io bufsize (pos 1, end),
                    rw (partial_loop, hit, round-eq, run_from, run_vm, e, test) refl,
                    report-hit bufsize end ne,
                  ))
          ]

  -- The search up to the first round.
  module _ (alloc : ℕ → Bool) (bufsize fuel : ℕ) (file_buffer lfix : List ℕ) (vars : Bmh F)
      (compiled : Compiled) (fp : F) (flags : MatchFlags)
      (memory : alloc (length compiled.exe * 2 + 4 * length compiled.exe * 2) ≡ true)
      (is_program : compiled.simple ≡ none) (has_lfix : compiled.lfix ≡ some lfix) where
    abbrev started : Search F
    started = record {
      reader = record { fp = fp; fbuf = file_buffer; bufpos = fbuf_size; fpos = reg.offset fp };
      vars = vars;
      tm = record (first_threads reg fp flags) { chars = 0 };
    }

    search-eq :
        (r : ℤ × Threads × Bmh F) (n : ℕ)
        → add32 (sub32 compiled.lfixn compiled.lfix0) 1 ≡ n
        → (bmh_init io bufsize fp (buffer lfix) n vars >>= bmh io bufsize fuel started.tm) ≡ done r
        → (k : ℕ) → r.0 ≡ pos k
        → rxvm_fsearch io bufsize alloc fuel file_buffer vars (some compiled) (some fp) flags ≡ (
            partial_loop io bufsize fuel fuel compiled
              (reg.offset fp)
              (record { reader = record started.reader { fp = r.2.fp }; vars = r.2; tm = r.1 })
            >>= (λ z. done (report io bufsize z)))
    unfolding rxvm_fsearch search_file search_with_vm vm_init bmh_partial
    search-eq r n size e k code =
        rw
          (
            rxvm_fsearch,
            search_file,
            reg.ftell_offset fp,
            is_program,
            search_with_vm,
            vm_init,
            memory,
            has_lfix,
            bmh_partial,
            reg.ftell_offset fp,
            size,
            init-bmh-eq reg bufsize fuel n (buffer lfix) started r e,
            ◌>>=◌,
            code,
          )
          (ap₂
            (λ x y.
              partial_loop io bufsize fuel fuel (record compiled { simple = x; lfix = y })
                (reg.offset fp)
                (record { reader = record started.reader { fp = r.2.fp }; vars = r.2; tm = r.1 })
              >>= (λ z. done (report io bufsize z)))
            is_program has_lfix)

  -- How a search with a fixed substring ends: with the machine's round from the start of a line, or
  -- with no match where the substring does not occur.
  abbrev pub SearchEnds :
      ℕ → F → MatchFlags → Compiled → List ℕ → ℕ → Outcome (FileFound F) → Type 0
  SearchEnds fuel fp flags compiled lfix n m =
      ((s : ℕ) × (q : ℕ) × (reg.offset fp ≤ s)
        × Occurs (reg.content fp) (buffer lfix) n s
        × ((s' : ℕ) → reg.offset fp ≤ s' → s' < s → ¬ Occurs (reg.content fp) (buffer lfix) n s')
        × IsLineStart (reg.content fp) (reg.offset fp) s q
        × RoundEnds
            (outcome (
              vm_execute compiled.exe getchar_str fuel (threads_at fp flags q s)
                (drop q (reg.content fp) ++ eof ∷ [])))
            m)
      ⊎ ((r : FileFound F) × (m ≡ done r)
          × IsMissed reg r
          × ((s : ℕ) → reg.offset fp ≤ s → ¬ Occurs (reg.content fp) (buffer lfix) n s))

  module _ (alloc : ℕ → Bool) (bufsize fuel : ℕ) (file_buffer lfix : List ℕ) (vars : Bmh F)
      (compiled : Compiled) (fp : F) (flags : MatchFlags) (n : ℕ)
      (memory : alloc (length compiled.exe * 2 + 4 * length compiled.exe * 2) ≡ true)
      (is_program : compiled.simple ≡ none) (has_lfix : compiled.lfix ≡ some lfix)
      (size : add32 (sub32 compiled.lfixn compiled.lfix0) 1 ≡ n) (fits : bufsize + bufsize < 2 ^ 32)
      (pattern : IsPattern bufsize (buffer lfix) n) (text : IsContent (reg.content fp))
      (exact : flags.icase ≡ false) (small : vars.end ≤ bufsize)
      (buffer_size : length file_buffer ≡ fbuf_size) (enough : length (reg.content fp) ≤ fuel) where
    abbrev loop_from : Search F → Outcome (FileFound F)
    loop_from st =
        partial_loop io bufsize (suc fuel) (suc fuel) compiled (reg.offset fp) st
        >>= (λ z. done (report io bufsize z))

    -- Behind a match of the substring at `s` that leaves `b`.
    abbrev found_state : ℕ → Bmh F → Search F
    found_state s b = record {
      reader = record { fp = b.fp; fbuf = file_buffer; bufpos = fbuf_size; fpos = reg.offset fp };
      vars = b;
      tm =
          match_at reg bufsize (reg.content fp) (buffer lfix) n s
            (record (first_threads reg fp flags) { chars = 0 });
    }

    Occurs-inside :
        (s : ℕ) → Occurs (reg.content fp) (buffer lfix) n s → s ≤ length (reg.content fp)
    Occurs-inside s occurs =
        let (d, e) =
          get_elem?-some (buffer lfix) 0 (omega (arith, pattern.in_memory, pattern.some_pat)) in
        omega (arith, get_elem?-lt (reg.content fp) (s + 0) (occurs 0 pattern.some_pat ∙ e))

    missed_loop :
        (st : Search F) → st.tm.match_end ≡ 0 → loop_from st ≡ done (report io bufsize (pos 0, st))
    unfolding partial_loop
    missed_loop st e =
        let test : (st.tm.match_end == 0) ≡ true = (==_iff st.tm.match_end 0).1 e in
        rw (partial_loop, test) refl

    report-IsMissed :
        (st : Search F) → st.tm.match_end ≡ 0 → IsMissed reg (report io bufsize (pos 0, st))
    unfolding report
    report-IsMissed st e =
        let test : (st.tm.match_end == 0) ≡ true = (==_iff st.tm.match_end 0).1 e in
        (rw (report, test) refl, rw (report, test) refl)

    -- The first round, behind a match of the substring at `s` that leaves `b`.
    found_round :
        (s : ℕ) (b : Bmh F)
        → reg.content b.fp ≡ reg.content fp
        → s ≤ length (reg.content fp)
        → (q : ℕ) × IsLineStart (reg.content fp) (reg.offset fp) s q
          × RoundEnds
              (outcome (
                vm_execute compiled.exe getchar_str
                  (suc fuel)
                  (threads_at fp flags q s)
                  (drop q (reg.content fp) ++ eof ∷ [])))
              (loop_from (found_state s b))
    unfolding seek_to_start_of_match
    found_round s b same inside =
        let (ok, at, kept) = reg.fseek_moves (pos s) seek_set b.fp s refl in
        let f' : F = (io.fseek (pos s) seek_set b.fp).1 in
        let here : reg.content f' ≡ reg.content fp = kept ∙ same in
        let (rr, runs, (q, is, start, at_q, same_q)) =
          seek_to_start_of_line-Stands reg (reg.offset fp) f' (omega (arith, at, ap length here)) in
        let st : Search F = found_state s b in
        let hit : (s + n + 1 == 0) ≡ false = ground arith in
        let as_text =
          vm_execute-AsText reg compiled.exe (suc fuel) (threads_at fp flags q s)
            (record { fp = rr.1; fbuf = file_buffer; bufpos = fbuf_size; fpos = q }) refl
            buffer_size refl in
        let text_is : text_of reg rr.1 ≡ drop q (reg.content fp) ++ eof ∷ [] =
          ap₂ (λ o c. drop o c ++ eof ∷ []) at_q (same_q ∙ here) in
        (
          q,
          subst (λ c. IsLineStart c (reg.offset fp) s q) here
              (subst (λ o. IsLineStart (reg.content f') (reg.offset fp) o q) at start),
          subst (λ z. RoundEnds z (loop_from st))
              (as_text
                ∙ ap
                    (λ t.
                      outcome (
                        vm_execute compiled.exe getchar_str (suc fuel) (threads_at fp flags q s) t))
                    text_is)
              (first_round bufsize (suc fuel) compiled (reg.offset fp) s q f' st
                (rw (seek_to_start_of_match, ok) refl) rr.1 (runs ∙ ap (λ z. done (z, rr.1)) is) hit
                fuel),
        )

    -- For a compiled expression with a program and a fixed substring whose length lfix0 and lfixn
    -- give, of printable characters other than ~, not empty and no longer than the buffer of the
    -- search, on a regular file with no byte 255 and no ~, with case regarded, memory for the
    -- thread tables, a file_buffer of 256 bytes and more fuel than the file has bytes: where the
    -- substring does not occur from the file's offset on, rxvm_fsearch returns 0. Else, with s its
    -- first occurrence, there is a line's start q for s such that, where the machine ends with a
    -- match on a string of the bytes from q on and EOF, rxvm_fsearch returns 1 with the size of
    -- that match and the file at its start; where it makes an access out of range or runs out of
    -- fuel, so does rxvm_fsearch.
    pub rxvm_fsearch-SearchEnds :
        SearchEnds (suc fuel) fp flags compiled lfix n (
          rxvm_fsearch io bufsize alloc (suc fuel) file_buffer vars (some compiled) (some fp) flags)
    rxvm_fsearch-SearchEnds =
        let tm : Threads = record (first_threads reg fp flags) { chars = 0 } in
        let ends =
          bmh_init-Ends reg bufsize (buffer lfix) n fits pattern tm exact fuel fp vars small text
            enough in
        let open_search =
          search-eq alloc bufsize (suc fuel) file_buffer lfix vars compiled fp flags memory
            is_program has_lfix ends.result n size ends.returns in
        elim ends.finds [
          | inl (s, ret, hit, le, occurs, first) ↦
              let (q, start, round) =
                found_round s ends.result.2 ends.same (Occurs-inside s occurs) in
              inl (s, q, le, occurs, first, start, rw (open_search 1 ret) (rw hit round))
          | inr (ret, same, none_there) ↦
              let st : Search F = record {
                reader = record {
                  fp = ends.result.2.fp;
                  fbuf = file_buffer;
                  bufpos = fbuf_size;
                  fpos = reg.offset fp;
                };
                vars = ends.result.2;
                tm = ends.result.1;
              } in
              let none_found : st.tm.match_end ≡ 0 = ap (λ z. z.match_end) same in
              inr (
                report io bufsize (pos 0, st),
                open_search 0 ret ∙ missed_loop st none_found,
                report-IsMissed st none_found,
                none_there,
              )
        ]
