-- ===== src/Fsearch/Literals.antt =====
-- `rxvm_fsearch` of librxvm/rxvm.c on an expression of literals alone.
use librxvm.Prelude.{
  ℕ, zero, suc, ◌+◌, ◌-◌, ◌%◌, ◌^◌, ◌≤◌, ◌<◌, ◌≡◌, refl, sym, ap, ◌∙◌, ◌⊎◌, inl, inr, Bool, true,
  false, List, Option, none, some, done, fault, out_of_fuel, ◌>>=◌, arith, ◌==◌, length, leb,
}
use librxvm.Prelude.Int.{ℤ, pos}
use librxvm.File.{Stdio, IsRegular, seek_set}
use librxvm.Vm.{Threads}
use librxvm.Vm.Streams.{Outcome-cases}
use librxvm.Rxvm.{Compiled, MatchFlags, buffer, fresh_threads}
use librxvm.Bmh.{Bmh, bmh, bmh_init}
use librxvm.Bmh.Finds.{Occurs, IsContent, Finds}
use librxvm.Bmh.Whole.{IsPattern, bmh_init-Ends}
use librxvm.Fsearch.Reader.{Reader, fbuf_size}
use librxvm.Fsearch.Seek.{match_size, seek_to_start_of_match}
use librxvm.Fsearch.Run.{
  Search, FileFound, run_bmh, run_init, search_simple, search_flags, search_file, report,
  rxvm_fsearch,
}

fault-done : {A : Type 0} {a : A} → fault ≡ done a → ⊥
fault-done e = absurd (cc)

fuel-done : {A : Type 0} {a : A} → out_of_fuel ≡ done a → ⊥
fuel-done e = absurd (cc)

module _ {F : Type 0} {io : Stdio F} (reg : IsRegular io) where
  -- A file that stands at an offset.
  abbrev pub StandsAt : ℕ → Option F → Type 0
  StandsAt s none = ⊥
  StandsAt s (some f) = reg.offset f ≡ s

  -- What is returned for a match, the size of the match, and where the file is left.
  abbrev pub IsFound : ℕ → ℕ → FileFound F → Type 0
  IsFound s n r = (r.ret ≡ pos 1) × (r.size ≡ some (pos n)) × StandsAt s r.file

  abbrev pub IsMissed : FileFound F → Type 0
  IsMissed r = (r.ret ≡ pos 0) × (r.size ≡ none)

  module _ (bufsize : ℕ) (content pat : List ℕ) (n p : ℕ) where
    -- The first occurrence from `p` on is found, or there is none.
    abbrev pub FindsFirst : FileFound F → Type 0
    FindsFirst r =
        ((s : ℕ) × IsFound s n r
          × (p ≤ s)
          × Occurs content pat n s
          × ((s' : ℕ) → p ≤ s' → s' < s → ¬ Occurs content pat n s'))
        ⊎ (IsMissed r × ((s : ℕ) → p ≤ s → ¬ Occurs content pat n s))

    report-FindsFirst :
        (tm : Threads) (reader : Reader F) (r : ℤ × Threads × Bmh F)
        → tm.match_end ≡ 0
        → Finds reg bufsize content pat n p tm r
        → FindsFirst (report io bufsize (r.0, record { reader = reader; vars = r.2; tm = r.1 }))
    unfolding report seek_to_start_of_match match_size
    report-FindsFirst tm reader r e (inl (s, ret, hit, le, occurs, first)) =
        let (_, at, _) = reg.fseek_moves (pos s) seek_set reader.fp s refl in
        let ends : (s + n + 1 == 0) ≡ false = ground arith in
        let far : leb (s + 1) (s + n + 1) ≡ true = ground arith in
        let size : s + n + 1 - (s + 1) ≡ n = omega arith in
        inl (s, rw (ret, hit, ends, far, size) (refl, refl, at), le, occurs, first)
    report-FindsFirst tm reader r e (inr (ret, same, none_there)) =
        inr (rw (ret, same, e) (refl, refl), none_there)

  -- `bmh_init` and `bmh` on the search's variables.
  pub init-bmh-eq :
      (bufsize fuel len : ℕ) (pat : List ℕ) (s : Search F) (r : ℤ × Threads × Bmh F)
      → (bmh_init io bufsize s.reader.fp pat len s.vars >>= bmh io bufsize fuel s.tm) ≡ done r
      → (run_init io bufsize pat len s >>= run_bmh io bufsize fuel)
        ≡ done (r.0, record { reader = record s.reader { fp = r.2.fp }; vars = r.2; tm = r.1 })
  unfolding run_init run_bmh
  init-bmh-eq bufsize fuel len pat s r e =
      elim (Outcome-cases (bmh_init io bufsize s.reader.fp pat len s.vars)) [
        | inl f ↦ absurd (fault-done (sym (ap (λ z. z >>= bmh io bufsize fuel s.tm) f) ∙ e))
        | inr (inl f) ↦ absurd (fuel-done (sym (ap (λ z. z >>= bmh io bufsize fuel s.tm) f) ∙ e))
        | inr (inr (b, f)) ↦
            let g : bmh io bufsize fuel s.tm b ≡ done r =
              sym (ap (λ z. z >>= bmh io bufsize fuel s.tm) f) ∙ e in
            rw (run_init, f, ◌>>=◌, run_bmh, g) refl
      ]

  search_simple-eq :
      (bufsize fuel : ℕ) (simple : List ℕ) (s : Search F) (r : ℤ × Threads × Bmh F)
      → (bmh_init io bufsize s.reader.fp (buffer simple) (length simple % 2 ^ 32) s.vars
          >>= bmh io bufsize fuel s.tm)
        ≡ done r
      → search_simple io bufsize fuel simple s
        ≡ done (r.0, record { reader = record s.reader { fp = r.2.fp }; vars = r.2; tm = r.1 })
  unfolding search_simple
  search_simple-eq bufsize fuel simple s r e =
      init-bmh-eq bufsize fuel (length simple % 2 ^ 32) (buffer simple) s r e

  -- For an expression that rxvm_compile left as its literals, of printable characters other than ~,
  -- not empty and no longer than the buffer of the search, in a regular file with no byte 255 and no
  -- ~, and with case regarded: rxvm_fsearch always returns, makes no access outside an array, and
  -- gives 1, the length of the expression and the file at the expression's first occurrence from the
  -- file's offset on, as it stands, or 0 if it does not occur from there on.
  pub rxvm_fsearch-FindsFirst :
      (alloc : ℕ → Bool) (bufsize fuel : ℕ) (file_buffer : List ℕ) (vars : Bmh F)
      (compiled : Compiled) (simple : List ℕ) (fp : F) (flags : MatchFlags)
      → bufsize + bufsize < 2 ^ 32
      → compiled.simple ≡ some simple
      → IsPattern bufsize (buffer simple) (length simple)
      → IsContent (reg.content fp)
      → flags.icase ≡ false
      → vars.end ≤ bufsize
      → length (reg.content fp) < fuel
      → (r : FileFound F) × (rxvm_fsearch io bufsize alloc fuel file_buffer vars
            (some compiled)
            (some fp)
            flags
          ≡ done r)
        × FindsFirst bufsize (reg.content fp) (buffer simple) (length simple) (reg.offset fp) r
  unfolding rxvm_fsearch search_file
  rxvm_fsearch-FindsFirst alloc bufsize zero file_buffer vars compiled simple fp flags fits is
        pattern text exact small enough =
      absurd (omega arith)
  rxvm_fsearch-FindsFirst alloc bufsize (suc fuel) file_buffer vars compiled simple fp flags fits is
        pattern text exact small enough =
      let tm : Threads = fresh_threads (search_flags io bufsize flags) in
      let n : length simple % 2 ^ 32 ≡ length simple = omega (arith, pattern.short) in
      let ends =
        bmh_init-Ends reg bufsize (buffer simple) (length simple) fits pattern tm exact fuel fp vars
          small text (omega arith) in
      let s : Search F = record {
        reader = record { fp = fp; fbuf = file_buffer; bufpos = fbuf_size; fpos = reg.offset fp };
        vars = vars;
        tm = tm;
      } in
      (
        report io bufsize (
          ends.result.0,
          record {
            reader = record s.reader { fp = ends.result.2.fp };
            vars = ends.result.2;
            tm = ends.result.1;
          },
        ),
        rw
            (
              rxvm_fsearch,
              search_file,
              reg.ftell_offset fp,
              is,
              search_simple-eq bufsize (suc fuel) simple s ends.result (rw n ends.returns),
            )
            refl,
        report-FindsFirst bufsize (reg.content fp) (buffer simple) (length simple) (reg.offset fp)
            tm (record s.reader { fp = ends.result.2.fp }) ends.result refl ends.finds,
      )
