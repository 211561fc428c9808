-- ===== src/Fsearch/Run.antt =====
-- `rxvm_fsearch` of librxvm/rxvm.c with `bmh_partial`. The file is passed along; what the machine, the
-- buffer and librxvm/bmh.c keep are a state.
use librxvm.Prelude.{
  ℕ, zero, suc, ◌-◌, ◌%◌, ◌^◌, Bool, true, false, not, List, Option, none, some, Outcome, done,
  fault, out_of_fuel, ◌>>=◌, ◌||◌, ◌==◌, if◌then◌else◌, length,
}
use librxvm.Prelude.Int.{ℤ, pos, negsuc}
use librxvm.Prelude.Words.{add32, sub32}
use librxvm.Err.{rxvm_emem, rxvm_eparam, rxvm_ioerr}
use librxvm.File.{Stdio, seek_set, eof}
use librxvm.Bmh.{Bmh, bmh, bmh_reset, bmh_init}
use librxvm.Vm.{Threads, Flags, vm_execute}
use librxvm.Rxvm.{Compiled, MatchFlags, buffer, fresh_threads, vm_init}
use librxvm.Fsearch.Reader.{Reader, fbuf_size, getchar_file}
use librxvm.Fsearch.Seek.{match_size, seek_to_start_of_line, seek_to_start_of_match}

-- All that a search works on. `fp` of librxvm/bmh.c is the same file as the reader's.
pub record Search (F : Type 0) : Type 0 where
  pub reader : Reader F
  pub vars : Bmh F
  pub tm : Threads

-- How a round of the loop in `bmh_partial` ends: with a return, or the next `last_match_end`.
pub data PartialStep (F : Type 0) : Type 0 where
  stops : ℤ → Search F → PartialStep F
  restarts : ℕ → Search F → PartialStep F

-- What is stored at `match_size`, if anything is; no file where the pointer is null.
pub record FileFound (F : Type 0) : Type 0 where
  pub ret : ℤ
  pub size : Option ℤ
  pub file : Option F
  pub vars : Bmh F

module _ {F : Type 0} (io : Stdio F) (bufsize : ℕ) where
  abbrev pub with_file : F → Search F → Search F
  with_file f s = record s { reader = record s.reader { fp = f } }

  -- The variables of librxvm/bmh.c, with the file as it is.
  abbrev pub shared : Search F → Bmh F
  shared s = record s.vars { fp = s.reader.fp }

  abbrev pub share : Bmh F → Search F → Search F
  share b s = record s { reader = record s.reader { fp = b.fp }; vars = b }

  unfoldable pub run_bmh : ℕ → Search F → Outcome (ℤ × Search F)
  run_bmh fuel s =
      bmh io bufsize fuel s.tm (shared s) >>= (λ r. done (r.0, record (share r.2 s) { tm = r.1 }))

  unfoldable pub run_init : List ℕ → ℕ → Search F → Outcome (Search F)
  run_init pat len s = bmh_init io bufsize s.reader.fp pat len s.vars >>= (λ b. done (share b s))

  unfoldable pub run_reset : Search F → Outcome (Search F)
  run_reset s = bmh_reset io bufsize (shared s) >>= (λ b. done (share b s))

  unfoldable pub run_vm : ℕ → Compiled → Search F → Outcome (Search F)
  run_vm fuel compiled s =
      vm_execute compiled.exe (getchar_file io) fuel s.tm s.reader
      >>= (λ r. done (record s { tm = r.1; reader = r.2 }))

  abbrev pub is_negative : ℤ → Bool
  is_negative (pos n) = false
  is_negative (negsuc n) = true

  -- The end of a round, where the machine has found nothing.
  unfoldable pub start_again : ℕ → ℕ → ℕ → Search F → Outcome (PartialStep F)
  start_again fuel reset last_match_end s =
      let back : Bool × F = io.fseek (pos reset) seek_set s.reader.fp in
      if not back.0
      then done (stops rxvm_ioerr (with_file back.1 s))
      else run_reset (with_file back.1 s) >>= run_bmh fuel >>= (λ r.
        done (if is_negative r.0 then stops rxvm_ioerr r.1 else restarts last_match_end r.1))

  -- From `vm_execute` on, with the file at `start`.
  unfoldable pub run_from : ℕ → Compiled → ℕ → ℤ → Search F → Outcome (PartialStep F)
  run_from fuel compiled reset (negsuc e) s = done (stops (negsuc e) s)
  run_from fuel compiled reset (pos start) s =
      run_vm fuel compiled (record s {
        reader = record s.reader { fpos = start };
        tm = record s.tm { match_end = 0; chars = start };
      })
      >>= (λ s'.
          if not (s'.tm.match_end == 0)
          then done (stops (pos 1) s')
          else start_again fuel reset s.tm.match_end s')

  unfoldable pub partial_round : ℕ → Compiled → ℕ → Search F → Outcome (PartialStep F)
  partial_round fuel compiled last_match_end s =
      let r : ℤ × F = seek_to_start_of_match io s.tm s.reader.fp in
      if is_negative r.0
      then done (stops r.0 (with_file r.1 s))
      else seek_to_start_of_line io last_match_end r.1
        >>= (λ l. run_from fuel compiled (s.tm.match_end - 1) l.0 (with_file l.1 s))

  -- `while (tm->match_end)`
  unfoldable pub partial_loop : ℕ → ℕ → Compiled → ℕ → Search F → Outcome (ℤ × Search F)
  partial_loop zero fuel compiled last_match_end s = out_of_fuel
  partial_loop (suc rounds) fuel compiled last_match_end s = elim (s.tm.match_end == 0) [
    | true ↦ done (pos 0, s)
    | false ↦ elim (partial_round fuel compiled last_match_end s) [
      | fault ↦ fault
      | out_of_fuel ↦ out_of_fuel
      | done (stops ret s') ↦ done (ret, s')
      | done (restarts last s') ↦ partial_loop rounds fuel compiled last s'
    ]
  ]

  unfoldable pub bmh_partial : ℕ → Compiled → List ℕ → Search F → Outcome (ℤ × Search F)
  bmh_partial fuel compiled lfix s = elim (io.ftell s.reader.fp) [
    | none ↦ done (rxvm_ioerr, s)
    | some last_match_end ↦
        run_init (buffer lfix) (add32 (sub32 compiled.lfixn compiled.lfix0) 1) s
        >>= run_bmh fuel
        >>= (λ r.
            if is_negative r.0
            then done (rxvm_ioerr, r.1)
            else partial_loop fuel fuel compiled last_match_end r.1)
  ]

  -- `if (tm.match_end)` at the end, and what follows `cleanup`.
  unfoldable pub report : ℤ × Search F → FileFound F
  report (ret, s) =
      if is_negative ret || s.tm.match_end == 0
      then record { ret = ret; size = none; file = some s.reader.fp; vars = s.vars }
      else record {
        ret = pos 1;
        size = some (match_size s.tm);
        file = some (seek_to_start_of_match io s.tm s.reader.fp).1;
        vars = s.vars;
      }

  -- With no literals to compare alone: the machine, behind a search for the fixed substring where
  -- there is one.
  unfoldable pub search_with_vm : (ℕ → Bool) → ℕ → Compiled → ℕ → Search F → Outcome (ℤ × Search F)
  search_with_vm alloc fuel compiled start s = elim (vm_init alloc (length compiled.exe) s.tm) [
    | none ↦ done (rxvm_emem, s)
    | some tm ↦ elim compiled.lfix [
      | some lfix ↦ bmh_partial fuel compiled lfix (record s { tm = tm })
      | none ↦
          run_vm fuel compiled (record s { tm = record tm { chars = start } })
          >>= (λ s'. done (pos 0, s'))
    ]
  ]

  unfoldable pub search_simple : ℕ → List ℕ → Search F → Outcome (ℤ × Search F)
  search_simple fuel simple s = run_init (buffer simple) (length simple % 2 ^ 32) s >>= run_bmh fuel

  abbrev pub search_flags : MatchFlags → Flags
  search_flags flags = record {
    icase = flags.icase;
    nongreedy = flags.nongreedy;
    multiline = flags.multiline;
    search = true;
    endchar = eof;
  }

  -- `rxvm_fsearch` on pointers that are not null. `file_buffer` is what the array has before it is
  -- written; each loop takes `fuel`.
  unfoldable pub search_file :
      (ℕ → Bool) → ℕ → List ℕ → Bmh F → Compiled → F → MatchFlags → Outcome (FileFound F)
  search_file alloc fuel file_buffer vars compiled fp flags = elim (io.ftell fp) [
    | none ↦ done (record { ret = rxvm_ioerr; size = none; file = some fp; vars = vars })
    | some start ↦ elim compiled.simple [
      | some simple ↦ search_simple fuel simple (s start) >>= (λ r. done (report r))
      | none ↦ search_with_vm alloc fuel compiled start (s start) >>= (λ r. done (report r))
    ]
  ]
    where
      s : ℕ → Search F
      s start = record {
        reader = record { fp = fp; fbuf = file_buffer; bufpos = fbuf_size; fpos = start };
        vars = vars;
        tm = fresh_threads (search_flags flags);
      }

  unfoldable pub rxvm_fsearch :
      (ℕ → Bool)
      → ℕ
      → List ℕ
      → Bmh F
      → Option Compiled
      → Option F
      → MatchFlags
      → Outcome (FileFound F)
  rxvm_fsearch alloc fuel file_buffer vars (some compiled) (some fp) flags =
      search_file alloc fuel file_buffer vars compiled fp flags
  rxvm_fsearch alloc fuel file_buffer vars compiled fp flags =
      done (record { ret = rxvm_eparam; size = none; file = fp; vars = vars })
