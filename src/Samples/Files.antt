-- ===== src/Samples/Files.antt =====
-- Searching files that are held in memory.
use librxvm.Prelude.{
  ℕ, zero, suc, ◌<◌, ◌≡◌, refl, true, false, List, [], ◌∷◌, none, some, some_inj, done, fault,
  ◌>>=◌, arith, get_elem?, drop, replicate, length-replicate,
}
use librxvm.Prelude.Int.{ℤ, negsuc}
use librxvm.Print.{err_message-inj}
use mathlib.Core.Path.{subst}
use Prim.Native.Nat.{◌≤◌}
use librxvm.Prelude.Words.{add32, sub32}
use librxvm.Fsearch.Partial.{SearchEnds, rxvm_fsearch-SearchEnds}
use librxvm.File.{MemoryFile, memory, memory-IsRegular}
use librxvm.Inst.{Program, set_op_char, set_op_match}
use librxvm.Vm.{Threads, vm_execute}
use librxvm.Vm.Streams.{outcome}
use librxvm.Rxvm.{Compiled, MatchFlags, buffer, fresh_threads, getchar_str}
use librxvm.Bmh.{Bmh, asize, fill, set_badchar, set_shifts, bmh, bmh_init}
use librxvm.Bmh.Buffer.{Holds, Leaves, fill-Holds}
use librxvm.Bmh.Table.{IsTable, set_shifts-IsTable}
use librxvm.Bmh.Compare.{IsPlain}
use librxvm.Bmh.Finds.{IsContent, Ends}
use librxvm.Bmh.Whole.{IsPattern, bmh_init-Ends}
use librxvm.Fsearch.Reader.{Reader, fbuf_size, getchar_file}
use librxvm.Fsearch.Seek.{seek_to_start_of_line}
use librxvm.Fsearch.Run.{FileFound, search_flags, rxvm_fsearch}
use librxvm.Fsearch.Lines.{Stands, seek_to_start_of_line-Stands}
use librxvm.Fsearch.Literals.{FindsFirst, rxvm_fsearch-FindsFirst}
use librxvm.Fsearch.Machine.{EndsAs, text_of, first_threads, vm_execute-AsText, rxvm_fsearch-EndsAs}

-- xab, newline, ab
abbrev six : List ℕ
six = b'x' ∷ b'a' ∷ b'b' ∷ b'\n' ∷ b'a' ∷ b'b' ∷ []

abbrev file_at : ℕ → MemoryFile
file_at n = record { bytes = six; at = n }

abbrev nothing : Bmh MemoryFile
nothing = record {
  badchar = [];
  bmhbuf = [];
  fp = file_at 0;
  pattern = [];
  plen = 0;
  pos = 0;
  end = 0;
  endix = 0;
  pendix = 0;
}

abbrev plain_flags : MatchFlags
plain_flags = record { icase = false; nongreedy = false; multiline = false }

abbrev ab : List ℕ
ab = b'a' ∷ b'b' ∷ []

ab-IsPattern : IsPattern 4 (buffer ab) 2
ab-IsPattern = record {
  some_pat = omega arith;
  short = omega arith;
  in_memory = omega arith;
  plain = λ j d lt e. plain j d lt e;
}
  where
    plain : (j d : ℕ) → j < 2 → get_elem? (buffer ab) j ≡ some d → IsPlain d
    plain zero d lt e = subst (λ z. IsPlain z) (some_inj e) (refl, omega arith)
    plain (suc zero) d lt e = subst (λ z. IsPlain z) (some_inj e) (refl, omega arith)
    plain (suc (suc j)) d lt e = absurd (omega arith)

-- No character is EOF or ~, at the head and in the rest.
IsContent-cons : (c : ℕ) (w : List ℕ) → c < 126 → IsContent w → IsContent (c ∷ w)
IsContent-cons c w lt h zero d e = let is : c ≡ d = some_inj e in (omega arith, omega arith)
IsContent-cons c w lt h (suc i) d e = h i d e

IsContent-nil : IsContent []
IsContent-nil i d e = let none_is : none ≡ some d = e in absurd (cc)

six-IsContent : IsContent six
six-IsContent = IsContent-cons b'x' (drop 1 six) (omega arith) (
    IsContent-cons b'a' (drop 2 six) (omega arith) (
      IsContent-cons b'b' (drop 3 six) (omega arith) (
        IsContent-cons b'\n' (drop 4 six) (omega arith) (
          IsContent-cons b'a' (drop 5 six) (omega arith)
            (IsContent-cons b'b' (drop 6 six) (omega arith) IsContent-nil)))))

abbrev threads : Threads
threads = fresh_threads (search_flags memory 4 plain_flags)

bmh_init-Ends_example :
    Ends memory-IsRegular 4 six
      (buffer ab)
      2
      0
      threads
      (bmh_init memory 4 (file_at 0) (buffer ab) 2 nothing >>= bmh memory 4 7 threads)
bmh_init-Ends_example =
    bmh_init-Ends memory-IsRegular 4 (buffer ab) 2 (omega arith) ab-IsPattern threads refl 6
      (file_at 0) nothing (omega arith) six-IsContent (omega arith)

set_shifts-IsTable_example :
    (table : List ℕ) × (set_shifts 2 0 (buffer ab) (replicate asize 2) ≡ done table)
    × IsTable 2 1 (buffer ab) table
set_shifts-IsTable_example =
    set_shifts-IsTable 2 (buffer ab) (omega arith) (omega arith) (λ j c lt e. indexed j c lt e)
      (omega arith)
  where
    indexed : (j c : ℕ) → j < 2 → get_elem? (buffer ab) j ≡ some c → (7 ≤ c) × (c < b'~')
    indexed zero c lt e = let is : b'a' ≡ c = some_inj e in (omega arith, omega arith)
    indexed (suc zero) c lt e = let is : b'b' ≡ c = some_inj e in (omega arith, omega arith)
    indexed (suc (suc j)) c lt e = absurd (omega arith)

-- The buffer holds the first four bytes; the last of them is kept.
abbrev four_read : Bmh MemoryFile
four_read = record nothing {
  bmhbuf = b'x' ∷ b'a' ∷ b'b' ∷ b'\n' ∷ [];
  fp = file_at 4;
  end = 4;
  endix = 3;
}

fill-Holds_example :
    (b' : Bmh MemoryFile) × (fill memory 4 1 four_read ≡ done b')
    × Holds memory-IsRegular 4 six 3 b'
    × Leaves memory-IsRegular 4 four_read b'
    × (b'.pos ≡ 0)
fill-Holds_example =
    fill-Holds memory-IsRegular 4 (omega arith) six 3 1 four_read (omega arith) (omega arith) refl
      refl refl refl

seek_to_start_of_line-Stands_example :
    (r : ℤ × MemoryFile) × (seek_to_start_of_line memory 1 (file_at 5) ≡ done r)
    × Stands memory-IsRegular 1 5 (file_at 5) r
seek_to_start_of_line-Stands_example =
    seek_to_start_of_line-Stands memory-IsRegular 1 (file_at 5) (omega arith)

abbrev literals : Compiled
literals = record { exe = []; simple = some ab; lfix = none; lfix0 = 0; lfixn = 0 }

rxvm_fsearch-FindsFirst_example :
    (r : FileFound MemoryFile) × (rxvm_fsearch memory 4
        (λ n. true)
        7
        []
        nothing
        (some literals)
        (some (file_at 2))
        plain_flags
      ≡ done r)
    × FindsFirst memory-IsRegular 4 six (buffer ab) 2 2 r
rxvm_fsearch-FindsFirst_example =
    rxvm_fsearch-FindsFirst memory-IsRegular (λ n. true) 4 7 [] nothing literals ab (file_at 2)
      plain_flags (omega arith) refl ab-IsPattern six-IsContent refl (omega arith) (omega arith)

abbrev just_b : Program
just_b = set_op_char b'b' ∷ set_op_match ∷ []

abbrev program : Compiled
program = record { exe = just_b; simple = none; lfix = none; lfix0 = 0; lfixn = 0 }

abbrev reader : Reader MemoryFile
reader = record { fp = file_at 2; fbuf = replicate fbuf_size 0; bufpos = fbuf_size; fpos = 2 }

vm_execute-AsText_example :
    outcome (vm_execute just_b (getchar_file memory) 20 threads reader)
    ≡ outcome (vm_execute just_b getchar_str 20 threads (text_of memory-IsRegular (file_at 2)))
vm_execute-AsText_example =
    vm_execute-AsText memory-IsRegular just_b 20 threads reader refl
      (length-replicate {A = ℕ} fbuf_size 0) refl

rxvm_fsearch-EndsAs_example :
    EndsAs memory-IsRegular
      (outcome (
        vm_execute just_b getchar_str 20
          (first_threads memory-IsRegular (file_at 2) plain_flags)
          (text_of memory-IsRegular (file_at 2))))
      (rxvm_fsearch memory 4
        (λ n. true)
        20
        (replicate fbuf_size 0)
        nothing
        (some program)
        (some (file_at 2))
        plain_flags)
rxvm_fsearch-EndsAs_example =
    rxvm_fsearch-EndsAs memory-IsRegular (λ n. true) 4 20 (replicate fbuf_size 0) nothing program
      (file_at 2) plain_flags refl (length-replicate {A = ℕ} fbuf_size 0) refl refl

-- A pattern with ~ makes a write behind the table.
tilde_faults : bmh_init memory 4 (file_at 0) (buffer (b'~' ∷ b'b' ∷ [])) 2 nothing ≡ fault
unfolding bmh_init set_shifts set_badchar sub32
tilde_faults = refl

err_message-inj_example : negsuc 3 ≡ negsuc 3
err_message-inj_example = err_message-inj (negsuc 3) (negsuc 3) (omega arith) refl

-- The program of ab, which is its own fixed substring.
abbrev with_substring : Compiled
with_substring = record {
  exe = set_op_char b'a' ∷ set_op_char b'b' ∷ set_op_match ∷ [];
  simple = none;
  lfix = some ab;
  lfix0 = 0;
  lfixn = 1;
}

two_characters : add32 (sub32 1 0) 1 ≡ 2
unfolding add32 sub32
two_characters = refl

rxvm_fsearch-SearchEnds_example :
    SearchEnds memory-IsRegular 7 (file_at 2) plain_flags with_substring ab 2 (
      rxvm_fsearch memory 4
        (λ n. true)
        7
        (replicate fbuf_size 0)
        nothing
        (some with_substring)
        (some (file_at 2))
        plain_flags)
rxvm_fsearch-SearchEnds_example =
    rxvm_fsearch-SearchEnds memory-IsRegular (λ n. true) 4 6 (replicate fbuf_size 0) ab nothing
      with_substring (file_at 2) plain_flags 2 refl refl refl two_characters (omega arith)
      ab-IsPattern six-IsContent refl (omega arith) (length-replicate {A = ℕ} fbuf_size 0)
      (omega arith)
