-- ===== src/Vm.antt =====
-- The virtual machine, librxvm/vm.c and vm.h: threads are queued for the current and for the next
-- character, and every queued thread runs once for each character.
pub mod Case
pub mod Spec
pub mod Queue
pub mod Step
pub mod Run
pub mod Scan
pub mod Reach
pub mod Loop
pub mod WellFormed
pub mod Streams
use librxvm.Prelude.{
  ℕ, zero, suc, ◌+◌, ◌-◌, Bool, true, false, ◌&&◌, ◌||◌, not, List, [], ◌∷◌, ◌++◌, Option, none,
  some, Outcome, done, fault, out_of_fuel, ◌>>=◌, leb, ltb, ◌==◌, if◌then◌else◌, length, get_elem?,
  set, replicate,
}
use librxvm.Prelude.Int.{ℤ, index}
use librxvm.Inst.{Op, char, any, class, nclass, branch, jmp, sol, eol, match, Inst, Program}

-- The macro of vm.h, which compares `x - 'A'` with `udiff` as ints: every code up to 'Z' is moved.
unfoldable pub tolower : ℕ → ℕ
tolower x = if leb x b'Z' then x + 32 else x

unfoldable pub char_match : Bool → ℕ → ℕ → Bool
unfolding tolower
char_match icase a b = if icase then tolower a == tolower b else a == b

unfoldable pub ccs_match : Bool → List ℕ → ℕ → Bool
ccs_match icase [] c = false
ccs_match icase (d ∷ ccs) c = if char_match icase d c then true else ccs_match icase ccs c

-- A thread list with its lookup table: `cp`, `cp_lookup` and `csize`, or `np`, `np_lookup` and
-- `nsize`. The list holds the entries below the size; the table has as many entries as the list
-- has room for.
pub record Table : Type 0 where
  pub list : List ℕ
  pub lookup : List Bool

-- The flags are those fields of `threads_t` that a run never writes.
pub record Flags : Type 0 where
  pub icase : Bool
  pub nongreedy : Bool
  pub multiline : Bool
  pub search : Bool
  pub endchar : ℕ

pub record Threads : Type 0 where
  pub chars : ℕ
  pub match_start : ℕ
  pub match_end : ℕ
  pub cp : Table
  pub np : Table
  pub lastinput : ℕ
  pub flags : Flags

-- A read of `lookup[val]` or a write of `list[lsize]` outside the tables is a fault.
unfoldable pub add_thread : Table → ℕ → Outcome Table
add_thread t val = elim (get_elem? t.lookup val) [
  | none ↦ fault
  | some true ↦ done t
  | some false ↦
      if ltb (length t.list) (length t.lookup)
      then done (record { list = t.list ++ val ∷ []; lookup = set t.lookup val true })
      else fault
]

unfoldable pub is_sol : Threads → Bool
is_sol tm = if tm.chars == 1 then true else tm.flags.multiline && tm.lastinput == b'\n'

unfoldable pub is_eol : Threads → ℕ → Bool
is_eol tm c = if c == tm.flags.endchar then true else tm.flags.multiline && c == b'\n'

unfoldable pub add_thread_curr : Threads → ℕ → Outcome Threads
add_thread_curr tm val = add_thread tm.cp val >>= λ t. done (record tm { cp = t })

unfoldable pub add_thread_next : Threads → ℕ → Outcome Threads
add_thread_next tm val = add_thread tm.np val >>= λ t. done (record tm { np = t })

-- A jump to an `int` that is no index is the access `lookup[val]` with `val` negative.
unfoldable pub add_thread_to : Threads → ℤ → Outcome Threads
add_thread_to tm x = elim (index x) [ none ↦ fault | some i ↦ add_thread_curr tm i ]

-- The string that a class instruction points at; a null pointer is a fault.
unfoldable pub class_match : Threads → ℕ → Inst → Outcome Bool
class_match tm c inst = elim inst.ccs [
  | none ↦ fault
  | some ccs ↦ done (ccs_match tm.flags.icase ccs c)
]

-- After a `break` out of the switch the loop over the threads goes on.
abbrev pub go_on : Outcome Threads → Outcome (Threads × Bool)
go_on m = m >>= λ tm. done (tm, false)

-- The switch of `vm_execute`, for the instruction `inst` at index `ii` and the character `c`.
-- The result is true where the code returns at once.
unfoldable pub exec_op : Op → ℕ → ℕ → Inst → Threads → Outcome (Threads × Bool)
exec_op char c ii inst tm =
    if char_match tm.flags.icase c inst.c
    then go_on (add_thread_next tm (ii + 1))
    else done (tm, false)
exec_op any c ii inst tm =
    if not (c == b'\n') then go_on (add_thread_next tm (ii + 1)) else done (tm, false)
exec_op sol c ii inst tm =
    if is_sol tm then go_on (add_thread_curr tm (ii + 1)) else done (tm, false)
exec_op eol c ii inst tm =
    if is_eol tm c then go_on (add_thread_curr tm (ii + 1)) else done (tm, false)
exec_op class c ii inst tm = do
  m ← class_match tm c inst
  if m then go_on (add_thread_next tm (ii + 1)) else done (tm, false)
exec_op nclass c ii inst tm = do
  m ← class_match tm c inst
  if not m then go_on (add_thread_next tm (ii + 1)) else done (tm, false)
exec_op branch c ii inst tm = do tm' ← add_thread_to tm inst.x; go_on (add_thread_to tm' inst.y)
exec_op jmp c ii inst tm = go_on (add_thread_to tm inst.x)
exec_op match c ii inst tm = done (record tm { match_end = tm.chars }, tm.flags.nongreedy)

-- How one pass over the threads ends: the run stops with its return value, the same character is
-- scanned again (`goto skip_readchar`), or the next one is read.
pub data Round : Type 0 where
  stop : Bool → Threads → Round
  again : Threads → Round
  read : Threads → Round

-- `cp_lookup[cp[i]] = 0` for every queued thread.
unfoldable pub clear_lookup : List ℕ → List Bool → List Bool
clear_lookup [] lookup = lookup
clear_lookup (v ∷ list) lookup = clear_lookup list (set lookup v false)

-- At `vm_start`: a fresh thread at the start of the program.
unfoldable pub vm_start : Threads → Outcome Threads
vm_start tm = add_thread_curr (record tm { match_start = tm.chars }) 0

-- No thread is queued for the next character.
unfoldable pub no_next : Threads → Outcome Round
no_next tm =
    if not tm.flags.search || not (tm.match_end == 0)
    then done (stop true tm)
    else if not (tm.chars - 1 == tm.match_start)
    then add_thread_curr (record cleared { match_start = tm.chars - 1 }) 0
      >>= (λ tm'. done (again tm'))
    else vm_start cleared >>= (λ tm'. done (read tm'))
  where
    cleared : Threads
    cleared = record tm { cp = record { list = []; lookup = clear_lookup tm.cp.list tm.cp.lookup } }

module _ (exe : Program) where
  -- `for (t = 0; t < tm->csize; ++t)`, from `t` on; `csize` grows on the way.
  unfoldable pub run_threads : ℕ → ℕ → ℕ → Threads → Outcome (Threads × Bool)
  run_threads zero c t tm = out_of_fuel
  run_threads (suc fuel) c t tm = elim (get_elem? tm.cp.list t) [
    | none ↦ done (tm, false)
    | some ii ↦ elim (get_elem? exe ii) [
      | none ↦ fault
      | some inst ↦ elim (exec_op inst.op c ii inst tm) [
        | fault ↦ fault
        | out_of_fuel ↦ out_of_fuel
        | done (tm', true) ↦ done (tm', true)
        | done (tm', false) ↦ run_threads fuel c (t + 1) tm'
      ]
    ]
  ]

  -- The full swap of the two queues, and the new next queue empty.
  unfoldable pub swap_queues : Threads → Threads
  swap_queues tm = record tm {
    cp = tm.np;
    np = record { list = []; lookup = replicate (length exe) false };
  }

  -- What follows the loop over the threads.
  unfoldable pub after_threads : ℕ → Threads → Outcome Round
  after_threads c tm =
      if c == tm.flags.endchar
      then done (stop false tm)
      else if length tm.np.list == 0
      then no_next tm
      else done (read (swap_queues tm))

  -- From `skip_readchar` to the end of the body of `while (1)`.
  unfoldable pub scan : ℕ → Threads → Outcome Round
  scan c tm = do
    r ← run_threads (length exe + 1) c 0 tm
    if r.1 then done (stop true r.0) else after_threads c r.0

  -- `getchar` is the function pointer of `threads_t`, over the stream that it reads.
  module _ {S : Type 0} (getchar : S → Outcome (ℕ × S)) where
    -- The loop, entered with the character `c` that was read last.
    unfoldable pub vm_loop : ℕ → ℕ → Threads → S → Outcome (Bool × Threads × S)
    vm_loop zero c tm s = out_of_fuel
    vm_loop (suc fuel) c tm s = elim (scan c tm) [
      | fault ↦ fault
      | out_of_fuel ↦ out_of_fuel
      | done (stop ret tm') ↦ done (ret, tm', s)
      | done (again tm') ↦ vm_loop fuel c tm' s
      | done (read tm') ↦ elim (getchar s) [
        | fault ↦ fault
        | out_of_fuel ↦ out_of_fuel
        | done (c', s') ↦ vm_loop fuel c' (record tm' { lastinput = c; chars = tm'.chars + 1 }) s'
      ]
    ]

    -- The tables are zeroed; then the first character is read with a thread at the start.
    unfoldable pub vm_execute : ℕ → Threads → S → Outcome (Bool × Threads × S)
    vm_execute fuel tm s = do
      tm' ← vm_start (record tm { cp = no_threads; np = no_threads })
      r ← getchar s
      vm_loop fuel r.0 (record tm' { lastinput = 0; chars = tm'.chars + 1 }) r.1
      where
        no_threads : Table
        no_threads = record { list = []; lookup = replicate (length exe) false }
