-- ===== src/Rxvm.antt =====
-- Matching and searching in strings: `rxvm_match`, `rxvm_search` and `simple_match` of
-- librxvm/rxvm.c, with `vm_init` of librxvm/vm.c.
pub mod Loop
pub mod Match
pub mod Literals
use librxvm.Prelude.{
  ℕ, zero, suc, ◌+◌, ◌-◌, ◌*◌, Bool, true, false, not, ◌&&◌, List, [], ◌∷◌, ◌++◌, Option, none,
  some, Outcome, done, fault, out_of_fuel, ◌>>=◌, ◌==◌, if◌then◌else◌, length, get_elem?,
}
use librxvm.Prelude.Int.{ℤ, pos, negsuc, sub_ℕ}
use librxvm.Inst.{Program}
use librxvm.Err.{rxvm_emem, rxvm_eparam}
use librxvm.Vm.{Table, Threads, Flags, char_match, vm_execute}

-- `rxvm_t`. `exe` and `simple` are null or point at an array; `size` is the length of `exe`.
pub record Compiled : Type 0 where
  pub exe : Program
  pub simple : Option (List ℕ)
  pub lfix : Option (List ℕ)
  pub lfix0 : ℕ
  pub lfixn : ℕ

-- The bit-flags of rxvm.h, already read out of `flags`.
pub record MatchFlags : Type 0 where
  pub icase : Bool
  pub nongreedy : Bool
  pub multiline : Bool

-- A string in memory is its characters and the terminator.
abbrev pub buffer : List ℕ → List ℕ
buffer s = s ++ 0 ∷ []

-- The stream is the rest of the buffer that `*input` points into.
unfoldable pub getchar_str : List ℕ → Outcome (ℕ × List ℕ)
getchar_str [] = fault
getchar_str (c ∷ s) = done (c, s)

-- What `memset` and the assignments that follow it leave in `threads_t`.
abbrev pub fresh_threads : Flags → Threads
fresh_threads flags = record {
  chars = 0;
  match_start = 0;
  match_end = 0;
  cp = record { list = []; lookup = [] };
  np = record { list = []; lookup = [] };
  lastinput = 0;
  flags = flags;
}

abbrev pub char_at : List ℕ → ℕ
char_at [] = 0
char_at (c ∷ _) = c

-- How an iteration of `simple_match` goes on: at a place of the pattern, or with a return of 0.
pub data Simple : Type 0 where
  at : List ℕ → Threads → Simple
  differs : Threads → Simple

-- `++simple` after a match. The place [] is the terminator: there is nothing behind it.
abbrev pub advance : List ℕ → Threads → Outcome Simple
advance [] tm = fault
advance (_ ∷ p) tm = done (at p tm)

-- The code from `skip_readchar`, entered for the second time: now `simple` is `orig`.
unfoldable pub simple_restart : List ℕ → ℕ → Threads → Outcome Simple
simple_restart orig c tm =
    if char_match tm.flags.icase (char_at orig) c
    then advance orig tm
    else done (at orig (record tm { match_start = tm.chars }))

-- The code from `skip_readchar` for the character `c`, with `simple` at `p`. The pointers differ
-- when the strings behind them differ in length.
unfoldable pub simple_step : List ℕ → List ℕ → ℕ → Threads → Outcome Simple
simple_step orig p c tm =
    if char_match tm.flags.icase (char_at p) c
    then advance p tm
    else if not tm.flags.search
    then done (differs tm)
    else if not (length p == length orig)
    then simple_restart orig c (record tm { match_start = tm.chars - 1 })
    else done (at p (record tm { match_start = tm.chars }))

-- `if (*simple == '\\') ++simple;`
abbrev pub skip_escape : List ℕ → List ℕ
skip_escape [] = []
skip_escape (d ∷ p) = if d == b'\\' then p else d ∷ p

-- `while (*simple)`; the result is the return value with the state.
unfoldable pub simple_loop : List ℕ → List ℕ → Threads → List ℕ → Outcome (Bool × Threads)
simple_loop orig [] tm s = done (true, record tm { match_end = tm.chars + 1 })
simple_loop orig (d ∷ p) tm [] = fault
simple_loop orig (d ∷ p) tm (c ∷ s) =
    let tm' : Threads = record tm { chars = tm.chars + 1 } in
    elim (c == tm.flags.endchar) [
      | true ↦ done (true, tm')
      | false ↦ elim (simple_step orig (skip_escape (d ∷ p)) c tm') [
        | fault ↦ fault
        | out_of_fuel ↦ out_of_fuel
        | done (differs tm'') ↦ done (false, tm'')
        | done (at q tm'') ↦ simple_loop orig q tm'' s
      ]
    ]

unfoldable pub simple_match : List ℕ → Threads → List ℕ → Outcome (Bool × Threads)
simple_match simple tm s = simple_loop simple simple (record tm { match_start = tm.chars }) s

-- `alloc n` tells whether `malloc` finds `n` bytes; the size is VM_TABLE_SIZE with ints of 4 bytes.
unfoldable pub vm_init : (ℕ → Bool) → ℕ → Threads → Option Threads
vm_init alloc size tm =
    if alloc (size * 2 + 4 * size * 2)
    then some (record tm { match_start = 0; match_end = 0; lastinput = 0; chars = 0 })
    else none

-- `tm.match_end && !*(sot + (tm.match_end - 1))`
unfoldable pub ends_at_nul : List ℕ → ℕ → Outcome ℤ
ends_at_nul buf zero = done (pos 0)
ends_at_nul buf (suc i) = elim (get_elem? buf i) [
  | none ↦ fault
  | some c ↦ done (if c == 0 then pos 1 else pos 0)
]

-- `rxvm_match` on pointers that are not null. Each character read takes one unit of fuel.
unfoldable pub match_string : (ℕ → Bool) → Compiled → List ℕ → MatchFlags → Outcome ℤ
match_string alloc compiled input flags = elim compiled.simple [
  | some simple ↦ do
    r ← simple_match simple tm buf
    if r.0 then ends_at_nul buf r.1.match_end else done (pos 0)
  | none ↦ elim (vm_init alloc (length compiled.exe) tm) [
    | none ↦ done rxvm_emem
    | some tm' ↦ do
      r ← vm_execute compiled.exe getchar_str (length buf) tm' buf
      if r.0 then done (pos 0) else ends_at_nul buf r.1.match_end
  ]
]
  where
    buf : List ℕ
    buf = buffer input

    tm : Threads
    tm = fresh_threads (record {
      icase = flags.icase;
      nongreedy = false;
      multiline = true;
      search = false;
      endchar = 0;
    })

unfoldable pub rxvm_match : (ℕ → Bool) → Option Compiled → Option (List ℕ) → MatchFlags → Outcome ℤ
unfolding match_string
rxvm_match alloc (some compiled) (some input) flags = match_string alloc compiled input flags
rxvm_match alloc _ _ flags = done rxvm_eparam

-- The return value of `rxvm_search` with what it stores at `start` and `end`: offsets from
-- the start of the input, or none for NULL.
pub record Found : Type 0 where
  pub ret : ℤ
  pub start : Option ℕ
  pub end : Option ℤ

unfoldable pub found_by : Threads → Found
found_by tm =
    if tm.match_end == 0
    then record { ret = pos 0; start = none; end = none }
    else record { ret = pos 1; start = some tm.match_start; end = some (sub_ℕ tm.match_end 2) }

-- `rxvm_search` on pointers that are not null; where the tables cannot be allocated it returns the
-- error and stores nothing. Two passes over the queue at most are made for each character.
unfoldable pub search_string : (ℕ → Bool) → Compiled → List ℕ → MatchFlags → Outcome Found
search_string alloc compiled input flags = elim compiled.simple [
  | some simple ↦ simple_match simple tm buf >>= (λ r. done (found_by r.1))
  | none ↦ elim (vm_init alloc (length compiled.exe) tm) [
    | none ↦ done (record { ret = rxvm_emem; start = none; end = none })
    | some tm' ↦
        vm_execute compiled.exe getchar_str (2 * length buf) tm' buf >>= (λ r. done (found_by r.1))
  ]
]
  where
    buf : List ℕ
    buf = buffer input

    tm : Threads
    tm = fresh_threads (record {
      icase = flags.icase;
      nongreedy = flags.nongreedy;
      multiline = flags.multiline;
      search = true;
      endchar = 0;
    })
