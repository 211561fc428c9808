-- ===== src/Bmh.antt =====
-- The Boyer-Moore-Horspool search in a file, librxvm/bmh.c. Its variables are a record, the file that
-- `fp` refers to included; the numbers are 32-bit unsigned. BUFSIZE is a parameter, 8192 in the source.
pub mod Buffer
pub mod Skip
pub mod Table
pub mod Compare
pub mod Finds
pub mod Search
pub mod Whole
use librxvm.Prelude.{
  ℕ, zero, suc, ◌+◌, ◌-◌, Bool, true, false, List, [], ◌∷◌, ◌++◌, Option, none, some, Outcome, done,
  fault, out_of_fuel, ◌>>=◌, ltb, leb, ◌==◌, if◌then◌else◌, length, get_elem?, set, take, drop,
  replicate,
}
use librxvm.Prelude.Int.{ℤ, pos, negsuc}
use librxvm.Prelude.Words.{add32, sub32}
use librxvm.Err.{rxvm_ioerr}
use librxvm.File.{Stdio, eof}
use librxvm.Lex.{isprintable}
use librxvm.Vm.{Threads, char_match}

-- PRINTABLE_HIGH - WS_LOW
abbrev pub asize : ℕ
asize = b'~' - 7

-- `atoindex`; none where it is negative.
abbrev pub atoindex : ℕ → Option ℕ
atoindex a = if ltb a 7 then none else some (a - 7)

pub record Bmh (F : Type 0) : Type 0 where
  pub badchar : List ℕ
  pub bmhbuf : List ℕ
  pub fp : F
  pub pattern : List ℕ
  pub plen : ℕ
  pub pos : ℕ
  pub end : ℕ
  pub endix : ℕ
  pub pendix : ℕ

-- A read of an array.
abbrev pub read_at : List ℕ → ℕ → Outcome ℕ
read_at xs i = elim (get_elem? xs i) [ none ↦ fault | some v ↦ done v ]

-- `badchar[atoindex(c)]`
unfoldable pub badchar_at : List ℕ → ℕ → Outcome ℕ
badchar_at badchar c = elim (atoindex c) [ none ↦ fault | some i ↦ read_at badchar i ]

-- `badchar[atoindex(c)] = v`
unfoldable pub set_badchar : List ℕ → ℕ → ℕ → Outcome (List ℕ)
set_badchar badchar c v = elim (atoindex c) [
  | none ↦ fault
  | some i ↦ if ltb i (length badchar) then done (set badchar i v) else fault
]

-- The second loop of `bmh_init` from `i` on, with `pat` the rest of the pattern from there.
unfoldable pub set_shifts : ℕ → ℕ → List ℕ → List ℕ → Outcome (List ℕ)
set_shifts len i [] badchar = if ltb i (sub32 len 1) then fault else done badchar
set_shifts len i (c ∷ pat) badchar = elim (ltb i (sub32 len 1)) [
  | false ↦ done badchar
  | true ↦ elim (set_badchar badchar c (sub32 (sub32 len i) 1)) [
    | fault ↦ fault
    | out_of_fuel ↦ out_of_fuel
    | done badchar' ↦ set_shifts len (i + 1) pat badchar'
  ]
]

-- The comparison from `i` down to 0 of `input`, which starts at `start` of the buffer.
unfoldable pub compare_at : Bool → List ℕ → ℕ → List ℕ → ℕ → Outcome Bool
compare_at icase buf start pat i = do
  a ← read_at buf (start + i)
  b ← read_at pat i
  done (char_match icase a b)

unfoldable pub compare_down : Bool → List ℕ → ℕ → List ℕ → ℕ → Outcome Bool
compare_down icase buf start pat zero = compare_at icase buf start pat 0
compare_down icase buf start pat (suc i) = elim (compare_at icase buf start pat (suc i)) [
  | fault ↦ fault
  | out_of_fuel ↦ out_of_fuel
  | done false ↦ done false
  | done true ↦ compare_down icase buf start pat i
]

-- `skiplen` after a difference, with the character `c` at the end of the window.
unfoldable pub skip_length : List ℕ → ℕ → ℕ → Outcome ℕ
skip_length badchar plen c = if isprintable c then badchar_at badchar c else done plen

module _ {F : Type 0} (bufsize : ℕ) where
  -- What follows the call of `fread` for `wanted` bytes behind the `backup` bytes `kept`: where it
  -- read less, the rest of the buffer is set to EOF.
  unfoldable pub filled : ℕ → ℕ → List ℕ → List ℕ × F → Bmh F → Bmh F
  filled backup wanted kept r b =
      let rsize : ℕ = length r.0 in
      if ltb rsize wanted
      then record b {
        bmhbuf = (kept ++ r.0) ++ replicate (sub32 bufsize (add32 backup rsize)) eof;
        fp = r.1;
        end = add32 backup rsize;
        endix = sub32 (add32 backup rsize) 1;
      }
      else record b { bmhbuf = kept ++ r.0; fp = r.1; end = bufsize; endix = sub32 bufsize 1 }

module _ {F : Type 0} (io : Stdio F) (bufsize : ℕ) where
  -- `memmove` reads from `end - backup` on; a read outside the buffer is a fault.
  unfoldable pub fill : ℕ → Bmh F → Outcome (Bmh F)
  fill backup b =
      if ltb bufsize (from + backup)
      then fault
      else done
          (filled bufsize backup wanted (take backup (drop from b.bmhbuf)) (io.fread wanted b.fp) b)
    where
      from : ℕ
      from = sub32 b.end backup

      wanted : ℕ
      wanted = sub32 bufsize backup

  unfoldable pub skip : ℕ → Bmh F → Outcome (ℕ × Bmh F)
  skip num b = do
    b' ←
        if ltb b.endix total
        then fill (sub32 b.plen (sub32 total b.endix)) b
          >>= (λ f. done (record f { pos = f.pendix }))
        else done (record b { pos = total })
    c ← read_at b'.bmhbuf b'.pos
    done (c, b')
    where
      total : ℕ
      total = add32 b.pos num

  -- What a match leaves; the file's offset is that of the end of the buffer.
  unfoldable pub found : Threads → Bmh F → ℤ × Threads × Bmh F
  found tm b = elim (io.ftell b.fp) [
    | none ↦ (rxvm_ioerr, tm, b)
    | some fpos ↦ (
      pos 1,
      record tm {
        match_start = fpos - 1 - b.pendix - sub32 b.endix b.pos;
        match_end = fpos + 1 - sub32 b.endix b.pos;
      },
      b,
    )
  ]

  -- The code from `skip:`. Each call of `skip` takes one unit of fuel.
  unfoldable pub bmh_loop : ℕ → ℕ → Threads → Bmh F → Outcome (ℤ × Threads × Bmh F)
  bmh_loop zero skiplen tm b = out_of_fuel
  bmh_loop (suc fuel) skiplen tm b = elim (skip skiplen b) [
    | fault ↦ fault
    | out_of_fuel ↦ out_of_fuel
    | done (c, b') ↦ elim (c == eof) [
      | true ↦ done (pos 0, tm, b')
      | false ↦
          elim (compare_down tm.flags.icase b'.bmhbuf (sub32 b'.pos b'.pendix) b'.pattern
            b'.pendix) [
              | fault ↦ fault
              | out_of_fuel ↦ out_of_fuel
              | done true ↦ done (found tm b')
              | done false ↦ elim (skip_length b'.badchar b'.plen c) [
                | fault ↦ fault
                | out_of_fuel ↦ out_of_fuel
                | done skiplen' ↦ bmh_loop fuel skiplen' tm b'
              ]
            ]
    ]
  ]

  unfoldable pub bmh : ℕ → Threads → Bmh F → Outcome (ℤ × Threads × Bmh F)
  bmh fuel tm b = bmh_loop fuel b.pendix tm b

  unfoldable pub bmh_reset : Bmh F → Outcome (Bmh F)
  bmh_reset b = fill 0 (record b { pos = 0; pendix = sub32 b.plen 1 })

  -- `pat` is the memory from the pattern on, its terminator included.
  unfoldable pub bmh_init : F → List ℕ → ℕ → Bmh F → Outcome (Bmh F)
  bmh_init file pat len b = do
    badchar ← set_shifts len 0 pat (replicate asize len)
    bmh_reset (record b { badchar = badchar; pattern = pat; fp = file; plen = len })
