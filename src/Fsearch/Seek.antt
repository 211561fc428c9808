-- ===== src/Fsearch/Seek.antt =====
-- Moving a file to the start of a line or of a match, in librxvm/rxvm.c.
use librxvm.Prelude.{
  ℕ, zero, suc, ◌+◌, ◌-◌, Bool, true, false, not, List, [], ◌∷◌, Option, none, some, Outcome, done,
  out_of_fuel, ltb, ◌==◌, if◌then◌else◌, length,
}
use librxvm.Prelude.Int.{ℤ, pos, negsuc, sub_ℕ}
use librxvm.Err.{rxvm_ioerr}
use librxvm.File.{Stdio, seek_set, seek_cur, minus}
use librxvm.Vm.{Threads}

abbrev pub lbuf_size : ℕ
lbuf_size = 16

-- The first newline of a chunk, as the inner loop of `seek_to_start_of_line` finds it.
abbrev pub newline_in : List ℕ → Option ℕ
newline_in [] = none
newline_in (c ∷ buf) =
    if c == b'\n' then some 0 else elim (newline_in buf) [ none ↦ none | some i ↦ some (suc i) ]

-- `seek_size`
unfoldable pub chunk_size : ℕ → ℕ → ℕ
chunk_size boundary curr =
    let size : ℕ = if ltb curr lbuf_size then curr else lbuf_size in
    if ltb (curr - size) boundary then curr - boundary else size

-- What is stored at `msize`.
unfoldable pub match_size : Threads → ℤ
match_size tm = sub_ℕ tm.match_end (tm.match_start + 1)

module _ {F : Type 0} (io : Stdio F) where
  -- The return value with what is in `buf`.
  unfoldable pub read_backwards : ℕ → F → ℤ × List ℕ × F
  read_backwards size f =
      if not back.0
      then (rxvm_ioerr, [], back.1)
      else if not (length got.0 == size)
      then (rxvm_ioerr, got.0, got.1)
      else if not again.0
      then (rxvm_ioerr, got.0, again.1)
      else (pos size, got.0, again.1)
    where
      back : Bool × F
      back = io.fseek (minus size) seek_cur f

      got : List ℕ × F
      got = io.fread size back.1

      again : Bool × F
      again = io.fseek (minus (length got.0)) seek_cur got.1

  -- A round of the loop: a return, or the next value of `curr`.
  pub data LineStep : Type 0 where
    returns : ℤ → F → LineStep
    continues : ℕ → F → LineStep

  unfoldable pub line_step : ℕ → ℕ → F → LineStep
  line_step boundary curr f =
      if not (read_whole r.0) then returns rxvm_ioerr r.2 else elim (newline_in r.1) [
        | none ↦ continues (curr - size) r.2
        | some i ↦
            if (io.fseek (pos i) seek_cur r.2).0
            then returns (pos (curr - size + i)) (io.fseek (pos i) seek_cur r.2).1
            else returns rxvm_ioerr (io.fseek (pos i) seek_cur r.2).1
      ]
    where
      size : ℕ
      size = chunk_size boundary curr

      r : ℤ × List ℕ × F
      r = read_backwards size f

      read_whole : ℤ → Bool
      read_whole (pos n) = n == size
      read_whole (negsuc n) = false

  unfoldable pub line_loop : ℕ → ℕ → ℕ → F → Outcome (ℤ × F)
  line_loop zero boundary curr f = out_of_fuel
  line_loop (suc fuel) boundary curr f = elim (ltb boundary curr) [
    | false ↦ done (pos curr, f)
    | true ↦ elim (line_step boundary curr f) [
      | returns ret f' ↦ done (ret, f')
      | continues curr' f' ↦ line_loop fuel boundary curr' f'
    ]
  ]

  -- Each round takes one unit of fuel, and a character at least off `curr`.
  unfoldable pub seek_to_start_of_line : ℕ → F → Outcome (ℤ × F)
  seek_to_start_of_line boundary f = elim (io.ftell f) [
    | none ↦ done (rxvm_ioerr, f)
    | some zero ↦ done (pos 0, f)
    | some (suc curr) ↦ line_loop (suc (suc curr)) boundary (suc curr) f
  ]

  -- The return value, and the file.
  unfoldable pub seek_to_start_of_match : Threads → F → ℤ × F
  seek_to_start_of_match tm f =
      let r : Bool × F = io.fseek (pos tm.match_start) seek_set f in
      (if r.0 then pos 0 else rxvm_ioerr, r.1)
