-- ===== src/Gen.antt =====
-- Random text that matches a program, librxvm/randinput.c. The results of `rand` are a parameter:
-- `rand n` is what its call number `n` returns. Whether `malloc` finds `n` bytes is `alloc n`.
pub mod Nchar
pub mod Writes
pub mod Accepted
pub mod Ends
use librxvm.Prelude.{
  ℕ, zero, suc, ◌+◌, ◌-◌, ◌*◌, ◌%◌, ◌^◌, Bool, true, false, not, ◌&&◌, ◌||◌, List, [], ◌∷◌, ◌++◌,
  Option, none, some, Outcome, done, fault, out_of_fuel, ltb, leb, ◌==◌, if◌then◌else◌, length,
  get_elem?,
}
use librxvm.Prelude.Int.{ℤ, index}
use librxvm.Inst.{Op, char, any, class, nclass, branch, jmp, sol, eol, match, Inst, Program}
use librxvm.Err.{Result, ok, err}
use librxvm.Strb.{Strb, strb_init, strb_addc}
use librxvm.Rxvm.{Compiled}

-- `struct rxvm_gencfg`, as far as it is read.
pub record GenConfig : Type 0 where
  pub generosity : ℕ
  pub whitespace : ℕ
  pub limit : ℕ

-- DEFAULT_GEN_PROB, DEFAULT_WS_PROB and DEFAULT_LIMIT.
abbrev pub default_config : GenConfig
default_config = record { generosity = 50; whitespace = 10; limit = 1000 }

-- The text as a string of C, up to its first terminator, and what `cfg->len` is set to.
pub record Generation : Type 0 where
  pub text : List ℕ
  pub len : ℕ

-- A string as C reads it, up to the first terminator in memory.
abbrev pub c_string : List ℕ → List ℕ
c_string [] = []
c_string (c ∷ s) = if c == 0 then [] else c ∷ c_string s

-- The copy of an expression that is only literals. Behind a backslash at the end it would go on
-- behind the terminator.
unfoldable pub copy_simple : List ℕ → Outcome (List ℕ)
copy_simple [] = done []
copy_simple (c ∷ []) = if c == b'\\' then fault else done (c ∷ [])
copy_simple (c ∷ d ∷ simple) =
    let escaped = copy_simple simple in
    let plain = copy_simple (d ∷ simple) in
    if c == b'\\'
    then elim escaped [ done text ↦ done (d ∷ text) | fault ↦ fault | out_of_fuel ↦ out_of_fuel ]
    else elim plain [ done text ↦ done (c ∷ text) | fault ↦ fault | out_of_fuel ↦ out_of_fuel ]

-- Whether the loop over `ccs` comes to a character that is `c`.
abbrev pub has_char : List ℕ → ℕ → Bool
has_char [] c = false
has_char (d ∷ ccs) c = if c == d then true else has_char ccs c

-- The next character to try behind `c`, with `wraps`.
abbrev pub next_char : ℕ → ℕ → ℕ × ℕ
next_char c wraps = if ltb c b'~' then (c + 1, wraps) else (b' ', wraps + 1)

-- The loop of `find_nchar`, which starts again for each new character.
unfoldable pub find_loop : ℕ → List ℕ → ℕ → ℕ → Outcome ℕ
find_loop zero ccs c wraps = out_of_fuel
find_loop (suc fuel) ccs c wraps =
    let (c', wraps') = next_char c wraps in
    let again = find_loop fuel ccs c' wraps' in
    if has_char ccs c then (if ltb 1 wraps' then done 0 else again) else done c

-- Where the loop is: `ip`, the text so far, and how many calls of `rand` there were.
pub record Generating : Type 0 where
  pub ip : ℕ
  pub strb : Strb
  pub calls : ℕ

abbrev pub last_char : List ℕ → ℕ
last_char [] = 0
last_char (c ∷ []) = c
last_char (_ ∷ text) = last_char text

abbrev pub goto : Generating → ℤ → ℕ → Outcome (Result Generating)
goto st x calls = elim (index x) [
  | none ↦ fault
  | some ip ↦ done (ok (record st { ip = ip; calls = calls }))
]

abbrev pub is_newline : Inst → Op → Bool
is_newline inst char = inst.c == b'\n'
is_newline inst _ = false

abbrev pub is_match : Op → Bool
is_match match = true
is_match _ = false

module _ (rand : ℕ → ℕ) where
  -- The call number `n`, for `low` at most `high`.
  abbrev pub rand_range : ℕ → ℕ → ℕ → ℕ
  rand_range n low high = low + rand n % (high - low + 1)

  abbrev pub choice : ℕ → ℕ → Bool
  choice n prob = ltb (rand_range n 0 100) prob

  unfoldable pub find_nchar : ℕ → List ℕ → Outcome ℕ
  unfolding find_loop
  find_nchar n ccs = find_loop 192 ccs (rand_range n b' ' b'~') 0

  abbrev pub any_char : ℕ → ℕ → ℕ
  any_char n whitespace =
      if choice n whitespace
      then (let c = rand_range (n + 1) b'\x07' b'\r' in if c == b'\n' then b' ' else c)
      else rand_range (n + 1) b' ' b'~'

module _ (alloc : ℕ → Bool) where
  -- The character is added, and the next instruction follows. A NULL is returned without memory.
  unfoldable pub gen_add : Generating → ℕ → ℕ → Result Generating
  gen_add st c calls = elim (strb_addc alloc st.strb c) [
    | err e ↦ err e
    | ok strb ↦ ok (record { ip = st.ip + 1; strb = strb; calls = calls })
  ]

  -- A newline is added where `newline` holds.
  unfoldable pub gen_newline : Generating → Bool → Result Generating
  unfolding gen_add
  gen_newline st newline =
      if newline then gen_add st b'\n' st.calls else ok (record st { ip = st.ip + 1 })

module _ (rand : ℕ → ℕ) (alloc : ℕ → Bool) where
  -- The switch of `rxvm_gen`. A class with no string, or an empty one, is a fault.
  unfoldable pub gen_op : Program → GenConfig → Generating → Inst → Op → Outcome (Result Generating)
  unfolding gen_add gen_newline find_nchar
  gen_op exe cfg st inst char = done (gen_add alloc st inst.c st.calls)
  gen_op exe cfg st inst any =
      done (gen_add alloc st (any_char rand st.calls cfg.whitespace) (st.calls + 2))
  gen_op exe cfg st inst sol =
      done (gen_newline alloc st (not (st.strb.size == 0) && not (last_char st.strb.buf == b'\n')))
  gen_op exe cfg st inst eol = elim (get_elem? exe (st.ip + 1)) [
    | none ↦ fault
    | some next ↦
        done (gen_newline alloc st (ltb st.ip (length exe) && not (is_newline next next.op)))
  ]
  gen_op exe cfg st inst class = elim inst.ccs [
    | none ↦ fault
    | some ccs ↦ elim (get_elem? ccs (rand_range rand st.calls 0 (length ccs - 1))) [
      | none ↦ fault
      | some c ↦ done (gen_add alloc st c (st.calls + 1))
    ]
  ]
  gen_op exe cfg st inst nclass = elim inst.ccs [
    | none ↦ fault
    | some ccs ↦ elim (find_nchar rand st.calls ccs) [
      | fault ↦ fault
      | out_of_fuel ↦ out_of_fuel
      | done c ↦ done (gen_add alloc st c (st.calls + 1))
    ]
  ]
  gen_op exe cfg st inst branch =
      let val : ℕ = if leb cfg.limit st.strb.size then 0 else cfg.generosity in
      goto st (if choice rand st.calls val then inst.x else inst.y) (st.calls + 1)
  gen_op exe cfg st inst jmp = goto st inst.x st.calls
  gen_op exe cfg st inst match = done (ok st)

  -- `while (inst.op != OP_MATCH)`, on fuel.
  unfoldable pub gen_loop : ℕ → Program → GenConfig → Generating → Outcome (Result Generating)
  unfolding gen_op
  gen_loop zero exe cfg st = out_of_fuel
  gen_loop (suc fuel) exe cfg st = elim (get_elem? exe st.ip) [
    | none ↦ fault
    | some inst ↦ elim (is_match inst.op) [
      | true ↦ done (ok st)
      | false ↦ elim (gen_op exe cfg st inst inst.op) [
        | fault ↦ fault
        | out_of_fuel ↦ out_of_fuel
        | done (err e) ↦ done (err e)
        | done (ok st') ↦ gen_loop fuel exe cfg st'
      ]
    ]
  ]

  -- The terminator is added, and counted in `cfg->len`.
  unfoldable pub gen_end : Result Generating → Option Generation
  gen_end (err e) = none
  gen_end (ok st) = elim (strb_addc alloc st.strb 0) [
    | err e ↦ none
    | ok strb ↦ some (record { text = c_string strb.buf; len = strb.size })
  ]

  -- The text is none where the source returns NULL.
  unfoldable pub rxvm_gen : ℕ → Compiled → Option GenConfig → Outcome (Option Generation)
  unfolding copy_simple gen_loop gen_end
  rxvm_gen fuel compiled cfg = elim compiled.simple [
    | some simple ↦ elim (alloc (length simple + 1)) [
      | false ↦ done none
      | true ↦ elim (copy_simple simple) [
        | fault ↦ fault
        | out_of_fuel ↦ out_of_fuel
        | done text ↦ done (some (record { text = text; len = length text + 1 }))
      ]
    ]
    | none ↦ elim (strb_init alloc false 128) [
      | err e ↦ done none
      | ok strb ↦
          elim (gen_loop fuel compiled.exe config (record { ip = 0; strb = strb; calls = 0 })) [
            | fault ↦ fault
            | out_of_fuel ↦ out_of_fuel
            | done r ↦ done (gen_end r)
          ]
    ]
  ]
    where
      config : GenConfig
      config = elim cfg [ none ↦ default_config | some c ↦ c ]
