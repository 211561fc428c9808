-- ===== src/Lex.antt =====
-- The lexer, librxvm/lex.c, over a string in memory. A pointer into the string is an index, and a
-- character read at or behind the terminator is 0.
pub mod Progress
use librxvm.Prelude.{
  ℕ, suc, ◌+◌, ◌-◌, ◌*◌, Bool, true, false, not, ◌&&◌, ◌||◌, List, [], ◌∷◌, ◌==◌, leb,
  if◌then◌else◌, length, get_or, Outcome, done, fault, out_of_fuel,
}
use Prim.Native.Nat.{zero}
use librxvm.Prelude.Int.{ℤ}
use librxvm.Token.{Token}
use librxvm.Err.{
  rxvm_badrep, rxvm_erange, rxvm_ecomma, rxvm_edigit, rxvm_mrep, rxvm_etrail, rxvm_einval,
  rxvm_erep,
}

-- What `lex` returns: a token, or a negative error code.
pub data Lexed : Type 0 where
  token : Token → Lexed
  error : ℤ → Lexed

-- The variables of the file: `literal` tells whether a character class is open.
pub record Lexer : Type 0 where
  pub literal : Bool
  pub newline_seen : Bool
  pub lp1 : ℕ
  pub lpn : ℕ

pub data State : Type 0 where
  start literal range rep end : State

-- One run of `lex` on its way.
pub record Scan : Type 0 where
  pub state : State
  pub input : ℕ
  pub comma : Bool
  pub ret : Lexed
  pub lexer : Lexer

-- What an iteration of the loop ends in: the loop goes on, or the function returns at once.
pub data Step : Type 0 where
  go : Scan → Step
  return : Lexed → Scan → Step

unfoldable pub lex_init : Lexer → Lexer
lex_init l = record l { literal = false; newline_seen = false }

abbrev pub isdigit : ℕ → Bool
isdigit x = leb b'0' x && leb x b'9'

-- The macro's unsigned comparison: ' ' to '~', and '\a' to '\r'.
abbrev pub isprintable : ℕ → Bool
isprintable x = (leb b' ' x && leb x b'~') || (leb 7 x && leb x 13)

unfoldable pub isreserved : ℕ → Bool
isreserved x = x == b'[' || x == b']'

-- `trans` with a place for the token.
unfoldable pub trans : Lexed → Scan → Scan
trans tok s =
    if s.lexer.literal
    then record s { state = literal }
    else record s { state = end; ret = tok; input = s.input + 1 }

-- `trans` to the repetition state, which stores no token.
unfoldable pub trans_rep : Scan → Scan
trans_rep s =
    if s.lexer.literal
    then record s { state = literal }
    else record s { state = rep; input = s.input + 1 }

unfoldable pub lex_end : Token → Scan → Scan
lex_end tok s = record s { state = end; ret = token tok; input = s.input + 1 }

abbrev pub set_literal : Bool → Scan → Scan
set_literal b s = record s { lexer = record (s.lexer) { literal = b } }

abbrev pub is_end : State → Bool
is_end end = true
is_end _ = false

abbrev pub is_rep : State → Bool
is_rep rep = true
is_rep _ = false

-- Behind the loop: an open repetition is an error, and `lpn` is the end of the token.
unfoldable pub finish : Scan → Lexed × Scan
finish s = (
  (if is_rep s.state then error rxvm_erep else s.ret),
  record s { lexer = record (s.lexer) { lpn = s.input } },
)

abbrev pub fresh_scan : ℕ → Lexer → Scan
fresh_scan input l = record {
  state = start;
  input = input;
  comma = false;
  ret = token Token.invalidsym;
  lexer = record l { lp1 = input };
}

module _ (buf : List ℕ) where
  abbrev pub at : ℕ → ℕ
  at i = get_or buf i 0

  -- STATE_START on an escape.
  start_escape : Scan → Step
  start_escape s =
      let s' : Scan = record s { input = s.input + 1 } in
      if at (s.input + 1) == 0
      then return (error rxvm_etrail) s'
      else go (record s' { state = literal; lexer = record (s.lexer) { lp1 = s.lexer.lp1 + 1 } })

  unfoldable pub start_step : ℕ → Scan → Step
  unfolding start_escape
  start_step c s =
      if c == b'\\'
      then start_escape s
      else if c == b'['
      then go (
          if s.lexer.literal
          then trans (token Token.charc_open) s
          else set_literal true (trans (token Token.charc_open) s))
      else if c == b']'
      then go (set_literal false (lex_end Token.charc_close s))
      else if c == b'{'
      then go (trans_rep s)
      else if c == b'}'
      then go (trans (error rxvm_badrep) s)
      else if c == b'('
      then go (trans (token Token.lparen) s)
      else if c == b')'
      then go (trans (token Token.rparen) s)
      else if c == b'+'
      then go (trans (token Token.one) s)
      else if c == b'?'
      then go (trans (token Token.onezero) s)
      else if c == b'*'
      then go (trans (token Token.zero) s)
      else if c == b'.'
      then go (trans (token Token.any) s)
      else if c == b'^'
      then go (trans (token Token.sol) s)
      else if c == b'$'
      then go (trans (token Token.eol) s)
      else if c == b'|'
      then go (trans (token Token.alt) s)
      else if isprintable c
      then go (record s { state = literal })
      else return (error rxvm_einval) s

  -- STATE_LITERAL.
  unfoldable pub literal_step : ℕ → Scan → Step
  literal_step c s =
      let s' : Scan =
        if c == b'\n' then record s { lexer = record (s.lexer) { newline_seen = true } } else s in
      if c == b'-' && s.lexer.literal && not (at (s.input - 1) == b'\\')
      then return (error rxvm_erange) s'
      else if at (s.input + 1) == b'-' && s.lexer.literal
      then go (record s' { state = range; input = s.input + 2 })
      else go (lex_end Token.literal s')

  -- STATE_RANGE. An escaped character that cannot be printed is looked at again.
  unfoldable pub range_step : ℕ → Scan → Step
  range_step c s =
      let s' : Scan = record s { input = s.input + 1 } in
      if c == b'\\'
      then if at (s.input + 1) == 0
        then return (error rxvm_etrail) s'
        else if isprintable (at (s.input + 1))
        then go (lex_end Token.char_range s')
        else go s'
      else if isprintable c && not (isreserved c)
      then go (lex_end Token.char_range s)
      else return (error rxvm_erange) s

  -- STATE_REP.
  unfoldable pub rep_step : ℕ → Scan → Step
  rep_step c s =
      if c == b'}'
      then if not (isdigit (at (s.input - 1))) && not (isdigit (at (s.lexer.lp1 + 1)))
        then return (error rxvm_mrep) s
        else go (record s { state = end; ret = token Token.rep; input = s.input + 1 })
      else if c == b','
      then if s.comma
        then return (error rxvm_ecomma) s
        else go (record s { comma = true; input = s.input + 1 })
      else if not (isdigit c)
      then return (error rxvm_edigit) s
      else go (record s { input = s.input + 1 })

  -- The switch; the loop does not enter it in the last state.
  unfoldable pub step : State → ℕ → Scan → Step
  step start c s = start_step c s
  step literal c s = literal_step c s
  step range c s = range_step c s
  step rep c s = rep_step c s
  step end c s = go s

  unfoldable pub loop : ℕ → Scan → Outcome (Lexed × Scan)
  loop zero s = out_of_fuel
  loop (suc fuel) s = elim (is_end s.state || at s.input == 0) [
    | true ↦ done (finish s)
    | false ↦ elim (step s.state (at s.input) s) [
      | return ret s' ↦ done (ret, s')
      | go s' ↦ loop fuel s'
    ]
  ]

  -- `lex` with `*input` at an index: the result, the index behind, and the variables. A character
  -- is looked at twice at most, once to choose a state.
  unfoldable pub lex : ℕ → Lexer → Outcome (Lexed × ℕ × Lexer)
  lex input l =
      if at input == 0
      then done (token Token.end, input, l)
      else elim (loop (2 * length buf + 2) (fresh_scan input l)) [
        | done (ret, s) ↦ done (ret, s.input, s.lexer)
        | fault ↦ fault
        | out_of_fuel ↦ out_of_fuel
      ]
