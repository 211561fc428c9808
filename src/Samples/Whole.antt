-- ===== src/Samples/Whole.antt =====
-- Compiling whole expressions.
use librxvm.Prelude.{false, [], ◌∷◌, none, List, ℕ}
use librxvm.Prelude.Int.{pos}
use librxvm.Inst.{set_op_char, set_op_branch, set_op_match}
use librxvm.Rxvm.{Compiled, MatchFlags}
use librxvm.Stage1.Context.{Globals}
use librxvm.Stage1.Whole.{stage1}
use librxvm.Stage1.Ends.{ReturnsCode}
use librxvm.Stage1.Returns.{stage1-ReturnsCode}

abbrev fresh : Globals
fresh = record {
  lexer = record { literal = false; newline_seen = false; lp1 = 0; lpn = 0 };
  lfix = record { ltemp0 = 0; ltempn = 0; lfix0 = 0; lfixn = 0; lfixs = false };
  is_nchar = false;
}

-- a+
abbrev expression : List ℕ
expression = b'a' ∷ b'+' ∷ []

stage1-ReturnsCode_example : ReturnsCode expression (stage1 expression fresh)
stage1-ReturnsCode_example = stage1-ReturnsCode expression fresh

abbrev one_or_more : Compiled
one_or_more = record {
  exe = set_op_char b'a' ∷ set_op_branch (pos 0) (pos 2) ∷ set_op_match ∷ [];
  simple = none;
  lfix = none;
  lfix0 = 0;
  lfixn = 0;
}

abbrev used : Globals
used = record {
  lexer = record { literal = false; newline_seen = false; lp1 = 1; lpn = 2 };
  lfix = record { ltemp0 = 0; ltempn = 0; lfix0 = 0; lfixn = 0; lfixs = false };
  is_nchar = false;
}

abbrev no_flags : MatchFlags
no_flags = record { icase = false; nongreedy = false; multiline = false }
