-- ===== src/Inst.antt =====
-- Instructions of the virtual machine: `inst_t` of librxvm/rxvm_common.h, and the constructors of
-- librxvm/setop.c. A `char` is its byte, a number below 256; an `int` is an integer
-- without a bound. A NUL-terminated string is the list of the characters before its terminator.
use librxvm.Prelude.{ℕ, List, Option, none, some}
use librxvm.Prelude.Int.{ℤ, pos}

pub data Op : Type 0 where
  char any class nclass branch jmp sol eol match : Op

-- `ccs` is null, or a string.
pub record Inst : Type 0 where
  pub ccs : Option (List ℕ)
  pub x : ℤ
  pub y : ℤ
  pub c : ℕ
  pub op : Op

abbrev pub Program : Type 0
Program = List Inst

-- What `memset(inst, 0, sizeof(inst_t))` leaves, with OP_CHAR for 0.
abbrev pub blank : Inst
blank = record { ccs = none; x = pos 0; y = pos 0; c = 0; op = char }

unfoldable pub set_op_class : List ℕ → Inst
set_op_class ccs = record blank { op = class; ccs = some ccs }

unfoldable pub set_op_nclass : List ℕ → Inst
set_op_nclass ccs = record blank { op = nclass; ccs = some ccs }

unfoldable pub set_op_branch : ℤ → ℤ → Inst
set_op_branch x y = record blank { op = branch; x = x; y = y }

unfoldable pub set_op_jmp : ℤ → Inst
set_op_jmp x = record blank { op = jmp; x = x }

unfoldable pub set_op_match : Inst
set_op_match = record blank { op = match }

unfoldable pub set_op_char : ℕ → Inst
set_op_char c = record blank { op = char; c = c }

unfoldable pub set_op_any : Inst
set_op_any = record blank { op = any }

unfoldable pub set_op_sol : Inst
set_op_sol = record blank { op = sol }

unfoldable pub set_op_eol : Inst
set_op_eol = record blank { op = eol }
