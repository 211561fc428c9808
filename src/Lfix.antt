-- ===== src/Lfix.antt =====
-- The longest fixed substring of an expression, librxvm/lfix.c and lfix_to_str.c. The variables of
-- the file are a record, of 32-bit unsigned numbers.
pub mod Longest
pub mod Text
use librxvm.Prelude.{
  ℕ, zero, suc, ◌+◌, ◌-◌, ◌%◌, ◌^◌, Bool, true, false, List, [], ◌∷◌, ◌++◌, Outcome, done, fault,
  out_of_fuel, ltb, ◌==◌, if◌then◌else◌, ◌>>=◌, drop,
}

pub record Lfix : Type 0 where
  pub ltemp0 : ℕ
  pub ltempn : ℕ
  pub lfix0 : ℕ
  pub lfixn : ℕ
  pub lfixs : Bool

unfoldable pub lfix_zero : Lfix → Lfix
lfix_zero l = record l { ltemp0 = 0; ltempn = 0; lfix0 = 0; lfixn = 0 }

-- `lp1 - orig` is the index of the token in the expression.
unfoldable pub lfix_start : ℕ → Lfix → Lfix
lfix_start lp1 l = record l { lfixs = true; ltemp0 = lp1 % 2 ^ 32; ltempn = lp1 % 2 ^ 32 }

unfoldable pub lfix_continue : ℕ → Lfix → Lfix
lfix_continue lp1 l =
    if l.lfixs then record l { ltempn = (l.ltempn + 1) % 2 ^ 32 } else lfix_start lp1 l

unfoldable pub lfix_longest : Lfix → ℕ
lfix_longest l = (l.lfixn + 2 ^ 32 - l.lfix0) % 2 ^ 32

unfoldable pub lfix_current : Lfix → ℕ
lfix_current l = (l.ltempn + 2 ^ 32 - l.ltemp0) % 2 ^ 32

unfoldable pub lfix_set_longest : Lfix → Lfix
lfix_set_longest l = record l { lfix0 = l.ltemp0; lfixn = l.ltempn }

unfoldable pub lfix_update_longest : Lfix → Lfix
lfix_update_longest l = if ltb (lfix_longest l) (lfix_current l) then lfix_set_longest l else l

unfoldable pub lfix_stop : Lfix → Lfix
lfix_stop l = record (lfix_update_longest l) { lfixs = false; ltemp0 = 0; ltempn = 0 }

unfoldable pub lfix_dec : Lfix → Lfix
lfix_dec l = if ltb l.ltemp0 l.ltempn then record l { ltempn = l.ltempn - 1 } else l

unfoldable pub set_lfixn : ℕ → Lfix → Lfix
set_lfixn val l = record l { lfixn = val }

unfoldable pub set_ltempn : ℕ → Lfix → Lfix
set_ltempn val l = record l { ltempn = val }

-- The loop of `lfix_to_str` at `orig + i`, with `end - i + 1` rounds left: a backslash is passed
-- over and makes one more round. The terminator is the list's last character, and may be copied; a
-- read behind it is a fault.
unfoldable pub copy_fixed : List ℕ → ℕ → Outcome (List ℕ)
copy_fixed orig zero = done []
copy_fixed [] (suc n) = fault
copy_fixed (c ∷ orig) (suc n) = elim (c == b'\\') [
  | true ↦ copy_fixed orig (suc n)
  | false ↦ elim (copy_fixed orig n) [
    | done text ↦ done (c ∷ text)
    | fault ↦ fault
    | out_of_fuel ↦ out_of_fuel
  ]
]

-- The text that `lfix_to_str` writes, without the terminator that it adds.
unfoldable pub lfix_to_str : List ℕ → ℕ → ℕ → Outcome (List ℕ)
lfix_to_str orig lfix0 lfixn = copy_fixed (drop lfix0 (orig ++ 0 ∷ [])) (lfixn + 1 - lfix0)
