-- ===== src/Lfix/Longest.antt =====
-- The bookkeeping of the longest fixed substring.
use librxvm.Prelude.{ℕ, ◌+◌, ◌^◌, ◌≤◌, ◌<◌, ◌≡◌, arith}
use Prim.Native.Nat.{max}
use librxvm.Lfix.{
  Lfix, lfix_start, lfix_continue, lfix_longest, lfix_current, lfix_set_longest,
  lfix_update_longest, lfix_stop, lfix_dec,
}

-- Both ranges are in order, and short of the limit of an unsigned number.
pub record IsRange (l : Lfix) : Type 0 where
  pub temp : l.ltemp0 ≤ l.ltempn
  pub fix : l.lfix0 ≤ l.lfixn
  pub temp_max : l.ltempn < 2 ^ 32
  pub fix_max : l.lfixn < 2 ^ 32

-- What the compiler does to the bookkeeping as it reads tokens: a literal at an index, an operator
-- that takes the last literal away, or a token that ends the substring.
pub data Event : Type 0 where
  literal : ℕ → Event
  optional : Event
  break : Event

unfoldable pub track : Lfix → Event → Lfix
track l (literal lp1) = lfix_continue lp1 l
track l optional = lfix_dec l
track l break = lfix_stop l

-- Without an overflow each event keeps the ranges in order, and the longest substring that is
-- recorded never shrinks; where a substring ends it is the longer of the two.
pub track-IsRange :
    (l : Lfix) (e : Event)
    → IsRange l
    → l.ltempn + 1 < 2 ^ 32
    → IsRange (track l e)
      × (lfix_longest l ≤ lfix_longest (track l e))
      × (lfix_longest (track l break) ≡ max (lfix_longest l) (lfix_current l))
unfolding track lfix_continue lfix_dec lfix_stop lfix_start lfix_longest lfix_current
    lfix_set_longest lfix_update_longest
track-IsRange l (literal lp1) r lt = ground arith
track-IsRange l optional r lt = ground arith
track-IsRange l break r lt = ground arith
