-- ===== src/Bmh/Whole.antt =====
-- `bmh_init` and `bmh` of librxvm/bmh.c one after the other, and `bmh_reset` and `bmh`.
use mathlib.Core.Path.{subst}
use librxvm.Prelude.{
  ℕ, suc, ◌+◌, ◌-◌, ◌^◌, ◌≤◌, ◌<◌, ◌≡◌, refl, sym, ap, ◌∙◌, false, List, some, ◌>>=◌, arith, length,
  get_elem?, get_elem?-some,
}
use librxvm.Prelude.Words.{sub32, sub32-fits}
use librxvm.File.{Stdio, IsRegular}
use librxvm.Vm.{Threads}
use librxvm.Bmh.{Bmh, bmh, bmh_reset, bmh_init}
use librxvm.Bmh.Table.{IsTable, set_shifts-IsTable}
use librxvm.Bmh.Compare.{IsPlain, IsPlain-IsIndexed}
use librxvm.Bmh.Finds.{IsContent, Ready, Ends}
use librxvm.Bmh.Search.{bmh-Ends, bmh_reset-Holds}

-- A pattern that the search works on: its `n` characters are in the table's range, and fit into
-- the buffer.
pub record IsPattern (bufsize : ℕ) (pat : List ℕ) (n : ℕ) : Type 0 where
  pub some_pat : 0 < n
  pub short : n ≤ bufsize
  pub in_memory : n ≤ length pat
  pub plain : (j d : ℕ) → j < n → get_elem? pat j ≡ some d → IsPlain d

module _ {F : Type 0} {io : Stdio F} (reg : IsRegular io) (bufsize : ℕ) (pat : List ℕ) (n : ℕ)
    (fits : bufsize + bufsize < 2 ^ 32) (is : IsPattern bufsize pat n) (tm : Threads)
    (exact : tm.flags.icase ≡ false) (fuel : ℕ) where
  -- With the pattern's variables set, from where the file is.
  pub reset-Ends :
      (b : Bmh F)
      → Ready reg bufsize (reg.content b.fp) pat n b
      → b.end ≤ bufsize
      → IsContent (reg.content b.fp)
      → length (reg.content b.fp) ≤ fuel
      → Ends reg bufsize
          (reg.content b.fp)
          pat
          n
          (reg.offset b.fp)
          tm
          (bmh_reset io bufsize b >>= bmh io bufsize (suc fuel) tm)
  reset-Ends b ready small text enough =
      let content : List ℕ = reg.content b.fp in
      let (b', q, holds, leaves, first) =
        bmh_reset-Holds reg bufsize content pat n fits b small refl in
      let last : sub32 b.plen 1 ≡ n - 1 =
        ap (λ z. sub32 z 1) ready.plen_is ∙ sub32-fits n 1 is.some_pat (omega (arith, is.short)) in
      rw q (
        bmh-Ends reg bufsize content pat n fits is.some_pat is.short
          (λ j lt. get_elem?-some pat j (omega (arith, is.in_memory))) is.plain text tm exact
          (reg.offset b.fp) fuel b' holds
          (record {
            table = subst (λ z. IsTable n (n - 1) pat z) (sym leaves.badchar_eq) ready.table;
            pattern_is = leaves.pattern_eq ∙ ready.pattern_is;
            plen_is = leaves.plen_eq ∙ ready.plen_is;
            pendix_is = leaves.pendix_eq ∙ last;
          })
          first (omega (arith, is.some_pat)))

  -- On a regular file with no byte 255 and no ~, for a pattern of printable characters other than ~
  -- that is not empty and no longer than the buffer, and with case regarded: bmh after bmh_init
  -- ends within one round for each byte of the file and one more, makes no access outside an array,
  -- and returns 1 with match_start at the pattern's first occurrence from the file's offset on and
  -- match_end one behind its end, counted from 1, or returns 0 if it does not occur from there on.
  pub bmh_init-Ends :
      (file : F) (b : Bmh F)
      → b.end ≤ bufsize
      → IsContent (reg.content file)
      → length (reg.content file) ≤ fuel
      → Ends reg bufsize
          (reg.content file)
          pat
          n
          (reg.offset file)
          tm
          (bmh_init io bufsize file pat n b >>= bmh io bufsize (suc fuel) tm)
  unfolding bmh_init
  bmh_init-Ends file b small text enough =
      let (table, q, t) =
        set_shifts-IsTable n pat is.some_pat (omega (arith, is.short))
          (λ j c lt e. IsPlain-IsIndexed c (is.plain j c lt e)) is.in_memory in
      let b0 : Bmh F = record b { badchar = table; pattern = pat; fp = file; plen = n } in
      let (b', r, holds, leaves, first) =
        bmh_reset-Holds reg bufsize (reg.content file) pat n fits b0 small refl in
      let last : sub32 n 1 ≡ n - 1 = sub32-fits n 1 is.some_pat (omega (arith, is.short)) in
      rw (bmh_init, q, ◌>>=◌, r)
        (bmh-Ends reg bufsize (reg.content file) pat n fits is.some_pat is.short
          (λ j lt. get_elem?-some pat j (omega (arith, is.in_memory))) is.plain text tm exact
          (reg.offset file) fuel b' holds
          (record {
            table = subst (λ z. IsTable n (n - 1) pat z) (sym leaves.badchar_eq) t;
            pattern_is = leaves.pattern_eq;
            plen_is = leaves.plen_eq;
            pendix_is = leaves.pendix_eq ∙ last;
          })
          first (omega (arith, is.some_pat)))
