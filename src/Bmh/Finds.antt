-- ===== src/Bmh/Finds.antt =====
-- What `bmh` of librxvm/bmh.c finds: the first occurrence of the pattern from where the file is.
use librxvm.Prelude.{
  ℕ, suc, ◌+◌, ◌-◌, ◌^◌, ◌≤◌, ◌<◌, ◌≡◌, ◌≢◌, refl, sym, ap, ◌∙◌, ◌⊎◌, inl, inr, true, false, List,
  some, Outcome, done, arith, ◌==◌, ==_iff, drop, get_elem?,
}
use mathlib.Core.Path.{subst}
use librxvm.Prelude.Int.{ℤ}
use librxvm.Prelude.Words.{sub32, sub32-fits}
use librxvm.Prelude.Slices.{length-take_le, length-take_all, length-drop}
use librxvm.File.{Stdio, IsRegular, eof}
use librxvm.Vm.{Threads}
use librxvm.Bmh.{Bmh, skip, compare_down, skip_length, found, bmh_loop}
use librxvm.Bmh.Buffer.{Holds, Leaves}
use librxvm.Bmh.Skip.{buffer-Reads}
use librxvm.Bmh.Table.{IsTable}
use librxvm.Bmh.Compare.{compare_down-Compares}

-- The pattern, the `n` characters of `pat`, stands at `s` of the content.
abbrev pub Occurs : List ℕ → List ℕ → ℕ → ℕ → Type 0
Occurs content pat n s = (j : ℕ) → j < n → get_elem? content (s + j) ≡ get_elem? pat j

-- No character of the content is taken for the end of the file, or has no entry in the table.
abbrev pub IsContent : List ℕ → Type 0
IsContent content = (i c : ℕ) → get_elem? content i ≡ some c → (c ≢ eof) × (c ≢ b'~')

-- The four ways that a round of the loop goes on.
module _ {F : Type 0} (io : Stdio F) (bufsize fuel skiplen : ℕ) (tm : Threads) (b b' : Bmh F)
    (c : ℕ) (skips : skip io bufsize skiplen b ≡ done (c, b')) where
  pub loop-ends : c ≡ eof → bmh_loop io bufsize (suc fuel) skiplen tm b ≡ done (ℤ.pos 0, tm, b')
  unfolding bmh_loop
  loop-ends e = let test : (c == eof) ≡ true = (==_iff c eof).1 e in rw (bmh_loop, skips, test) refl

  module _ (ne : c ≢ eof) where
    no_end : (c == eof) ≡ false
    no_end = ground arith

    pub loop-finds :
        compare_down tm.flags.icase b'.bmhbuf (sub32 b'.pos b'.pendix) b'.pattern b'.pendix
          ≡ done true
        → bmh_loop io bufsize (suc fuel) skiplen tm b ≡ done (found io bufsize tm b')
    unfolding bmh_loop
    loop-finds e = rw (bmh_loop, skips, no_end, e) refl

    pub loop-goes_on :
        (k : ℕ)
        → compare_down tm.flags.icase b'.bmhbuf (sub32 b'.pos b'.pendix) b'.pattern b'.pendix
          ≡ done false
        → skip_length b'.badchar b'.plen c ≡ done k
        → bmh_loop io bufsize (suc fuel) skiplen tm b ≡ bmh_loop io bufsize fuel k tm b'
    unfolding bmh_loop
    loop-goes_on k e f = rw (bmh_loop, skips, no_end, e, f) refl

module _ {F : Type 0} {io : Stdio F} (reg : IsRegular io) (bufsize : ℕ) (content pat : List ℕ)
    (n : ℕ) where
  -- What a match makes of `threads_t`.
  abbrev pub match_at : ℕ → Threads → Threads
  match_at s tm = record tm { match_start = s; match_end = s + n + 1 }

  -- The variables that belong to the pattern.
  pub record Ready (b : Bmh F) : Type 0 where
    pub table : IsTable n (n - 1) pat b.badchar
    pub pattern_is : b.pattern ≡ pat
    pub plen_is : b.plen ≡ n
    pub pendix_is : b.pendix ≡ n - 1

  -- The first occurrence from `p` on, or none.
  abbrev pub Finds : ℕ → Threads → ℤ × Threads × Bmh F → Type 0
  Finds p tm r =
      ((s : ℕ) × (r.0 ≡ ℤ.pos 1)
        × (r.1 ≡ match_at s tm)
        × (p ≤ s)
        × Occurs content pat n s
        × ((s' : ℕ) → p ≤ s' → s' < s → ¬ Occurs content pat n s'))
      ⊎ ((r.0 ≡ ℤ.pos 0) × (r.1 ≡ tm) × ((s : ℕ) → p ≤ s → ¬ Occurs content pat n s))

  -- How a call ends, with the variables ready for the next one.
  pub record Ends (p : ℕ) (tm : Threads) (m : Outcome (ℤ × Threads × Bmh F)) : Type 0 where
    pub result : ℤ × Threads × Bmh F
    pub returns : m ≡ done result
    pub finds : Finds p tm result
    pub ready : Ready result.2
    pub same : reg.content result.2.fp ≡ content
    pub bounded : result.2.end ≤ bufsize

  pub Ready-Leaves : (b b' : Bmh F) → Ready b → Leaves reg bufsize b b' → Ready b'
  Ready-Leaves b b' r l = record {
    table = subst (λ z. IsTable n (n - 1) pat z) (sym l.badchar_eq) r.table;
    pattern_is = l.pattern_eq ∙ r.pattern_is;
    plen_is = l.plen_eq ∙ r.plen_is;
    pendix_is = l.pendix_eq ∙ r.pendix_is;
  }

  -- The window that ends at index `pos` of the buffer.
  module _ (fits : bufsize + bufsize < 2 ^ 32) (start : ℕ) (tm : Threads) (b : Bmh F)
      (h : Holds reg bufsize content start b) (ready : Ready b) (some_pat : 0 < n)
      (room : n ≤ b.pos + 1) (inside : b.pos < b.end) where
    small_end : b.end ≤ bufsize
    small_end = omega (arith, h.size, length-take_le bufsize (drop start content))

    pub found-match_at : found io bufsize tm b ≡ (ℤ.pos 1, match_at (start + (b.pos + 1 - n)) tm, b)
    unfolding found
    found-match_at =
        let at = reg.ftell_offset b.fp ∙ ap (λ z. some z) h.at_end in
        let last : b.endix ≡ b.end - 1 =
          h.last ∙ sub32-fits b.end 1 (omega arith) (omega (arith, small_end)) in
        let behind : sub32 b.endix b.pos ≡ b.end - 1 - b.pos =
          ap (λ z. sub32 z b.pos) last
          ∙ sub32-fits (b.end - 1) b.pos (omega arith) (omega (arith, small_end)) in
        let first : start + b.end - 1 - b.pendix - (b.end - 1 - b.pos) ≡ start + (b.pos + 1 - n) =
          omega (arith, ready.pendix_is) in
        let second : start + b.end + 1 - (b.end - 1 - b.pos) ≡ start + (b.pos + 1 - n) + n + 1 =
          omega arith in
        rw (found, at, behind, first, second) refl

    window_start : sub32 b.pos b.pendix ≡ b.pos + 1 - n
    window_start =
        let small = small_end in
        sub32-fits b.pos b.pendix (omega (arith, ready.pendix_is)) (omega arith)
        ∙ omega (arith, ready.pendix_is)

    -- What the buffer has in the window is what the file has there.
    window_bytes :
        (j : ℕ)
        → j < n
        → (a : ℕ) × (get_elem? b.bmhbuf (b.pos + 1 - n + j) ≡ some a)
          × (get_elem? content (start + (b.pos + 1 - n) + j) ≡ some a)
    window_bytes j lt =
        let small = small_end in
        let (a, q, reads) =
          buffer-Reads reg bufsize content start b h (b.pos + 1 - n + j) (omega arith) in
        elim reads [
          | inl (_, e) ↦ (a, q, ap (λ z. get_elem? content z) (omega arith) ∙ e)
          | inr (_, over) ↦ absurd (
              omega (
                arith,
                h.size,
                length-take_all bufsize (drop start content),
                length-drop start content,
              ))
        ]

    -- The comparison of the window decides whether the pattern stands there.
    pub window-decides :
        (has : (j : ℕ) → j < n → (d : ℕ) × (get_elem? pat j ≡ some d))
        → ((compare_down false b.bmhbuf (sub32 b.pos b.pendix) b.pattern b.pendix ≡ done true)
            × Occurs content pat n (start + (b.pos + 1 - n)))
          ⊎ ((compare_down false b.bmhbuf (sub32 b.pos b.pendix) b.pattern b.pendix ≡ done false)
              × (¬ Occurs content pat n (start + (b.pos + 1 - n))))
    window-decides has =
        let from : ℕ = b.pos + 1 - n in
        rw (window_start, ready.pattern_is, ready.pendix_is)
          (elim (compare_down-Compares b.bmhbuf from pat n
            (λ j lt. let (a, q, _) = window_bytes j lt in (a, q)) has (n - 1) (omega arith)) [
              | inl (q, all) ↦
                  inl (
                    q,
                    λ j lt. let (a, r, e) = window_bytes j lt in e ∙ sym r ∙ all j (omega arith),
                  )
              | inr (q, (j, le, ne)) ↦ inr (
                q,
                λ occurs.
                    let (a, r, e) = window_bytes j (omega arith) in
                    ne (r ∙ sym e ∙ occurs j (omega arith)),
              )
            ])
