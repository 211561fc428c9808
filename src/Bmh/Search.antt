-- ===== src/Bmh/Search.antt =====
-- The loop of `bmh` in librxvm/bmh.c, round by round, and the search from `bmh_init` on.
use librxvm.Prelude.{
  ℕ, zero, suc, ◌+◌, ◌-◌, ◌^◌, ◌≤◌, ◌<◌, ◌≡◌, refl, sym, ap, ◌∙◌, ◌⊎◌, inl, inr, false, Bool-cases,
  List, some, done, arith, ltb, ◌==◌, length, get_elem?, get_elem?-lt,
}
use mathlib.Core.Path.{subst}
use librxvm.Prelude.Int.{ℤ}
use librxvm.Prelude.Words.{sub32}
use librxvm.File.{Stdio, IsRegular}
use librxvm.Vm.{Threads}
use librxvm.Bmh.{Bmh, bmh_loop, bmh, bmh_reset}
use librxvm.Bmh.Buffer.{Holds, Holds-bounded, Leaves, fill-Holds}
use librxvm.Bmh.Skip.{Skipped, skip-Skipped}
use librxvm.Bmh.Compare.{IsPlain, skip_length-far}
use librxvm.Bmh.Finds.{
  Occurs, IsContent, Ready, Ends, match_at, Ready-Leaves, found-match_at, window-decides, loop-ends,
  loop-finds, loop-goes_on,
}

module _ {F : Type 0} {io : Stdio F} (reg : IsRegular io) (bufsize : ℕ) (content pat : List ℕ)
    (n : ℕ) where
  -- Before a round that moves the window by `skiplen`: the pattern does not stand anywhere from `p`
  -- on before the place that the window moves to.
  pub record Searching (p base skiplen : ℕ) (b : Bmh F) : Type 0 where
    pub holds : Holds reg bufsize content base b
    pub ready : Ready reg bufsize content pat n b
    pub near : skiplen ≤ n
    pub room : n ≤ b.pos + skiplen + 1
    pub close : b.pos + skiplen < b.end + n
    pub from : p + n ≤ base + b.pos + skiplen + 1
    pub none_before : (s : ℕ) → p ≤ s → s + n ≤ base + b.pos + skiplen → ¬ Occurs content pat n s

  -- A round that does not end the search.
  pub record Next (p fuel base skiplen : ℕ) (tm : Threads) (b : Bmh F) : Type 0 where
    pub start : ℕ
    pub k : ℕ
    pub state : Bmh F
    pub goes : bmh_loop io bufsize (suc fuel) skiplen tm b ≡ bmh_loop io bufsize fuel k tm state
    pub searching : Searching p start k state
    pub further : base + b.pos + skiplen < start + state.pos + k
    pub in_file : base + b.pos + skiplen < length content

  module _ (fits : bufsize + bufsize < 2 ^ 32) (some_pat : 0 < n) (short : n ≤ bufsize)
      (has : (j : ℕ) → j < n → (d : ℕ) × (get_elem? pat j ≡ some d))
      (plain : (j d : ℕ) → j < n → get_elem? pat j ≡ some d → IsPlain d) (text : IsContent content)
      (tm : Threads) (exact : tm.flags.icase ≡ false) (p : ℕ) where
    -- An occurrence ends inside the file.
    Occurs-inside : (s : ℕ) → Occurs content pat n s → s + n ≤ length content
    Occurs-inside s o =
        let (d, q) = has (n - 1) (omega arith) in
        omega (arith, get_elem?-lt content (s + (n - 1)) (o (n - 1) (omega arith) ∙ q))

    -- The window that ends at `q` does not match, and the next `k - 1` cannot.
    none_further :
        (c k q : ℕ)
        → k ≤ n
        → ((s : ℕ) → p ≤ s → s + n ≤ q → ¬ Occurs content pat n s)
        → get_elem? content q ≡ some c
        → ((s : ℕ) → s + n ≡ q + 1 → ¬ Occurs content pat n s)
        → ((j : ℕ) → j < n - 1 → get_elem? pat j ≡ some c → k + j < n)
        → (s : ℕ) → p ≤ s
        → s + n ≤ q + k
        → ¬ Occurs content pat n s
    none_further c k q few before at here far s le most o = elim (Bool-cases (ltb q (s + n))) [
      | inr e ↦ before s le (ground arith) o
      | inl e ↦
          let past : q < s + n = ground arith in
          elim (Bool-cases (s + n == q + 1)) [
            | inl last ↦ here s (ground arith) o
            | inr other ↦
                let more : q + 1 < s + n = ground arith in
                elim (Bool-cases (ltb q s)) [
                  | inl behind ↦ absurd (ground arith)
                  | inr inside ↦
                      let at_s : s + (q - s) ≡ q = ground arith in
                      let bound =
                        far (q - s) (omega arith) (
                          sym (o (q - s) (omega arith))
                          ∙ ap (λ z. get_elem? content z) at_s
                          ∙ at) in
                      absurd (ground arith)
                ]
          ]
    ]

    module _ (fuel base skiplen : ℕ) (b : Bmh F) (search : Searching p base skiplen b) where
      round :
          Ends reg bufsize content pat n p tm (bmh_loop io bufsize (suc fuel) skiplen tm b)
          ⊎ Next p fuel base skiplen tm b
      round =
          let sk : Skipped reg bufsize content n base skiplen (base + b.pos + skiplen) b =
            skip-Skipped reg bufsize content fits b skiplen n base search.holds search.ready.plen_is
              search.ready.pendix_is some_pat short search.near search.room search.close in
          let ready = Ready-Leaves reg bufsize content pat n b sk.state search.ready sk.leaves in
          let here = sk.here in
          let room = sk.room in
          let from = search.from in
          elim sk.reads [
            | inr (is_eof, over) ↦ inl (record {
              result = (ℤ.pos 0, tm, sk.state);
              returns = loop-ends io bufsize fuel skiplen tm b sk.state sk.c sk.returns is_eof;
              finds = inr (
                refl,
                refl,
                λ s le o. search.none_before s le (omega (arith, Occurs-inside s o)) o,
              );
              ready = ready;
              same = sk.holds.same;
              bounded = Holds-bounded reg bufsize sk.holds;
            })
            | inl (inside, e) ↦
                let (ne, other) = text (sk.start + sk.state.pos) sk.c e in
                elim (window-decides reg bufsize content pat n fits sk.start tm sk.state sk.holds
                  ready some_pat room inside has) [
                    | inl (q, o) ↦ inl (record {
                      result = (
                        ℤ.pos 1,
                        match_at reg bufsize content pat n (sk.start + (sk.state.pos + 1 - n)) tm,
                        sk.state,
                      );
                      returns =
                          loop-finds io bufsize fuel skiplen tm b sk.state sk.c sk.returns ne
                            (rw exact q)
                          ∙ ap (λ z. done z)
                              (found-match_at reg bufsize content pat n fits sk.start tm sk.state
                                sk.holds ready some_pat room inside);
                      finds = inl (
                        sk.start + (sk.state.pos + 1 - n),
                        refl,
                        refl,
                        omega arith,
                        o,
                        λ s le lt. search.none_before s le (omega arith),
                      );
                      ready = ready;
                      same = sk.holds.same;
                      bounded = Holds-bounded reg bufsize sk.holds;
                    })
                    | inr (q, differs) ↦
                        let (k, r, one, most, far) =
                          skip_length-far n pat sk.state.badchar sk.c some_pat ready.table plain
                            other in
                        inr (record {
                          start = sk.start;
                          k = k;
                          state = sk.state;
                          goes =
                              loop-goes_on io bufsize fuel skiplen tm b sk.state sk.c sk.returns ne
                                k (rw exact q) (rw ready.plen_is r);
                          searching = record {
                            holds = sk.holds;
                            ready = ready;
                            near = most;
                            room = omega arith;
                            close = omega arith;
                            from = omega arith;
                            none_before =
                                none_further sk.c k (sk.start + sk.state.pos) most
                                  (λ s le l. search.none_before s le (omega arith)) e
                                  (λ s e'.
                                    subst (λ z. ¬ Occurs content pat n z) (omega arith) differs)
                                  far;
                          };
                          further = omega arith;
                          in_file = omega (arith, get_elem?-lt content (sk.start + sk.state.pos) e);
                        })
                  ]
          ]

    -- With one unit of fuel for each place that the end of the window can be moved to, and one more.
    loop-Ends :
        (fuel base skiplen : ℕ) (b : Bmh F)
        → Searching p base skiplen b
        → length content ≤ base + b.pos + skiplen + fuel
        → Ends reg bufsize content pat n p tm (bmh_loop io bufsize (suc fuel) skiplen tm b)
    loop-Ends zero base skiplen b search enough = elim (round zero base skiplen b search) [
      | inl ends ↦ ends
      | inr next ↦ absurd (omega (arith, next.in_file))
    ]
    loop-Ends (suc fuel) base skiplen b search enough =
        elim (round (suc fuel) base skiplen b search) [
          | inl ends ↦ ends
          | inr next ↦ rw next.goes (
              loop-Ends fuel next.start next.k next.state next.searching
                (omega (arith, next.further)))
        ]

    -- A call of `bmh` behind `bmh_reset`.
    pub bmh-Ends :
        (fuel : ℕ) (b : Bmh F)
        → Holds reg bufsize content p b
        → Ready reg bufsize content pat n b
        → b.pos ≡ 0
        → length content < p + n + fuel
        → Ends reg bufsize content pat n p tm (bmh io bufsize (suc fuel) tm b)
    unfolding bmh
    bmh-Ends fuel b holds ready first enough =
        loop-Ends fuel p b.pendix b
          (record {
            holds = holds;
            ready = ready;
            near = omega (arith, ready.pendix_is);
            room = omega (arith, ready.pendix_is);
            close = omega (arith, ready.pendix_is);
            from = omega (arith, ready.pendix_is);
            none_before = λ s le most. absurd (omega (arith, ready.pendix_is));
          })
          (omega (arith, ready.pendix_is))

  -- `bmh_reset` where the file is.
  module _ (fits : bufsize + bufsize < 2 ^ 32) where
    pub bmh_reset-Holds :
        (b : Bmh F)
        → b.end ≤ bufsize
        → reg.content b.fp ≡ content
        → (b' : Bmh F) × (bmh_reset io bufsize b ≡ done b')
          × Holds reg bufsize content (reg.offset b.fp) b'
          × Leaves reg bufsize (record b { pos = 0; pendix = sub32 b.plen 1 }) b'
          × (b'.pos ≡ 0)
    unfolding bmh_reset
    bmh_reset-Holds b small same =
        fill-Holds reg bufsize fits content (reg.offset b.fp) 0
          (record b { pos = 0; pendix = sub32 b.plen 1 }) (omega arith) small same (omega arith)
          refl refl
