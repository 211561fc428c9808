-- ===== src/Bmh/Buffer.antt =====
-- The buffer of librxvm/bmh.c as a window of the file: what `fill` and `skip` keep true of it.
use librxvm.Prelude.{
  ℕ, ◌+◌, ◌-◌, ◌^◌, ◌≤◌, ◌<◌, ◌≡◌, refl, sym, ap, ap₂, ◌∙◌, inl, inr, false, Bool-cases, List, ◌++◌,
  append-nil, done, arith, ltb, length, length-append, take, drop, replicate,
}
use librxvm.Prelude.Words.{add32, sub32, add32-fits, sub32-fits}
use librxvm.Prelude.Slices.{length-take_le, drop-drop, take_add}
use librxvm.File.{Stdio, IsRegular, eof}
use librxvm.Bmh.{Bmh, filled, fill}

module _ {F : Type 0} {io : Stdio F} (reg : IsRegular io) (bufsize : ℕ) where
  -- The bytes of the file from `base` on that fit into the buffer.
  abbrev pub window : List ℕ → ℕ → List ℕ
  window content base = take bufsize (drop base content)

  -- The buffer holds the file's bytes from `base` on, up to the offset that the file is at, and
  -- EOF behind the end of the file.
  pub record Holds (content : List ℕ) (base : ℕ) (b : Bmh F) : Type 0 where
    pub same : reg.content b.fp ≡ content
    pub at_end : reg.offset b.fp ≡ base + b.end
    pub size : b.end ≡ length (window content base)
    pub last : b.endix ≡ sub32 b.end 1
    pub buf : b.bmhbuf ≡ window content base ++ replicate (bufsize - b.end) eof

  pub Holds-bounded :
      {content : List ℕ} {base : ℕ} {b : Bmh F} → Holds content base b → b.end ≤ bufsize
  Holds-bounded {content} {base} h =
      omega (arith, h.size, length-take_le bufsize (drop base content))

  -- `fill` and `skip` leave the other variables.
  pub record Leaves (b b' : Bmh F) : Type 0 where
    pub badchar_eq : b'.badchar ≡ b.badchar
    pub pattern_eq : b'.pattern ≡ b.pattern
    pub plen_eq : b'.plen ≡ b.plen
    pub pendix_eq : b'.pendix ≡ b.pendix

  filled-Leaves :
      (backup wanted : ℕ) (kept : List ℕ) (r : List ℕ × F) (b : Bmh F)
      → Leaves b (filled bufsize backup wanted kept r b)
  unfolding filled
  filled-Leaves backup wanted kept r b = elim (Bool-cases (ltb (length r.0) wanted)) [
    | inl e ↦
        rw e (record { badchar_eq = refl; pattern_eq = refl; plen_eq = refl; pendix_eq = refl })
    | inr e ↦
        rw e (record { badchar_eq = refl; pattern_eq = refl; plen_eq = refl; pendix_eq = refl })
  ]

  filled-pos :
      (backup wanted : ℕ) (kept : List ℕ) (r : List ℕ × F) (b : Bmh F)
      → (filled bufsize backup wanted kept r b).pos ≡ b.pos
  unfolding filled
  filled-pos backup wanted kept r b = elim (Bool-cases (ltb (length r.0) wanted)) [
    | inl e ↦ rw e refl
    | inr e ↦ rw e refl
  ]

  module _ (fits : bufsize + bufsize < 2 ^ 32) (content : List ℕ) (base : ℕ) where
    -- The two branches of `filled`, on what was kept and read.
    module _ (backup : ℕ) (kept : List ℕ) (r : List ℕ × F) (b : Bmh F) (le : backup ≤ bufsize)
        (whole : kept ++ r.0 ≡ window content base)
        (long : backup + length r.0 ≡ length (window content base))
        (same : reg.content r.1 ≡ content)
        (at_end : reg.offset r.1 ≡ base + (backup + length r.0)) where
      filled-Holds : Holds content base (filled bufsize backup (bufsize - backup) kept r b)
      unfolding filled
      filled-Holds =
          let most = length-take_le bufsize (drop base content) in
          let adds : add32 backup (length r.0) ≡ backup + length r.0 =
            add32-fits backup (length r.0) (omega arith) in
          elim (Bool-cases (ltb (length r.0) (bufsize - backup))) [
            | inl e ↦ rw e (record {
              same = same;
              at_end = rw adds at_end;
              size = rw adds long;
              last = refl;
              buf =
                  rw
                    (
                      adds,
                      whole,
                      sub32-fits bufsize (backup + length r.0) (omega arith) (omega arith),
                    )
                    refl;
            })
            | inr e ↦
                let full : backup + length r.0 ≡ bufsize = ground arith in
                let none_left : bufsize - bufsize ≡ 0 = omega arith in
                rw e (record {
                  same = same;
                  at_end = at_end ∙ ap (λ z. base + z) full;
                  size = sym full ∙ long;
                  last = refl;
                  buf = rw none_left (whole ∙ sym (append-nil (window content base)));
                })
          ]

    -- Where the file is backup bytes behind base, end is at most the buffer's size and at least
    -- backup, and the bytes that are kept are the file's from base on: fill makes no access outside
    -- the buffer and leaves in it the regular file's bytes from base on as far as they fit, with
    -- EOF behind them, end and endix at their end and the file behind them; it leaves pos and the
    -- pattern's variables.
    pub fill-Holds :
        (backup : ℕ) (b : Bmh F)
        → backup ≤ b.end
        → b.end ≤ bufsize
        → reg.content b.fp ≡ content
        → reg.offset b.fp ≡ base + backup
        → take backup (drop (b.end - backup) b.bmhbuf) ≡ take backup (drop base content)
        → length (take backup (drop base content)) ≡ backup
        → (b' : Bmh F) × (fill io bufsize backup b ≡ done b')
          × Holds content base b'
          × Leaves b b'
          × (b'.pos ≡ b.pos)
    unfolding fill
    fill-Holds backup b le fit same at keeps long =
        let wanted : ℕ = bufsize - backup in
        let r : List ℕ × F = io.fread wanted b.fp in
        let kept : List ℕ = take backup (drop (b.end - backup) b.bmhbuf) in
        let inside : ltb bufsize (b.end - backup + backup) ≡ false = ground arith in
        let got : r.0 ≡ take wanted (drop backup (drop base content)) =
          reg.fread_data wanted b.fp
          ∙ ap₂ (λ o z. take wanted (drop o z)) at same
          ∙ ap (λ z. take wanted z) (sym (drop-drop base backup content)) in
        let sum : backup + wanted ≡ bufsize = omega arith in
        let whole : kept ++ r.0 ≡ window content base =
          ap₂ (λ x y. x ++ y) keeps got
          ∙ take_add backup wanted (drop base content)
          ∙ ap (λ z. take z (drop base content)) sum in
        let size : backup + length r.0 ≡ length (window content base) =
          omega (arith, length-append kept r.0, ap length whole, ap length keeps, long) in
        (
          filled bufsize backup wanted kept r b,
          rw
              (
                sub32-fits b.end backup le (omega arith),
                sub32-fits bufsize backup (omega arith) (omega arith),
                inside,
              )
              refl,
          filled-Holds backup kept r b (omega arith) whole size
              (reg.fread_content wanted b.fp ∙ same)
              (omega (arith, reg.fread_offset wanted b.fp, at)),
          filled-Leaves backup wanted kept r b,
          filled-pos backup wanted kept r b,
        )
