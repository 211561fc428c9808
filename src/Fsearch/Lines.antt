-- ===== src/Fsearch/Lines.antt =====
-- `read_backwards` and `seek_to_start_of_line` of librxvm/rxvm.c on a regular file.
use mathlib.Core.Path.{subst}
use librxvm.Prelude.{
  ltb→lt, ℕ, zero, suc, ◌+◌, ◌-◌, ◌≤◌, ◌<◌, ◌≡◌, ◌≢◌, refl, sym, ap, ap₂, ◌∙◌, ◌⊎◌, inl, inr, true,
  Bool-cases, List, [], ◌∷◌, Option, none, some, some_inj, done, arith, ltb, ◌==◌, ==_iff,
  if◌then◌else◌, length, get_elem?, take, drop, Option-cases,
}
use librxvm.Prelude.Int.{ℤ, pos}
use librxvm.Prelude.Slices.{length-take, length-drop, get_elem?-drop, get_elem?-take}
use librxvm.File.{Stdio, IsRegular, seek_cur, minus, target-minus, target-pos}
use librxvm.Fsearch.Seek.{
  lbuf_size, newline_in, chunk_size, read_backwards, LineStep, returns, continues, line_step,
  line_loop, seek_to_start_of_line,
}

-- The first newline of a list.
abbrev NewlineIn : List ℕ → Option ℕ → Type 0
NewlineIn buf none = (i : ℕ) → i < length buf → get_elem? buf i ≢ some b'\n'
NewlineIn buf (some i) = (i < length buf) × (get_elem? buf i ≡ some b'\n')

newline_in-NewlineIn : (buf : List ℕ) → NewlineIn buf (newline_in buf)
newline_in-NewlineIn [] = λ i lt. absurd (omega arith)
newline_in-NewlineIn (c ∷ buf) = elim (Bool-cases (c == b'\n')) [
  | inl e ↦ let is : c ≡ b'\n' = (==_iff c b'\n').0 e in rw e (omega arith, ap (λ z. some z) is)
  | inr e ↦
      let ne : c ≢ b'\n' = ground arith in
      elim (Option-cases (newline_in buf)) [
        | inl f ↦ let h = newline_in-NewlineIn buf in rw (e, f) (newline_none c buf ne (rw f at h))
        | inr (i, f) ↦
            let h = newline_in-NewlineIn buf in
            let (lt, q) = rw f at h in rw (e, f) (omega arith, q)
      ]
]
  where
    newline_none :
        (c : ℕ) (buf : List ℕ)
        → c ≢ b'\n'
        → ((i : ℕ) → i < length buf → get_elem? buf i ≢ some b'\n')
        → (i : ℕ) → i < suc (length buf)
        → get_elem? (c ∷ buf) i ≢ some b'\n'
    newline_none c buf ne h zero lt = λ e. ne (some_inj e)
    newline_none c buf ne h (suc i) lt = h i (omega arith)

module _ {F : Type 0} {io : Stdio F} (reg : IsRegular io) where
  pub read_backwards-reads :
      (size : ℕ) (f : F)
      → size ≤ reg.offset f
      → reg.offset f ≤ length (reg.content f)
      → (f' : F) × (read_backwards io size f
          ≡ (pos size, take size (drop (reg.offset f - size) (reg.content f)), f'))
        × (reg.offset f' ≡ reg.offset f - size)
        × (reg.content f' ≡ reg.content f)
  unfolding read_backwards
  read_backwards-reads size f le inside =
      let o : ℕ = reg.offset f in
      let (back_ok, back_at, back_same) =
        reg.fseek_moves (minus size) seek_cur f (o - size) (target-minus size o le) in
      let b : F = (io.fseek (minus size) seek_cur f).1 in
      let got : (io.fread size b).0 ≡ take size (drop (o - size) (reg.content f)) =
        reg.fread_data size b ∙ ap₂ (λ p c. take size (drop p c)) back_at back_same in
      let long : length (io.fread size b).0 ≡ size =
        ap length got
        ∙ length-take size (drop (o - size) (reg.content f))
            (omega (arith, length-drop (o - size) (reg.content f))) in
      let g : F = (io.fread size b).1 in
      let g_at : reg.offset g ≡ o = omega (arith, reg.fread_offset size b, back_at, long) in
      let d : List ℕ = (io.fread size b).0 in
      let (again_ok, again_at, again_same) =
        reg.fseek_moves (minus (length d)) seek_cur g (o - size) (
          target-minus (length d) (reg.offset g) (omega (arith, g_at, long))
          ∙ ap (λ z. some z) (omega (arith, g_at, long))) in
      let whole : (length d == size) ≡ true = (==_iff (length d) size).1 long in
      (
        (io.fseek (minus (length d)) seek_cur g).1,
        rw (read_backwards, back_ok, whole, again_ok)
            (ap (λ z. (pos size, z, (io.fseek (minus (length d)) seek_cur g).1)) got),
        again_at,
        again_same ∙ reg.fread_content size b ∙ back_same,
      )

chunk_size-le :
    (boundary curr : ℕ)
    → boundary < curr
    → (0 < chunk_size boundary curr)
      × (chunk_size boundary curr ≤ lbuf_size)
      × (boundary + chunk_size boundary curr ≤ curr)
unfolding chunk_size
chunk_size-le boundary curr lt = (ground arith, ground arith, ground arith)

-- No newline stands from `low` on before `high`.
abbrev pub NoNewline : List ℕ → ℕ → ℕ → Type 0
NoNewline content low high = (j : ℕ) → low ≤ j → j < high → get_elem? content j ≢ some b'\n'

-- Where the search for a line's start from `curr` back to `boundary` ends: at a newline with none
-- further than a chunk behind it, or, where there is none, at the boundary.
abbrev pub IsLineStart : List ℕ → ℕ → ℕ → ℕ → Type 0
IsLineStart content boundary curr q =
    ((boundary ≤ q)
      × (q < curr)
      × (get_elem? content q ≡ some b'\n')
      × NoNewline content (q + lbuf_size) curr)
    ⊎ ((q ≡ (if ltb boundary curr then boundary else curr)) × NoNewline content boundary curr)

zero-cases : (n : ℕ) → (n ≡ 0) ⊎ ((m : ℕ) × (n ≡ suc m))
zero-cases zero = inl refl
zero-cases (suc m) = inr (m, refl)

LineStep-cases :
    {F : Type 0} {io : Stdio F} (s : LineStep io)
    → ((ret : ℤ) × (f : F) × (s ≡ returns ret f)) ⊎ ((curr : ℕ) × (f : F) × (s ≡ continues curr f))
LineStep-cases (returns ret f) = inl (ret, f, refl)
LineStep-cases (continues curr f) = inr (curr, f, refl)

module _ {F : Type 0} {io : Stdio F} (reg : IsRegular io) (boundary : ℕ) where
  -- A round, on a file at `curr`.
  abbrev StepsTo : ℕ → F → LineStep io → Type 0
  StepsTo curr f (returns ret f') =
      (q : ℕ) × (ret ≡ pos q)
      × (boundary ≤ q)
      × (q < curr)
      × (curr ≤ q + lbuf_size)
      × (get_elem? (reg.content f) q ≡ some b'\n')
      × (reg.offset f' ≡ q)
      × (reg.content f' ≡ reg.content f)
  StepsTo curr f (continues curr' f') =
      (boundary ≤ curr')
      × (curr' < curr)
      × NoNewline (reg.content f) curr' curr
      × (reg.offset f' ≡ curr')
      × (reg.content f' ≡ reg.content f)

  line_step-StepsTo :
      (curr : ℕ) (f : F)
      → boundary < curr
      → reg.offset f ≡ curr
      → curr ≤ length (reg.content f)
      → StepsTo curr f (line_step io boundary curr f)
  unfolding line_step
  line_step-StepsTo curr f lt at inside =
      let size : ℕ = chunk_size boundary curr in
      let (some_read, short, le) = chunk_size-le boundary curr lt in
      let (f', reads, at', same) =
        read_backwards-reads reg size f (omega (arith, at)) (omega (arith, at)) in
      let buf : List ℕ = take size (drop (reg.offset f - size) (reg.content f)) in
      let long : length buf ≡ size =
        length-take size (drop (reg.offset f - size) (reg.content f))
          (omega (arith, length-drop (reg.offset f - size) (reg.content f), at)) in
      let whole : (size == size) ≡ true = (==_iff size size).1 refl in
      let newlines = newline_in-NewlineIn buf in
      let here : (i j : ℕ)
          → i < size
          → curr - size + i ≡ j
          → get_elem? buf i ≡ get_elem? (reg.content f) j =
        λ i j l e.
          get_elem?-take size i (drop (reg.offset f - size) (reg.content f)) (omega (arith, long))
          ∙ get_elem?-drop (reg.offset f - size) i (reg.content f)
          ∙ ap (λ z. get_elem? (reg.content f) z) (omega (arith, at)) in
      elim (Option-cases (newline_in buf)) [
        | inl e ↦
            let free = rw e at newlines in
            rw (line_step, reads, whole, e)
              (
                omega arith,
                omega arith,
                λ j lo hi g.
                    free (j - (curr - size)) (omega (arith, long))
                      (here (j - (curr - size)) j (omega arith) (omega arith) ∙ g),
                ap (λ z. reg.offset z.2) reads ∙ at' ∙ ap (λ z. z - size) at,
                ap (λ z. reg.content z.2) reads ∙ same,
              )
        | inr (i, e) ↦
            let (l, q) = rw e at newlines in
            let g : F = (read_backwards io size f).2 in
            let g_at : reg.offset g ≡ curr - size =
              ap (λ z. reg.offset z.2) reads ∙ at' ∙ ap (λ z. z - size) at in
            let (ok, moved, kept) =
              reg.fseek_moves (pos i) seek_cur g (curr - size + i)
                (target-pos i (reg.offset g) ∙ ap (λ z. some (z + i)) g_at) in
            rw (line_step, reads, whole, e, ok)
              (
                curr - size + i,
                refl,
                omega arith,
                omega (arith, long),
                omega arith,
                sym (here i (curr - size + i) (omega (arith, long)) refl) ∙ q,
                moved,
                kept ∙ ap (λ z. reg.content z.2) reads ∙ same,
              )
      ]

  -- The loop, where the search began at `first` and has found no newline from `curr` on.
  abbrev pub Stands : ℕ → F → ℤ × F → Type 0
  Stands first f r =
      (q : ℕ) × (r.0 ≡ pos q)
      × IsLineStart (reg.content f) boundary first q
      × (reg.offset r.1 ≡ q)
      × (reg.content r.1 ≡ reg.content f)

  stops_at :
      (curr first : ℕ)
      → curr ≤ first
      → curr ≤ boundary
      → (curr < first → boundary ≤ curr)
      → curr ≡ (if ltb boundary first then boundary else first)
  stops_at curr first le low past = elim (Bool-cases (ltb curr first)) [
    | inl e ↦ let h = past (ltb→lt curr first e) in ground arith
    | inr e ↦ ground arith
  ]

  line_loop-Stands :
      (first fuel curr : ℕ) (f : F)
      → curr < fuel
      → curr ≤ first
      → (curr < first → boundary ≤ curr)
      → reg.offset f ≡ curr
      → curr ≤ length (reg.content f)
      → NoNewline (reg.content f) curr first
      → (r : ℤ × F) × (line_loop io fuel boundary curr f ≡ done r) × Stands first f r
  unfolding line_loop
  line_loop-Stands first zero curr f enough le past at inside free = absurd (omega arith)
  line_loop-Stands first (suc fuel) curr f enough le past at inside free =
      elim (Bool-cases (ltb boundary curr)) [
        | inr e ↦
            let low : curr ≤ boundary = ground arith in
            (
              (pos curr, f),
              rw (line_loop, e) refl,
              (
                curr,
                refl,
                inr (stops_at curr first le low past, λ j lo hi. free j (omega arith) hi),
                at,
                refl,
              ),
            )
        | inl e ↦ elim (LineStep-cases (line_step io boundary curr f)) [
          | inl (ret, f', q) ↦
              let steps = line_step-StepsTo curr f (ltb→lt boundary curr e) at inside in
              let (x, is, lo, hi, near, nl, at', same) = rw q at steps in
              (
                (ret, f'),
                rw (line_loop, e, q) refl,
                (x, is, inl (lo, omega arith, nl, λ j l h. free j (omega arith) h), at', same),
              )
          | inr (curr', f', q) ↦
              let steps = line_step-StepsTo curr f (ltb→lt boundary curr e) at inside in
              let (lo, hi, none_here, at', same) = rw q at steps in
              let (r, runs, (x, is, start, at'', same')) =
                line_loop-Stands first fuel curr' f' (omega arith) (omega arith) (λ l. lo) at'
                  (omega (arith, ap length same))
                  (λ j l h. elim (Bool-cases (ltb j curr)) [
                    | inl before ↦ rw same (none_here j l (ltb→lt j curr before))
                    | inr behind ↦ rw same (free j (ground arith) h)
                  ]) in
              (
                r,
                rw (line_loop, e, q) runs,
                (x, is, subst (λ z. IsLineStart z boundary first x) same start, at'', same' ∙ same),
              )
        ]
      ]

  starts_at :
      (f : F) (curr : ℕ)
      → reg.offset f ≡ suc curr
      → seek_to_start_of_line io boundary f ≡ line_loop io (suc (suc curr)) boundary (suc curr) f
  unfolding seek_to_start_of_line
  starts_at f curr e = rw (seek_to_start_of_line, reg.ftell_offset f, e) refl

  -- On a regular file that stands inside its content, for any boundary: seek_to_start_of_line always
  -- returns, and leaves the file at the place that it returns: a newline from the boundary on before
  -- where the file was, with no other newline 16 or more places behind it up to there; or the
  -- boundary, if it is before the file's place, else that place, with no newline from the boundary on
  -- before that place.
  pub seek_to_start_of_line-Stands :
      (f : F)
      → reg.offset f ≤ length (reg.content f)
      → (r : ℤ × F) × (seek_to_start_of_line io boundary f ≡ done r) × Stands (reg.offset f) f r
  unfolding seek_to_start_of_line
  seek_to_start_of_line-Stands f inside = elim (zero-cases (reg.offset f)) [
    | inl e ↦ (
      (pos 0, f),
      rw (seek_to_start_of_line, reg.ftell_offset f, e) refl,
      (0, refl, rw e (inr (ground arith, λ j lo hi. absurd (omega arith))), e, refl),
    )
    | inr (curr, e) ↦
        let (r, q, stands) =
          line_loop-Stands (suc curr) (suc (suc curr)) (suc curr) f (omega arith) (omega arith)
            (λ l. absurd (omega arith)) e (omega (arith, e)) (λ j lo hi. absurd (omega arith)) in
        (r, starts_at f curr e ∙ q, subst (λ z. Stands z f r) (sym e) stands)
  ]
