-- ===== src/Rxvm/Literals.antt =====
-- `rxvm_match` of librxvm/rxvm.c on an expression of literals alone, which `simple_match` compares.
use librxvm.Prelude.{
  ℕ, suc, ◌+◌, ◌≤◌, ◌<◌, ◌≡◌, ◌≢◌, refl, sym, ◌∙◌, ap, ◌⊎◌, inl, inr, Bool, true, false, Bool-cases,
  List, [], ◌∷◌, some, Outcome, done, arith, length, ◌==◌, if◌then◌else◌,
}
use librxvm.Prelude.Int.{ℤ, pos}
use librxvm.Lfix.Text.{Literal, written, meant}
use librxvm.Vm.{Threads, char_match}
use librxvm.Rxvm.{
  Compiled, MatchFlags, buffer, skip_escape, simple_step, simple_loop, simple_match, ends_at_nul,
  match_string, fresh_threads,
}
use librxvm.Rxvm.Loop.{IsText, match_flags}
use librxvm.Rxvm.Match.{Answers, ends_at_nul-all, ends_at_nul-part}

-- A backslash stands for itself only behind another.
abbrev pub IsEscaped : List Literal → Type 0
IsEscaped [] = Unit {0}
IsEscaped ((true, c) ∷ ls) = IsEscaped ls
IsEscaped ((false, c) ∷ ls) = (c ≢ b'\\') × IsEscaped ls

-- The characters of the text match those of the pattern, one by one.
abbrev pub SameText : Bool → List ℕ → List ℕ → Type 0
SameText icase [] [] = Unit {0}
SameText icase (m ∷ ms) (c ∷ w) = (char_match icase m c ≡ true) × SameText icase ms w
SameText icase _ _ = ⊥

skip-written :
    (esc : Bool) (m : ℕ) (ls : List Literal)
    → IsEscaped ((esc, m) ∷ ls)
    → skip_escape (written ((esc, m) ∷ ls)) ≡ m ∷ written ls
skip-written true m ls h = refl
skip-written false m ls h = elim (Bool-cases (m == b'\\')) [
  | inl e ↦ absurd (h.0 (ground arith))
  | inr e ↦ rw e refl
]

-- The text begins with what the pattern matches.
abbrev Begins : Bool → List ℕ → List ℕ → Type 0
Begins icase [] w = Unit {0}
Begins icase (m ∷ ms) [] = ⊥
Begins icase (m ∷ ms) (c ∷ w) = (char_match icase m c ≡ true) × Begins icase ms w

-- The state once `k` characters are read.
abbrev run : Bool → ℕ → Threads
run icase k = record (fresh_threads (match_flags icase)) { chars = k }

-- How the comparison of `ls` with `w` ends.
abbrev Compared : Bool → List Literal → List ℕ → ℕ → Bool × Threads → Type 0
Compared icase ls w k r =
    ((r.0 ≡ true) × (r.1.match_end ≡ k + length ls + 1) × Begins icase (meant ls) w)
    ⊎ (((r.0 ≡ false) ⊎ (r.1.match_end ≡ 0)) × (¬ Begins icase (meant ls) w))

-- A round of the loop, at a place of the pattern where `m` is the next character.
module _ (orig : List ℕ) (d : ℕ) (p ps : List ℕ) (m : ℕ) (skips : skip_escape (d ∷ p) ≡ m ∷ ps)
    (icase : Bool) (k : ℕ) where
  ends_text :
      (s : List ℕ) → simple_loop orig (d ∷ p) (run icase k) (0 ∷ s) ≡ done (true, run icase (k + 1))
  unfolding simple_loop
  ends_text s = refl

  goes_on :
      (c : ℕ) (s : List ℕ)
      → 0 < c
      → char_match icase m c ≡ true
      → simple_loop orig (d ∷ p) (run icase k) (c ∷ s) ≡ simple_loop orig ps (run icase (k + 1)) s
  unfolding simple_loop simple_step
  goes_on c s lt e =
      let other : (c == 0) ≡ false = ground arith in
      rw (simple_loop, other, skips, simple_step, e) refl

  differs_at :
      (c : ℕ) (s : List ℕ)
      → 0 < c
      → char_match icase m c ≡ false
      → simple_loop orig (d ∷ p) (run icase k) (c ∷ s) ≡ done (false, run icase (k + 1))
  unfolding simple_loop simple_step
  differs_at c s lt e =
      let other : (c == 0) ≡ false = ground arith in
      rw (simple_loop, other, skips, simple_step, e) refl

IsEscaped-tail : (esc : Bool) (m : ℕ) (ls : List Literal) → IsEscaped ((esc, m) ∷ ls) → IsEscaped ls
IsEscaped-tail true m ls h = h
IsEscaped-tail false m ls h = h.1

-- A pattern that is not at its end.
written-cons :
    (esc : Bool) (m : ℕ) (ls : List Literal)
    → (d : ℕ) × (p : List ℕ) × (written ((esc, m) ∷ ls) ≡ d ∷ p)
written-cons true m ls = (b'\\', m ∷ written ls, refl)
written-cons false m ls = (m, written ls, refl)

module _ (orig : List ℕ) (icase : Bool) where
  loop-Compared :
      (ls : List Literal) (w : List ℕ) (k : ℕ)
      → IsEscaped ls
      → IsText w
      → (r : Bool × Threads) × (simple_loop orig (written ls) (run icase k) (buffer w) ≡ done r)
        × Compared icase ls w k r
  unfolding simple_loop
  loop-Compared [] w k h text =
      ((true, record (run icase k) { match_end = k + 1 }), refl, inl (refl, omega arith, tt))
  loop-Compared ((esc, m) ∷ ls) [] k h text =
      let (d, p, q) = written-cons esc m ls in
      (
        (true, run icase (k + 1)),
        rw q (
            ends_text orig d p (written ls) m (ap skip_escape (sym q) ∙ skip-written esc m ls h)
              icase k []),
        inr (inr refl, λ z. z),
      )
  loop-Compared ((esc, m) ∷ ls) (c ∷ w) k h text =
      let (d, p, q) = written-cons esc m ls in
      let skips = ap skip_escape (sym q) ∙ skip-written esc m ls h in
      elim (Bool-cases (char_match icase m c)) [
        | inl e ↦
            let (r, f, g) = loop-Compared ls w (k + 1) (IsEscaped-tail esc m ls h) text.1 in
            (
              r,
              rw q (goes_on orig d p (written ls) m skips icase k c (buffer w) text.0 e) ∙ f,
              elim g [
                | inl (hit, end, b) ↦ inl (hit, omega (arith, end), (e, b))
                | inr (miss, nb) ↦ inr (miss, λ b. nb b.1)
              ],
            )
        | inr e ↦ (
          (false, run icase (k + 1)),
          rw q (differs_at orig d p (written ls) m skips icase k c (buffer w) text.0 e),
          inr (inl refl, λ b. absurd (cc)),
        )
      ]

SameText-Begins :
    (icase : Bool) (ms w : List ℕ)
    → SameText icase ms w
    → Begins icase ms w × (length ms ≡ length w)
SameText-Begins icase [] [] h = (tt, refl)
SameText-Begins icase [] (c ∷ w) h = elim h [ ]
SameText-Begins icase (m ∷ ms) [] h = elim h [ ]
SameText-Begins icase (m ∷ ms) (c ∷ w) h =
    let (b, e) = SameText-Begins icase ms w h.1 in ((h.0, b), omega (arith, e))

Begins-SameText :
    (icase : Bool) (ms w : List ℕ)
    → Begins icase ms w
    → (length ms ≡ length w → SameText icase ms w) × (length ms ≤ length w)
Begins-SameText icase [] [] h = (λ e. tt, omega arith)
Begins-SameText icase [] (c ∷ w) h = (λ e. absurd (omega arith), omega arith)
Begins-SameText icase (m ∷ ms) [] h = elim h [ ]
Begins-SameText icase (m ∷ ms) (c ∷ w) h =
    let (f, le) = Begins-SameText icase ms w h.1 in
    ((λ e. (h.0, f (omega (arith, e)))), omega (arith, le))

length-meant : (ls : List Literal) → length (meant ls) ≡ length ls
length-meant [] = refl
length-meant ((esc, m) ∷ ls) = ap suc (length-meant ls)

shorter_or_same : (a b : ℕ) → a ≤ b → (a ≡ b) ⊎ (a < b)
shorter_or_same a b le = ground arith

-- What `rxvm_match` makes of the comparison.
module _ (icase : Bool) (ls : List Literal) (w : List ℕ) (text : IsText w)
    (r : Bool × Threads) where
  verdict : Outcome ℤ
  verdict = if r.0 then ends_at_nul (buffer w) r.1.match_end else done (pos 0)

  verdict-Answers : Compared icase ls w 0 r → Answers (SameText icase (meant ls) w) verdict
  unfolding verdict ends_at_nul
  verdict-Answers (inl (hit, end, b)) =
      let (same, le) = Begins-SameText icase (meant ls) w b in
      elim (shorter_or_same (length ls) (length w) (omega (arith, le, length-meant ls))) [
        | inl e ↦
            let at_end : r.1.match_end ≡ suc (length w) = omega (arith, end, e) in
            inl (rw (hit, at_end) (ends_at_nul-all w), same (omega (arith, e, length-meant ls)))
        | inr lt ↦ inr (
          rw hit (ends_at_nul-part w r.1.match_end text (omega (arith, end, lt))),
          λ h.
              (let shut = (SameText-Begins icase (meant ls) w h).1 in
                omega (arith, shut, lt, length-meant ls)),
        )
      ]
  verdict-Answers (inr (inl miss, nb)) =
      inr (rw miss refl, λ h. nb (SameText-Begins icase (meant ls) w h).0)
  verdict-Answers (inr (inr none_found, nb)) = inr (
    elim (Bool-cases r.0) [ inl e ↦ rw (e, none_found) refl | inr e ↦ rw e refl ],
    λ h. nb (SameText-Begins icase (meant ls) w h).0,
  )

-- For an expression of literals alone, each with a backslash in front of it or not, where a backslash
-- stands for itself only behind another, and a text with no terminator inside: `rxvm_match` returns 1
-- if the text has as many characters as there are literals and each matches its own, and 0 if not. It
-- makes no access outside the expression or the text.
pub match_string-SameText :
    (alloc : ℕ → Bool) (compiled : Compiled) (ls : List Literal) (input : List ℕ)
    (flags : MatchFlags)
    → compiled.simple ≡ some (written ls)
    → IsEscaped ls
    → IsText input
    → Answers (SameText flags.icase (meant ls) input) (match_string alloc compiled input flags)
unfolding match_string simple_match verdict
match_string-SameText alloc compiled ls input flags e h text =
    let (r, f, c) = loop-Compared (written ls) flags.icase ls input 0 h text in
    rw (e, match_string, simple_match, f) (verdict-Answers flags.icase ls input text r c)
