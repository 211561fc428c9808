-- ===== src/Gen/Nchar.antt =====
-- Looking for a character outside a class, librxvm/randinput.c.
use librxvm.Prelude.{
  ℕ, zero, suc, ◌+◌, ◌-◌, ◌*◌, ◌%◌, ◌≤◌, ◌<◌, ◌≡◌, refl, ◌∙◌, ap, ◌==◌, ◌⊎◌, inl, inr, true, false,
  Bool-cases, List, done, arith, ltb,
}
use librxvm.Gen.{has_char, find_loop, rand_range, find_nchar}

-- A character that may be printed.
abbrev pub IsPrintable : ℕ → Type 0
IsPrintable c = (b' ' ≤ c) × (c ≤ b'~')

-- A printable character outside the class, or 0 where the class holds them all.
abbrev pub IsOutside : List ℕ → ℕ → Type 0
IsOutside ccs r =
    (IsPrintable r × (has_char ccs r ≡ false))
    ⊎ ((r ≡ 0) × ((c : ℕ) → IsPrintable c → has_char ccs c ≡ true))

-- In the second turn, every character before `c` has been tried.
abbrev Tried : List ℕ → ℕ → ℕ → Type 0
Tried ccs c wraps = wraps ≡ 1 → (d : ℕ) → b' ' ≤ d → d < c → has_char ccs d ≡ true

Tried-next :
    (ccs : List ℕ) (c wraps : ℕ)
    → Tried ccs c wraps
    → has_char ccs c ≡ true
    → Tried ccs (c + 1) wraps
Tried-next ccs c wraps tried here e d lo lt = elim (Bool-cases (d == c)) [
  | inl q ↦ let same : d ≡ c = ground arith in ap (has_char ccs) same ∙ here
  | inr q ↦ tried e d lo (ground arith)
]

module _ (fuel : ℕ) (ccs : List ℕ) (c wraps : ℕ) (here : has_char ccs c ≡ true) where
  tries_next :
      ltb c b'~' ≡ true
      → ltb 1 wraps ≡ false
      → find_loop (suc fuel) ccs c wraps ≡ find_loop fuel ccs (c + 1) wraps
  unfolding find_loop
  tries_next low more = rw (find_loop, here, low, more) refl

  tries_first :
      ltb c b'~' ≡ false
      → ltb 1 (wraps + 1) ≡ false
      → find_loop (suc fuel) ccs c wraps ≡ find_loop fuel ccs b' ' (wraps + 1)
  unfolding find_loop
  tries_first top more = rw (find_loop, here, top, more) refl

  gives_up :
      ltb c b'~' ≡ false → ltb 1 (wraps + 1) ≡ true → find_loop (suc fuel) ccs c wraps ≡ done 0
  unfolding find_loop
  gives_up top all = rw (find_loop, here, top, all) refl

-- Each round takes away one of the characters that are left to try, in two turns.
find_loop-Outside :
    (fuel : ℕ) (ccs : List ℕ) (c wraps : ℕ)
    → IsPrintable c
    → wraps ≤ 1
    → Tried ccs c wraps
    → (1 - wraps) * 95 + (b'~' - c) < fuel
    → (r : ℕ) × (find_loop fuel ccs c wraps ≡ done r) × IsOutside ccs r
unfolding find_loop
find_loop-Outside zero ccs c wraps p le tried lt = absurd (omega arith)
find_loop-Outside (suc fuel) ccs c wraps p le tried lt = elim (Bool-cases (has_char ccs c)) [
  | inr out ↦ (c, rw (find_loop, out) refl, inl (p, out))
  | inl here ↦ elim (Bool-cases (ltb c b'~')) [
    | inl low ↦
        let (r, e, o) =
          find_loop-Outside fuel ccs (c + 1) wraps (ground arith) le
            (Tried-next ccs c wraps tried here) (ground arith) in
        (r, tries_next fuel ccs c wraps here low (ground arith) ∙ e, o)
    | inr top ↦ elim (Bool-cases (ltb 1 (wraps + 1))) [
      | inl done_all ↦ (
        0,
        gives_up fuel ccs c wraps here top done_all,
        inr (refl, λ d q. Tried-next ccs c wraps tried here (ground arith) d q.0 (ground arith)),
      )
      | inr more ↦
          let (r, e, o) =
            find_loop-Outside fuel ccs b' ' (wraps + 1) (ground arith) (ground arith)
              (λ e d lo lt'. absurd (omega arith)) (ground arith) in
          (r, tries_first fuel ccs c wraps here top more ∙ e, o)
    ]
  ]
]

pub mod_below : (a m : ℕ) → a % (m + 1) ≤ m
mod_below a m = omega arith

-- Whatever `rand` returns, `find_nchar` ends within its fuel; it returns a printable character that is
-- not in the class, or 0 where the class holds every printable character.
pub find_nchar-Outside :
    (rand : ℕ → ℕ) (n : ℕ) (ccs : List ℕ)
    → (r : ℕ) × (find_nchar rand n ccs ≡ done r) × IsOutside ccs r
unfolding find_nchar
find_nchar-Outside rand n ccs =
    let below : rand n % (b'~' - b' ' + 1) ≤ 94 = mod_below (rand n) 94 in
    find_loop-Outside 192 ccs (rand_range rand n b' ' b'~') 0 (omega arith, omega arith)
      (omega arith) (λ e d lo lt. absurd (omega arith)) (omega arith)
