-- ===== src/Bmh/Compare.antt =====
-- The comparison of the window with the pattern in librxvm/bmh.c, and how far a character lets the
-- window move.
use librxvm.Prelude.{
  ℕ, zero, suc, ◌+◌, ◌-◌, ◌≤◌, ◌<◌, ◌≡◌, ◌≢◌, refl, sym, ap, ◌∙◌, ◌⊎◌, inl, inr, true, false,
  Bool-cases, List, some, some_inj, done, ◌>>=◌, arith, ltb, leb, ◌==◌, ==_iff, get_elem?,
}
use librxvm.Lex.{isprintable}
use librxvm.Vm.{char_match}
use librxvm.Bmh.{atoindex, badchar_at, read_at, compare_at, compare_down, skip_length}
use librxvm.Bmh.Table.{IsIndexed, IsTable}

module _ (buf : List ℕ) (start : ℕ) (pat : List ℕ) where
  compare_at-eq :
      (i a d : ℕ)
      → get_elem? buf (start + i) ≡ some a
      → get_elem? pat i ≡ some d
      → compare_at false buf start pat i ≡ done (a == d)
  unfolding compare_at char_match
  compare_at-eq i a d e f = rw (compare_at, ◌>>=◌, read_at, e, f) refl

  -- The first `i + 1` characters of the window are those of the pattern.
  abbrev pub Same : ℕ → Type 0
  Same i = (j : ℕ) → j ≤ i → get_elem? buf (start + j) ≡ get_elem? pat j

  abbrev pub Differs : ℕ → Type 0
  Differs i = (j : ℕ) × (j ≤ i) × (get_elem? buf (start + j) ≢ get_elem? pat j)

  abbrev pub Compares : ℕ → Type 0
  Compares i =
      ((compare_down false buf start pat i ≡ done true) × Same i)
      ⊎ ((compare_down false buf start pat i ≡ done false) × Differs i)

  down-step :
      (i : ℕ)
      → compare_at false buf start pat (suc i) ≡ done true
      → compare_down false buf start pat (suc i) ≡ compare_down false buf start pat i
  unfolding compare_down
  down-step i e = rw (compare_down, e) refl

  down-stop :
      (i : ℕ)
      → compare_at false buf start pat (suc i) ≡ done false
      → compare_down false buf start pat (suc i) ≡ done false
  unfolding compare_down
  down-stop i e = rw (compare_down, e) refl

  at_zero : compare_down false buf start pat 0 ≡ compare_at false buf start pat 0
  unfolding compare_down
  at_zero = refl

  module _ (n : ℕ) (sees : (j : ℕ) → j < n → (a : ℕ) × (get_elem? buf (start + j) ≡ some a))
      (has : (j : ℕ) → j < n → (d : ℕ) × (get_elem? pat j ≡ some d)) where
    pub compare_down-Compares : (i : ℕ) → i < n → Compares i
    compare_down-Compares zero lt =
        let (a, e) = sees 0 lt in
        let (d, f) = has 0 lt in
        let first = at_zero ∙ compare_at-eq 0 a d e f in
        elim (Bool-cases (a == d)) [
          | inl same ↦ inl (
            first ∙ ap (λ z. done z) same,
            λ j le.
                let zero_j : 0 ≡ j = omega arith in
                ap (λ z. get_elem? buf (start + z)) (sym zero_j)
                ∙ e
                ∙ ap (λ z. some z) ((==_iff a d).0 same)
                ∙ sym f
                ∙ ap (λ z. get_elem? pat z) zero_j,
          )
          | inr other ↦ inr (
            first ∙ ap (λ z. done z) other,
            (
              0,
              omega arith,
              λ q. let eq : a ≡ d = some_inj (sym e ∙ q ∙ f) in absurd (ground arith),
            ),
          )
        ]
    compare_down-Compares (suc i) lt =
        let (a, e) = sees (suc i) lt in
        let (d, f) = has (suc i) lt in
        let here = compare_at-eq (suc i) a d e f in
        elim (Bool-cases (a == d)) [
          | inl same ↦
              let goes = down-step i (here ∙ ap (λ z. done z) same) in
              elim (compare_down-Compares i (omega arith)) [
                | inl (q, all) ↦ inl (
                  goes ∙ q,
                  λ j le. elim (Bool-cases (leb j i)) [
                    | inl low ↦ all j (ground arith)
                    | inr high ↦
                        let last : suc i ≡ j = ground arith in
                        ap (λ z. get_elem? buf (start + z)) (sym last)
                        ∙ e
                        ∙ ap (λ z. some z) ((==_iff a d).0 same)
                        ∙ sym f
                        ∙ ap (λ z. get_elem? pat z) last
                  ],
                )
                | inr (q, (j, le, ne)) ↦ inr (goes ∙ q, (j, omega arith, ne))
              ]
          | inr other ↦ inr (
            down-stop i (here ∙ ap (λ z. done z) other),
            (
              suc i,
              omega arith,
              λ q. let eq : a ≡ d = some_inj (sym e ∙ q ∙ f) in absurd (ground arith),
            ),
          )
        ]

-- A printable character that the table has an entry for.
abbrev pub IsPlain : ℕ → Type 0
IsPlain c = (isprintable c ≡ true) × (c ≢ b'~')

pub IsPlain-IsIndexed : (c : ℕ) → IsPlain c → IsIndexed c
IsPlain-IsIndexed c h = let ne : c ≢ 126 = h.1 in let p : isprintable c ≡ true = h.0 in ground arith

-- How far the window moves past `c`: no place of the pattern but its end comes to stand on `c`
-- before.
pub skip_length-far :
    (n : ℕ) (pat table : List ℕ) (c : ℕ)
    → 0 < n
    → IsTable n (n - 1) pat table
    → ((j d : ℕ) → j < n → get_elem? pat j ≡ some d → IsPlain d)
    → c ≢ b'~'
    → (k : ℕ) × (skip_length table n c ≡ done k)
      × (1 ≤ k)
      × (k ≤ n)
      × ((j : ℕ) → j < n - 1 → get_elem? pat j ≡ some c → k + j < n)
unfolding skip_length badchar_at
skip_length-far n pat table c lt t plain ne = elim (Bool-cases (isprintable c)) [
  | inl e ↦
      let (low, high) = IsPlain-IsIndexed c (e, ne) in
      let (k, q, one, most, far) = t (c - 7) (omega arith) in
      let back : c - 7 + 7 ≡ c = omega arith in
      let index : ltb c 7 ≡ false = ground arith in
      (
        k,
        rw (e, badchar_at, atoindex, index, read_at, q) refl,
        one,
        most,
        λ j l f. far j l (f ∙ ap (λ z. some z) (sym back)),
      )
  | inr e ↦ (
    n,
    rw e refl,
    lt,
    omega arith,
    λ j l f. let (p, _) = plain j c (omega arith) f in absurd (cc),
  )
]
