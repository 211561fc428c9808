-- ===== src/Bmh/Table.antt =====
-- The table of librxvm/bmh.c: how far the window may move past a character.
use librxvm.Prelude.{
  ℕ, suc, ◌+◌, ◌-◌, ◌^◌, ◌≤◌, ◌<◌, ◌≡◌, ◌≢◌, refl, sym, ap, ◌∙◌, inl, inr, true, false, Bool-cases,
  List, [], ◌∷◌, some, some_inj, done, arith, ltb, ◌==◌, ==_iff, length, length-set,
  length-replicate, get_elem?, set, replicate,
}
use mathlib.Core.Path.{subst}
use librxvm.Prelude.Words.{sub32, sub32-fits}
use librxvm.Prelude.Slices.{get_elem?-replicate, get_elem?-set_self, get_elem?-set_ne}
use librxvm.Bmh.{asize, atoindex, set_badchar, set_shifts}

-- A character that the table has an entry for.
abbrev pub IsIndexed : ℕ → Type 0
IsIndexed c = (7 ≤ c) × (c < b'~')

-- Each entry is a distance from 1 to `n`, at most that from the end of the pattern to the
-- character's last place, so far as it is one of the first `m` and not the end.
abbrev pub IsTable : ℕ → ℕ → List ℕ → List ℕ → Type 0
IsTable n m pat table =
    (i : ℕ)
    → i < asize
    → (k : ℕ) × (get_elem? table i ≡ some k)
      × (1 ≤ k)
      × (k ≤ n)
      × ((j : ℕ) → j < m → get_elem? pat j ≡ some (i + 7) → k + j < n)

replicate-IsTable : (n : ℕ) (pat : List ℕ) → 0 < n → IsTable n 0 pat (replicate asize n)
replicate-IsTable n pat lt i h =
    (n, get_elem?-replicate asize i n h, omega arith, omega arith, λ j l. absurd (omega arith))

set_badchar-done :
    (table : List ℕ) (c v : ℕ)
    → IsIndexed c
    → length table ≡ asize
    → set_badchar table c v ≡ done (set table (c - 7) v)
unfolding set_badchar
set_badchar-done table c v h e =
    let low : ltb c 7 ≡ false = ground arith in
    let inside : ltb (c - 7) (length table) ≡ true = ground (arith, e) in
    rw (set_badchar, atoindex, low, inside) refl

-- A step of the loop at `m`, where the pattern has `c`.
step-IsTable :
    (n m c : ℕ) (pat table : List ℕ)
    → IsTable n m pat table
    → length table ≡ asize
    → get_elem? pat m ≡ some c
    → IsIndexed c
    → m + 1 < n
    → IsTable n (m + 1) pat (set table (c - 7) (n - m - 1))
step-IsTable n m c pat table t e at h lt i small =
    let (k, q, pos, most, far) = t i small in
    elim (Bool-cases (c - 7 == i)) [
      | inl same ↦
          let is : c - 7 ≡ i = (==_iff (c - 7) i).0 same in
          (
            n - m - 1,
            ap (λ z. get_elem? (set table z (n - m - 1)) i) is
                ∙ get_elem?-set_self table i (n - m - 1) (omega (arith, e)),
            omega arith,
            omega arith,
            λ j l r. omega arith,
          )
      | inr other ↦
          let differs : c - 7 ≢ i = λ is. absurd (ground arith) in
          (
            k,
            get_elem?-set_ne table (c - 7) i (n - m - 1) differs ∙ q,
            pos,
            most,
            λ j l r. elim (Bool-cases (j == m)) [
              | inl last ↦
                  let is : j ≡ m = (==_iff j m).0 last in
                  let ends : c ≡ i + 7 =
                    some_inj (sym at ∙ ap (λ z. get_elem? pat z) (sym is) ∙ r) in
                  absurd (differs (omega arith))
              | inr earlier ↦ far j (ground arith) r
            ],
          )
    ]

-- The two ways that a step of the loop goes on.
module _ (n m c : ℕ) (rest table : List ℕ) where
  shifts-more :
      (table' : List ℕ)
      → ltb m (sub32 n 1) ≡ true
      → set_badchar table c (sub32 (sub32 n m) 1) ≡ done table'
      → set_shifts n m (c ∷ rest) table ≡ set_shifts n (m + 1) rest table'
  unfolding set_shifts
  shifts-more table' e q = rw (set_shifts, e, q) refl

  shifts-stop : ltb m (sub32 n 1) ≡ false → set_shifts n m (c ∷ rest) table ≡ done table
  unfolding set_shifts
  shifts-stop e = rw (set_shifts, e) refl

module _ (n : ℕ) (pat : List ℕ) (some_pat : 0 < n) (small : n < 2 ^ 32)
    (indexed : (j c : ℕ) → j < n → get_elem? pat j ≡ some c → IsIndexed c) where
  shifts-IsTable :
      (m : ℕ) (rest table : List ℕ)
      → IsTable n m pat table
      → length table ≡ asize
      → ((j : ℕ) → get_elem? rest j ≡ get_elem? pat (m + j))
      → n ≤ m + length rest
      → m < n
      → (table' : List ℕ) × (set_shifts n m rest table ≡ done table')
        × IsTable n (n - 1) pat table'
        × (length table' ≡ asize)
  shifts-IsTable m [] table t e at le lt = absurd (omega arith)
  shifts-IsTable m (c ∷ rest) table t e at le lt =
      let bound : sub32 n 1 ≡ n - 1 = sub32-fits n 1 (omega arith) small in
      elim (Bool-cases (ltb m (n - 1))) [
        | inl more ↦
            let here : get_elem? pat m ≡ some c =
              ap (λ z. get_elem? pat z) (omega arith) ∙ sym (at 0) in
            let h = indexed m c lt here in
            let lt' : m + 1 < n = ground arith in
            let far : sub32 (sub32 n m) 1 ≡ n - m - 1 =
              ap (λ z. sub32 z 1) (sub32-fits n m (omega arith) small)
              ∙ sub32-fits (n - m) 1 (omega arith) (omega arith) in
            let (table', q, t', e') =
              shifts-IsTable (m + 1) rest (set table (c - 7) (n - m - 1))
                (step-IsTable n m c pat table t e here h lt')
                (length-set table (c - 7) (n - m - 1) ∙ e)
                (λ j. at (suc j) ∙ ap (λ z. get_elem? pat z) (omega arith)) (omega arith) lt' in
            (
              table',
              shifts-more n m c rest table (set table (c - 7) (n - m - 1)) (rw bound more)
                    (rw far (set_badchar-done table c (n - m - 1) h e))
                  ∙ q,
              t',
              e',
            )
        | inr stop ↦
            let last : m ≡ n - 1 = ground arith in
            (
              table,
              shifts-stop n m c rest table (rw bound stop),
              subst (λ z. IsTable n z pat table) last t,
              e,
            )
      ]

  -- For a pattern of n characters, more than none and fewer than 2 ^ 32, that the table has an
  -- index for each of: the second loop of bmh_init ends with no access outside the pattern and the
  -- table, and leaves for each index a distance from 1 to n, at most that from any place before the
  -- last at which the pattern has the character to the pattern's end.
  pub set_shifts-IsTable :
      n ≤ length pat
      → (table : List ℕ) × (set_shifts n 0 pat (replicate asize n) ≡ done table)
        × IsTable n (n - 1) pat table
  set_shifts-IsTable le =
      let (table, q, t, _) =
        shifts-IsTable 0 pat (replicate asize n) (replicate-IsTable n pat some_pat)
          (length-replicate asize n) (λ j. ap (λ z. get_elem? pat z) (omega arith)) (omega arith)
          some_pat in
      (table, q, t)
