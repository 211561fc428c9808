-- ===== src/Strb/Decimal.antt =====
-- `my_utoa` writes the decimal digits of a number.
use librxvm.Prelude.{
  ℕ, zero, suc, ◌+◌, ◌-◌, ◌*◌, ◌/◌, ◌%◌, ◌^◌, ◌≤◌, ◌<◌, ◌≡◌, refl, ◌∙◌, ap, inl, inr, true, false,
  List, [], ◌∷◌, some, arith, length, ltb, ◌==◌, Bool-cases,
}
use native.Mathlib.Nat.{pow-suc}
use librxvm.Strb.{count_digits, write_digits, my_utoa}

-- The number that a decimal text stands for, behind the digits already read.
abbrev pub value : ℕ → List ℕ → ℕ
value acc [] = acc
value acc (c ∷ text) = value (acc * 10 + (c - b'0')) text

-- The digits of `val` are put in front of the text.
write_digits-value :
    (fuel val : ℕ) (text : List ℕ)
    → val < fuel
    → value 0 (write_digits fuel val text) ≡ value val text
unfolding write_digits
write_digits-value zero val text lt = absurd (omega arith)
write_digits-value (suc fuel) val text lt = elim (Bool-cases (val == 0)) [
  | inl z ↦ let z' : val ≡ 0 = ground arith in rw z' refl
  | inr nz ↦
      let digit : val / 10 * 10 + (val % 10 + b'0' - b'0') ≡ val = omega arith in
      rw (nz, write_digits)
        (write_digits-value fuel (val / 10) ((val % 10 + b'0') ∷ text) (ground arith) ∙ rw digit)
]

length-write_digits :
    (fuel val : ℕ) (text : List ℕ)
    → length (write_digits fuel val text) ≡ count_digits fuel val + length text
unfolding write_digits count_digits
length-write_digits zero val text = omega arith
length-write_digits (suc fuel) val text = elim (Bool-cases (val == 0)) [
  | inl z ↦ rw (z, write_digits, count_digits) (omega arith)
  | inr nz ↦
      rw (nz, write_digits, count_digits)
        (omega (arith, length-write_digits fuel (val / 10) ((val % 10 + b'0') ∷ text)))
]

-- `k` digits are enough for a number below 10 ^ k.
count_digits-le : (fuel val k : ℕ) → val < 10 ^ k → count_digits fuel val ≤ k
unfolding count_digits
count_digits-le zero val k lt = omega arith
count_digits-le (suc fuel) val zero lt =
    let z : (val == 0) ≡ true = ground arith in rw (z, count_digits) (omega arith)
count_digits-le (suc fuel) val (suc k) lt = elim (Bool-cases (val == 0)) [
  | inl z ↦ rw (z, count_digits) (omega arith)
  | inr nz ↦
      let power : 10 ^ suc k ≡ 10 ^ k * 10 = pow-suc 10 k in
      rw (nz, count_digits) (omega (arith, count_digits-le fuel (val / 10) k (omega arith)))
]

count_digits-zero : (fuel val : ℕ) → val < fuel → count_digits fuel val ≡ 0 → val ≡ 0
unfolding count_digits
count_digits-zero zero val lt e = absurd (omega arith)
count_digits-zero (suc fuel) val lt e = ground arith

-- A 32-bit number fits the local array of `strb_addu`: the text written stands for the number, and
-- the length returned is its length.
pub my_utoa-value :
    (val : ℕ)
    → val < 2 ^ 32
    → (text : List ℕ) × (my_utoa val 20 ≡ some (text, length text))
      × (value 0 text ≡ val)
      × (length text ≤ 10)
unfolding my_utoa
my_utoa-value val lt =
    let short : count_digits (val + 1) val ≤ 10 = count_digits-le (val + 1) val 10 (omega arith) in
    let fits : ltb 20 (count_digits (val + 1) val + 1) ≡ false = ground arith in
    elim (Bool-cases (count_digits (val + 1) val == 0)) [
      | inl z ↦
          let none_left : val ≡ 0 = count_digits-zero (val + 1) val (omega arith) (ground arith) in
          (b'0' ∷ [], rw (fits, z), omega arith, omega arith)
      | inr nz ↦
          let len = length-write_digits (val + 1) val [] in
          (
            write_digits (val + 1) val [],
            rw (fits, nz, len)
                (ap (λ (n : ℕ). some (write_digits (val + 1) val [], n)) (omega arith)),
            write_digits-value (val + 1) val [] (omega arith),
            omega (arith, len),
          )
    ]
