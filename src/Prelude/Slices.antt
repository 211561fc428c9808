-- ===== src/Prelude/Slices.antt =====
-- Parts of lists: `take` and `drop` together.
use librxvm.Prelude.{
  ℕ, zero, suc, ◌+◌, ◌-◌, ◌≤◌, ◌<◌, ◌≡◌, refl, ap, List, [], ◌∷◌, ◌++◌, some, arith, length,
  get_elem?, set, take, drop, replicate, ◌≢◌,
}
use native.Mathlib.Nat.{zero-add}
use native.Mathlib.Numerals.{unary_clauses}

suc_add : (m k : ℕ) → suc m + k ≡ suc (m + k)
suc_add m k = omega arith

module _ {ℓ} {A : Type ℓ} where
  pub length-take : (n : ℕ) (xs : List A) → n ≤ length xs → length (take n xs) ≡ n
  length-take zero xs h = refl
  length-take (suc n) [] h = absurd (omega arith)
  length-take (suc n) (x ∷ xs) h = ap suc (length-take n xs (omega arith))

  pub length-take_le : (n : ℕ) (xs : List A) → length (take n xs) ≤ n
  length-take_le zero xs = omega arith
  length-take_le (suc n) [] = omega arith
  length-take_le (suc n) (x ∷ xs) = omega (arith, length-take_le n xs)

  pub length-take_all : (n : ℕ) (xs : List A) → length (take n xs) ≤ length xs
  length-take_all zero xs = omega arith
  length-take_all (suc n) [] = omega arith
  length-take_all (suc n) (x ∷ xs) = omega (arith, length-take_all n xs)

  -- A list that is shorter than what is taken of it is taken whole.
  pub length-take_short :
      (n : ℕ) (xs : List A) → length (take n xs) < n → length (take n xs) ≡ length xs
  length-take_short zero xs h = absurd (omega arith)
  length-take_short (suc n) [] h = refl
  length-take_short (suc n) (x ∷ xs) h = ap suc (length-take_short n xs (omega arith))

  pub length-drop : (n : ℕ) (xs : List A) → length (drop n xs) ≡ length xs - n
  length-drop zero xs = omega arith
  length-drop (suc n) [] = omega arith
  length-drop (suc n) (x ∷ xs) = omega (arith, length-drop n xs)

  pub drop-drop : (m k : ℕ) (xs : List A) → drop k (drop m xs) ≡ drop (m + k) xs
  drop-drop zero k xs = rw (zero-add k) refl
  drop-drop (suc m) zero [] = simp unary_clauses
  drop-drop (suc m) (suc k) [] = simp unary_clauses
  drop-drop (suc m) k (x ∷ xs) = rw (suc_add m k) (drop-drop m k xs)

  pub take_add : (k r : ℕ) (xs : List A) → take k xs ++ take r (drop k xs) ≡ take (k + r) xs
  take_add zero r xs = rw (zero-add r) refl
  take_add (suc k) zero [] = simp unary_clauses
  take_add (suc k) (suc r) [] = simp unary_clauses
  take_add (suc k) r (x ∷ xs) = rw (suc_add k r) (ap (λ z. x ∷ z) (take_add k r xs))

  -- A part that lies inside the first `n` elements is the same with others behind them.
  pub take-drop-prefix :
      (m k n : ℕ) (xs ys : List A)
      → m + k ≤ length (take n xs)
      → take k (drop m (take n xs ++ ys)) ≡ take k (drop m xs)
  take-drop-prefix zero zero n xs ys h = refl
  take-drop-prefix m (suc k) zero xs ys h = absurd (omega arith)
  take-drop-prefix m (suc k) (suc n) [] ys h = absurd (omega arith)
  take-drop-prefix zero (suc k) (suc n) (x ∷ xs) ys h =
      ap (λ z. x ∷ z) (take-drop-prefix zero k n xs ys (omega arith))
  take-drop-prefix (suc m) zero n xs ys h = refl
  take-drop-prefix (suc m) (suc k) (suc n) (x ∷ xs) ys h =
      take-drop-prefix m (suc k) n xs ys (omega arith)

  pub get_elem?-drop : (n i : ℕ) (xs : List A) → get_elem? (drop n xs) i ≡ get_elem? xs (n + i)
  get_elem?-drop zero i xs = rw (zero-add i) refl
  get_elem?-drop (suc n) i [] = refl
  get_elem?-drop (suc n) i (x ∷ xs) = rw (suc_add n i) (get_elem?-drop n i xs)

  pub get_elem?-take :
      (n i : ℕ) (xs : List A) → i < length (take n xs) → get_elem? (take n xs) i ≡ get_elem? xs i
  get_elem?-take zero i xs h = absurd (omega arith)
  get_elem?-take (suc n) i [] h = absurd (omega arith)
  get_elem?-take (suc n) zero (x ∷ xs) h = refl
  get_elem?-take (suc n) (suc i) (x ∷ xs) h = get_elem?-take n i xs (omega arith)

  pub get_elem?-prefix :
      (xs ys : List A) (i : ℕ) → i < length xs → get_elem? (xs ++ ys) i ≡ get_elem? xs i
  get_elem?-prefix [] ys i h = absurd (omega arith)
  get_elem?-prefix (x ∷ xs) ys zero h = refl
  get_elem?-prefix (x ∷ xs) ys (suc i) h = get_elem?-prefix xs ys i (omega arith)

  -- Behind the first list stands the padding.
  pub get_elem?-padding :
      (xs : List A) (n i : ℕ) (a : A)
      → length xs ≤ i
      → i < length xs + n
      → get_elem? (xs ++ replicate n a) i ≡ some a
  get_elem?-padding [] zero i a le lt = absurd (omega arith)
  get_elem?-padding [] (suc n) zero a le lt = refl
  get_elem?-padding [] (suc n) (suc i) a le lt =
      get_elem?-padding [] n i a (omega arith) (omega arith)
  get_elem?-padding (x ∷ xs) n zero a le lt = absurd (omega arith)
  get_elem?-padding (x ∷ xs) n (suc i) a le lt =
      get_elem?-padding xs n i a (omega arith) (omega arith)

module _ {ℓ} {A : Type ℓ} where
  pub get_elem?-replicate : (n i : ℕ) (a : A) → i < n → get_elem? (replicate n a) i ≡ some a
  get_elem?-replicate zero i a lt = absurd (omega arith)
  get_elem?-replicate (suc n) zero a lt = refl
  get_elem?-replicate (suc n) (suc i) a lt = get_elem?-replicate n i a (omega arith)

  pub get_elem?-set_self :
      (xs : List A) (i : ℕ) (v : A) → i < length xs → get_elem? (set xs i v) i ≡ some v
  get_elem?-set_self [] i v lt = absurd (omega arith)
  get_elem?-set_self (x ∷ xs) zero v lt = refl
  get_elem?-set_self (x ∷ xs) (suc i) v lt = get_elem?-set_self xs i v (omega arith)

  pub get_elem?-set_ne :
      (xs : List A) (i j : ℕ) (v : A) → i ≢ j → get_elem? (set xs i v) j ≡ get_elem? xs j
  get_elem?-set_ne [] i j v ne = refl
  get_elem?-set_ne (x ∷ xs) zero zero v ne = absurd (ne refl)
  get_elem?-set_ne (x ∷ xs) zero (suc j) v ne = refl
  get_elem?-set_ne (x ∷ xs) (suc i) zero v ne = refl
  get_elem?-set_ne (x ∷ xs) (suc i) (suc j) v ne = get_elem?-set_ne xs i j v (λ e. ne (ap suc e))
