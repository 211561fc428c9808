-- ===== src/Code/Counts.antt =====
-- Repetition counted: doing something `k` times, for one of the numbers `k` that a repetition allows.
use librxvm.Prelude.{ℕ, zero, suc, ◌+◌, ◌-◌, ◌≤◌, ◌<◌, ◌≡◌, refl, sym, inl, inr, ◌↔◌, arith}
use mathlib.Core.Path.{subst}
use librxvm.Code.Runs.{Place}
use librxvm.Code.Relations.{Rel, SameRel, Same, Seq, Or, Plus, once, again, Times, UpTo}

abbrev pub Repeats : (ℕ → Type 0) → Rel → Rel
Repeats allowed r p q = (k : ℕ) × allowed k × Times k r p q

module _ (r : Rel) where
  Times-join :
      (a b c : ℕ) (p m q : Place) → c ≡ a + b → Times a r p m → Times b r m q → Times c r p q
  Times-join zero b c p m q e s t =
      let e' : b ≡ c = omega arith in
      subst (λ v. Times v r p q) e' (subst (λ v. Times b r v q) (sym s) t)
  Times-join (suc a) b zero p m' q e s t = absurd (omega arith)
  Times-join (suc a) b (suc c) p m' q e (m, x, s) t =
      (m, x, Times-join a b c m m' q (omega arith) s t)

  Times-cut :
      (a b c : ℕ) (p q : Place)
      → c ≡ a + b
      → Times c r p q
      → (m : Place) × Times a r p m × Times b r m q
  Times-cut zero b c p q e t =
      let e' : c ≡ b = omega arith in (p, refl, subst (λ v. Times v r p q) e' t)
  Times-cut (suc a) b zero p q e t = absurd (omega arith)
  Times-cut (suc a) b (suc c) p q e (m, x, t) =
      let (m', s, t') = Times-cut a b c m q (omega arith) t in (m', (m, x, s), t')

  Plus-Times : {p q : Place} → Plus r p q → Repeats (λ k. 1 ≤ k) r p q
  Plus-Times {p} {q} (once x) = (1, omega arith, (q, x, refl))
  Plus-Times (again {m = m} x s) = let (k, le, t) = Plus-Times s in (suc k, omega arith, (m, x, t))

  Times-Plus : (k : ℕ) {p q : Place} → Times (suc k) r p q → Plus r p q
  Times-Plus zero {p} {q} (m, x, e) = once (subst (λ v. r p v) e x)
  Times-Plus (suc k) (m, x, t) = again x (Times-Plus k t)

  pub Plus-Repeats : SameRel (Plus r) (Repeats (λ k. 1 ≤ k) r)
  Plus-Repeats p q = (Plus-Times, from)
    where
      from : Repeats (λ k. 1 ≤ k) r p q → Plus r p q
      from (zero, le, t) = absurd (omega arith)
      from (suc k, le, t) = Times-Plus k t

  pub Star-Repeats : SameRel (Or Same (Plus r)) (Repeats (λ k. Unit {0}) r)
  Star-Repeats p q = (to, from)
    where
      to : Or Same (Plus r) p q → Repeats (λ k. Unit {0}) r p q
      to (inl e) = (0, tt, e)
      to (inr s) = let (k, le, t) = Plus-Times s in (k, tt, t)

      from : Repeats (λ k. Unit {0}) r p q → Or Same (Plus r) p q
      from (zero, u, e) = inl e
      from (suc k, u, t) = inr (Times-Plus k t)

  pub Option-Repeats : SameRel (Or Same r) (Repeats (λ k. k ≤ 1) r)
  Option-Repeats p q = (to, from)
    where
      to : Or Same r p q → Repeats (λ k. k ≤ 1) r p q
      to (inl e) = (0, omega arith, e)
      to (inr x) = (1, omega arith, (q, x, refl))

      from : Repeats (λ k. k ≤ 1) r p q → Or Same r p q
      from (zero, le, e) = inl e
      from (suc zero, le, (m, x, e)) = inr (subst (λ v. r p v) e x)
      from (suc (suc k), le, t) = absurd (omega arith)

  UpTo-Times : (n : ℕ) {p q : Place} → UpTo n r p q → Repeats (λ k. k ≤ n) r p q
  UpTo-Times zero e = (0, omega arith, e)
  UpTo-Times (suc n) (inl e) = (0, omega arith, e)
  UpTo-Times (suc n) (inr (m, x, u)) =
      let (k, le, t) = UpTo-Times n u in (suc k, omega arith, (m, x, t))

  Times-UpTo : (n k : ℕ) (p q : Place) → k ≤ n → Times k r p q → UpTo n r p q
  Times-UpTo zero zero p q le t = t
  Times-UpTo zero (suc k) p q le t = absurd (omega arith)
  Times-UpTo (suc n) zero p q le t = inl t
  Times-UpTo (suc n) (suc k) p q le (m, x, t) = inr (m, x, Times-UpTo n k m q (omega arith) t)

  pub UpTo-Repeats : (n : ℕ) → SameRel (UpTo n r) (Repeats (λ k. k ≤ n) r)
  UpTo-Repeats n p q = (UpTo-Times n, λ (k, le, t). Times-UpTo n k p q le t)

  -- First `a` times, and then at most so many more that it is `b` times.
  pub Range-Repeats :
      (a b : ℕ)
      → a ≤ b
      → SameRel (Seq (Times a r) (UpTo (b - a) r)) (Repeats (λ k. (a ≤ k) × (k ≤ b)) r)
  Range-Repeats a b le p q = (
    λ (m, s, u).
        (let (k, le', t) = UpTo-Times (b - a) u in
          (a + k, (omega arith, omega arith), Times-join a k (a + k) p m q refl s t)),
    λ (k, (lo, hi), t).
        (let (m, s, t') = Times-cut a (k - a) k p q (omega arith) t in
          (m, s, Times-UpTo (b - a) (k - a) m q (omega arith) t')),
  )

  -- `n` times, and then once or more: more than `n` times.
  pub More-Repeats : (n : ℕ) → SameRel (Seq (Times n r) (Plus r)) (Repeats (λ k. n < k) r)
  More-Repeats n p q = (
    λ (m, s, u).
        (let (k, le, t) = Plus-Times u in
          (n + k, omega arith, Times-join n k (n + k) p m q refl s t)),
    λ (k, lt, t).
        (let (m, s, t') = Times-cut n (suc (k - n - 1)) k p q (omega arith) t in
          (m, s, Times-Plus (k - n - 1) t')),
  )

  -- `n` times, and then once.
  pub Next-Repeats : (n : ℕ) → SameRel (Seq (Times n r) r) (Repeats (λ k. k ≡ suc n) r)
  Next-Repeats n p q = (
    λ (m, s, x). (suc n, refl, Times-join n 1 (suc n) p m q (omega arith) s (q, x, refl)),
    λ (k, e, t).
        (let (m, s, (m', x, f)) = Times-cut n 1 k p q (omega arith) t in
          (m, s, subst (λ v. r m v) f x)),
  )

pub Repeats-SameRel :
    (a b : ℕ → Type 0) (r : Rel) → ((k : ℕ) → a k ↔ b k) → SameRel (Repeats a r) (Repeats b r)
Repeats-SameRel a b r h p q = (λ (k, x, t). (k, (h k).0 x, t), λ (k, x, t). (k, (h k).1 x, t))
