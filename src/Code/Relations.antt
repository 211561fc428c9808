-- ===== src/Code/Relations.antt =====
-- What code means, as relations between the place where a thread starts and the place where it ends:
-- in a row, repeated, and at choice.
use librxvm.Prelude.{ℕ, zero, suc, ◌≡◌, ◌⊎◌, ◌↔◌, inl, inr}
use librxvm.Code.Runs.{Place}

abbrev pub Rel : Type 1
Rel = Place → Place → Type 0

abbrev pub SameRel : Rel → Rel → Type 0
SameRel r s = (p q : Place) → r p q ↔ s p q

abbrev pub Same : Rel
Same p q = p ≡ q

abbrev pub Seq : Rel → Rel → Rel
Seq r s p q = (m : Place) × r p m × s m q

abbrev pub Or : Rel → Rel → Rel
Or r s p q = r p q ⊎ s p q

-- Once or more.
pub data Plus (r : Rel) : Place → Place → Type 0 where
  once : {p q : Place} → r p q → Plus r p q
  again : {p m q : Place} → r p m → Plus r m q → Plus r p q

-- `n` times.
abbrev pub Times : ℕ → Rel → Rel
Times zero r = Same
Times (suc n) r = Seq r (Times n r)

-- At most `n` times.
abbrev pub UpTo : ℕ → Rel → Rel
UpTo zero r = Same
UpTo (suc n) r = Or Same (Seq r (UpTo n r))

pub SameRel-refl : (r : Rel) → SameRel r r
SameRel-refl r p q = (λ a. a, λ a. a)

pub SameRel-Seq : {r r' s s' : Rel} → SameRel r r' → SameRel s s' → SameRel (Seq r s) (Seq r' s')
SameRel-Seq f g p q =
    (λ (m, a, b). (m, (f p m).0 a, (g m q).0 b), λ (m, a, b). (m, (f p m).1 a, (g m q).1 b))

pub SameRel-Or : {r r' s s' : Rel} → SameRel r r' → SameRel s s' → SameRel (Or r s) (Or r' s')
SameRel-Or f g p q = (
  λ h. elim h [ inl a ↦ inl ((f p q).0 a) | inr b ↦ inr ((g p q).0 b) ],
  λ h. elim h [ inl a ↦ inl ((f p q).1 a) | inr b ↦ inr ((g p q).1 b) ],
)

pub SameRel-trans : {r s t : Rel} → SameRel r s → SameRel s t → SameRel r t
SameRel-trans f g p q = (λ a. (g p q).0 ((f p q).0 a), λ a. (f p q).1 ((g p q).1 a))
