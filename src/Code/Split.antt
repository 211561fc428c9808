-- ===== src/Code/Split.antt =====
-- Runs through a program in which closed code stands: a run through the code is one through the
-- program, and one that enters the code at its start leaves it behind its end.
use librxvm.Prelude.{
  ℕ, zero, suc, ◌+◌, ◌≤◌, ◌<◌, ◌≡◌, refl, sym, ◌∙◌, ap, ◌⊎◌, inl, inr, Bool, List, [], ◌∷◌, ◌++◌,
  some, arith, length, get_elem?, get_elem?-lt, get_elem?-some, get_elem?-append_left, some_inj,
}
use mathlib.Core.Path.{subst}
use librxvm.Inst.{Inst}
use librxvm.Vmcode.Closed.{LandsOf, AllLand, IsClosed}
use librxvm.Code.Runs.{Place, HopOf, Hop, Goes, stay, hop, Through, HopOf-shift, HopOf-unshift}

-- The code `l` stands in `big` at index `a`.
pub record Inside (big : List Inst) (a : ℕ) (l : List Inst) : Type 0 where
  pub at :
      (i j : ℕ) (inst : Inst) → j ≡ a + i → get_elem? l i ≡ some inst → get_elem? big j ≡ some inst

get_elem?-behind :
    (pre l : List Inst) (i j : ℕ) → j ≡ length pre + i → get_elem? (pre ++ l) j ≡ get_elem? l i
get_elem?-behind [] l i j e = ap (get_elem? l) (omega arith)
get_elem?-behind (x ∷ pre) l i zero e = absurd (omega arith)
get_elem?-behind (x ∷ pre) l i (suc j) e = get_elem?-behind pre l i j (omega arith)

pub Inside-front : (l post : List Inst) → Inside (l ++ post) 0 l
Inside-front l post = record {
  at = λ i j inst e g.
      let same : i ≡ j = omega arith in
      subst (λ v. get_elem? (l ++ post) v ≡ some inst) same
        (get_elem?-append_left l post i (get_elem?-lt l i g) ∙ g);
}

pub Inside-back : (pre l : List Inst) → Inside (pre ++ l) (length pre) l
Inside-back pre l = record { at = λ i j inst e g. get_elem?-behind pre l i j e ∙ g }

pub Inside-cons : (x : Inst) (l : List Inst) → Inside (x ∷ l) 1 l
Inside-cons x l = Inside-back (x ∷ []) l

pub Inside-Inside :
    (big mid l : List Inst) (a b c : ℕ)
    → c ≡ a + b
    → Inside big a mid
    → Inside mid b l
    → Inside big c l
Inside-Inside big mid l a b c e h g = record {
  at = λ i j inst q f. h.at (b + i) j inst (omega arith) (g.at i (b + i) inst refl f);
}

AllLand-at :
    (n k i j : ℕ) (l : List Inst) (inst : Inst)
    → AllLand n k l
    → get_elem? l i ≡ some inst
    → k + i ≡ j
    → LandsOf n j inst inst.op
AllLand-at n k i j [] inst h g e = absurd (cc)
AllLand-at n k zero j (x ∷ l) inst h g e =
    let e' : k ≡ j = omega arith in
    subst (λ v. LandsOf n j v v.op) (some_inj g) (subst (λ v. LandsOf n v x x.op) e' h.0)
AllLand-at n k (suc i) j (x ∷ l) inst h g e = AllLand-at n (k + 1) i j l inst h.1 g (omega arith)

pub IsClosed-at :
    (l : List Inst) (i : ℕ) (inst : Inst)
    → IsClosed l
    → get_elem? l i ≡ some inst
    → LandsOf (length l) i inst inst.op
IsClosed-at l i inst h g = AllLand-at (length l) 0 i i l inst h.0 g (omega arith)

module _ (icase multiline : Bool) where
  -- Behind the last instruction a run can only stay.
  pub Goes-end :
      {l : List Inst} {n i k : ℕ} {p q : Place}
      → length l ≤ i
      → Goes icase multiline l n i p k q
      → (i ≡ k) × (p ≡ q)
  Goes-end le stay = (refl, refl)
  Goes-end {l} {n} {i} le (hop h g) = absurd (omega (arith, get_elem?-lt l i h.found))

  -- A run that moves begins with an instruction.
  pub record First (l : List Inst) (n i : ℕ) (p : Place) (k : ℕ) (q : Place) : Type 0 where
    pub next : ℕ
    pub place : Place
    pub count : ℕ
    pub step : Hop icase multiline l i p next place
    pub run : Goes icase multiline l count next place k q
    pub fewer : count < n

  pub Goes-First :
      {l : List Inst} {n i k : ℕ} {p q : Place}
      → i < k
      → Goes icase multiline l n i p k q
      → First l n i p k q
  Goes-First lt stay = absurd (omega arith)
  Goes-First lt (hop {n = n} {j = j} {r = r} h g) = record {
    next = j;
    place = r;
    count = n;
    step = h;
    run = g;
    fewer = omega arith;
  }

  pub Through-append :
      {l : List Inst} {n i j k : ℕ} {p q r : Place}
      → Goes icase multiline l n i p j r
      → Through icase multiline l j r k q
      → Through icase multiline l i p k q
  Through-append stay g = g
  Through-append (hop h f) g = let (n, t) = Through-append f g in (suc n, hop h t)

  pub Goes-at :
      {l : List Inst} {n i j k m : ℕ} {p q : Place}
      → i ≡ j
      → k ≡ m
      → Goes icase multiline l n i p k q
      → Goes icase multiline l n j p m q
  Goes-at {l} {n} {i} {j} {k} {m} {p} {q} e f g =
      subst (λ v. Goes icase multiline l n j p v q) f
        (subst (λ v. Goes icase multiline l n v p k q) e g)

  module _ (big : List Inst) (a : ℕ) (l : List Inst) (inside : Inside big a l) where
    -- A run through the code is one through the program.
    pub Goes-embed :
        {n i k : ℕ} {p q : Place}
        → Goes icase multiline l n i p k q
        → Goes icase multiline big n (a + i) p (a + k) q
    Goes-embed stay = stay
    Goes-embed {i = i} {p = p} (hop {j = j} {r = r} h g) =
        hop
          (record {
            inst = h.inst;
            found = inside.at i (a + i) h.inst refl h.found;
            goes = HopOf-shift icase multiline a i j h.inst p r h.goes;
          })
          (Goes-embed g)

    -- Where a run that is inside closed code goes next.
    Hop-unshift :
        {m i j : ℕ} {p r : Place}
        → IsClosed l
        → m ≡ a + i
        → i < length l
        → Hop icase multiline big m p j r
        → (j' : ℕ) × (j ≡ a + j') × (j' ≤ length l) × Hop icase multiline l i p j' r
    Hop-unshift {m} {i} {j} {p} {r} closed e lt h =
        let (inst, g) = get_elem?-some l i lt in
        let same : h.inst ≡ inst = some_inj (sym h.found ∙ inside.at i m inst e g) in
        let goes : HopOf icase multiline (a + i) inst p j r =
          subst (λ v. HopOf icase multiline v inst p j r) e
            (subst (λ v. HopOf icase multiline m v p j r) same h.goes) in
        let (j', f, le, o) =
          HopOf-unshift icase multiline a i (length l) j inst p r lt (IsClosed-at l i inst closed g)
            goes in
        (j', f, le, record { inst = inst; found = g; goes = o })

    -- A run that is inside the code and ends outside comes to the end of the code.
    pub record Split (n i : ℕ) (p : Place) (k : ℕ) (q : Place) : Type 0 where
      pub place : Place
      pub inner : Through icase multiline l i p (length l) place
      pub left : ℕ
      pub outer : Goes icase multiline big left (a + length l) place k q
      pub fewer : left ≤ n

    pub Goes-Split :
        {n m i k : ℕ} {p q : Place}
        → IsClosed l
        → m ≡ a + i
        → i ≤ length l
        → (k < a) ⊎ (a + length l ≤ k)
        → Goes icase multiline big n m p k q
        → Split n i p k q
    Goes-Split {i = i} {k = k} {p = p} closed e le out stay =
        let last : i ≡ length l = grind arith in
        record {
          place = p;
          inner = (0, Goes-at refl last stay);
          left = 0;
          outer = Goes-at (omega arith) refl stay;
          fewer = omega arith;
        }
    Goes-Split {n = suc n} {m = m} {i = i} {k = k} {p = p} {q = q} closed e le out
          (hop {j = j} {r = r} h g) =
        elim (ends i le) [
          | inl lt ↦
              let (j', f, le', o) = Hop-unshift closed e lt h in
              let s = Goes-Split closed f le' out g in
              record {
                place = s.place;
                inner = (suc s.inner.0, hop o s.inner.1);
                left = s.left;
                outer = s.outer;
                fewer = omega (arith, s.fewer);
              }
          | inr eq ↦ record {
            place = p;
            inner = (0, Goes-at refl eq stay);
            left = suc n;
            outer = Goes-at (omega arith) refl (hop h g);
            fewer = omega arith;
          }
        ]
      where
        ends : (i : ℕ) → i ≤ length l → (i < length l) ⊎ (i ≡ length l)
        ends i le = ground arith
