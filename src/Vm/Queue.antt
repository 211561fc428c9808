-- ===== src/Vm/Queue.antt =====
-- The invariant of a thread list with its lookup table, and what `add_thread` does to it.
use librxvm.Prelude.{
  ℕ, zero, suc, ◌≤◌, ◌<◌, ◌≡◌, refl, sym, ◌∙◌, ap, ◌⊎◌, inl, inr, Bool, true, false, List, [], ◌∷◌,
  ◌++◌, some, done, arith, length, get_elem?, get_or, set, length-append, length-set,
  get_or-set_self, get_or-set_ne, get_elem?-lt, get_elem?-some, get_elem?-append_left,
  get_elem?-concat, get_elem?-concat_cases, get_or-eq, replicate, length-replicate,
  get_or-replicate, lt→ltb,
}
use mathlib.Core.Path.{subst}
use mathlib.Core.Bool.{false≢true}
use native.Mathlib.Decide.{ℕ_discrete}
use librxvm.Vm.{Table, add_thread}

-- The number of entries that are set.
abbrev pub count : List Bool → ℕ
count [] = 0
count (true ∷ l) = suc (count l)
count (false ∷ l) = count l

abbrev pub marked : Table → ℕ → Bool
marked t v = get_or t.lookup v false

-- The list holds each marked index once, and the table has `n` entries.
pub record IsTable (n : ℕ) (t : Table) : Type 0 where
  pub size : length t.lookup ≡ n
  pub counted : length t.list ≡ count t.lookup
  pub listed : (v : ℕ) → marked t v ≡ true → (k : ℕ) × (get_elem? t.list k ≡ some v)
  pub marks : (k v : ℕ) → get_elem? t.list k ≡ some v → marked t v ≡ true

-- The queue `t'` is `t` with new entries at its end, all of them in `P`.
pub record Grows (n : ℕ) (t : Table) (P : ℕ → Type 0) (t' : Table) : Type 0 where
  pub table : IsTable n t'
  pub longer : length t.list ≤ length t'.list
  pub old : (k : ℕ) → k < length t.list → get_elem? t'.list k ≡ get_elem? t.list k
  pub keep : (v : ℕ) → marked t v ≡ true → marked t' v ≡ true
  pub only : (v : ℕ) → marked t' v ≡ true → (marked t v ≡ true) ⊎ P v

count-le : (l : List Bool) → count l ≤ length l
count-le [] = omega arith
count-le (true ∷ l) = omega (arith, count-le l)
count-le (false ∷ l) = omega (arith, count-le l)

-- A table with an entry that is not set has fewer set than it has entries.
count-lt : (l : List Bool) (v : ℕ) → get_elem? l v ≡ some false → count l < length l
count-lt [] v h = cc
count-lt (true ∷ l) zero h = cc
count-lt (false ∷ l) zero h = omega (arith, count-le l)
count-lt (true ∷ l) (suc v) h = omega (arith, count-lt l v h)
count-lt (false ∷ l) (suc v) h = omega (arith, count-lt l v h)

count-set :
    (l : List Bool) (v : ℕ) → get_elem? l v ≡ some false → count (set l v true) ≡ suc (count l)
count-set [] v h = cc
count-set (true ∷ l) zero h = cc
count-set (false ∷ l) zero h = refl
count-set (true ∷ l) (suc v) h = ap suc (count-set l v h)
count-set (false ∷ l) (suc v) h = count-set l v h

module _ {n : ℕ} {t : Table} where
  pub Grows-refl : (P : ℕ → Type 0) → IsTable n t → Grows n t P t
  Grows-refl P i = record {
    table = i;
    longer = omega arith;
    old = λ k h. refl;
    keep = λ v h. h;
    only = λ v h. inl h;
  }

  pub Grows-trans : {P : ℕ → Type 0} {u w : Table} → Grows n t P u → Grows n u P w → Grows n t P w
  Grows-trans {P} {u} {w} g h = record {
    table = h.table;
    longer = omega (arith, g.longer, h.longer);
    old = λ k lt. h.old k (omega (arith, g.longer)) ∙ g.old k lt;
    keep = λ v m. h.keep v (g.keep v m);
    only = λ v m. elim (h.only v m) [ inl m' ↦ g.only v m' | inr p ↦ inr p ];
  }

-- The list that `add_thread` appends to, when `v` is not yet marked.
appended : Table → ℕ → Table
appended t v = record { list = t.list ++ v ∷ []; lookup = set t.lookup v true }

module _ {n : ℕ} {t : Table} (P : ℕ → Type 0) (v : ℕ) (i : IsTable n t) (lt : v < n) where
  lookup_lt : v < length t.lookup
  lookup_lt = omega (arith, i.size)

  mark_self : get_or (set t.lookup v true) v false ≡ true
  mark_self = get_or-set_self t.lookup v true false lookup_lt

  mark_keep : (u : ℕ) → marked t u ≡ true → get_or (set t.lookup v true) u false ≡ true
  mark_keep u m = elim (ℕ_discrete v u) [
    | yes e ↦ rw (← e) mark_self
    | no ne ↦ get_or-set_ne t.lookup v u true false ne ∙ m
  ]

  mark_only : (u : ℕ) → get_or (set t.lookup v true) u false ≡ true → (marked t u ≡ true) ⊎ (v ≡ u)
  mark_only u m = elim (ℕ_discrete v u) [
    | yes e ↦ inr e
    | no ne ↦ inl (sym (get_or-set_ne t.lookup v u true false ne) ∙ m)
  ]

  appended-IsTable : get_elem? t.lookup v ≡ some false → IsTable n (appended t v)
  unfolding appended
  appended-IsTable e = record {
    size = length-set t.lookup v true ∙ i.size;
    counted = omega (arith, length-append t.list (v ∷ []), count-set t.lookup v e, i.counted);
    listed = λ u m. elim (mark_only u m) [
      | inl old ↦ (
        (i.listed u old).0,
        get_elem?-append_left t.list (v ∷ []) _ (get_elem?-lt t.list _ (i.listed u old).1)
            ∙ (i.listed u old).1,
      )
      | inr new ↦ (length t.list, get_elem?-concat t.list v ∙ ap some new)
    ];
    marks = λ k u g. elim (get_elem?-concat_cases t.list v k g) [
      | inl old ↦ mark_keep u (i.marks k u old)
      | inr e' ↦ rw (← e') mark_self
    ];
  }

  appended-Grows : P v → get_elem? t.lookup v ≡ some false → Grows n t P (appended t v)
  unfolding appended
  appended-Grows p e = record {
    table = appended-IsTable e;
    longer = omega (arith, length-append t.list (v ∷ []));
    old = λ k h. get_elem?-append_left t.list (v ∷ []) k h;
    keep = mark_keep;
    only = λ u m. elim (mark_only u m) [ inl old ↦ inl old | inr e' ↦ inr (subst P e' p) ];
  }

  -- A marked index stays where it is; an index that is not marked finds room at the end.
  add_thread_by_mark :
      P v
      → (b : Bool) → get_elem? t.lookup v ≡ some b
      → (t' : Table) × (add_thread t v ≡ done t') × Grows n t P t' × (marked t' v ≡ true)
  unfolding add_thread appended
  add_thread_by_mark p true e =
      (t, rw (e, add_thread), Grows-refl P i, get_or-eq t.lookup v false e)
  add_thread_by_mark p false e = (
    appended t v,
    rw (
      e,
      add_thread,
      lt→ltb (length t.list) (length t.lookup)
          (omega (arith, i.counted, i.size, count-lt t.lookup v e)),
    ),
    appended-Grows p e,
    mark_self,
  )

  pub add_thread_lem :
      P v → (t' : Table) × (add_thread t v ≡ done t') × Grows n t P t' × (marked t' v ≡ true)
  add_thread_lem p = let (b, e) = get_elem?-some t.lookup v lookup_lt in add_thread_by_mark p b e

count-replicate : (n : ℕ) → count (replicate n false) ≡ 0
count-replicate zero = refl
count-replicate (suc n) = count-replicate n

-- An empty list over a cleared table.
pub empty-IsTable : (n : ℕ) → IsTable n (record { list = []; lookup = replicate n false })
empty-IsTable n = record {
  size = length-replicate n false;
  counted = sym (count-replicate n);
  listed = λ v m. absurd (false≢true (sym (get_or-replicate n v false) ∙ m));
  marks = λ k v g. cc;
}

get_or-lt : (l : List Bool) (v : ℕ) → get_or l v false ≡ true → v < length l
get_or-lt [] v h = absurd (false≢true h)
get_or-lt (b ∷ l) zero h = omega arith
get_or-lt (b ∷ l) (suc v) h = omega (arith, get_or-lt l v h)

pub marked-lt : {n : ℕ} (t : Table) → IsTable n t → (v : ℕ) → marked t v ≡ true → v < n
marked-lt t i v m = omega (arith, get_or-lt t.lookup v m, i.size)

pub list-le : {n : ℕ} (t : Table) → IsTable n t → length t.list ≤ n
list-le t i = omega (arith, count-le t.lookup, i.counted, i.size)
