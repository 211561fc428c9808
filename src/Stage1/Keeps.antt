-- ===== src/Stage1/Keeps.antt =====
-- What writing a list of the first stage keeps of the invariant.
use librxvm.Prelude.{
  ℕ, suc, ◌+◌, ◌<◌, ◌≡◌, ◌≢◌, refl, sym, ◌∙◌, ◌⊎◌, inl, inr, false, List, [], ◌∷◌, ◌++◌, none,
  Option, arith, length, set, length-set, if◌then◌else◌, append-nil, Bool-cases,
}
use librxvm.Inst.{Inst}
use librxvm.Stack.{IrStack, create_stack, stack_cat, stack_cat_items, stack_reset}
use librxvm.Token.{Token}
use librxvm.Vmcode.Blocks.{put}
use librxvm.Vmcode.Keeps.{IsCode-IsClosed, IsCode, IsCode-put}
use librxvm.Stage1.Context.{group, base, parens_head, free_head, is_rparen}
use librxvm.Stage1.Plain.{IsPlain}
use librxvm.Stage1.Store.{
  at, at-set, IsParens, IsParens-below, IsParens-base, IsParens-free, group-base, group-free,
  IsShut, IsStore, IsBehind,
}

abbrev pub IsDone : IrStack → Type 0
IsDone s = s.dangling_alt ≡ none

cat_items-put :
    (t u : IrStack) (xs ys : List Inst)
    → t.items ≡ xs
    → t.size ≡ length xs
    → u.size ≡ length ys
    → stack_cat_items xs ys t u ≡ record t { items = xs ++ ys; size = length xs + length ys }
unfolding stack_cat_items
cat_items-put t u [] ys e n m =
    let size : u.size ≡ 0 + length ys = omega arith in λ i. record t { items = ys; size = size i }
cat_items-put t u (x ∷ xs) [] e n m =
    let all : t.items ≡ x ∷ (xs ++ []) = e ∙ sym (append-nil (x ∷ xs)) in
    let size : t.size ≡ suc (length xs) + 0 = omega arith in
    λ i. record t { items = all i; size = size i }
cat_items-put t u (x ∷ xs) (y ∷ ys) e n m =
    let size : t.size + u.size ≡ suc (length xs) + suc (length ys) = omega arith in
    λ i. record t { items = (x ∷ xs) ++ (y ∷ ys); size = size i }

-- Joining two lists puts the second behind the first.
pub stack_cat-put :
    (t u : IrStack)
    → t.size ≡ length t.items
    → u.size ≡ length u.items
    → stack_cat t u ≡ put t u.items
unfolding stack_cat
stack_cat-put t u n m =
    cat_items-put t u t.items u.items refl n m
    ∙ (λ i. record t { items = t.items ++ u.items; size = sym n i + length u.items })

pub cat-IsCode : (t u : IrStack) → IsCode t → IsCode u → IsDone u → IsCode (stack_cat t u)
cat-IsCode t u c d e =
    rw (stack_cat-put t u c.size_eq d.size_eq) (IsCode-put t u.items c (IsCode-IsClosed u d e))

pub cat-IsDone : (t u : IrStack) → IsCode t → IsCode u → IsDone t → IsDone (stack_cat t u)
cat-IsDone t u c d h = rw (stack_cat-put t u c.size_eq d.size_eq) h

pub reset-IsCode : (t : IrStack) → IsDone t → IsCode (stack_reset t)
unfolding stack_reset
reset-IsCode t h = record { size_eq = refl; lands = tt; ahead = tt; dangles = λ i e. grind arith }

pub create-IsCode : IsCode create_stack
unfolding create_stack
create-IsCode = record { size_eq = refl; lands = tt; ahead = tt; dangles = λ i e. grind arith }

module _ (store : List IrStack) (parens : List ℕ) (target buf : ℕ)
    (h : IsStore store parens target buf) where
  pub base-below : base < length store
  base-below = omega (
    arith,
    IsParens-base (length store) parens h.open_parens,
    IsParens-below (length store) parens h.open_parens,
  )

  pub target-base : target ≢ base
  target-base = elim h.place [
    | inl e ↦ λ f. group-base parens (sym e ∙ f)
    | inr s ↦ λ f. group-base (free_head parens) (sym s.behind ∙ f)
  ]

  -- The list of a closed parenthesis is not the target.
  pub target-head : IsShut store parens target → target ≢ parens_head parens
  target-head s =
      λ f. omega (arith, group-free (length store) parens s.deep h.open_parens, s.behind, f)

  module _ (s : IrStack) (c : IsCode s) where
    pub target-IsShut : IsShut store parens target → IsShut (set store target s) parens target
    target-IsShut w = record {
      deep = w.deep;
      behind = w.behind;
      head_done =
          at-set IsDone store target s (parens_head parens) (λ e. absurd (target-head w e))
            w.head_done;
    }

    -- Writing the target.
    pub target-IsStore : IsStore (set store target s) parens target buf
    target-IsStore = record {
      codes = λ i. at-set IsCode store target s i (λ e. c) (h.codes i);
      open_parens = rw (length-set store target s) h.open_parens;
      base_plain =
          at-set (λ t. IsPlain t.items) store target s base (λ e. absurd (target-base e))
            h.base_plain;
      base_done = at-set IsDone store target s base (λ e. absurd (target-base e)) h.base_done;
      buf_done = at-set IsDone store target s buf (λ e. absurd (h.apart (sym e))) h.buf_done;
      buf_below = rw (length-set store target s) h.buf_below;
      apart = h.apart;
      place = elim h.place [ inl e ↦ inl e | inr w ↦ inr (target-IsShut w) ];
    }

    pub target-IsPlain : IsPlain (at store buf).items → IsPlain (at (set store target s) buf).items
    target-IsPlain p =
        at-set (λ t. IsPlain t.items) store target s buf (λ e. absurd (h.apart (sym e))) p

    pub target-IsBehind :
        (tok : Token) (operand : Option (ℕ × ℕ))
        → IsBehind tok store parens target buf operand
        → IsBehind tok (set store target s) parens target buf operand
    target-IsBehind tok operand b = record {
      shut = λ e. (target-IsShut (b.shut e).0, (b.shut e).1);
      whole = elim b.whole [ inl p ↦ inl (target-IsPlain p) | inr w ↦ inr w ];
    }

  -- Emptying the list at `k`, which has no open jump.
  module _ (k : ℕ) (d : IsDone (at store k)) where
    abbrev emptied : List IrStack
    emptied = set store k (stack_reset (at store k))

    pub reset-IsDone : (j : ℕ) → IsDone (at store j) → IsDone (at emptied j)
    unfolding stack_reset
    reset-IsDone j g = at-set IsDone store k _ j (λ e. d) g

    emptied-IsPlain : (j : ℕ) → IsPlain (at store j).items → IsPlain (at emptied j).items
    unfolding stack_reset
    emptied-IsPlain j g = at-set (λ t. IsPlain t.items) store k _ j (λ e. tt) g

    pub reset-IsShut : IsShut store parens target → IsShut emptied parens target
    reset-IsShut w = record {
      deep = w.deep;
      behind = w.behind;
      head_done = reset-IsDone (parens_head parens) w.head_done;
    }

    pub reset-IsStore : IsStore emptied parens target buf
    reset-IsStore = record {
      codes = λ i. at-set IsCode store k _ i (λ e. reset-IsCode (at store k) d) (h.codes i);
      open_parens = rw (length-set store k (stack_reset (at store k))) h.open_parens;
      base_plain = emptied-IsPlain base h.base_plain;
      base_done = reset-IsDone base h.base_done;
      buf_done = reset-IsDone buf h.buf_done;
      buf_below = rw (length-set store k (stack_reset (at store k))) h.buf_below;
      apart = h.apart;
      place = elim h.place [ inl e ↦ inl e | inr w ↦ inr (reset-IsShut w) ];
    }

    pub reset-IsPlain : IsPlain (at store buf).items → IsPlain (at emptied buf).items
    reset-IsPlain p = emptied-IsPlain buf p

    pub reset-IsBehind :
        (tok : Token) (operand : Option (ℕ × ℕ))
        → IsBehind tok store parens target buf operand
        → IsBehind tok emptied parens target buf operand
    reset-IsBehind tok operand b = record {
      shut = λ e. (reset-IsShut (b.shut e).0, (b.shut e).1);
      whole = elim b.whole [ inl p ↦ inl (emptied-IsPlain buf p) | inr w ↦ inr w ];
    }

  at_base :
      (rest : List ℕ)
      → IsParens (length store) rest
      → (target ≡ group rest) ⊎ IsShut store rest target
      → IsStore store rest target base
  at_base rest o p = record {
    codes = h.codes;
    open_parens = o;
    base_plain = h.base_plain;
    base_done = h.base_done;
    buf_done = h.base_done;
    buf_below = base-below;
    apart = λ f. target-base (sym f);
    place = p;
  }

  -- Back to the shared buffer; a parenthesis that was closed last is freed.
  pub base-IsStore :
      (tok : Token) (operand : Option (ℕ × ℕ))
      → IsBehind tok store parens target buf operand
      → IsStore store (if is_rparen tok then free_head parens else parens) target base
  base-IsStore tok operand b = elim (Bool-cases (is_rparen tok)) [
    | inr e ↦ rw e (at_base parens h.open_parens h.place)
    | inl e ↦
        let w : IsShut store parens target = (b.shut e).0 in
        rw e (
          at_base (free_head parens) (IsParens-free (length store) parens w.deep h.open_parens)
            (inl w.behind))
  ]

  -- Behind a token that closes nothing, with a buffer that has no jumps.
  pub plain-IsBehind :
      (tok : Token) (operand : Option (ℕ × ℕ))
      → is_rparen tok ≡ false
      → IsPlain (at store buf).items
      → IsBehind tok store parens target buf operand
  plain-IsBehind tok operand e p = record { shut = λ f. absurd (grind arith); whole = inl p }
