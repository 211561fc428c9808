-- ===== src/Print.antt =====
-- What librxvm/rxvm.c prints: the program in `rxvm_print`, and the messages of `rxvm_print_err`.
use Prim.Native.Char.{code}
use Prim.Native.String.{String}
use text.Mathlib.Text.{◌==◌ as str_eq}
use librxvm.Prelude.{
  ℕ, zero, suc, ◌<◌, ◌≡◌, refl, sym, ap, ◌∙◌, ◌⊎◌, inl, inr, Bool, false, ◌==◌, List, [], ◌∷◌, ◌++◌,
  ◌+◌, Outcome, done, fault, ◌>>=◌, Option, none, some, some_inj, arith, ltb, ltb→lt, Bool-cases,
  if◌then◌else◌,
}
use librxvm.Prelude.Int.{ℤ, pos, negsuc}
use librxvm.Inst.{Op, char, any, class, nclass, branch, jmp, sol, eol, match, Inst, Program}
use librxvm.Rxvm.{Compiled}
use librxvm.Err.{
  rxvm_badop, rxvm_badclass, rxvm_badrep, rxvm_badparen, rxvm_eparen, rxvm_eclass, rxvm_erep,
  rxvm_erange, rxvm_ecomma, rxvm_edigit, rxvm_mrep, rxvm_etrail, rxvm_einval, rxvm_emem,
  rxvm_eparam, rxvm_ioerr,
}

abbrev codes : String → List ℕ
codes String.[] = []
codes (String.◌∷◌ c s) = code c ∷ codes s

-- `decimal` is what printf writes for %d.
module _ (decimal : ℤ → List ℕ) where
  -- The text of a class; a null pointer is a fault.
  abbrev class_text : String → Inst → Outcome (List ℕ)
  class_text name inst = elim inst.ccs [ none ↦ fault | some ccs ↦ done (codes name ++ ccs) ]

  -- What stands behind the tab for each instruction.
  unfoldable pub inst_text : Op → Inst → Outcome (List ℕ)
  inst_text char inst = done (codes "char " ++ inst.c ∷ [])
  inst_text any inst = done (codes "any")
  inst_text sol inst = done (codes "sol")
  inst_text eol inst = done (codes "eol")
  inst_text class inst = class_text "class " inst
  inst_text nclass inst = class_text "nclass " inst
  inst_text branch inst = done (codes "branch " ++ decimal inst.x ++ b' ' ∷ decimal inst.y)
  inst_text jmp inst = done (codes "jmp " ++ decimal inst.x)
  inst_text match inst = done (codes "match")

  -- The loop of `rxvm_print` from `i` on.
  unfoldable pub print_from : ℕ → Program → Outcome (List ℕ)
  print_from i [] = done []
  print_from i (inst ∷ exe) = do
    text ← inst_text inst.op inst
    rest ← print_from (i + 1) exe
    done (decimal (pos i) ++ b'\t' ∷ text ++ b'\n' ∷ rest)

  unfoldable pub rxvm_print : Option Compiled → Outcome (List ℕ)
  rxvm_print none = done []
  rxvm_print (some compiled) = elim compiled.simple [
    | some simple ↦ done (b'"' ∷ simple ++ codes "\" no compilation required\n")
    | none ↦ print_from 0 compiled.exe
  ]

abbrev same_code : ℤ → ℤ → Bool
same_code (pos m) (pos n) = m == n
same_code (negsuc m) (negsuc n) = m == n
same_code _ _ = false

-- The cases of the switch.
abbrev messages : List (ℤ × String)
messages =
    (rxvm_badop, "Operator used incorrectly")
    ∷ (rxvm_badclass, "Unexpected character class closing character")
    ∷ (rxvm_badrep, "Unexpected closing repetition character")
    ∷ (rxvm_badparen, "Unexpected parenthesis group closing character")
    ∷ (rxvm_eparen, "Unterminated parenthesis group")
    ∷ (rxvm_eclass, "Unterminated character class")
    ∷ (rxvm_erep, "Missing repetition closing character")
    ∷ (rxvm_erange, "Incomplete character range inside character class")
    ∷ (rxvm_ecomma, "Invalid extra comma inside repetition")
    ∷ (rxvm_edigit, "Non-numerical character inside repetition")
    ∷ (rxvm_mrep, "Empty repetition")
    ∷ (rxvm_etrail, "Trailing escape character")
    ∷ (rxvm_einval, "Invalid symbol")
    ∷ (rxvm_emem, "Failed to allocate memory")
    ∷ (rxvm_eparam, "Invalid parameter passed to library function")
    ∷ (rxvm_ioerr, "rxvm_fsearch can't read from supplied FILE pointer")
    ∷ []

abbrev select : ℤ → List (ℤ × String) → String
select err [] = "Unrecognised error code"
select err ((code, msg) ∷ cases) = if same_code err code then msg else select err cases

-- `msg`
unfoldable pub err_message : ℤ → String
err_message err = select err messages

-- The code that a message stands for.
abbrev code_for : String → List (ℤ × String) → Option ℤ
code_for text [] = none
code_for text ((code, msg) ∷ cases) = if str_eq text msg then some code else code_for text cases

-- An error code of rxvm_err.h: one from RXVM_BADOP down to RXVM_IOERR.
abbrev pub IsCode : ℤ → Type 0
IsCode (pos n) = ⊥
IsCode (negsuc n) = n < 16

abbrev Known : ℤ → Type 0
Known err = code_for (err_message err) messages ≡ some err

abbrev Unknown : ℤ → Type 0
Unknown err = code_for (err_message err) messages ≡ none

all-Known : (n : ℕ) → n < 16 → Known (negsuc n)
unfolding err_message
all-Known zero lt = refl
all-Known (suc zero) lt = refl
all-Known (suc (suc zero)) lt = refl
all-Known (suc (suc (suc zero))) lt = refl
all-Known (suc (suc (suc (suc zero)))) lt = refl
all-Known (suc (suc (suc (suc (suc zero))))) lt = refl
all-Known (suc (suc (suc (suc (suc (suc zero)))))) lt = refl
all-Known (suc (suc (suc (suc (suc (suc (suc zero))))))) lt = refl
all-Known (suc (suc (suc (suc (suc (suc (suc (suc zero)))))))) lt = refl
all-Known (suc (suc (suc (suc (suc (suc (suc (suc (suc zero))))))))) lt = refl
all-Known (suc (suc (suc (suc (suc (suc (suc (suc (suc (suc zero)))))))))) lt = refl
all-Known (suc (suc (suc (suc (suc (suc (suc (suc (suc (suc (suc zero))))))))))) lt = refl
all-Known (suc (suc (suc (suc (suc (suc (suc (suc (suc (suc (suc (suc zero)))))))))))) lt = refl
all-Known (suc (suc (suc (suc (suc (suc (suc (suc (suc (suc (suc (suc (suc zero))))))))))))) lt =
    refl
all-Known (suc (suc (suc (suc (suc (suc (suc (suc (suc (suc (suc (suc (suc (suc zero))))))))))))))
      lt =
    refl
all-Known
      (suc (suc (suc (suc (suc (suc (suc (suc (suc (suc (suc (suc (suc (suc (suc zero)))))))))))))))
      lt =
    refl
all-Known
      (suc
        (suc (suc (suc (suc (suc (suc (suc (suc (suc (suc (suc (suc (suc (suc (suc n))))))))))))))))
      lt =
    absurd (omega arith)

beyond : (n : ℕ) → ltb n 16 ≡ false → err_message (negsuc n) ≡ "Unrecognised error code"
unfolding err_message
beyond n e = ground arith

Known-Unknown : (err : ℤ) → Known err ⊎ Unknown err
unfolding err_message
Known-Unknown (pos n) = inr refl
Known-Unknown (negsuc n) = elim (Bool-cases (ltb n 16)) [
  | inl e ↦ inl (all-Known n (ltb→lt n 16 e))
  | inr e ↦ inr (ap (λ z. code_for z messages) (beyond n e))
]

-- Each error code has a message of its own: no other code, whether rxvm_err.h has it or not, is
-- printed with the same message.
pub err_message-inj : (a b : ℤ) → IsCode a → err_message a ≡ err_message b → a ≡ b
err_message-inj (pos n) b h e = elim h [ ]
err_message-inj (negsuc n) b h e = elim (Known-Unknown b) [
  | inl q ↦ some_inj (sym (all-Known n h) ∙ ap (λ z. code_for z messages) e ∙ q)
  | inr q ↦
      let is : none ≡ some (negsuc n) =
        sym q ∙ sym (ap (λ z. code_for z messages) e) ∙ all-Known n h in
      absurd (cc)
]
