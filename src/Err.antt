-- ===== src/Err.antt =====
-- The error codes of librxvm/rxvm_err.h, and the results of functions that return one of them.
use librxvm.Prelude.Int.{ℤ, negsuc}

abbrev pub rxvm_badop : ℤ
rxvm_badop = negsuc 0

abbrev pub rxvm_badclass : ℤ
rxvm_badclass = negsuc 1

abbrev pub rxvm_badrep : ℤ
rxvm_badrep = negsuc 2

abbrev pub rxvm_badparen : ℤ
rxvm_badparen = negsuc 3

abbrev pub rxvm_eparen : ℤ
rxvm_eparen = negsuc 4

abbrev pub rxvm_eclass : ℤ
rxvm_eclass = negsuc 5

abbrev pub rxvm_erep : ℤ
rxvm_erep = negsuc 6

abbrev pub rxvm_erange : ℤ
rxvm_erange = negsuc 7

abbrev pub rxvm_ecomma : ℤ
rxvm_ecomma = negsuc 8

abbrev pub rxvm_edigit : ℤ
rxvm_edigit = negsuc 9

abbrev pub rxvm_mrep : ℤ
rxvm_mrep = negsuc 10

abbrev pub rxvm_etrail : ℤ
rxvm_etrail = negsuc 11

abbrev pub rxvm_einval : ℤ
rxvm_einval = negsuc 12

abbrev pub rxvm_emem : ℤ
rxvm_emem = negsuc 13

abbrev pub rxvm_eparam : ℤ
rxvm_eparam = negsuc 14

abbrev pub rxvm_ioerr : ℤ
rxvm_ioerr = negsuc 15

-- A function that returns 0, with what it leaves behind, or a negative code.
pub data Result {ℓ} (A : Type ℓ) : Type ℓ where
  ok : A → Result A
  err : ℤ → Result A

infixl 5 ◌>>=◌
abbrev pub ◌>>=◌ {ℓ κ} : {A : Type ℓ} {B : Type κ} → Result A → (A → Result B) → Result B
ok a >>= f = f a
err e >>= f = err e
