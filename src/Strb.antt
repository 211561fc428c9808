-- ===== src/Strb.antt =====
-- Strings that grow, librxvm/string_builder.c. `alloc n` tells whether `malloc` or `realloc` finds
-- `n` bytes.
pub mod Keeps
pub mod Decimal
use librxvm.Prelude.{
  ℕ, zero, suc, ◌+◌, ◌-◌, ◌*◌, ◌/◌, ◌%◌, ◌^◌, Bool, true, false, List, [], ◌∷◌, ◌++◌, Option, none,
  some, ltb, ◌==◌, if◌then◌else◌, length,
}
use librxvm.Err.{Result, ok, err, ◌>>=◌, rxvm_emem, rxvm_eparam}

-- `strb_t`: `buf` is the content, the first `size` bytes of the `space` allocated ones. The number of
-- bytes in memory is below 2 ^ 64.
pub record Strb : Type 0 where
  pub size : ℕ
  pub space : ℕ
  pub buf : List ℕ
  pub block_size : ℕ

abbrev pub default_block_size : ℕ
default_block_size = 10

abbrev pub append_char : ℕ → Strb → Strb
append_char c cfg = record cfg { buf = cfg.buf ++ c ∷ []; size = cfg.size + 1 }

-- `for (i = 0; i < n && s[i]; ++i)`.
unfoldable pub add_chars : ℕ → List ℕ → Strb → Strb
add_chars zero s cfg = cfg
add_chars (suc n) [] cfg = cfg
add_chars (suc n) (c ∷ s) cfg = if c == 0 then cfg else add_chars n s (append_char c cfg)

-- A 32-bit `int` that is added to an `unsigned long`: a negative one wraps around.
abbrev pub as_long : ℕ → ℕ
as_long w = if ltb w (2 ^ 31) then w else w + 2 ^ 64 - 2 ^ 32

-- `cfg->space + size`, where `size` is the product of an `unsigned int` and an `int`, as an `int`.
unfoldable pub enlarged_space : Strb → ℕ → ℕ
enlarged_space cfg blocks = (cfg.space + as_long (cfg.block_size * blocks % 2 ^ 32)) % 2 ^ 64

module _ (alloc : ℕ → Bool) where
  unfoldable pub enlarge_buf : Strb → ℕ → Result Strb
  unfolding enlarged_space
  enlarge_buf cfg blocks =
      if alloc (enlarged_space cfg blocks)
      then ok (record cfg { space = enlarged_space cfg blocks })
      else err rxvm_emem

  -- On a pointer that is not null; else the result is `rxvm_eparam`.
  unfoldable pub strb_init : Bool → ℕ → Result Strb
  strb_init cfg_null block_size =
      let size : ℕ = if block_size == 0 then default_block_size else block_size in
      if cfg_null
      then err rxvm_eparam
      else if alloc size
      then ok (record { size = 0; space = size; buf = []; block_size = size })
      else err rxvm_emem

  unfoldable pub strb_addc : Strb → ℕ → Result Strb
  unfolding enlarge_buf
  strb_addc cfg c =
      if ltb cfg.space ((cfg.size + 1) % 2 ^ 64)
      then enlarge_buf cfg 1 >>= (λ cfg'. ok (append_char c cfg'))
      else ok (append_char c cfg)

  -- A length that is not negative.
  unfoldable pub strb_adds : Strb → List ℕ → ℕ → Result Strb
  unfolding enlarge_buf
  strb_adds cfg s n =
      if ltb cfg.space ((cfg.size + n) % 2 ^ 64)
      then enlarge_buf cfg (((cfg.size + n) % 2 ^ 64 - cfg.space) / cfg.block_size + 1)
        >>= (λ cfg'. ok (add_chars n s cfg'))
      else ok (add_chars n s cfg)

-- `while (i > 0) { i /= 10; ++chars; }` on fuel.
unfoldable pub count_digits : ℕ → ℕ → ℕ
count_digits zero i = 0
count_digits (suc fuel) i = elim (i == 0) [ true ↦ 0 | false ↦ suc (count_digits fuel (i / 10)) ]

-- The digits are written from the last to the first; `text` holds those written so far.
unfoldable pub write_digits : ℕ → ℕ → List ℕ → List ℕ
write_digits zero val text = text
write_digits (suc fuel) val text = elim (val == 0) [
  | true ↦ text
  | false ↦ write_digits fuel (val / 10) ((val % 10 + b'0') ∷ text)
]

-- The string written and its length, or none for -1.
unfoldable pub my_utoa : ℕ → ℕ → Option (List ℕ × ℕ)
my_utoa val size =
    let chars : ℕ = count_digits (val + 1) val in
    if ltb size (chars + 1)
    then none
    else if chars == 0
    then some (b'0' ∷ [], 1)
    else some (write_digits (val + 1) val [], chars)

-- The local array has 20 places; a length of -1 adds nothing.
unfoldable pub strb_addu : (ℕ → Bool) → Strb → ℕ → Result Strb
strb_addu alloc cfg i = elim (my_utoa i 20) [
  | none ↦ ok cfg
  | some (num, chars) ↦ strb_adds alloc cfg num chars
]
