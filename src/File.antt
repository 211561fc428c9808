-- ===== src/File.antt =====
-- Files, as librxvm/bmh.c and librxvm/rxvm.c use them through stdio.h: the functions are a parameter
-- of the code, over the type of what a FILE pointer refers to. A byte is a number below 256, and EOF
-- stored as a char is 255, as where a plain char is signed.
use librxvm.Prelude.{
  ℕ, zero, suc, ◌+◌, ◌-◌, ◌≤◌, ◌≡◌, refl, Bool, true, false, List, Option, none, some, arith,
  length, take, drop,
}
use librxvm.Prelude.Int.{ℤ, pos, negsuc, index, ◌+ℤ◌}

pub data Whence : Type 0 where
  seek_set seek_cur : Whence

abbrev pub eof : ℕ
eof = 255

-- `fread` gives the bytes that it read; `ftell` none where it returns a negative number; `fseek`
-- whether it returned 0.
pub record Stdio (F : Type 0) : Type 0 where
  pub fread : ℕ → F → List ℕ × F
  pub ftell : F → Option ℕ
  pub fseek : ℤ → Whence → F → Bool × F

-- The offset that `fseek` asks for; none where it is negative.
abbrev pub target : ℤ → Whence → ℕ → Option ℕ
target d seek_set o = index d
target d seek_cur o = index (pos o +ℤ d)

-- What the functions promise on a regular file that nothing else writes or moves.
pub record IsRegular {F : Type 0} (io : Stdio F) : Type 0 where
  pub content : F → List ℕ
  pub offset : F → ℕ
  pub fread_data : (n : ℕ) (f : F) → (io.fread n f).0 ≡ take n (drop (offset f) (content f))
  pub fread_offset : (n : ℕ) (f : F) → offset (io.fread n f).1 ≡ offset f + length (io.fread n f).0
  pub fread_content : (n : ℕ) (f : F) → content (io.fread n f).1 ≡ content f
  pub ftell_offset : (f : F) → io.ftell f ≡ some (offset f)
  pub fseek_moves :
      (d : ℤ) (w : Whence) (f : F) (n : ℕ)
      → target d w (offset f) ≡ some n
      → ((io.fseek d w f).0 ≡ true)
        × (offset (io.fseek d w f).1 ≡ n)
        × (content (io.fseek d w f).1 ≡ content f)

-- `-n` as an offset.
abbrev pub minus : ℕ → ℤ
minus zero = pos 0
minus (suc n) = negsuc n

pub target-minus : (n o : ℕ) → n ≤ o → target (minus n) seek_cur o ≡ some (o - n)
unfolding ◌+ℤ◌
target-minus zero o h = ground arith
target-minus (suc n) o h = ground arith

pub target-pos : (n o : ℕ) → target (pos n) seek_cur o ≡ some (o + n)
unfolding ◌+ℤ◌
target-pos n o = ground arith

-- A file held in memory.
pub record MemoryFile : Type 0 where
  pub bytes : List ℕ
  pub at : ℕ

abbrev pub seek_to : MemoryFile → Option ℕ → Bool × MemoryFile
seek_to f none = (false, f)
seek_to f (some n) = (true, record f { at = n })

abbrev pub memory : Stdio MemoryFile
memory = record {
  fread = λ n f.
      let got : List ℕ = take n (drop f.at f.bytes) in (got, record f { at = f.at + length got });
  ftell = λ f. some f.at;
  fseek = λ d w f. seek_to f (target d w f.at);
}

abbrev pub memory-IsRegular : IsRegular memory
memory-IsRegular = record {
  content = λ f. f.bytes;
  offset = λ f. f.at;
  fread_data = λ n f. refl;
  fread_offset = λ n f. refl;
  fread_content = λ n f. refl;
  ftell_offset = λ f. refl;
  fseek_moves = λ d w f n e. rw e (refl, refl, refl);
}
